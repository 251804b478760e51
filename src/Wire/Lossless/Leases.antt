-- ===== src/Wire/Lossless/Leases.antt =====
-- The encoders and decoders of Wire/Messages/Leases.
use Prim.Native.Nat.{◌<◌, ◌^◌}
use mathlib.Core.Path.{◌≡◌}
use mathlib.Core.List.{List, [], ◌∷◌}
use native.Mathlib.Omega.{arith}
use state_spectre.Prelude.{length}
use state_spectre.Wire.Words.{U64, Bytes}
use state_spectre.Wire.RoundTrips.{RoundTrips, RoundTrips-last, RoundTrips-done}
use state_spectre.Wire.RoundTrips.Parts.{
  RoundTrips-put_word, RoundTrips-put_bool, RoundTrips-put_str, RoundTrips-put_list,
  RoundTrips-counted, word_then, bool_then, str_then,
}
use state_spectre.Wire.Messages.Leases.{
  ReleaseLeaseRequest, ReleaseLeaseResponse, LocationQueryRequest, LocationQueryResponse,
  BatchCompletion, BatchCompleteRequest, BatchCompleteResponse, GetStatsRequest, ShutdownRequest,
  ShutdownResponse, encode_release_lease_request, decode_release_lease_request,
  encode_release_lease_response, decode_release_lease_response, encode_location_query_request,
  decode_location_query_request, encode_location_query_response, decode_location_query_response,
  put_batch_completion, get_batch_completion, encode_batch_complete_request,
  decode_batch_complete_request, encode_batch_complete_response, decode_batch_complete_response,
  encode_get_stats_request, decode_get_stats_request, encode_shutdown_request,
  decode_shutdown_request, encode_shutdown_response, decode_shutdown_response, GetStatsResponse,
  put_stats, get_stats, encode_get_stats_response, decode_get_stats_response,
}

pub RoundTrips-encode_release_lease_request :
    (m : ReleaseLeaseRequest)
    → RoundTrips (encode_release_lease_request m) decode_release_lease_request m
unfolding encode_release_lease_request decode_release_lease_request
RoundTrips-encode_release_lease_request m =
    word_then _ (word_then _ (word_then _ (word_then _ (RoundTrips-last _ (RoundTrips-put_str _)))))

pub RoundTrips-encode_release_lease_response :
    (m : ReleaseLeaseResponse)
    → RoundTrips (encode_release_lease_response m) decode_release_lease_response m
unfolding encode_release_lease_response decode_release_lease_response
RoundTrips-encode_release_lease_response m = bool_then _ (RoundTrips-last _ (RoundTrips-put_str _))

pub RoundTrips-encode_location_query_request :
    (m : LocationQueryRequest)
    → RoundTrips (encode_location_query_request m) decode_location_query_request m
unfolding encode_location_query_request decode_location_query_request
RoundTrips-encode_location_query_request m = word_then _ (RoundTrips-last _ (RoundTrips-put_word _))

pub RoundTrips-encode_location_query_response :
    (m : LocationQueryResponse)
    → RoundTrips (encode_location_query_response m) decode_location_query_response m
unfolding encode_location_query_response decode_location_query_response
RoundTrips-encode_location_query_response m = bool_then _ (
    str_then _
      (word_then _ (word_then _ (word_then _ (RoundTrips-last _ (RoundTrips-put_word _))))))

pub RoundTrips-put_batch_completion :
    (m : BatchCompletion) → RoundTrips (put_batch_completion m) get_batch_completion m
unfolding put_batch_completion get_batch_completion
RoundTrips-put_batch_completion m = word_then _ (
    word_then _ (
      word_then _ (
        word_then _
          (word_then _ (word_then _ (word_then _ (RoundTrips-last _ (RoundTrips-put_bool _))))))))

pub RoundTrips-encode_batch_complete_request :
    (m : BatchCompleteRequest)
    → length m.completions < 256 ^ 4
    → RoundTrips (encode_batch_complete_request m) decode_batch_complete_request m
unfolding encode_batch_complete_request decode_batch_complete_request
RoundTrips-encode_batch_complete_request m completions_fit = word_then _ (
    word_then _ (
      RoundTrips-last _
        (RoundTrips-put_list _ _ RoundTrips-put_batch_completion _ completions_fit)))

pub RoundTrips-encode_batch_complete_response :
    (m : BatchCompleteResponse)
    → RoundTrips (encode_batch_complete_response m) decode_batch_complete_response m
unfolding encode_batch_complete_response decode_batch_complete_response
RoundTrips-encode_batch_complete_response m =
    bool_then _ (str_then _ (word_then _ (RoundTrips-last _ (RoundTrips-put_word _))))

pub RoundTrips-encode_get_stats_request :
    (m : GetStatsRequest) → RoundTrips (encode_get_stats_request m) decode_get_stats_request m
unfolding encode_get_stats_request decode_get_stats_request
RoundTrips-encode_get_stats_request m = RoundTrips-last _ (RoundTrips-put_word _)

pub RoundTrips-encode_shutdown_request :
    (m : ShutdownRequest) → RoundTrips (encode_shutdown_request m) decode_shutdown_request m
unfolding encode_shutdown_request decode_shutdown_request
RoundTrips-encode_shutdown_request m = RoundTrips-last _ (RoundTrips-put_word _)

pub RoundTrips-encode_shutdown_response :
    (m : ShutdownResponse) → RoundTrips (encode_shutdown_response m) decode_shutdown_response m
unfolding encode_shutdown_response decode_shutdown_response
RoundTrips-encode_shutdown_response m = bool_then _ (RoundTrips-last _ (RoundTrips-put_str _))

RoundTrips-put_stats :
    (keys : List Bytes) (values : List U64)
    → length keys ≡ length values
    → RoundTrips (put_stats keys values) (get_stats (length keys)) (keys, values)
unfolding put_stats get_stats
RoundTrips-put_stats [] [] e = RoundTrips-done
RoundTrips-put_stats [] (v ∷ values) e = absurd (omega arith)
RoundTrips-put_stats (key ∷ keys) [] e = absurd (omega arith)
RoundTrips-put_stats (key ∷ keys) (v ∷ values) e = str_then _ (
    word_then _ (
      RoundTrips-last (λ more. (key ∷ more.0, v ∷ more.1))
        (RoundTrips-put_stats keys values (omega arith))))

pub RoundTrips-encode_get_stats_response :
    (m : GetStatsResponse)
    → length m.keys ≡ length m.values
    → length m.keys < 256 ^ 4
    → RoundTrips (encode_get_stats_response m) decode_get_stats_response m
unfolding encode_get_stats_response decode_get_stats_response
RoundTrips-encode_get_stats_response m e keys_fit = bool_then _ (
    str_then _ (
      RoundTrips-counted _ _ keys_fit (RoundTrips-last _ (RoundTrips-put_stats m.keys m.values e))))
