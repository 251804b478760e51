-- ===== src/Wire/Lossless/Reads.antt =====
-- The encoders and decoders of Wire/Messages/Reads.
use state_spectre.Wire.RoundTrips.{RoundTrips, RoundTrips->>=, RoundTrips-last}
use state_spectre.Wire.RoundTrips.Parts.{
  RoundTrips-put_word, RoundTrips-put_str, word_then, bool_then, str_then,
}
use state_spectre.Wire.Messages.Reads.{
  PullTensorRequest, PullTensorResponse, RequestCanonicalRestoreRequest,
  RequestCanonicalRestoreResponse, ReleaseCanonicalRestoreRequest, ReleaseCanonicalRestoreResponse,
  encode_pull_tensor_request, decode_pull_tensor_request, encode_pull_tensor_response,
  decode_pull_tensor_response, encode_request_canonical_restore_request,
  decode_request_canonical_restore_request, encode_request_canonical_restore_response,
  decode_request_canonical_restore_response, encode_release_canonical_restore_request,
  decode_release_canonical_restore_request, encode_release_canonical_restore_response,
  decode_release_canonical_restore_response,
}
use state_spectre.Wire.Lossless.Keys.{RoundTrips-put_job_key}

pub RoundTrips-encode_pull_tensor_request :
    (m : PullTensorRequest) → RoundTrips (encode_pull_tensor_request m) decode_pull_tensor_request m
unfolding encode_pull_tensor_request decode_pull_tensor_request
RoundTrips-encode_pull_tensor_request m = RoundTrips->>= _ (RoundTrips-put_job_key _) (
    word_then _
      (word_then _ (word_then _ (word_then _ (RoundTrips-last _ (RoundTrips-put_str _))))))

pub RoundTrips-encode_pull_tensor_response :
    (m : PullTensorResponse)
    → RoundTrips (encode_pull_tensor_response m) decode_pull_tensor_response m
unfolding encode_pull_tensor_response decode_pull_tensor_response
RoundTrips-encode_pull_tensor_response m = bool_then _ (
    str_then _ (
      word_then _ (
        word_then _
          (word_then _ (word_then _ (word_then _ (RoundTrips-last _ (RoundTrips-put_str _))))))))

pub RoundTrips-encode_request_canonical_restore_request :
    (m : RequestCanonicalRestoreRequest)
    → RoundTrips
        (encode_request_canonical_restore_request m)
        decode_request_canonical_restore_request
        m
unfolding encode_request_canonical_restore_request decode_request_canonical_restore_request
RoundTrips-encode_request_canonical_restore_request m =
    word_then _
      (word_then _ (word_then _ (word_then _ (RoundTrips-last _ (RoundTrips-put_word _)))))

pub RoundTrips-encode_request_canonical_restore_response :
    (m : RequestCanonicalRestoreResponse)
    → RoundTrips
        (encode_request_canonical_restore_response m)
        decode_request_canonical_restore_response
        m
unfolding encode_request_canonical_restore_response decode_request_canonical_restore_response
RoundTrips-encode_request_canonical_restore_response m = bool_then _ (
    str_then _ (
      bool_then _
        (word_then _ (word_then _ (word_then _ (RoundTrips-last _ (RoundTrips-put_word _)))))))

pub RoundTrips-encode_release_canonical_restore_request :
    (m : ReleaseCanonicalRestoreRequest)
    → RoundTrips
        (encode_release_canonical_restore_request m)
        decode_release_canonical_restore_request
        m
unfolding encode_release_canonical_restore_request decode_release_canonical_restore_request
RoundTrips-encode_release_canonical_restore_request m =
    word_then _ (word_then _ (RoundTrips-last _ (RoundTrips-put_word _)))

pub RoundTrips-encode_release_canonical_restore_response :
    (m : ReleaseCanonicalRestoreResponse)
    → RoundTrips
        (encode_release_canonical_restore_response m)
        decode_release_canonical_restore_response
        m
unfolding encode_release_canonical_restore_response decode_release_canonical_restore_response
RoundTrips-encode_release_canonical_restore_response m =
    bool_then _ (RoundTrips-last _ (RoundTrips-put_str _))
