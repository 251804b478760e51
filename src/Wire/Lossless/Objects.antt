-- ===== src/Wire/Lossless/Objects.antt =====
-- The encoders and decoders of Wire/Messages/Objects.
use Prim.Native.Nat.{◌<◌, ◌^◌}
use state_spectre.Prelude.{length}
use state_spectre.Wire.RoundTrips.{RoundTrips, RoundTrips->>=, RoundTrips-last}
use state_spectre.Wire.RoundTrips.Parts.{
  RoundTrips-put_word, RoundTrips-put_bool, RoundTrips-put_str, RoundTrips-put_list, word_then,
  bool_then, str_then,
}
use state_spectre.Wire.Messages.Objects.{
  RegisterJobRequest, RegisterJobResponse, RequestCanonicalEvictRequest,
  RequestCanonicalEvictResponse, CommitCanonicalObjectRequest, CommitCanonicalObjectResponse,
  encode_register_job_request, decode_register_job_request, encode_register_job_response,
  decode_register_job_response, encode_request_canonical_evict_request,
  decode_request_canonical_evict_request, encode_request_canonical_evict_response,
  decode_request_canonical_evict_response, encode_commit_canonical_object_request,
  decode_commit_canonical_object_request, encode_commit_canonical_object_response,
  decode_commit_canonical_object_response,
}
use state_spectre.Wire.Lossless.Keys.{RoundTrips-put_job_key, RoundTrips-put_key}

pub RoundTrips-encode_register_job_request :
    (m : RegisterJobRequest)
    → length m.label_keys < 256 ^ 4
    → length m.label_values < 256 ^ 4
    → RoundTrips (encode_register_job_request m) decode_register_job_request m
unfolding encode_register_job_request decode_register_job_request
RoundTrips-encode_register_job_request m label_keys_fit label_values_fit = word_then _ (
    str_then _ (
      word_then _ (
        RoundTrips->>= _ (RoundTrips-put_list _ _ RoundTrips-put_str _ label_keys_fit)
          (RoundTrips-last _ (RoundTrips-put_list _ _ RoundTrips-put_str _ label_values_fit)))))

pub RoundTrips-encode_register_job_response :
    (m : RegisterJobResponse)
    → RoundTrips (encode_register_job_response m) decode_register_job_response m
unfolding encode_register_job_response decode_register_job_response
RoundTrips-encode_register_job_response m = bool_then _ (
    str_then _
      (RoundTrips->>= _ (RoundTrips-put_job_key _) (RoundTrips-last _ (RoundTrips-put_word _))))

pub RoundTrips-encode_request_canonical_evict_request :
    (m : RequestCanonicalEvictRequest)
    → RoundTrips (encode_request_canonical_evict_request m) decode_request_canonical_evict_request m
unfolding encode_request_canonical_evict_request decode_request_canonical_evict_request
RoundTrips-encode_request_canonical_evict_request m = word_then _ (
    word_then _ (
      RoundTrips->>= _ (RoundTrips-put_key _) (
        word_then _ (
          word_then _ (
            bool_then _ (
              bool_then _ (
                bool_then _ (
                  word_then _ (
                    bool_then _ (
                      word_then _ (
                        word_then _
                          (word_then _ (RoundTrips-last _ (RoundTrips-put_word _))))))))))))))

pub RoundTrips-encode_request_canonical_evict_response :
    (m : RequestCanonicalEvictResponse)
    → RoundTrips
        (encode_request_canonical_evict_response m)
        decode_request_canonical_evict_response
        m
unfolding encode_request_canonical_evict_response decode_request_canonical_evict_response
RoundTrips-encode_request_canonical_evict_response m = bool_then _ (
    str_then _ (
      word_then _ (
        word_then _ (
          word_then _ (
            word_then _ (
              word_then _
                (word_then _ (word_then _ (RoundTrips-last _ (RoundTrips-put_word _))))))))))

pub RoundTrips-encode_commit_canonical_object_request :
    (m : CommitCanonicalObjectRequest)
    → RoundTrips (encode_commit_canonical_object_request m) decode_commit_canonical_object_request m
unfolding encode_commit_canonical_object_request decode_commit_canonical_object_request
RoundTrips-encode_commit_canonical_object_request m = word_then _ (
    word_then _ (
      word_then _
        (word_then _ (word_then _ (word_then _ (RoundTrips-last _ (RoundTrips-put_word _)))))))

pub RoundTrips-encode_commit_canonical_object_response :
    (m : CommitCanonicalObjectResponse)
    → RoundTrips
        (encode_commit_canonical_object_response m)
        decode_commit_canonical_object_response
        m
unfolding encode_commit_canonical_object_response decode_commit_canonical_object_response
RoundTrips-encode_commit_canonical_object_response m =
    bool_then _ (str_then _ (word_then _ (RoundTrips-last _ (RoundTrips-put_bool _))))
