-- ===== src/Wire/Lossless/Releases.antt =====
-- The encoders and decoders of Wire/Messages/Releases.
use state_spectre.Wire.RoundTrips.{RoundTrips, RoundTrips->>=, RoundTrips-last}
use state_spectre.Wire.RoundTrips.Parts.{RoundTrips-put_word, word_then, bool_then, str_then}
use state_spectre.Wire.Messages.Releases.{
  DropCanonicalVersionRequest, DropCanonicalVersionResponse, ReleaseCanonicalRequest,
  ReleaseCanonicalResponse, encode_drop_canonical_version_request,
  decode_drop_canonical_version_request, encode_drop_canonical_version_response,
  decode_drop_canonical_version_response, encode_release_canonical_request,
  decode_release_canonical_request, encode_release_canonical_response,
  decode_release_canonical_response,
}
use state_spectre.Wire.Lossless.Keys.{RoundTrips-put_job_key}

pub RoundTrips-encode_drop_canonical_version_request :
    (m : DropCanonicalVersionRequest)
    → RoundTrips (encode_drop_canonical_version_request m) decode_drop_canonical_version_request m
unfolding encode_drop_canonical_version_request decode_drop_canonical_version_request
RoundTrips-encode_drop_canonical_version_request m =
    RoundTrips->>= _ (RoundTrips-put_job_key _)
      (word_then _ (RoundTrips-last _ (RoundTrips-put_word _)))

pub RoundTrips-encode_drop_canonical_version_response :
    (m : DropCanonicalVersionResponse)
    → RoundTrips (encode_drop_canonical_version_response m) decode_drop_canonical_version_response m
unfolding encode_drop_canonical_version_response decode_drop_canonical_version_response
RoundTrips-encode_drop_canonical_version_response m =
    bool_then _ (str_then _ (word_then _ (word_then _ (RoundTrips-last _ (RoundTrips-put_word _)))))

pub RoundTrips-encode_release_canonical_request :
    (m : ReleaseCanonicalRequest)
    → RoundTrips (encode_release_canonical_request m) decode_release_canonical_request m
unfolding encode_release_canonical_request decode_release_canonical_request
RoundTrips-encode_release_canonical_request m = word_then _ (
    word_then _ (
      RoundTrips->>= _ (RoundTrips-put_job_key _)
        (word_then _ (word_then _ (RoundTrips-last _ (RoundTrips-put_word _))))))

pub RoundTrips-encode_release_canonical_response :
    (m : ReleaseCanonicalResponse)
    → RoundTrips (encode_release_canonical_response m) decode_release_canonical_response m
unfolding encode_release_canonical_response decode_release_canonical_response
RoundTrips-encode_release_canonical_response m =
    bool_then _ (str_then _ (word_then _ (word_then _ (RoundTrips-last _ (RoundTrips-put_word _)))))
