-- ===== src/Wire/Lossless/Versions.antt =====
-- The encoders and decoders of Wire/Messages/Versions.
use Prim.Native.Nat.{◌<◌, ◌^◌}
use state_spectre.Prelude.{length}
use state_spectre.Wire.RoundTrips.{RoundTrips, RoundTrips->>=, RoundTrips-last}
use state_spectre.Wire.RoundTrips.Parts.{
  RoundTrips-put_word, RoundTrips-put_bool, RoundTrips-put_str, RoundTrips-put_list, word_then,
  bool_then, str_then,
}
use state_spectre.Wire.Messages.Versions.{
  SealModelVersionRequest, SealModelVersionResponse, GetLatestSealedVersionRequest,
  GetLatestSealedVersionResponse, GetManifestRequest, TensorManifestEntryWire, GetManifestResponse,
  encode_seal_model_version_request, decode_seal_model_version_request,
  encode_seal_model_version_response, decode_seal_model_version_response,
  encode_get_latest_sealed_version_request, decode_get_latest_sealed_version_request,
  encode_get_latest_sealed_version_response, decode_get_latest_sealed_version_response,
  encode_get_manifest_request, decode_get_manifest_request, put_tensor_manifest_entry,
  get_tensor_manifest_entry, encode_get_manifest_response, decode_get_manifest_response,
}
use state_spectre.Wire.Lossless.Keys.{
  RoundTrips-put_job_key, RoundTrips-put_key, RoundTrips-put_filter,
}

pub RoundTrips-encode_seal_model_version_request :
    (m : SealModelVersionRequest)
    → length m.expected_param_ids < 256 ^ 4
    → RoundTrips (encode_seal_model_version_request m) decode_seal_model_version_request m
unfolding encode_seal_model_version_request decode_seal_model_version_request
RoundTrips-encode_seal_model_version_request m expected_param_ids_fit =
    RoundTrips->>= _ (RoundTrips-put_job_key _) (
      word_then _ (
        word_then _ (
          bool_then _ (
            RoundTrips->>= _ (RoundTrips-put_list _ _ RoundTrips-put_word _ expected_param_ids_fit)
              (RoundTrips-last _ (RoundTrips-put_bool _))))))

pub RoundTrips-encode_seal_model_version_response :
    (m : SealModelVersionResponse)
    → RoundTrips (encode_seal_model_version_response m) decode_seal_model_version_response m
unfolding encode_seal_model_version_response decode_seal_model_version_response
RoundTrips-encode_seal_model_version_response m = bool_then _ (
    str_then _ (
      word_then _
        (word_then _ (word_then _ (word_then _ (RoundTrips-last _ (RoundTrips-put_word _)))))))

pub RoundTrips-encode_get_latest_sealed_version_request :
    (m : GetLatestSealedVersionRequest)
    → RoundTrips
        (encode_get_latest_sealed_version_request m)
        decode_get_latest_sealed_version_request
        m
unfolding encode_get_latest_sealed_version_request decode_get_latest_sealed_version_request
RoundTrips-encode_get_latest_sealed_version_request m =
    RoundTrips->>= _ (RoundTrips-put_job_key _) (RoundTrips-last _ (RoundTrips-put_word _))

pub RoundTrips-encode_get_latest_sealed_version_response :
    (m : GetLatestSealedVersionResponse)
    → RoundTrips
        (encode_get_latest_sealed_version_response m)
        decode_get_latest_sealed_version_response
        m
unfolding encode_get_latest_sealed_version_response decode_get_latest_sealed_version_response
RoundTrips-encode_get_latest_sealed_version_response m =
    bool_then _ (str_then _ (bool_then _ (RoundTrips-last _ (RoundTrips-put_word _))))

pub RoundTrips-encode_get_manifest_request :
    (m : GetManifestRequest)
    → RoundTrips (encode_get_manifest_request m) decode_get_manifest_request m
unfolding encode_get_manifest_request decode_get_manifest_request
RoundTrips-encode_get_manifest_request m =
    RoundTrips->>= _ (RoundTrips-put_job_key _)
      (word_then _ (word_then _ (RoundTrips-last _ (RoundTrips-put_filter _))))

pub RoundTrips-put_tensor_manifest_entry :
    (m : TensorManifestEntryWire)
    → RoundTrips (put_tensor_manifest_entry m) get_tensor_manifest_entry m
unfolding put_tensor_manifest_entry get_tensor_manifest_entry
RoundTrips-put_tensor_manifest_entry m = RoundTrips->>= _ (RoundTrips-put_key _) (
    word_then _
      (word_then _ (word_then _ (word_then _ (RoundTrips-last _ (RoundTrips-put_str _))))))

pub RoundTrips-encode_get_manifest_response :
    (m : GetManifestResponse)
    → length m.tensors < 256 ^ 4
    → RoundTrips (encode_get_manifest_response m) decode_get_manifest_response m
unfolding encode_get_manifest_response decode_get_manifest_response
RoundTrips-encode_get_manifest_response m tensors_fit = bool_then _ (
    str_then _ (
      RoundTrips->>= _ (RoundTrips-put_job_key _) (
        word_then _ (
          word_then _ (
            word_then _ (
              RoundTrips-last _
                (RoundTrips-put_list _ _ RoundTrips-put_tensor_manifest_entry _ tensors_fit)))))))
