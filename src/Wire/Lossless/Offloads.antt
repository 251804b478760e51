-- ===== src/Wire/Lossless/Offloads.antt =====
-- The encoders and decoders of Wire/Messages/Offloads.
use state_spectre.Wire.RoundTrips.{RoundTrips, RoundTrips-last}
use state_spectre.Wire.RoundTrips.Parts.{
  RoundTrips-put_word, RoundTrips-put_bool, RoundTrips-put_str, word_then, bool_then, str_then,
}
use state_spectre.Wire.Messages.Offloads.{
  RequestOffloadRequest, RequestOffloadResponse, MarkD2hSubmittedRequest, MarkD2hSubmittedResponse,
  MarkD2hCompleteRequest, MarkD2hCompleteResponse, encode_request_offload_request,
  decode_request_offload_request, encode_request_offload_response, decode_request_offload_response,
  encode_mark_d2h_submitted_request, decode_mark_d2h_submitted_request,
  encode_mark_d2h_submitted_response, decode_mark_d2h_submitted_response,
  encode_mark_d2h_complete_request, decode_mark_d2h_complete_request,
  encode_mark_d2h_complete_response, decode_mark_d2h_complete_response,
}

pub RoundTrips-encode_request_offload_request :
    (m : RequestOffloadRequest)
    → RoundTrips (encode_request_offload_request m) decode_request_offload_request m
unfolding encode_request_offload_request decode_request_offload_request
RoundTrips-encode_request_offload_request m = word_then _ (
    word_then _ (
      word_then _ (
        word_then _ (
          word_then _ (
            word_then _ (
              word_then _ (
                word_then _
                  (word_then _ (word_then _ (RoundTrips-last _ (RoundTrips-put_str _)))))))))))

pub RoundTrips-encode_request_offload_response :
    (m : RequestOffloadResponse)
    → RoundTrips (encode_request_offload_response m) decode_request_offload_response m
unfolding encode_request_offload_response decode_request_offload_response
RoundTrips-encode_request_offload_response m = bool_then _ (
    str_then _ (
      word_then _ (
        word_then _ (
          word_then _ (
            word_then _ (word_then _ (word_then _ (RoundTrips-last _ (RoundTrips-put_bool _)))))))))

pub RoundTrips-encode_mark_d2h_submitted_request :
    (m : MarkD2hSubmittedRequest)
    → RoundTrips (encode_mark_d2h_submitted_request m) decode_mark_d2h_submitted_request m
unfolding encode_mark_d2h_submitted_request decode_mark_d2h_submitted_request
RoundTrips-encode_mark_d2h_submitted_request m = word_then _ (
    word_then _ (
      word_then _ (
        word_then _
          (word_then _ (word_then _ (word_then _ (RoundTrips-last _ (RoundTrips-put_word _))))))))

pub RoundTrips-encode_mark_d2h_submitted_response :
    (m : MarkD2hSubmittedResponse)
    → RoundTrips (encode_mark_d2h_submitted_response m) decode_mark_d2h_submitted_response m
unfolding encode_mark_d2h_submitted_response decode_mark_d2h_submitted_response
RoundTrips-encode_mark_d2h_submitted_response m =
    bool_then _ (RoundTrips-last _ (RoundTrips-put_str _))

pub RoundTrips-encode_mark_d2h_complete_request :
    (m : MarkD2hCompleteRequest)
    → RoundTrips (encode_mark_d2h_complete_request m) decode_mark_d2h_complete_request m
unfolding encode_mark_d2h_complete_request decode_mark_d2h_complete_request
RoundTrips-encode_mark_d2h_complete_request m = word_then _ (
    word_then _ (
      word_then _ (
        word_then _
          (word_then _ (word_then _ (word_then _ (RoundTrips-last _ (RoundTrips-put_word _))))))))

pub RoundTrips-encode_mark_d2h_complete_response :
    (m : MarkD2hCompleteResponse)
    → RoundTrips (encode_mark_d2h_complete_response m) decode_mark_d2h_complete_response m
unfolding encode_mark_d2h_complete_response decode_mark_d2h_complete_response
RoundTrips-encode_mark_d2h_complete_response m =
    bool_then _ (str_then _ (bool_then _ (RoundTrips-last _ (RoundTrips-put_bool _))))
