-- ===== src/Wire/Lossless/Prefetches.antt =====
-- The encoders and decoders of Wire/Messages/Prefetches.
use state_spectre.Wire.RoundTrips.{RoundTrips, RoundTrips-last}
use state_spectre.Wire.RoundTrips.Parts.{
  RoundTrips-put_word, RoundTrips-put_str, word_then, bool_then, str_then,
}
use state_spectre.Wire.Messages.Prefetches.{
  RequestPrefetchRequest, RequestPrefetchResponse, MarkH2dSubmittedRequest,
  MarkH2dSubmittedResponse, MarkH2dCompleteRequest, MarkH2dCompleteResponse,
  encode_request_prefetch_request, decode_request_prefetch_request,
  encode_request_prefetch_response, decode_request_prefetch_response,
  encode_mark_h2d_submitted_request, decode_mark_h2d_submitted_request,
  encode_mark_h2d_submitted_response, decode_mark_h2d_submitted_response,
  encode_mark_h2d_complete_request, decode_mark_h2d_complete_request,
  encode_mark_h2d_complete_response, decode_mark_h2d_complete_response,
}

pub RoundTrips-encode_request_prefetch_request :
    (m : RequestPrefetchRequest)
    → RoundTrips (encode_request_prefetch_request m) decode_request_prefetch_request m
unfolding encode_request_prefetch_request decode_request_prefetch_request
RoundTrips-encode_request_prefetch_request m = word_then _ (
    word_then _ (
      word_then _ (
        word_then _ (
          word_then _ (
            word_then _ (word_then _ (word_then _ (RoundTrips-last _ (RoundTrips-put_word _)))))))))

pub RoundTrips-encode_request_prefetch_response :
    (m : RequestPrefetchResponse)
    → RoundTrips (encode_request_prefetch_response m) decode_request_prefetch_response m
unfolding encode_request_prefetch_response decode_request_prefetch_response
RoundTrips-encode_request_prefetch_response m = bool_then _ (
    str_then _ (
      word_then _ (
        word_then _ (
          word_then _ (
            word_then _ (
              word_then _
                (word_then _ (bool_then _ (RoundTrips-last _ (RoundTrips-put_word _))))))))))

pub RoundTrips-encode_mark_h2d_submitted_request :
    (m : MarkH2dSubmittedRequest)
    → RoundTrips (encode_mark_h2d_submitted_request m) decode_mark_h2d_submitted_request m
unfolding encode_mark_h2d_submitted_request decode_mark_h2d_submitted_request
RoundTrips-encode_mark_h2d_submitted_request m = word_then _ (
    word_then _ (
      word_then _ (
        word_then _
          (word_then _ (word_then _ (word_then _ (RoundTrips-last _ (RoundTrips-put_word _))))))))

pub RoundTrips-encode_mark_h2d_submitted_response :
    (m : MarkH2dSubmittedResponse)
    → RoundTrips (encode_mark_h2d_submitted_response m) decode_mark_h2d_submitted_response m
unfolding encode_mark_h2d_submitted_response decode_mark_h2d_submitted_response
RoundTrips-encode_mark_h2d_submitted_response m =
    bool_then _ (RoundTrips-last _ (RoundTrips-put_str _))

pub RoundTrips-encode_mark_h2d_complete_request :
    (m : MarkH2dCompleteRequest)
    → RoundTrips (encode_mark_h2d_complete_request m) decode_mark_h2d_complete_request m
unfolding encode_mark_h2d_complete_request decode_mark_h2d_complete_request
RoundTrips-encode_mark_h2d_complete_request m = word_then _ (
    word_then _ (
      word_then _ (
        word_then _ (
          word_then _ (
            word_then _ (bool_then _ (word_then _ (RoundTrips-last _ (RoundTrips-put_word _)))))))))

pub RoundTrips-encode_mark_h2d_complete_response :
    (m : MarkH2dCompleteResponse)
    → RoundTrips (encode_mark_h2d_complete_response m) decode_mark_h2d_complete_response m
unfolding encode_mark_h2d_complete_response decode_mark_h2d_complete_response
RoundTrips-encode_mark_h2d_complete_response m =
    bool_then _ (RoundTrips-last _ (RoundTrips-put_str _))
