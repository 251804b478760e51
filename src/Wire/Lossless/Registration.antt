-- ===== src/Wire/Lossless/Registration.antt =====
-- The encoders and decoders of Wire/Messages/Registration.
use Prim.Native.Nat.{◌<◌, ◌^◌}
use state_spectre.Prelude.{length}
use state_spectre.Wire.RoundTrips.{RoundTrips, RoundTrips->>=, RoundTrips-last}
use state_spectre.Wire.RoundTrips.Parts.{
  RoundTrips-put_word, RoundTrips-put_str, RoundTrips-put_list, word_then, bool_then, str_then,
}
use state_spectre.Wire.Messages.Registration.{
  RegisterRankRequest, ArenaFd, RegisterRankResponse, HeartbeatRequest, HeartbeatResponse,
  encode_register_rank_request, decode_register_rank_request, put_arena_fd, get_arena_fd,
  encode_register_rank_response, decode_register_rank_response, encode_heartbeat_request,
  decode_heartbeat_request, encode_heartbeat_response, decode_heartbeat_response,
}

pub RoundTrips-encode_register_rank_request :
    (m : RegisterRankRequest)
    → RoundTrips (encode_register_rank_request m) decode_register_rank_request m
unfolding encode_register_rank_request decode_register_rank_request
RoundTrips-encode_register_rank_request m = word_then _ (
    word_then _ (
      word_then _
        (word_then _ (word_then _ (word_then _ (RoundTrips-last _ (RoundTrips-put_word _)))))))

pub RoundTrips-put_arena_fd : (m : ArenaFd) → RoundTrips (put_arena_fd m) get_arena_fd m
unfolding put_arena_fd get_arena_fd
RoundTrips-put_arena_fd m = word_then _ (
    word_then _ (
      word_then _ (
        word_then _ (
          word_then _ (
            word_then _ (
              word_then _
                (word_then _ (word_then _ (RoundTrips-last _ (RoundTrips-put_word _))))))))))

pub RoundTrips-encode_register_rank_response :
    (m : RegisterRankResponse)
    → length m.arenas < 256 ^ 4
    → RoundTrips (encode_register_rank_response m) decode_register_rank_response m
unfolding encode_register_rank_response decode_register_rank_response
RoundTrips-encode_register_rank_response m arenas_fit = bool_then _ (
    str_then _ (
      word_then _ (
        word_then _ (
          RoundTrips->>= _ (RoundTrips-put_list _ _ RoundTrips-put_arena_fd _ arenas_fit) (
            word_then _ (word_then _ (word_then _ (RoundTrips-last _ (RoundTrips-put_word _)))))))))

pub RoundTrips-encode_heartbeat_request :
    (m : HeartbeatRequest) → RoundTrips (encode_heartbeat_request m) decode_heartbeat_request m
unfolding encode_heartbeat_request decode_heartbeat_request
RoundTrips-encode_heartbeat_request m =
    word_then _ (word_then _ (RoundTrips-last _ (RoundTrips-put_word _)))

pub RoundTrips-encode_heartbeat_response :
    (m : HeartbeatResponse) → RoundTrips (encode_heartbeat_response m) decode_heartbeat_response m
unfolding encode_heartbeat_response decode_heartbeat_response
RoundTrips-encode_heartbeat_response m = bool_then _ (RoundTrips-last _ (RoundTrips-put_str _))
