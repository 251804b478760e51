-- ===== src/Examples/Messages.antt =====
-- The theorems on connections at a heartbeat that is refused.
use state_spectre.Wire.Frames.{make_frame, put_header}
use state_spectre.Wire.Buffer.{le_bytes, put_bool, put_chars, put_str, put_word, ◌>>◌}
use state_spectre.Wire.Messages.Registration.{encode_heartbeat_request, encode_heartbeat_response}
use state_spectre.Wire.OpCodes.{listed}
use state_spectre.Prelude.{ℕ, ◌≡◌, refl, Bool, true, false, Option, none, some, [], ◌++◌, arith}
use state_spectre.Prelude.Slices.{take}
use state_spectre.Wire.Words.{cast, Bytes}
use state_spectre.Wire.Messages.Registration.{HeartbeatRequest}
use state_spectre.Wire.OpCodes.{k_heartbeat}
use state_spectre.Wire.Calls.{encode_request, encode_response}
use state_spectre.Wire.Connection.{
  respond, after_dispatch, serve_rounds, serve_connection, request_frame, receive_response,
}
use state_spectre.Wire.Connection.Calling.{
  receive_response-serve_connection, serve_connection-request_frame, serve_connection-cut,
  serve_rounds-enough,
}
use state_spectre.Examples.Replies.{refuse_all}

abbrev beat : HeartbeatRequest
beat = record { rank_id = cast 4 1; rank_epoch = cast 8 5; timestamp_ns = cast 8 1000 }

abbrev bytes_of : Option Bytes → Bytes
bytes_of none = []
bytes_of (some b) = b

abbrev beat_body : Bytes
beat_body = bytes_of (encode_request k_heartbeat beat [])

abbrev beat_frame : Bytes
beat_frame = bytes_of (request_frame k_heartbeat beat)

abbrev refusal : Bytes
refusal = bytes_of (encode_response k_heartbeat (refuse_all k_heartbeat 0 beat).1 [])

abbrev forever : ℕ → Bool
forever n = true

receive_response-serve_connection_example :
    ((serve_connection refuse_all forever 0 beat_frame).0 ≡ 1)
    × (receive_response k_heartbeat (serve_connection refuse_all forever 0 beat_frame).1
        ≡ some (record { ok = false; message = [] }))
unfolding listed request_frame encode_request encode_heartbeat_request ◌>>◌ put_word make_frame
    le_bytes put_header put_chars encode_response encode_heartbeat_response put_bool put_str
receive_response-serve_connection_example =
    receive_response-serve_connection refuse_all forever k_heartbeat 0 beat beat_frame refusal refl
      tt refl (omega arith) tt refl (omega arith)

serve_connection-request_frame_example :
    serve_connection refuse_all forever 0 (beat_frame ++ beat_frame)
    ≡ after_dispatch refuse_all forever
        (respond refuse_all forever k_heartbeat (refuse_all k_heartbeat 0 beat))
        (λ n. serve_connection refuse_all forever n beat_frame)
unfolding listed request_frame encode_request encode_heartbeat_request ◌>>◌ put_word make_frame
    le_bytes put_header put_chars
serve_connection-request_frame_example =
    serve_connection-request_frame refuse_all forever k_heartbeat 0 beat beat_frame beat_frame refl
      tt refl (omega arith)

serve_connection-cut_example : serve_connection refuse_all forever 3 (take 31 beat_frame) ≡ (3, [])
unfolding request_frame encode_request encode_heartbeat_request ◌>>◌ put_word make_frame le_bytes
    put_header put_chars
serve_connection-cut_example =
    serve_connection-cut refuse_all forever k_heartbeat 3 beat beat_frame 31 refl (omega arith)

serve_rounds-enough_example :
    serve_rounds refuse_all forever 100 0 beat_frame
    ≡ serve_connection refuse_all forever 0 beat_frame
unfolding request_frame encode_request encode_heartbeat_request ◌>>◌ put_word make_frame le_bytes
    put_header put_chars
serve_rounds-enough_example = serve_rounds-enough refuse_all forever 100 0 beat_frame (omega arith)
