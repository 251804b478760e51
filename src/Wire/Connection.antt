-- ===== src/Wire/Connection.antt =====
-- One connection: `OffloadDaemon::serve_connection` and `dispatch` (src/daemon/daemon.cpp) on the
-- daemon's side, the methods of `RpcClient` (src/agent/rpc_client.cpp) on the agent's.
pub mod Calling
use Prim.Native.Nat.{ℕ, zero, suc}
use mathlib.Core.Bool.{Bool, true, false}
use mathlib.Core.Option.{Option, none, some}
use mathlib.Core.List.{List, [], ◌∷◌, ◌++◌}
use state_spectre.Prelude.{length, if◌then◌else◌, ◌==◌}
use state_spectre.Wire.Words.{Word, U16, Bytes, cast}
use state_spectre.Wire.Buffer.{run_reader}
use state_spectre.Wire.OpCodes.{OpCode, op_code, listed}
use state_spectre.Wire.Calls.{
  RequestOf, ResponseOf, encode_request, decode_request, encode_response, decode_response,
}
use state_spectre.Wire.Frames.{Received, eof, fault, frame, make_frame, recv_frame}

-- What a dispatch leads to: a frame sent, nothing for an operation without a case, or an exception.
pub data Answer : Type 0 where
  reply : Bytes → Answer
  silent : Answer
  thrown : Answer

-- `send_frame(fd, make_frame(op, body), out_fds)`, where `body` may have thrown
unfoldable pub answer : OpCode → Option Bytes → Answer
answer op none = thrown
answer op (some body) = elim (make_frame op body (cast 2 0)) [ none ↦ thrown | some f ↦ reply f ]

-- `S` is the daemon's state, `handle` its handlers by operation, `running` its flag `running_`.
module _ {ℓ} {S : Type ℓ} (handle : (op : OpCode) → S → RequestOf op → S × ResponseOf op)
    (running : S → Bool) where
  unfoldable pub respond : (op : OpCode) → S × ResponseOf op → S × Answer
  respond op (s, m) = (s, answer op (encode_response op m []))

  unfoldable pub dispatch : OpCode → S → Bytes → S × Answer
  dispatch op s p =
      if listed op
      then elim (run_reader (decode_request op) p) [
        | none ↦ (s, thrown)
        | some m ↦ respond op (handle op s m)
      ]
      else (s, silent)

  -- One round of the loop on a frame, where `more` is what the next rounds come to: the state and
  -- the bytes sent.
  unfoldable pub after_dispatch : S × Answer → (S → S × Bytes) → S × Bytes
  after_dispatch (s, thrown) more = (s, [])
  after_dispatch (s, silent) more = if running s then more s else (s, [])
  after_dispatch (s, reply f) more =
      let (s', sent) = more s in if running s then (s', f ++ sent) else (s, f)

  unfoldable pub serve_round : Received → S → (S → Bytes → S × Bytes) → S × Bytes
  serve_round eof s more = (s, [])
  serve_round fault s more = (s, [])
  serve_round (frame op p rest) s more = after_dispatch (dispatch op s p) (λ s'. more s' rest)

  -- The loop, on what the agent sends until it closes the connection.
  unfoldable pub serve_rounds : ℕ → S → Bytes → S × Bytes
  serve_rounds zero s stream = (s, [])
  serve_rounds (suc fuel) s stream = serve_round (recv_frame stream) s (serve_rounds fuel)

  -- A round takes twelve bytes at least.
  unfoldable pub serve_connection : S → Bytes → S × Bytes
  serve_connection s stream = serve_rounds (suc (length stream)) s stream

-- What `round_trip` sends: `encode(req)` in a frame.
unfoldable pub request_frame : (op : OpCode) → RequestOf op → Option Bytes
request_frame op m = elim (encode_request op m []) [
  | none ↦ none
  | some body ↦ make_frame op body (cast 2 0)
]

unfoldable pub accept_reply : (op : OpCode) → Received → Option (ResponseOf op)
accept_reply op eof = none
accept_reply op fault = none
accept_reply op (frame reply_op payload rest) =
    if (op_code reply_op).value == (op_code op).value
    then run_reader (decode_response op) payload
    else none

-- What `round_trip` makes of the connection after that, decoded; `none` is an exception.
unfoldable pub receive_response : (op : OpCode) → Bytes → Option (ResponseOf op)
receive_response op stream = accept_reply op (recv_frame stream)
