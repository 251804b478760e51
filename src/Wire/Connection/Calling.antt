-- ===== src/Wire/Connection/Calling.antt =====
-- What a whole request, and a part of one, do to the daemon and bring back to the agent.
use Prim.Native.Nat.{ℕ, zero, suc, ◌+◌, ◌≤◌, ◌<◌}
use mathlib.Core.Path.{fun_ext, ◌≡◌, refl, sym, ap, ◌∙◌}
use mathlib.Core.Logic.{inl, inr}
use mathlib.Core.Bool.{Bool, true}
use mathlib.Core.Option.{some}
use mathlib.Core.List.{[], ◌++◌, append-nil}
use native.Mathlib.Omega.{arith}
use state_spectre.Prelude.{length, if◌then◌else◌, ◌==◌, Bool-cases, Option-cases}
use state_spectre.Wire.Words.{Bytes, cast}
use state_spectre.Wire.Buffer.{Writer, Reader, run_reader}
use state_spectre.Prelude.Slices.{take}
use state_spectre.Wire.RoundTrips.{RoundTrips, run_reader-some}
use state_spectre.Wire.OpCodes.{OpCode, op_code, listed}
use state_spectre.Wire.Calls.{
  RequestOf, ResponseOf, encode_request, decode_request, encode_response, decode_response,
}
use state_spectre.Wire.Calls.Lossless.{
  RequestFits, ResponseFits, RoundTrips-encode_request, RoundTrips-encode_response,
}
use state_spectre.Wire.Frames.{Received, eof, fault, frame, make_frame, recv_frame, max_payload}
use state_spectre.Wire.Frames.Delivery.{
  recv_frame-make_frame, recv_frame-cut, recv_frame-shorter, length-make_frame, make_frame-total,
}
use state_spectre.Wire.Connection.{
  reply, answer, respond, dispatch, after_dispatch, serve_round, serve_rounds, serve_connection,
  request_frame, receive_response, accept_reply,
}

-- A decoder on exactly what its encoder wrote, and on a proper prefix of that.
module _ {ℓ} {A : Type ℓ} {w : Writer} {r : Reader A} {a : A} (codec : RoundTrips w r a) where
  decode_whole : (body : Bytes) → w [] ≡ some body → run_reader r body ≡ some a
  decode_whole body e =
      let (out, p, whole, cut) = codec.reads [] body e in
      ap (run_reader r) p ∙ run_reader-some r out [] a (ap r (sym (append-nil out)) ∙ whole [])

-- each message of each operation, read back
pub decode_request-encode_request :
    (op : OpCode) (m : RequestOf op) (body : Bytes)
    → RequestFits op m
    → encode_request op m [] ≡ some body
    → run_reader (decode_request op) body ≡ some m
decode_request-encode_request op m body fits e =
    decode_whole (RoundTrips-encode_request op m fits) body e

pub decode_response-encode_response :
    (op : OpCode) (m : ResponseOf op) (body : Bytes)
    → ResponseFits op m
    → encode_response op m [] ≡ some body
    → run_reader (decode_response op) body ≡ some m
decode_response-encode_response op m body fits e =
    decode_whole (RoundTrips-encode_response op m fits) body e

request_frame_parts :
    (op : OpCode) (m : RequestOf op) (f : Bytes)
    → request_frame op m ≡ some f
    → (body : Bytes) × (encode_request op m [] ≡ some body)
      × (make_frame op body (cast 2 0) ≡ some f)
unfolding request_frame
request_frame_parts op m f e = elim (Option-cases (encode_request op m [])) [
  | inl h ↦ ground arith
  | inr (body, h) ↦ (body, h, rw (h, request_frame) at e)
]

answered :
    (op : OpCode) (body f : Bytes)
    → make_frame op body (cast 2 0) ≡ some f
    → answer op (some body) ≡ reply f
unfolding answer
answered op body f e = rw (e, answer)

module _ {ℓ} {S : Type ℓ} (handle : (op : OpCode) → S → RequestOf op → S × ResponseOf op)
    (running : S → Bool) where
  dispatch-whole :
      (op : OpCode) (s : S) (m : RequestOf op) (body : Bytes)
      → listed op ≡ true
      → RequestFits op m
      → encode_request op m [] ≡ some body
      → dispatch handle running op s body ≡ respond handle running op (handle op s m)
  unfolding dispatch
  dispatch-whole op s m body known fits e =
      let read = decode_request-encode_request op m body fits e in rw (known, read)

  serve_round-more :
      (r : Received) (s : S) (f g : S → Bytes → S × Bytes)
      → ((op : OpCode) (p rest : Bytes) (s : S) → r ≡ frame op p rest → f s rest ≡ g s rest)
      → serve_round handle running r s f ≡ serve_round handle running r s g
  unfolding serve_round
  serve_round-more eof s f g e = refl
  serve_round-more fault s f g e = refl
  serve_round-more (frame op p rest) s f g e =
      ap (after_dispatch handle running (dispatch handle running op s p))
        (fun_ext λ s'. e op p rest s' refl)

  serve_rounds-fuel :
      (fuel more : ℕ) (s : S) (stream : Bytes)
      → length stream < fuel
      → length stream < more
      → serve_rounds handle running fuel s stream ≡ serve_rounds handle running more s stream
  unfolding serve_rounds
  serve_rounds-fuel zero more s stream h g = absurd (omega arith)
  serve_rounds-fuel (suc fuel) zero s stream h g = absurd (omega arith)
  serve_rounds-fuel (suc fuel) (suc more) s stream h g =
      serve_round-more (recv_frame stream) s _ _ λ op p rest s' e.
        let shorter : length rest < length stream = recv_frame-shorter stream op p rest e in
        serve_rounds-fuel fuel more s' rest (omega arith) (omega arith)

  -- Serving what a connection brings ends within one round for each byte of it and one more: more
  -- rounds come to the same state and the same answers.
  pub serve_rounds-enough :
      (fuel : ℕ) (s : S) (stream : Bytes)
      → length stream < fuel
      → serve_rounds handle running fuel s stream ≡ serve_connection handle running s stream
  unfolding serve_connection
  serve_rounds-enough fuel s stream h =
      serve_rounds-fuel fuel (suc (length stream)) s stream h (omega arith)

  serve_frame :
      (op : OpCode) (s : S) (p rest stream : Bytes)
      → recv_frame stream ≡ frame op p rest
      → serve_connection handle running s stream
        ≡ after_dispatch handle running
            (dispatch handle running op s p)
            (λ s'. serve_connection handle running s' rest)
  unfolding serve_connection serve_rounds serve_round
  serve_frame op s p rest stream e =
      ap (λ r. serve_round handle running r s (serve_rounds handle running (length stream))) e
      ∙ ap (after_dispatch handle running (dispatch handle running op s p)) (
          fun_ext λ s'.
            serve_rounds-enough (length stream) s' rest (recv_frame-shorter stream op p rest e))

  -- A request of a known operation that can be encoded, at the front of what a connection brings and
  -- whose vectors have fewer than 2^32 elements and whose frame body has at most 256 MiB, is served
  -- as if its handler had been called with it: the daemon answers from the handler's result, and
  -- serves the rest of the stream from the state after it, if the daemon still runs.
  pub serve_connection-request_frame :
      (op : OpCode) (s : S) (m : RequestOf op) (f rest : Bytes)
      → listed op ≡ true
      → RequestFits op m
      → request_frame op m ≡ some f
      → length f ≤ 12 + max_payload
      → serve_connection handle running s (f ++ rest)
        ≡ after_dispatch handle running
            (respond handle running op (handle op s m))
            (λ s'. serve_connection handle running s' rest)
  serve_connection-request_frame op s m f rest known fits e small =
      let (body, e₁, e₂) = request_frame_parts op m f e in
      serve_frame op s body rest (f ++ rest) (
        recv_frame-make_frame op body rest (cast 2 0) f known e₂
          (omega (arith, length-make_frame op body (cast 2 0) f e₂)))
      ∙ ap (λ x. after_dispatch handle running x (λ s'. serve_connection handle running s' rest))
          (dispatch-whole op s m body known fits e₁)

  -- A connection that ends inside a request, or before it, leaves the state of the daemon as it was
  -- and gets no answer.
  pub serve_connection-cut :
      (op : OpCode) (s : S) (m : RequestOf op) (f : Bytes) (k : ℕ)
      → request_frame op m ≡ some f
      → k < length f
      → serve_connection handle running s (take k f) ≡ (s, [])
  unfolding serve_connection serve_rounds serve_round
  serve_connection-cut op s m f zero e h = unfold recv_frame in refl
  serve_connection-cut op s m f (suc k) e h =
      let (body, e₁, e₂) = request_frame_parts op m f e in
      ap
        (λ r.
          serve_round handle running r s (serve_rounds handle running (length (take (suc k) f))))
        (recv_frame-cut op body (cast 2 0) f (suc k) e₂ (omega arith) h)

  serve_nothing : (s : S) → serve_connection handle running s [] ≡ (s, [])
  unfolding serve_connection serve_rounds serve_round recv_frame
  serve_nothing s = refl

  -- after a reply, when the agent sends nothing more
  after_reply :
      (s : S) (f : Bytes)
      → after_dispatch handle running (s, reply f) (λ s'. serve_connection handle running s' [])
        ≡ (s, f)
  unfolding after_dispatch
  after_reply s f =
      ap (λ (x : S × Bytes). if running s then (x.0, f ++ x.1) else (s, f)) (serve_nothing s)
      ∙ elim (Bool-cases (running s)) [ inl e ↦ rw (e, append-nil f) | inr e ↦ rw e ]

  receive_response-make_frame :
      (op : OpCode) (m : ResponseOf op) (out f : Bytes)
      → listed op ≡ true
      → ResponseFits op m
      → encode_response op m [] ≡ some out
      → length out ≤ max_payload
      → make_frame op out (cast 2 0) ≡ some f
      → receive_response op f ≡ some m
  unfolding receive_response accept_reply
  receive_response-make_frame op m out f known fits e small e₂ =
      let same : (op_code op).value == (op_code op).value ≡ true = ground arith in
      ap (λ t. receive_response op t) (sym (append-nil f))
      ∙ ap (accept_reply op) (recv_frame-make_frame op out [] (cast 2 0) f known e₂ small)
      ∙ rw same (decode_response-encode_response op m out fits e)

  -- A call of any operation goes through: whatever the handlers are, the daemon is afterwards in the
  -- state to which the handler of that operation takes it on the request that the agent sent, field
  -- by field, and the agent reads back exactly the response of that handler, if both messages can be
  -- encoded, neither has more than 256 MiB, each vector in them has fewer than 2^32 elements and a
  -- statistics reply has a value for each key.
  pub receive_response-serve_connection :
      (op : OpCode) (s : S) (m : RequestOf op) (f out : Bytes)
      → listed op ≡ true
      → RequestFits op m
      → request_frame op m ≡ some f
      → length f ≤ 12 + max_payload
      → ResponseFits op (handle op s m).1
      → encode_response op (handle op s m).1 [] ≡ some out
      → length out ≤ max_payload
      → ((serve_connection handle running s f).0 ≡ (handle op s m).0)
        × (receive_response op (serve_connection handle running s f).1 ≡ some (handle op s m).1)
  unfolding respond
  receive_response-serve_connection op s m f out known fits e small fits' e' small' =
      let (f', e₂) = make_frame-total op out (cast 2 0) small' in
      let served : serve_connection handle running s f ≡ ((handle op s m).0, f') =
        ap (serve_connection handle running s) (sym (append-nil f))
        ∙ serve_connection-request_frame op s m f [] known fits e small
        ∙ rw (e', answered op out f' e₂) (after_reply (handle op s m).0 f') in
      (
        ap (λ (x : S × Bytes). x.0) served,
        ap (λ (x : S × Bytes). receive_response op x.1) served
            ∙ receive_response-make_frame op _ out f' known fits' e' small' e₂,
      )
