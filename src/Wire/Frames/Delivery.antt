-- ===== src/Wire/Frames/Delivery.antt =====
-- `recv_frame` on what `make_frame` built.
use Prim.Native.Nat.{ℕ, ◌+◌, ◌-◌, ◌^◌, ◌≤◌, ◌<◌}
use mathlib.Core.Logic.{◌⊎◌, inl, inr}
use mathlib.Core.Path.{◌≡◌, refl, sym, ap, ◌∙◌, subst}
use mathlib.Core.Bool.{true, false}
use mathlib.Core.Option.{Option, none, some}
use mathlib.Core.List.{[], ◌∷◌, ◌++◌, append_assoc, append-nil}
use native.Mathlib.Decide.{dec_lt}
use native.Mathlib.Omega.{arith}
use state_spectre.Prelude.{length, length-append, if◌then◌else◌, ltb, Bool-cases}
use state_spectre.Wire.Words.{U16, Bytes, cast}
use state_spectre.Wire.Buffer.{◌>>◌, put_word, put_chars, le_bytes}
use state_spectre.Wire.RoundTrips.{RoundTrips, RoundTrips-last, run_reader-some, some_inj}
use state_spectre.Wire.RoundTrips.Parts.{
  RoundTrips-put_word, word_then, cast_length, length-le_bytes,
}
use state_spectre.Prelude.Slices.{
  length-drop_le, take, drop, length-take_le, take-append, drop-append, take_past,
}
use state_spectre.Wire.OpCodes.{OpCode, op_code, listed, op_of-op_code}
use state_spectre.Wire.Frames.{
  FrameHeader, Received, put_header, make_frame, get_header, get_header_fields, parse_frame_header,
  recv_payload, recv_frame, eof, fault, frame, rpc_magic, max_payload,
}

-- The header that `make_frame` writes.
abbrev header_of : OpCode → U16 → ℕ → FrameHeader
header_of op flags n = record {
  magic = cast 4 rpc_magic;
  opcode = op_code op;
  flags = flags;
  payload_len = cast 4 n;
}

RoundTrips-put_header :
    (op : OpCode) (flags : U16) (n : ℕ)
    → RoundTrips (put_header (header_of op flags n)) get_header (header_of op flags n)
unfolding put_header get_header get_header_fields cast
RoundTrips-put_header op flags n =
    word_then _ (word_then _ (word_then _ (RoundTrips-last _ (RoundTrips-put_word _))))

-- its twelve bytes
abbrev header_bytes : OpCode → U16 → ℕ → Bytes
header_bytes op flags n =
    (((([] ++ le_bytes 4 rpc_magic) ++ le_bytes 2 (op_code op).value) ++ le_bytes 2 flags.value)
      ++ le_bytes 4 (cast 4 n).value)

length-header_bytes : (op : OpCode) (flags : U16) (n : ℕ) → length (header_bytes op flags n) ≡ 12
length-header_bytes op flags n = simp length-append (simp length-le_bytes refl)

put_header_lem :
    (op : OpCode) (flags : U16) (n : ℕ)
    → put_header (header_of op flags n) [] ≡ some (header_bytes op flags n)
unfolding put_header put_word ◌>>◌ cast
put_header_lem op flags n = refl

parse-header_bytes :
    (op : OpCode) (flags : U16) (n : ℕ)
    → parse_frame_header (header_bytes op flags n) ≡ some (header_of op flags n)
unfolding parse_frame_header
parse-header_bytes op flags n =
    let (out, p, whole, cut) =
      (RoundTrips-put_header op flags n).reads [] _ (put_header_lem op flags n) in
    let read : get_header (header_bytes op flags n) ≡ some (header_of op flags n, []) =
      ap get_header (p ∙ sym (append-nil out)) ∙ whole [] in
    rw (length-header_bytes op flags n) (run_reader-some get_header _ [] _ read)

make_frame_parts :
    (op : OpCode) (body : Bytes) (flags : U16) {f : Bytes}
    → make_frame op body flags ≡ some f
    → (length body < 256 ^ 4) × (f ≡ header_bytes op flags (length body) ++ body)
unfolding make_frame put_chars ◌>>◌
make_frame_parts op body flags h = elim (Bool-cases (ltb 0xFFFFFFFF (length body))) [
  | inl e ↦ ground arith
  | inr e ↦ (
    ground arith,
    sym (
        some_inj (
          sym (
            ap (λ o. elim o [ none ↦ none | some b ↦ put_chars body b ])
              (put_header_lem op flags (length body)))
          ∙ rw e at h)),
  )
]

take_header :
    (op : OpCode) (flags : U16) (n : ℕ) (t : Bytes)
    → take 12 (header_bytes op flags n ++ t) ≡ header_bytes op flags n
take_header op flags n t =
    subst (λ k. take k (header_bytes op flags n ++ t) ≡ header_bytes op flags n)
      (length-header_bytes op flags n) (take-append (header_bytes op flags n) t)

drop_header :
    (op : OpCode) (flags : U16) (n : ℕ) (t : Bytes) → drop 12 (header_bytes op flags n ++ t) ≡ t
drop_header op flags n t =
    subst (λ k. drop k (header_bytes op flags n ++ t) ≡ t) (length-header_bytes op flags n)
      (drop-append (header_bytes op flags n) t)

recv_frame-long :
    (stream : Bytes)
    → 12 ≤ length stream
    → recv_frame stream ≡ recv_payload (parse_frame_header (take 12 stream)) (drop 12 stream)
unfolding recv_frame
recv_frame-long [] h = absurd (omega arith)
recv_frame-long (b ∷ bs) h =
    let long : ltb (length (b ∷ bs)) 12 ≡ false = ground arith in rw (long, if◌then◌else◌)

-- a stream that starts with a header
recv_frame-header_bytes :
    (op : OpCode) (flags : U16) (n : ℕ) (t : Bytes)
    → recv_frame (header_bytes op flags n ++ t) ≡ recv_payload (some (header_of op flags n)) t
recv_frame-header_bytes op flags n t =
    recv_frame-long _
      (omega (arith, length-append (header_bytes op flags n) t, length-header_bytes op flags n))
    ∙ rw (take_header op flags n t, drop_header op flags n t, parse-header_bytes op flags n)

recv_payload-long :
    (op : OpCode) (flags : U16) (body rest : Bytes)
    → listed op ≡ true
    → length body ≤ max_payload
    → recv_payload (some (header_of op flags (length body))) (body ++ rest) ≡ frame op body rest
unfolding recv_payload
recv_payload-long op flags body rest known fits =
    let size : (cast 4 (length body)).value ≡ length body =
      cast_length (length body) (omega arith) in
    let small : ltb max_payload (length body) ≡ false = ground arith in
    let whole : ltb (length (body ++ rest)) (length body) ≡ false =
      ground (arith, length-append body rest) in
    rw (size, small, whole, op_of-op_code op known, take-append body rest, drop-append body rest)

-- `recv_frame` gives the operation and the body back, and leaves what follows the frame.
pub recv_frame-make_frame :
    (op : OpCode) (body rest : Bytes) (flags : U16) (f : Bytes)
    → listed op ≡ true
    → make_frame op body flags ≡ some f
    → length body ≤ max_payload
    → recv_frame (f ++ rest) ≡ frame op body rest
recv_frame-make_frame op body rest flags f known e fits =
    let (small, shape) = make_frame_parts op body flags e in
    ap (λ t. recv_frame (t ++ rest)) shape
    ∙ ap recv_frame (append_assoc (header_bytes op flags (length body)) body rest)
    ∙ recv_frame-header_bytes op flags (length body) (body ++ rest)
    ∙ recv_payload-long op flags body rest known fits

-- A stream that ends inside a frame is a fault, or nothing at all.
recv_frame-short :
    (stream : Bytes) → 0 < length stream → length stream < 12 → recv_frame stream ≡ fault
unfolding recv_frame
recv_frame-short [] h g = absurd (omega arith)
recv_frame-short (b ∷ bs) h g =
    let short : ltb (length (b ∷ bs)) 12 ≡ true = ground arith in rw (short, if◌then◌else◌)

recv_payload-short :
    (op : OpCode) (flags : U16) (n : ℕ) (t : Bytes)
    → length t < n
    → n < 256 ^ 4
    → recv_payload (some (header_of op flags n)) t ≡ fault
unfolding recv_payload
recv_payload-short op flags n t h fits =
    let size : (cast 4 n).value ≡ n = cast_length n fits in
    let short : ltb (length t) n ≡ true = ground arith in
    rw (size, short) (elim (Bool-cases (ltb max_payload n)) [ inl e ↦ rw e | inr e ↦ rw e ])

pub recv_frame-cut :
    (op : OpCode) (body : Bytes) (flags : U16) (f : Bytes) (k : ℕ)
    → make_frame op body flags ≡ some f
    → 0 < k
    → k < length f
    → recv_frame (take k f) ≡ fault
recv_frame-cut op body flags f k e pos cut =
    let (small, shape) = make_frame_parts op body flags e in
    let header = header_bytes op flags (length body) in
    let size : length header ≡ 12 = length-header_bytes op flags (length body) in
    let total : length f ≡ 12 + length body =
      ap length shape ∙ omega (arith, length-append header body) in
    elim (dec_lt k 12) [
      | yes h ↦
          recv_frame-short (take k f) (omega (arith, length-take_le k f cut))
            (omega (arith, length-take_le k f cut))
      | no h ↦
          ap (λ t. recv_frame (take k t)) shape
          ∙ ap recv_frame (take_past k header body (omega arith))
          ∙ recv_frame-header_bytes op flags (length body) (take (k - length header) body)
          ∙ recv_payload-short op flags (length body) _
              (omega (arith, length-take_le (k - length header) body (omega arith))) small
    ]

pub length-make_frame :
    (op : OpCode) (body : Bytes) (flags : U16) (f : Bytes)
    → make_frame op body flags ≡ some f
    → length f ≡ 12 + length body
length-make_frame op body flags f e =
    let (small, shape) = make_frame_parts op body flags e in
    ap length shape
    ∙ omega (
      arith,
      length-append (header_bytes op flags (length body)) body,
      length-header_bytes op flags (length body),
    )

pub make_frame-total :
    (op : OpCode) (body : Bytes) (flags : U16)
    → length body ≤ max_payload
    → (f : Bytes) × (make_frame op body flags ≡ some f)
unfolding make_frame put_chars ◌>>◌
make_frame-total op body flags h =
    let fits : ltb 0xFFFFFFFF (length body) ≡ false = ground arith in
    (
      header_bytes op flags (length body) ++ body,
      rw fits (
          ap (λ o. elim o [ none ↦ none | some b ↦ put_chars body b ])
            (put_header_lem op flags (length body))),
    )

-- Each frame takes something off the stream.
recv_payload-shorter :
    (h : Option FrameHeader) (t : Bytes) (op : OpCode) (p rest : Bytes)
    → recv_payload h t ≡ frame op p rest
    → length rest ≤ length t
unfolding recv_payload
recv_payload-shorter none t op p rest e = cc
recv_payload-shorter (some h) t op p rest e = ground (arith, length-drop_le h.payload_len.value t)

pub recv_frame-shorter :
    (stream : Bytes) (op : OpCode) (p rest : Bytes)
    → recv_frame stream ≡ frame op p rest
    → length rest < length stream
unfolding recv_frame
recv_frame-shorter [] op p rest e = cc
recv_frame-shorter (b ∷ bs) op p rest e = elim (Bool-cases (ltb (length (b ∷ bs)) 12)) [
  | inl h ↦ cc (h, e)
  | inr h ↦
      let read : recv_payload (parse_frame_header (take 12 (b ∷ bs))) (drop 12 (b ∷ bs))
          ≡ frame op p rest =
        sym (recv_frame-long (b ∷ bs) (ground arith)) ∙ e in
      omega (arith, recv_payload-shorter _ _ op p rest read, length-drop_le 11 bs)
]

pub Received-cases :
    (r : Received)
    → (r ≡ eof)
      ⊎ (r ≡ fault)
      ⊎ ((op : OpCode) × (p : Bytes) × (rest : Bytes) × (r ≡ frame op p rest))
Received-cases eof = inl refl
Received-cases fault = inr (inl refl)
Received-cases (frame op p rest) = inr (inr (op, p, rest, refl))
