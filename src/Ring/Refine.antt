-- ===== src/Ring/Refine.antt =====
-- src/common/completion_ring.h: the completion ring against a bounded FIFO.
use state_spectre.Prelude.{
  ℕ, zero, suc, ◌+◌, ◌-◌, ◌*◌, ◌%◌, ◌^◌, ◌≤◌, ◌<◌, ◌≡◌, ◌≢◌, refl, sym, ap, ◌∙◌, List, [], ◌∷◌,
  ◌++◌, Option, none, some, arith, length, leb, ◌==◌, if◌then◌else◌, Bool-cases, Option-cases, inl,
  inr,
}
use state_spectre.Prelude.Bits.{bit_and_ones, pow2_pos, pow2_split, pow2_mono}
use native.Mathlib.Nat.{mod-lt, mod-eq_of_lt, mod-eq-sub-mod, add-mul-mod_self_left, mod-add-mod}
use Prim.Native.Nat.{bit_and}
use native.Mathlib.Decide.{dec_lt, dec_le}
use state_spectre.Ring.{Ring, Completion, u64, sub_u64, place, put_at, ring_push, ring_pop}

-- The ring's representation invariant: a power of two fits uint32_t, and no more is pending than fits.
pub record IsValid (r : Ring) : Type 0 where
  pub log_cap : ℕ
  pub pow : r.capacity ≡ 2 ^ log_cap
  pub small : log_cap ≤ 31
  pub head_u64 : r.head < u64
  pub tail_u64 : r.tail < u64
  pub fits : sub_u64 r.tail r.head ≤ r.capacity

-- the `n` entries from logical index `i` on, in a ring of `cap` places
abbrev pub window : (ℕ → Completion) → ℕ → ℕ → ℕ → List Completion
window es cap i zero = []
window es cap i (suc n) = es (i % cap) ∷ window es cap (i + 1) n

-- The pending entries, oldest first.
abbrev pub contents : Ring → List Completion
contents r = window r.entries r.capacity r.head (sub_u64 r.tail r.head)

module _ {r : Ring} (v : IsValid r) where
  pub capacity_pos : 0 < r.capacity
  capacity_pos = omega (arith, v.pow, pow2_pos v.log_cap)

  -- 2^64 is a whole number of rounds.
  rounds : (c : ℕ) × (u64 ≡ r.capacity * c)
  rounds = (
    2 ^ (64 - v.log_cap),
    ap (λ n. 2 ^ n) (let e : 64 ≡ v.log_cap + (64 - v.log_cap) = omega (arith, v.small) in e)
        ∙ pow2_split v.log_cap (64 - v.log_cap)
        ∙ ap (λ n. n * 2 ^ (64 - v.log_cap)) (sym v.pow),
  )

  pub place_lem : (i : ℕ) → place r i ≡ i % r.capacity
  place_lem i =
      ap (λ n. bit_and i (n - 1)) v.pow ∙ bit_and_ones v.log_cap i ∙ ap (λ n. i % n) (sym v.pow)

  add_u64-mod : (i : ℕ) → (i + u64) % r.capacity ≡ i % r.capacity
  add_u64-mod i =
      ap (λ n. (i + n) % r.capacity) rounds.1 ∙ add-mul-mod_self_left i r.capacity rounds.0

  pub tail-mod : r.tail % r.capacity ≡ (r.head + sub_u64 r.tail r.head) % r.capacity
  tail-mod = elim (dec_le r.head r.tail) [
    | yes h ↦ ap (λ n. n % r.capacity) (omega (arith, v.tail_u64))
    | no h ↦ sym (add_u64-mod r.tail) ∙ ap (λ n. n % r.capacity) (omega (arith, v.head_u64))
  ]

  pub succ-mod : (i : ℕ) → i < u64 → (i + 1) % u64 % r.capacity ≡ (i + 1) % r.capacity
  succ-mod i h = elim (dec_lt (i + 1) u64) [
    | yes lt ↦ ap (λ n. n % r.capacity) (mod-eq_of_lt lt)
    | no ge ↦ let e : i + 1 ≡ u64 = omega arith in rw e (sym (add_u64-mod 0))
  ]

length-window : (es : ℕ → Completion) (cap i n : ℕ) → length (window es cap i n) ≡ n
length-window es cap i zero = refl
length-window es cap i (suc n) = ap suc (length-window es cap (i + 1) n)

-- A window depends on its start up to whole rounds.
window_shift :
    (es : ℕ → Completion) (cap i j n : ℕ)
    → i % cap ≡ j % cap
    → window es cap i n ≡ window es cap j n
window_shift es cap i j zero e = refl
window_shift es cap i j (suc n) e = rw (
  e,
  window_shift es cap (i + 1) (j + 1) n
      (sym (mod-add-mod i cap 1) ∙ ap (λ k. (k + 1) % cap) e ∙ mod-add-mod j cap 1),
)

-- Two places less than a round apart differ.
pub place-ne : (cap i k : ℕ) → suc k < cap → i % cap ≢ (i + suc k) % cap
place-ne cap i k h e = elim (dec_lt (i % cap + suc k) cap) [
  | yes lt ↦ omega (arith, mod-add-mod i cap (suc k), mod-eq_of_lt lt)
  | no ge ↦ omega (
    arith,
    mod-add-mod i cap (suc k),
    mod-lt i {m = cap} (omega arith),
    mod-eq-sub-mod {n = i % cap + suc k} {m = cap} (omega arith),
    mod-eq_of_lt {n = i % cap + suc k - cap} {m = cap}
        (omega (arith, mod-lt i {m = cap} (omega arith))),
  )
]

-- A write just past a window extends it by the entry written.
window-put_at :
    (es : ℕ → Completion) (cap i n p : ℕ) (e : Completion)
    → n < cap
    → p ≡ (i + n) % cap
    → window (put_at es p e) cap i (suc n) ≡ window es cap i n ++ (e ∷ [])
window-put_at es cap i zero p e h q =
    let here : p ≡ i % cap = q ∙ ap (λ k. k % cap) (omega arith) in ground (arith, here)
window-put_at es cap i (suc n) p e h q =
    let apart : i % cap ≢ p = λ w. place-ne cap i n h (w ∙ q) in
    let shifted : p ≡ (i + 1 + n) % cap = q ∙ ap (λ k. k % cap) (omega arith) in
    let rest : window (put_at es p e) cap (i + 1) (suc n) ≡ window es cap (i + 1) n ++ (e ∷ []) =
      window-put_at es cap (i + 1) n p e (omega arith) shifted in
    ground (arith, rest, apart)

-- The specification: a FIFO of at most `cap` entries, oldest first.
unfoldable pub queue_push : ℕ → List Completion → Completion → Option (List Completion)
queue_push cap q e = if leb cap (length q) then none else some (q ++ (e ∷ []))

unfoldable pub queue_pop : List Completion → Option (Completion × List Completion)
queue_pop [] = none
queue_pop (e ∷ q) = some (e, q)

abbrev pub contents_of : Option Ring → Option (List Completion)
contents_of none = none
contents_of (some r) = some (contents r)

abbrev pub contents_after : Option (Completion × Ring) → Option (Completion × List Completion)
contents_after none = none
contents_after (some (e, r)) = some (e, contents r)

pub pending-suc :
    (h t : ℕ)
    → h < u64
    → t < u64
    → sub_u64 t h < 2 ^ 63
    → sub_u64 ((t + 1) % u64) h ≡ suc (sub_u64 t h)
pending-suc h t p q k = omega arith

pub pending-pred :
    (h t : ℕ) → h < u64 → t < u64 → h ≢ t → sub_u64 t h ≡ suc (sub_u64 t ((h + 1) % u64))
pending-pred h t p q k = omega arith

module _ {r : Ring} (v : IsValid r) where
  pub capacity-le : r.capacity ≤ 2 ^ 31
  capacity-le = rw v.pow (pow2_mono v.log_cap 31 v.small)

  pub push_refines :
      (e : Completion) → contents_of (ring_push r e) ≡ queue_push r.capacity (contents r) e
  unfolding ring_push queue_push
  push_refines e = elim (Bool-cases (leb r.capacity (sub_u64 r.tail r.head))) [
    | inl full ↦ ground (arith, length-window r.entries r.capacity r.head (sub_u64 r.tail r.head))
    | inr room ↦
        let grow : sub_u64 ((r.tail + 1) % u64) r.head ≡ suc (sub_u64 r.tail r.head) =
          pending-suc r.head r.tail v.head_u64 v.tail_u64 (omega (arith, capacity-le, v.fits)) in
        let written =
          window-put_at r.entries r.capacity r.head (sub_u64 r.tail r.head) (place r r.tail) e
            (ground arith) (place_lem v r.tail ∙ tail-mod v) in
        rw (length-window r.entries r.capacity r.head (sub_u64 r.tail r.head), room, grow)
          (ap some written)
  ]

  pub pop_refines : contents_after (ring_pop r) ≡ queue_pop (contents r)
  unfolding ring_pop queue_pop
  pop_refines = elim (Bool-cases (r.head == r.tail)) [
    | inl empty ↦ let e : sub_u64 r.tail r.head ≡ 0 = ground arith in rw (empty, e)
    | inr more ↦
        let shrink : sub_u64 r.tail r.head ≡ suc (sub_u64 r.tail ((r.head + 1) % u64)) =
          pending-pred r.head r.tail v.head_u64 v.tail_u64 (ground arith) in
        rw (more, shrink, place_lem v r.head)
          (ap (λ q. some (r.entries (r.head % r.capacity), q))
            (window_shift r.entries r.capacity ((r.head + 1) % u64) (r.head + 1) _
              (succ-mod v r.head v.head_u64)))
  ]

  pub push-IsValid : (e : Completion) {r' : Ring} → ring_push r e ≡ some r' → IsValid r'
  unfolding ring_push
  push-IsValid e h = record {
    log_cap = v.log_cap;
    pow = ground arith;
    small = v.small;
    head_u64 = ground arith;
    tail_u64 = ground arith;
    fits = ground (arith, capacity-le, pending-suc r.head r.tail v.head_u64 v.tail_u64);
  }

  pub pop-IsValid : {e : Completion} {r' : Ring} → ring_pop r ≡ some (e, r') → IsValid r'
  unfolding ring_pop
  pop-IsValid h = record {
    log_cap = v.log_cap;
    pow = ground arith;
    small = v.small;
    head_u64 = ground arith;
    tail_u64 = ground arith;
    fits = ground (arith, pending-pred r.head r.tail v.head_u64 v.tail_u64);
  }

-- A client's calls in order, with what each returns.
pub data RingOp : Type 0 where
  push : Completion → RingOp
  pop : RingOp

pub data Reply : Type 0 where
  pushed full empty : Reply
  popped : Completion → Reply

unfoldable pub run_ring : Ring → List RingOp → List Reply
run_ring r [] = []
run_ring r (push e ∷ ops) = elim (ring_push r e) [
  | none ↦ full ∷ run_ring r ops
  | some r' ↦ pushed ∷ run_ring r' ops
]
run_ring r (pop ∷ ops) = elim (ring_pop r) [
  | none ↦ empty ∷ run_ring r ops
  | some (e, r') ↦ popped e ∷ run_ring r' ops
]

unfoldable pub run_queue : ℕ → List Completion → List RingOp → List Reply
run_queue cap q [] = []
run_queue cap q (push e ∷ ops) = elim (queue_push cap q e) [
  | none ↦ full ∷ run_queue cap q ops
  | some q' ↦ pushed ∷ run_queue cap q' ops
]
run_queue cap q (pop ∷ ops) = elim (queue_pop q) [
  | none ↦ empty ∷ run_queue cap q ops
  | some (e, q') ↦ popped e ∷ run_queue cap q' ops
]

capacity-push :
    (r : Ring) (e : Completion) {r' : Ring} → ring_push r e ≡ some r' → r'.capacity ≡ r.capacity
unfolding ring_push
capacity-push r e h = ground arith

capacity-pop :
    (r : Ring) {e : Completion} {r' : Ring} → ring_pop r ≡ some (e, r') → r'.capacity ≡ r.capacity
unfolding ring_pop
capacity-pop r h = ground arith

-- No sequence of pushes and pops tells a valid completion ring of 2^k places, at any position of its
-- wrapping 64-bit counters, from a FIFO of at most 2^k entries that starts with the ring's pending
-- entries.
pub run_refines :
    (ops : List RingOp) {r : Ring}
    → IsValid r
    → run_ring r ops ≡ run_queue r.capacity (contents r) ops
unfolding run_ring run_queue
run_refines [] v = refl
run_refines (push e ∷ ops) {r} v = elim (Option-cases (ring_push r e)) [
  | inl stuck ↦ ground (arith, push_refines v e, run_refines ops v)
  | inr (r', ok) ↦
      ground (arith, push_refines v e, run_refines ops (push-IsValid v e ok), capacity-push r e ok)
]
run_refines (pop ∷ ops) {r} v = elim (Option-cases (ring_pop r)) [
  | inl stuck ↦ ground (arith, pop_refines v, run_refines ops v)
  | inr ((e, r'), ok) ↦
      ground (arith, pop_refines v, run_refines ops (pop-IsValid v ok), capacity-pop r ok)
]
