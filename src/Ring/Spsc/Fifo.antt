-- ===== src/Ring/Spsc/Fifo.antt =====
-- src/common/completion_ring.h: the interleavings of the two sides of a ring against a FIFO.
use state_spectre.Prelude.{
  ℕ, zero, suc, ◌+◌, ◌%◌, ◌≤◌, ◌<◌, ◌≡◌, ◌≢◌, refl, sym, ap, subst, ◌∙◌, false, List, [], ◌∷◌, ◌++◌,
  some, arith, ◌==◌, Bool-cases, inl, inr, nat_eq,
}
use state_spectre.Ring.{Ring, Completion, u64, sub_u64, place, put_at, ring_pop}
use state_spectre.Ring.Refine.{
  IsValid, contents, window, place_lem, tail-mod, place-ne, capacity-le, pending-suc, pending-pred,
  pop_refines, pop-IsValid, queue_pop,
}
use state_spectre.Ring.Spsc.{
  Spsc, Producer, Consumer, Step, push_check, push_write, push_publish, pop_check, pop_read,
  pop_publish, Steps, done, then_step,
}

-- what the producer's place says of the ring
abbrev pub Room : Producer → Ring → Type 0
Room Producer.idle r = Unit {0}
Room (Producer.checked e) r = sub_u64 r.tail r.head < r.capacity
Room (Producer.written e) r =
    (sub_u64 r.tail r.head < r.capacity) × (r.entries (place r r.tail) ≡ e)

-- what the consumer's place says of it
abbrev pub Ready : Consumer → Ring → Type 0
Ready Consumer.idle r = Unit {0}
Ready Consumer.checked r = (e : Completion) × (q : List Completion) × (contents r ≡ e ∷ q)
Ready (Consumer.has_read e) r = (q : List Completion) × (contents r ≡ e ∷ q)

pub record Inv (s : Spsc) : Type 0 where
  pub valid : IsValid s.ring
  pub fifo : s.pushed ≡ s.popped ++ contents s.ring
  pub room : Room s.producer s.ring
  pub ready : Ready s.consumer s.ring

-- A write past a window leaves it alone.
window_untouched :
    (es : ℕ → Completion) (cap i m n p : ℕ) (e : Completion)
    → n < cap
    → m ≤ n
    → p ≡ (i + n) % cap
    → window (put_at es p e) cap i m ≡ window es cap i m
window_untouched es cap i zero n p e h le q = refl
window_untouched es cap i (suc m) zero p e h le q = absurd (omega arith)
window_untouched es cap i (suc m) (suc n) p e h le q =
    let apart : i % cap ≢ p = λ w. place-ne cap i n h (w ∙ q) in
    let rest =
      window_untouched es cap (i + 1) m n p e (omega arith) (omega arith)
        (q ∙ ap (λ k. k % cap) (let a : i + suc n ≡ i + 1 + n = omega arith in a)) in
    ground (arith, rest, apart)

window-snoc :
    (es : ℕ → Completion) (cap i n : ℕ)
    → window es cap i (suc n) ≡ window es cap i n ++ (es ((i + n) % cap) ∷ [])
window-snoc es cap i zero = ap (λ k. es (k % cap) ∷ []) (let a : i ≡ i + 0 = omega arith in a)
window-snoc es cap i (suc n) =
    ap (λ w. es (i % cap) ∷ w)
      (window-snoc es cap (i + 1) n
        ∙ ap (λ k. window es cap (i + 1) n ++ (es (k % cap) ∷ []))
            (let a : i + 1 + n ≡ i + suc n = omega arith in a))

append_assoc : (xs ys zs : List Completion) → (xs ++ ys) ++ zs ≡ xs ++ (ys ++ zs)
append_assoc [] ys zs = refl
append_assoc (x ∷ xs) ys zs = ap (λ w. x ∷ w) (append_assoc xs ys zs)

module _ {r : Ring} (v : IsValid r) where
  write-contents :
      (e : Completion)
      → sub_u64 r.tail r.head < r.capacity
      → contents (record r { entries = put_at r.entries (place r r.tail) e }) ≡ contents r
  write-contents e room =
      window_untouched r.entries r.capacity r.head (sub_u64 r.tail r.head) (sub_u64 r.tail r.head)
        (place r r.tail) e room (omega arith) (place_lem v r.tail ∙ tail-mod v)

  publish-contents :
      sub_u64 r.tail r.head < r.capacity
      → contents (record r { tail = (r.tail + 1) % u64 })
        ≡ contents r ++ (r.entries (place r r.tail) ∷ [])
  publish-contents room =
      let grow : sub_u64 ((r.tail + 1) % u64) r.head ≡ suc (sub_u64 r.tail r.head) =
        pending-suc r.head r.tail v.head_u64 v.tail_u64 (omega (arith, capacity-le v, room)) in
      rw (grow, place_lem v r.tail ∙ tail-mod v)
        (window-snoc r.entries r.capacity r.head (sub_u64 r.tail r.head))

  publish-IsValid :
      sub_u64 r.tail r.head < r.capacity → IsValid (record r { tail = (r.tail + 1) % u64 })
  publish-IsValid room = record {
    log_cap = v.log_cap;
    pow = v.pow;
    small = v.small;
    head_u64 = v.head_u64;
    tail_u64 = omega arith;
    fits = omega (
      arith,
      room,
      capacity-le v,
      pending-suc r.head r.tail v.head_u64 v.tail_u64 (omega (arith, capacity-le v, room)),
    );
  }

  -- Something is pending exactly if the indices differ.
  pending_apart :
      {e : Completion} {q : List Completion} → contents r ≡ e ∷ q → (r.head == r.tail) ≡ false
  pending_apart {e} {q} h = elim (Bool-cases (r.head == r.tail)) [
    | inr apart ↦ apart
    | inl same ↦
        let none_left : sub_u64 r.tail r.head ≡ 0 = ground (arith, v.head_u64) in
        absurd (cc (rw none_left at h))
  ]

  apart_pending :
      (r.head == r.tail) ≡ false
      → (q : List Completion) × (contents r ≡ r.entries (place r r.head) ∷ q)
  apart_pending apart =
      let shrink : sub_u64 r.tail r.head ≡ suc (sub_u64 r.tail ((r.head + 1) % u64)) =
        pending-pred r.head r.tail v.head_u64 v.tail_u64 (ground arith) in
      (
        window r.entries r.capacity (r.head + 1) (sub_u64 r.tail ((r.head + 1) % u64)),
        rw (shrink, place_lem v r.head) refl,
      )

  taken :
      {e : Completion} {q : List Completion}
      → contents r ≡ e ∷ q
      → (contents (record r { head = (r.head + 1) % u64 }) ≡ q)
        × (r.entries (place r r.head) ≡ e)
        × IsValid (record r { head = (r.head + 1) % u64 })
        × (sub_u64 r.tail r.head ≡ suc (sub_u64 r.tail ((r.head + 1) % u64)))
  unfolding ring_pop queue_pop
  taken {e} {q} h =
      let apart = pending_apart h in
      let popped : ring_pop r
          ≡ some (r.entries (place r r.head), record r { head = (r.head + 1) % u64 }) =
        rw (apart, ring_pop) refl in
      let both = pop_refines v in
      (
        ground (arith, both, popped, h),
        ground (arith, both, popped, h),
        pop-IsValid v popped,
        pending-pred r.head r.tail v.head_u64 v.tail_u64 (ground (arith, apart)),
      )

-- The consumer's view survives what the producer does.
Ready-same : (c : Consumer) (r r' : Ring) → contents r' ≡ contents r → Ready c r → Ready c r'
Ready-same Consumer.idle r r' e h = tt
Ready-same Consumer.checked r r' e (x, q, h) = (x, q, e ∙ h)
Ready-same (Consumer.has_read x) r r' e (q, h) = (q, e ∙ h)

Ready-grows :
    (c : Consumer) (r r' : Ring) (x : Completion)
    → contents r' ≡ contents r ++ (x ∷ [])
    → Ready c r
    → Ready c r'
Ready-grows Consumer.idle r r' x e h = tt
Ready-grows Consumer.checked r r' x e (y, q, h) = (y, q ++ (x ∷ []), e ∙ ap (λ w. w ++ (x ∷ [])) h)
Ready-grows (Consumer.has_read y) r r' x e (q, h) = (q ++ (x ∷ []), e ∙ ap (λ w. w ++ (x ∷ [])) h)

-- The producer's room survives what the consumer does.
Room-shrinks :
    (p : Producer) (r : Ring)
    → sub_u64 r.tail r.head ≡ suc (sub_u64 r.tail ((r.head + 1) % u64))
    → Room p r
    → Room p (record r { head = (r.head + 1) % u64 })
Room-shrinks Producer.idle r e h = tt
Room-shrinks (Producer.checked x) r e h = omega (arith, h, e)
Room-shrinks (Producer.written x) r e (h, w) = (omega (arith, h, e), w)

Step-Inv : {s t : Spsc} → Step s t → Inv s → Inv t
Step-Inv (push_check s e at room) i = record {
  valid = i.valid;
  fifo = i.fifo;
  room = ground arith;
  ready = i.ready;
}
Step-Inv (push_write s e at) i =
    let room : Room (Producer.checked e) s.ring = subst (λ p. Room p s.ring) at i.room in
    let same = write-contents i.valid e room in
    record {
      valid = record {
        log_cap = i.valid.log_cap;
        pow = i.valid.pow;
        small = i.valid.small;
        head_u64 = i.valid.head_u64;
        tail_u64 = i.valid.tail_u64;
        fits = i.valid.fits;
      };
      fifo = i.fifo ∙ ap (λ w. s.popped ++ w) (sym same);
      room = (room, ground arith);
      ready = Ready-same s.consumer s.ring _ same i.ready;
    }
Step-Inv (push_publish s e at) i =
    let (room, wrote) : Room (Producer.written e) s.ring = subst (λ p. Room p s.ring) at i.room in
    let grown : contents (record s.ring { tail = (s.ring.tail + 1) % u64 })
        ≡ contents s.ring ++ (e ∷ []) =
      publish-contents i.valid room ∙ ap (λ x. contents s.ring ++ (x ∷ [])) wrote in
    record {
      valid = publish-IsValid i.valid room;
      fifo =
          ap (λ w. w ++ (e ∷ [])) i.fifo
          ∙ append_assoc s.popped (contents s.ring) (e ∷ [])
          ∙ ap (λ w. s.popped ++ w) (sym grown);
      room = tt;
      ready = Ready-grows s.consumer s.ring _ e grown i.ready;
    }
Step-Inv (pop_check s at apart) i = record {
  valid = i.valid;
  fifo = i.fifo;
  room = i.room;
  ready = (
    s.ring.entries (place s.ring s.ring.head),
    (apart_pending i.valid apart).0,
    (apart_pending i.valid apart).1,
  );
}
Step-Inv (pop_read s at) i =
    let (e, q, h) : Ready Consumer.checked s.ring = subst (λ c. Ready c s.ring) at i.ready in
    record {
      valid = i.valid;
      fifo = i.fifo;
      room = i.room;
      ready = (q, h ∙ ap (λ x. x ∷ q) (sym (taken i.valid h).1));
    }
Step-Inv (pop_publish s e at) i =
    let (q, h) : Ready (Consumer.has_read e) s.ring = subst (λ c. Ready c s.ring) at i.ready in
    let (left, _, valid, shrink) = taken i.valid h in
    record {
      valid = valid;
      fifo =
          i.fifo
          ∙ ap (λ w. s.popped ++ w) (h ∙ ap (λ w. e ∷ w) (sym left))
          ∙ sym (append_assoc s.popped (e ∷ []) _);
      room = Room-shrinks s.producer s.ring shrink i.room;
      ready = tt;
    }

-- In every interleaving of a producer and a consumer that starts from a valid ring with both sides
-- at rest, what was popped, followed by what is pending, is what was pushed, in order: no entry is
-- lost, repeated, reordered or read before it is whole, and the ring stays valid.
pub spsc_fifo :
    {s t : Spsc}
    → Steps s t
    → IsValid s.ring
    → s.producer ≡ Producer.idle
    → s.consumer ≡ Consumer.idle
    → s.pushed ≡ s.popped ++ contents s.ring
    → (t.pushed ≡ t.popped ++ contents t.ring) × IsValid t.ring
spsc_fifo {s} run v p c f = let i = all run in (i.fifo, i.valid)
  where
    start : Inv s
    start = record {
      valid = v;
      fifo = f;
      room = subst (λ x. Room x s.ring) (sym p) tt;
      ready = subst (λ x. Ready x s.ring) (sym c) tt;
    }

    all : {t : Spsc} → Steps s t → Inv t
    all (done s) = start
    all (then_step run step) = Step-Inv step (all run)
