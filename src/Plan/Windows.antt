-- ===== src/Plan/Windows.antt =====
-- src/daemon/daemon.cpp: what one window of build_slot_plan adds to the slots.
use state_spectre.Prelude.{
  ℕ, zero, suc, ◌+◌, ◌-◌, ◌*◌, ◌/◌, ◌%◌, ◌^◌, ◌≤◌, ◌<◌, ◌≡◌, refl, sym, ap, ◌∙◌, Bool, true,
  if◌then◌else◌, arith,
}
use native.Mathlib.Decide.{dec_lt}
use native.Mathlib.Nat.{div-add-mod}
use state_spectre.State.{Slot, is_free}
use state_spectre.Slots.{put}
use state_spectre.Slots.Runs.{in_run}
use state_spectre.Plan.{Carving, fresh_slot, fill_run, add_window}

pub mul_add : (a b g : ℕ) → (a + b) * g ≡ a * g + b * g
mul_add a b g = grind arith

pub mul_mono : (a b g : ℕ) → a ≤ b → a * g ≤ b * g
mul_mono a b g h = grind arith

pub div_mul_le : (a g : ℕ) → a / g * g ≤ a
div_mul_le a g = omega (arith, div-add-mod a g)

-- below 2^32 the loop writes each slot of the run once, and no other
fill_run_from :
    (f : ℕ → Slot → Slot) (base k n : ℕ) (s : ℕ → Slot) (id : ℕ)
    → base + k + n < 2 ^ 32
    → fill_run f (base + k) k n s id
      ≡ (if in_run (base + k) n id then f (id - base) (s id) else s id)
unfolding fill_run
fill_run_from f base k zero s id h = ground arith
fill_run_from f base k (suc n) s id h =
    let next : suc (base + k) % 2 ^ 32 ≡ base + suc k = omega arith in
    let s' = put s (base + k) (f k (s (base + k))) in
    ap (λ i. fill_run f i (suc k) n s' id) next
    ∙ ground (arith, fill_run_from f base (suc k) n s' id (omega arith))

fill_run_lem :
    (f : ℕ → Slot → Slot) (base n : ℕ) (s : ℕ → Slot) (id : ℕ)
    → base + n < 2 ^ 32
    → fill_run f base 0 n s id ≡ (if in_run base n id then f (id - base) (s id) else s id)
fill_run_lem f base n s id h =
    let start : base + 0 ≡ base = omega arith in
    rw start at (fill_run_from f base 0 n s id (omega arith))

module _ (granularity : ℕ) (sizes : ℕ → ℕ) where
  pub suc_mul : (id : ℕ) → suc id * granularity ≡ id * granularity + granularity
  suc_mul id = grind arith

  -- The slots that are carved when arena number `arena` is being carved, whose first slot is `start`.
  pub record Carved (arena start : ℕ) (c : Carving) : Type 0 where
    pub ahead : start ≤ c.global_slot
    pub at_cursor : c.cursor + start * granularity ≡ c.global_slot * granularity
    pub earlier : (id : ℕ) → id < start → (c.slots id).arena_id < arena
    pub here :
        (id : ℕ)
        → start ≤ id
        → id < c.global_slot
        → ((c.slots id).arena_id ≡ arena)
          × ((c.slots id).arena_offset + start * granularity ≡ id * granularity)
    pub free :
        (id : ℕ)
        → id < c.global_slot
        → (is_free (c.slots id).state ≡ true)
          × ((c.slots id).slot_id ≡ id)
          × ((c.slots id).capacity ≡ granularity)
    pub apart :
        (id j : ℕ)
        → id < j
        → j < c.global_slot
        → (c.slots id).arena_id ≡ (c.slots j).arena_id
        → (c.slots id).arena_offset + granularity ≤ (c.slots j).arena_offset
    pub inside :
        (id : ℕ)
        → id < start
        → (c.slots id).arena_offset + granularity ≤ sizes (c.slots id).arena_id

  module _ (arena numa gpu n : ℕ) (is_overflow : Bool) (c : Carving)
      (below : c.global_slot + n < 2 ^ 32) where
    abbrev pub added : Carving
    added = add_window granularity arena numa gpu is_overflow n c

    -- the slot table after one window
    added_slot :
        (id : ℕ)
        → added.slots id ≡ (
            if in_run c.global_slot n id
            then fresh_slot numa gpu arena is_overflow granularity c.cursor c.global_slot
                (id - c.global_slot)
                (c.slots id)
            else c.slots id)
    unfolding add_window
    added_slot id =
        fill_run_lem (fresh_slot numa gpu arena is_overflow granularity c.cursor c.global_slot)
          c.global_slot n c.slots id below

    old_slot : (id : ℕ) → id < c.global_slot → added.slots id ≡ c.slots id
    old_slot id h = added_slot id ∙ ground arith

    new_slot :
        (id : ℕ)
        → c.global_slot ≤ id
        → id < c.global_slot + n
        → added.slots id
          ≡ fresh_slot numa gpu arena is_overflow granularity c.cursor c.global_slot
              (id - c.global_slot)
              (c.slots id)
    new_slot id h g = added_slot id ∙ ground arith

    pub added-global_slot : added.global_slot ≡ c.global_slot + n
    unfolding add_window
    added-global_slot = omega (arith, below)

    pub added-cursor : added.cursor ≡ c.cursor + n * granularity
    unfolding add_window
    added-cursor = refl

    module _ (start : ℕ) (v : Carved arena start c) where
      new_offset :
          (id : ℕ)
          → c.global_slot ≤ id
          → c.cursor + (id - c.global_slot) * granularity + start * granularity ≡ id * granularity
      new_offset id h =
          let split : id ≡ c.global_slot + (id - c.global_slot) = omega arith in
          omega (
            arith,
            v.at_cursor,
            mul_add c.global_slot (id - c.global_slot) granularity,
            ap (λ t. t * granularity) split,
          )

      new_fields :
          (id : ℕ)
          → c.global_slot ≤ id
          → id < c.global_slot + n
          → (is_free (added.slots id).state ≡ true)
            × ((added.slots id).slot_id ≡ id)
            × ((added.slots id).capacity ≡ granularity)
            × ((added.slots id).arena_id ≡ arena)
            × ((added.slots id).arena_offset + start * granularity ≡ id * granularity)
      new_fields id h g =
          rw (new_slot id h g) (refl, omega (arith, below), refl, refl, new_offset id h)

      added-here :
          (id : ℕ)
          → start ≤ id
          → id < added.global_slot
          → ((added.slots id).arena_id ≡ arena)
            × ((added.slots id).arena_offset + start * granularity ≡ id * granularity)
      added-here id h g = elim (dec_lt id c.global_slot) [
        | yes old ↦ rw (old_slot id old) (v.here id h old)
        | no new ↦
            let f = new_fields id (omega arith) (omega (arith, added-global_slot)) in (f.3, f.4)
      ]

      added-free :
          (id : ℕ)
          → id < added.global_slot
          → (is_free (added.slots id).state ≡ true)
            × ((added.slots id).slot_id ≡ id)
            × ((added.slots id).capacity ≡ granularity)
      added-free id h = elim (dec_lt id c.global_slot) [
        | yes old ↦ rw (old_slot id old) (v.free id old)
        | no new ↦
            let f = new_fields id (omega arith) (omega (arith, added-global_slot)) in
            (f.0, f.1, f.2)
      ]

      added-apart :
          (id j : ℕ)
          → id < j
          → j < added.global_slot
          → (added.slots id).arena_id ≡ (added.slots j).arena_id
          → (added.slots id).arena_offset + granularity ≤ (added.slots j).arena_offset
      added-apart id j h g e = elim (dec_lt j c.global_slot) [
        | yes old ↦ omega (
          arith,
          ap (λ (t : Slot). t.arena_offset) (old_slot id (omega arith)),
          ap (λ (t : Slot). t.arena_offset) (old_slot j old),
          v.apart id j h old (
              ap (λ (t : Slot). t.arena_id) (sym (old_slot id (omega arith)))
              ∙ e
              ∙ ap (λ (t : Slot). t.arena_id) (old_slot j old)),
        )
        | no new ↦ elim (dec_lt id start) [
          | yes before ↦ absurd (
              omega (
                arith,
                e,
                added-here j (omega (arith, v.ahead)) g,
                v.earlier id before,
                ap (λ (t : Slot). t.arena_id) (old_slot id (omega (arith, v.ahead))),
              ))
          | no after ↦ omega (
            arith,
            added-here id (omega arith) (omega arith),
            added-here j (omega (arith, v.ahead)) g,
            mul_mono (suc id) j granularity (omega arith),
            suc_mul id,
          )
        ]
      ]

      pub add_window-Carved : Carved arena start added
      add_window-Carved = record {
        ahead = omega (arith, v.ahead, added-global_slot);
        at_cursor = omega (
          arith,
          v.at_cursor,
          added-cursor,
          mul_add c.global_slot n granularity,
          ap (λ t. t * granularity) added-global_slot,
        );
        earlier = λ id h. rw (old_slot id (omega (arith, v.ahead))) (v.earlier id h);
        here = added-here;
        free = added-free;
        apart = added-apart;
        inside = λ id h. rw (old_slot id (omega (arith, v.ahead))) (v.inside id h);
      }
