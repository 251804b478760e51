-- ===== src/Offload/Tables.antt =====
-- src/daemon/daemon.cpp: what the device-to-host handlers do to the tables.
use state_spectre.Prelude.{
  ℕ, zero, suc, ◌-◌, ◌≡◌, refl, inl, inr, true, ◌&&◌, some, implies, ◌==◌, if◌then◌else◌, arith,
  nat_eq, Bool-cases,
}
use state_spectre.Prelude.Table.{find-insert}
use state_spectre.State.{Daemon, Lease, SlotState, is_free, is_reserved_d2h}
use state_spectre.Slots.{slot_state}
use state_spectre.Slots.Runs.{for_run_lem, in_run}
use state_spectre.Leases.{find_lease, bind_slot}
use state_spectre.Replies.{ok}
use state_spectre.Offload.{
  OffloadRequest, OffloadGrant, run_free, reserve_run, offload_lease, place_offload,
}

pub run_free_lem :
    (d : Daemon) (base n id : ℕ)
    → run_free d base n ≡ true
    → in_run base n id ≡ true
    → is_free (slot_state d id) ≡ true
unfolding run_free
run_free_lem d base zero id h p = absurd (ground arith)
run_free_lem d base (suc n) id h p = elim (Bool-cases (base == id)) [
  | inl here ↦ ground arith
  | inr later ↦ ground (arith, run_free_lem d (suc base) n id)
]

slots-reserve :
    (l : Lease) (flags : ℕ) (st : SlotState) (d : Daemon) (id : ℕ)
    → (reserve_run l flags st d).slots id ≡ (
        if in_run l.base_slot l.slot_count id
        then bind_slot l flags st d.clock (id - l.base_slot) (d.slots id)
        else d.slots id)
unfolding reserve_run
slots-reserve l flags st d id =
    for_run_lem (bind_slot l flags st d.clock) l.base_slot l.slot_count d.slots id

-- What a granted offload request has done, from the state in which its run was found.
pub record Granted (req : OffloadRequest) (pid base count : ℕ) (d d' : Daemon) : Type 0 where
  pub entered : find_lease d' d.next_lease_id ≡ some (offload_lease d req pid base count)
  pub next : d'.next_lease_id ≡ suc d.next_lease_id
  pub was_free : (id : ℕ) → implies (in_run base count id) (is_free (slot_state d id)) ≡ true
  pub bound :
      (id : ℕ)
      → implies (in_run base count id) (
          is_reserved_d2h (slot_state d' id)
          && ((d'.slots id).lease_id == d.next_lease_id
              && (d'.slots id).tensor_id == req.tensor_id))
        ≡ true
  pub others : (id : ℕ) → d'.slots id ≡ (if in_run base count id then d'.slots id else d.slots id)

-- A granted request took a run whose slots were all FREE, bound each to the new lease in
-- RESERVED_D2H, entered that lease, and wrote no other slot.
pub place_offload_grants :
    (req : OffloadRequest) (pid count base : ℕ) (d : Daemon) {g : OffloadGrant}
    → (place_offload req pid count (some base) d).1 ≡ ok g
    → (g.slot_id ≡ base)
      × (g.lease_id ≡ d.next_lease_id)
      × Granted req pid base count d (place_offload req pid count (some base) d).0
unfolding place_offload
place_offload_grants req pid count base d {g} h = elim (Bool-cases (run_free d base count)) [
  | inl free ↦
      rw (free, place_offload)
        (
          ground arith,
          ground arith,
          record {
            entered =
                unfold reserve_run in
                ground (arith, find-insert d.next_lease_id d.next_lease_id l d.leases);
            next = unfold reserve_run in refl;
            was_free = λ id. ground (arith, run_free_lem d base count id);
            bound = λ id. ground (arith, slots-reserve l req.flags SlotState.reserved_d2h d id);
            others = λ id. ground (arith, slots-reserve l req.flags SlotState.reserved_d2h d id);
          },
        )
  | inr busy ↦ cc (rw (busy, place_offload) at h)
]
  where
    l : Lease
    l = offload_lease d req pid base count
