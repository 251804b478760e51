-- ===== src/Offload/Lifecycle.antt =====
-- src/daemon/daemon.cpp: a lease from its grant to its end.
use state_spectre.Prelude.{
  ℕ, ◌+◌, ◌-◌, ◌*◌, ◌%◌, ◌^◌, ◌<◌, ◌≡◌, ◌∙◌, inl, inr, Bool, true, false, none, some, if◌then◌else◌,
  arith, nat_eq, Bool-cases,
}
use state_spectre.Prelude.Table.{find-erase}
use state_spectre.State.{
  Daemon, Lease, LocationKind, SlotState, is_free, is_d2h_in_flight, used_pinned_bytes, sub, add,
  inflight_d2h_bytes, d2h_bytes,
}
use state_spectre.Slots.{slot_state, on_run, mark_run, free_slots, cleared}
use state_spectre.Slots.Runs.{for_run_lem, in_run}
use state_spectre.Leases.{epoch_valid, find_lease, update_location_if_latest, bind_slot}
use state_spectre.Replies.{ok, err, rejected}
use state_spectre.Slots.{touch}
use state_spectre.Offload.Tables.{run_free_lem}
use state_spectre.Offload.{
  OffloadRequest, OffloadGrant, run_free, reserve_run, offload_lease, place_offload, Mark,
  complete_slot, accept_d2h, enqueue_drain, apply_d2h_complete, release_lease, releasable,
}

state-mark_run :
    (st : SlotState) (base n : ℕ) (d : Daemon) → 0 < n → slot_state (mark_run st base n d) base ≡ st
state-mark_run st base n d pos =
    ground (arith, for_run_lem (λ k. touch d.clock st) base n d.slots base)

slots-release :
    (l : Lease) (lease_id id : ℕ) (d : Daemon)
    → releasable (slot_state d l.base_slot) ≡ true
    → (release_lease l lease_id d).0.slots id
      ≡ (if in_run l.base_slot l.slot_count id then cleared d.clock (d.slots id) else d.slots id)
unfolding release_lease free_slots
slots-release l lease_id id d own =
    rw (own, release_lease) (for_run_lem (λ k. cleared d.clock) l.base_slot l.slot_count d.slots id)

gone-release :
    (l : Lease) (lease_id : ℕ) (d : Daemon)
    → find_lease (release_lease l lease_id d).0 lease_id ≡ none
unfolding release_lease free_slots
gone-release l lease_id d = ground (arith, find-erase lease_id lease_id d.leases)

pinned-release :
    (l : Lease) (lease_id : ℕ) (d : Daemon)
    → releasable (slot_state d l.base_slot) ≡ true
    → (release_lease l lease_id d).0.metrics used_pinned_bytes
      ≡ (d.metrics used_pinned_bytes
          + 2 ^ 64
          - l.slot_count * d.cfg.allocation_granularity_bytes % 2 ^ 64)
        % 2 ^ 64
unfolding release_lease free_slots
pinned-release l lease_id d own = ground arith

slots-update :
    (t v : ℕ) (k : LocationKind) (s c n : ℕ) (d : Daemon)
    → (update_location_if_latest t v k s c n d).1.slots ≡ d.slots
unfolding update_location_if_latest
slots-update t v k s c n d = ground arith

module _ (m : Mark) (l : Lease) (d : Daemon) where
  -- after the acceptance the run is no more in flight
  landed : 0 < l.slot_count → is_d2h_in_flight (slot_state (accept_d2h m l d).0 l.base_slot) ≡ false
  unfolding accept_d2h enqueue_drain
  landed pos =
      let valid =
        on_run (complete_slot m.seq SlotState.pinned_valid d.clock) l.base_slot l.slot_count d in
      let counted = add d2h_bytes l.nbytes (sub inflight_d2h_bytes l.nbytes valid) in
      let located =
        (update_location_if_latest m.tensor_id m.version LocationKind.pinned l.base_slot 0 l.nbytes
          counted).1 in
      ground (
        arith,
        for_run_lem (complete_slot m.seq SlotState.pinned_valid d.clock) l.base_slot l.slot_count
            d.slots l.base_slot,
        slots-update m.tensor_id m.version LocationKind.pinned l.base_slot 0 l.nbytes counted,
        state-mark_run SlotState.drain_in_flight l.base_slot l.slot_count located pos,
      )

  same_owner-accept :
      ((accept_d2h m l d).0.leases ≡ d.leases) × ((accept_d2h m l d).0.sessions ≡ d.sessions)
  unfolding accept_d2h enqueue_drain update_location_if_latest
  same_owner-accept = (ground arith, ground arith)

  -- A copy completes once: when a completion of a lease of at least one slot is accepted, the same
  -- one again is rejected and changes nothing but counters.
  pub d2h_completes_once :
      find_lease d m.lease_id ≡ some l
      → 0 < l.slot_count
      → {r : Bool × Bool} → (apply_d2h_complete m d).1 ≡ ok r
      → let d' = (apply_d2h_complete m d).0 in
        ((apply_d2h_complete m d').1 ≡ err rejected)
        × ((apply_d2h_complete m d').0
            ≡ record d' { metrics = (apply_d2h_complete m d').0.metrics })
  unfolding apply_d2h_complete epoch_valid
  d2h_completes_once there pos {r} h =
      let (leases, sessions) = same_owner-accept in
      let done = landed pos in
      (ground (arith, there, leases, sessions, done), ground (arith, there, leases, sessions, done))

module _ (req : OffloadRequest) (pid count base : ℕ) (d : Daemon) where
  granted : Lease
  granted = offload_lease d req pid base count

  slots-grant :
      (id : ℕ)
      → run_free d base count ≡ true
      → (place_offload req pid count (some base) d).0.slots id ≡ (
          if in_run base count id
          then bind_slot granted req.flags SlotState.reserved_d2h d.clock (id - base) (d.slots id)
          else d.slots id)
  unfolding place_offload reserve_run granted
  slots-grant id free = ground (
    arith,
    for_run_lem (bind_slot granted req.flags SlotState.reserved_d2h d.clock) base count d.slots id,
  )

  reserved-grant :
      run_free d base count ≡ true
      → 0 < count
      → releasable (slot_state (place_offload req pid count (some base) d).0 base) ≡ true
  unfolding granted
  reserved-grant free pos = ground (arith, slots-grant base free)

  pinned-grant :
      run_free d base count ≡ true
      → (place_offload req pid count (some base) d).0.metrics used_pinned_bytes
        ≡ (d.metrics used_pinned_bytes + count * d.cfg.allocation_granularity_bytes) % 2 ^ 64
  unfolding place_offload reserve_run
  pinned-grant free = ground arith

  cfg-grant : (place_offload req pid count (some base) d).0.cfg ≡ d.cfg
  unfolding place_offload reserve_run
  cfg-grant = ground arith

  -- A grant and the release of its lease give everything back: the lease is gone, exactly the slots
  -- that were FREE are FREE, and the counter of pinned bytes in use is what it was.
  pub grant_release :
      0 < count
      → d.metrics used_pinned_bytes < 2 ^ 64
      → {g : OffloadGrant} → (place_offload req pid count (some base) d).1 ≡ ok g
      → let d1 = (place_offload req pid count (some base) d).0 in
        let d2 = (release_lease (offload_lease d req pid base count) g.lease_id d1).0 in
        (find_lease d2 g.lease_id ≡ none)
        × ((id : ℕ) → is_free (slot_state d2 id) ≡ is_free (slot_state d id))
        × (d2.metrics used_pinned_bytes ≡ d.metrics used_pinned_bytes)
  unfolding granted place_offload
  grant_release pos small {g} h = elim (Bool-cases (run_free d base count)) [
    | inr busy ↦ absurd (cc (rw (busy, place_offload) at h))
    | inl free ↦
        let d1 = (place_offload req pid count (some base) d).0 in
        let l = offload_lease d req pid base count in
        let own = reserved-grant free pos in
        (
          gone-release l g.lease_id d1,
          λ id. ground (
            arith,
            slots-release l g.lease_id id d1 own,
            slots-grant id free,
            run_free_lem d base count id,
          ),
          pinned-release l g.lease_id d1 own ∙ ground (arith, pinned-grant free, cfg-grant),
        )
  ]
