-- ===== src/Drain.antt =====
-- src/daemon/daemon.cpp: draining pinned runs to a cold tier.
-- The IO runs with `mu_` released: what it returned (`cold`, or none if it failed) and what the
-- other threads did to the state in the meantime are the argument `DrainIo`.
pub mod Choice
use state_spectre.Prelude.{
  ℕ, zero, suc, ◌+◌, ◌*◌, Bool, true, false, ◌&&◌, ◌||◌, not, Option, none, some, List, [], ◌∷◌,
  ltb, ◌==◌, if◌then◌else◌, nat_eq,
}
use Prim.Native.Nat.{◌-◌, ◌^◌}
use state_spectre.Prelude.Table.{Table, find, insert, erase}
use state_spectre.State.{
  Daemon, Lease, ColdEntry, LocationKind, Slot, SlotState, DrainJob, Object, inc, add, sub,
  draining_bytes, io_failure, drains_completed, is_pinned_valid, is_drain_in_flight,
  is_canonical_tid, object_of_tid, is_creating,
}
use state_spectre.Slots.{slot_state, set_slot_state, mark_run, on_run, free_slots, allocate_slots}
use state_spectre.Leases.{update_location_if_latest}

pub record DrainIo : Type 0 where
  pub cold : Option ColdEntry
  pub meanwhile : Daemon → Daemon

-- a canonical object that is created, exported or restored right now
abbrev is_busy : Option Object → Bool
is_busy none = false
is_busy (some o) = ltb 0 o.restore_refcount || (ltb 0 o.export_refcount || is_creating o.state)

-- the lease's run may be drained
unfoldable pub drainable : Daemon → Lease → Bool
drainable d l =
    not l.is_prefetch
    && (is_pinned_valid (slot_state d l.base_slot)
        && not
            (is_canonical_tid l.tensor_id && is_busy (find (object_of_tid l.tensor_id) d.objects)))

-- the loop of force_drain_one: the oldest touch so far and its lease, 0 for none
unfoldable pub oldest : Daemon → Table ℕ Lease → ℕ → ℕ → ℕ
oldest d [] best_ts best_lease = best_lease
oldest d ((id, l) ∷ m) best_ts best_lease =
    let ts = (d.slots l.base_slot).last_touch_ns in
    let better = drainable d l && ltb ts best_ts in
    oldest d m (if better then ts else best_ts) (if better then l.lease_id else best_lease)

-- The run's bytes are in the cold tier: publish them there and free the run.
unfoldable pub finish_drain : ℕ → ℕ → ℕ → ℕ → ℕ → ℕ → ColdEntry → Daemon → Daemon
finish_drain base count tensor_id version lease_id nbytes cold d =
    let cref = d.next_cold_ref in
    let stored = record d {
      next_cold_ref = suc cref;
      cold_store = insert cref cold d.cold_store;
    } in
    let stamped = on_run (λ k e. record e { cold_ref = cref }) base count stored in
    let marked = set_slot_state base SlotState.cold_valid stamped in
    let located =
      (update_location_if_latest tensor_id version cold.kind base cref nbytes marked).1 in
    let freed = free_slots base count located in
    inc drains_completed (record freed { leases = erase lease_id freed.leases })

unfoldable pub drain_lease : DrainIo → Lease → Daemon → Bool × Daemon
drain_lease io l d =
    let started =
      add draining_bytes l.nbytes (mark_run SlotState.drain_in_flight l.base_slot l.slot_count d) in
    let back = sub draining_bytes l.nbytes (io.meanwhile started) in
    elim io.cold [
      | none ↦
          (false, inc io_failure (mark_run SlotState.pinned_valid l.base_slot l.slot_count back))
      | some cold ↦ (
        true,
        finish_drain l.base_slot l.slot_count l.tensor_id l.version l.lease_id l.nbytes cold back,
      )
    ]

-- The lease id that the loop found is a key of the table.
unfoldable pub force_drain_one : DrainIo → Daemon → Bool × Daemon
force_drain_one io d = elim (find (oldest d d.leases (2 ^ 64 - 1) 0) d.leases) [
  | none ↦ (false, d)
  | some l ↦ drain_lease io l d
]

-- for (attempt = 0; attempt <= 64; ++attempt): allocate, or drain one run and try again
unfoldable pub allocate_or_drain : ℕ → (ℕ → DrainIo) → ℕ → ℕ → ℕ → ℕ → Daemon → Option ℕ × Daemon
allocate_or_drain zero io gpu numa nbytes flags d = (none, d)
allocate_or_drain (suc n) io gpu numa nbytes flags d =
    let (found, d1) = allocate_slots gpu numa nbytes flags d in
    elim found [
      | some base ↦ (some base, d1)
      | none ↦
          let (drained, d2) = force_drain_one (io n) d1 in
          elim drained [
            | true ↦ allocate_or_drain n io gpu numa nbytes flags d2
            | false ↦ (none, d2)
          ]
    ]

abbrev pub max_attempts : ℕ
max_attempts = 65

-- One round of drain_worker_loop for the job at the front of the queue.
unfoldable pub drain_worker_round : DrainIo → Daemon → Daemon
drain_worker_round io d = elim d.drain_queue [
  | [] ↦ d
  | job ∷ rest ↦
      let popped = record d { drain_queue = rest } in
      let e = d.slots job.base_slot in
      if is_drain_in_flight e.state
      then (let back = sub draining_bytes e.nbytes (io.meanwhile popped) in
          if is_drain_in_flight (slot_state back job.base_slot)
          then elim io.cold [
            | none ↦
                inc io_failure (mark_run SlotState.pinned_valid job.base_slot job.slot_count back)
            | some cold ↦
                finish_drain job.base_slot job.slot_count e.tensor_id e.version e.lease_id e.nbytes
                  cold back
          ]
          else back)
      else sub draining_bytes e.nbytes popped
]
