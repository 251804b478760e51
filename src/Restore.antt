-- ===== src/Restore.antt =====
-- src/daemon/canonical_rollout.cpp: RequestCanonicalRestore and its release.
pub mod Guards
use state_spectre.Prelude.{
  ℕ, zero, suc, ◌+◌, ◌-◌, ◌*◌, Bool, true, false, ◌&&◌, ◌||◌, not, Option, none, some, ltb, ◌==◌,
  if◌then◌else◌, nat_eq,
}
use state_spectre.Prelude.Table.{find, insert}
use state_spectre.State.{
  Daemon, Slot, SlotState, Location, LocationKind, ColdEntry, Object, ObjectState, inc, add,
  is_readable, is_gone, is_pinned, is_pageable, is_nvme, is_pinned_valid, canonical_tid,
  flag_allow_overflow, epoch_mismatch_rejected, io_failure, used_pinned_bytes,
  canonical_restore_served,
}
use state_spectre.Slots.{slot_state, on_run, mark_run, free_slots, slots_for_bytes}
use state_spectre.Leases.{epoch_valid, pid_of}
use state_spectre.Drain.{DrainIo, allocate_or_drain, max_attempts}
use state_spectre.Objects.{find_object, put_object, maybe_free_object}
use state_spectre.Replies.{
  Reply, ok, err, store_disabled, epoch_invalid, unknown_object, not_readable, not_resident,
  cold_not_ready, no_warm_capacity, readback_failed, transitioning,
}

pub record RestoreRequest : Type 0 where
  pub rank_id : ℕ
  pub rank_epoch : ℕ
  pub object_id : ℕ
  pub gpu_id : ℕ
  pub numa_node : ℕ

-- the drains that make room, and the read of the cold bytes, with what other threads did meanwhile
pub record RestoreIo : Type 0 where
  pub drains : ℕ → DrainIo
  pub read_ok : Bool
  pub while_reading : Daemon → Daemon

pub record Restored : Type 0 where
  pub nbytes : ℕ
  pub arena_id : ℕ
  pub arena_offset : ℕ

abbrev pub warm_slot : RestoreRequest → Object → ℕ → ℕ → ℕ → Slot → Slot
warm_slot req o owner_pid now k e = record e {
  tensor_id = canonical_tid req.object_id;
  version = o.version;
  owner_rank = req.rank_id;
  owner_pid = owner_pid;
  rank_epoch = req.rank_epoch;
  nbytes = if k == 0 then o.nbytes else e.capacity;
  state = SlotState.readback_in_flight;
  last_touch_ns = now;
}

abbrev warmed_location : ℕ → ℕ → Option Location → Location
warmed_location base nbytes none = record {
  tensor_id = 0;
  version = 0;
  kind = LocationKind.pinned;
  slot_id = base;
  cold_ref = 0;
  nbytes = nbytes;
}
warmed_location base nbytes (some loc) = record loc {
  kind = LocationKind.pinned;
  slot_id = base;
  nbytes = nbytes;
}

-- The cold bytes are in the run at `base`: it becomes the object's pinned residency.
unfoldable pub warm_object : RestoreRequest → Object → ℕ → ℕ → Daemon → Daemon
warm_object req o base count d =
    let valid =
      add used_pinned_bytes (count * d.cfg.allocation_granularity_bytes)
        (mark_run SlotState.pinned_valid base count d) in
    let tid = canonical_tid req.object_id in
    let located = record valid {
      locations =
          insert tid (warmed_location base o.nbytes (find tid valid.locations)) valid.locations;
    } in
    put_object
      (record o { base_slot = base; slot_count = count; state = ObjectState.valid_multi_tier })
      located

unfoldable pub serve_restore : Object → ℕ → Daemon → Daemon × Reply Restored
serve_restore o base d = (
  inc canonical_restore_served (
      put_object (record o { restore_refcount = suc o.restore_refcount; last_access_ns = d.clock })
        d),
  ok (record {
    nbytes = o.nbytes;
    arena_id = (d.slots base).arena_id;
    arena_offset = (d.slots base).arena_offset;
  }),
)

-- the object as it is in the table, or as the handler's pointer last saw it
abbrev pub current : Object → Option Object → Object
current o none = o
current o (some o') = o'

unfoldable pub warm_into :
    RestoreIo → RestoreRequest → Object → ℕ → ℕ → Daemon → Daemon × Reply Restored
warm_into io req o base count d =
    let bound =
      on_run (warm_slot req o (pid_of (find req.rank_id d.sessions)) d.clock) base count d in
    let back = io.while_reading bound in
    if io.read_ok
    then (let warmed =
          warm_object req (current o (find_object back req.object_id)) base count back in
        serve_restore (current o (find_object warmed req.object_id)) base warmed)
    else (
      inc io_failure (free_slots base count (mark_run SlotState.error base count back)),
      err readback_failed,
    )

-- The bytes are in a cold tier: warm them into a pinned run.
unfoldable pub restore_cold :
    RestoreIo → RestoreRequest → Object → Option ColdEntry → Daemon → Daemon × Reply Restored
restore_cold io req o none d = (d, err cold_not_ready)
restore_cold io req o (some c) d =
    let (found, d') =
      allocate_or_drain max_attempts io.drains req.gpu_id req.numa_node o.nbytes flag_allow_overflow
        d in
    elim found [
      | none ↦ (d', err no_warm_capacity)
      | some base ↦ warm_into io req o base (slots_for_bytes d o.nbytes) d'
    ]

abbrev pub cold_at : Daemon → ℕ → Option ColdEntry
cold_at d cold_ref = if cold_ref == 0 then none else find cold_ref d.cold_store

unfoldable pub restore_at :
    RestoreIo → RestoreRequest → Object → Option Location → Daemon → Daemon × Reply Restored
restore_at io req o none d = (d, err not_resident)
restore_at io req o (some loc) d =
    if is_gone loc.kind
    then (d, err not_resident)
    else if is_pinned loc.kind && is_pinned_valid (slot_state d loc.slot_id)
    then serve_restore o loc.slot_id d
    else if is_pageable loc.kind || is_nvme loc.kind
    then restore_cold io req o (cold_at d loc.cold_ref) d
    else (d, err transitioning)

unfoldable pub handle_request_canonical_restore :
    RestoreIo → RestoreRequest → Daemon → Daemon × Reply Restored
handle_request_canonical_restore io req d =
    if not d.cfg.v2_enable_canonical_store
    then (d, err store_disabled)
    else if not (epoch_valid d req.rank_id req.rank_epoch)
    then (inc epoch_mismatch_rejected d, err epoch_invalid)
    else elim (find_object d req.object_id) [
      | none ↦ (d, err unknown_object)
      | some o ↦
          if is_readable o.state
          then restore_at io req o (find (canonical_tid req.object_id) d.locations) d
          else (d, err not_readable)
    ]

abbrev pub release_restored : Option Object → Daemon → Daemon
release_restored none d = d
release_restored (some o) d =
    let o' = record o { restore_refcount = o.restore_refcount - 1 } in
    (maybe_free_object o' (put_object o' d)).1

unfoldable pub handle_release_canonical_restore : ℕ → ℕ → ℕ → Daemon → Daemon × Reply (Unit {0})
handle_release_canonical_restore rank epoch object_id d =
    if epoch_valid d rank epoch
    then (release_restored (find_object d object_id) d, ok tt)
    else (inc epoch_mismatch_rejected d, err epoch_invalid)
