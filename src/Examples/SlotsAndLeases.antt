-- ===== src/Examples/SlotsAndLeases.antt =====
-- The theorems on slots, leases, sessions and versions of locations, at concrete states.
use state_spectre.Leases.{update_location_if_latest}
use state_spectre.Offload.{accept_d2h, creating_canonical, run_free}
use state_spectre.Slots.{
  alloc_scan, busy_at, first_window, local_slots, remote_slots, try_alloc_in_window,
}
use state_spectre.Prelude.{
  ℕ, zero, suc, ◌-◌, ◌^◌, ◌≡◌, ◌⊎◌, refl, true, false, ◌&&◌, none, some, List, [], ◌∷◌, ◌==◌,
  if◌then◌else◌, arith, nat_eq,
}
use state_spectre.Prelude.Table.{find}
use state_spectre.State.{Daemon, Lease, SlotState, Window, is_free, used_pinned_bytes}
use state_spectre.Slots.{slot_state, allocate_slots, slots_for_bytes, window_key, window_at}
use state_spectre.Slots.Alloc.{
  Offers, FreeRun, WellIndexed, allocate_slots_sound, allocate_slots_complete,
}
use state_spectre.Leases.{epoch_valid, find_lease}
use state_spectre.Leases.Versions.{Later}
use state_spectre.Drain.{drainable, drain_lease, force_drain_one}
use state_spectre.Drain.Choice.{touched, older_than, force_drain_one-oldest}
use state_spectre.Offload.{
  OffloadRequest, OffloadGrant, place_offload, grant_at, Mark, apply_d2h_complete, release_lease,
  offload_lease,
}
use state_spectre.Offload.Tables.{Granted, place_offload_grants}
use state_spectre.Offload.Lifecycle.{d2h_completes_once, grant_release}
use state_spectre.Replies.{err, rejected}
use state_spectre.Versions.Runs.{
  Call, perform, perform_all, perform_all-Later, request_offload, mark_d2h_submitted,
  mark_d2h_complete, release, drain_round,
}
use state_spectre.Versions.Epochs.{OnlyCounters, perform-stale}
use state_spectre.Recovery.{expire_session}
use state_spectre.Recovery.Sessions.{overdue, expire_session_lem}
use state_spectre.Examples.{idle, four_slots, no_io, rank_one, lease_two, free_slot}

allocate_slots_sound_example : Offers idle 2 0
unfolding allocate_slots local_slots find try_alloc_in_window slots_for_bytes alloc_scan busy_at
allocate_slots_sound_example = allocate_slots_sound idle 0 0 5000 0 refl

-- slot 1 is taken
abbrev taken_one : Daemon
taken_one = record idle {
  slots = λ id.
      if id == 1 then record (free_slot 1) { state = SlotState.pinned_valid } else free_slot id;
}

taken_one-WellIndexed : WellIndexed taken_one
unfolding find
taken_one-WellIndexed = record { indexed = indexed; overflow = λ x w at h. absurd (only x w at h) }
  where
    indexed :
        (x : ℕ) (w : Window)
        → window_at taken_one.windows x ≡ some w
        → find (window_key w.numa_node w.gpu) taken_one.window_index ≡ some x
    indexed zero w at = ground arith
    indexed (suc x) w at = absurd (ground arith)

    only : (x : ℕ) (w : Window) → window_at taken_one.windows x ≡ some w → w.is_overflow ≡ true → ⊥
    only zero w at h = ground arith
    only (suc x) w at h = ground arith

allocate_slots_complete_example : ¬ FreeRun taken_one four_slots 3 0
unfolding allocate_slots local_slots find try_alloc_in_window slots_for_bytes alloc_scan busy_at
    first_window remote_slots
allocate_slots_complete_example =
    allocate_slots_complete taken_one 0 0 10000 2 taken_one-WellIndexed refl refl 0 0 four_slots
      refl

abbrev request : OffloadRequest
request = record {
  rank_id = 1;
  rank_epoch = 5;
  tensor_id = 40;
  version = 7;
  nbytes = 5000;
  gpu_id = 0;
  numa_node = 0;
  flags = 0;
}

abbrev grant : OffloadGrant
grant = grant_at idle 1 0 2

place_offload_grants_example :
    (grant.slot_id ≡ 0)
    × (grant.lease_id ≡ 1)
    × Granted request 77 0 2 idle (place_offload request 77 2 (some 0) idle).0
unfolding place_offload run_free
place_offload_grants_example = place_offload_grants request 77 2 0 idle {g = grant} refl

grant_release_example :
    let d1 = (place_offload request 77 2 (some 0) idle).0 in
    let d2 = (release_lease (offload_lease idle request 77 0 2) grant.lease_id d1).0 in
    (find_lease d2 grant.lease_id ≡ none)
    × ((id : ℕ) → is_free (slot_state d2 id) ≡ is_free (slot_state idle id))
    × (d2.metrics used_pinned_bytes ≡ idle.metrics used_pinned_bytes)
unfolding place_offload run_free
grant_release_example =
    grant_release request 77 2 0 idle (omega arith) (omega arith) {g = grant} refl

-- slots 0 and 1 are in flight under lease 1
abbrev copying : Daemon
copying = record idle {
  leases = (1, lease_two) ∷ [];
  next_lease_id = 2;
  slots = λ id. record (free_slot id) { state = SlotState.d2h_in_flight; lease_id = 1 };
}

abbrev mark : Mark
mark = record {
  rank_id = 1;
  rank_epoch = 5;
  lease_id = 1;
  tensor_id = 40;
  version = 7;
  slot_id = 0;
  seq = 3;
}

d2h_completes_once_example :
    let d' = (apply_d2h_complete mark copying).0 in
    ((apply_d2h_complete mark d').1 ≡ err rejected)
    × ((apply_d2h_complete mark d').0
        ≡ record d' { metrics = (apply_d2h_complete mark d').0.metrics })
unfolding find apply_d2h_complete epoch_valid accept_d2h creating_canonical
    update_location_if_latest
d2h_completes_once_example =
    d2h_completes_once mark lease_two copying refl (omega arith) {r = (true, true)} refl

abbrev calls : List Call
calls =
    request_offload no_io request
    ∷ mark_d2h_submitted mark
    ∷ mark_d2h_complete mark
    ∷ drain_round (no_io 0)
    ∷ release 1 5 1
    ∷ []

perform_all-Later_example : Later idle (perform_all calls idle)
perform_all-Later_example =
    perform_all-Later calls idle
      (λ i d tid. omega arith, (tt, (tt, (λ d tid. omega arith, (tt, tt)))))

perform-stale_example : OnlyCounters copying (perform (release 1 4 1) copying)
unfolding epoch_valid find
perform-stale_example = perform-stale (release 1 4 1) copying refl

-- the copy is done and may be drained
abbrev copied : Daemon
copied = record copying {
  slots = λ id. record (free_slot id) {
    state = SlotState.pinned_valid;
    lease_id = 1;
    last_touch_ns = 8;
  };
}

force_drain_one-oldest_example :
    ((force_drain_one (no_io 0) copied ≡ (false, copied))
      × ((id : ℕ) → older_than copied (2 ^ 64 - 1) (find id copied.leases) ≡ false))
    ⊎ ((l : Lease) × (find l.lease_id copied.leases ≡ some l)
        × (drainable copied l ≡ true)
        × ((id : ℕ) → older_than copied (touched copied l) (find id copied.leases) ≡ false)
        × (force_drain_one (no_io 0) copied ≡ drain_lease (no_io 0) l copied))
unfolding find
force_drain_one-oldest_example = force_drain_one-oldest (no_io 0) copied refl refl

expire_session_lem_example :
    (epoch_valid (expire_session 20000000 rank_one copied) 1 5 ≡ (
      if overdue copied 20000000 rank_one && rank_one.rank_id == 1
      then false
      else epoch_valid copied 1 5))
    × (find 1 (expire_session 20000000 rank_one copied).sessions ≡ (
        if overdue copied 20000000 rank_one && rank_one.rank_id == 1
        then some (record rank_one { alive = false })
        else find 1 copied.sessions))
    × ((expire_session 20000000 rank_one copied).next_rank_epoch ≡ copied.next_rank_epoch)
expire_session_lem_example = expire_session_lem 20000000 rank_one copied 1 5
