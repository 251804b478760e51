-- ===== src/Offload.antt =====
-- src/daemon/daemon.cpp: the device-to-host path. Each handler takes the daemon and returns it with
-- the reply; trace events and the texts of the replies are not modelled.
pub mod Tables
pub mod Lifecycle
use state_spectre.Prelude.{
  ℕ, zero, suc, ◌+◌, ◌*◌, Bool, true, false, ◌&&◌, ◌||◌, not, Option, none, some, List, [], ◌∷◌,
  ltb, ◌==◌, if◌then◌else◌, nat_eq, ◌++◌,
}
use state_spectre.Prelude.Table.{Table, find, insert, erase}
use state_spectre.State.{
  Daemon, Lease, Location, LocationKind, Slot, SlotState, DrainJob, Object, inc, add, sub,
  used_pinned_bytes, inflight_d2h_bytes, d2h_bytes, draining_bytes, offload_requests,
  leases_granted, blocked_reservations, drains_enqueued, epoch_mismatch_rejected,
  lease_owner_mismatch_rejected, invalid_transition_rejected, slot_overlap_prevented, is_free,
  is_reserved_d2h, is_d2h_in_flight, is_pinned_valid, is_h2d_in_flight, is_readback_in_flight,
  is_pinned, is_canonical_tid, object_of_tid, is_creating,
}
use state_spectre.Slots.{slot_state, mark_run, on_run, touch, free_slots, slots_for_bytes}
use state_spectre.Leases.{
  epoch_valid, find_lease, update_location_if_latest, pid_of, bind_slot, owns,
}
use state_spectre.Drain.{DrainIo, allocate_or_drain, max_attempts}
use state_spectre.Replies.{
  Reply, ok, err, epoch_invalid, nbytes_zero, no_pinned_capacity, slot_overlap, lease_mismatch,
  not_reserved_d2h, not_lease_owner, rejected, unknown_tensor, version_not_latest,
}

pub record OffloadRequest : Type 0 where
  pub rank_id : ℕ
  pub rank_epoch : ℕ
  pub tensor_id : ℕ
  pub version : ℕ
  pub nbytes : ℕ
  pub gpu_id : ℕ
  pub numa_node : ℕ
  pub flags : ℕ

pub record OffloadGrant : Type 0 where
  pub lease_id : ℕ
  pub slot_id : ℕ
  pub arena_id : ℕ
  pub arena_offset : ℕ
  pub capacity : ℕ

-- the overlap guard: every slot of the run is FREE
unfoldable pub run_free : Daemon → ℕ → ℕ → Bool
run_free d base zero = true
run_free d base (suc n) = is_free (slot_state d base) && run_free d (suc base) n

-- Mark the run, count its bytes and enter the lease. The lease id is `next_lease_id_`.
unfoldable pub reserve_run : Lease → ℕ → SlotState → Daemon → Daemon
reserve_run l flags st d =
    let bound = on_run (bind_slot l flags st d.clock) l.base_slot l.slot_count d in
    let counted = add used_pinned_bytes (l.slot_count * d.cfg.allocation_granularity_bytes) bound in
    record counted { leases = insert l.lease_id l d.leases; next_lease_id = suc d.next_lease_id }

abbrev pub grant_at : Daemon → ℕ → ℕ → ℕ → OffloadGrant
grant_at d lease_id base count = record {
  lease_id = lease_id;
  slot_id = base;
  arena_id = (d.slots base).arena_id;
  arena_offset = (d.slots base).arena_offset;
  capacity = count * d.cfg.allocation_granularity_bytes;
}

abbrev pub offload_lease : Daemon → OffloadRequest → ℕ → ℕ → ℕ → Lease
offload_lease d req owner_pid base count = record {
  lease_id = d.next_lease_id;
  base_slot = base;
  slot_count = count;
  tensor_id = req.tensor_id;
  version = req.version;
  owner_rank = req.rank_id;
  owner_pid = owner_pid;
  rank_epoch = req.rank_epoch;
  nbytes = req.nbytes;
  is_prefetch = false;
}

-- the part of handle_request_offload behind the allocation
unfoldable pub place_offload :
    OffloadRequest → ℕ → ℕ → Option ℕ → Daemon → Daemon × Reply OffloadGrant
place_offload req owner_pid count none d = (inc blocked_reservations d, err no_pinned_capacity)
place_offload req owner_pid count (some base) d =
    if run_free d base count
    then (let l = offload_lease d req owner_pid base count in
        (
          inc leases_granted (reserve_run l req.flags SlotState.reserved_d2h d),
          ok (grant_at d d.next_lease_id base count),
        ))
    else (inc slot_overlap_prevented d, err slot_overlap)

unfoldable pub handle_request_offload :
    (ℕ → DrainIo) → OffloadRequest → Daemon → Daemon × Reply OffloadGrant
handle_request_offload io req d =
    if epoch_valid d req.rank_id req.rank_epoch
    then if req.nbytes == 0
      then (d, err nbytes_zero)
      else (let counted = inc offload_requests d in
          let (found, d') =
            allocate_or_drain max_attempts io req.gpu_id req.numa_node req.nbytes req.flags
              counted in
          place_offload req (pid_of (find req.rank_id d.sessions)) (slots_for_bytes d req.nbytes)
            found d')
    else (inc epoch_mismatch_rejected d, err epoch_invalid)

-- MarkD2HSubmitted, MarkD2HComplete and ring entries name the lease, the tensor and the slot.
pub record Mark : Type 0 where
  pub rank_id : ℕ
  pub rank_epoch : ℕ
  pub lease_id : ℕ
  pub tensor_id : ℕ
  pub version : ℕ
  pub slot_id : ℕ
  pub seq : ℕ

-- The lease that a mark names, if it is one of the rank, at the slot.
abbrev pub owned_lease : Mark → Option Lease → Option Lease
owned_lease m none = none
owned_lease m (some l) = if owns m.rank_id m.slot_id l then some l else none

abbrev submit_slot : ℕ → SlotState → ℕ → ℕ → Slot → Slot
submit_slot seq st now k e = record e { submit_seq = seq; state = st; last_touch_ns = now }

abbrev pub complete_slot : ℕ → SlotState → ℕ → ℕ → Slot → Slot
complete_slot seq st now k e = record e { complete_seq = seq; state = st; last_touch_ns = now }

unfoldable pub handle_mark_d2h_submitted : Mark → Daemon → Daemon × Reply (Unit {0})
handle_mark_d2h_submitted m d =
    if epoch_valid d m.rank_id m.rank_epoch
    then elim (owned_lease m (find_lease d m.lease_id)) [
      | none ↦ (inc lease_owner_mismatch_rejected d, err lease_mismatch)
      | some l ↦
          if is_reserved_d2h (slot_state d l.base_slot)
          then (
            add inflight_d2h_bytes l.nbytes (
                on_run (submit_slot m.seq SlotState.d2h_in_flight d.clock) l.base_slot l.slot_count
                  d),
            ok tt,
          )
          else (inc invalid_transition_rejected d, err not_reserved_d2h)
    ]
    else (inc epoch_mismatch_rejected d, err epoch_invalid)

abbrev creating : Option Object → Bool
creating none = false
creating (some o) = is_creating o.state

-- an object that is still being created keeps its lease until the commit
unfoldable pub creating_canonical : Daemon → ℕ → Bool
creating_canonical d tensor_id =
    is_canonical_tid tensor_id && creating (find (object_of_tid tensor_id) d.objects)

unfoldable pub enqueue_drain : Lease → Daemon → Daemon
enqueue_drain l d =
    let marked = mark_run SlotState.drain_in_flight l.base_slot l.slot_count d in
    let queued = record marked {
      drain_queue =
          d.drain_queue ++ (record { base_slot = l.base_slot; slot_count = l.slot_count } ∷ []);
    } in
    add draining_bytes l.nbytes (inc drains_enqueued queued)

-- The copy is done: PINNED_VALID, the location, and the drain. The pair is (latest, enqueued).
unfoldable pub accept_d2h : Mark → Lease → Daemon → Daemon × Bool × Bool
accept_d2h m l d =
    let valid =
      on_run (complete_slot m.seq SlotState.pinned_valid d.clock) l.base_slot l.slot_count d in
    let counted = add d2h_bytes l.nbytes (sub inflight_d2h_bytes l.nbytes valid) in
    let (latest, located) =
      update_location_if_latest m.tensor_id m.version LocationKind.pinned l.base_slot 0 l.nbytes
        counted in
    if not (creating_canonical located m.tensor_id) && located.cfg.drain_on_d2h_complete
    then (enqueue_drain l located, latest, true)
    else (located, latest, false)

unfoldable pub apply_d2h_complete : Mark → Daemon → Daemon × Reply (Bool × Bool)
apply_d2h_complete m d =
    if epoch_valid d m.rank_id m.rank_epoch
    then elim (owned_lease m (find_lease d m.lease_id)) [
      | none ↦ (inc lease_owner_mismatch_rejected d, err rejected)
      | some l ↦
          if l.tensor_id == m.tensor_id && l.version == m.version
          then if is_d2h_in_flight (slot_state d l.base_slot)
            then (let (d', latest, queued) = accept_d2h m l d in (d', ok (latest, queued)))
            else (inc invalid_transition_rejected d, err rejected)
          else (inc invalid_transition_rejected d, err rejected)
    ]
    else (inc epoch_mismatch_rejected d, err rejected)

-- release applies to the states that a rank's own copy can be in
abbrev pub releasable : SlotState → Bool
releasable st =
    is_pinned_valid st
    || (is_reserved_d2h st
        || (is_h2d_in_flight st || (is_d2h_in_flight st || is_readback_in_flight st)))

-- The freed slot held the latest copy, and there is no other: the location becomes NONE.
abbrev pub forget : Lease → Option Location → Table ℕ Location → Table ℕ Location
forget l none m = m
forget l (some loc) m =
    if loc.slot_id == l.base_slot && (is_pinned loc.kind && loc.version == l.version)
    then insert l.tensor_id (record loc { kind = LocationKind.none }) m
    else m

pub data Released : Type 0 where
  already_released freed managed_by_drain : Released

unfoldable pub release_lease : Lease → ℕ → Daemon → Daemon × Reply Released
release_lease l lease_id d =
    if releasable (slot_state d l.base_slot)
    then (let forgotten = record d {
      locations = forget l (find l.tensor_id d.locations) d.locations;
    } in
        let freed_run = free_slots l.base_slot l.slot_count forgotten in
        (record freed_run { leases = erase lease_id d.leases }, ok freed))
    else (record d { leases = erase lease_id d.leases }, ok managed_by_drain)

unfoldable pub handle_release_lease : ℕ → ℕ → ℕ → Daemon → Daemon × Reply Released
handle_release_lease rank epoch lease_id d =
    if epoch_valid d rank epoch
    then elim (find_lease d lease_id) [
      | none ↦ (d, ok already_released)
      | some l ↦
          if l.owner_rank == rank
          then release_lease l lease_id d
          else (inc lease_owner_mismatch_rejected d, err not_lease_owner)
    ]
    else (inc epoch_mismatch_rejected d, err epoch_invalid)

-- It changes nothing. Version 0 asks for the latest.
unfoldable pub handle_query_location : ℕ → ℕ → Daemon → Reply Location
handle_query_location tensor_id version d = elim (find tensor_id d.locations) [
  | none ↦ err unknown_tensor
  | some loc ↦
      if not (version == 0) && not (version == loc.version) then err version_not_latest else ok loc
]
