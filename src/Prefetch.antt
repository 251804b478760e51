-- ===== src/Prefetch.antt =====
-- src/daemon/daemon.cpp: the host-to-device path: prefetch, readback and H2D completion.
use state_spectre.Prelude.{
  ℕ, suc, ◌*◌, Bool, true, false, ◌&&◌, ◌||◌, not, Option, none, some, [], ◌∷◌, ◌++◌, ◌==◌,
  if◌then◌else◌, nat_eq,
}
use state_spectre.Prelude.Table.{Table, find, insert, erase}
use state_spectre.State.{
  Daemon, Lease, Location, LocationKind, ColdEntry, Slot, SlotState, ReadbackJob, inc, add, sub,
  used_pinned_bytes, inflight_h2d_bytes, h2d_bytes, prefetch_requests, blocked_reservations,
  readbacks_started, readbacks_completed, epoch_mismatch_rejected, lease_owner_mismatch_rejected,
  invalid_transition_rejected, io_failure, is_pinned_valid, is_h2d_in_flight, is_readback_in_flight,
  is_pinned, is_gone,
}
use state_spectre.Slots.{slot_state, mark_run, on_run, free_slots, slots_for_bytes}
use state_spectre.Leases.{epoch_valid, find_lease, update_location_if_latest, pid_of, bind_slot}
use state_spectre.Drain.{DrainIo, allocate_or_drain, max_attempts}
use state_spectre.Offload.{Mark, owned_lease}
use state_spectre.Replies.{
  Reply, ok, err, epoch_invalid, unknown_tensor, version_not_latest, not_resident,
  no_readback_capacity, lease_mismatch, not_pinned_valid, rejected,
}

pub record PrefetchRequest : Type 0 where
  pub rank_id : ℕ
  pub rank_epoch : ℕ
  pub tensor_id : ℕ
  pub version : ℕ
  pub gpu_id : ℕ
  pub numa_node : ℕ
  pub flags : ℕ

pub record Prefetched : Type 0 where
  pub lease_id : ℕ
  pub slot_id : ℕ
  pub arena_id : ℕ
  pub arena_offset : ℕ
  pub nbytes : ℕ
  pub ready : Bool
  pub version : ℕ

-- a readback of this version that is in flight or has landed
abbrev serves : Daemon → ℕ → ℕ → Lease → Bool
serves d tensor_id version l =
    l.is_prefetch
    && (l.tensor_id == tensor_id
        && (l.version == version
            && (is_readback_in_flight (slot_state d l.base_slot)
                || is_pinned_valid (slot_state d l.base_slot))))

unfoldable pub pending_readback : Daemon → ℕ → ℕ → Table ℕ Lease → Option Lease
pending_readback d tensor_id version [] = none
pending_readback d tensor_id version ((id, l) ∷ m) =
    let rest = pending_readback d tensor_id version m in
    if serves d tensor_id version l then some l else rest

abbrev pub prefetched_at : Daemon → Lease → Bool → Prefetched
prefetched_at d l ready = record {
  lease_id = l.lease_id;
  slot_id = l.base_slot;
  arena_id = (d.slots l.base_slot).arena_id;
  arena_offset = (d.slots l.base_slot).arena_offset;
  nbytes = l.nbytes;
  ready = ready;
  version = l.version;
}

abbrev pub prefetch_lease : Daemon → PrefetchRequest → Location → ℕ → ℕ → ℕ → Lease
prefetch_lease d req loc lease_id base count = record {
  lease_id = lease_id;
  base_slot = base;
  slot_count = count;
  tensor_id = req.tensor_id;
  version = loc.version;
  owner_rank = req.rank_id;
  owner_pid = pid_of (find req.rank_id d.sessions);
  rank_epoch = req.rank_epoch;
  nbytes = loc.nbytes;
  is_prefetch = true;
}

abbrev readback_slot : Lease → ℕ → ℕ → ℕ → ℕ → Slot → Slot
readback_slot l flags cold_ref now k e =
    record (bind_slot l flags SlotState.readback_in_flight now k e) { cold_ref = cold_ref }

-- the run for a readback: bind it, enter the lease, queue the job
unfoldable pub start_readback :
    PrefetchRequest → Location → Lease → Option ℕ → Daemon → Daemon × Reply Prefetched
start_readback req loc l none d = (inc blocked_reservations d, err no_readback_capacity)
start_readback req loc l (some base) d =
    let at = record l { base_slot = base } in
    let bound = on_run (readback_slot at req.flags loc.cold_ref d.clock) base l.slot_count d in
    let counted = add used_pinned_bytes (l.slot_count * d.cfg.allocation_granularity_bytes) bound in
    let job : ReadbackJob = record {
      base_slot = base;
      slot_count = l.slot_count;
      cold_ref = loc.cold_ref;
      nbytes = loc.nbytes;
    } in
    let queued = record counted {
      leases = insert l.lease_id at d.leases;
      readback_queue = d.readback_queue ++ (job ∷ []);
    } in
    (inc readbacks_started queued, ok (prefetched_at queued at false))

-- A resident copy is bound to a lease as it is; a cold one is read back.
unfoldable pub new_prefetch :
    (ℕ → DrainIo) → PrefetchRequest → Location → Daemon → Daemon × Reply Prefetched
new_prefetch io req loc d =
    let numbered = record d { next_lease_id = suc d.next_lease_id } in
    let l = prefetch_lease d req loc d.next_lease_id loc.slot_id (slots_for_bytes d loc.nbytes) in
    if is_pinned loc.kind && is_pinned_valid (slot_state d loc.slot_id)
    then (
      record numbered { leases = insert d.next_lease_id l d.leases },
      ok (prefetched_at d l true),
    )
    else (let (found, d') =
          allocate_or_drain max_attempts io req.gpu_id req.numa_node loc.nbytes req.flags
            numbered in
        start_readback req loc l found d')

abbrev pub answer_prefetch :
    (ℕ → DrainIo) → PrefetchRequest → Location → Option Lease → Daemon → Daemon × Reply Prefetched
answer_prefetch io req loc none d = new_prefetch io req loc d
answer_prefetch io req loc (some l) d =
    (d, ok (prefetched_at d l (is_pinned_valid (slot_state d l.base_slot))))

-- Version 0 asks for the latest.
unfoldable pub prefetch_located :
    (ℕ → DrainIo) → PrefetchRequest → Location → Daemon → Daemon × Reply Prefetched
prefetch_located io req loc d =
    if not (req.version == 0) && not (req.version == loc.version)
    then (d, err version_not_latest)
    else if is_gone loc.kind
    then (d, err not_resident)
    else answer_prefetch io req loc (pending_readback d req.tensor_id loc.version d.leases) d

unfoldable pub handle_request_prefetch :
    (ℕ → DrainIo) → PrefetchRequest → Daemon → Daemon × Reply Prefetched
handle_request_prefetch io req d =
    if not (epoch_valid d req.rank_id req.rank_epoch)
    then (inc epoch_mismatch_rejected d, err epoch_invalid)
    else elim (find req.tensor_id d.locations) [
      | none ↦ (inc prefetch_requests d, err unknown_tensor)
      | some loc ↦ prefetch_located io req loc (inc prefetch_requests d)
    ]

abbrev submit_h2d_slot : ℕ → ℕ → ℕ → Slot → Slot
submit_h2d_slot seq now k e = record e {
  submit_seq = seq;
  state = SlotState.h2d_in_flight;
  last_touch_ns = now;
}

unfoldable pub handle_mark_h2d_submitted : Mark → Daemon → Daemon × Reply (Unit {0})
handle_mark_h2d_submitted m d =
    if not (epoch_valid d m.rank_id m.rank_epoch)
    then (inc epoch_mismatch_rejected d, err epoch_invalid)
    else elim (owned_lease m (find_lease d m.lease_id)) [
      | none ↦ (inc lease_owner_mismatch_rejected d, err lease_mismatch)
      | some l ↦
          if is_pinned_valid (slot_state d l.base_slot)
          then (
            add inflight_h2d_bytes l.nbytes
                (on_run (submit_h2d_slot m.seq d.clock) l.base_slot l.slot_count d),
            ok tt,
          )
          else (inc invalid_transition_rejected d, err not_pinned_valid)
    ]

-- The location's cold copy, if it has one, or the slot's.
abbrev pub cold_ref_of : ℕ → Option Location → ℕ
cold_ref_of slot_ref none = slot_ref
cold_ref_of slot_ref (some loc) = if loc.cold_ref == 0 then slot_ref else loc.cold_ref

abbrev pub cold_copy : Daemon → ℕ → Option ColdEntry
cold_copy d cold_ref = if cold_ref == 0 then none else find cold_ref d.cold_store

abbrev pub to_cold : Mark → ℕ → LocationKind → Option Location → Table ℕ Location → Table ℕ Location
to_cold m base kind none t = t
to_cold m base kind (some loc) t =
    if loc.slot_id == base && loc.version == m.version
    then insert m.tensor_id (record loc { kind = kind; slot_id = 0 }) t
    else t

-- A durable cold copy lets the pinned one go; otherwise it stays resident and readable.
unfoldable pub settle_h2d : Mark → Bool → Lease → ℕ → Option ColdEntry → Daemon → Daemon
settle_h2d m keep_pinned l cold_ref none d =
    (update_location_if_latest m.tensor_id m.version LocationKind.pinned l.base_slot cold_ref
      l.nbytes (mark_run SlotState.pinned_valid l.base_slot l.slot_count d)).1
settle_h2d m keep_pinned l cold_ref (some c) d =
    if keep_pinned
    then (update_location_if_latest m.tensor_id m.version LocationKind.pinned l.base_slot cold_ref
        l.nbytes (mark_run SlotState.pinned_valid l.base_slot l.slot_count d)).1
    else (let moved = record d {
      locations = to_cold m l.base_slot c.kind (find m.tensor_id d.locations) d.locations;
    } in
        let freed = free_slots l.base_slot l.slot_count moved in
        record freed { leases = erase m.lease_id freed.leases })

abbrev pub stamp_complete : ℕ → ℕ → Slot → Slot
stamp_complete seq k e = record e { complete_seq = seq }

unfoldable pub accept_h2d : Mark → Bool → Lease → Daemon → Daemon
accept_h2d m keep_pinned l d =
    let stamped = on_run (stamp_complete m.seq) l.base_slot l.slot_count d in
    let counted = add h2d_bytes l.nbytes (sub inflight_h2d_bytes l.nbytes stamped) in
    let cold_ref =
      cold_ref_of (counted.slots l.base_slot).cold_ref (find m.tensor_id counted.locations) in
    settle_h2d m keep_pinned l cold_ref (cold_copy counted cold_ref) counted

unfoldable pub apply_h2d_complete : Mark → Bool → Daemon → Daemon × Reply (Unit {0})
apply_h2d_complete m keep_pinned d =
    if not (epoch_valid d m.rank_id m.rank_epoch)
    then (inc epoch_mismatch_rejected d, err rejected)
    else elim (owned_lease m (find_lease d m.lease_id)) [
      | none ↦ (inc lease_owner_mismatch_rejected d, err rejected)
      | some l ↦
          if is_h2d_in_flight (slot_state d l.base_slot)
          then (accept_h2d m keep_pinned l d, ok tt)
          else (inc invalid_transition_rejected d, err rejected)
    ]

-- The read of the cold bytes, with what other threads did meanwhile.
pub record ReadIo : Type 0 where
  pub read_ok : Bool
  pub meanwhile : Daemon → Daemon

abbrev pub fail_readback : ReadbackJob → Daemon → Daemon
fail_readback job d = inc io_failure (mark_run SlotState.error job.base_slot job.slot_count d)

unfoldable pub land_readback : ReadbackJob → Daemon → Daemon
land_readback job d =
    let e = d.slots job.base_slot in
    inc readbacks_completed
      (update_location_if_latest e.tensor_id e.version LocationKind.pinned job.base_slot
        job.cold_ref job.nbytes (mark_run SlotState.pinned_valid job.base_slot job.slot_count d)).1

-- Between the two checks of the slot the lock is released, also when there is no cold entry.
abbrev pub read_back : ReadIo → ReadbackJob → Option ColdEntry → Daemon → Daemon
read_back io job none d = fail_readback job (io.meanwhile d)
read_back io job (some c) d =
    let back = io.meanwhile d in
    if is_readback_in_flight (slot_state back job.base_slot)
    then (if io.read_ok then land_readback job back else fail_readback job back)
    else back

-- One round of readback_worker_loop for the job at the front of the queue.
unfoldable pub readback_worker_round : ReadIo → Daemon → Daemon
readback_worker_round io d = elim d.readback_queue [
  | [] ↦ d
  | job ∷ rest ↦
      let popped = record d { readback_queue = rest } in
      if is_readback_in_flight (slot_state popped job.base_slot)
      then read_back io job (find job.cold_ref popped.cold_store) popped
      else popped
]
