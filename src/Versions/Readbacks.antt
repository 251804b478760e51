-- ===== src/Versions/Readbacks.antt =====
-- src/daemon/daemon.cpp: the version order under the host-to-device handlers and the workers.
use state_spectre.Prelude.{
  ℕ, suc, ◌≡◌, Bool, true, false, Option, none, some, arith, nat_eq, Option-cases, List-cases, inl,
  inr,
}
use state_spectre.Prelude.Table.{Table, find, find-insert}
use state_spectre.State.{
  Daemon, Lease, Location, LocationKind, SlotState, ColdEntry, ReadbackJob, inc, add, sub,
  h2d_bytes, inflight_h2d_bytes, prefetch_requests, draining_bytes,
}
use state_spectre.Slots.{slots_for_bytes, free_slots, mark_run, on_run}
use state_spectre.Leases.{latest_version, version_of, find_lease}
use state_spectre.Leases.Versions.{Later, update-Later}
use state_spectre.Drain.{DrainIo, drain_worker_round, allocate_or_drain, max_attempts}
use state_spectre.Offload.{Mark, owned_lease}
use state_spectre.Versions.{Forward, finish_drain-Later, allocate_or_drain-Later}
use state_spectre.Prefetch.{
  PrefetchRequest, prefetch_lease, start_readback, new_prefetch, prefetch_located,
  handle_request_prefetch, pending_readback, handle_mark_h2d_submitted, to_cold, cold_copy,
  cold_ref_of, settle_h2d, accept_h2d, apply_h2d_complete, ReadIo, stamp_complete, land_readback,
  readback_worker_round,
}

-- Moving to the cold copy keeps the version.
to_cold-version :
    (m : Mark) (base : ℕ) (kind : LocationKind) (t : Table ℕ Location) (tid : ℕ)
    → version_of (find tid (to_cold m base kind (find m.tensor_id t) t)) ≡ version_of (find tid t)
to_cold-version m base kind t tid = elim (Option-cases (find m.tensor_id t)) [
  | inl missing ↦ rw (missing)
  | inr (loc, there) ↦
      ground (arith, there, find-insert m.tensor_id tid (record loc { kind = kind; slot_id = 0 }) t)
]

settle_h2d-Later :
    (m : Mark) (keep : Bool) (l : Lease) (r : ℕ) (c : Option ColdEntry) (d : Daemon)
    → Later d (settle_h2d m keep l r c d)
unfolding settle_h2d latest_version free_slots
settle_h2d-Later m keep l r none d tid =
    update-Later m.tensor_id m.version LocationKind.pinned l.base_slot r l.nbytes
      (mark_run SlotState.pinned_valid l.base_slot l.slot_count d) tid
settle_h2d-Later m true l r (some c) d tid =
    update-Later m.tensor_id m.version LocationKind.pinned l.base_slot r l.nbytes
      (mark_run SlotState.pinned_valid l.base_slot l.slot_count d) tid
settle_h2d-Later m false l r (some c) d tid =
    omega (arith, to_cold-version m l.base_slot c.kind d.locations tid)

accept_h2d-Later :
    (m : Mark) (keep : Bool) (l : Lease) (d : Daemon) → Later d (accept_h2d m keep l d)
unfolding accept_h2d latest_version
accept_h2d-Later m keep l d tid =
    let stamped = on_run (stamp_complete m.seq) l.base_slot l.slot_count d in
    let counted = add h2d_bytes l.nbytes (sub inflight_h2d_bytes l.nbytes stamped) in
    let r = cold_ref_of (counted.slots l.base_slot).cold_ref (find m.tensor_id counted.locations) in
    settle_h2d-Later m keep l r (cold_copy counted r) counted tid

pub apply_h2d-Later :
    (m : Mark) (keep : Bool) (d : Daemon) → Later d (apply_h2d_complete m keep d).0
unfolding apply_h2d_complete latest_version
apply_h2d-Later m keep d tid = elim (Option-cases (owned_lease m (find_lease d m.lease_id))) [
  | inl missing ↦ ground arith
  | inr (l, owned) ↦ ground (arith, accept_h2d-Later m keep l d tid)
]

pub submit_h2d-Later : (m : Mark) (d : Daemon) → Later d (handle_mark_h2d_submitted m d).0
unfolding handle_mark_h2d_submitted latest_version
submit_h2d-Later m d tid = elim (Option-cases (owned_lease m (find_lease d m.lease_id))) [
  | inl missing ↦ ground arith
  | inr (l, owned) ↦ ground arith
]

start_readback-Later :
    (req : PrefetchRequest) (loc : Location) (l : Lease) (o : Option ℕ) (d : Daemon)
    → Later d (start_readback req loc l o d).0
unfolding start_readback latest_version
start_readback-Later req loc l none d tid = omega arith
start_readback-Later req loc l (some base) d tid = omega arith

new_prefetch-Later :
    (io : ℕ → DrainIo) (req : PrefetchRequest) (loc : Location) (d : Daemon)
    → ((i : ℕ) → Forward (io i).meanwhile)
    → Later d (new_prefetch io req loc d).0
unfolding new_prefetch latest_version
new_prefetch-Later io req loc d fw tid =
    let numbered = record d { next_lease_id = suc d.next_lease_id } in
    let (found, d') =
      allocate_or_drain max_attempts io req.gpu_id req.numa_node loc.nbytes req.flags numbered in
    ground (
      arith,
      allocate_or_drain-Later max_attempts io req.gpu_id req.numa_node loc.nbytes req.flags numbered
          fw tid,
      start_readback-Later req loc
          (prefetch_lease d req loc d.next_lease_id loc.slot_id (slots_for_bytes d loc.nbytes))
          found d' tid,
    )

pub request_prefetch-Later :
    (io : ℕ → DrainIo) (req : PrefetchRequest) (d : Daemon)
    → ((i : ℕ) → Forward (io i).meanwhile)
    → Later d (handle_request_prefetch io req d).0
unfolding handle_request_prefetch prefetch_located latest_version
request_prefetch-Later io req d fw tid = elim (Option-cases (find req.tensor_id d.locations)) [
  | inl missing ↦ ground arith
  | inr (loc, there) ↦
      let counted = inc prefetch_requests d in
      elim (Option-cases (pending_readback counted req.tensor_id loc.version counted.leases)) [
        | inl fresh ↦ ground (arith, new_prefetch-Later io req loc counted fw tid)
        | inr (l, pending) ↦ ground arith
      ]
]

land_readback-Later : (job : ReadbackJob) (d : Daemon) → Later d (land_readback job d)
unfolding land_readback latest_version
land_readback-Later job d tid =
    let e = d.slots job.base_slot in
    update-Later e.tensor_id e.version LocationKind.pinned job.base_slot job.cold_ref job.nbytes
      (mark_run SlotState.pinned_valid job.base_slot job.slot_count d) tid

pub readback_round-Later :
    (io : ReadIo) (d : Daemon) → Forward io.meanwhile → Later d (readback_worker_round io d)
unfolding readback_worker_round latest_version
readback_round-Later io d fw tid = elim (List-cases d.readback_queue) [
  | inl empty ↦ rw (empty, readback_worker_round) (omega arith)
  | inr (job, rest, some_job) ↦
      let popped = record d { readback_queue = rest } in
      elim (Option-cases (find job.cold_ref popped.cold_store)) [
        | inl missing ↦ rw (some_job, readback_worker_round) (ground (arith, fw popped tid))
        | inr (c, there) ↦
            rw (some_job, readback_worker_round)
              (ground (arith, fw popped tid, land_readback-Later job (io.meanwhile popped) tid))
      ]
]

pub drain_round-Later :
    (io : DrainIo) (d : Daemon) → Forward io.meanwhile → Later d (drain_worker_round io d)
unfolding drain_worker_round latest_version
drain_round-Later io d fw tid = elim (List-cases d.drain_queue) [
  | inl empty ↦ rw (empty, drain_worker_round) (omega arith)
  | inr (job, rest, some_job) ↦
      let popped = record d { drain_queue = rest } in
      let e = d.slots job.base_slot in
      let back = sub draining_bytes e.nbytes (io.meanwhile popped) in
      elim (Option-cases io.cold) [
        | inl failed ↦ rw (some_job, drain_worker_round) (ground (arith, fw popped tid))
        | inr (c, wrote) ↦
            rw (some_job, drain_worker_round)
              (ground (
                arith,
                fw popped tid,
                finish_drain-Later job.base_slot job.slot_count e.tensor_id e.version e.lease_id
                    e.nbytes c back tid,
              ))
      ]
]
