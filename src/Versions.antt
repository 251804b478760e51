-- ===== src/Versions.antt =====
-- The version order over whole runs of the v1 protocol (src/daemon/daemon.cpp).
-- Where a handler gives up the lock, the other threads are asked for the same order.
pub mod Readbacks
pub mod Runs
pub mod Epochs
use state_spectre.Prelude.{
  ℕ, zero, suc, ◌+◌, ◌-◌, ◌^◌, ◌≤◌, ◌≡◌, refl, sym, ◌∙◌, Bool, true, false, Option, none, some,
  List, [], ◌∷◌, ◌==◌, if◌then◌else◌, arith, nat_eq, Bool-cases, Option-cases, inl, inr,
}
use state_spectre.Prelude.Table.{Table, find, insert, find-insert}
use state_spectre.State.{
  Daemon, Lease, Location, LocationKind, SlotState, ColdEntry, DrainJob, ReadbackJob, add, sub, inc,
  draining_bytes, offload_requests, d2h_bytes, inflight_d2h_bytes,
}
use state_spectre.Slots.{
  allocate_slots, set_slot_state, free_slots, mark_run, on_run, slots_for_bytes,
}
use state_spectre.Leases.{latest_version, version_of, find_lease, pid_of, update_location_if_latest}
use state_spectre.Leases.Versions.{
  Later, Later-refl, Later-trans, same_locations-Later, update-Later, insert-Later,
}
use state_spectre.Drain.{
  DrainIo, oldest, drain_lease, finish_drain, force_drain_one, allocate_or_drain,
  drain_worker_round, max_attempts,
}
use state_spectre.Offload.{
  OffloadRequest, Mark, place_offload, reserve_run, handle_request_offload,
  handle_mark_d2h_submitted, accept_d2h, enqueue_drain, apply_d2h_complete, forget, complete_slot,
  owned_lease, release_lease, handle_release_lease,
}

-- what the other threads do while the lock is given up
abbrev pub Forward : (Daemon → Daemon) → Type 0
Forward f = (d : Daemon) → Later d (f d)

locations-allocate :
    (g n b f : ℕ) (d : Daemon) → (allocate_slots g n b f d).1.locations ≡ d.locations
unfolding allocate_slots
locations-allocate g n b f d = ground arith

pub finish_drain-Later :
    (base count t v lease n : ℕ) (c : ColdEntry) (d : Daemon)
    → Later d (finish_drain base count t v lease n c d)
unfolding finish_drain set_slot_state free_slots latest_version
finish_drain-Later base count t v lease n c d tid =
    update-Later t v c.kind base d.next_cold_ref n _ tid

pub drain_lease-Later :
    (io : DrainIo) (l : Lease) (d : Daemon) → Forward io.meanwhile → Later d (drain_lease io l d).1
unfolding drain_lease latest_version
drain_lease-Later io l d fw tid = elim (Option-cases io.cold) [
  | inl failed ↦ rw (failed, drain_lease) (fw started tid)
  | inr (c, wrote) ↦
      rw (wrote, drain_lease)
        (omega (
          arith,
          fw started tid,
          finish_drain-Later l.base_slot l.slot_count l.tensor_id l.version l.lease_id l.nbytes c
              (sub draining_bytes l.nbytes (io.meanwhile started)) tid,
        ))
]
  where
    started : Daemon
    started =
        add draining_bytes l.nbytes (mark_run SlotState.drain_in_flight l.base_slot l.slot_count d)

pub force_drain_one-Later :
    (io : DrainIo) (d : Daemon) → Forward io.meanwhile → Later d (force_drain_one io d).1
unfolding force_drain_one
force_drain_one-Later io d fw tid =
    elim (Option-cases (find (oldest d d.leases (2 ^ 64 - 1) 0) d.leases)) [
      | inl nothing ↦ rw (nothing, force_drain_one) (omega arith)
      | inr (l, best) ↦ rw (best, force_drain_one) (drain_lease-Later io l d fw tid)
    ]

allocate-Later : (g n b f : ℕ) (d : Daemon) → Later d (allocate_slots g n b f d).1
allocate-Later g n b f d =
    same_locations-Later d (allocate_slots g n b f d).1 (locations-allocate g n b f d)

pub allocate_or_drain-Later :
    (k : ℕ) (io : ℕ → DrainIo) (g n b f : ℕ) (d : Daemon)
    → ((i : ℕ) → Forward (io i).meanwhile)
    → Later d (allocate_or_drain k io g n b f d).1
unfolding allocate_or_drain
allocate_or_drain-Later zero io g n b f d fw tid = omega arith
allocate_or_drain-Later (suc k) io g n b f d fw tid =
    let (found, d1) = allocate_slots g n b f d in
    let (drained, d2) = force_drain_one (io k) d1 in
    ground (
      arith,
      allocate-Later g n b f d tid,
      force_drain_one-Later (io k) d1 (fw k) tid,
      allocate_or_drain-Later k io g n b f d2 fw tid,
    )

place_offload-Later :
    (req : OffloadRequest) (pid count : ℕ) (o : Option ℕ) (d : Daemon)
    → Later d (place_offload req pid count o d).0
unfolding place_offload reserve_run latest_version
place_offload-Later req pid count none d tid = omega arith
place_offload-Later req pid count (some base) d tid = ground arith

pub request_offload-Later :
    (io : ℕ → DrainIo) (req : OffloadRequest) (d : Daemon)
    → ((i : ℕ) → Forward (io i).meanwhile)
    → Later d (handle_request_offload io req d).0
unfolding handle_request_offload latest_version
request_offload-Later io req d fw tid =
    let counted = inc offload_requests d in
    let (found, d') =
      allocate_or_drain max_attempts io req.gpu_id req.numa_node req.nbytes req.flags counted in
    ground (
      arith,
      allocate_or_drain-Later max_attempts io req.gpu_id req.numa_node req.nbytes req.flags counted
          fw tid,
      place_offload-Later req (pid_of (find req.rank_id d.sessions)) (slots_for_bytes d req.nbytes)
          found d' tid,
    )

accept_d2h-Later : (m : Mark) (l : Lease) (d : Daemon) → Later d (accept_d2h m l d).0
unfolding accept_d2h enqueue_drain latest_version
accept_d2h-Later m l d tid =
    let valid =
      on_run (complete_slot m.seq SlotState.pinned_valid d.clock) l.base_slot l.slot_count d in
    let counted = add d2h_bytes l.nbytes (sub inflight_d2h_bytes l.nbytes valid) in
    ground (
      arith,
      update-Later m.tensor_id m.version LocationKind.pinned l.base_slot 0 l.nbytes counted tid,
    )

pub apply_d2h-Later : (m : Mark) (d : Daemon) → Later d (apply_d2h_complete m d).0
unfolding apply_d2h_complete latest_version
apply_d2h-Later m d tid = elim (Option-cases (owned_lease m (find_lease d m.lease_id))) [
  | inl missing ↦ ground arith
  | inr (l, owned) ↦ ground (arith, accept_d2h-Later m l d tid)
]

-- Forgetting a slot keeps the version.
forget-version :
    (l : Lease) (m : Table ℕ Location) (tid : ℕ)
    → version_of (find tid (forget l (find l.tensor_id m) m)) ≡ version_of (find tid m)
forget-version l m tid = elim (Option-cases (find l.tensor_id m)) [
  | inl missing ↦ rw (missing)
  | inr (loc, there) ↦
      ground (arith, there, find-insert l.tensor_id tid (record loc { kind = LocationKind.none }) m)
]

pub release-Later :
    (rank epoch lease : ℕ) (d : Daemon) → Later d (handle_release_lease rank epoch lease d).0
unfolding handle_release_lease release_lease free_slots latest_version
release-Later rank epoch lease d tid = elim (Option-cases (find_lease d lease)) [
  | inl missing ↦ ground arith
  | inr (l, there) ↦ ground (arith, forget-version l d.locations tid)
]
