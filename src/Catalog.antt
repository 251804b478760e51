-- ===== src/Catalog.antt =====
-- The catalog of canonical objects (src/daemon/canonical.cpp, src/daemon/canonical_rollout.cpp) under
-- everything that touches it: drains, restores and exports give up the lock, and the other threads are
-- asked for the same bookkeeping.
pub mod Producers
pub mod Consumers
pub mod Transfers
pub mod Runs
use state_spectre.Prelude.{
  ℕ, zero, suc, ◌+◌, ◌-◌, ◌^◌, ◌≡◌, refl, inl, inr, Bool, true, false, Option, none, some, ◌==◌,
  if◌then◌else◌, arith, nat_eq, Option-cases, Bool-cases, List-cases, List, [], ◌∷◌,
}
use state_spectre.Prelude.Table.{find}
use state_spectre.State.{Daemon, Lease, Object, SlotState, ColdEntry, sub, add, draining_bytes}
use state_spectre.Slots.{allocate_slots, set_slot_state, free_slots, mark_run}
use state_spectre.Leases.{update_location_if_latest}
use state_spectre.Drain.{
  DrainIo, oldest, finish_drain, drain_lease, force_drain_one, allocate_or_drain,
  drain_worker_round,
}
use state_spectre.Objects.Holders.{AllCounted, same_objects-AllCounted}

abbrev pub KeepsCounted : (Daemon → Daemon) → Type 0
KeepsCounted f = (d : Daemon) → AllCounted d → AllCounted (f d)

objects-finish_drain :
    (base count t v lease n : ℕ) (c : ColdEntry) (d : Daemon)
    → (finish_drain base count t v lease n c d).objects ≡ d.objects
unfolding finish_drain set_slot_state free_slots update_location_if_latest
objects-finish_drain base count t v lease n c d = ground arith

finish_drain-AllCounted :
    (base count t v lease n : ℕ) (c : ColdEntry) (d : Daemon)
    → AllCounted d
    → AllCounted (finish_drain base count t v lease n c d)
finish_drain-AllCounted base count t v lease n c d h =
    same_objects-AllCounted d (finish_drain base count t v lease n c d)
      (objects-finish_drain base count t v lease n c d) h

objects-allocate : (g n b f : ℕ) (d : Daemon) → (allocate_slots g n b f d).1.objects ≡ d.objects
unfolding allocate_slots
objects-allocate g n b f d = ground arith

drain_lease-AllCounted :
    (io : DrainIo) (l : Lease) (d : Daemon)
    → KeepsCounted io.meanwhile
    → AllCounted d
    → AllCounted (drain_lease io l d).1
unfolding drain_lease
drain_lease-AllCounted io l d k h = elim (Option-cases io.cold) [
  | inl failed ↦ rw (failed, drain_lease) (k started h)
  | inr (c, wrote) ↦
      let back = sub draining_bytes l.nbytes (io.meanwhile started) in
      rw (wrote, drain_lease)
        (finish_drain-AllCounted l.base_slot l.slot_count l.tensor_id l.version l.lease_id l.nbytes
          c back (k started h))
]
  where
    started : Daemon
    started =
        add draining_bytes l.nbytes (mark_run SlotState.drain_in_flight l.base_slot l.slot_count d)

force_drain_one-AllCounted :
    (io : DrainIo) (d : Daemon)
    → KeepsCounted io.meanwhile
    → AllCounted d
    → AllCounted (force_drain_one io d).1
unfolding force_drain_one
force_drain_one-AllCounted io d k h =
    elim (Option-cases (find (oldest d d.leases (2 ^ 64 - 1) 0) d.leases)) [
      | inl nothing ↦ rw (nothing, force_drain_one) h
      | inr (l, best) ↦ rw (best, force_drain_one) (drain_lease-AllCounted io l d k h)
    ]

pub allocate_or_drain-AllCounted :
    (n : ℕ) (io : ℕ → DrainIo) (g m b f : ℕ) (d : Daemon)
    → ((i : ℕ) → KeepsCounted (io i).meanwhile)
    → AllCounted d
    → AllCounted (allocate_or_drain n io g m b f d).1
unfolding allocate_or_drain
allocate_or_drain-AllCounted zero io g m b f d k h id = h id
allocate_or_drain-AllCounted (suc n) io g m b f d k h id =
    let (found, d1) = allocate_slots g m b f d in
    let (drained, d2) = force_drain_one (io n) d1 in
    let at1 = same_objects-AllCounted d d1 (objects-allocate g m b f d) h in
    let at2 = force_drain_one-AllCounted (io n) d1 (k n) at1 in
    ground (arith, at1 id, at2 id, allocate_or_drain-AllCounted n io g m b f d2 k at2 id)

pub drain_round-AllCounted :
    (io : DrainIo) (d : Daemon)
    → KeepsCounted io.meanwhile
    → AllCounted d
    → AllCounted (drain_worker_round io d)
unfolding drain_worker_round
drain_round-AllCounted io d k h id = elim (List-cases d.drain_queue) [
  | inl empty ↦ rw (empty, drain_worker_round) (h id)
  | inr (job, rest, e) ↦
      let s = d.slots job.base_slot in
      let popped = record d { drain_queue = rest } in
      let back = sub draining_bytes s.nbytes (io.meanwhile popped) in
      elim (Option-cases io.cold) [
        | inl failed ↦ ground (arith, e, h id, k popped h id)
        | inr (c, wrote) ↦ ground (
          arith,
          e,
          h id,
          k popped h id,
          finish_drain-AllCounted job.base_slot job.slot_count s.tensor_id s.version s.lease_id
              s.nbytes c back (k popped h) id,
        )
      ]
]
