-- ===== src/Versions/Runs.antt =====
-- src/daemon/daemon.cpp: sequences of v1 calls, worker rounds and completions, in any order.
use state_spectre.Prelude.{ℕ, Bool, List, [], ◌∷◌, arith, nat_eq, Option-cases, inl, inr}
use state_spectre.State.{Daemon}
use state_spectre.Ring.{Completion}
use state_spectre.Leases.{latest_version, find_lease}
use state_spectre.Leases.Versions.{Later, Later-refl, Later-trans}
use state_spectre.Drain.{DrainIo, drain_worker_round}
use state_spectre.Offload.{
  OffloadRequest, Mark, owned_lease, handle_request_offload, handle_mark_d2h_submitted,
  apply_d2h_complete, handle_release_lease,
}
use state_spectre.Prefetch.{
  PrefetchRequest, ReadIo, handle_request_prefetch, handle_mark_h2d_submitted, apply_h2d_complete,
  readback_worker_round,
}
use state_spectre.Recovery.{
  BatchEntry, Batch, mark_of, apply_entry, apply_batch, handle_batch_complete,
  apply_ring_completion, handle_heartbeat,
}
use state_spectre.Versions.{Forward, request_offload-Later, apply_d2h-Later, release-Later}
use state_spectre.Versions.Readbacks.{
  apply_h2d-Later, submit_h2d-Later, request_prefetch-Later, readback_round-Later,
  drain_round-Later,
}

pub data Call : Type 0 where
  request_offload : (ℕ → DrainIo) → OffloadRequest → Call
  mark_d2h_submitted mark_d2h_complete mark_h2d_submitted : Mark → Call
  mark_h2d_complete : Mark → Bool → Call
  request_prefetch : (ℕ → DrainIo) → PrefetchRequest → Call
  release : (rank epoch lease : ℕ) → Call
  batch_complete : (rank epoch : ℕ) → List BatchEntry → Call
  ring_completion : (rank epoch : ℕ) → Completion → Call
  heartbeat : (rank epoch : ℕ) → Call
  drain_round : DrainIo → Call
  readback_round : ReadIo → Call

unfoldable pub perform : Call → Daemon → Daemon
perform (request_offload io req) d = (handle_request_offload io req d).0
perform (mark_d2h_submitted m) d = (handle_mark_d2h_submitted m d).0
perform (mark_d2h_complete m) d = (apply_d2h_complete m d).0
perform (mark_h2d_submitted m) d = (handle_mark_h2d_submitted m d).0
perform (mark_h2d_complete m keep) d = (apply_h2d_complete m keep d).0
perform (request_prefetch io req) d = (handle_request_prefetch io req d).0
perform (release rank epoch lease) d = (handle_release_lease rank epoch lease d).0
perform (batch_complete rank epoch cs) d = (handle_batch_complete rank epoch cs d).0
perform (ring_completion rank epoch e) d = apply_ring_completion rank epoch e d
perform (heartbeat rank epoch) d = (handle_heartbeat rank epoch d).0
perform (drain_round io) d = drain_worker_round io d
perform (readback_round io) d = readback_worker_round io d

unfoldable pub perform_all : List Call → Daemon → Daemon
perform_all [] d = d
perform_all (c ∷ cs) d = perform_all cs (perform c d)

-- What the other threads do while the call gives up the lock goes forward too.
abbrev pub GoesForward : Call → Type 0
GoesForward (request_offload io req) = (i : ℕ) → Forward (io i).meanwhile
GoesForward (request_prefetch io req) = (i : ℕ) → Forward (io i).meanwhile
GoesForward (drain_round io) = Forward io.meanwhile
GoesForward (readback_round io) = Forward io.meanwhile
GoesForward _ = Unit {0}

abbrev pub AllGoForward : List Call → Type 0
AllGoForward [] = Unit {0}
AllGoForward (c ∷ cs) = GoesForward c × AllGoForward cs

submit_d2h-Later : (m : Mark) (d : Daemon) → Later d (handle_mark_d2h_submitted m d).0
unfolding handle_mark_d2h_submitted latest_version
submit_d2h-Later m d tid = elim (Option-cases (owned_lease m (find_lease d m.lease_id))) [
  | inl missing ↦ ground arith
  | inr (l, owned) ↦ ground arith
]

entry-Later :
    (rank epoch : ℕ) (c : BatchEntry) (d : Daemon) → Later d (apply_entry rank epoch c d).1
unfolding apply_entry latest_version
entry-Later rank epoch c d tid = ground (
  arith,
  apply_d2h-Later (mark_of rank epoch c) d tid,
  apply_h2d-Later (mark_of rank epoch c) c.keep_pinned d tid,
)

batch-Later :
    (rank epoch : ℕ) (cs : List BatchEntry) (b : Batch) (d : Daemon)
    → Later d (apply_batch rank epoch cs b d).0
unfolding apply_batch
batch-Later rank epoch [] b d tid = omega arith
batch-Later rank epoch (c ∷ cs) b d tid =
    Later-trans _ _ _ (entry-Later rank epoch c d)
      (batch-Later rank epoch cs _ (apply_entry rank epoch c d).1) tid

perform-Later : (c : Call) (d : Daemon) → GoesForward c → Later d (perform c d)
unfolding perform
perform-Later (request_offload io req) d h = request_offload-Later io req d h
perform-Later (mark_d2h_submitted m) d h = submit_d2h-Later m d
perform-Later (mark_d2h_complete m) d h = apply_d2h-Later m d
perform-Later (mark_h2d_submitted m) d h = submit_h2d-Later m d
perform-Later (mark_h2d_complete m keep) d h = apply_h2d-Later m keep d
perform-Later (request_prefetch io req) d h = request_prefetch-Later io req d h
perform-Later (release rank epoch lease) d h = release-Later rank epoch lease d
perform-Later (batch_complete rank epoch cs) d h =
    λ tid. unfold handle_batch_complete in batch-Later rank epoch cs _ d tid
perform-Later (ring_completion rank epoch e) d h =
    λ tid. unfold apply_ring_completion in entry-Later rank epoch _ d tid
perform-Later (heartbeat rank epoch) d h =
    λ tid. unfold handle_heartbeat latest_version in ground arith
perform-Later (drain_round io) d h = drain_round-Later io d h
perform-Later (readback_round io) d h = readback_round-Later io d h

-- No sequence of RequestOffload, MarkD2H and MarkH2D calls, RequestPrefetch, ReleaseLease,
-- BatchComplete, completions from a ring, heartbeats, drain rounds and readback rounds makes the
-- latest version of a tensor go back, provided that what other threads do while a lock is given up
-- does not either. RegisterRank, the heartbeat sweep and the v2 calls are not among them: they may
-- erase a location.
pub perform_all-Later : (cs : List Call) (d : Daemon) → AllGoForward cs → Later d (perform_all cs d)
unfolding perform_all
perform_all-Later [] d h = Later-refl d
perform_all-Later (c ∷ cs) d h =
    Later-trans d (perform c d) _ (perform-Later c d h.0) (perform_all-Later cs (perform c d) h.1)
