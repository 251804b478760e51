-- ===== src/Catalog/Runs.antt =====
-- src/daemon/canonical.cpp and src/daemon/canonical_rollout.cpp: sequences of v2 requests, drains and heartbeat sweeps, in any order.
use state_spectre.Prelude.{ℕ, List, [], ◌∷◌}
use state_spectre.State.{Daemon, JobUid}
use state_spectre.Drain.{DrainIo, drain_worker_round}
use state_spectre.Objects.{ReleaseRequest, handle_release_canonical}
use state_spectre.Objects.Holders.{AllCounted, release_canonical-AllCounted}
use state_spectre.Evict.{
  RegisterRequest, EvictRequest, handle_register_job, handle_request_canonical_evict,
}
use state_spectre.Commit.{CommitRequest, handle_commit_canonical_object}
use state_spectre.Retention.{handle_drop_canonical_version}
use state_spectre.Seal.{SealRequest, handle_seal_model_version}
use state_spectre.Pull.{PullIo, PullRequest, handle_pull_tensor}
use state_spectre.Restore.{
  RestoreIo, RestoreRequest, handle_request_canonical_restore, handle_release_canonical_restore,
}
use state_spectre.Recovery.{heartbeat_sweep}
use state_spectre.Catalog.{KeepsCounted, drain_round-AllCounted}
use state_spectre.Catalog.Producers.{register_job-AllCounted, evict-AllCounted, commit-AllCounted}
use state_spectre.Catalog.Consumers.{
  drop_version-AllCounted, seal-AllCounted, heartbeat_sweep-AllCounted,
}
use state_spectre.Catalog.Transfers.{
  pull-AllCounted, restore-AllCounted, release_restore-AllCounted,
}

pub data CanonicalCall : Type 0 where
  register_job : RegisterRequest → CanonicalCall
  canonical_evict : (ℕ → DrainIo) → EvictRequest → CanonicalCall
  commit : CommitRequest → CanonicalCall
  seal : SealRequest → CanonicalCall
  pull : PullIo → PullRequest → CanonicalCall
  restore : RestoreIo → RestoreRequest → CanonicalCall
  release_restore : (rank epoch object_id : ℕ) → CanonicalCall
  drop_version : JobUid → (role version : ℕ) → CanonicalCall
  release_hold : ReleaseRequest → CanonicalCall
  drain : DrainIo → CanonicalCall
  sweep : (now : ℕ) → CanonicalCall

unfoldable pub perform : CanonicalCall → Daemon → Daemon
perform (register_job req) d = (handle_register_job req d).0
perform (canonical_evict io req) d = (handle_request_canonical_evict io req d).0
perform (commit req) d = (handle_commit_canonical_object req d).0
perform (seal req) d = (handle_seal_model_version req d).0
perform (pull io req) d = (handle_pull_tensor io req d).0
perform (restore io req) d = (handle_request_canonical_restore io req d).0
perform (release_restore rank epoch id) d = (handle_release_canonical_restore rank epoch id d).0
perform (drop_version uid role version) d = (handle_drop_canonical_version uid role version d).0
perform (release_hold req) d = (handle_release_canonical req d).0
perform (drain io) d = drain_worker_round io d
perform (sweep now) d = heartbeat_sweep now d

unfoldable pub perform_all : List CanonicalCall → Daemon → Daemon
perform_all [] d = d
perform_all (c ∷ cs) d = perform_all cs (perform c d)

-- What the other threads do while the call gives up the lock keeps the bookkeeping too.
abbrev pub CallKeeps : CanonicalCall → Type 0
CallKeeps (canonical_evict io req) = (i : ℕ) → KeepsCounted (io i).meanwhile
CallKeeps (pull io req) = KeepsCounted io.while_reading × KeepsCounted io.while_sending
CallKeeps (restore io req) =
    KeepsCounted io.while_reading × ((i : ℕ) → KeepsCounted (io.drains i).meanwhile)
CallKeeps (drain io) = KeepsCounted io.meanwhile
CallKeeps _ = Unit {0}

abbrev pub AllKeep : List CanonicalCall → Type 0
AllKeep [] = Unit {0}
AllKeep (c ∷ cs) = CallKeeps c × AllKeep cs

perform-AllCounted :
    (c : CanonicalCall) (d : Daemon) → CallKeeps c → AllCounted d → AllCounted (perform c d)
unfolding perform
perform-AllCounted (register_job req) d k h = register_job-AllCounted req d h
perform-AllCounted (canonical_evict io req) d k h = evict-AllCounted io req k d h
perform-AllCounted (commit req) d k h = commit-AllCounted req d h
perform-AllCounted (seal req) d k h = seal-AllCounted req d h
perform-AllCounted (pull io req) d k h = pull-AllCounted io k.0 k.1 req d h
perform-AllCounted (restore io req) d k h = restore-AllCounted io req k.0 k.1 d h
perform-AllCounted (release_restore rank epoch id) d k h =
    release_restore-AllCounted rank epoch id d h
perform-AllCounted (drop_version uid role version) d k h =
    drop_version-AllCounted uid role version d h
perform-AllCounted (release_hold req) d k h = release_canonical-AllCounted req d h
perform-AllCounted (drain io) d k h = drain_round-AllCounted io d k h
perform-AllCounted (sweep now) d k h = heartbeat_sweep-AllCounted now d h

-- After every sequence of v2 requests, drains and heartbeat sweeps each canonical object is under
-- its own id, its holders are without repetition and its reference count is their number, if that
-- held at the start and the other threads keep it while a lock is given up.
pub perform_all-AllCounted :
    (cs : List CanonicalCall) (d : Daemon)
    → AllKeep cs
    → AllCounted d
    → AllCounted (perform_all cs d)
unfolding perform_all
perform_all-AllCounted [] d k h = h
perform_all-AllCounted (c ∷ cs) d k h =
    perform_all-AllCounted cs (perform c d) k.1 (perform-AllCounted c d k.0 h)
