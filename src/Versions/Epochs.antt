-- ===== src/Versions/Epochs.antt =====
-- src/daemon/daemon.cpp: the epoch guard of every v1 call.
use state_spectre.Prelude.{
  ℕ, ◌+◌, ◌≡◌, refl, Bool, true, false, not, List, [], ◌∷◌, if◌then◌else◌, arith, nat_eq,
}
use state_spectre.State.{Daemon}
use state_spectre.Leases.{epoch_valid}
use state_spectre.Offload.{
  handle_request_offload, handle_mark_d2h_submitted, apply_d2h_complete, handle_release_lease,
}
use state_spectre.Prefetch.{handle_request_prefetch, handle_mark_h2d_submitted, apply_h2d_complete}
use state_spectre.Recovery.{
  BatchEntry, Batch, apply_entry, apply_batch, handle_batch_complete, apply_ring_completion,
  handle_heartbeat,
}
use state_spectre.Versions.Runs.{
  Call, perform, request_offload, mark_d2h_submitted, mark_d2h_complete, mark_h2d_submitted,
  mark_h2d_complete, request_prefetch, release, batch_complete, ring_completion, heartbeat,
  drain_round, readback_round,
}

-- The two states differ at most in their counters.
abbrev pub OnlyCounters : Daemon → Daemon → Type 0
OnlyCounters d d' = d' ≡ record d { metrics = d'.metrics }

-- the call comes from a session that is not the rank's current one
abbrev pub is_stale : Daemon → Call → Bool
is_stale d (request_offload io req) = not (epoch_valid d req.rank_id req.rank_epoch)
is_stale d (mark_d2h_submitted m) = not (epoch_valid d m.rank_id m.rank_epoch)
is_stale d (mark_d2h_complete m) = not (epoch_valid d m.rank_id m.rank_epoch)
is_stale d (mark_h2d_submitted m) = not (epoch_valid d m.rank_id m.rank_epoch)
is_stale d (mark_h2d_complete m keep) = not (epoch_valid d m.rank_id m.rank_epoch)
is_stale d (request_prefetch io req) = not (epoch_valid d req.rank_id req.rank_epoch)
is_stale d (release rank epoch lease) = not (epoch_valid d rank epoch)
is_stale d (batch_complete rank epoch cs) = not (epoch_valid d rank epoch)
is_stale d (ring_completion rank epoch e) = not (epoch_valid d rank epoch)
is_stale d (heartbeat rank epoch) = not (epoch_valid d rank epoch)
is_stale d (drain_round io) = false
is_stale d (readback_round io) = false

entry-stale :
    (rank epoch : ℕ) (c : BatchEntry) (d : Daemon)
    → epoch_valid d rank epoch ≡ false
    → OnlyCounters d (apply_entry rank epoch c d).1
unfolding apply_entry apply_d2h_complete apply_h2d_complete
entry-stale rank epoch c d h = ground arith

batch-stale :
    (rank epoch : ℕ) (cs : List BatchEntry) (b : Batch) (d : Daemon)
    → epoch_valid d rank epoch ≡ false
    → OnlyCounters d (apply_batch rank epoch cs b d).0
unfolding apply_batch
batch-stale rank epoch [] b d h = refl
batch-stale rank epoch (c ∷ cs) b d h =
    let d1 = (apply_entry rank epoch c d).1 in
    let first = entry-stale rank epoch c d h in
    let h1 : epoch_valid d1 rank epoch ≡ false = rw first (unfold epoch_valid in h) in
    let done = (apply_entry rank epoch c d).0 in
    let next : Batch = record {
      accepted = if done then b.accepted + 1 else b.accepted;
      rejected = if done then b.rejected else b.rejected + 1;
    } in
    ground (arith, first, batch-stale rank epoch cs next d1 h1)

-- A request, mark, completion, batch, ring entry, release or heartbeat of a session that is not the
-- rank's live one changes nothing but the counters.
pub perform-stale : (c : Call) (d : Daemon) → is_stale d c ≡ true → OnlyCounters d (perform c d)
unfolding perform
perform-stale (request_offload io req) d h = unfold handle_request_offload in ground arith
perform-stale (mark_d2h_submitted m) d h = unfold handle_mark_d2h_submitted in ground arith
perform-stale (mark_d2h_complete m) d h = unfold apply_d2h_complete in ground arith
perform-stale (mark_h2d_submitted m) d h = unfold handle_mark_h2d_submitted in ground arith
perform-stale (mark_h2d_complete m keep) d h = unfold apply_h2d_complete in ground arith
perform-stale (request_prefetch io req) d h = unfold handle_request_prefetch in ground arith
perform-stale (release rank epoch lease) d h = unfold handle_release_lease in ground arith
perform-stale (batch_complete rank epoch cs) d h =
    unfold handle_batch_complete in batch-stale rank epoch cs _ d (ground arith)
perform-stale (ring_completion rank epoch e) d h =
    unfold apply_ring_completion in entry-stale rank epoch _ d (ground arith)
perform-stale (heartbeat rank epoch) d h = unfold handle_heartbeat in ground arith
perform-stale (drain_round io) d h = absurd (ground arith)
perform-stale (readback_round io) d h = absurd (ground arith)
