-- ===== src/Commit.antt =====
-- src/daemon/canonical.cpp: CommitCanonicalObject.
pub mod Outcomes
use state_spectre.Prelude.{
  ℕ, zero, suc, ◌+◌, ◌-◌, Bool, true, false, ◌&&◌, ◌||◌, not, Option, none, some, leb, ◌==◌,
  if◌then◌else◌, nat_eq, add_elem,
}
use state_spectre.Prelude.Table.{Table, find, insert, erase}
use state_spectre.State.{
  Daemon, SlotState, Lease, Location, LocationKind, JobUid, JobRecord, Object, ObjectState,
  job_uid_Eq, inc, add, is_gone, is_creating, is_attachable, is_pinned_valid, is_reserved_d2h,
  is_d2h_in_flight, epoch_mismatch_rejected, invalid_transition_rejected, canonical_hash_mismatch,
  checksum_mismatch, canonical_attach_existing, canonical_dedup_bytes_saved,
}
use state_spectre.Slots.{slot_state, free_slots}
use state_spectre.Leases.{epoch_valid, find_lease}
use state_spectre.Objects.{find_object, find_job, put_object, with_holders, no_slot}
use state_spectre.Replies.{
  Reply, ok, err, store_disabled, epoch_invalid, unknown_object, bytes_not_valid, not_attachable,
  hash_mismatch,
}

pub record CommitRequest : Type 0 where
  pub rank_id : ℕ
  pub rank_epoch : ℕ
  pub object_id : ℕ
  pub lease_id : ℕ
  pub content_hash_lo : ℕ
  pub content_hash_hi : ℕ

-- `resp.won`
pub data Committed : Type 0 where
  won attached : Committed

-- the tier that the bytes are in
abbrev pub tier_state : LocationKind → ObjectState
tier_state LocationKind.pageable = ObjectState.valid_pageable
tier_state LocationKind.nvme = ObjectState.valid_nvme
tier_state _ = ObjectState.valid_pinned

abbrev pub committed_object : Daemon → CommitRequest → Location → Object → Object
committed_object d req loc o = record o {
  content_hash_lo = req.content_hash_lo;
  content_hash_hi = req.content_hash_hi;
  state = tier_state loc.kind;
  creating_rank = no_slot;
  last_access_ns = d.clock;
}

unfoldable pub commit_creator :
    CommitRequest → Object → Option Location → Daemon → Daemon × Reply Committed
commit_creator req o none d = (inc invalid_transition_rejected d, err bytes_not_valid)
commit_creator req o (some loc) d =
    if is_gone loc.kind
    then (inc invalid_transition_rejected d, err bytes_not_valid)
    else (put_object (committed_object d req loc o) d, ok won)

-- Both sides have a hash: they must agree.
abbrev pub hashes_agree : CommitRequest → Object → Bool
hashes_agree req o =
    if (not (o.content_hash_lo == 0) || not (o.content_hash_hi == 0))
      && (not (req.content_hash_lo == 0) || not (req.content_hash_hi == 0))
    then o.content_hash_lo == req.content_hash_lo && o.content_hash_hi == req.content_hash_hi
    else true

abbrev refund : ℕ → Option JobRecord → Table JobUid JobRecord → Table JobUid JobRecord
refund nbytes none m = m
refund nbytes (some j) m =
    if leb nbytes j.pinned_bytes
    then insert j.uid (record j { pinned_bytes = j.pinned_bytes - nbytes }) m
    else m

-- the candidate's slots, location and lease
unfoldable pub discard_candidate : ℕ → Object → Option Lease → Daemon → Daemon
discard_candidate lease_id o none d = d
discard_candidate lease_id o (some l) d =
    let st = slot_state d l.base_slot in
    let freed =
      if is_pinned_valid st || (is_reserved_d2h st || is_d2h_in_flight st)
      then free_slots l.base_slot l.slot_count d
      else d in
    record freed {
      locations = erase l.tensor_id freed.locations;
      leases = erase lease_id freed.leases;
      jobs = refund o.nbytes (find_job freed o.key.job) freed.jobs;
    }

unfoldable pub commit_candidate : CommitRequest → Object → Daemon → Daemon × Reply Committed
commit_candidate req o d =
    let d' = discard_candidate req.lease_id o (find_lease d req.lease_id) d in
    if not (is_attachable o.state)
    then (d', err not_attachable)
    else if not (hashes_agree req o)
    then (inc checksum_mismatch (inc canonical_hash_mismatch d'), err hash_mismatch)
    else let o' = record (with_holders (add_elem req.rank_id o.holders) o) {
      last_access_ns = d.clock;
    } in
      (
        add canonical_dedup_bytes_saved o.nbytes (inc canonical_attach_existing (put_object o' d')),
        ok attached,
      )

unfoldable pub handle_commit_canonical_object : CommitRequest → Daemon → Daemon × Reply Committed
handle_commit_canonical_object req d =
    if not d.cfg.v2_enable_canonical_store
    then (d, err store_disabled)
    else if not (epoch_valid d req.rank_id req.rank_epoch)
    then (inc epoch_mismatch_rejected d, err epoch_invalid)
    else elim (find_object d req.object_id) [
      | none ↦ (d, err unknown_object)
      | some o ↦
          if is_creating o.state && o.lease_id == req.lease_id
          then commit_creator req o (find o.synthetic_tid d.locations) d
          else commit_candidate req o d
    ]
