-- ===== src/Evict.antt =====
-- src/daemon/canonical.cpp: RegisterJob and RequestCanonicalEvict, the attach-or-create protocol.
pub mod Outcomes
use state_spectre.Prelude.{
  ℕ, zero, suc, ◌+◌, ◌*◌, ◌%◌, ◌^◌, Bool, true, false, ◌&&◌, ◌||◌, not, Option, none, some, List,
  [], ◌∷◌, ◌++◌, ltb, leb, ◌==◌, if◌then◌else◌, nat_eq, list_eq, length, add_elem,
}
use state_spectre.Prelude.Table.{Table, find, insert}
use state_spectre.State.{
  Daemon, SlotState, Lease, JobUid, JobRecord, JobState, TensorKey, Object, ObjectState, Manifest,
  VersionKey, job_uid_Eq, version_key_Eq, inc, add, is_terminated, is_sealed, is_creating,
  is_readable, canonical_tid, canonical_tid_bit, flag_destructive, jobs_registered,
  epoch_mismatch_rejected, canonical_stale_version_reject, quota_rejections, blocked_reservations,
  canonical_attach_existing, canonical_dedup_bytes_saved, canonical_d2h_bytes_avoided,
  canonical_duplicate_candidate, canonical_attach_wait, canonical_objects_created,
  used_pinned_bytes,
}
use state_spectre.Slots.{slots_for_bytes}
use state_spectre.Leases.{epoch_valid, pid_of}
use state_spectre.Drain.{DrainIo, allocate_or_drain, max_attempts}
use state_spectre.Offload.{OffloadGrant, reserve_run, grant_at}
use state_spectre.Keys.{canonical_key_string, decimal, hash_bytes}
use state_spectre.Objects.{find_object, find_job, put_object, with_holders}
use state_spectre.Replies.{
  Reply, ok, err, Refusal, store_disabled, epoch_invalid, job_not_registered, version_sealed,
  nbytes_mismatch, attach_disabled, quota_exceeded, create_disabled,
}

pub record RegisterRequest : Type 0 where
  pub tenant_id : ℕ
  pub job_name : List ℕ
  pub scheduler_job_id : ℕ

-- the scheduler's id, or the hash of "tenant/name"
unfoldable pub job_id_of : RegisterRequest → ℕ
job_id_of req =
    let lo = (hash_bytes (decimal req.tenant_id ++ (47 ∷ req.job_name))).0 in
    if req.scheduler_job_id == 0 then (if lo == 0 then 1 else lo) else req.scheduler_job_id

-- the live record of (tenant, job), if there is one
unfoldable pub live_job : ℕ → ℕ → Table JobUid JobRecord → Option JobRecord
live_job tenant job [] = none
live_job tenant job ((uid, j) ∷ m) =
    let rest = live_job tenant job m in
    if j.uid.tenant_id == tenant && (j.uid.job_id == job && not (is_terminated j.state))
    then some j
    else rest

abbrev new_job : Daemon → RegisterRequest → JobUid → JobRecord
new_job d req uid = record {
  uid = uid;
  job_name = req.job_name;
  state = JobState.running;
  created_ns = d.clock;
  heartbeat_ns = d.clock;
  pinned_bytes = 0;
  inflight_export_bytes = 0;
  canonical_object_count = 0;
  max_pinned_bytes = d.cfg.v2_quota_max_pinned_bytes;
  max_pageable_bytes = d.cfg.v2_quota_max_pageable_bytes;
  max_nvme_bytes = d.cfg.v2_quota_max_nvme_bytes;
  max_inflight_d2h_bytes = d.cfg.v2_quota_max_inflight_d2h_bytes;
  max_inflight_export_bytes = d.cfg.v2_quota_max_inflight_export_bytes;
}

unfoldable pub handle_register_job : RegisterRequest → Daemon → Daemon × Reply JobUid
handle_register_job req d =
    if not d.cfg.v2_enable_canonical_store
    then (d, err store_disabled)
    else let job_id = job_id_of req in
      elim (live_job req.tenant_id job_id d.jobs) [
        | some j ↦ (d, ok j.uid)
        | none ↦
            let epoch = if d.cfg.v2_include_launch_epoch then d.next_launch_epoch else 1 in
            let next =
              if d.cfg.v2_include_launch_epoch
              then suc d.next_launch_epoch
              else d.next_launch_epoch in
            let uid : JobUid = record {
              tenant_id = req.tenant_id;
              job_id = job_id;
              launch_epoch = epoch;
            } in
            (
              inc jobs_registered (record d {
                next_launch_epoch = next;
                jobs = insert uid (new_job d req uid) d.jobs;
              }),
              ok uid,
            )
      ]

pub record EvictRequest : Type 0 where
  pub rank_id : ℕ
  pub rank_epoch : ℕ
  pub key : TensorKey
  pub gpu_id : ℕ
  pub numa_node : ℕ
  pub dedup_mode : ℕ
  pub attach_if_exists : Bool
  pub create_if_missing : Bool
  pub allow_duplicate_candidate : Bool

-- The action of the reply; a refusal is ATTACH_ACTION_REJECTED_STALE_VERSION for `version_sealed`,
-- ATTACH_ACTION_QUOTA_EXCEEDED for `quota_exceeded`, and ATTACH_ACTION_ERROR for the others.
pub data Evicted : Type 0 where
  attached_existing : (object_id : ℕ) → Evicted
  need_d2h_create : (object_id synthetic_tid : ℕ) → OffloadGrant → Evicted
  wait_for_creator : (object_id : ℕ) → Evicted
  duplicate_candidate : (object_id synthetic_tid : ℕ) → OffloadGrant → Evicted
  refused : Refusal → Evicted

unfoldable pub quota_allows_pinned : JobRecord → ℕ → Bool
quota_allows_pinned job nbytes =
    if job.max_pinned_bytes == 0
    then true
    else leb ((job.pinned_bytes + nbytes) % 2 ^ 64) job.max_pinned_bytes

-- kCanonicalTidBit | kCandidateBit | seq, for a seq below 2^62
abbrev pub candidate_tid : ℕ → ℕ
candidate_tid seq = 2 ^ 63 + 2 ^ 62 + seq

abbrev charge : ℕ → Option JobRecord → Table JobUid JobRecord → Table JobUid JobRecord
charge nbytes none m = m
charge nbytes (some j) m = insert j.uid (record j { pinned_bytes = j.pinned_bytes + nbytes }) m

abbrev pub canonical_lease : Daemon → EvictRequest → ℕ → ℕ → ℕ → Lease
canonical_lease d req tid base count = record {
  lease_id = d.next_lease_id;
  base_slot = base;
  slot_count = count;
  tensor_id = tid;
  version = 1;
  owner_rank = req.rank_id;
  owner_pid = pid_of (find req.rank_id d.sessions);
  rank_epoch = req.rank_epoch;
  nbytes = req.key.nbytes;
  is_prefetch = false;
}

-- the part of the lambda `reserve` behind the allocation
unfoldable pub place_canonical :
    EvictRequest → ℕ → ℕ → Option ℕ → Daemon → Option OffloadGrant × Daemon
place_canonical req tid count none d = (none, inc blocked_reservations d)
place_canonical req tid count (some base) d =
    let reserved =
      reserve_run (canonical_lease d req tid base count) flag_destructive SlotState.reserved_d2h
        d in
    (
      some (grant_at d d.next_lease_id base count),
      record reserved {
        jobs = charge req.key.nbytes (find_job reserved req.key.job) reserved.jobs;
      },
    )

-- the lambda `reserve`: a pinned run for a synthetic tensor, within the job's quota
unfoldable pub reserve :
    (ℕ → DrainIo) → EvictRequest → JobRecord → ℕ → Daemon → Option OffloadGrant × Daemon
reserve io req job tid d =
    if quota_allows_pinned job req.key.nbytes
    then (let (found, d') =
          allocate_or_drain max_attempts io req.gpu_id req.numa_node req.key.nbytes flag_destructive
            d in
        place_canonical req tid (slots_for_bytes d req.key.nbytes) found d')
    else (none, inc quota_rejections d)

-- a throwaway candidate, numbered by the object counter
unfoldable pub hand_out_candidate :
    (ℕ → DrainIo) → EvictRequest → JobRecord → ℕ → Daemon → Daemon × Evicted
hand_out_candidate io req job object_id d =
    let tid = candidate_tid d.next_object_id in
    let (got, d') = reserve io req job tid (record d { next_object_id = suc d.next_object_id }) in
    elim got [
      | none ↦ (d', refused quota_exceeded)
      | some g ↦ (inc canonical_duplicate_candidate d', duplicate_candidate object_id tid g)
    ]

abbrev needs_verify : ℕ → Bool
needs_verify mode = mode == 2 || mode == 3

-- the object is VALID or SEALED: attach, at once or after a comparison of hashes
unfoldable pub attach_existing :
    (ℕ → DrainIo) → EvictRequest → JobRecord → Object → Daemon → Daemon × Evicted
attach_existing io req job o d =
    if not req.attach_if_exists
    then (d, refused attach_disabled)
    else if needs_verify req.dedup_mode
    then hand_out_candidate io req job o.object_id d
    else (let o' = record (with_holders (add_elem req.rank_id o.holders) o) {
      last_access_ns = d.clock;
    } in
        let counted =
          add canonical_d2h_bytes_avoided req.key.nbytes
            (add canonical_dedup_bytes_saved req.key.nbytes (inc canonical_attach_existing d)) in
        (put_object o' counted, attached_existing o.object_id))

-- the object is CREATING: wait, or race the creator with a candidate
unfoldable pub attach_creating :
    (ℕ → DrainIo) → EvictRequest → JobRecord → Object → Daemon → Daemon × Evicted
attach_creating io req job o d =
    let pressure_hi =
      d.cfg.v2_pressure_reached (d.metrics used_pinned_bytes)
        (d.num_slots * d.cfg.allocation_granularity_bytes) in
    if req.allow_duplicate_candidate || (d.cfg.v2_creating_policy == 1 && pressure_hi)
    then hand_out_candidate io req job o.object_id d
    else (inc canonical_attach_wait d, wait_for_creator o.object_id)

abbrev pub new_object : Daemon → EvictRequest → ℕ → List ℕ → OffloadGrant → ℕ → Object
new_object d req object_id key_str g count = record {
  object_id = object_id;
  key = req.key;
  key_str = key_str;
  nbytes = req.key.nbytes;
  state = ObjectState.creating;
  refcount = 1;
  export_refcount = 0;
  restore_refcount = 0;
  producer_rank = req.rank_id;
  holders = req.rank_id ∷ [];
  content_hash_lo = 0;
  content_hash_hi = 0;
  synthetic_tid = canonical_tid object_id;
  version = 1;
  lease_id = g.lease_id;
  base_slot = g.slot_id;
  slot_count = count;
  creating_rank = req.rank_id;
  created_ns = d.clock;
  sealed_ns = 0;
  last_access_ns = d.clock;
}

abbrev count_object : Option JobRecord → Table JobUid JobRecord → Table JobUid JobRecord
count_object none m = m
count_object (some j) m =
    insert j.uid (record j { canonical_object_count = suc j.canonical_object_count }) m

-- Enter the object and its key.
unfoldable pub enter_object : Object → Daemon → Daemon
enter_object o d = record d {
  objects = insert o.object_id o d.objects;
  object_by_key = insert o.key_str o.object_id d.object_by_key;
  jobs = count_object (find_job d o.key.job) d.jobs;
}

unfoldable pub create_object :
    (ℕ → DrainIo) → EvictRequest → JobRecord → List ℕ → Daemon → Daemon × Evicted
create_object io req job key_str d =
    if not req.create_if_missing
    then (d, refused create_disabled)
    else let object_id = d.next_object_id in
      let (got, d') =
        reserve io req job (canonical_tid object_id)
          (record d { next_object_id = suc object_id }) in
      elim got [
        | none ↦ (d', refused quota_exceeded)
        | some g ↦
            let o = new_object d' req object_id key_str g (slots_for_bytes d' req.key.nbytes) in
            (
              inc canonical_objects_created (enter_object o d'),
              need_d2h_create object_id (canonical_tid object_id) g,
            )
      ]

abbrev pub object_at : Daemon → Option ℕ → Option Object
object_at d none = none
object_at d (some id) = find_object d id

abbrev pub find_object_by_key : Daemon → List ℕ → Option Object
find_object_by_key d key_str = object_at d (find key_str d.object_by_key)

-- attach, wait or create, by the state of the object under the key
unfoldable pub attach_or_create :
    (ℕ → DrainIo) → EvictRequest → JobRecord → List ℕ → Option Object → Daemon → Daemon × Evicted
attach_or_create io req job key_str none d = create_object io req job key_str d
attach_or_create io req job key_str (some o) d =
    if not (o.nbytes == req.key.nbytes)
    then (d, refused nbytes_mismatch)
    else if is_readable o.state
    then attach_existing io req job o d
    else if is_creating o.state
    then attach_creating io req job o d
    else create_object io req job key_str d

abbrev pub sealed_manifest : Option Manifest → Bool
sealed_manifest none = false
sealed_manifest (some m) = is_sealed m.state

unfoldable pub handle_request_canonical_evict :
    (ℕ → DrainIo) → EvictRequest → Daemon → Daemon × Evicted
handle_request_canonical_evict io req d =
    if not d.cfg.v2_enable_canonical_store
    then (d, refused store_disabled)
    else if not (epoch_valid d req.rank_id req.rank_epoch)
    then (inc epoch_mismatch_rejected d, refused epoch_invalid)
    else elim (find_job d req.key.job) [
      | none ↦ (d, refused job_not_registered)
      | some job ↦
          let vk : VersionKey = record {
            job = job.uid;
            model_role = req.key.model_role;
            model_version = req.key.model_version;
          } in
          if sealed_manifest (find vk d.manifests)
          then (inc canonical_stale_version_reject d, refused version_sealed)
          else (let key_str = canonical_key_string req.key in
              attach_or_create io req job key_str (find_object_by_key d key_str) d)
    ]
