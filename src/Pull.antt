-- ===== src/Pull.antt =====
-- src/daemon/canonical_rollout.cpp: PullTensor, with the two spans in which `mu_` is released.
-- The bytes themselves are not modelled.
pub mod Guards
use state_spectre.Prelude.{
  ℕ, zero, suc, ◌+◌, ◌-◌, ◌%◌, ◌^◌, Bool, true, false, ◌&&◌, ◌||◌, not, Option, none, some, List,
  [], ◌∷◌, leb, ltb, ◌==◌, if◌then◌else◌, nat_eq, mem,
}
use state_spectre.Prelude.Table.{Table, find, insert}
use state_spectre.State.{
  Daemon, JobUid, JobRecord, Object, ObjectState, Manifest, Location, LocationKind, ColdEntry,
  job_uid_Eq, version_key_Eq, inc, add, sub, is_sealed, is_sealed_object, is_pinned, is_pageable,
  is_nvme, rollout_stale_manifest_reject, quota_rejections, export_inflight_bytes,
  export_staging_bytes, export_transport_errors, export_from_pinned, export_from_pageable,
  export_from_nvme, rollout_pull_tensor, rollout_pull_bytes,
}
use state_spectre.Objects.{find_object, find_job, put_object, maybe_free_object}
use state_spectre.Retention.{version_key}
use state_spectre.Replies.{
  Reply, ok, err, export_disabled, job_not_registered, not_sealed, unknown_object,
  object_not_sealed, not_in_manifest, export_quota, staging_failed, transport_failed,
}

pub record PullRequest : Type 0 where
  pub job : JobUid
  pub model_role : ℕ
  pub model_version : ℕ
  pub object_id : ℕ

-- What the two spans without the lock bring: the cold read (nvme_read's result) and what export_send
-- answers for an object and a number of bytes, each with what the other threads did in the meantime.
pub record PullIo : Type 0 where
  pub read_ok : Bool
  pub while_reading : Daemon → Daemon
  pub sent : ℕ → ℕ → Bool
  pub while_sending : Daemon → Daemon

-- the bytes of a cold entry come over
abbrev copied : PullIo → ColdEntry → Bool
copied io c = if is_pageable c.kind then not (c.pageable == 0) else (is_nvme c.kind && io.read_ok)

abbrev pub stage_cold : PullIo → Location → Option ColdEntry → Daemon → Bool × Daemon
stage_cold io loc none d = (false, d)
stage_cold io loc (some c) d =
    let back = io.while_reading d in
    if copied io c
    then (true, inc (if is_nvme loc.kind then export_from_nvme else export_from_pageable) back)
    else (false, back)

abbrev pub stage_at : PullIo → Option Location → Daemon → Bool × Daemon
stage_at io none d = (false, d)
stage_at io (some loc) d =
    if is_pinned loc.kind
    then (true, inc export_from_pinned d)
    else if is_pageable loc.kind || is_nvme loc.kind
    then stage_cold io loc (find loc.cold_ref d.cold_store) d
    else (false, d)

-- whether the bytes were staged, and the daemon after
unfoldable pub stage_object_for_export : PullIo → Object → Daemon → Bool × Daemon
stage_object_for_export io o d = stage_at io (find o.synthetic_tid d.locations) d

-- over the hard quota with another export in flight
unfoldable pub over_export_quota : Daemon → JobRecord → ℕ → Bool
over_export_quota d job nbytes =
    ltb 0 d.cfg.v2_max_concurrent_exports_per_job
    && (ltb 0 job.inflight_export_bytes
        && (ltb 0 job.max_inflight_export_bytes
            && ltb job.max_inflight_export_bytes ((job.inflight_export_bytes + nbytes) % 2 ^ 64)))

abbrev pub with_inflight :
    (ℕ → ℕ) → Option JobRecord → Table JobUid JobRecord → Table JobUid JobRecord
with_inflight f none m = m
with_inflight f (some j) m =
    insert j.uid (record j { inflight_export_bytes = f j.inflight_export_bytes }) m

abbrev pub on_inflight : (ℕ → ℕ) → JobUid → Daemon → Daemon
on_inflight f uid d = record d { jobs = with_inflight f (find_job d uid) d.jobs }

-- the export lease
unfoldable pub begin_export : JobUid → Object → Daemon → Daemon
begin_export uid o d = add export_inflight_bytes o.nbytes (
    on_inflight (λ n. n + o.nbytes) uid
      (put_object
        (record o { export_refcount = suc o.export_refcount; state = ObjectState.export_in_flight })
        d))

abbrev pub undone_object : ObjectState → Object → Object
undone_object st o = record o {
  export_refcount = (o.export_refcount + (2 ^ 32 - 1)) % 2 ^ 32;
  state = st;
}

abbrev pub undo_export : ObjectState → Option Object → Daemon → Daemon
undo_export st none d = d
undo_export st (some o) d = put_object (undone_object st o) d

abbrev pub end_object : ObjectState → Object → Object
end_object st o = record o {
  export_refcount = o.export_refcount - 1;
  state = if leb o.export_refcount 1 then st else o.state;
}

abbrev pub end_held : ObjectState → Option Object → Daemon → Daemon
end_held st none d = d
end_held st (some o) d = put_object (end_object st o) d

abbrev pub free_ended : Option Object → Daemon → Daemon
free_ended none d = d
free_ended (some o) d = (maybe_free_object o d).1

abbrev pub less_if_le : ℕ → ℕ → ℕ
less_if_le b a = if leb b a then a - b else a

-- The transfer is over: give the lease back, and free the object if nobody holds it.
unfoldable pub end_export : JobUid → ℕ → ℕ → ObjectState → Daemon → Daemon
end_export uid object_id nbytes st d =
    let released = end_held st (find_object d object_id) d in
    let counted =
      sub export_staging_bytes nbytes
        (sub export_inflight_bytes nbytes (on_inflight (less_if_le nbytes) uid released)) in
    free_ended (find_object counted object_id) counted

unfoldable pub send_object : PullIo → PullRequest → JobUid → Object → Daemon → Daemon × Reply ℕ
send_object io req uid o d =
    let back =
      end_export req.job req.object_id o.nbytes o.state
        (io.while_sending (add export_staging_bytes o.nbytes d)) in
    if io.sent req.object_id o.nbytes
    then (add rollout_pull_bytes o.nbytes (inc rollout_pull_tensor back), ok o.nbytes)
    else (inc export_transport_errors back, err transport_failed)

abbrev pub gone : Option Object → Bool
gone none = true
gone (some o) = false

unfoldable pub export_object : PullIo → PullRequest → JobUid → Object → Daemon → Daemon × Reply ℕ
export_object io req uid o d =
    let (staged, d') =
      stage_object_for_export io
        (record o { export_refcount = suc o.export_refcount; state = ObjectState.export_in_flight })
        (begin_export uid o d) in
    if not staged || gone (find_object d' req.object_id)
    then (
      inc export_transport_errors (
          sub export_inflight_bytes o.nbytes (
            on_inflight (λ n. (n + 2 ^ 64 - o.nbytes % 2 ^ 64) % 2 ^ 64) uid
              (undo_export o.state (find_object d' req.object_id) d'))),
      err staging_failed,
    )
    else send_object io req uid o d'

-- a SEALED object of the manifest, within the quota
unfoldable pub pull_member :
    PullIo → PullRequest → JobRecord → Manifest → Option Object → Daemon → Daemon × Reply ℕ
pull_member io req job man none d = (d, err unknown_object)
pull_member io req job man (some o) d =
    if not (is_sealed_object o.state)
    then (d, err object_not_sealed)
    else if not (mem req.object_id man.object_ids)
    then (d, err not_in_manifest)
    else if over_export_quota d job o.nbytes
    then (inc quota_rejections d, err export_quota)
    else export_object io req job.uid o d

unfoldable pub pull_sealed :
    PullIo → PullRequest → JobRecord → Option Manifest → Daemon → Daemon × Reply ℕ
pull_sealed io req job none d = (inc rollout_stale_manifest_reject d, err not_sealed)
pull_sealed io req job (some man) d =
    if is_sealed man.state
    then pull_member io req job man (find_object d req.object_id) d
    else (inc rollout_stale_manifest_reject d, err not_sealed)

-- The answer is the number of bytes sent.
unfoldable pub handle_pull_tensor : PullIo → PullRequest → Daemon → Daemon × Reply ℕ
handle_pull_tensor io req d =
    if not d.cfg.v2_enable_canonical_store || not d.cfg.v2_enable_rollout_export
    then (d, err export_disabled)
    else elim (find_job d req.job) [
      | none ↦ (d, err job_not_registered)
      | some job ↦
          pull_sealed io req job
            (find (version_key job.uid req.model_role req.model_version) d.manifests) d
    ]
