-- ===== src/Evict/Outcomes.antt =====
-- src/daemon/canonical.cpp: what RequestCanonicalEvict promises.
use state_spectre.Prelude.{
  ℕ, suc, ◌≡◌, refl, inl, inr, true, some, List, [], ◌∷◌, arith, nat_eq, list_eq, Option-cases,
}
use state_spectre.Prelude.Table.{find, find-insert}
use state_spectre.State.{
  Daemon, Object, JobRecord, VersionKey, Manifest, job_uid_Eq, version_key_Eq, inc, is_creating,
  is_sealed, canonical_stale_version_reject, canonical_tid,
}
use state_spectre.Slots.{slots_for_bytes}
use state_spectre.Leases.{epoch_valid}
use state_spectre.Drain.{DrainIo}
use state_spectre.Offload.{OffloadGrant}
use state_spectre.Objects.{find_object, find_job}
use state_spectre.Evict.{
  EvictRequest, need_d2h_create, refused, create_object, handle_request_canonical_evict, reserve,
  new_object, enter_object,
}
use state_spectre.Replies.{version_sealed}

-- the manifest of the request's version
abbrev pub requested_version : EvictRequest → JobRecord → VersionKey
requested_version req job = record {
  job = job.uid;
  model_role = req.key.model_role;
  model_version = req.key.model_version;
}

-- Once a version is sealed and the store is enabled, an evict of one of its tensors by a live rank of a registered job is
-- refused, whatever it asks for, and all that it changes is the counter of stale requests.
pub evict-sealed :
    (io : ℕ → DrainIo) (req : EvictRequest) (d : Daemon) {job : JobRecord} {man : Manifest}
    → d.cfg.v2_enable_canonical_store ≡ true
    → epoch_valid d req.rank_id req.rank_epoch ≡ true
    → find_job d req.key.job ≡ some job
    → find (requested_version req job) d.manifests ≡ some man
    → is_sealed man.state ≡ true
    → handle_request_canonical_evict io req d
      ≡ (inc canonical_stale_version_reject d, refused version_sealed)
unfolding handle_request_canonical_evict
evict-sealed io req d on live known there sealed = ground arith

-- A created object is CREATING, is found under its id and its key, has the requesting rank as its
-- only holder and creator, and is bound to the lease and the slot of the answer.
pub create_object-enters :
    (io : ℕ → DrainIo) (req : EvictRequest) (job : JobRecord) (key_str : List ℕ) (d : Daemon)
    {id tid : ℕ} {g : OffloadGrant}
    → (create_object io req job key_str d).1 ≡ need_d2h_create id tid g
    → let d' = (create_object io req job key_str d).0 in
      (id ≡ d.next_object_id)
      × (tid ≡ canonical_tid id)
      × (find key_str d'.object_by_key ≡ some id)
      × ((o : Object) × (find_object d' id ≡ some o)
          × (is_creating o.state ≡ true)
          × (o.holders ≡ req.rank_id ∷ [])
          × (o.refcount ≡ 1)
          × (o.creating_rank ≡ req.rank_id)
          × (o.lease_id ≡ g.lease_id)
          × (o.base_slot ≡ g.slot_id)
          × (o.synthetic_tid ≡ tid))
unfolding create_object enter_object
create_object-enters io req job key_str d {id} {tid} {g} made =
    let numbered = record d { next_object_id = suc d.next_object_id } in
    let (got, d') = reserve io req job (canonical_tid d.next_object_id) numbered in
    elim (Option-cases got) [
      | inl nothing ↦ absurd (ground (arith, nothing))
      | inr (h, reserved) ↦
          let o =
            new_object d' req d.next_object_id key_str h (slots_for_bytes d' req.key.nbytes) in
          (
            ground (arith, reserved),
            ground (arith, reserved),
            ground (
              arith,
              reserved,
              list_eq.beq_iff key_str key_str,
              find-insert key_str key_str d.next_object_id d'.object_by_key,
            ),
            (
              o,
              ground (arith, reserved, find-insert d.next_object_id id o d'.objects),
              refl,
              refl,
              refl,
              refl,
              ground (arith, reserved),
              ground (arith, reserved),
              ground (arith, reserved),
            ),
          )
    ]
