-- ===== src/Seal.antt =====
-- src/daemon/canonical_rollout.cpp: SealModelVersion and the queries on sealed versions.
pub mod Sealed
pub mod Listing
pub mod Members
pub mod Published
pub mod Immutable
use state_spectre.Prelude.{
  ℕ, zero, suc, ◌+◌, ◌*◌, ◌%◌, ◌^◌, Bool, true, false, ◌&&◌, ◌||◌, not, Option, none, some, List,
  [], ◌∷◌, leb, ◌==◌, if◌then◌else◌, nat_eq, length,
}
use state_spectre.Prelude.Table.{Table, find, insert}
use state_spectre.State.{
  Daemon, JobUid, Object, ObjectState, Manifest, ManifestState, VersionKey, RoleKey, TensorKey,
  LocationKind, Location, job_uid_Eq, version_key_Eq, role_key_Eq, inc, is_readable, is_sealed,
  manifest_sealed, manifest_seal_failed, rollout_stale_manifest_reject, rollout_get_manifest,
}
use state_spectre.Keys.{mix_step, fnv_basis, fnv_prime}
use state_spectre.Objects.{find_object, find_job, put_object, of_version}
use state_spectre.Retention.{enforce_sealed_retention, version_key, role_key}
use state_spectre.Replies.{
  Reply, ok, err, manifests_disabled, job_not_registered, seal_failed, not_sealed,
}

pub record SealRequest : Type 0 where
  pub job : JobUid
  pub model_role : ℕ
  pub model_version : ℕ
  pub expected_param_ids : List ℕ
  pub fail_if_missing : Bool
  pub promote : Bool

-- what the loop over the objects has gathered: the valid members, their bytes, and whether one was invalid
pub record Gathered : Type 0 where
  pub ids : List ℕ
  pub total : ℕ
  pub any_invalid : Bool

unfoldable pub gather : JobUid → ℕ → ℕ → Table ℕ Object → Gathered
gather uid role version [] = record { ids = []; total = 0; any_invalid = false }
gather uid role version ((id, o) ∷ m) =
    let g = gather uid role version m in
    if not (of_version uid role version o)
    then g
    else if is_readable o.state
    then record g { ids = o.object_id ∷ g.ids; total = (o.nbytes + g.total) % 2 ^ 64 }
    else record g { any_invalid = true }

abbrev has_param : ℕ → Option Object → Bool
has_param pid none = false
has_param pid (some o) = o.key.param_id == pid

unfoldable pub covers : Daemon → List ℕ → ℕ → Bool
covers d [] pid = false
covers d (id ∷ ids) pid = has_param pid (find_object d id) || covers d ids pid

unfoldable pub covers_all : Daemon → List ℕ → List ℕ → Bool
covers_all d ids [] = true
covers_all d ids (pid ∷ pids) = covers d ids pid && covers_all d ids pids

-- std::sort of the members
unfoldable pub insert_asc : ℕ → List ℕ → List ℕ
insert_asc v [] = v ∷ []
insert_asc v (w ∷ ws) = if leb v w then v ∷ w ∷ ws else w ∷ insert_asc v ws

unfoldable pub sort_asc : List ℕ → List ℕ
sort_asc [] = []
sort_asc (v ∷ vs) = insert_asc v (sort_asc vs)

abbrev golden : ℕ
golden = 0x9e3779b97f4a7c15

-- the lambda `mix`
abbrev mix : ℕ → ℕ × ℕ → ℕ × ℕ
mix v (lo, hi) = (mix_step lo v, mix_step hi ((v + golden) % 2 ^ 64))

abbrev mix_member : ℕ → Object → ℕ × ℕ → ℕ × ℕ
mix_member id o h = mix o.nbytes (mix o.content_hash_hi (mix o.content_hash_lo (mix id h)))

-- Hash and freeze the members.
unfoldable pub seal_member : ℕ → Option Object → Daemon × (ℕ × ℕ) → Daemon × (ℕ × ℕ)
seal_member id none s = s
seal_member id (some o) (d, h) =
    (put_object (record o { state = ObjectState.sealed; sealed_ns = d.clock }) d, mix_member id o h)

unfoldable pub seal_members : List ℕ → Daemon × (ℕ × ℕ) → Daemon × (ℕ × ℕ)
seal_members [] s = s
seal_members (id ∷ ids) s = seal_members ids (seal_member id (find_object s.0 id) s)

abbrev pub manifest_of :
    Daemon → SealRequest → JobUid → Gathered → ManifestState → List ℕ → ℕ × ℕ → Manifest
manifest_of d req uid g st ids h = record {
  job = uid;
  model_role = req.model_role;
  model_version = req.model_version;
  state = st;
  object_ids = ids;
  total_nbytes = g.total;
  created_ns = d.clock;
  sealed_ns = if is_sealed st then d.clock else 0;
  manifest_hash_lo = h.0;
  manifest_hash_hi = h.1;
}

unfoldable pub promote_version : JobUid → ℕ → ℕ → Daemon → Daemon
promote_version uid role version d =
    enforce_sealed_retention uid role
      (record d { latest_sealed = insert (role_key uid role) version d.latest_sealed })

-- The members are valid, or need not be: freeze them and store the manifest.
unfoldable pub seal_gathered : SealRequest → JobUid → Gathered → Daemon → Daemon × Reply Manifest
seal_gathered req uid g d =
    let ids = sort_asc g.ids in
    let (frozen, h) = seal_members ids (d, (fnv_basis, fnv_prime)) in
    let man = manifest_of d req uid g ManifestState.sealed ids h in
    let stored = inc manifest_sealed (record frozen {
      manifests = insert (version_key uid req.model_role req.model_version) man frozen.manifests;
    }) in
    (
      if req.promote then promote_version uid req.model_role req.model_version stored else stored,
      ok man,
    )

unfoldable pub seal_version : SealRequest → JobUid → Daemon → Daemon × Reply Manifest
seal_version req uid d =
    let g = gather uid req.model_role req.model_version d.objects in
    let any_invalid = g.any_invalid || not (covers_all d g.ids req.expected_param_ids) in
    if d.cfg.v2_seal_requires_all_objects_valid && (req.fail_if_missing && any_invalid)
    then (let man = manifest_of d req uid g ManifestState.error g.ids (0, 0) in
        (
          inc manifest_seal_failed (record d {
            manifests = insert (version_key uid req.model_role req.model_version) man d.manifests;
          }),
          err seal_failed,
        ))
    else seal_gathered req uid g d

-- A version that is sealed already is answered from its manifest.
abbrev unless_sealed : SealRequest → JobUid → Option Manifest → Daemon → Daemon × Reply Manifest
unless_sealed req uid none d = seal_version req uid d
unless_sealed req uid (some m) d = if is_sealed m.state then (d, ok m) else seal_version req uid d

unfoldable pub handle_seal_model_version : SealRequest → Daemon → Daemon × Reply Manifest
handle_seal_model_version req d =
    if not d.cfg.v2_enable_canonical_store || not d.cfg.v2_enable_manifests
    then (d, err manifests_disabled)
    else elim (find_job d req.job) [
      | none ↦ (d, err job_not_registered)
      | some job ↦
          unless_sealed req job.uid
            (find (version_key job.uid req.model_role req.model_version) d.manifests) d
    ]

-- `none` in the answer is found = false.
unfoldable pub handle_get_latest_sealed_version : JobUid → ℕ → Daemon → Reply (Option ℕ)
handle_get_latest_sealed_version job_key role d = elim (find_job d job_key) [
  | none ↦ err job_not_registered
  | some job ↦ ok (find (role_key job.uid role) d.latest_sealed)
]
