-- ===== src/Seal/Listing.antt =====
-- src/daemon/canonical_rollout.cpp: GetManifest, the filtered listing of a sealed version. The text of the
-- location hint stands for the location kind.
use state_spectre.Prelude.{
  ℕ, ◌≡◌, refl, inl, inr, Bool, true, false, ◌&&◌, ◌||◌, not, Option, none, some, List, [], ◌∷◌,
  ◌==◌, if◌then◌else◌, arith, nat_eq, mem, Option-cases,
}
use state_spectre.Prelude.Table.{find}
use state_spectre.State.{
  Daemon, JobUid, JobRecord, Location, LocationKind, Object, TensorKey, Manifest, job_uid_Eq,
  version_key_Eq, inc, is_sealed, rollout_stale_manifest_reject, rollout_get_manifest,
}
use state_spectre.Objects.{find_object, find_job}
use state_spectre.Retention.{version_key}
use state_spectre.Replies.{Reply, ok, err, job_not_registered, not_sealed}

pub record ManifestFilter : Type 0 where
  pub pp_present : Bool
  pub pp_rank : ℕ
  pub tp_present : Bool
  pub tp_rank : ℕ
  pub ep_present : Bool
  pub ep_rank : ℕ
  pub etp_present : Bool
  pub etp_rank : ℕ
  pub expert_present : Bool
  pub expert_id : ℕ

pub record ManifestEntry : Type 0 where
  pub key : TensorKey
  pub object_id : ℕ
  pub nbytes : ℕ
  pub content_hash_lo : ℕ
  pub content_hash_hi : ℕ
  pub hint : LocationKind

-- the key is none that the filter passes over
abbrev pub selected : ManifestFilter → TensorKey → Bool
selected f k =
    (not f.pp_present || k.pp_rank == f.pp_rank)
    && ((not f.tp_present || k.tp_rank == f.tp_rank)
        && ((not f.ep_present || k.ep_rank == f.ep_rank)
            && ((not f.etp_present || k.etp_rank == f.etp_rank)
                && (not f.expert_present || k.expert_id == f.expert_id))))

abbrev kind_of : Option Location → LocationKind
kind_of none = LocationKind.none
kind_of (some loc) = loc.kind

abbrev pub entry_of : Daemon → ℕ → Object → ManifestEntry
entry_of d id o = record {
  key = o.key;
  object_id = id;
  nbytes = o.nbytes;
  content_hash_lo = o.content_hash_lo;
  content_hash_hi = o.content_hash_hi;
  hint = kind_of (find o.synthetic_tid d.locations);
}

abbrev add_entry :
    Daemon → ManifestFilter → ℕ → Option Object → List ManifestEntry → List ManifestEntry
add_entry d f id none es = es
add_entry d f id (some o) es = if selected f o.key then entry_of d id o ∷ es else es

-- the loop over the members
unfoldable pub list_members : Daemon → ManifestFilter → List ℕ → List ManifestEntry
list_members d f [] = []
list_members d f (id ∷ ids) = add_entry d f id (find_object d id) (list_members d f ids)

abbrev list_sealed : ManifestFilter → Option Manifest → Daemon → Daemon × Reply (List ManifestEntry)
list_sealed f none d = (inc rollout_stale_manifest_reject d, err not_sealed)
list_sealed f (some man) d =
    if is_sealed man.state
    then (inc rollout_get_manifest d, ok (list_members d f man.object_ids))
    else (inc rollout_stale_manifest_reject d, err not_sealed)

unfoldable pub handle_get_manifest :
    JobUid → ℕ → ℕ → ManifestFilter → Daemon → Daemon × Reply (List ManifestEntry)
handle_get_manifest job_key role version f d = elim (find_job d job_key) [
  | none ↦ (d, err job_not_registered)
  | some job ↦ list_sealed f (find (version_key job.uid role version) d.manifests) d
]

-- the listing has an entry of the object
abbrev pub lists : ℕ → List ManifestEntry → Bool
lists id [] = false
lists id (e ∷ es) = e.object_id == id || lists id es

abbrev pub chosen : ManifestFilter → Option Object → Bool
chosen f none = false
chosen f (some o) = selected f o.key

lists-members :
    (d : Daemon) (f : ManifestFilter) (ids : List ℕ) (id : ℕ)
    → lists id (list_members d f ids) ≡ (mem id ids && chosen f (find_object d id))
unfolding list_members
lists-members d f [] id = refl
lists-members d f (i ∷ ids) id = elim (Option-cases (find_object d i)) [
  | inl missing ↦ ground (arith, missing, lists-members d f ids id)
  | inr (o, there) ↦ ground (arith, there, lists-members d f ids id)
]

-- GetManifest answers only for the version's sealed manifest, lists exactly those of its members
-- that exist and that the filter selects, and changes nothing but a counter.
pub get_manifest-lists :
    (job_key : JobUid) (role version : ℕ) (f : ManifestFilter) (d : Daemon)
    {es : List ManifestEntry}
    → (handle_get_manifest job_key role version f d).1 ≡ ok es
    → ((job : JobRecord) × (man : Manifest) × (find_job d job_key ≡ some job)
        × (find (version_key job.uid role version) d.manifests ≡ some man)
        × (is_sealed man.state ≡ true)
        × ((id : ℕ) → lists id es ≡ (mem id man.object_ids && chosen f (find_object d id))))
      × ((handle_get_manifest job_key role version f d).0
          ≡ record d { metrics = (handle_get_manifest job_key role version f d).0.metrics })
unfolding handle_get_manifest
get_manifest-lists job_key role version f d {es} h = elim (Option-cases (find_job d job_key)) [
  | inl stranger ↦ absurd (ground (arith, stranger))
  | inr (job, known) ↦ elim (Option-cases (find (version_key job.uid role version) d.manifests)) [
    | inl never ↦ absurd (ground (arith, known, never))
    | inr (man, there) ↦ (
      (
        job,
        man,
        known,
        there,
        ground (arith, known, there),
        λ id. ground (arith, known, there, lists-members d f man.object_ids id),
      ),
      ground (arith, known, there),
    )
  ]
]
