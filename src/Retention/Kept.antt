-- ===== src/Retention/Kept.antt =====
-- src/daemon/canonical_rollout.cpp: what dropping a version and the retention window spare.
use state_spectre.Prelude.{
  ℕ, ◌≡◌, refl, ◌∙◌, inl, inr, Bool, true, false, ◌&&◌, not, Option, none, some, List, [], ◌∷◌,
  ◌==◌, if◌then◌else◌, arith, nat_eq, list_eq, Bool-cases, Option-cases,
}
use state_spectre.Prelude.Table.{find, erase, find-erase}
use state_spectre.State.{
  Daemon, JobUid, JobRecord, Location, Object, VersionKey, job_uid_Eq, job_uid_eq, job_uid_eq_iff,
  version_key_Eq, version_key_eq, role_key_Eq, role_key_eq_iff,
}
use state_spectre.Slots.{free_slots}
use state_spectre.Objects.{find_object, free_backing, uncharge, release_object, ids_of_version}
use state_spectre.Objects.Releases.{transferring, release_object_lem}
use state_spectre.Objects.Holders.{AllCounted, found-counted, release-AllCounted}
use state_spectre.Retention.{
  Dropped, drop_object, drop_objects, nothing_dropped, version_key, role_key,
  handle_drop_canonical_version, sealed_versions, sort_desc, drop, release_all, latest_of,
  evict_version, evict_versions, enforce_sealed_retention,
}

-- the manifests and the latest-sealed pointers are the same
abbrev pub SameVersions : Daemon → Daemon → Type 0
SameVersions d d' = (d'.manifests ≡ d.manifests) × (d'.latest_sealed ≡ d.latest_sealed)

versions-free_backing :
    (o : Object) (l : Option Location) (d : Daemon) → SameVersions d (free_backing o l d)
unfolding free_backing free_slots
versions-free_backing o none d = (refl, refl)
versions-free_backing o (some l) d = (ground arith, ground arith)

versions-uncharge :
    (o : Object) (j : Option JobRecord) (d : Daemon) → SameVersions d (uncharge o j d)
unfolding uncharge
versions-uncharge o none d = (refl, refl)
versions-uncharge o (some j) d = (refl, refl)

versions-release : (o : Object) (d : Daemon) → SameVersions d (release_object o d).1
unfolding release_object
versions-release o d =
    let freed = free_backing o (find o.synthetic_tid d.locations) d in
    let unbound = record freed {
      leases = erase o.lease_id freed.leases;
      object_by_key = erase o.key_str freed.object_by_key;
    } in
    let (m1, p1) = versions-free_backing o (find o.synthetic_tid d.locations) d in
    let (m2, p2) = versions-uncharge o (find o.key.job unbound.jobs) unbound in
    (ground (arith, m1, m2), ground (arith, p1, p2))

versions-release_all :
    (ids : List ℕ) (b : Bool) (d : Daemon) → SameVersions d (release_all ids (b, d)).1
unfolding release_all
versions-release_all [] b d = (refl, refl)
versions-release_all (id ∷ ids) b d = elim (Option-cases (find_object d id)) [
  | inl missing ↦ rw (missing, release_all) (versions-release_all ids b d)
  | inr (o, there) ↦
      let (m1, p1) = versions-release o d in
      let (m2, p2) =
        versions-release_all ids (b && (release_object o d).0) (release_object o d).1 in
      rw (there, release_all) (m2 ∙ m1, p2 ∙ p1)
]

versions-drop_objects :
    (ids : List ℕ) (s : Daemon × Dropped) → SameVersions s.0 (drop_objects ids s).0
unfolding drop_objects drop_object
versions-drop_objects [] s = (refl, refl)
versions-drop_objects (id ∷ ids) (d, r) = elim (Option-cases (find_object d id)) [
  | inl missing ↦ rw (missing, drop_objects, drop_object) (versions-drop_objects ids (d, r))
  | inr (o, there) ↦
      let (m1, p1) = versions-release o d in
      let (m2, p2) = versions-drop_objects ids (drop_object (some o) (d, r)) in
      rw (there, drop_objects) (ground (arith, m1, m2), ground (arith, p1, p2))
]

-- the version is one that the eviction may take: of the job and the role, and not the promoted one
abbrev pub evictable : JobUid → ℕ → ℕ → VersionKey → Bool
evictable uid role latest k =
    job_uid_eq k.job uid && (k.model_role == role && not (k.model_version == latest))

evict_version-manifests :
    (uid : JobUid) (role version latest : ℕ) (k : VersionKey) (d : Daemon)
    → evictable uid role latest k ≡ false
    → (version == latest) ≡ false
    → (find k (evict_version uid role version d).manifests ≡ find k d.manifests)
      × ((evict_version uid role version d).latest_sealed ≡ d.latest_sealed)
unfolding evict_version
evict_version-manifests uid role version latest k d spared old =
    let (m, p) = versions-release_all (ids_of_version uid role version d.objects) true d in
    (
      ground (
        arith,
        m,
        find-erase (version_key uid role version) k d.manifests,
        job_uid_eq_iff k.job uid,
        job_uid_eq_iff uid k.job,
      ),
      ground (arith, p),
    )

evict_versions-manifests :
    (uid : JobUid) (role latest : ℕ) (vs : List ℕ) (k : VersionKey) (d : Daemon)
    → evictable uid role latest k ≡ false
    → (find k (evict_versions uid role latest vs d).manifests ≡ find k d.manifests)
      × ((evict_versions uid role latest vs d).latest_sealed ≡ d.latest_sealed)
unfolding evict_versions
evict_versions-manifests uid role latest [] k d spared = (refl, refl)
evict_versions-manifests uid role latest (v ∷ vs) k d spared = elim (Bool-cases (v == latest)) [
  | inl promoted ↦
      rw (promoted, evict_versions) (evict_versions-manifests uid role latest vs k d spared)
  | inr old ↦
      let (m1, p1) = evict_version-manifests uid role v latest k d spared old in
      let (m2, p2) =
        evict_versions-manifests uid role latest vs k (evict_version uid role v d) spared in
      rw (old, evict_versions) (m2 ∙ m1, p2 ∙ p1)
]

-- The retention window never takes the manifest of the promoted version, nor of another job or role,
-- and never moves a latest-sealed pointer.
pub retention-spares :
    (uid : JobUid) (role : ℕ) (k : VersionKey) (d : Daemon)
    → evictable uid role (latest_of (find (role_key uid role) d.latest_sealed)) k ≡ false
    → (find k (enforce_sealed_retention uid role d).manifests ≡ find k d.manifests)
      × ((enforce_sealed_retention uid role d).latest_sealed ≡ d.latest_sealed)
unfolding enforce_sealed_retention
retention-spares uid role k d spared =
    let (m, p) =
      evict_versions-manifests uid role (latest_of (find (role_key uid role) d.latest_sealed))
        (drop d.cfg.v2_retain_sealed_versions (sort_desc (sealed_versions uid role d.manifests))) k
        d spared in
    (ground (arith, m), ground (arith, p))

-- a release of another object leaves one in transfer
find-release_other :
    (o : Object) (i id : ℕ) (d : Daemon)
    → AllCounted d
    → find_object d i ≡ some o
    → transferring (find_object d id) ≡ true
    → find_object (release_object o d).1 id ≡ find_object d id
find-release_other o i id d h there busy =
    let (_, _, found, _, _) = release_object_lem o d in
    ground (arith, found id, found-counted d i h there, there)

find-drop_objects :
    (ids : List ℕ) (s : Daemon × Dropped) (id : ℕ)
    → AllCounted s.0
    → transferring (find_object s.0 id) ≡ true
    → find_object (drop_objects ids s).0 id ≡ find_object s.0 id
unfolding drop_objects drop_object
find-drop_objects [] s id h busy = refl
find-drop_objects (i ∷ ids) (d, r) id h busy = elim (Option-cases (find_object d i)) [
  | inl missing ↦ rw (missing, drop_objects, drop_object) (find-drop_objects ids (d, r) id h busy)
  | inr (o, there) ↦
      let same = find-release_other o i id d h there busy in
      let d1 = (release_object o d).1 in
      let busy1 : transferring (find_object d1 id) ≡ true = rw same busy in
      let step = drop_object (some o) (d, r) in
      rw (there, drop_objects)
        (find-drop_objects ids step id (λ j. ground (arith, release-AllCounted o d h j))
            (ground (arith, busy1))
          ∙ ground (arith, same))
]

-- the pointer names the version
abbrev pub points_to : ℕ → Option ℕ → Bool
points_to version none = false
points_to version (some v) = v == version

-- Dropping a version takes its manifest, leaves no latest-sealed pointer to it, spares every other
-- manifest, and keeps each object that an export or a restore is reading.
pub drop_version_lem :
    (uid : JobUid) (role version : ℕ) (d : Daemon) {job : JobRecord}
    → AllCounted d
    → d.cfg.v2_enable_canonical_store ≡ true
    → find uid d.jobs ≡ some job
    → let d' = (handle_drop_canonical_version uid role version d).0 in
      ((k : VersionKey)
        → find k d'.manifests ≡ (
            if version_key_eq (version_key job.uid role version) k
            then none
            else find k d.manifests))
      × (points_to version (find (role_key job.uid role) d'.latest_sealed) ≡ false)
      × ((id : ℕ)
          → find_object d' id
            ≡ (if transferring (find_object d id) then find_object d id else find_object d' id))
unfolding handle_drop_canonical_version
drop_version_lem uid role version d {job} h on known =
    let ids = ids_of_version job.uid role version d.objects in
    let d1 = (drop_objects ids (d, nothing_dropped)).0 in
    let (m, p) = versions-drop_objects ids (d, nothing_dropped) in
    let rk = role_key job.uid role in
    (
      λ k. ground (arith, known, m, find-erase (version_key job.uid role version) k d.manifests),
      elim (Option-cases (find rk d1.latest_sealed)) [
        | inl unset ↦ ground (arith, known, unset)
        | inr (v, set) ↦
            ground (arith, known, set, role_key_eq_iff rk rk, find-erase rk rk d1.latest_sealed)
      ],
      λ id. elim (Bool-cases (transferring (find_object d id))) [
        | inl busy ↦ ground (arith, known, find-drop_objects ids (d, nothing_dropped) id h busy)
        | inr idle ↦ ground arith
      ],
    )
