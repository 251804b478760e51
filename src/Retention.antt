-- ===== src/Retention.antt =====
-- src/daemon/canonical_rollout.cpp: dropping versions, on request and by the retention window.
pub mod Kept
use state_spectre.Prelude.{
  ℕ, zero, suc, ◌+◌, Bool, true, false, ◌&&◌, not, Option, none, some, List, [], ◌∷◌, leb, ◌==◌,
  if◌then◌else◌, nat_eq, length,
}
use state_spectre.Prelude.Table.{Table, find, erase}
use state_spectre.State.{
  Daemon, JobUid, Object, Manifest, VersionKey, RoleKey, job_uid_Eq, job_uid_eq, version_key_Eq,
  role_key_Eq, is_sealed,
}
use state_spectre.Objects.{find_object, find_job, release_object, ids_of_version}
use state_spectre.Replies.{Reply, ok, err, store_disabled, job_not_registered}

pub record Dropped : Type 0 where
  pub dropped_count : ℕ
  pub skipped_inflight : ℕ
  pub bytes_freed : ℕ

unfoldable pub drop_object : Option Object → Daemon × Dropped → Daemon × Dropped
drop_object none (d, r) = (d, r)
drop_object (some o) (d, r) =
    let (released, d') = release_object o d in
    if released
    then (
      d',
      record r { dropped_count = r.dropped_count + 1; bytes_freed = r.bytes_freed + o.nbytes },
    )
    else (d', record r { skipped_inflight = r.skipped_inflight + 1 })

unfoldable pub drop_objects : List ℕ → Daemon × Dropped → Daemon × Dropped
drop_objects [] s = s
drop_objects (id ∷ ids) s = drop_objects ids (drop_object (find_object s.0 id) s)

-- The latest-sealed pointer goes if it names the version.
abbrev unpoint : RoleKey → ℕ → Option ℕ → Table RoleKey ℕ → Table RoleKey ℕ
unpoint rk version none m = m
unpoint rk version (some v) m = if v == version then erase rk m else m

abbrev pub nothing_dropped : Dropped
nothing_dropped = record { dropped_count = 0; skipped_inflight = 0; bytes_freed = 0 }

abbrev pub version_key : JobUid → ℕ → ℕ → VersionKey
version_key uid role version = record { job = uid; model_role = role; model_version = version }

abbrev pub role_key : JobUid → ℕ → RoleKey
role_key uid role = record { job = uid; model_role = role }

unfoldable pub handle_drop_canonical_version : JobUid → ℕ → ℕ → Daemon → Daemon × Reply Dropped
handle_drop_canonical_version job_key role version d =
    if not d.cfg.v2_enable_canonical_store
    then (d, err store_disabled)
    else elim (find job_key d.jobs) [
      | none ↦ (d, err job_not_registered)
      | some job ↦
          let (d', r) =
            drop_objects (ids_of_version job.uid role version d.objects) (d, nothing_dropped) in
          let rk = role_key job.uid role in
          (
            record d' {
              manifests = erase (version_key job.uid role version) d'.manifests;
              latest_sealed = unpoint rk version (find rk d'.latest_sealed) d'.latest_sealed;
            },
            ok r,
          )
    ]

-- the sealed versions of (job, role)
unfoldable pub sealed_versions : JobUid → ℕ → Table VersionKey Manifest → List ℕ
sealed_versions uid role [] = []
sealed_versions uid role ((k, m) ∷ ms) =
    let rest = sealed_versions uid role ms in
    if job_uid_eq k.job uid && (k.model_role == role && is_sealed m.state)
    then k.model_version ∷ rest
    else rest

-- std::sort by greater
unfoldable pub insert_desc : ℕ → List ℕ → List ℕ
insert_desc v [] = v ∷ []
insert_desc v (w ∷ ws) = if leb w v then v ∷ w ∷ ws else w ∷ insert_desc v ws

unfoldable pub sort_desc : List ℕ → List ℕ
sort_desc [] = []
sort_desc (v ∷ vs) = insert_desc v (sort_desc vs)

abbrev pub drop {ℓ} : {A : Type ℓ} → ℕ → List A → List A
drop zero xs = xs
drop (suc n) [] = []
drop (suc n) (x ∷ xs) = drop n xs

-- Release them all; whether all were freed.
abbrev release_found : Option Object → Bool × Daemon → Bool × Daemon
release_found none s = s
release_found (some o) (all_freed, d) =
    let (released, d') = release_object o d in (all_freed && released, d')

unfoldable pub release_all : List ℕ → Bool × Daemon → Bool × Daemon
release_all [] s = s
release_all (id ∷ ids) s = release_all ids (release_found (find_object s.1 id) s)

abbrev pub latest_of : Option ℕ → ℕ
latest_of none = 0
latest_of (some v) = v

unfoldable pub evict_version : JobUid → ℕ → ℕ → Daemon → Daemon
evict_version uid role version d =
    let (all_freed, d') = release_all (ids_of_version uid role version d.objects) (true, d) in
    if all_freed
    then record d' { manifests = erase (version_key uid role version) d'.manifests }
    else d'

-- the versions beyond the window; `latest` was read before the loop
unfoldable pub evict_versions : JobUid → ℕ → ℕ → List ℕ → Daemon → Daemon
evict_versions uid role latest [] d = d
evict_versions uid role latest (v ∷ vs) d =
    evict_versions uid role latest vs (if v == latest then d else evict_version uid role v d)

unfoldable pub enforce_sealed_retention : JobUid → ℕ → Daemon → Daemon
enforce_sealed_retention uid role d =
    let keep = d.cfg.v2_retain_sealed_versions in
    let sealed = sealed_versions uid role d.manifests in
    if keep == 0
    then d
    else if leb (length sealed) keep
    then d
    else evict_versions uid role (latest_of (find (role_key uid role) d.latest_sealed))
        (drop keep (sort_desc sealed)) d
