-- ===== src/Seal/Published.antt =====
-- src/daemon/canonical_rollout.cpp: what SealModelVersion publishes, and what a failed seal leaves.
use state_spectre.Prelude.{
  ℕ, ◌≡◌, refl, sym, ap, ◌∙◌, inl, inr, true, false, some, if◌then◌else◌, arith, nat_eq, mem,
  Bool-cases, Option-cases,
}
use state_spectre.Prelude.Table.{find, insert, find-insert}
use state_spectre.State.{
  Daemon, JobUid, JobRecord, Manifest, ManifestState, job_uid_Eq, version_key_Eq,
  version_key_eq_iff, role_key_Eq, role_key_eq_iff, is_sealed, inc, manifest_sealed,
}
use state_spectre.Keys.{fnv_basis, fnv_prime}
use state_spectre.Objects.{find_object, find_job}
use state_spectre.Objects.Holders.{AllCounted, distinct}
use state_spectre.Retention.{version_key, role_key}
use state_spectre.Retention.Kept.{retention-spares}
use state_spectre.Seal.{
  SealRequest, Gathered, gather, sort_asc, seal_members, manifest_of, promote_version,
  seal_gathered, seal_version, handle_seal_model_version,
}
use state_spectre.Seal.Members.{
  keyed_objects, readable_of, bytes_at, bytes_at-sort, distinct-sort, mem-gather, distinct-gather,
  total-gather,
}
use state_spectre.Seal.Sealed.{
  ascending, ascending-sort, mem-sort_asc, frozen, seal_members_lem, tables-seal_members,
}
use state_spectre.Replies.{ok, err, seal_failed}

module _ (req : SealRequest) where
  -- Promotion keeps the manifest that it promotes.
  promote-keeps :
      (uid : JobUid) (version role : ℕ) (d : Daemon)
      → find (version_key uid role version) (promote_version uid role version d).manifests
        ≡ find (version_key uid role version) d.manifests
  unfolding promote_version
  promote-keeps uid version role d =
      let rk = role_key uid role in
      let pointed = record d { latest_sealed = insert rk version d.latest_sealed } in
      (retention-spares uid role (version_key uid role version) pointed
        (ground (arith, role_key_eq_iff rk rk, find-insert rk rk version d.latest_sealed))).0

  seal_gathered-stores :
      (uid : JobUid) (g : Gathered) (d : Daemon) {man : Manifest}
      → (seal_gathered req uid g d).1 ≡ ok man
      → (find
            (version_key uid req.model_role req.model_version)
            (seal_gathered req uid g d).0.manifests
          ≡ some man)
        × (is_sealed man.state ≡ true)
  unfolding seal_gathered
  seal_gathered-stores uid g d {man} h =
      let vk = version_key uid req.model_role req.model_version in
      let ids = sort_asc g.ids in
      let (frozen_d, x) = seal_members ids (d, (fnv_basis, fnv_prime)) in
      let m = manifest_of d req uid g ManifestState.sealed ids x in
      let stored =
        inc manifest_sealed (record frozen_d { manifests = insert vk m frozen_d.manifests }) in
      let put = find-insert vk vk m frozen_d.manifests in
      elim (Bool-cases req.promote) [
        | inl promoted ↦ (
          ground (
            arith,
            promoted,
            put,
            version_key_eq_iff vk vk,
            promote-keeps uid req.model_version req.model_role stored,
          ),
          ground arith,
        )
        | inr plain ↦ (ground (arith, plain, put, version_key_eq_iff vk vk), ground arith)
      ]

  -- A manifest that a seal answers with is SEALED and is stored under its version, promoted or not,
  -- and whether this call sealed the version or an earlier one did.
  pub seal-stores :
      (d : Daemon) {job : JobRecord} {man : Manifest}
      → find_job d req.job ≡ some job
      → (handle_seal_model_version req d).1 ≡ ok man
      → (find
            (version_key job.uid req.model_role req.model_version)
            (handle_seal_model_version req d).0.manifests
          ≡ some man)
        × (is_sealed man.state ≡ true)
  unfolding handle_seal_model_version seal_version
  seal-stores d {job} {man} known h =
      let g = gather job.uid req.model_role req.model_version d.objects in
      let vk = version_key job.uid req.model_role req.model_version in
      let stores = seal_gathered-stores job.uid g d {man = man} in
      elim (Option-cases (find vk d.manifests)) [
        | inl fresh ↦ (ground (arith, fresh, stores), ground (arith, fresh, stores))
        | inr (m, there) ↦ (ground (arith, there, stores), ground (arith, there, stores))
      ]

  -- Sealing once more, after a seal that does not promote, changes nothing and gives the same
  -- manifest.
  pub seal-twice :
      (d : Daemon) {job : JobRecord} {man : Manifest}
      → find_job d req.job ≡ some job
      → req.promote ≡ false
      → (handle_seal_model_version req d).1 ≡ ok man
      → let d' = (handle_seal_model_version req d).0 in
        handle_seal_model_version req d' ≡ (d', ok man)
  unfolding handle_seal_model_version seal_version seal_gathered
  seal-twice d {job} {man} known plain h =
      let g = gather job.uid req.model_role req.model_version d.objects in
      let vk = version_key job.uid req.model_role req.model_version in
      let (stored, sealed) = seal-stores d {job = job} {man = man} known h in
      let (m, j, p, c) = tables-seal_members (sort_asc g.ids) (d, (fnv_basis, fnv_prime)) in
      elim (Option-cases (find vk d.manifests)) [
        | inl fresh ↦ ground (arith, fresh, stored, sealed, j, c)
        | inr (old, there) ↦ ground (arith, there, stored, sealed, j, c)
      ]

  -- A first seal that does not promote lists exactly the readable objects of the job, role and
  -- version, each once, in ascending order, with the 64-bit sum of their sizes, freezes them and
  -- changes no other object, if each object is entered once, under its own id, with its reference
  -- count the number of its holders.
  pub seal_version-freezes :
      (uid : JobUid) (d : Daemon) {man : Manifest}
      → AllCounted d
      → keyed_objects d.objects ≡ true
      → req.promote ≡ false
      → (seal_version req uid d).1 ≡ ok man
      → let d' = (seal_version req uid d).0 in
        (ascending man.object_ids ≡ true)
        × (distinct man.object_ids ≡ true)
        × (man.total_nbytes ≡ bytes_at d.objects man.object_ids)
        × ((id : ℕ)
            → mem id man.object_ids
              ≡ readable_of uid req.model_role req.model_version (find_object d id))
        × ((id : ℕ)
            → find_object d' id ≡ (
                if mem id man.object_ids
                then frozen d.clock (find_object d id)
                else find_object d id))
  unfolding seal_version seal_gathered
  seal_version-freezes uid d {man} counts keyed plain h =
      let g = gather uid req.model_role req.model_version d.objects in
      let members : man.object_ids ≡ sort_asc g.ids = ground arith in
      let total : man.total_nbytes ≡ g.total = ground arith in
      (
        ground (arith, members, ascending-sort g.ids),
        ap distinct members
            ∙ distinct-sort g.ids
            ∙ distinct-gather uid req.model_role req.model_version d.objects keyed,
        total
            ∙ total-gather uid req.model_role req.model_version d.objects keyed
            ∙ sym (ap (bytes_at d.objects) members ∙ bytes_at-sort d.objects g.ids),
        λ id.
            ap (mem id) members
            ∙ mem-sort_asc id g.ids
            ∙ mem-gather uid req.model_role req.model_version d.objects id keyed,
        λ id.
            ground (
              arith,
              members,
              seal_members_lem (sort_asc g.ids) d (fnv_basis, fnv_prime) id counts,
            ),
      )

  -- A seal that fails changes no object and no pointer, and the manifest that it leaves is not
  -- SEALED.
  pub seal-fails :
      (d : Daemon) {job : JobRecord}
      → find_job d req.job ≡ some job
      → (handle_seal_model_version req d).1 ≡ err seal_failed
      → let d' = (handle_seal_model_version req d).0 in
        (d'.objects ≡ d.objects)
        × (d'.latest_sealed ≡ d.latest_sealed)
        × ((man : Manifest) × (find
                (version_key job.uid req.model_role req.model_version)
                d'.manifests
              ≡ some man)
            × (is_sealed man.state ≡ false))
  unfolding handle_seal_model_version seal_version seal_gathered
  seal-fails d {job} known h =
      let g = gather job.uid req.model_role req.model_version d.objects in
      let vk = version_key job.uid req.model_role req.model_version in
      let m = manifest_of d req job.uid g ManifestState.error g.ids (0, 0) in
      let put = find-insert vk vk m d.manifests in
      elim (Option-cases (find vk d.manifests)) [
        | inl fresh ↦ (
          ground (arith, fresh),
          ground (arith, fresh),
          (m, ground (arith, fresh, put, version_key_eq_iff vk vk), refl),
        )
        | inr (old, there) ↦ (
          ground (arith, there),
          ground (arith, there),
          (m, ground (arith, there, put, version_key_eq_iff vk vk), refl),
        )
      ]
