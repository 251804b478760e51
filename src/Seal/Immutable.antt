-- ===== src/Seal/Immutable.antt =====
-- src/daemon/canonical.cpp, src/daemon/canonical_rollout.cpp: an evict after the seal of its version.
use state_spectre.Prelude.{
  ℕ, ◌≡◌, ◌⊎◌, ap, ◌∙◌, inl, inr, Bool, true, false, some, arith, Bool-cases,
}
use state_spectre.Prelude.Table.{find}
use state_spectre.State.{
  Daemon, JobRecord, Manifest, job_uid_Eq, version_key_Eq, is_sealed, inc,
  canonical_stale_version_reject, epoch_mismatch_rejected,
}
use state_spectre.Leases.{epoch_valid}
use state_spectre.Drain.{DrainIo}
use state_spectre.Objects.{find_job}
use state_spectre.Retention.{version_key}
use state_spectre.Evict.{EvictRequest, Evicted, refused, handle_request_canonical_evict}
use state_spectre.Evict.Outcomes.{requested_version, evict-sealed}
use state_spectre.Seal.{SealRequest, handle_seal_model_version}
use state_spectre.Seal.Published.{seal-stores}
use state_spectre.Replies.{ok}

abbrev pub is_refused : Evicted → Bool
is_refused (refused why) = true
is_refused e = false

-- d itself, or with one more refusal counted
abbrev pub Refused : Daemon → Daemon → Type 0
Refused d d' =
    (d' ≡ d) ⊎ ((d' ≡ inc canonical_stale_version_reject d) ⊎ (d' ≡ inc epoch_mismatch_rejected d))

refuses :
    (io : ℕ → DrainIo) (req : EvictRequest) (d : Daemon) {job : JobRecord} {man : Manifest}
    → find_job d req.key.job ≡ some job
    → find (requested_version req job) d.manifests ≡ some man
    → is_sealed man.state ≡ true
    → (is_refused (handle_request_canonical_evict io req d).1 ≡ true)
      × Refused d (handle_request_canonical_evict io req d).0
unfolding handle_request_canonical_evict
refuses io req d {job} {man} known there sealed =
    elim (Bool-cases d.cfg.v2_enable_canonical_store) [
      | inr off ↦ (ground (arith, off), inl (ground (arith, off)))
      | inl on ↦ elim (Bool-cases (epoch_valid d req.rank_id req.rank_epoch)) [
        | inr dead ↦ (ground (arith, on, dead), inr (inr (ground (arith, on, dead))))
        | inl live ↦
            let e = evict-sealed io req d {job = job} {man = man} on live known there sealed in
            (ap (λ r. is_refused r.1) e, inr (inl (ap (λ r. r.0) e)))
      ]
    ]

-- In the state that a SealModelVersion leaves that answered with a manifest, promoting or not, every
-- RequestCanonicalEvict for a tensor of that version from a job of the same uid is refused, whoever
-- asks, whatever for and whatever the drains would bring, and changes nothing but a counter.
pub evict-seal :
    (io : ℕ → DrainIo) (seal : SealRequest) (req : EvictRequest) (d : Daemon) {job job' : JobRecord}
    {man : Manifest}
    → find_job d seal.job ≡ some job
    → (handle_seal_model_version seal d).1 ≡ ok man
    → find_job (handle_seal_model_version seal d).0 req.key.job ≡ some job'
    → job'.uid ≡ job.uid
    → req.key.model_role ≡ seal.model_role
    → req.key.model_version ≡ seal.model_version
    → let d' = (handle_seal_model_version seal d).0 in
      (is_refused (handle_request_canonical_evict io req d').1 ≡ true)
      × Refused d' (handle_request_canonical_evict io req d').0
evict-seal io seal req d {job} {job'} {man} known sealed there same role version =
    let (stored, done) = seal-stores seal d {job = job} {man = man} known sealed in
    let d' = (handle_seal_model_version seal d).0 in
    let key : requested_version req job' ≡ version_key job.uid seal.model_role seal.model_version =
      cc in
    refuses io req d' {job = job'} {man = man} there (ap (λ k. find k d'.manifests) key ∙ stored)
      done
