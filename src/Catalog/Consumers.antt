-- ===== src/Catalog/Consumers.antt =====
-- src/daemon/canonical_rollout.cpp and the heartbeat monitor of src/daemon/daemon.cpp: seals, drops,
-- retention and dead sessions, and the bookkeeping of canonical objects.
use state_spectre.Prelude.{
  ℕ, ◌≡◌, refl, inl, inr, Bool, true, ◌&&◌, List, [], ◌∷◌, ◌==◌, arith, nat_eq, Option-cases,
  Bool-cases,
}
use state_spectre.Prelude.Table.{Table, find}
use state_spectre.State.{
  Daemon, Lease, Session, JobUid, ObjectState, job_uid_Eq, version_key_Eq, role_key_Eq,
}
use state_spectre.Slots.{free_slots, set_slot_state}
use state_spectre.Objects.{find_object, find_job, put_object, release_object, ids_of_version}
use state_spectre.Objects.Holders.{
  AllCounted, found-counted, put-AllCounted, same_objects-AllCounted, release-AllCounted,
  purge-AllCounted,
}
use state_spectre.Retention.{
  Dropped, drop_object, drop_objects, nothing_dropped, handle_drop_canonical_version, release_all,
  evict_version, evict_versions, enforce_sealed_retention, sealed_versions, sort_desc, drop,
  latest_of, role_key, version_key,
}
use state_spectre.Seal.{
  SealRequest, Gathered, gather, seal_member, seal_members, promote_version, seal_gathered,
  seal_version, sort_asc, handle_seal_model_version,
}
use state_spectre.Keys.{fnv_basis, fnv_prime}
use state_spectre.Recovery.{
  recover_slots, recover_leases, recovered, expire_session, expire_sessions, heartbeat_sweep,
}

drop_object-AllCounted :
    (id : ℕ) (s : Daemon × Dropped)
    → AllCounted s.0
    → AllCounted (drop_object (find_object s.0 id) s).0
unfolding drop_object
drop_object-AllCounted id (d, r) h j = elim (Option-cases (find_object d id)) [
  | inl missing ↦ rw (missing, drop_object) (h j)
  | inr (o, there) ↦ ground (arith, there, release-AllCounted o d h j)
]

drop_objects-AllCounted :
    (ids : List ℕ) (s : Daemon × Dropped) → AllCounted s.0 → AllCounted (drop_objects ids s).0
unfolding drop_objects
drop_objects-AllCounted [] s h = h
drop_objects-AllCounted (id ∷ ids) s h =
    drop_objects-AllCounted ids _ (drop_object-AllCounted id s h)

pub drop_version-AllCounted :
    (uid : JobUid) (role version : ℕ) (d : Daemon)
    → AllCounted d
    → AllCounted (handle_drop_canonical_version uid role version d).0
unfolding handle_drop_canonical_version
drop_version-AllCounted uid role version d h j = elim (Option-cases (find uid d.jobs)) [
  | inl missing ↦ ground (arith, h j)
  | inr (job, there) ↦ ground (
    arith,
    h j,
    there,
    drop_objects-AllCounted (ids_of_version job.uid role version d.objects) (d, nothing_dropped) h
        j,
  )
]

release_all-AllCounted :
    (ids : List ℕ) (s : Bool × Daemon) → AllCounted s.1 → AllCounted (release_all ids s).1
unfolding release_all
release_all-AllCounted [] s h j = h j
release_all-AllCounted (id ∷ ids) (b, d) h j = elim (Option-cases (find_object d id)) [
  | inl missing ↦ rw (missing, release_all) (release_all-AllCounted ids (b, d) h j)
  | inr (o, there) ↦
      rw (there, release_all)
        (release_all-AllCounted ids (b && (release_object o d).0, (release_object o d).1)
          (release-AllCounted o d h) j)
]

evict_version-AllCounted :
    (uid : JobUid) (role version : ℕ) (d : Daemon)
    → AllCounted d
    → AllCounted (evict_version uid role version d)
unfolding evict_version
evict_version-AllCounted uid role version d h j =
    ground (arith, release_all-AllCounted (ids_of_version uid role version d.objects) (true, d) h j)

evict_versions-AllCounted :
    (uid : JobUid) (role latest : ℕ) (vs : List ℕ) (d : Daemon)
    → AllCounted d
    → AllCounted (evict_versions uid role latest vs d)
unfolding evict_versions
evict_versions-AllCounted uid role latest [] d h = h
evict_versions-AllCounted uid role latest (v ∷ vs) d h = elim (Bool-cases (v == latest)) [
  | inl kept ↦ rw (kept, evict_versions) (evict_versions-AllCounted uid role latest vs d h)
  | inr old ↦
      rw (old, evict_versions)
        (evict_versions-AllCounted uid role latest vs (evict_version uid role v d)
          (evict_version-AllCounted uid role v d h))
]

retention-AllCounted :
    (uid : JobUid) (role : ℕ) (d : Daemon)
    → AllCounted d
    → AllCounted (enforce_sealed_retention uid role d)
unfolding enforce_sealed_retention
retention-AllCounted uid role d h j = ground (
  arith,
  h j,
  evict_versions-AllCounted uid role (latest_of (find (role_key uid role) d.latest_sealed))
      (drop d.cfg.v2_retain_sealed_versions (sort_desc (sealed_versions uid role d.manifests))) d h
      j,
)

seal_members-AllCounted :
    (ids : List ℕ) (s : Daemon × (ℕ × ℕ)) → AllCounted s.0 → AllCounted (seal_members ids s).0
unfolding seal_members seal_member
seal_members-AllCounted [] s h = h
seal_members-AllCounted (id ∷ ids) (d, x) h = elim (Option-cases (find_object d id)) [
  | inl missing ↦ rw (missing, seal_members, seal_member) (seal_members-AllCounted ids (d, x) h)
  | inr (o, there) ↦
      let o' = record o { state = ObjectState.sealed; sealed_ns = d.clock } in
      rw (there, seal_members, seal_member)
        (seal_members-AllCounted ids (put_object o' d, _)
          (put-AllCounted o' d (ground (arith, found-counted d id h there)) h))
]

seal_gathered-AllCounted :
    (req : SealRequest) (uid : JobUid) (g : Gathered) (d : Daemon)
    → AllCounted d
    → AllCounted (seal_gathered req uid g d).0
unfolding seal_gathered promote_version
seal_gathered-AllCounted req uid g d h =
    let frozen = seal_members-AllCounted (sort_asc g.ids) (d, (fnv_basis, fnv_prime)) h in
    elim (Bool-cases req.promote) [
      | inl promoted ↦
          rw (promoted, seal_gathered, promote_version)
            (retention-AllCounted uid req.model_role _ frozen)
      | inr plain ↦ rw (plain, seal_gathered) frozen
    ]

pub seal-AllCounted :
    (req : SealRequest) (d : Daemon) → AllCounted d → AllCounted (handle_seal_model_version req d).0
unfolding handle_seal_model_version seal_version
seal-AllCounted req d h j = elim (Option-cases (find_job d req.job)) [
  | inl missing ↦ ground (arith, h j)
  | inr (job, there) ↦
      let g = gather job.uid req.model_role req.model_version d.objects in
      let done = seal_gathered-AllCounted req job.uid g d h j in
      elim (Option-cases
        (find (version_key job.uid req.model_role req.model_version) d.manifests)) [
          | inl fresh ↦ ground (arith, h j, there, fresh, done)
          | inr (m, known) ↦ ground (arith, h j, there, known, done)
        ]
]

objects-recover_slots : (l : Lease) (d : Daemon) → (recover_slots l d).objects ≡ d.objects
unfolding recover_slots free_slots set_slot_state
objects-recover_slots l d = ground arith

objects-recover_leases :
    (s : Session) (m : Table ℕ Lease) (d : Daemon) → (recover_leases s m d).objects ≡ d.objects
unfolding recover_leases
objects-recover_leases s [] d = refl
objects-recover_leases s ((id, l) ∷ m) d = ground (
  arith,
  objects-recover_slots l d,
  objects-recover_leases s m d,
  objects-recover_leases s m (recover_slots l d),
)

recovered-AllCounted : (s : Session) (d : Daemon) → AllCounted d → AllCounted (recovered s d)
unfolding recovered
recovered-AllCounted s d h =
    same_objects-AllCounted d (recovered s d) (objects-recover_leases s d.leases _) h

expire_sessions-AllCounted :
    (now : ℕ) (m : Table ℕ Session) (d : Daemon)
    → AllCounted d
    → AllCounted (expire_sessions now m d)
unfolding expire_sessions expire_session
expire_sessions-AllCounted now [] d h = h
expire_sessions-AllCounted now ((rank, s) ∷ m) d h =
    expire_sessions-AllCounted now m (expire_session now s d) (λ j.
      ground
        (arith, h j, purge-AllCounted s.rank_id (recovered s d) (recovered-AllCounted s d h) j))

pub heartbeat_sweep-AllCounted :
    (now : ℕ) (d : Daemon) → AllCounted d → AllCounted (heartbeat_sweep now d)
unfolding heartbeat_sweep
heartbeat_sweep-AllCounted now d h = expire_sessions-AllCounted now d.sessions d h
