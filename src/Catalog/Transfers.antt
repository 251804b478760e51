-- ===== src/Catalog/Transfers.antt =====
-- src/daemon/canonical_rollout.cpp: exports and local restores, and the bookkeeping of canonical objects.
use state_spectre.Prelude.{
  ℕ, suc, ◌-◌, ◌≡◌, refl, inl, inr, true, Option, none, some, arith, nat_eq, Option-cases,
  Bool-cases,
}
use state_spectre.Prelude.Table.{find}
use state_spectre.State.{
  Daemon, JobUid, Object, ObjectState, ColdEntry, job_uid_Eq, version_key_Eq, add,
  flag_allow_overflow, canonical_tid, export_staging_bytes,
}
use state_spectre.Slots.{free_slots, slots_for_bytes, on_run}
use state_spectre.Drain.{allocate_or_drain, max_attempts}
use state_spectre.Leases.{pid_of}
use state_spectre.Objects.{find_object, find_job, put_object}
use state_spectre.Objects.Holders.{
  counted, AllCounted, found-counted, put-AllCounted, maybe_free-AllCounted,
}
use state_spectre.Retention.{version_key}
use state_spectre.Pull.{
  PullIo, PullRequest, stage_object_for_export, begin_export, undo_export, undone_object,
  end_object, end_held, free_ended, end_export, send_object, export_object, pull_member,
  pull_sealed, handle_pull_tensor,
}
use state_spectre.Restore.{
  RestoreIo, RestoreRequest, warm_slot, warm_object, serve_restore, current, warm_into,
  restore_cold, restore_at, cold_at, handle_request_canonical_restore,
  handle_release_canonical_restore,
}
use state_spectre.Catalog.{KeepsCounted, allocate_or_drain-AllCounted}

stage-AllCounted :
    (io : PullIo) (o : Object) (d : Daemon)
    → KeepsCounted io.while_reading
    → AllCounted d
    → AllCounted (stage_object_for_export io o d).1
unfolding stage_object_for_export
stage-AllCounted io o d k h j = elim (Option-cases (find o.synthetic_tid d.locations)) [
  | inl missing ↦ ground (arith, h j, missing)
  | inr (loc, there) ↦ elim (Option-cases (find loc.cold_ref d.cold_store)) [
    | inl lost ↦ ground (arith, h j, there, lost)
    | inr (c, cold) ↦ ground (arith, h j, k d h j, there, cold)
  ]
]

put_found-AllCounted :
    (id : ℕ) (f : Object → Object) (o : Object) (d : Daemon)
    → AllCounted d
    → find id d.objects ≡ some o
    → ((f o).object_id ≡ o.object_id) × ((f o).holders ≡ o.holders) × ((f o).refcount ≡ o.refcount)
    → AllCounted (put_object (f o) d)
put_found-AllCounted id f o d h there (e1, e2, e3) =
    let c : counted id o ≡ true = found-counted d id h there in
    put-AllCounted (f o) d (ground (arith, c, e1, e2, e3)) h

free_ended-AllCounted :
    (o : Option Object) (d : Daemon) → AllCounted d → AllCounted (free_ended o d)
free_ended-AllCounted none d h = h
free_ended-AllCounted (some o) d h = maybe_free-AllCounted o d h

end_held-AllCounted :
    (st : ObjectState) (id : ℕ) (d : Daemon)
    → AllCounted d
    → AllCounted (end_held st (find_object d id) d)
end_held-AllCounted st id d h = elim (Option-cases (find_object d id)) [
  | inl missing ↦ rw (missing, end_held) h
  | inr (o, there) ↦
      rw (there, end_held) (put_found-AllCounted id (end_object st) o d h there (refl, refl, refl))
]

undo-AllCounted :
    (st : ObjectState) (id : ℕ) (d : Daemon)
    → AllCounted d
    → AllCounted (undo_export st (find_object d id) d)
undo-AllCounted st id d h = elim (Option-cases (find_object d id)) [
  | inl missing ↦ rw (missing, undo_export) h
  | inr (o, there) ↦
      rw (there, undo_export)
        (put_found-AllCounted id (undone_object st) o d h there (refl, refl, refl))
]

end_export-AllCounted :
    (uid : JobUid) (id n : ℕ) (st : ObjectState) (d : Daemon)
    → AllCounted d
    → AllCounted (end_export uid id n st d)
unfolding end_export
end_export-AllCounted uid id n st d h = free_ended-AllCounted _ _ (end_held-AllCounted st id d h)

module _ (io : PullIo) (reading : KeepsCounted io.while_reading)
    (sending : KeepsCounted io.while_sending) where
  send-AllCounted :
      (req : PullRequest) (uid : JobUid) (o : Object) (d : Daemon)
      → AllCounted d
      → AllCounted (send_object io req uid o d).0
  unfolding send_object
  send-AllCounted req uid o d h j = ground (
    arith,
    end_export-AllCounted req.job req.object_id o.nbytes o.state
        (io.while_sending (add export_staging_bytes o.nbytes d))
        (sending (add export_staging_bytes o.nbytes d) h) j,
  )

  export-AllCounted :
      (req : PullRequest) (uid : JobUid) (o : Object) (id : ℕ) (d : Daemon)
      → AllCounted d
      → find id d.objects ≡ some o
      → AllCounted (export_object io req uid o d).0
  unfolding export_object begin_export
  export-AllCounted req uid o id d h there j =
      let taken = record o {
        export_refcount = suc o.export_refcount;
        state = ObjectState.export_in_flight;
      } in
      let begun : AllCounted (begin_export uid o d) =
        put_found-AllCounted id
          (λ p. record p {
            export_refcount = suc p.export_refcount;
            state = ObjectState.export_in_flight;
          })
          o d h there (refl, refl, refl) in
      let d' = (stage_object_for_export io taken (begin_export uid o d)).1 in
      let staged : AllCounted d' = stage-AllCounted io taken (begin_export uid o d) reading begun in
      ground (
        arith,
        undo-AllCounted o.state req.object_id d' staged j,
        send-AllCounted req uid o d' staged j,
      )

  pub pull-AllCounted :
      (req : PullRequest) (d : Daemon) → AllCounted d → AllCounted (handle_pull_tensor io req d).0
  unfolding handle_pull_tensor pull_sealed pull_member
  pull-AllCounted req d h j = elim (Option-cases (find_job d req.job)) [
    | inl missing ↦ ground (arith, h j)
    | inr (job, known) ↦
        elim (Option-cases
          (find (version_key job.uid req.model_role req.model_version) d.manifests)) [
            | inl never ↦ ground (arith, h j, known, never)
            | inr (man, there) ↦ elim (Option-cases (find_object d req.object_id)) [
              | inl gone ↦ ground (arith, h j, known, there, gone)
              | inr (o, found) ↦ ground (
                arith,
                h j,
                known,
                there,
                found,
                export-AllCounted req job.uid o req.object_id d h found j,
              )
            ]
          ]
  ]

module _ (io : RestoreIo) (req : RestoreRequest) where
  serve-AllCounted :
      (o : Object) (id base : ℕ) (d : Daemon)
      → AllCounted d
      → counted id o ≡ true
      → AllCounted (serve_restore o base d).0
  unfolding serve_restore
  serve-AllCounted o id base d h c =
      put-AllCounted
        (record o { restore_refcount = suc o.restore_refcount; last_access_ns = d.clock }) d
        (ground (arith, c)) h

  -- the handler's pointer, at a state in which the table counts
  current-counted :
      (o : Object) (d : Daemon)
      → AllCounted d
      → counted req.object_id o ≡ true
      → counted req.object_id (current o (find_object d req.object_id)) ≡ true
  current-counted o d h c = ground (arith, c, h req.object_id)

  warm_object-AllCounted :
      (o : Object) (base count : ℕ) (d : Daemon)
      → AllCounted d
      → counted req.object_id o ≡ true
      → AllCounted (warm_object req o base count d)
  unfolding warm_object
  warm_object-AllCounted o base count d h c =
      put-AllCounted
        (record o { base_slot = base; slot_count = count; state = ObjectState.valid_multi_tier }) d
        (ground (arith, c)) h

  warm_into-AllCounted :
      KeepsCounted io.while_reading
      → (o : Object) (base count : ℕ) (d : Daemon) → AllCounted d
      → counted req.object_id o ≡ true
      → AllCounted (warm_into io req o base count d).0
  unfolding warm_into free_slots
  warm_into-AllCounted k o base count d h c =
      let bound =
        on_run (warm_slot req o (pid_of (find req.rank_id d.sessions)) d.clock) base count d in
      let back : AllCounted (io.while_reading bound) = k bound h in
      let o1 = current o (find_object (io.while_reading bound) req.object_id) in
      let c1 : counted req.object_id o1 ≡ true =
        current-counted o (io.while_reading bound) back c in
      let d2 = warm_object req o1 base count (io.while_reading bound) in
      let warmed : AllCounted d2 =
        warm_object-AllCounted o1 base count (io.while_reading bound) back c1 in
      let o2 = current o1 (find_object d2 req.object_id) in
      elim (Bool-cases io.read_ok) [
        | inr failed ↦ rw (failed, warm_into) back
        | inl done ↦
            rw (done, warm_into)
              (serve-AllCounted (current o (find_object d2 req.object_id)) req.object_id base d2
                warmed (current-counted o d2 warmed c))
      ]

  restore_cold-AllCounted :
      KeepsCounted io.while_reading
      → ((i : ℕ) → KeepsCounted (io.drains i).meanwhile)
      → (o : Object) (c : Option ColdEntry) (d : Daemon) → AllCounted d
      → counted req.object_id o ≡ true
      → AllCounted (restore_cold io req o c d).0
  unfolding restore_cold
  restore_cold-AllCounted k drains o none d h p j = h j
  restore_cold-AllCounted k drains o (some c) d h p j =
      let (found, d') =
        allocate_or_drain max_attempts io.drains req.gpu_id req.numa_node o.nbytes
          flag_allow_overflow d in
      let kept : AllCounted d' =
        allocate_or_drain-AllCounted max_attempts io.drains req.gpu_id req.numa_node o.nbytes
          flag_allow_overflow d drains h in
      elim (Option-cases found) [
        | inl full ↦ ground (arith, full, kept j)
        | inr (base, room) ↦
            ground
              (arith, room, warm_into-AllCounted k o base (slots_for_bytes d o.nbytes) d' kept p j)
      ]

  pub restore-AllCounted :
      KeepsCounted io.while_reading
      → ((i : ℕ) → KeepsCounted (io.drains i).meanwhile)
      → (d : Daemon) → AllCounted d
      → AllCounted (handle_request_canonical_restore io req d).0
  unfolding handle_request_canonical_restore restore_at
  restore-AllCounted k drains d h j = elim (Option-cases (find_object d req.object_id)) [
    | inl gone ↦ ground (arith, h j)
    | inr (o, there) ↦ elim (Option-cases (find (canonical_tid req.object_id) d.locations)) [
      | inl lost ↦ ground (arith, h j, there, lost)
      | inr (loc, located) ↦
          let c : counted req.object_id o ≡ true = found-counted d req.object_id h there in
          ground (
            arith,
            h j,
            there,
            located,
            serve-AllCounted o req.object_id loc.slot_id d h c j,
            restore_cold-AllCounted k drains o (cold_at d loc.cold_ref) d h c j,
          )
    ]
  ]

pub release_restore-AllCounted :
    (rank epoch id : ℕ) (d : Daemon)
    → AllCounted d
    → AllCounted (handle_release_canonical_restore rank epoch id d).0
unfolding handle_release_canonical_restore
release_restore-AllCounted rank epoch id d h j = elim (Option-cases (find_object d id)) [
  | inl missing ↦ ground (arith, h j, missing)
  | inr (o, there) ↦
      let o' = record o { restore_refcount = o.restore_refcount - 1 } in
      let kept : AllCounted (put_object o' d) =
        put_found-AllCounted id (λ p. record p { restore_refcount = p.restore_refcount - 1 }) o d h
          there (refl, refl, refl) in
      ground (arith, h j, there, maybe_free-AllCounted o' (put_object o' d) kept j)
]
