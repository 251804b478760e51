-- ===== src/Catalog/Producers.antt =====
-- src/daemon/canonical.cpp: RequestCanonicalEvict and CommitCanonicalObject, and the bookkeeping of
-- canonical objects.
use state_spectre.Prelude.{
  ℕ, suc, ◌≡◌, refl, inl, inr, true, Option, none, some, List, arith, nat_eq, list_eq, add_elem,
  Option-cases,
}
use state_spectre.Prelude.Table.{find}
use state_spectre.State.{
  Daemon, Lease, JobRecord, Object, job_uid_Eq, version_key_Eq, canonical_tid, flag_destructive,
}
use state_spectre.Slots.{free_slots, slots_for_bytes}
use state_spectre.Leases.{find_lease}
use state_spectre.Drain.{DrainIo, allocate_or_drain, max_attempts}
use state_spectre.Offload.{reserve_run}
use state_spectre.Keys.{canonical_key_string}
use state_spectre.Objects.{find_object, find_job, with_holders}
use state_spectre.Objects.Holders.{
  counted, AllCounted, found-counted, put-AllCounted, insert-AllCounted, same_objects-AllCounted,
  distinct-add,
}
use state_spectre.Evict.{
  EvictRequest, RegisterRequest, handle_register_job, place_canonical, reserve, candidate_tid,
  hand_out_candidate, attach_existing, attach_creating, new_object, enter_object, create_object,
  attach_or_create, handle_request_canonical_evict,
}
use state_spectre.Commit.{
  CommitRequest, committed_object, commit_creator, discard_candidate, commit_candidate,
  handle_commit_canonical_object,
}
use state_spectre.Catalog.{KeepsCounted, allocate_or_drain-AllCounted}

pub register_job-AllCounted :
    (req : RegisterRequest) (d : Daemon) → AllCounted d → AllCounted (handle_register_job req d).0
unfolding handle_register_job
register_job-AllCounted req d h j = ground (arith, h j)

objects-place :
    (req : EvictRequest) (tid count : ℕ) (o : Option ℕ) (d : Daemon)
    → (place_canonical req tid count o d).1.objects ≡ d.objects
unfolding place_canonical reserve_run
objects-place req tid count none d = refl
objects-place req tid count (some b) d = ground arith

module _ (io : ℕ → DrainIo) (req : EvictRequest) (k : (i : ℕ) → KeepsCounted (io i).meanwhile) where
  reserve-AllCounted :
      (job : JobRecord) (tid : ℕ) (d : Daemon)
      → AllCounted d
      → AllCounted (reserve io req job tid d).1
  unfolding reserve
  reserve-AllCounted job tid d h j =
      let (found, d') =
        allocate_or_drain max_attempts io req.gpu_id req.numa_node req.key.nbytes flag_destructive
          d in
      ground (
        arith,
        h j,
        allocate_or_drain-AllCounted max_attempts io req.gpu_id req.numa_node req.key.nbytes
            flag_destructive d k h j,
        objects-place req tid (slots_for_bytes d req.key.nbytes) found d',
      )

  candidate-AllCounted :
      (job : JobRecord) (id : ℕ) (d : Daemon)
      → AllCounted d
      → AllCounted (hand_out_candidate io req job id d).0
  unfolding hand_out_candidate
  candidate-AllCounted job id d h j = ground (
    arith,
    reserve-AllCounted job (candidate_tid d.next_object_id)
        (record d { next_object_id = suc d.next_object_id }) h j,
  )

  create-AllCounted :
      (job : JobRecord) (key_str : List ℕ) (d : Daemon)
      → AllCounted d
      → AllCounted (create_object io req job key_str d).0
  unfolding create_object
  create-AllCounted job key_str d h j =
      let numbered = record d { next_object_id = suc d.next_object_id } in
      let (got, d') = reserve io req job (canonical_tid d.next_object_id) numbered in
      let kept : AllCounted d' =
        reserve-AllCounted job (canonical_tid d.next_object_id) numbered h in
      elim (Option-cases got) [
        | inl nothing ↦ ground (arith, h j, kept j, nothing)
        | inr (g, reserved) ↦
            let o =
              new_object d' req d.next_object_id key_str g (slots_for_bytes d' req.key.nbytes) in
            ground (
              arith,
              h j,
              reserved,
              insert-AllCounted d.next_object_id o d' (enter_object o d')
                  (unfold enter_object in refl) (ground arith) kept j,
            )
      ]

  attach-AllCounted :
      (job : JobRecord) (key_str : List ℕ) (o : Object) (id : ℕ) (d : Daemon)
      → AllCounted d
      → find id d.objects ≡ some o
      → AllCounted (attach_or_create io req job key_str (some o) d).0
  unfolding attach_or_create attach_existing attach_creating
  attach-AllCounted job key_str o id d h there j =
      let o' = record (with_holders (add_elem req.rank_id o.holders) o) {
        last_access_ns = d.clock;
      } in
      let c : counted id o ≡ true = found-counted d id h there in
      ground (
        arith,
        h j,
        candidate-AllCounted job o.object_id d h j,
        create-AllCounted job key_str d h j,
        put-AllCounted o' d (ground (arith, c, distinct-add req.rank_id o.holders)) h j,
      )

  pub evict-AllCounted :
      (d : Daemon) → AllCounted d → AllCounted (handle_request_canonical_evict io req d).0
  unfolding handle_request_canonical_evict attach_or_create
  evict-AllCounted d h j = elim (Option-cases (find_job d req.key.job)) [
    | inl missing ↦ ground (arith, h j)
    | inr (job, known) ↦ elim (Option-cases (find (canonical_key_string req.key) d.object_by_key)) [
      | inl fresh ↦
          ground (arith, h j, known, create-AllCounted job (canonical_key_string req.key) d h j)
      | inr (id, keyed) ↦ elim (Option-cases (find_object d id)) [
        | inl gone ↦
            ground
              (arith, h j, known, keyed, create-AllCounted job (canonical_key_string req.key) d h j)
        | inr (o, there) ↦ ground (
          arith,
          h j,
          known,
          keyed,
          attach-AllCounted job (canonical_key_string req.key) o id d h there j,
        )
      ]
    ]
  ]

objects-discard :
    (lease_id : ℕ) (o : Object) (l : Option Lease) (d : Daemon)
    → (discard_candidate lease_id o l d).objects ≡ d.objects
unfolding discard_candidate free_slots
objects-discard lease_id o none d = refl
objects-discard lease_id o (some l) d = ground arith

pub commit-AllCounted :
    (req : CommitRequest) (d : Daemon)
    → AllCounted d
    → AllCounted (handle_commit_canonical_object req d).0
unfolding handle_commit_canonical_object commit_creator commit_candidate
commit-AllCounted req d h j = elim (Option-cases (find_object d req.object_id)) [
  | inl missing ↦ ground (arith, h j)
  | inr (o, there) ↦
      let c : counted req.object_id o ≡ true = found-counted d req.object_id h there in
      let o' = record (with_holders (add_elem req.rank_id o.holders) o) {
        last_access_ns = d.clock;
      } in
      let d' = discard_candidate req.lease_id o (find_lease d req.lease_id) d in
      let kept : AllCounted d' =
        same_objects-AllCounted d d' (objects-discard req.lease_id o (find_lease d req.lease_id) d)
          h in
      let attached =
        put-AllCounted o' d' (ground (arith, c, distinct-add req.rank_id o.holders)) kept j in
      elim (Option-cases (find o.synthetic_tid d.locations)) [
        | inl lost ↦ ground (arith, h j, kept j, attached, there, lost)
        | inr (loc, here) ↦ ground (
          arith,
          h j,
          kept j,
          attached,
          there,
          here,
          put-AllCounted (committed_object d req loc o) d (ground (arith, c)) h j,
        )
      ]
]
