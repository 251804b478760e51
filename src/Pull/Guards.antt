-- ===== src/Pull/Guards.antt =====
-- src/daemon/canonical_rollout.cpp: what a rollout engine may read, and what an export leaves behind.
use state_spectre.Prelude.{
  ℕ, suc, ◌≡◌, ◌⊎◌, refl, sym, inl, inr, Bool, true, false, ◌&&◌, not, Option, none, some, ◌==◌,
  arith, nat_eq, length, mem, Bool-cases, Option-cases,
}
use state_spectre.Prelude.Table.{find, find-insert}
use state_spectre.State.{
  Daemon, Object, ObjectState, JobUid, JobRecord, Manifest, job_uid_Eq, version_key_Eq, is_sealed,
  is_sealed_object, export_staging_bytes, rollout_stale_manifest_reject, add, inc,
}
use state_spectre.Objects.{find_object, find_job, maybe_free_object}
use state_spectre.Retention.{version_key}
use state_spectre.Pull.{
  PullIo, PullRequest, stage_object_for_export, begin_export, undo_export, undone_object,
  end_object, end_held, free_ended, end_export, send_object, export_object, pull_member,
  pull_sealed, handle_pull_tensor,
}
use state_spectre.Replies.{Reply, ok, err, is_ok}

-- the manifest is there and sealed, and it names the object
abbrev pub sealed_member : ℕ → Option Manifest → Bool
sealed_member id none = false
sealed_member id (some man) = is_sealed man.state && mem id man.object_ids

abbrev pub object_sealed : Option Object → Bool
object_sealed none = false
object_sealed (some o) = is_sealed_object o.state

abbrev pub size_of : Option Object → ℕ
size_of none = 0
size_of (some o) = o.nbytes

abbrev pub manifest_for : Daemon → PullRequest → Option JobRecord → Option Manifest
manifest_for d req none = none
manifest_for d req (some job) =
    find (version_key job.uid req.model_role req.model_version) d.manifests

-- An answer that bytes went out is for a SEALED object that a sealed manifest of the requested
-- version names.
pub pull-ok :
    (io : PullIo) (req : PullRequest) (d : Daemon) {n : ℕ}
    → (handle_pull_tensor io req d).1 ≡ ok n
    → (d.cfg.v2_enable_canonical_store ≡ true)
      × (d.cfg.v2_enable_rollout_export ≡ true)
      × (sealed_member req.object_id (manifest_for d req (find_job d req.job)) ≡ true)
      × (object_sealed (find_object d req.object_id) ≡ true)
      × (size_of (find_object d req.object_id) ≡ n)
unfolding handle_pull_tensor pull_sealed pull_member export_object send_object
pull-ok io req d {n} h = elim (Option-cases (find_job d req.job)) [
  | inl stranger ↦ absurd (ground (arith, stranger))
  | inr (job, known) ↦
      elim (Option-cases
        (find (version_key job.uid req.model_role req.model_version) d.manifests)) [
          | inl never ↦ absurd (ground (arith, known, never))
          | inr (man, there) ↦ elim (Option-cases (find_object d req.object_id)) [
            | inl missing ↦ absurd (ground (arith, known, there, missing))
            | inr (o, found) ↦ (
              ground (arith, known, there, found),
              ground (arith, known, there, found),
              ground (arith, known, there, found),
              ground (arith, known, there, found),
              ground (arith, known, there, found),
            )
          ]
        ]
]

-- the store and the export are enabled, and the object is a SEALED one that a sealed manifest names
abbrev pub may_export : PullRequest → Daemon → Bool
may_export req d =
    d.cfg.v2_enable_canonical_store
    && (d.cfg.v2_enable_rollout_export
        && (sealed_member req.object_id (manifest_for d req (find_job d req.job))
            && object_sealed (find_object d req.object_id)))

-- an answer, if it is not an error, is this number
abbrev pub answers : ℕ → Reply ℕ → Bool
answers n (ok m) = n == m
answers n (err e) = true

answers_if : (m : ℕ) (r : Reply ℕ) → ((n : ℕ) → r ≡ ok n → m ≡ n) → answers m r ≡ true
answers_if m (ok n) h = ground (arith, h n refl)
answers_if m (err e) h = refl

is_ok_unless : (r : Reply ℕ) → ((n : ℕ) → r ≡ ok n → ⊥) → is_ok r ≡ false
is_ok_unless (ok n) h = absurd (h n refl)
is_ok_unless (err e) h = refl

-- d itself, or with one more stale request counted
abbrev pub Untouched : Daemon → Daemon → Type 0
Untouched d d' = (d' ≡ d) ⊎ (d' ≡ inc rollout_stale_manifest_reject d)

pub barred_if_unsealed :
    (req : PullRequest) (d : Daemon)
    → object_sealed (find_object d req.object_id) ≡ false
    → may_export req d ≡ false
barred_if_unsealed req d h = ground (arith, h)

pub barred-is_ok :
    (io : PullIo) (req : PullRequest) (d : Daemon)
    → may_export req d ≡ false
    → is_ok (handle_pull_tensor io req d).1 ≡ false
barred-is_ok io req d h =
    is_ok_unless _ (λ n e. let f = pull-ok io req d {n = n} e in ground (arith, f))

pub pull-barred :
    (io : PullIo) (req : PullRequest) (d : Daemon)
    → may_export req d ≡ false
    → Untouched d (handle_pull_tensor io req d).0
unfolding handle_pull_tensor pull_sealed pull_member
pull-barred io req d h = elim (Option-cases (find_job d req.job)) [
  | inl stranger ↦ inl (ground (arith, stranger))
  | inr (job, known) ↦
      elim (Option-cases
        (find (version_key job.uid req.model_role req.model_version) d.manifests)) [
          | inl never ↦
              elim (Bool-cases
                (d.cfg.v2_enable_canonical_store && d.cfg.v2_enable_rollout_export)) [
                  | inl on ↦ inr (ground (arith, known, never))
                  | inr off ↦ inl (ground (arith, known, never))
                ]
          | inr (man, there) ↦
              elim (Bool-cases (
                d.cfg.v2_enable_canonical_store
                && (d.cfg.v2_enable_rollout_export && not (is_sealed man.state)))) [
                  | inl unsealed ↦ inr (ground (arith, known, there))
                  | inr other ↦ elim (Option-cases (find_object d req.object_id)) [
                    | inl missing ↦ inl (ground (arith, known, there, missing))
                    | inr (o, found) ↦ inl (ground (arith, known, there, found))
                  ]
                ]
        ]
]

-- Either the store and the export are enabled and the requested object is SEALED and named by a
-- sealed manifest of the requested version, and then an answer that is not an error is its size; or
-- the pull fails and leaves the state as it was, a counter of stale requests apart, whatever the
-- transport and the other threads would have done: then no export begins.
pub pull-sealed_member :
    (io : PullIo) (req : PullRequest) (d : Daemon)
    → ((may_export req d ≡ true)
        × (answers (size_of (find_object d req.object_id)) (handle_pull_tensor io req d).1 ≡ true))
      ⊎ ((may_export req d ≡ false)
          × (is_ok (handle_pull_tensor io req d).1 ≡ false)
          × Untouched d (handle_pull_tensor io req d).0)
pull-sealed_member io req d = elim (Bool-cases (may_export req d)) [
  | inl allowed ↦ inl (
    allowed,
    answers_if (size_of (find_object d req.object_id)) _ (λ n h. (pull-ok io req d {n = n} h).4),
  )
  | inr barred ↦ inr (barred, barred-is_ok io req d barred, pull-barred io req d barred)
]

-- Another thread that leaves the objects alone.
abbrev pub SameObjects : (Daemon → Daemon) → Type 0
SameObjects f = (d : Daemon) → (f d).objects ≡ d.objects

objects-stage :
    (io : PullIo) (o : Object) (d : Daemon)
    → SameObjects io.while_reading
    → (stage_object_for_export io o d).1.objects ≡ d.objects
unfolding stage_object_for_export
objects-stage io o d same = elim (Option-cases (find o.synthetic_tid d.locations)) [
  | inl missing ↦ ground (arith, missing)
  | inr (loc, there) ↦ elim (Option-cases (find loc.cold_ref d.cold_store)) [
    | inl lost ↦ ground (arith, there, lost)
    | inr (c, cold) ↦ ground (arith, there, cold, same d)
  ]
]

kept-maybe_free :
    (o : Object) (d : Daemon) → (length o.holders == 0) ≡ false → (maybe_free_object o d).1 ≡ d
unfolding maybe_free_object
kept-maybe_free o d held = ground arith

taken : Object → Object
taken o = record o { export_refcount = suc o.export_refcount; state = ObjectState.export_in_flight }

find-free_ended :
    (o : Object) (d : Daemon)
    → find_object d o.object_id ≡ some o
    → (length o.holders == 0) ≡ false
    → find_object (free_ended (find_object d o.object_id) d) o.object_id ≡ some o
find-free_ended o d there held = rw (there, free_ended, kept-maybe_free o d held) there

find-end_held :
    (o : Object) (d : Daemon)
    → find_object d o.object_id ≡ some (taken o)
    → o.export_refcount ≡ 0
    → find_object (end_held o.state (find_object d o.object_id) d) o.object_id ≡ some o
unfolding taken
find-end_held o d there idle =
    ground
      (arith, there, find-insert o.object_id o.object_id (end_object o.state (taken o)) d.objects)

find-end_export :
    (uid : JobUid) (o : Object) (d : Daemon)
    → find_object d o.object_id ≡ some (taken o)
    → o.export_refcount ≡ 0
    → (length o.holders == 0) ≡ false
    → find_object (end_export uid o.object_id o.nbytes o.state d) o.object_id ≡ some o
unfolding end_export
find-end_export uid o d there idle held = find-free_ended o _ (find-end_held o d there idle) held

find-undo :
    (o : Object) (d : Daemon)
    → find_object d o.object_id ≡ some (taken o)
    → o.export_refcount ≡ 0
    → find_object (undo_export o.state (find_object d o.object_id) d) o.object_id ≡ some o
unfolding taken
find-undo o d there idle =
    ground (
      arith,
      there,
      find-insert o.object_id o.object_id (undone_object o.state (taken o)) d.objects,
    )

-- A pull, sent or failed at any stage, leaves an object that some rank holds exactly as it was, its
-- state and its export count included, if no export of it was in flight and the other threads leave
-- the objects alone.
pub pull-leaves :
    (io : PullIo) (req : PullRequest) (uid : JobUid) (o : Object) (d : Daemon)
    → SameObjects io.while_reading
    → SameObjects io.while_sending
    → find_object d req.object_id ≡ some o
    → o.object_id ≡ req.object_id
    → o.export_refcount ≡ 0
    → (length o.holders == 0) ≡ false
    → find_object (export_object io req uid o d).0 req.object_id ≡ some o
unfolding export_object send_object begin_export taken
pull-leaves io req uid o d reading sending there own idle held =
    let d1 = begin_export uid o d in
    let d2 = (stage_object_for_export io (taken o) d1).1 in
    let staged = (stage_object_for_export io (taken o) d1).0 in
    let d3 = io.while_sending (add export_staging_bytes o.nbytes d2) in
    let begun : find_object d1 o.object_id ≡ some (taken o) =
      ground (arith, find-insert o.object_id o.object_id (taken o) d.objects) in
    let read : find_object d2 o.object_id ≡ some (taken o) =
      rw (objects-stage io (taken o) d1 reading) begun in
    let sent : find_object d3 o.object_id ≡ some (taken o) =
      rw (sending (add export_staging_bytes o.nbytes d2)) read in
    let undone = find-undo o d2 read idle in
    let ended = find-end_export req.job o d3 sent idle held in
    rw (sym own) (elim (Bool-cases staged) [
      | inl yes_staged ↦ ground (arith, own, read, undone, ended)
      | inr not_staged ↦ ground (arith, own, read, undone, ended)
    ])
