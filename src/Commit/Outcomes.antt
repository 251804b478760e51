-- ===== src/Commit/Outcomes.antt =====
-- src/daemon/canonical.cpp: who wins a commit, and what happens to a candidate.
use state_spectre.Prelude.{
  ℕ, ◌≡◌, refl, inl, inr, Bool, true, false, ◌&&◌, not, Option, none, some, ◌==◌, if◌then◌else◌,
  arith, nat_eq, add_elem, Bool-cases, Option-cases,
}
use state_spectre.Prelude.Table.{find, find-insert, find-erase}
use state_spectre.State.{
  Daemon, Object, Location, Lease, job_uid_Eq, is_gone, is_creating, is_attachable, is_readable,
}
use state_spectre.Slots.{free_slots}
use state_spectre.Leases.{find_lease}
use state_spectre.Objects.{find_object, with_holders}
use state_spectre.Objects.Releases.{holds}
use state_spectre.Commit.{
  CommitRequest, won, attached, commit_creator, committed_object, discard_candidate, hashes_agree,
  commit_candidate, handle_commit_canonical_object,
}
use state_spectre.Replies.{ok}

-- the bytes are somewhere
abbrev pub live : Option Location → Bool
live none = false
live (some loc) = not (is_gone loc.kind)

abbrev pub creates : CommitRequest → Object → Bool
creates req o = is_creating o.state && o.lease_id == req.lease_id

tables-discard :
    (lease_id : ℕ) (o : Object) (l : Option Lease) (d : Daemon)
    → (discard_candidate lease_id o l d).objects ≡ d.objects
unfolding discard_candidate free_slots
tables-discard lease_id o none d = refl
tables-discard lease_id o (some l) d = ground arith

gone-discard :
    (lease_id : ℕ) (o : Object) (l : Lease) (d : Daemon)
    → (find lease_id (discard_candidate lease_id o (some l) d).leases ≡ none)
      × (find l.tensor_id (discard_candidate lease_id o (some l) d).locations ≡ none)
unfolding discard_candidate free_slots
gone-discard lease_id o l d = (
  ground (arith, find-erase lease_id lease_id d.leases),
  ground (arith, find-erase l.tensor_id l.tensor_id d.locations),
)

-- The answer "won" goes only to a commit under the creator's lease of a CREATING object whose bytes
-- the location table knows, and it makes the object readable with the hash of the request and leaves
-- its holders.
pub commit-won :
    (req : CommitRequest) (d : Daemon) {o : Object}
    → find_object d req.object_id ≡ some o
    → o.object_id ≡ req.object_id
    → (handle_commit_canonical_object req d).1 ≡ ok won
    → (creates req o ≡ true)
      × (live (find o.synthetic_tid d.locations) ≡ true)
      × ((o' : Object) × (find_object (handle_commit_canonical_object req d).0 req.object_id
            ≡ some o')
          × (is_readable o'.state ≡ true)
          × (o'.content_hash_lo ≡ req.content_hash_lo)
          × (o'.content_hash_hi ≡ req.content_hash_hi)
          × (o'.holders ≡ o.holders))
unfolding handle_commit_canonical_object commit_creator commit_candidate
commit-won req d {o} there own h = elim (Bool-cases (creates req o)) [
  | inr other ↦ absurd (ground (arith, there))
  | inl first ↦ elim (Option-cases (find o.synthetic_tid d.locations)) [
    | inl lost ↦ absurd (ground (arith, there, lost))
    | inr (loc, located) ↦
        let o' = committed_object d req loc o in
        (
          first,
          ground (arith, there, located),
          (
            o',
            ground (arith, there, located, find-insert o.object_id req.object_id o' d.objects),
            ground arith,
            refl,
            refl,
            refl,
          ),
        )
  ]
]

-- A candidate's commit, whatever its answer, takes back the lease that it names and the location of
-- that lease's tensor. It makes the rank a holder if the object is attachable and no two hashes
-- differ; otherwise the objects are as they were.
pub commit-candidate :
    (req : CommitRequest) (o : Object) (l : Lease) (d : Daemon)
    → find_lease d req.lease_id ≡ some l
    → let (d', r) = commit_candidate req o d in
      let attaches = is_attachable o.state && hashes_agree req o in
      (find_lease d' req.lease_id ≡ none)
      × (find l.tensor_id d'.locations ≡ none)
      × (r ≡ (if attaches then ok attached else r))
      × (holds req.rank_id (find_object d' o.object_id)
          ≡ (if attaches then true else holds req.rank_id (find_object d o.object_id)))
      × (d'.objects ≡ (if attaches then d'.objects else d.objects))
unfolding commit_candidate
commit-candidate req o l d bound =
    let o' = record (with_holders (add_elem req.rank_id o.holders) o) {
      last_access_ns = d.clock;
    } in
    let d1 = discard_candidate req.lease_id o (some l) d in
    let same = tables-discard req.lease_id o (some l) d in
    let (lease, loc) = gone-discard req.lease_id o l d in
    (
      ground (arith, bound, lease),
      ground (arith, bound, loc),
      ground (arith, bound),
      ground (arith, bound, same, find-insert o.object_id o.object_id o' d1.objects),
      ground (arith, bound, same),
    )
