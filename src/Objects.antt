-- ===== src/Objects.antt =====
-- src/daemon/canonical.cpp: canonical objects, who holds them, and their release.
pub mod Holders
pub mod Releases
use state_spectre.Prelude.{
  ℕ, zero, suc, ◌+◌, ◌-◌, ◌*◌, Bool, true, false, ◌&&◌, ◌||◌, not, Option, none, some, List, [],
  ◌∷◌, ◌++◌, ltb, leb, ◌==◌, if◌then◌else◌, nat_eq, list_eq, length, mem, add_elem, remove_elem,
}
use state_spectre.Prelude.Table.{Table, find, insert, erase}
use state_spectre.State.{
  Daemon, Location, JobUid, JobRecord, TensorKey, Object, job_uid_Eq, job_uid_eq, inc,
  canonical_objects_dropped, epoch_mismatch_rejected, is_pinned, is_pinned_valid,
}
use state_spectre.Slots.{slot_state, free_slots}
use state_spectre.Leases.{epoch_valid}
use state_spectre.Replies.{Reply, ok, err, store_disabled, epoch_invalid, job_not_registered}

abbrev pub no_slot : ℕ
no_slot = 0xFFFFFFFF

abbrev pub find_object : Daemon → ℕ → Option Object
find_object d object_id = find object_id d.objects

abbrev pub find_job : Daemon → JobUid → Option JobRecord
find_job d uid = find uid d.jobs

abbrev pub put_object : Object → Daemon → Daemon
put_object o d = record d { objects = insert o.object_id o d.objects }

-- an export or a local restore is in flight
abbrev pub in_transfer : Object → Bool
in_transfer o = ltb 0 o.export_refcount || ltb 0 o.restore_refcount

-- the bytes, wherever the location table says that they are
unfoldable pub free_backing : Object → Option Location → Daemon → Daemon
free_backing o none d = d
free_backing o (some loc) d =
    let freed =
      if is_pinned loc.kind && not (o.base_slot == no_slot)
      then (if is_pinned_valid (slot_state d o.base_slot)
          then free_slots o.base_slot o.slot_count d
          else d)
      else if loc.cold_ref == 0
      then d
      else record d { cold_store = erase loc.cold_ref d.cold_store } in
    record freed { locations = erase o.synthetic_tid freed.locations }

abbrev less_if_le : ℕ → ℕ → ℕ
less_if_le a b = if leb b a then a - b else a

-- what the job is charged
unfoldable pub uncharge : Object → Option JobRecord → Daemon → Daemon
uncharge o none d = d
uncharge o (some j) d = record d {
  jobs =
      insert o.key.job
        (record j {
          pinned_bytes = less_if_le j.pinned_bytes o.nbytes;
          canonical_object_count = j.canonical_object_count - 1;
        })
        d.jobs;
}

-- whether it was released, and the daemon after
unfoldable pub release_object : Object → Daemon → Bool × Daemon
unfolding free_backing uncharge
release_object o d =
    if in_transfer o
    then (false, d)
    else (let freed = free_backing o (find o.synthetic_tid d.locations) d in
        let unbound = record freed {
          leases = erase o.lease_id freed.leases;
          object_by_key = erase o.key_str freed.object_by_key;
        } in
        let paid = uncharge o (find o.key.job unbound.jobs) unbound in
        (
          true,
          inc canonical_objects_dropped (record paid { objects = erase o.object_id paid.objects }),
        ))

abbrev is_nil : List ℕ → Bool
is_nil [] = true
is_nil (x ∷ xs) = false

unfoldable pub maybe_free_object : Object → Daemon → Bool × Daemon
maybe_free_object o d =
    if is_nil o.holders && not (in_transfer o) then release_object o d else (false, d)

abbrev pub with_holders : List ℕ → Object → Object
with_holders hs o = record o { holders = hs; refcount = length hs }

-- the first loop of purge_rank_from_canonical: every object without the rank
unfoldable pub drop_holder : ℕ → Table ℕ Object → Table ℕ Object
drop_holder rank [] = []
drop_holder rank ((id, o) ∷ m) =
    (id, if mem rank o.holders then with_holders (remove_elem rank o.holders) o else o)
    ∷ drop_holder rank m

-- the ids of the objects that the rank held
unfoldable pub held_by : ℕ → Table ℕ Object → List ℕ
held_by rank [] = []
held_by rank ((id, o) ∷ m) =
    let rest = held_by rank m in if mem rank o.holders then id ∷ rest else rest

unfoldable pub free_if_unheld : Option Object → Daemon → Daemon
free_if_unheld none d = d
free_if_unheld (some o) d = (maybe_free_object o d).1

unfoldable pub free_unheld : List ℕ → Daemon → Daemon
free_unheld [] d = d
free_unheld (id ∷ ids) d = free_unheld ids (free_if_unheld (find_object d id) d)

unfoldable pub purge_rank_from_canonical : ℕ → Daemon → Daemon
purge_rank_from_canonical rank d =
    free_unheld (held_by rank d.objects) (record d { objects = drop_holder rank d.objects })

-- an object of (job, role, version)
abbrev pub of_version : JobUid → ℕ → ℕ → Object → Bool
of_version uid role version o =
    job_uid_eq o.key.job uid && (o.key.model_role == role && o.key.model_version == version)

unfoldable pub ids_of_version : JobUid → ℕ → ℕ → Table ℕ Object → List ℕ
ids_of_version uid role version [] = []
ids_of_version uid role version ((id, o) ∷ m) =
    let rest = ids_of_version uid role version m in
    if of_version uid role version o then o.object_id ∷ rest else rest

pub record Released : Type 0 where
  pub released_count : ℕ
  pub freed_count : ℕ
  pub bytes_freed : ℕ

-- one turn of the loop of ReleaseCanonical
unfoldable pub release_hold : ℕ → Option Object → Daemon × Released → Daemon × Released
release_hold rank none (d, r) = (d, r)
release_hold rank (some o) (d, r) =
    if mem rank o.holders
    then (let o' = with_holders (remove_elem rank o.holders) o in
        let (freed, d') = maybe_free_object o' (put_object o' d) in
        (
          d',
          record {
            released_count = r.released_count + 1;
            freed_count = if freed then r.freed_count + 1 else r.freed_count;
            bytes_freed = if freed then r.bytes_freed + o.nbytes else r.bytes_freed;
          },
        ))
    else (d, r)

unfoldable pub release_holds : ℕ → List ℕ → Daemon × Released → Daemon × Released
release_holds rank [] s = s
release_holds rank (id ∷ ids) s = release_holds rank ids (release_hold rank (find_object s.0 id) s)

pub record ReleaseRequest : Type 0 where
  pub rank_id : ℕ
  pub rank_epoch : ℕ
  pub job : JobUid
  pub object_id : ℕ
  pub model_role : ℕ
  pub model_version : ℕ

abbrev pub nothing_released : Released
nothing_released = record { released_count = 0; freed_count = 0; bytes_freed = 0 }

unfoldable pub handle_release_canonical : ReleaseRequest → Daemon → Daemon × Reply Released
handle_release_canonical req d =
    if not d.cfg.v2_enable_canonical_store
    then (d, err store_disabled)
    else if not (epoch_valid d req.rank_id req.rank_epoch)
    then (inc epoch_mismatch_rejected d, err epoch_invalid)
    else elim (find_job d req.job) [
      | none ↦ (d, err job_not_registered)
      | some job ↦
          let ids =
            if req.object_id == 0
            then ids_of_version job.uid req.model_role req.model_version d.objects
            else req.object_id ∷ [] in
          let (d', r) = release_holds req.rank_id ids (d, nothing_released) in (d', ok r)
    ]
