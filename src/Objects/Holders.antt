-- ===== src/Objects/Holders.antt =====
-- src/daemon/canonical.cpp: the bookkeeping of canonical objects under their release.
use state_spectre.Prelude.{
  ℕ, ◌≡◌, refl, inl, inr, Bool, true, false, ◌&&◌, not, Option, none, some, List, [], ◌∷◌, ◌==◌,
  if◌then◌else◌, arith, nat_eq, list_eq, length, mem, add_elem, remove_elem, Bool-cases,
  Option-cases,
}
use state_spectre.Prelude.Table.{Table, find, insert, erase, find-insert, find-erase}
use state_spectre.State.{Daemon, Object, Location, JobRecord, job_uid_Eq}
use state_spectre.Slots.{free_slots}
use state_spectre.Objects.{
  find_object, put_object, in_transfer, free_backing, uncharge, release_object, maybe_free_object,
  with_holders, drop_holder, free_if_unheld, free_unheld, purge_rank_from_canonical, release_hold,
  release_holds, Released, ReleaseRequest, handle_release_canonical, nothing_released,
  ids_of_version, find_job,
}

abbrev pub distinct : List ℕ → Bool
distinct [] = true
distinct (x ∷ xs) = not (mem x xs) && distinct xs

-- An object is under its own id, its holders are a set, and its reference count is their number.
abbrev pub counted : ℕ → Object → Bool
counted id o = o.object_id == id && (distinct o.holders && o.refcount == length o.holders)

abbrev pub counted_at : ℕ → Option Object → Bool
counted_at id none = true
counted_at id (some o) = counted id o

abbrev pub AllCounted : Daemon → Type 0
AllCounted d = (id : ℕ) → counted_at id (find id d.objects) ≡ true

pub same_objects-AllCounted :
    (d d' : Daemon) → d'.objects ≡ d.objects → AllCounted d → AllCounted d'
same_objects-AllCounted d d' e h id = rw e (h id)

pub found-counted :
    (d : Daemon) (id : ℕ) {o : Object}
    → AllCounted d
    → find id d.objects ≡ some o
    → counted id o ≡ true
found-counted d id {o} h e = ground (arith, e, h id)

pub insert-AllCounted :
    (id : ℕ) (o : Object) (d d' : Daemon)
    → d'.objects ≡ insert id o d.objects
    → counted id o ≡ true
    → AllCounted d
    → AllCounted d'
insert-AllCounted id o d d' e c h j = ground (arith, e, find-insert id j o d.objects, h j)

pub put-AllCounted :
    (o : Object) (d : Daemon)
    → counted o.object_id o ≡ true
    → AllCounted d
    → AllCounted (put_object o d)
put-AllCounted o d c h = insert-AllCounted o.object_id o d (put_object o d) refl c h

pub erase-AllCounted :
    (id : ℕ) (d d' : Daemon) → d'.objects ≡ erase id d.objects → AllCounted d → AllCounted d'
erase-AllCounted id d d' e h j = ground (arith, e, find-erase id j d.objects, h j)

pub mem-remove :
    (a b : ℕ) (xs : List ℕ) → mem a (remove_elem b xs) ≡ (if a == b then false else mem a xs)
mem-remove a b [] = ground arith
mem-remove a b (x ∷ xs) = ground (arith, mem-remove a b xs)

pub distinct-remove :
    (a : ℕ) (xs : List ℕ) → distinct xs ≡ true → distinct (remove_elem a xs) ≡ true
distinct-remove a [] h = refl
distinct-remove a (x ∷ xs) h = ground (arith, distinct-remove a xs, mem-remove x a xs)

pub distinct-add : (a : ℕ) (xs : List ℕ) → distinct xs ≡ true → distinct (add_elem a xs) ≡ true
distinct-add a xs h = ground arith

pub with_holders-counted :
    (id : ℕ) (hs : List ℕ) (o : Object)
    → counted id o ≡ true
    → distinct hs ≡ true
    → counted id (with_holders hs o) ≡ true
with_holders-counted id hs o c h = ground arith

objects-free_backing :
    (o : Object) (l : Option Location) (d : Daemon) → (free_backing o l d).objects ≡ d.objects
unfolding free_backing free_slots
objects-free_backing o none d = refl
objects-free_backing o (some l) d = ground arith

objects-uncharge :
    (o : Object) (j : Option JobRecord) (d : Daemon) → (uncharge o j d).objects ≡ d.objects
unfolding uncharge
objects-uncharge o none d = refl
objects-uncharge o (some j) d = refl

-- A release takes the object out of the table, or is refused and changes nothing.
pub objects-release :
    (o : Object) (d : Daemon)
    → (release_object o d).1.objects
      ≡ (if in_transfer o then d.objects else erase o.object_id d.objects)
unfolding release_object
objects-release o d = elim (Bool-cases (in_transfer o)) [
  | inl busy ↦ ground arith
  | inr idle ↦
      let freed = free_backing o (find o.synthetic_tid d.locations) d in
      let unbound = record freed {
        leases = erase o.lease_id freed.leases;
        object_by_key = erase o.key_str freed.object_by_key;
      } in
      ground (
        arith,
        objects-free_backing o (find o.synthetic_tid d.locations) d,
        objects-uncharge o (find o.key.job unbound.jobs) unbound,
      )
]

pub release-AllCounted :
    (o : Object) (d : Daemon) → AllCounted d → AllCounted (release_object o d).1
release-AllCounted o d h j =
    ground (arith, objects-release o d, find-erase o.object_id j d.objects, h j)

pub maybe_free-AllCounted :
    (o : Object) (d : Daemon) → AllCounted d → AllCounted (maybe_free_object o d).1
unfolding maybe_free_object
maybe_free-AllCounted o d h j = ground (arith, release-AllCounted o d h j, h j)

abbrev dropped_from : ℕ → Option Object → Option Object
dropped_from rank none = none
dropped_from rank (some o) =
    some (if mem rank o.holders then with_holders (remove_elem rank o.holders) o else o)

pub find-drop_holder :
    (rank id : ℕ) (m : Table ℕ Object)
    → find id (drop_holder rank m) ≡ dropped_from rank (find id m)
unfolding find drop_holder
find-drop_holder rank id [] = refl
find-drop_holder rank id ((j, o) ∷ m) = ground (arith, find-drop_holder rank id m)

free_unheld-AllCounted : (ids : List ℕ) (d : Daemon) → AllCounted d → AllCounted (free_unheld ids d)
unfolding free_unheld free_if_unheld
free_unheld-AllCounted [] d h = h
free_unheld-AllCounted (id ∷ ids) d h = elim (Option-cases (find_object d id)) [
  | inl missing ↦ rw (missing, free_unheld, free_if_unheld) (free_unheld-AllCounted ids d h)
  | inr (o, there) ↦
      rw (there, free_unheld, free_if_unheld)
        (free_unheld-AllCounted ids _ (maybe_free-AllCounted o d h))
]

pub purge-AllCounted :
    (rank : ℕ) (d : Daemon) → AllCounted d → AllCounted (purge_rank_from_canonical rank d)
unfolding purge_rank_from_canonical
purge-AllCounted rank d h =
    free_unheld-AllCounted _ (record d { objects = drop_holder rank d.objects }) cut
  where
    cut : AllCounted (record d { objects = drop_holder rank d.objects })
    cut j = elim (Option-cases (find j d.objects)) [
      | inl missing ↦ ground (arith, find-drop_holder rank j d.objects)
      | inr (o, there) ↦ ground (
        arith,
        find-drop_holder rank j d.objects,
        found-counted d j h there,
        distinct-remove rank o.holders,
      )
    ]

release_hold-AllCounted :
    (rank id : ℕ) (s : Daemon × Released)
    → AllCounted s.0
    → AllCounted (release_hold rank (find_object s.0 id) s).0
unfolding release_hold
release_hold-AllCounted rank id (d, r) h = elim (Option-cases (find_object d id)) [
  | inl missing ↦ rw (missing, release_hold) h
  | inr (o, there) ↦ elim (Bool-cases (mem rank o.holders)) [
    | inr other ↦ rw (there, other, release_hold) h
    | inl held ↦
        let o' = with_holders (remove_elem rank o.holders) o in
        rw (there, held, release_hold)
          (maybe_free-AllCounted o' (put_object o' d) (
            put-AllCounted o' d
              (ground (arith, found-counted d id h there, distinct-remove rank o.holders)) h))
  ]
]

release_holds-AllCounted :
    (rank : ℕ) (ids : List ℕ) (s : Daemon × Released)
    → AllCounted s.0
    → AllCounted (release_holds rank ids s).0
unfolding release_holds
release_holds-AllCounted rank [] s h = h
release_holds-AllCounted rank (id ∷ ids) s h =
    release_holds-AllCounted rank ids _ (release_hold-AllCounted rank id s h)

pub release_canonical-AllCounted :
    (req : ReleaseRequest) (d : Daemon)
    → AllCounted d
    → AllCounted (handle_release_canonical req d).0
unfolding handle_release_canonical
release_canonical-AllCounted req d h j = elim (Option-cases (find_job d req.job)) [
  | inl missing ↦ ground (arith, h j)
  | inr (job, there) ↦
      let ids =
        if req.object_id == 0
        then ids_of_version job.uid req.model_role req.model_version d.objects
        else req.object_id ∷ [] in
      ground (arith, h j, release_holds-AllCounted req.rank_id ids (d, nothing_released) h j)
]
