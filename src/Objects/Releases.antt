-- ===== src/Objects/Releases.antt =====
-- src/daemon/canonical.cpp: what a release takes away and what it leaves.
use state_spectre.Prelude.{
  ℕ, ◌+◌, ◌≡◌, refl, inl, inr, Bool, true, false, ◌&&◌, not, Option, none, some, List, [], ◌∷◌,
  ◌==◌, if◌then◌else◌, arith, nat_eq, list_eq, length, mem, remove_elem, Option-cases, List-cases,
}
use state_spectre.Prelude.Table.{find, erase, find-insert, find-erase}
use state_spectre.State.{Daemon, Object, Location, JobRecord, job_uid_Eq}
use state_spectre.Slots.{free_slots}
use state_spectre.Objects.{
  find_object, put_object, in_transfer, free_backing, uncharge, release_object, maybe_free_object,
  with_holders, drop_holder, held_by, free_if_unheld, free_unheld, purge_rank_from_canonical,
  release_hold, Released,
}
use state_spectre.Objects.Holders.{objects-release, find-drop_holder, mem-remove}

-- whether the rank is a holder of the object
abbrev pub holds : ℕ → Option Object → Bool
holds rank none = false
holds rank (some o) = mem rank o.holders

abbrev pub transferring : Option Object → Bool
transferring none = false
transferring (some o) = in_transfer o

keyed-free_backing :
    (o : Object) (l : Option Location) (d : Daemon)
    → ((free_backing o l d).leases ≡ d.leases)
      × ((free_backing o l d).object_by_key ≡ d.object_by_key)
unfolding free_backing free_slots
keyed-free_backing o none d = (refl, refl)
keyed-free_backing o (some l) d = (ground arith, ground arith)

keyed-uncharge :
    (o : Object) (j : Option JobRecord) (d : Daemon)
    → ((uncharge o j d).leases ≡ d.leases) × ((uncharge o j d).object_by_key ≡ d.object_by_key)
unfolding uncharge
keyed-uncharge o none d = (refl, refl)
keyed-uncharge o (some j) d = (refl, refl)

-- An object with an export or a restore in flight is not released and nothing changes. Any other is:
-- neither its id, nor its key, nor its lease is found after it, and every other object, key and
-- lease is as it was.
pub release_object_lem :
    (o : Object) (d : Daemon)
    → let (released, d') = release_object o d in
      (released ≡ not (in_transfer o))
      × (d' ≡ (if in_transfer o then d else d'))
      × ((id : ℕ)
          → find_object d' id
            ≡ (if not (in_transfer o) && o.object_id == id then none else find_object d id))
      × ((id : ℕ)
          → find id d'.leases
            ≡ (if not (in_transfer o) && o.lease_id == id then none else find id d.leases))
      × ((key : List ℕ)
          → find key d'.object_by_key ≡ (
              if not (in_transfer o) && list_eq.beq o.key_str key
              then none
              else find key d.object_by_key))
unfolding release_object
release_object_lem o d =
    let freed = free_backing o (find o.synthetic_tid d.locations) d in
    let unbound = record freed {
      leases = erase o.lease_id freed.leases;
      object_by_key = erase o.key_str freed.object_by_key;
    } in
    let (l1, k1) = keyed-free_backing o (find o.synthetic_tid d.locations) d in
    let (l2, k2) = keyed-uncharge o (find o.key.job unbound.jobs) unbound in
    (
      ground arith,
      ground arith,
      λ id. ground (arith, objects-release o d, find-erase o.object_id id d.objects),
      λ id. ground (arith, l1, l2, find-erase o.lease_id id d.leases),
      λ key. ground (arith, k1, k2, find-erase o.key_str key d.object_by_key),
    )

holds-maybe_free :
    (rank : ℕ) (o : Object) (d : Daemon) (id : ℕ)
    → holds rank (find id d.objects) ≡ false
    → holds rank (find id (maybe_free_object o d).1.objects) ≡ false
unfolding maybe_free_object
holds-maybe_free rank o d id h =
    ground (arith, objects-release o d, find-erase o.object_id id d.objects)

holds-free_unheld :
    (rank : ℕ) (ids : List ℕ) (d : Daemon) (id : ℕ)
    → holds rank (find id d.objects) ≡ false
    → holds rank (find id (free_unheld ids d).objects) ≡ false
unfolding free_unheld free_if_unheld
holds-free_unheld rank [] d id h = h
holds-free_unheld rank (i ∷ ids) d id h = elim (Option-cases (find_object d i)) [
  | inl missing ↦ rw (missing, free_unheld, free_if_unheld) (holds-free_unheld rank ids d id h)
  | inr (o, there) ↦
      rw (there, free_unheld, free_if_unheld)
        (holds-free_unheld rank ids (maybe_free_object o d).1 id (holds-maybe_free rank o d id h))
]

-- After the purge of a rank no object has it among its holders.
pub purge-holds :
    (rank : ℕ) (d : Daemon) (id : ℕ)
    → holds rank (find_object (purge_rank_from_canonical rank d) id) ≡ false
unfolding purge_rank_from_canonical
purge-holds rank d id =
    holds-free_unheld rank (held_by rank d.objects) cut id
      (elim (Option-cases (find id d.objects)) [
        | inl missing ↦ ground (arith, find-drop_holder rank id d.objects)
        | inr (o, there) ↦
            ground (arith, find-drop_holder rank id d.objects, mem-remove rank rank o.holders)
      ])
  where
    cut : Daemon
    cut = record d { objects = drop_holder rank d.objects }

-- A rank that gives up its hold is no holder afterwards. The object is freed if it was the last one
-- and nothing is in transfer; otherwise it stays with the other holders. The answer counts both.
pub release_hold_lem :
    (rank id : ℕ) (d : Daemon) (r : Released) {o : Object}
    → find_object d id ≡ some o
    → o.object_id ≡ id
    → mem rank o.holders ≡ true
    → let (d', r') = release_hold rank (find_object d id) (d, r) in
      let left = remove_elem rank o.holders in
      let freed = length left == 0 && not (in_transfer o) in
      (find_object d' id ≡ (if freed then none else some (with_holders left o)))
      × (r'.released_count ≡ r.released_count + 1)
      × (r'.freed_count ≡ (if freed then r.freed_count + 1 else r.freed_count))
      × (r'.bytes_freed ≡ (if freed then r.bytes_freed + o.nbytes else r.bytes_freed))
unfolding release_hold maybe_free_object
release_hold_lem rank id d r {o} there own held =
    let o' = with_holders (remove_elem rank o.holders) o in
    let won = objects-release o' (put_object o' d) in
    let told = (release_object_lem o' (put_object o' d)).0 in
    let put = find-insert o.object_id id o' d.objects in
    let cut = find-erase o.object_id id (put_object o' d).objects in
    elim (List-cases (remove_elem rank o.holders)) [
      | inl last ↦ (
        ground (arith, won, told, put, cut),
        ground arith,
        ground (arith, told),
        ground (arith, told),
      )
      | inr (h, hs, more) ↦ (
        ground (arith, won, told, put, cut),
        ground arith,
        ground (arith, told),
        ground (arith, told),
      )
    ]
