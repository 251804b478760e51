-- ===== src/Seal/Members.antt =====
-- src/daemon/canonical_rollout.cpp: which objects the loop of SealModelVersion gathers.
use state_spectre.Prelude.{
  ℕ, ◌+◌, ◌%◌, ◌^◌, ◌≡◌, refl, ap, ◌∙◌, inl, inr, Bool, true, false, ◌&&◌, not, Option, none, some,
  List, [], ◌∷◌, ◌==◌, leb, arith, nat_eq, mem, Bool-cases,
}
use state_spectre.Prelude.Table.{Table, find}
use state_spectre.State.{JobUid, Object, job_uid_eq, is_readable}
use state_spectre.Drain.Choice.{absent}
use state_spectre.Objects.Holders.{distinct}
use state_spectre.Seal.{Gathered, gather, insert_asc, sort_asc}
use state_spectre.Seal.Sealed.{mem-insert_asc, mem-sort_asc}

-- each object is entered once, under its own id
abbrev pub keyed_objects : Table ℕ Object → Bool
keyed_objects [] = true
keyed_objects ((id, o) ∷ m) = o.object_id == id && (absent (find id m) && keyed_objects m)

-- a readable object of the job, role and version
abbrev pub readable_of : JobUid → ℕ → ℕ → Option Object → Bool
readable_of uid role version none = false
readable_of uid role version (some o) =
    job_uid_eq o.key.job uid
    && (o.key.model_role == role && (o.key.model_version == version && is_readable o.state))

abbrev pub nbytes_of : Option Object → ℕ
nbytes_of none = 0
nbytes_of (some o) = o.nbytes

-- the 64-bit sum of the sizes of these objects
abbrev pub bytes_at : Table ℕ Object → List ℕ → ℕ
bytes_at m [] = 0
bytes_at m (id ∷ ids) = (nbytes_of (find id m) + bytes_at m ids) % 2 ^ 64

bytes_at-insert :
    (m : Table ℕ Object) (v : ℕ) (ids : List ℕ)
    → bytes_at m (insert_asc v ids) ≡ bytes_at m (v ∷ ids)
unfolding insert_asc
bytes_at-insert m v [] = refl
bytes_at-insert m v (w ∷ ids) = elim (Bool-cases (leb v w)) [
  | inl le ↦ rw le refl
  | inr gt ↦ rw gt (omega (arith, bytes_at-insert m v ids))
]

pub bytes_at-sort : (m : Table ℕ Object) (ids : List ℕ) → bytes_at m (sort_asc ids) ≡ bytes_at m ids
unfolding sort_asc
bytes_at-sort m [] = refl
bytes_at-sort m (v ∷ ids) =
    bytes_at-insert m v (sort_asc ids)
    ∙ ap (λ b. (nbytes_of (find v m) + b) % 2 ^ 64) (bytes_at-sort m ids)

distinct-insert :
    (v : ℕ) (ids : List ℕ) → distinct (insert_asc v ids) ≡ (not (mem v ids) && distinct ids)
unfolding insert_asc
distinct-insert v [] = refl
distinct-insert v (w ∷ ids) = ground (arith, distinct-insert v ids, mem-insert_asc w v ids)

pub distinct-sort : (ids : List ℕ) → distinct (sort_asc ids) ≡ distinct ids
unfolding sort_asc
distinct-sort [] = refl
distinct-sort (v ∷ ids) =
    ground (arith, distinct-insert v (sort_asc ids), mem-sort_asc v ids, distinct-sort ids)

module _ (uid : JobUid) (role version : ℕ) where
  abbrev gathered : Table ℕ Object → Gathered
  gathered m = gather uid role version m

  pub mem-gather :
      (m : Table ℕ Object) (id : ℕ)
      → keyed_objects m ≡ true
      → mem id (gathered m).ids ≡ readable_of uid role version (find id m)
  unfolding gather find
  mem-gather [] id h = refl
  mem-gather ((j, o) ∷ m) id h = ground (arith, mem-gather m id, mem-gather m j)

  pub distinct-gather :
      (m : Table ℕ Object) → keyed_objects m ≡ true → distinct (gathered m).ids ≡ true
  unfolding gather find
  distinct-gather [] h = refl
  distinct-gather ((j, o) ∷ m) h = ground (arith, mem-gather m j, distinct-gather m)

  -- behind an entry whose id they do not have, the ids have the same sizes
  bytes_at-behind :
      (j : ℕ) (o : Object) (m : Table ℕ Object) (ids : List ℕ)
      → mem j ids ≡ false
      → bytes_at ((j, o) ∷ m) ids ≡ bytes_at m ids
  unfolding find
  bytes_at-behind j o m [] h = refl
  bytes_at-behind j o m (id ∷ ids) h = ground (arith, bytes_at-behind j o m ids)

  pub total-gather :
      (m : Table ℕ Object)
      → keyed_objects m ≡ true
      → (gathered m).total ≡ bytes_at m (gathered m).ids
  unfolding gather find
  total-gather [] h = refl
  total-gather ((j, o) ∷ m) h =
      ground (arith, total-gather m, mem-gather m j, bytes_at-behind j o m (gathered m).ids)
