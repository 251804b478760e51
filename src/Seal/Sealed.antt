-- ===== src/Seal/Sealed.antt =====
-- src/daemon/canonical_rollout.cpp: what a sealed version is.
use state_spectre.Prelude.{
  ℕ, suc, ◌≡◌, refl, ◌∙◌, inl, inr, Bool, true, ◌&&◌, ◌||◌, Option, none, some, List, [], ◌∷◌, leb,
  ◌==◌, if◌then◌else◌, arith, nat_eq, length, mem, Option-cases,
}
use state_spectre.Prelude.Table.{find-insert}
use state_spectre.State.{Daemon, Object, ObjectState, job_uid_Eq, version_key_Eq, role_key_Eq}
use state_spectre.Objects.{find_object, put_object}
use state_spectre.Objects.Holders.{AllCounted, found-counted, put-AllCounted}
use state_spectre.Seal.{insert_asc, sort_asc, seal_member, seal_members}

-- in ascending order
abbrev pub ascending : List ℕ → Bool
ascending [] = true
ascending (x ∷ []) = true
ascending (x ∷ y ∷ xs) = leb x y && ascending (y ∷ xs)

pub mem-insert_asc : (a v : ℕ) (xs : List ℕ) → mem a (insert_asc v xs) ≡ (v == a || mem a xs)
unfolding insert_asc
mem-insert_asc a v [] = refl
mem-insert_asc a v (w ∷ ws) = ground (arith, mem-insert_asc a v ws)

pub mem-sort_asc : (a : ℕ) (xs : List ℕ) → mem a (sort_asc xs) ≡ mem a xs
unfolding sort_asc
mem-sort_asc a [] = refl
mem-sort_asc a (x ∷ xs) = ground (arith, mem-insert_asc a x (sort_asc xs), mem-sort_asc a xs)

length-insert_asc : (v : ℕ) (xs : List ℕ) → length (insert_asc v xs) ≡ suc (length xs)
unfolding insert_asc
length-insert_asc v [] = refl
length-insert_asc v (w ∷ ws) = ground (arith, length-insert_asc v ws)

pub length-sort_asc : (xs : List ℕ) → length (sort_asc xs) ≡ length xs
unfolding sort_asc
length-sort_asc [] = refl
length-sort_asc (x ∷ xs) = ground (arith, length-insert_asc x (sort_asc xs), length-sort_asc xs)

ascending-insert : (v : ℕ) (xs : List ℕ) → ascending xs ≡ true → ascending (insert_asc v xs) ≡ true
unfolding insert_asc
ascending-insert v [] h = refl
ascending-insert v (w ∷ []) h = ground arith
ascending-insert v (w ∷ x ∷ xs) h = ground (arith, ascending-insert v (x ∷ xs))

pub ascending-sort : (xs : List ℕ) → ascending (sort_asc xs) ≡ true
unfolding sort_asc
ascending-sort [] = refl
ascending-sort (x ∷ xs) = ascending-insert x (sort_asc xs) (ascending-sort xs)

-- SEALED, at the given time
abbrev pub frozen : ℕ → Option Object → Option Object
frozen now none = none
frozen now (some o) = some (record o { state = ObjectState.sealed; sealed_ns = now })

-- Sealing the members freezes each of them and no other object.
pub seal_members_lem :
    (ids : List ℕ) (d : Daemon) (x : ℕ × ℕ) (id : ℕ)
    → AllCounted d
    → find_object (seal_members ids (d, x)).0 id
      ≡ (if mem id ids then frozen d.clock (find_object d id) else find_object d id)
unfolding seal_members seal_member
seal_members_lem [] d x id h = refl
seal_members_lem (i ∷ ids) d x id h = elim (Option-cases (find_object d i)) [
  | inl missing ↦
      rw (missing, seal_members, seal_member)
        (ground (arith, missing, seal_members_lem ids d x id h))
  | inr (o, there) ↦
      let o' = record o { state = ObjectState.sealed; sealed_ns = d.clock } in
      let c = found-counted d i h there in
      let d1 = put_object o' d in
      rw (there, seal_members, seal_member)
        (seal_members_lem ids d1 _ id (put-AllCounted o' d (ground (arith, c)) h)
          ∙ ground (arith, c, there, find-insert o.object_id id o' d.objects))
]

pub tables-seal_members :
    (ids : List ℕ) (s : Daemon × (ℕ × ℕ))
    → ((seal_members ids s).0.manifests ≡ s.0.manifests)
      × ((seal_members ids s).0.jobs ≡ s.0.jobs)
      × ((seal_members ids s).0.latest_sealed ≡ s.0.latest_sealed)
      × ((seal_members ids s).0.cfg ≡ s.0.cfg)
unfolding seal_members seal_member
tables-seal_members [] s = (refl, refl, refl, refl)
tables-seal_members (i ∷ ids) (d, x) = elim (Option-cases (find_object d i)) [
  | inl missing ↦ rw (missing, seal_members, seal_member) (tables-seal_members ids (d, x))
  | inr (o, there) ↦
      rw (there, seal_members, seal_member)
        (tables-seal_members ids
          (put_object (record o { state = ObjectState.sealed; sealed_ns = d.clock }) d, _))
]
