-- ===== src/Drain/Choice.antt =====
-- src/daemon/daemon.cpp: which run force_drain_one picks.
use state_spectre.Prelude.{
  ℕ, ◌-◌, ◌^◌, ◌≤◌, ◌≡◌, ◌⊎◌, refl, sym, subst, inl, inr, Bool, true, false, ◌&&◌, Option, none,
  some, [], ◌∷◌, ltb, ◌==◌, if◌then◌else◌, arith, nat_eq, Bool-cases,
}
use state_spectre.Prelude.Table.{Table, find}
use state_spectre.State.{Daemon, Lease}
use state_spectre.Drain.{DrainIo, drainable, oldest, drain_lease, force_drain_one}

abbrev pub absent {ℓ} : {A : Type ℓ} → Option A → Bool
absent none = true
absent (some a) = false

-- Each lease is under its own id, once.
abbrev pub keyed : Table ℕ Lease → Bool
keyed [] = true
keyed ((id, l) ∷ m) = l.lease_id == id && (absent (find id m) && keyed m)

abbrev pub touched : Daemon → Lease → ℕ
touched d l = (d.slots l.base_slot).last_touch_ns

-- the touch of the lease that `oldest` returns
oldest_touch : Daemon → Table ℕ Lease → ℕ → ℕ
oldest_touch d [] ts = ts
oldest_touch d ((id, l) ∷ m) ts =
    oldest_touch d m (if drainable d l && ltb (touched d l) ts then touched d l else ts)

-- the lease may be drained and was touched before the time
abbrev pub older_than : Daemon → ℕ → Option Lease → Bool
older_than d ts none = false
older_than d ts (some l) = drainable d l && ltb (touched d l) ts

oldest_touch-least :
    (d : Daemon) (m : Table ℕ Lease) (ts : ℕ)
    → (oldest_touch d m ts ≤ ts)
      × ((id : ℕ) → older_than d (oldest_touch d m ts) (find id m) ≡ false)
unfolding oldest_touch find
oldest_touch-least d [] ts = (omega arith, λ id. refl)
oldest_touch-least d ((i, l) ∷ m) ts =
    let (below, least) =
      oldest_touch-least d m (if drainable d l && ltb (touched d l) ts then touched d l else ts) in
    (ground (arith, below), λ id. ground (arith, below, least id))

find-cons :
    (k i : ℕ) (l : Lease) (m : Table ℕ Lease)
    → find k ((i, l) ∷ m) ≡ (if i == k then some l else find k m)
unfolding find
find-cons k i l m = refl

find-keyed :
    (k : ℕ) (m : Table ℕ Lease) (l : Lease) → keyed m ≡ true → find k m ≡ some l → l.lease_id ≡ k
unfolding find
find-keyed k [] l h e = absurd (ground arith)
find-keyed k ((i, b) ∷ m) l h e = ground (arith, find-keyed k m l)

-- a lease found behind the first is found in the whole table, whose ids are distinct
find-behind :
    (k i : ℕ) (l : Lease) (m : Table ℕ Lease) {b : Lease}
    → absent (find i m) ≡ true
    → find k m ≡ some b
    → find k ((i, l) ∷ m) ≡ some b
find-behind k i l m {b} alone e = elim (Bool-cases (i == k)) [
  | inl same ↦
      let eq : i ≡ k = ground arith in
      absurd (let clash : absent (find k m) ≡ true = rw (sym eq) alone in ground (arith, clash, e))
  | inr other ↦ ground (arith, find-cons k i l m, other, e)
]

-- the result is a drainable lease of the table, or the one at the start
oldest-found :
    (d : Daemon) (m : Table ℕ Lease) (ts start : ℕ)
    → keyed m ≡ true
    → ((oldest d m ts start ≡ start) × (oldest_touch d m ts ≡ ts))
      ⊎ ((l : Lease) × (find (oldest d m ts start) m ≡ some l)
          × (drainable d l ≡ true)
          × (touched d l ≡ oldest_touch d m ts))
unfolding oldest oldest_touch
oldest-found d [] ts start k = inl (refl, refl)
oldest-found d ((i, l) ∷ m) ts start k = elim (Bool-cases (drainable d l && ltb (touched d l) ts)) [
  | inl better ↦
      rw (better, oldest, oldest_touch)
        (elim (oldest-found d m (touched d l) l.lease_id (ground arith)) [
          | inl (kept, at) ↦ inr (
            l,
            rw (kept) (ground (arith, find-cons l.lease_id i l m)),
            ground arith,
            ground (arith, at),
          )
          | inr (b, there, can, at) ↦ inr (
            b,
            find-behind (oldest d m (touched d l) l.lease_id) i l m (ground arith) there,
            can,
            at,
          )
        ])
  | inr worse ↦
      rw (worse, oldest, oldest_touch)
        (elim (oldest-found d m ts start (ground arith)) [
          | inl same ↦ inl same
          | inr (b, there, can, at) ↦
              inr (b, find-behind (oldest d m ts start) i l m (ground arith) there, can, at)
        ])
]

-- A forced drain takes a lease of the table that may be drained (an offload whose run is
-- PINNED_VALID and whose canonical object, if it has one, is neither CREATING nor exported nor
-- restored) such that none that may be drained was touched earlier; if it takes none, nothing
-- changes and none that was touched before the last nanosecond of the clock may be drained. The
-- leases are under their own ids, and 0 is none of them.
pub force_drain_one-oldest :
    (io : DrainIo) (d : Daemon)
    → keyed d.leases ≡ true
    → find 0 d.leases ≡ none
    → ((force_drain_one io d ≡ (false, d))
        × ((id : ℕ) → older_than d (2 ^ 64 - 1) (find id d.leases) ≡ false))
      ⊎ ((l : Lease) × (find l.lease_id d.leases ≡ some l)
          × (drainable d l ≡ true)
          × ((id : ℕ) → older_than d (touched d l) (find id d.leases) ≡ false)
          × (force_drain_one io d ≡ drain_lease io l d))
unfolding force_drain_one
force_drain_one-oldest io d k no_zero =
    let (below, least) = oldest_touch-least d d.leases (2 ^ 64 - 1) in
    elim (oldest-found d d.leases (2 ^ 64 - 1) 0 k) [
      | inl (nothing, at) ↦
          inl (rw (nothing, force_drain_one, no_zero) refl, λ id. rw (at) at least id)
      | inr (l, there, can, at) ↦ inr (
        l,
        subst (λ x. find x d.leases ≡ some l)
            (sym (find-keyed (oldest d d.leases (2 ^ 64 - 1) 0) d.leases l k there)) there,
        can,
        λ id. ground (arith, at, least id),
        rw (there, force_drain_one) refl,
      )
    ]
