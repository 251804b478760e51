-- ===== src/Register/Entered.antt =====
-- src/daemon/daemon.cpp: the session that a registration enters, and its ring.
use state_spectre.Prelude.{
  ◌⊎◌, ℕ, zero, suc, ◌+◌, ◌<◌, ◌≡◌, ◌≢◌, refl, inl, inr, true, Option, none, some, ◌==◌,
  if◌then◌else◌, arith, nat_eq, Bool-cases,
}
use state_spectre.Prelude.Table.{find-insert}
use state_spectre.State.{Session}
use state_spectre.Wire.Messages.Registration.{RegisterRankRequest}
use state_spectre.Register.{Server, first_free, take_ring, enter_with, no_ring}
use state_spectre.Register.Exclusive.{IsExclusive, session_of}

-- the ring that the new session gets
pub first_free-cases :
    (owner : ℕ → ℕ) (i n : ℕ)
    → (first_free owner i n ≡ none)
      ⊎ ((j : ℕ) × (first_free owner i n ≡ some j) × (j < i + n) × (owner j ≡ no_ring))
unfolding first_free
first_free-cases owner i zero = inl refl
first_free-cases owner i (suc n) = elim (Bool-cases (owner i == no_ring)) [
  | inl h ↦ inr (i, simp h refl, omega arith, ground arith)
  | inr h ↦ elim (first_free-cases owner (suc i) n) [
    | inl e ↦ inl (simp h e)
    | inr (j, e, small, free) ↦ inr (j, simp h e, omega arith, free)
  ]
]

-- No live session is of the rank or of the process.
abbrev pub Cleared : RegisterRankRequest → Server → Type 0
Cleared req v =
    (r : ℕ) (t : Session)
    → session_of v r ≡ some t
    → t.alive ≡ true
    → (r ≢ req.rank_id.value) × (t.pid ≢ req.pid.value)

unfoldable pub IsFree : Server → Option ℕ → Type 0
IsFree v none = Unit {0}
IsFree v (some j) = (j < v.ring_max_ranks) × (v.ring_owner j ≡ no_ring)

pub enter_with-session_of :
    (req : RegisterRankRequest) (ring : Option ℕ) (v : Server) (r : ℕ)
    → session_of (enter_with req ring v).0 r
      ≡ (if req.rank_id.value == r then some (enter_with req ring v).1 else session_of v r)
unfolding enter_with take_ring
enter_with-session_of req none v r = find-insert req.rank_id.value r _ v.daemon.sessions
enter_with-session_of req (some j) v r = find-insert req.rank_id.value r _ v.daemon.sessions

pub enter_with-IsExclusive :
    (req : RegisterRankRequest) (ring : Option ℕ) (v : Server)
    → IsExclusive v
    → req.rank_id.value < no_ring
    → Cleared req v
    → IsFree v ring
    → IsExclusive (enter_with req ring v).0
unfolding enter_with take_ring IsFree
enter_with-IsExclusive req none v ex real cleared free = record {
  few = ex.few;
  keyed = λ r t e. ground (arith, enter_with-session_of req none v r, ex.keyed r t);
  given = λ r t e. ground (arith, enter_with-session_of req none v r, ex.given r t);
  real = λ r t e. ground (arith, enter_with-session_of req none v r, ex.real r t);
  one_pid = λ r q t u e f a b p. ground (
    arith,
    enter_with-session_of req none v r,
    enter_with-session_of req none v q,
    ex.one_pid r q t u,
    cleared r t,
    cleared q u,
  );
  owned = λ r t e a h. ground (arith, enter_with-session_of req none v r, ex.owned r t, ex.few);
}
enter_with-IsExclusive req (some j) v ex real cleared free = record {
  few = ex.few;
  keyed = λ r t e. ground (arith, enter_with-session_of req (some j) v r, ex.keyed r t);
  given = λ r t e. ground (arith, enter_with-session_of req (some j) v r, ex.given r t);
  real = λ r t e. ground (arith, enter_with-session_of req (some j) v r, ex.real r t);
  one_pid = λ r q t u e f a b p. ground (
    arith,
    enter_with-session_of req (some j) v r,
    enter_with-session_of req (some j) v q,
    ex.one_pid r q t u,
    cleared r t,
    cleared q u,
  );
  owned = λ r t e a h.
      ground (arith, enter_with-session_of req (some j) v r, ex.owned r t, ex.real r t, free);
}
