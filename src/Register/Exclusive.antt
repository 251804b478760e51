-- ===== src/Register/Exclusive.antt =====
-- src/daemon/daemon.cpp: who is registered after `handle_register`, and who owns a ring.
use state_spectre.Prelude.{
  ℕ, ◌≤◌, ◌<◌, ◌≡◌, ap, ◌∙◌, true, false, Option, some, ◌==◌, if◌then◌else◌, arith, nat_eq,
}
use state_spectre.Prelude.Table.{find, find-insert}
use state_spectre.State.{Session}
use state_spectre.Register.{Server, end_session, no_ring}
use state_spectre.Register.Rings.{sessions-end_session, owner-end_session, max-end_session}

abbrev pub session_of : Server → ℕ → Option Session
session_of v rank = find rank v.daemon.sessions

-- Each session is under its rank with an epoch that was given out, live sessions are of different
-- processes, and a live session with a ring is the owner of that ring.
pub record IsExclusive (v : Server) : Type 0 where
  pub few : v.ring_max_ranks ≤ no_ring
  pub keyed : (r : ℕ) (s : Session) → session_of v r ≡ some s → s.rank_id ≡ r
  pub given :
      (r : ℕ) (s : Session) → session_of v r ≡ some s → s.rank_epoch < v.daemon.next_rank_epoch
  pub real : (r : ℕ) (s : Session) → session_of v r ≡ some s → r < no_ring
  pub one_pid :
      (r q : ℕ) (s t : Session)
      → session_of v r ≡ some s
      → session_of v q ≡ some t
      → s.alive ≡ true
      → t.alive ≡ true
      → s.pid ≡ t.pid
      → r ≡ q
  pub owned :
      (r : ℕ) (s : Session)
      → session_of v r ≡ some s
      → s.alive ≡ true
      → s.ring_index < v.ring_max_ranks
      → v.ring_owner s.ring_index ≡ r

pub end_session-session_of :
    (s : Session) (v : Server) (r : ℕ)
    → session_of (end_session s v) r
      ≡ (if s.rank_id == r then some (record s { alive = false }) else session_of v r)
end_session-session_of s v r =
    ap (λ x. find r x.0) (sessions-end_session s v)
    ∙ find-insert s.rank_id r (record s { alive = false }) v.daemon.sessions

pub next-end_session :
    (s : Session) (v : Server) → (end_session s v).daemon.next_rank_epoch ≡ v.daemon.next_rank_epoch
next-end_session s v = ap (λ x. x.1) (sessions-end_session s v)

pub end_session-IsExclusive :
    (s : Session) (v : Server)
    → IsExclusive v
    → session_of v s.rank_id ≡ some s
    → s.alive ≡ true
    → IsExclusive (end_session s v)
end_session-IsExclusive s v ex there live = record {
  few = rw (max-end_session s v) ex.few;
  keyed = λ r t e. ground (arith, end_session-session_of s v r, ex.keyed r t);
  given = λ r t e. ground (
    arith,
    end_session-session_of s v r,
    next-end_session s v,
    ex.given r t,
    ex.given s.rank_id s there,
  );
  real =
      λ r t e. ground (arith, end_session-session_of s v r, ex.real r t, ex.real s.rank_id s there);
  one_pid = λ r q t u e f a b p.
      ground
        (arith, end_session-session_of s v r, end_session-session_of s v q, ex.one_pid r q t u);
  owned = λ r t e a h. ground (
    arith,
    end_session-session_of s v r,
    max-end_session s v,
    owner-end_session s v t.ring_index,
    ex.owned r t,
    ex.owned s.rank_id s there,
  );
}
