-- ===== src/Register/Rings.antt =====
-- src/daemon/daemon.cpp: what a drain of a ring and the end of a session leave.
use state_spectre.Prelude.{
  ℕ, zero, suc, ◌+◌, ◌%◌, ◌<◌, ◌≡◌, refl, ap, ◌∙◌, inl, inr, false, ◌&&◌, some, ltb, ◌==◌,
  if◌then◌else◌, arith, nat_eq, Option-cases, Bool-cases,
}
use state_spectre.Prelude.Table.{insert, find-insert}
use state_spectre.State.{Daemon, Session}
use state_spectre.Ring.{Completion, Ring, ring_pop, ring_pending, u64, place}
use state_spectre.Leases.{epoch_valid}
use state_spectre.Recovery.{recovered, apply_ring_completion}
use state_spectre.Recovery.Sessions.{session_part, sessions-recovered, sessions-purge}
use state_spectre.Versions.Runs.{ring_completion, perform}
use state_spectre.Versions.Epochs.{perform-stale}
use state_spectre.Register.{Server, drain_ring, release_ring, end_session, no_ring}

-- a completion of a session that is not live
stale_completion :
    (rank epoch : ℕ) (e : Completion) (d : Daemon)
    → epoch_valid d rank epoch ≡ false
    → session_part (apply_ring_completion rank epoch e d) ≡ session_part d
unfolding perform
stale_completion rank epoch e d h =
    let only = perform-stale (ring_completion rank epoch e) d (ground arith) in ap session_part only

pub epoch_valid-sessions :
    (d d' : Daemon) (rank epoch : ℕ)
    → d'.sessions ≡ d.sessions
    → epoch_valid d' rank epoch ≡ epoch_valid d rank epoch
unfolding epoch_valid
epoch_valid-sessions d d' rank epoch e =
    ap (λ m. epoch_valid (record d { sessions = m }) rank epoch) e

-- the entries of a dead rank
pub sessions-drain_ring :
    (budget rank epoch : ℕ) (r : Ring) (d : Daemon)
    → epoch_valid d rank epoch ≡ false
    → session_part (drain_ring budget rank epoch r d).1 ≡ session_part d
unfolding drain_ring
sessions-drain_ring zero rank epoch r d h = refl
sessions-drain_ring (suc budget) rank epoch r d h = elim (Option-cases (ring_pop r)) [
  | inl e ↦ rw (e, drain_ring)
  | inr ((c, r'), e) ↦
      let d' = apply_ring_completion rank epoch c d in
      let same : session_part d' ≡ session_part d = stale_completion rank epoch c d h in
      let h' : epoch_valid d' rank epoch ≡ false =
        epoch_valid-sessions d d' rank epoch (ap (λ x. x.0) same) ∙ h in
      rw (e, drain_ring) (sessions-drain_ring budget rank epoch r' d' h' ∙ same)
]

-- A drain with a round for each pending entry leaves the ring empty.
pub drain_ring-empty :
    (budget rank epoch : ℕ) (r : Ring) (d : Daemon)
    → r.head < u64
    → r.tail < u64
    → ring_pending r ≡ budget
    → (let r' = (drain_ring budget rank epoch r d).0 in r'.head ≡ r'.tail)
unfolding drain_ring ring_pending ring_pop
drain_ring-empty zero rank epoch r d h t e = omega arith
drain_ring-empty (suc budget) rank epoch r d h t e =
    let next : Ring = record r { head = (r.head + 1) % u64 } in
    let c = r.entries (place r r.head) in
    let popped : ring_pop r ≡ some (c, next) = ground arith in
    rw (popped, drain_ring)
      (drain_ring-empty budget rank epoch next (apply_ring_completion rank epoch c d) (omega arith)
        t (omega arith))

-- the three things that the end of a session does to the tables of sessions and rings
pub sessions-release_ring :
    (s : Session) (v : Server)
    → epoch_valid v.daemon s.rank_id s.rank_epoch ≡ false
    → session_part (release_ring s v).daemon ≡ session_part v.daemon
unfolding release_ring
sessions-release_ring s v h =
    let same =
      sessions-drain_ring (ring_pending (v.rings s.ring_index)) s.rank_id s.rank_epoch
        (v.rings s.ring_index) v.daemon h in
    elim (Bool-cases (ltb s.ring_index v.ring_max_ranks)) [
      | inl e ↦ rw (e, release_ring) same
      | inr e ↦ rw (e, release_ring) refl
    ]

recovered-dead :
    (s : Session) (d : Daemon) → epoch_valid (recovered s d) s.rank_id s.rank_epoch ≡ false
unfolding epoch_valid
recovered-dead s d = ground (
  arith,
  sessions-recovered s d,
  find-insert s.rank_id s.rank_id (record s { alive = false }) d.sessions,
)

pub sessions-end_session :
    (s : Session) (v : Server)
    → session_part (end_session s v).daemon
      ≡ (insert s.rank_id (record s { alive = false }) v.daemon.sessions, v.daemon.next_rank_epoch)
unfolding end_session
sessions-end_session s v =
    let ended : Server = record v { daemon = recovered s v.daemon } in
    sessions-purge s.rank_id (release_ring s ended).daemon
    ∙ sessions-release_ring s ended (recovered-dead s v.daemon)
    ∙ sessions-recovered s v.daemon

pub owner-end_session :
    (s : Session) (v : Server) (i : ℕ)
    → (end_session s v).ring_owner i
      ≡ (if ltb s.ring_index v.ring_max_ranks && s.ring_index == i then no_ring else v.ring_owner i)
unfolding end_session release_ring
owner-end_session s v i = ground arith

pub max-end_session :
    (s : Session) (v : Server) → (end_session s v).ring_max_ranks ≡ v.ring_max_ranks
unfolding end_session release_ring
max-end_session s v = ground arith
