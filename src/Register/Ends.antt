-- ===== src/Register/Ends.antt =====
-- src/daemon/daemon.cpp: the sessions that a registration ends.
use state_spectre.Prelude.{
  ℕ, ◌≡◌, refl, sym, ap, ◌∙◌, subst, inl, inr, Bool, true, false, ◌&&◌, ◌||◌, not, Option, none,
  some, List, [], ◌∷◌, ◌==◌, if◌then◌else◌, mem, arith, nat_eq, Bool-cases,
}
use state_spectre.Prelude.Table.{Table, find}
use state_spectre.State.{Session}
use state_spectre.Wire.Messages.Registration.{RegisterRankRequest}
use state_spectre.Register.{
  Server, end_session, invalidate, invalidate_rank, invalidate_other, invalidate_pid, supersede,
  ranks_of,
}
use state_spectre.Register.Exclusive.{
  IsExclusive, session_of, end_session-session_of, next-end_session, end_session-IsExclusive,
}

-- A session as it is after a process with this id has registered.
abbrev end_pid : ℕ → Option Session → Option Session
end_pid pid none = none
end_pid pid (some t) = some (record t { alive = t.alive && not (t.pid == pid) })

-- A session as it is after the rank has registered from the process.
abbrev pub superseded : ℕ → ℕ → Option Session → Option Session
superseded rank pid none = none
superseded rank pid (some t) =
    some (record t { alive = t.alive && not (t.rank_id == rank || t.pid == pid) })

-- A step that keeps the invariant and the next epoch, and what it makes of the sessions.
pub record Ends (v v' : Server) (after : ℕ → Option Session) : Type 0 where
  pub exclusive : IsExclusive v'
  pub next : v'.daemon.next_rank_epoch ≡ v.daemon.next_rank_epoch
  pub found : (r : ℕ) → session_of v' r ≡ after r

end_session-Ends :
    (s : Session) (v : Server)
    → IsExclusive v
    → session_of v s.rank_id ≡ some s
    → s.alive ≡ true
    → Ends v
        (end_session s v)
        (λ r. if s.rank_id == r then some (record s { alive = false }) else session_of v r)
end_session-Ends s v ex there live = record {
  exclusive = end_session-IsExclusive s v ex there live;
  next = next-end_session s v;
  found = end_session-session_of s v;
}

Ends-found :
    {v v' : Server} {f g : ℕ → Option Session} → ((r : ℕ) → f r ≡ g r) → Ends v v' f → Ends v v' g
Ends-found e x = record { exclusive = x.exclusive; next = x.next; found = λ r. x.found r ∙ e r }

-- a session that is one of the process and live
other_hit :
    (pid : ℕ) (s : Session) (v : Server)
    → (s.alive && s.pid == pid) ≡ true
    → invalidate_other pid (some s) v ≡ end_session s v
unfolding invalidate_other invalidate
other_hit pid s v h = let live : s.alive ≡ true = ground arith in simp h (simp live refl)

other_miss :
    (pid : ℕ) (s : Session) (v : Server)
    → (s.alive && s.pid == pid) ≡ false
    → invalidate_other pid (some s) v ≡ v
unfolding invalidate_other
other_miss pid s v h = simp h refl

invalidate_other-Ends :
    (pid k : ℕ) (o : Option Session) (v : Server)
    → IsExclusive v
    → session_of v k ≡ o
    → Ends v
        (invalidate_other pid o v)
        (λ r. if k == r then end_pid pid (session_of v r) else session_of v r)
unfolding invalidate_other
invalidate_other-Ends pid k none v ex e = record {
  exclusive = ex;
  next = refl;
  found = λ r. ground (arith, e);
}
invalidate_other-Ends pid k (some s) v ex e =
    let key : s.rank_id ≡ k = ex.keyed k s e in
    elim (Bool-cases (s.alive && s.pid == pid)) [
      | inl h ↦
          subst
            (λ w. Ends v w (λ r. if k == r then end_pid pid (session_of v r) else session_of v r))
            (sym (other_hit pid s v h))
            (Ends-found (λ r. ground (arith, key, e))
              (end_session-Ends s v ex (ap (session_of v) key ∙ e) (ground arith)))
      | inr h ↦
          subst
            (λ w. Ends v w (λ r. if k == r then end_pid pid (session_of v r) else session_of v r))
            (sym (other_miss pid s v h))
            (record { exclusive = ex; next = refl; found = λ r. ground (arith, e) })
    ]

turn-Ends :
    (rank pid k : ℕ) (v : Server)
    → IsExclusive v
    → Ends v
        (if k == rank then v else invalidate_other pid (session_of v k) v)
        (λ r. if k == r && not (k == rank) then end_pid pid (session_of v r) else session_of v r)
turn-Ends rank pid k v ex = elim (Bool-cases (k == rank)) [
  | inl h ↦ simp h (record { exclusive = ex; next = refl; found = λ r. ground arith })
  | inr h ↦
      simp h
        (Ends-found (λ r. ground arith) (invalidate_other-Ends pid k (session_of v k) v ex refl))
]

two_turns :
    (later : Bool) (rank pid k r : ℕ) (o o' : Option Session)
    → o' ≡ (if k == r && not (k == rank) then end_pid pid o else o)
    → (if later && not (r == rank) then end_pid pid o' else o')
      ≡ (if (k == r || later) && not (r == rank) then end_pid pid o else o)
two_turns later rank pid k r none o' e = ground (arith, e)
two_turns later rank pid k r (some t) o' e = ground (arith, e)

-- the whole loop
invalidate_pid-Ends :
    (rank pid : ℕ) (ks : List ℕ) (v : Server)
    → IsExclusive v
    → Ends v
        (invalidate_pid rank pid ks v)
        (λ r. if mem r ks && not (r == rank) then end_pid pid (session_of v r) else session_of v r)
unfolding invalidate_pid
invalidate_pid-Ends rank pid [] v ex = record { exclusive = ex; next = refl; found = λ r. refl }
invalidate_pid-Ends rank pid (k ∷ ks) v ex =
    let w : Server = if k == rank then v else invalidate_other pid (session_of v k) v in
    let turn = turn-Ends rank pid k v ex in
    let rest = invalidate_pid-Ends rank pid ks w turn.exclusive in
    record {
      exclusive = rest.exclusive;
      next = rest.next ∙ turn.next;
      found = λ r. rest.found r ∙ two_turns (mem r ks) rank pid k r _ _ (turn.found r);
    }

-- a rank without a session is not among the loop's, and the others are
find-absent : (r : ℕ) (m : Table ℕ Session) → mem r (ranks_of m) ≡ false → find r m ≡ none
unfolding find
find-absent r [] h = refl
find-absent r ((k, t) ∷ m) h = ground (arith, find-absent r m)

dead : Option Session → Option Session
dead none = none
dead (some t) = some (record t { alive = false })

invalidate_rank-Ends :
    (rank : ℕ) (o : Option Session) (v : Server)
    → IsExclusive v
    → session_of v rank ≡ o
    → Ends v
        (invalidate_rank o v)
        (λ r. if r == rank then dead (session_of v r) else session_of v r)
unfolding invalidate_rank invalidate dead
invalidate_rank-Ends rank none v ex e = record {
  exclusive = ex;
  next = refl;
  found = λ r. ground (arith, e);
}
invalidate_rank-Ends rank (some s) v ex e =
    let key : s.rank_id ≡ rank = ex.keyed rank s e in
    elim (Bool-cases s.alive) [
      | inl live ↦ simp live (
          Ends-found (λ r. ground (arith, key, e))
            (end_session-Ends s v ex (ap (session_of v) key ∙ e) live))
      | inr ended ↦
          simp ended (record { exclusive = ex; next = refl; found = λ r. ground (arith, e) })
    ]

both_turns :
    (there : Bool) (rank pid r : ℕ) (o o' : Option Session)
    → o' ≡ (if r == rank then dead o else o)
    → (there ≡ false → o' ≡ none)
    → ((t : Session) → o ≡ some t → t.rank_id ≡ r)
    → (if there && not (r == rank) then end_pid pid o' else o') ≡ superseded rank pid o
unfolding dead
both_turns there rank pid r none o' e absent keyed = ground (arith, e)
both_turns true rank pid r (some t) o' e absent keyed = ground (arith, e, keyed t refl)
both_turns false rank pid r (some t) o' e absent keyed = ground (arith, e, absent refl)

-- What is left of the sessions when the new one is entered.
pub supersede-Ends :
    (req : RegisterRankRequest) (v : Server)
    → IsExclusive v
    → Ends v (supersede req v) (λ r. superseded req.rank_id.value req.pid.value (session_of v r))
unfolding supersede dead
supersede-Ends req v ex =
    let rank = req.rank_id.value in
    let pid = req.pid.value in
    let v₁ : Server = invalidate_rank (session_of v rank) v in
    let first = invalidate_rank-Ends rank (session_of v rank) v ex refl in
    let loop = invalidate_pid-Ends rank pid (ranks_of v₁.daemon.sessions) v₁ first.exclusive in
    record {
      exclusive = loop.exclusive;
      next = loop.next ∙ first.next;
      found = λ r.
          loop.found r
          ∙ both_turns _ rank pid r _ _ (first.found r) (find-absent r v₁.daemon.sessions)
              (ex.keyed r);
    }
