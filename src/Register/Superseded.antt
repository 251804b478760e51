-- ===== src/Register/Superseded.antt =====
-- src/daemon/daemon.cpp: `handle_register` as a whole.
use state_spectre.Prelude.{
  ℕ, ◌<◌, ◌≡◌, ◌≢◌, refl, sym, ◌∙◌, inl, inr, Bool, true, false, ◌&&◌, not, Option, none, some,
  ◌==◌, if◌then◌else◌, arith, nat_eq, Option-cases,
}
use state_spectre.State.{Session}
use state_spectre.Leases.{epoch_valid}
use state_spectre.Wire.Messages.Registration.{RegisterRankRequest}
use state_spectre.Register.{
  Server, first_free, supersede, enter_with, enter_session, handle_register, no_ring,
}
use state_spectre.Register.Exclusive.{IsExclusive, session_of}
use state_spectre.Register.Ends.{superseded, supersede-Ends}
use state_spectre.Register.Entered.{
  Cleared, IsFree, first_free-cases, enter_with-session_of, enter_with-IsExclusive,
}

-- what is superseded is not live
superseded-cleared :
    (rank pid r : ℕ) (o : Option Session) (t : Session)
    → ((u : Session) → o ≡ some u → u.rank_id ≡ r)
    → superseded rank pid o ≡ some t
    → t.alive ≡ true
    → (r ≢ rank) × (t.pid ≢ pid)
superseded-cleared rank pid r none t keyed e live = cc
superseded-cleared rank pid r (some u) t keyed e live = ground (arith, keyed u refl)

supersede-Cleared :
    (req : RegisterRankRequest) (v : Server) → IsExclusive v → Cleared req (supersede req v)
supersede-Cleared req v ex = λ r t e live.
    superseded-cleared req.rank_id.value req.pid.value r (session_of v r) t (ex.keyed r)
      (sym ((supersede-Ends req v ex).found r) ∙ e) live

first_free-IsFree : (v : Server) → IsFree v (first_free v.ring_owner 0 v.ring_max_ranks)
unfolding IsFree
first_free-IsFree v = elim (first_free-cases v.ring_owner 0 v.ring_max_ranks) [
  | inl e ↦ simp e tt
  | inr (j, e, small, free) ↦ simp e (omega arith, free)
]

-- Registration of a rank other than 0xFFFFFFFF keeps the sessions and rings apart: each session is
-- under its rank with an epoch that was given out, no two live sessions are of one process, and each
-- live session that has a completion ring is the owner of that ring.
pub handle_register-IsExclusive :
    (req : RegisterRankRequest) (v : Server)
    → req.rank_id.value < no_ring
    → IsExclusive v
    → IsExclusive (handle_register req v).0
unfolding handle_register enter_session
handle_register-IsExclusive req v real ex =
    let w = supersede req v in
    enter_with-IsExclusive req (first_free w.ring_owner 0 w.ring_max_ranks) w
      (supersede-Ends req v ex).exclusive real (supersede-Cleared req v ex) (first_free-IsFree w)

-- the session is one of this process
abbrev pub of_process : ℕ → Option Session → Bool
of_process pid none = false
of_process pid (some t) = t.pid == pid

new_epoch :
    (req : RegisterRankRequest) (ring : Option ℕ) (v : Server)
    → ((enter_with req ring v).1.alive ≡ true)
      × ((enter_with req ring v).1.rank_epoch ≡ v.daemon.next_rank_epoch)
unfolding enter_with
new_epoch req ring v = (refl, refl)

-- After a registration the rank's only valid epoch is the one that was given out for it; the epochs
-- of other ranks are valid as before, except those of sessions of the same process, if the sessions
-- and rings were apart before.
pub handle_register_lem :
    (req : RegisterRankRequest) (v : Server) (r epoch : ℕ)
    → IsExclusive v
    → epoch_valid (handle_register req v).0.daemon r epoch ≡ (
        if req.rank_id.value == r
        then v.daemon.next_rank_epoch == epoch
        else epoch_valid v.daemon r epoch && not (of_process req.pid.value (session_of v r)))
unfolding handle_register enter_session epoch_valid
handle_register_lem req v r epoch ex =
    let w = supersede req v in
    let ring = first_free w.ring_owner 0 w.ring_max_ranks in
    let ends = supersede-Ends req v ex in
    elim (Option-cases (session_of v r)) [
      | inl e ↦
          ground (
            arith,
            enter_with-session_of req ring w r,
            new_epoch req ring w,
            ends.found r,
            ends.next,
          )
      | inr (t, e) ↦ ground (
        arith,
        enter_with-session_of req ring w r,
        new_epoch req ring w,
        ends.found r,
        ends.next,
        ex.keyed r t e,
      )
    ]
