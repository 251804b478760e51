-- ===== src/Recovery/Sessions.antt =====
-- src/daemon/daemon.cpp: when the heartbeat monitor ends a session, and what is left of it.
use state_spectre.Prelude.{
  ℕ, ◌+◌, ◌-◌, ◌*◌, ◌%◌, ◌^◌, ◌<◌, ◌≡◌, refl, ◌∙◌, inl, inr, Bool, true, false, ◌&&◌, Option, none,
  some, List, [], ◌∷◌, ltb, ◌==◌, if◌then◌else◌, arith, nat_eq, Option-cases,
}
use state_spectre.Prelude.Table.{Table, find, insert, find-insert}
use state_spectre.State.{Daemon, Lease, Session, Location, JobRecord, Object, job_uid_Eq}
use state_spectre.Slots.{free_slots, set_slot_state}
use state_spectre.Leases.{epoch_valid}
use state_spectre.Objects.{
  find_object, free_backing, uncharge, release_object, maybe_free_object, free_if_unheld,
  free_unheld, purge_rank_from_canonical, held_by, drop_holder,
}
use state_spectre.Ring.{sub_u64, u64}
use state_spectre.Recovery.{recover_slots, recover_leases, recovered, expire_session}

-- what registrations and the epoch check go by
abbrev pub session_part : Daemon → Table ℕ Session × ℕ
session_part d = (d.sessions, d.next_rank_epoch)

sessions-free_backing :
    (o : Object) (l : Option Location) (d : Daemon)
    → session_part (free_backing o l d) ≡ session_part d
unfolding free_backing free_slots
sessions-free_backing o none d = refl
sessions-free_backing o (some l) d = ground arith

sessions-uncharge :
    (o : Object) (j : Option JobRecord) (d : Daemon)
    → session_part (uncharge o j d) ≡ session_part d
unfolding uncharge
sessions-uncharge o none d = refl
sessions-uncharge o (some j) d = refl

sessions-maybe_free :
    (o : Object) (d : Daemon) → session_part (maybe_free_object o d).1 ≡ session_part d
unfolding maybe_free_object release_object
sessions-maybe_free o d =
    let freed = free_backing o (find o.synthetic_tid d.locations) d in
    ground (arith, sessions-free_backing o (find o.synthetic_tid d.locations) d)

sessions-free_unheld :
    (ids : List ℕ) (d : Daemon) → session_part (free_unheld ids d) ≡ session_part d
unfolding free_unheld free_if_unheld
sessions-free_unheld [] d = refl
sessions-free_unheld (id ∷ ids) d = elim (Option-cases (find_object d id)) [
  | inl missing ↦ rw (missing, free_unheld, free_if_unheld) (sessions-free_unheld ids d)
  | inr (o, there) ↦
      rw (there, free_unheld, free_if_unheld)
        (sessions-free_unheld ids (maybe_free_object o d).1 ∙ sessions-maybe_free o d)
]

sessions-recover_slots :
    (l : Lease) (d : Daemon) → session_part (recover_slots l d) ≡ session_part d
unfolding recover_slots free_slots set_slot_state
sessions-recover_slots l d = ground arith

sessions-recover_leases :
    (s : Session) (m : Table ℕ Lease) (d : Daemon)
    → session_part (recover_leases s m d) ≡ session_part d
unfolding recover_leases
sessions-recover_leases s [] d = refl
sessions-recover_leases s ((id, l) ∷ m) d = ground (
  arith,
  sessions-recover_slots l d,
  sessions-recover_leases s m d,
  sessions-recover_leases s m (recover_slots l d),
)

pub sessions-recovered :
    (s : Session) (d : Daemon)
    → session_part (recovered s d)
      ≡ (insert s.rank_id (record s { alive = false }) d.sessions, d.next_rank_epoch)
unfolding recovered
sessions-recovered s d = sessions-recover_leases s d.leases _

pub sessions-purge :
    (rank : ℕ) (d : Daemon) → session_part (purge_rank_from_canonical rank d) ≡ session_part d
unfolding purge_rank_from_canonical
sessions-purge rank d =
    sessions-free_unheld (held_by rank d.objects)
      (record d { objects = drop_holder rank d.objects })

-- the age of the last heartbeat, a uint64_t difference, is beyond the timeout
abbrev pub overdue : Daemon → ℕ → Session → Bool
overdue d now s =
    s.alive && ltb (d.cfg.heartbeat_timeout_ms * 1000000 % 2 ^ 64) (sub_u64 now s.last_heartbeat_ns)

-- The sweep's turn on a session marks it dead and so invalidates its epoch exactly if it is overdue,
-- by the 64-bit timeout and age; every other rank's session and epoch and the next epoch stay as
-- they are.
pub expire_session_lem :
    (now : ℕ) (s : Session) (d : Daemon) (rank epoch : ℕ)
    → (epoch_valid (expire_session now s d) rank epoch
        ≡ (if overdue d now s && s.rank_id == rank then false else epoch_valid d rank epoch))
      × (find rank (expire_session now s d).sessions ≡ (
          if overdue d now s && s.rank_id == rank
          then some (record s { alive = false })
          else find rank d.sessions))
      × ((expire_session now s d).next_rank_epoch ≡ d.next_rank_epoch)
unfolding expire_session epoch_valid purge_rank_from_canonical
expire_session_lem now s d rank epoch =
    let d1 = recovered s d in
    let kept =
      sessions-free_unheld (held_by s.rank_id d1.objects)
        (record d1 { objects = drop_holder s.rank_id d1.objects }) in
    let dead = sessions-recovered s d in
    let looked = find-insert s.rank_id rank (record s { alive = false }) d.sessions in
    (
      ground (arith, kept, dead, looked),
      ground (arith, kept, dead, looked),
      ground (arith, kept, dead),
    )

-- A live session whose last heartbeat came after the sweep had read the clock is ended, unless the
-- timeout is beyond 2^64 ns less the difference.
pub late_clock-expires :
    (now : ℕ) (s : Session) (d : Daemon) (epoch : ℕ)
    → s.alive ≡ true
    → now < s.last_heartbeat_ns
    → s.last_heartbeat_ns < u64
    → d.cfg.heartbeat_timeout_ms * 1000000 % 2 ^ 64 + (s.last_heartbeat_ns - now) < u64
    → epoch_valid (expire_session now s d) s.rank_id epoch ≡ false
late_clock-expires now s d epoch live late small timeout =
    (expire_session_lem now s d s.rank_id epoch).0 ∙ ground arith
