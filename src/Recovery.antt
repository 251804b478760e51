-- ===== src/Recovery.antt =====
-- src/daemon/daemon.cpp: completions by batch and by ring, sessions, and the recovery of what a
-- dead session leaves behind. The registration reply's file descriptors are not modelled.
pub mod Sessions
use state_spectre.Prelude.{
  ℕ, zero, suc, ◌+◌, ◌-◌, ◌*◌, ◌%◌, ◌^◌, Bool, true, false, ◌&&◌, ◌||◌, not, Option, none, some,
  List, [], ◌∷◌, ltb, leb, ◌==◌, if◌then◌else◌, nat_eq,
}
use state_spectre.Prelude.Table.{Table, find, insert, erase}
use state_spectre.State.{
  Daemon, Lease, Session, SlotState, inc, rank_sessions_invalidated, epoch_mismatch_rejected,
  invalid_transition_rejected, is_pinned_valid, is_cold_valid, is_drain_in_flight,
}
use state_spectre.Slots.{slot_state, set_slot_state, free_slots}
use state_spectre.Leases.{epoch_valid}
use state_spectre.Offload.{Mark, apply_d2h_complete}
use state_spectre.Prefetch.{apply_h2d_complete}
use state_spectre.Objects.{purge_rank_from_canonical}
use state_spectre.Ring.{Completion, sub_u64}
use state_spectre.Replies.{Reply, ok, err, epoch_invalid, is_ok}

-- one entry of a BatchComplete request
pub record BatchEntry : Type 0 where
  pub event_type : ℕ
  pub lease_id : ℕ
  pub tensor_id : ℕ
  pub version : ℕ
  pub slot_id : ℕ
  pub keep_pinned : Bool
  pub seq : ℕ

abbrev pub mark_of : ℕ → ℕ → BatchEntry → Mark
mark_of rank epoch c = record {
  rank_id = rank;
  rank_epoch = epoch;
  lease_id = c.lease_id;
  tensor_id = c.tensor_id;
  version = c.version;
  slot_id = c.slot_id;
  seq = c.seq;
}

-- EventType::kD2HComplete is 1, EventType::kH2DComplete is 2.
unfoldable pub apply_entry : ℕ → ℕ → BatchEntry → Daemon → Bool × Daemon
apply_entry rank epoch c d =
    if c.event_type == 1
    then (let (d', r) = apply_d2h_complete (mark_of rank epoch c) d in (is_ok r, d'))
    else if c.event_type == 2
    then (let (d', r) = apply_h2d_complete (mark_of rank epoch c) c.keep_pinned d in (is_ok r, d'))
    else (false, inc invalid_transition_rejected d)

pub record Batch : Type 0 where
  pub accepted : ℕ
  pub rejected : ℕ

unfoldable pub apply_batch : ℕ → ℕ → List BatchEntry → Batch → Daemon → Daemon × Batch
apply_batch rank epoch [] b d = (d, b)
apply_batch rank epoch (c ∷ cs) b d =
    let (done, d') = apply_entry rank epoch c d in
    apply_batch rank epoch cs
      (record {
        accepted = if done then b.accepted + 1 else b.accepted;
        rejected = if done then b.rejected else b.rejected + 1;
      })
      d'

unfoldable pub handle_batch_complete : ℕ → ℕ → List BatchEntry → Daemon → Daemon × Batch
handle_batch_complete rank epoch cs d =
    apply_batch rank epoch cs (record { accepted = 0; rejected = 0 }) d

-- A ring entry has no keep_pinned and no sequence number.
unfoldable pub apply_ring_completion : ℕ → ℕ → Completion → Daemon → Daemon
apply_ring_completion rank epoch e d =
    (apply_entry rank epoch
      (record {
        event_type = e.event_type;
        lease_id = e.lease_id;
        tensor_id = e.tensor_id;
        version = e.version;
        slot_id = e.slot_id;
        keep_pinned = false;
        seq = 0;
      })
      d).1

-- the lease is one of the session
abbrev pub of_session : Session → Lease → Bool
of_session s l = l.owner_rank == s.rank_id && l.rank_epoch == s.rank_epoch

-- The data is safe or is being drained: keep the slot. Otherwise the copy never ended: reclaim it.
unfoldable pub recover_slots : Lease → Daemon → Daemon
recover_slots l d =
    let st = slot_state d l.base_slot in
    if is_pinned_valid st || (is_cold_valid st || is_drain_in_flight st)
    then d
    else free_slots l.base_slot l.slot_count (set_slot_state l.base_slot SlotState.error d)

-- the loop over the leases: recover the session's, and note them for the erasure that follows
unfoldable pub recover_leases : Session → Table ℕ Lease → Daemon → Daemon
recover_leases s [] d = d
recover_leases s ((id, l) ∷ m) d =
    recover_leases s m (if of_session s l then recover_slots l d else d)

unfoldable pub erase_leases : Session → Table ℕ Lease → Table ℕ Lease → Table ℕ Lease
erase_leases s [] t = t
erase_leases s ((id, l) ∷ m) t = erase_leases s m (if of_session s l then erase l.lease_id t else t)

-- What a session that ends leaves: `recovered` is the state before the canonical holds are dropped.
unfoldable pub recovered : Session → Daemon → Daemon
recovered s d =
    let dead = record d { sessions = insert s.rank_id (record s { alive = false }) d.sessions } in
    let reclaimed = recover_leases s d.leases (inc rank_sessions_invalidated dead) in
    record reclaimed { leases = erase_leases s d.leases d.leases }

-- A session of the heartbeat monitor's sweep. The uint64_t difference wraps if the session's last
-- heartbeat is later than `now`.
unfoldable pub expire_session : ℕ → Session → Daemon → Daemon
expire_session now s d =
    if s.alive
      && ltb (d.cfg.heartbeat_timeout_ms * 1000000 % 2 ^ 64) (sub_u64 now s.last_heartbeat_ns)
    then purge_rank_from_canonical s.rank_id (recovered s d)
    else d

unfoldable pub expire_sessions : ℕ → Table ℕ Session → Daemon → Daemon
expire_sessions now [] d = d
expire_sessions now ((rank, s) ∷ m) d = expire_sessions now m (expire_session now s d)

-- One sweep of heartbeat_monitor_loop; `now` was read before the lock was taken.
unfoldable pub heartbeat_sweep : ℕ → Daemon → Daemon
heartbeat_sweep now d = expire_sessions now d.sessions d

abbrev beat : ℕ → Option Session → Table ℕ Session → Table ℕ Session
beat now none m = m
beat now (some s) m = insert s.rank_id (record s { last_heartbeat_ns = now }) m

unfoldable pub handle_heartbeat : ℕ → ℕ → Daemon → Daemon × Reply (Unit {0})
handle_heartbeat rank epoch d =
    if epoch_valid d rank epoch
    then (record d { sessions = beat d.clock (find rank d.sessions) d.sessions }, ok tt)
    else (inc epoch_mismatch_rejected d, err epoch_invalid)
