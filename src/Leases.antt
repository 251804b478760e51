-- ===== src/Leases.antt =====
-- src/daemon/daemon.cpp: sessions, leases and the location table.
pub mod Versions
use state_spectre.Prelude.{
  ℕ, zero, suc, ◌+◌, ◌*◌, Bool, true, false, ◌&&◌, ◌||◌, not, Option, none, some, ltb, ◌==◌,
  if◌then◌else◌, nat_eq,
}
use state_spectre.Prelude.Table.{find, insert}
use state_spectre.State.{
  Daemon, Session, Lease, Location, LocationKind, Slot, SlotState, inc, stale_version_rejected,
}
use state_spectre.Slots.{touch}

abbrev session_valid : ℕ → Option Session → Bool
session_valid epoch none = false
session_valid epoch (some s) = s.alive && s.rank_epoch == epoch

unfoldable pub epoch_valid : Daemon → ℕ → ℕ → Bool
epoch_valid d rank epoch = session_valid epoch (find rank d.sessions)

abbrev pub find_lease : Daemon → ℕ → Option Lease
find_lease d lease_id = find lease_id d.leases

abbrev pub version_of : Option Location → ℕ
version_of none = 0
version_of (some l) = l.version

unfoldable pub latest_version : Daemon → ℕ → ℕ
latest_version d tensor_id = version_of (find tensor_id d.locations)

abbrev is_stale : ℕ → Option Location → Bool
is_stale version none = false
is_stale version (some l) = ltb version l.version

-- Whether it was the latest, and the daemon after.
unfoldable pub update_location_if_latest : ℕ → ℕ → LocationKind → ℕ → ℕ → ℕ → Daemon → Bool × Daemon
update_location_if_latest tensor_id version kind slot_id cold_ref nbytes d =
    if is_stale version (find tensor_id d.locations)
    then (false, inc stale_version_rejected d)
    else (true, record d { locations = insert tensor_id loc d.locations })
  where
    loc : Location
    loc = record {
      tensor_id = tensor_id;
      version = version;
      kind = kind;
      slot_id = slot_id;
      cold_ref = cold_ref;
      nbytes = nbytes;
    }

-- sessions_[rank].pid, for a rank that has a session
abbrev pub pid_of : Option Session → ℕ
pid_of none = 0
pid_of (some s) = s.pid

-- what a reservation writes into the k-th slot of its run
abbrev pub bind_slot : Lease → ℕ → SlotState → ℕ → ℕ → Slot → Slot
bind_slot l flags st now k e = record e {
  state = st;
  nbytes = if k == 0 then l.nbytes else e.capacity;
  tensor_id = l.tensor_id;
  version = l.version;
  lease_id = l.lease_id;
  owner_rank = l.owner_rank;
  owner_pid = l.owner_pid;
  rank_epoch = l.rank_epoch;
  flags = flags;
  last_touch_ns = now;
}

-- The lease is one of this rank, at this slot.
abbrev pub owns : ℕ → ℕ → Lease → Bool
owns rank slot_id l = l.owner_rank == rank && l.base_slot == slot_id
