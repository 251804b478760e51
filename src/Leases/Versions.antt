-- ===== src/Leases/Versions.antt =====
-- src/daemon/daemon.cpp: the version order of the location table.
use state_spectre.Prelude.{ℕ, ◌≤◌, ◌≡◌, false, some, ltb, ◌==◌, if◌then◌else◌, arith, nat_eq}
use state_spectre.Prelude.Table.{find, insert, find-insert}
use state_spectre.State.{Daemon, Location, LocationKind}
use state_spectre.Leases.{latest_version, update_location_if_latest}

-- For every tensor the latest version is at least what it was.
abbrev pub Later : Daemon → Daemon → Type 0
Later d d' = (tid : ℕ) → latest_version d tid ≤ latest_version d' tid

pub latest-update :
    (tensor_id version : ℕ) (kind : LocationKind) (slot_id cold_ref nbytes : ℕ) (d : Daemon)
    (tid : ℕ)
    → latest_version
        (update_location_if_latest tensor_id version kind slot_id cold_ref nbytes d).1
        tid
      ≡ (if (if tensor_id == tid then ltb (latest_version d tid) version else false)
          then version
          else latest_version d tid)
unfolding latest_version update_location_if_latest
latest-update t v kind s c n d tid = ground (
  arith,
  find-insert t tid
      (record { tensor_id = t; version = v; kind = kind; slot_id = s; cold_ref = c; nbytes = n })
      d.locations,
)

pub Later-refl : (d : Daemon) → Later d d
Later-refl d tid = omega arith

pub Later-trans : (a b c : Daemon) → Later a b → Later b c → Later a c
Later-trans a b c p q tid = omega (arith, p tid, q tid)

-- The latest versions are read off the location table.
pub same_locations-Later : (d d' : Daemon) → d'.locations ≡ d.locations → Later d d'
unfolding latest_version
same_locations-Later d d' e tid = rw e (omega arith)

pub update-Later :
    (tensor_id version : ℕ) (kind : LocationKind) (slot_id cold_ref nbytes : ℕ) (d : Daemon)
    → Later d (update_location_if_latest tensor_id version kind slot_id cold_ref nbytes d).1
update-Later t v kind s c n d tid = ground (arith, latest-update t v kind s c n d tid)

-- An entry rewritten at its own version.
pub insert-Later :
    (d d' : Daemon) (tid : ℕ) (old new : Location)
    → find tid d.locations ≡ some old
    → new.version ≡ old.version
    → d'.locations ≡ insert tid new d.locations
    → Later d d'
unfolding latest_version
insert-Later d d' tid old new here same e other =
    ground (arith, e, find-insert tid other new d.locations)
