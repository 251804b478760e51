-- ===== src/Register.antt =====
-- src/daemon/daemon.cpp: the registration of a rank, the ring table and the ring poller.
pub mod Rings
pub mod Exclusive
pub mod Ends
pub mod Entered
pub mod Superseded
use state_spectre.Prelude.{
  ℕ, zero, suc, ◌+◌, Bool, true, false, ◌&&◌, not, Option, none, some, List, [], ◌∷◌, length, ltb,
  ◌==◌, if◌then◌else◌, nat_eq,
}
use state_spectre.Prelude.Table.{Table, find, insert}
use state_spectre.State.{Daemon, Session}
use state_spectre.Ring.{Completion, Ring, ring_pop, ring_pending}
use state_spectre.Recovery.{recovered, apply_ring_completion}
use state_spectre.Objects.{purge_rank_from_canonical}
use state_spectre.Wire.Words.{Word, Bytes, cast}
use state_spectre.Wire.Messages.Registration.{ArenaFd, RegisterRankRequest, RegisterRankResponse}

pub record Arena : Type 0 where
  pub numa_node : ℕ
  pub size : ℕ
  pub fd : ℕ
  pub arena_id : ℕ
  pub registration_granularity : ℕ
  pub allocation_granularity : ℕ

-- The daemon with its arenas, the control mapping and the completion rings, by index. A ring that is
-- beyond `ring_owner_` counts as free.
pub record Server : Type 0 where
  pub daemon : Daemon
  pub rings : ℕ → Ring
  pub ring_owner : ℕ → ℕ
  pub ring_max_ranks : ℕ
  pub arenas : List Arena
  pub control_fd : ℕ
  pub generation : ℕ
  pub total_bytes : ℕ

-- the mark of a free ring, and of a session without one
abbrev pub no_ring : ℕ
no_ring = 0xFFFFFFFF

abbrev pub set_at {ℓ} : {A : Type ℓ} → (ℕ → A) → ℕ → A → ℕ → A
set_at f i a j = if i == j then a else f j

-- Pops and applies at most `budget` entries; the Boolean is whether there was any.
unfoldable pub drain_ring : ℕ → ℕ → ℕ → Ring → Daemon → Ring × Daemon
drain_ring zero rank epoch r d = (r, d)
drain_ring (suc budget) rank epoch r d = elim (ring_pop r) [
  | none ↦ (r, d)
  | some (e, r') ↦ drain_ring budget rank epoch r' (apply_ring_completion rank epoch e d)
]

-- Take the ring of a session that has ended. What the dead rank pushed before is popped; `while
-- (ring_pop(rh, &e))` has a round for each entry that is pending.
unfoldable pub release_ring : Session → Server → Server
release_ring s v =
    let (r, d) =
      drain_ring (ring_pending (v.rings s.ring_index)) s.rank_id s.rank_epoch (v.rings s.ring_index)
        v.daemon in
    if ltb s.ring_index v.ring_max_ranks
    then record v {
      daemon = d;
      rings = set_at v.rings s.ring_index (record r { owner_rank = no_ring; rank_epoch = 0 });
      ring_owner = set_at v.ring_owner s.ring_index no_ring;
    }
    else v

-- the lambda `invalidate` on a live session
unfoldable pub end_session : Session → Server → Server
end_session s v =
    let v' = release_ring s (record v { daemon = recovered s v.daemon }) in
    record v' { daemon = purge_rank_from_canonical s.rank_id v'.daemon }

-- the lambda `invalidate`
unfoldable pub invalidate : Session → Server → Server
invalidate s v = if s.alive then end_session s v else v

unfoldable pub invalidate_rank : Option Session → Server → Server
invalidate_rank none v = v
invalidate_rank (some s) v = invalidate s v

-- the loop's turn on another session, if it is one of the process
unfoldable pub invalidate_other : ℕ → Option Session → Server → Server
invalidate_other pid none v = v
invalidate_other pid (some s) v = if s.alive && s.pid == pid then invalidate s v else v

-- the loop over the ranks that have a session
unfoldable pub invalidate_pid : ℕ → ℕ → List ℕ → Server → Server
invalidate_pid rank pid [] v = v
invalidate_pid rank pid (r ∷ ranks) v =
    invalidate_pid rank pid ranks
      (if r == rank then v else invalidate_other pid (find r v.daemon.sessions) v)

-- the first free ring among the n from i on
unfoldable pub first_free : (ℕ → ℕ) → ℕ → ℕ → Option ℕ
first_free owner i zero = none
first_free owner i (suc n) = if owner i == no_ring then some i else first_free owner (suc i) n

-- The ring is reset, and its owner is published.
unfoldable pub take_ring : ℕ → ℕ → Option ℕ → Server → Server × ℕ
take_ring rank epoch none v = (v, no_ring)
take_ring rank epoch (some i) v = (
  record v {
    ring_owner = set_at v.ring_owner i rank;
    rings =
        set_at v.rings i
          (record (v.rings i) { head = 0; tail = 0; owner_rank = rank; rank_epoch = epoch });
  },
  i,
)

abbrev pub new_session : RegisterRankRequest → ℕ → ℕ → ℕ → Session
new_session req epoch ring now = record {
  rank_id = req.rank_id.value;
  rank_epoch = epoch;
  pid = req.pid.value;
  gpu_id = req.gpu_id.value;
  numa_node = req.numa_node.value;
  last_heartbeat_ns = now;
  alive = true;
  ring_index = ring;
}

abbrev pub ranks_of : Table ℕ Session → List ℕ
ranks_of [] = []
ranks_of ((r, s) ∷ m) = r ∷ ranks_of m

-- the sessions after the prior ones of the rank and of the process are ended
unfoldable pub supersede : RegisterRankRequest → Server → Server
supersede req v =
    let rank = req.rank_id.value in
    let v₁ = invalidate_rank (find rank v.daemon.sessions) v in
    invalidate_pid rank req.pid.value (ranks_of v₁.daemon.sessions) v₁

-- the session with the ring that was found for it
unfoldable pub enter_with : RegisterRankRequest → Option ℕ → Server → Server × Session
enter_with req ring v =
    let epoch = v.daemon.next_rank_epoch in
    let (v', index) =
      take_ring req.rank_id.value epoch ring
        (record v { daemon = record v.daemon { next_rank_epoch = epoch + 1 } }) in
    let s = new_session req epoch index v.daemon.clock in
    (
      record v' { daemon = record v'.daemon { sessions = insert s.rank_id s v'.daemon.sessions } },
      s,
    )

unfoldable pub enter_session : RegisterRankRequest → Server → Server × Session
enter_session req v = enter_with req (first_free v.ring_owner 0 v.ring_max_ranks) v

-- OFLD_ARENA_DATA_PINNED is 1.
abbrev pub arena_fds : ℕ → List Arena → List ArenaFd
arena_fds i [] = []
arena_fds i (a ∷ rest) =
    record {
      arena_id = cast 8 a.arena_id;
      numa_node = cast 4 a.numa_node;
      kind = cast 4 1;
      size = cast 8 a.size;
      base_offset = cast 8 0;
      preferred_gpu = cast 4 0;
      flags = cast 8 0;
      fd_index = cast 4 i;
      registration_granularity = cast 4 a.registration_granularity;
      allocation_granularity = cast 4 a.allocation_granularity;
    }
    ∷ arena_fds (suc i) rest

abbrev pub file_descriptors : List Arena → ℕ → List ℕ
file_descriptors [] control = control ∷ []
file_descriptors (a ∷ rest) control = a.fd ∷ file_descriptors rest control

abbrev pub ok_message : Bytes
ok_message = cast 1 111 ∷ cast 1 107 ∷ []

-- The reply, and the file descriptors that go with it.
unfoldable pub handle_register :
    RegisterRankRequest → Server → Server × RegisterRankResponse × List ℕ
handle_register req v =
    let (v', s) = enter_session req (supersede req v) in
    (
      v',
      record {
        ok = true;
        message = ok_message;
        rank_epoch = cast 8 s.rank_epoch;
        control_generation = cast 8 v.generation;
        arenas = arena_fds 0 v.arenas;
        control_fd_index = cast 4 (length v.arenas);
        control_size = cast 8 v.total_bytes;
        num_slots = cast 4 v.daemon.num_slots;
        ring_index = cast 4 s.ring_index;
      },
      file_descriptors v.arenas v.control_fd,
    )

-- One ring in a sweep of ring_poller_loop, 256 entries at most.
unfoldable pub poll_ring : ℕ → Server → Server
poll_ring i v =
    let ring = v.rings i in
    let (r, d) = drain_ring 256 ring.owner_rank ring.rank_epoch ring v.daemon in
    if v.ring_owner i == no_ring
    then v
    else if ring.rank_epoch == 0
    then v
    else record v { daemon = d; rings = set_at v.rings i r }

-- the n rings from i on
unfoldable pub poll_rings : ℕ → ℕ → Server → Server
poll_rings i zero v = v
poll_rings i (suc n) v = poll_rings (suc i) n (poll_ring i v)

unfoldable pub ring_poller_sweep : Server → Server
ring_poller_sweep v = poll_rings 0 v.ring_max_ranks v
