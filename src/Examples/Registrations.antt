-- ===== src/Examples/Registrations.antt =====
-- The theorems on registration at a process that comes back under another rank.
use state_spectre.Prelude.{ℕ, ◌≡◌, ◌&&◌, not, some, [], ◌==◌, if◌then◌else◌, arith, nat_eq}
use state_spectre.Prelude.Table.{find}
use state_spectre.State.{Session}
use state_spectre.Leases.{epoch_valid}
use state_spectre.Ring.{Ring}
use state_spectre.Wire.Words.{cast}
use state_spectre.Wire.Messages.Registration.{RegisterRankRequest}
use state_spectre.Register.{Server, handle_register}
use state_spectre.Register.Exclusive.{IsExclusive, session_of}
use state_spectre.Register.Superseded.{handle_register-IsExclusive, handle_register_lem, of_process}
use state_spectre.Examples.{idle, rank_one}

abbrev empty_ring : Ring
empty_ring = record {
  capacity = 4;
  owner_rank = 1;
  rank_epoch = 5;
  head = 0;
  tail = 0;
  entries = λ i. record {
    lease_id = 0;
    tensor_id = 0;
    version = 0;
    slot_id = 0;
    event_type = 0;
    timestamp_ns = 0;
  };
}

-- two rings, the first with rank 1
abbrev server : Server
server = record {
  daemon = idle;
  rings = λ i. empty_ring;
  ring_owner = λ i. if i == 0 then 1 else 0xFFFFFFFF;
  ring_max_ranks = 2;
  arenas = [];
  control_fd = 9;
  generation = 1;
  total_bytes = 4096;
}

only_rank_one : (r : ℕ) (t : Session) → session_of server r ≡ some t → (r ≡ 1) × (t ≡ rank_one)
unfolding find
only_rank_one r t e = ground arith

server-IsExclusive : IsExclusive server
server-IsExclusive = record {
  few = omega arith;
  keyed = λ r t e. ground (arith, only_rank_one r t e);
  given = λ r t e. ground (arith, only_rank_one r t e);
  real = λ r t e. ground (arith, only_rank_one r t e);
  one_pid = λ r q t u e f a b p. ground (arith, only_rank_one r t e, only_rank_one q u f);
  owned = λ r t e a h. ground (arith, only_rank_one r t e);
}

-- rank 2, of the process of rank 1
abbrev comes_back : RegisterRankRequest
comes_back = record {
  rank_id = cast 4 2;
  local_rank = cast 4 0;
  world_rank = cast 4 0;
  gpu_id = cast 4 0;
  numa_node = cast 4 0;
  pid = cast 8 77;
  capabilities = cast 8 0;
}

handle_register-IsExclusive_example : IsExclusive (handle_register comes_back server).0
unfolding cast
handle_register-IsExclusive_example =
    handle_register-IsExclusive comes_back server (omega arith) server-IsExclusive

handle_register_lem_example : epoch_valid (handle_register comes_back server).0.daemon 1 5 ≡ (
    if comes_back.rank_id.value == 1
    then server.daemon.next_rank_epoch == 5
    else epoch_valid server.daemon 1 5
      && not (of_process comes_back.pid.value (session_of server 1)))
handle_register_lem_example = handle_register_lem comes_back server 1 5 server-IsExclusive
