-- ===== src/Wire/Messages/Registration.antt =====
-- The messages for registration and heartbeats (src/common/wire.cpp and src/common/protocol.h).
use mathlib.Core.Bool.{Bool}
use mathlib.Core.List.{List}
use state_spectre.Wire.Words.{U32, U64, Bytes}
use state_spectre.Wire.Buffer.{
  Writer, Reader, ◌>>◌, ◌>>=◌, pure, put_u32, put_u64, put_bool, put_str, put_list, get_u32,
  get_u64, get_bool, get_str, get_list,
}

pub record RegisterRankRequest : Type 0 where
  pub rank_id : U32
  pub local_rank : U32
  pub world_rank : U32
  pub gpu_id : U32
  pub numa_node : U32
  pub pid : U64
  pub capabilities : U64

unfoldable pub encode_register_rank_request : RegisterRankRequest → Writer
encode_register_rank_request m = do
  put_u32 m.rank_id
  put_u32 m.local_rank
  put_u32 m.world_rank
  put_u32 m.gpu_id
  put_u32 m.numa_node
  put_u64 m.pid
  put_u64 m.capabilities

unfoldable pub decode_register_rank_request : Reader RegisterRankRequest
decode_register_rank_request = do
  rank_id ← get_u32
  local_rank ← get_u32
  world_rank ← get_u32
  gpu_id ← get_u32
  numa_node ← get_u32
  pid ← get_u64
  capabilities ← get_u64
  pure (record {
    rank_id = rank_id;
    local_rank = local_rank;
    world_rank = world_rank;
    gpu_id = gpu_id;
    numa_node = numa_node;
    pid = pid;
    capabilities = capabilities;
  })

pub record ArenaFd : Type 0 where
  pub arena_id : U64
  pub numa_node : U32
  pub kind : U32
  pub size : U64
  pub base_offset : U64
  pub preferred_gpu : U32
  pub flags : U64
  pub fd_index : U32
  pub registration_granularity : U32
  pub allocation_granularity : U32

unfoldable pub put_arena_fd : ArenaFd → Writer
put_arena_fd m = do
  put_u64 m.arena_id
  put_u32 m.numa_node
  put_u32 m.kind
  put_u64 m.size
  put_u64 m.base_offset
  put_u32 m.preferred_gpu
  put_u64 m.flags
  put_u32 m.fd_index
  put_u32 m.registration_granularity
  put_u32 m.allocation_granularity

unfoldable pub get_arena_fd : Reader ArenaFd
get_arena_fd = do
  arena_id ← get_u64
  numa_node ← get_u32
  kind ← get_u32
  size ← get_u64
  base_offset ← get_u64
  preferred_gpu ← get_u32
  flags ← get_u64
  fd_index ← get_u32
  registration_granularity ← get_u32
  allocation_granularity ← get_u32
  pure (record {
    arena_id = arena_id;
    numa_node = numa_node;
    kind = kind;
    size = size;
    base_offset = base_offset;
    preferred_gpu = preferred_gpu;
    flags = flags;
    fd_index = fd_index;
    registration_granularity = registration_granularity;
    allocation_granularity = allocation_granularity;
  })

pub record RegisterRankResponse : Type 0 where
  pub ok : Bool
  pub message : Bytes
  pub rank_epoch : U64
  pub control_generation : U64
  pub arenas : List ArenaFd
  pub control_fd_index : U32
  pub control_size : U64
  pub num_slots : U32
  pub ring_index : U32

unfoldable pub encode_register_rank_response : RegisterRankResponse → Writer
encode_register_rank_response m = do
  put_bool m.ok
  put_str m.message
  put_u64 m.rank_epoch
  put_u64 m.control_generation
  put_list put_arena_fd m.arenas
  put_u32 m.control_fd_index
  put_u64 m.control_size
  put_u32 m.num_slots
  put_u32 m.ring_index

unfoldable pub decode_register_rank_response : Reader RegisterRankResponse
decode_register_rank_response = do
  ok ← get_bool
  message ← get_str
  rank_epoch ← get_u64
  control_generation ← get_u64
  arenas ← get_list get_arena_fd
  control_fd_index ← get_u32
  control_size ← get_u64
  num_slots ← get_u32
  ring_index ← get_u32
  pure (record {
    ok = ok;
    message = message;
    rank_epoch = rank_epoch;
    control_generation = control_generation;
    arenas = arenas;
    control_fd_index = control_fd_index;
    control_size = control_size;
    num_slots = num_slots;
    ring_index = ring_index;
  })

pub record HeartbeatRequest : Type 0 where
  pub rank_id : U32
  pub rank_epoch : U64
  pub timestamp_ns : U64

unfoldable pub encode_heartbeat_request : HeartbeatRequest → Writer
encode_heartbeat_request m = do put_u32 m.rank_id; put_u64 m.rank_epoch; put_u64 m.timestamp_ns

unfoldable pub decode_heartbeat_request : Reader HeartbeatRequest
decode_heartbeat_request = do
  rank_id ← get_u32
  rank_epoch ← get_u64
  timestamp_ns ← get_u64
  pure (record { rank_id = rank_id; rank_epoch = rank_epoch; timestamp_ns = timestamp_ns })

pub record HeartbeatResponse : Type 0 where
  pub ok : Bool
  pub message : Bytes

unfoldable pub encode_heartbeat_response : HeartbeatResponse → Writer
encode_heartbeat_response m = do put_bool m.ok; put_str m.message

unfoldable pub decode_heartbeat_response : Reader HeartbeatResponse
decode_heartbeat_response = do
  ok ← get_bool
  message ← get_str
  pure (record { ok = ok; message = message })
