-- ===== src/Examples/Replies.antt =====
-- Handlers that refuse whatever is asked: the default-initialised response of each operation.
use Prim.Native.Nat.{ℕ, ◌+◌}
use mathlib.Core.Bool.{false}
use mathlib.Core.List.{[]}
use state_spectre.Wire.Words.{cast}
use state_spectre.Wire.Messages.Keys.{JobKeyWire}
use state_spectre.Wire.Calls.{RequestOf, ResponseOf}
use state_spectre.Wire.OpCodes.{
  OpCode, k_invalid, unlisted, k_register_rank, k_heartbeat, k_request_offload,
  k_mark_d2h_submitted, k_mark_d2h_complete, k_request_prefetch, k_mark_h2d_submitted,
  k_mark_h2d_complete, k_release_lease, k_query_location, k_batch_complete, k_shutdown, k_get_stats,
  k_register_job, k_request_canonical_evict, k_commit_canonical_object, k_seal_model_version,
  k_get_latest_sealed_version, k_get_manifest, k_pull_tensor, k_request_canonical_restore,
  k_release_canonical_restore, k_drop_canonical_version, k_release_canonical,
}

abbrev pub no_job : JobKeyWire
no_job = record { tenant_id = cast 8 0; job_id = cast 8 0; launch_epoch = cast 8 0; job_name = [] }

-- the state counts the requests
abbrev pub refuse_all : (op : OpCode) → ℕ → RequestOf op → ℕ × ResponseOf op
refuse_all k_invalid n m = absurd m
refuse_all (unlisted w) n m = absurd m
refuse_all k_register_rank n m = (
  n + 1,
  record {
    ok = false;
    message = [];
    rank_epoch = cast 8 0;
    control_generation = cast 8 0;
    arenas = [];
    control_fd_index = cast 4 0;
    control_size = cast 8 0;
    num_slots = cast 4 0;
    ring_index = cast 4 0;
  },
)
refuse_all k_heartbeat n m = (n + 1, record { ok = false; message = [] })
refuse_all k_request_offload n m = (
  n + 1,
  record {
    ok = false;
    message = [];
    lease_id = cast 8 0;
    slot_id = cast 4 0;
    arena_id = cast 8 0;
    arena_offset = cast 8 0;
    capacity = cast 8 0;
    state = cast 4 0;
    blocked = false;
  },
)
refuse_all k_mark_d2h_submitted n m = (n + 1, record { ok = false; message = [] })
refuse_all k_mark_d2h_complete n m =
    (n + 1, record { ok = false; message = []; latest_version = false; drain_enqueued = false })
refuse_all k_request_prefetch n m = (
  n + 1,
  record {
    ok = false;
    message = [];
    lease_id = cast 8 0;
    slot_id = cast 4 0;
    arena_id = cast 8 0;
    arena_offset = cast 8 0;
    nbytes = cast 8 0;
    state = cast 4 0;
    ready = false;
    version = cast 8 0;
  },
)
refuse_all k_mark_h2d_submitted n m = (n + 1, record { ok = false; message = [] })
refuse_all k_mark_h2d_complete n m = (n + 1, record { ok = false; message = [] })
refuse_all k_release_lease n m = (n + 1, record { ok = false; message = [] })
refuse_all k_query_location n m = (
  n + 1,
  record {
    ok = false;
    message = [];
    location_kind = cast 4 0;
    slot_id = cast 4 0;
    nbytes = cast 8 0;
    version = cast 8 0;
  },
)
refuse_all k_batch_complete n m =
    (n + 1, record { ok = false; message = []; accepted = cast 4 0; rejected = cast 4 0 })
refuse_all k_shutdown n m = (n + 1, record { ok = false; message = [] })
refuse_all k_get_stats n m = (n + 1, record { ok = false; message = []; keys = []; values = [] })
refuse_all k_register_job n m =
    (n + 1, record { ok = false; message = []; job = no_job; control_generation = cast 8 0 })
refuse_all k_request_canonical_evict n m = (
  n + 1,
  record {
    ok = false;
    message = [];
    action = cast 4 0;
    object_id = cast 8 0;
    lease_id = cast 8 0;
    slot_id = cast 4 0;
    arena_id = cast 8 0;
    arena_offset = cast 8 0;
    capacity = cast 8 0;
    synthetic_tid = cast 8 0;
  },
)
refuse_all k_commit_canonical_object n m =
    (n + 1, record { ok = false; message = []; object_id = cast 8 0; won = false })
refuse_all k_seal_model_version n m = (
  n + 1,
  record {
    ok = false;
    message = [];
    state = cast 4 0;
    tensor_count = cast 8 0;
    total_nbytes = cast 8 0;
    manifest_hash_lo = cast 8 0;
    manifest_hash_hi = cast 8 0;
  },
)
refuse_all k_get_latest_sealed_version n m =
    (n + 1, record { ok = false; message = []; found = false; model_version = cast 8 0 })
refuse_all k_get_manifest n m = (
  n + 1,
  record {
    ok = false;
    message = [];
    job = no_job;
    model_role = cast 4 0;
    model_version = cast 8 0;
    state = cast 4 0;
    tensors = [];
  },
)
refuse_all k_pull_tensor n m = (
  n + 1,
  record {
    ok = false;
    message = [];
    object_id = cast 8 0;
    nbytes = cast 8 0;
    transport = cast 4 0;
    content_hash_lo = cast 8 0;
    content_hash_hi = cast 8 0;
    transport_metadata = [];
  },
)
refuse_all k_request_canonical_restore n m = (
  n + 1,
  record {
    ok = false;
    message = [];
    retriable = false;
    object_id = cast 8 0;
    nbytes = cast 8 0;
    arena_id = cast 8 0;
    arena_offset = cast 8 0;
  },
)
refuse_all k_release_canonical_restore n m = (n + 1, record { ok = false; message = [] })
refuse_all k_drop_canonical_version n m = (
  n + 1,
  record {
    ok = false;
    message = [];
    dropped_count = cast 8 0;
    skipped_inflight = cast 8 0;
    bytes_freed = cast 8 0;
  },
)
refuse_all k_release_canonical n m = (
  n + 1,
  record {
    ok = false;
    message = [];
    released_count = cast 8 0;
    freed_count = cast 8 0;
    bytes_freed = cast 8 0;
  },
)
