-- ===== src/Examples.antt =====
-- Concrete states and requests of the daemon, for the examples of the theorems.
mod Rings
mod SlotsAndLeases
mod ObjectsAndVersions
mod Keys
mod Layouts
mod Transfers
mod Replies
mod Messages
mod Registrations
mod Plans
mod Configs
use state_spectre.Prelude.{
  ℕ, zero, suc, ◌+◌, ◌^◌, Bool, true, false, Option, none, some, List, [], ◌∷◌, leb,
}
use state_spectre.State.{
  Config, Window, Session, Lease, Location, LocationKind, ColdEntry, Slot, SlotState, Daemon,
  JobUid, JobRecord, JobState, TensorKey, Object, ObjectState, Manifest, ManifestState, VersionKey,
  RoleKey, Counters,
}
use state_spectre.Drain.{DrainIo}
use state_spectre.Keys.{canonical_key_string}

abbrev pub cfg : Config
cfg = record {
  allocation_granularity_bytes = 4096;
  drain_on_d2h_complete = true;
  heartbeat_timeout_ms = 10;
  v2_enable_canonical_store = true;
  v2_enable_manifests = true;
  v2_enable_rollout_export = true;
  v2_include_launch_epoch = true;
  v2_creating_policy = 0;
  v2_pressure_reached = λ used total. leb total used;
  v2_seal_requires_all_objects_valid = true;
  v2_retain_sealed_versions = 1;
  v2_max_concurrent_exports_per_job = 2;
  v2_quota_max_pinned_bytes = 0;
  v2_quota_max_pageable_bytes = 0;
  v2_quota_max_nvme_bytes = 0;
  v2_quota_max_inflight_d2h_bytes = 0;
  v2_quota_max_inflight_export_bytes = 0;
}

abbrev pub free_slot : ℕ → Slot
free_slot id = record {
  state = SlotState.free;
  slot_id = id;
  numa_node = 0;
  gpu_preferred = 0;
  arena_id = 0;
  arena_offset = 0;
  capacity = 4096;
  nbytes = 0;
  tensor_id = 0;
  version = 0;
  lease_id = 0;
  owner_rank = 0;
  owner_pid = 0;
  rank_epoch = 0;
  flags = 0;
  cold_ref = 0;
  checksum = 0;
  last_touch_ns = 0;
  submit_seq = 0;
  complete_seq = 0;
}

abbrev pub four_slots : Window
four_slots = record { numa_node = 0; gpu = 0; is_overflow = false; slot_ids = 0 ∷ 1 ∷ 2 ∷ 3 ∷ [] }

abbrev pub rank_one : Session
rank_one = record {
  rank_id = 1;
  rank_epoch = 5;
  pid = 77;
  gpu_id = 0;
  numa_node = 0;
  last_heartbeat_ns = 1000;
  alive = true;
  ring_index = 0;
}

abbrev pub uid : JobUid
uid = record { tenant_id = 1; job_id = 2; launch_epoch = 1 }

abbrev pub job : JobRecord
job = record {
  uid = uid;
  job_name = [];
  state = JobState.running;
  created_ns = 0;
  heartbeat_ns = 0;
  pinned_bytes = 0;
  inflight_export_bytes = 0;
  canonical_object_count = 0;
  max_pinned_bytes = 0;
  max_pageable_bytes = 0;
  max_nvme_bytes = 0;
  max_inflight_d2h_bytes = 0;
  max_inflight_export_bytes = 0;
}

abbrev pub key : TensorKey
key = record {
  job = uid;
  model_role = 0;
  model_version = 3;
  param_id = 9;
  param_fqn_hash = 0;
  dtype = 0;
  layout = 0;
  nbytes = 4096;
  shape_hash = 0;
  stride_hash = 0;
  pp_rank = 0;
  tp_rank = 0;
  ep_rank = 0;
  etp_rank = 0;
  expert_id = 0;
  shard_offset = 0;
  shard_nbytes = 0;
}

-- one window of four free slots, one rank, one job
abbrev pub idle : Daemon
idle = record {
  cfg = cfg;
  num_slots = 4;
  windows = four_slots ∷ [];
  window_index = (0, 0) ∷ [];
  slots = free_slot;
  sessions = (1, rank_one) ∷ [];
  leases = [];
  locations = [];
  cold_store = [];
  next_lease_id = 1;
  next_rank_epoch = 6;
  next_cold_ref = 1;
  jobs = (uid, job) ∷ [];
  objects = [];
  object_by_key = [];
  manifests = [];
  latest_sealed = [];
  next_object_id = 1;
  next_launch_epoch = 2;
  drain_queue = [];
  readback_queue = [];
  metrics = λ m. 0;
  clock = 1000;
}

-- the drain's write fails, and nothing happens meanwhile
abbrev pub no_io : ℕ → DrainIo
no_io i = record { cold = none; meanwhile = λ d. d }

-- a lease of rank 1 on slots 0 and 1, for tensor 40
abbrev pub lease_two : Lease
lease_two = record {
  lease_id = 1;
  base_slot = 0;
  slot_count = 2;
  tensor_id = 40;
  version = 7;
  owner_rank = 1;
  owner_pid = 77;
  rank_epoch = 5;
  nbytes = 5000;
  is_prefetch = false;
}

abbrev pub weights : ObjectState → Object
weights st = record {
  object_id = 1;
  key = key;
  key_str = 49 ∷ [];
  nbytes = 4096;
  state = st;
  refcount = 1;
  export_refcount = 0;
  restore_refcount = 0;
  producer_rank = 1;
  holders = 1 ∷ [];
  content_hash_lo = 11;
  content_hash_hi = 12;
  synthetic_tid = 2 ^ 63 + 1;
  version = 1;
  lease_id = 1;
  base_slot = 0;
  slot_count = 1;
  creating_rank = 1;
  created_ns = 0;
  sealed_ns = 0;
  last_access_ns = 0;
}

abbrev pub version_three : VersionKey
version_three = record { job = uid; model_role = 0; model_version = 3 }

abbrev pub sealed_three : Manifest
sealed_three = record {
  job = uid;
  model_role = 0;
  model_version = 3;
  state = ManifestState.sealed;
  object_ids = 1 ∷ [];
  total_nbytes = 4096;
  created_ns = 0;
  sealed_ns = 0;
  manifest_hash_lo = 0;
  manifest_hash_hi = 0;
}

-- the object's bytes in slot 0
abbrev pub pinned_at_zero : Location
pinned_at_zero = record {
  tensor_id = 2 ^ 63 + 1;
  version = 1;
  kind = LocationKind.pinned;
  slot_id = 0;
  cold_ref = 0;
  nbytes = 4096;
}

-- one canonical object in the given state, in slot 0
abbrev pub with_object : ObjectState → Daemon
with_object st = record idle {
  objects = (1, weights st) ∷ [];
  object_by_key = (49 ∷ [], 1) ∷ [];
  locations = (2 ^ 63 + 1, pinned_at_zero) ∷ [];
  next_object_id = 2;
}

-- that object SEALED, in a sealed manifest of its version
abbrev pub sealed_state : Daemon
sealed_state = record (with_object ObjectState.sealed) {
  manifests = (version_three, sealed_three) ∷ [];
  latest_sealed = (record { job = uid; model_role = 0 }, 3) ∷ [];
}
