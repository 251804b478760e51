-- ===== src/State/Model.antt =====
-- src/daemon/canonical.h and src/common/protocol_v2.h: jobs, canonical objects, manifests.
use Prim.Native.Nat.{ℕ, ◌+◌, ◌-◌, ◌^◌, ◌/◌, ◌%◌}
use mathlib.Core.Path.{◌≡◌}
use mathlib.Core.Bool.{Bool, true, false, ◌&&◌}
use mathlib.Core.Logic.{◌↔◌}
use mathlib.Core.List.{List}
use native.Mathlib.Omega.{arith}
use state_spectre.Prelude.{Eq, ◌==◌, if◌then◌else◌}

-- `JobUID`, and the identity in a `JobKeyWire`
pub record JobUid : Type 0 where
  pub tenant_id : ℕ
  pub job_id : ℕ
  pub launch_epoch : ℕ

abbrev pub job_uid_eq : JobUid → JobUid → Bool
job_uid_eq a b =
    a.tenant_id == b.tenant_id && (a.job_id == b.job_id && a.launch_epoch == b.launch_epoch)

pub job_uid_eq_iff : (a b : JobUid) → (job_uid_eq a b ≡ true) ↔ (a ≡ b)
job_uid_eq_iff a b = ground arith

instance abbrev pub job_uid_Eq : Eq JobUid
job_uid_Eq = record { beq = job_uid_eq; beq_iff = job_uid_eq_iff }

pub data JobState : Type 0 where
  registered running draining terminating terminated error : JobState

abbrev pub is_terminated : JobState → Bool
is_terminated JobState.terminated = true
is_terminated _ = false

pub record JobRecord : Type 0 where
  pub uid : JobUid
  pub job_name : List ℕ
  pub state : JobState
  pub created_ns : ℕ
  pub heartbeat_ns : ℕ
  pub pinned_bytes : ℕ
  pub inflight_export_bytes : ℕ
  pub canonical_object_count : ℕ
  pub max_pinned_bytes : ℕ
  pub max_pageable_bytes : ℕ
  pub max_nvme_bytes : ℕ
  pub max_inflight_d2h_bytes : ℕ
  pub max_inflight_export_bytes : ℕ

-- `CanonicalTensorKeyWire`, without the debug name. `expert_id`, an int32_t, is its bit pattern.
pub record TensorKey : Type 0 where
  pub job : JobUid
  pub model_role : ℕ
  pub model_version : ℕ
  pub param_id : ℕ
  pub param_fqn_hash : ℕ
  pub dtype : ℕ
  pub layout : ℕ
  pub nbytes : ℕ
  pub shape_hash : ℕ
  pub stride_hash : ℕ
  pub pp_rank : ℕ
  pub tp_rank : ℕ
  pub ep_rank : ℕ
  pub etp_rank : ℕ
  pub expert_id : ℕ
  pub shard_offset : ℕ
  pub shard_nbytes : ℕ

pub data ObjectState : Type 0 where
  missing creating valid_pinned valid_pageable valid_nvme valid_multi_tier : ObjectState
  sealed export_in_flight deleted error : ObjectState

abbrev pub is_creating : ObjectState → Bool
is_creating ObjectState.creating = true
is_creating _ = false

abbrev pub is_sealed_object : ObjectState → Bool
is_sealed_object ObjectState.sealed = true
is_sealed_object _ = false

-- the six states whose bytes can be read
abbrev pub is_readable : ObjectState → Bool
is_readable ObjectState.valid_pinned = true
is_readable ObjectState.valid_pageable = true
is_readable ObjectState.valid_nvme = true
is_readable ObjectState.valid_multi_tier = true
is_readable ObjectState.sealed = true
is_readable ObjectState.export_in_flight = true
is_readable _ = false

-- neither CREATING nor MISSING nor ERROR nor DELETED
abbrev pub is_attachable : ObjectState → Bool
is_attachable ObjectState.creating = false
is_attachable ObjectState.missing = false
is_attachable ObjectState.error = false
is_attachable ObjectState.deleted = false
is_attachable _ = true

-- `CanonicalObject`; `holders` is a set, without repetitions
pub record Object : Type 0 where
  pub object_id : ℕ
  pub key : TensorKey
  pub key_str : List ℕ
  pub nbytes : ℕ
  pub state : ObjectState
  pub refcount : ℕ
  pub export_refcount : ℕ
  pub restore_refcount : ℕ
  pub producer_rank : ℕ
  pub holders : List ℕ
  pub content_hash_lo : ℕ
  pub content_hash_hi : ℕ
  pub synthetic_tid : ℕ
  pub version : ℕ
  pub lease_id : ℕ
  pub base_slot : ℕ
  pub slot_count : ℕ
  pub creating_rank : ℕ
  pub created_ns : ℕ
  pub sealed_ns : ℕ
  pub last_access_ns : ℕ

pub data ManifestState : Type 0 where
  open_manifest sealing sealed revoked error : ManifestState

abbrev pub is_sealed : ManifestState → Bool
is_sealed ManifestState.sealed = true
is_sealed _ = false

pub record Manifest : Type 0 where
  pub job : JobUid
  pub model_role : ℕ
  pub model_version : ℕ
  pub state : ManifestState
  pub object_ids : List ℕ
  pub total_nbytes : ℕ
  pub created_ns : ℕ
  pub sealed_ns : ℕ
  pub manifest_hash_lo : ℕ
  pub manifest_hash_hi : ℕ

pub record VersionKey : Type 0 where
  pub job : JobUid
  pub model_role : ℕ
  pub model_version : ℕ

abbrev pub version_key_eq : VersionKey → VersionKey → Bool
version_key_eq a b =
    job_uid_eq a.job b.job && (a.model_role == b.model_role && a.model_version == b.model_version)

pub version_key_eq_iff : (a b : VersionKey) → (version_key_eq a b ≡ true) ↔ (a ≡ b)
version_key_eq_iff a b = ground arith

instance abbrev pub version_key_Eq : Eq VersionKey
version_key_Eq = record { beq = version_key_eq; beq_iff = version_key_eq_iff }

pub record RoleKey : Type 0 where
  pub job : JobUid
  pub model_role : ℕ

abbrev pub role_key_eq : RoleKey → RoleKey → Bool
role_key_eq a b = job_uid_eq a.job b.job && a.model_role == b.model_role

pub role_key_eq_iff : (a b : RoleKey) → (role_key_eq a b ≡ true) ↔ (a ≡ b)
role_key_eq_iff a b = ground arith

instance abbrev pub role_key_Eq : Eq RoleKey
role_key_Eq = record { beq = role_key_eq; beq_iff = role_key_eq_iff }

-- Top bit of a tensor id: a tensor that the daemon made up for a canonical object.
abbrev pub canonical_tid_bit : ℕ
canonical_tid_bit = 2 ^ 63

-- tid & kCanonicalTidBit, on uint64_t
abbrev pub is_canonical_tid : ℕ → Bool
is_canonical_tid tid = tid / 2 ^ 63 % 2 == 1

-- kCanonicalTidBit | object_id
abbrev pub canonical_tid : ℕ → ℕ
canonical_tid object_id = if is_canonical_tid object_id then object_id else object_id + 2 ^ 63

-- tid & ~kCanonicalTidBit
abbrev pub object_of_tid : ℕ → ℕ
object_of_tid tid = if is_canonical_tid tid then tid - 2 ^ 63 else tid
