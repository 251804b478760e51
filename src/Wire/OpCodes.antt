-- ===== src/Wire/OpCodes.antt =====
-- The operation codes (src/common/protocol.h).
use mathlib.Core.Path.{◌≡◌, refl}
use mathlib.Core.Bool.{Bool, true, false}
use state_spectre.Prelude.{if◌then◌else◌, ◌==◌}
use state_spectre.Wire.Words.{U16, cast}

-- An `enum class : uint16_t` also holds the values that it does not list.
pub data OpCode : Type 0 where
  k_invalid : OpCode
  k_register_rank : OpCode
  k_heartbeat : OpCode
  k_request_offload : OpCode
  k_mark_d2h_submitted : OpCode
  k_mark_d2h_complete : OpCode
  k_request_prefetch : OpCode
  k_mark_h2d_submitted : OpCode
  k_mark_h2d_complete : OpCode
  k_release_lease : OpCode
  k_query_location : OpCode
  k_batch_complete : OpCode
  k_shutdown : OpCode
  k_get_stats : OpCode
  k_register_job : OpCode
  k_request_canonical_evict : OpCode
  k_commit_canonical_object : OpCode
  k_seal_model_version : OpCode
  k_get_latest_sealed_version : OpCode
  k_get_manifest : OpCode
  k_pull_tensor : OpCode
  k_request_canonical_restore : OpCode
  k_release_canonical_restore : OpCode
  k_drop_canonical_version : OpCode
  k_release_canonical : OpCode
  unlisted : U16 → OpCode

-- `static_cast<uint16_t>(op)`
unfoldable pub op_code : OpCode → U16
op_code k_invalid = cast 2 0
op_code k_register_rank = cast 2 1
op_code k_heartbeat = cast 2 2
op_code k_request_offload = cast 2 3
op_code k_mark_d2h_submitted = cast 2 4
op_code k_mark_d2h_complete = cast 2 5
op_code k_request_prefetch = cast 2 6
op_code k_mark_h2d_submitted = cast 2 7
op_code k_mark_h2d_complete = cast 2 8
op_code k_release_lease = cast 2 9
op_code k_query_location = cast 2 10
op_code k_batch_complete = cast 2 11
op_code k_shutdown = cast 2 12
op_code k_get_stats = cast 2 13
op_code k_register_job = cast 2 20
op_code k_request_canonical_evict = cast 2 21
op_code k_commit_canonical_object = cast 2 22
op_code k_seal_model_version = cast 2 23
op_code k_get_latest_sealed_version = cast 2 24
op_code k_get_manifest = cast 2 25
op_code k_pull_tensor = cast 2 26
op_code k_request_canonical_restore = cast 2 27
op_code k_release_canonical_restore = cast 2 28
op_code k_drop_canonical_version = cast 2 29
op_code k_release_canonical = cast 2 30
op_code (unlisted w) = w

-- `static_cast<OpCode>(w)`
unfoldable pub op_of : U16 → OpCode
op_of w =
    if w.value == 0
    then k_invalid
    else if w.value == 1
    then k_register_rank
    else if w.value == 2
    then k_heartbeat
    else if w.value == 3
    then k_request_offload
    else if w.value == 4
    then k_mark_d2h_submitted
    else if w.value == 5
    then k_mark_d2h_complete
    else if w.value == 6
    then k_request_prefetch
    else if w.value == 7
    then k_mark_h2d_submitted
    else if w.value == 8
    then k_mark_h2d_complete
    else if w.value == 9
    then k_release_lease
    else if w.value == 10
    then k_query_location
    else if w.value == 11
    then k_batch_complete
    else if w.value == 12
    then k_shutdown
    else if w.value == 13
    then k_get_stats
    else if w.value == 20
    then k_register_job
    else if w.value == 21
    then k_request_canonical_evict
    else if w.value == 22
    then k_commit_canonical_object
    else if w.value == 23
    then k_seal_model_version
    else if w.value == 24
    then k_get_latest_sealed_version
    else if w.value == 25
    then k_get_manifest
    else if w.value == 26
    then k_pull_tensor
    else if w.value == 27
    then k_request_canonical_restore
    else if w.value == 28
    then k_release_canonical_restore
    else if w.value == 29
    then k_drop_canonical_version
    else if w.value == 30
    then k_release_canonical
    else unlisted w

-- The codes that the switch of `OffloadDaemon::dispatch` has a case for.
unfoldable pub listed : OpCode → Bool
listed k_invalid = false
listed (unlisted w) = false
listed op = true

pub op_of-op_code : (op : OpCode) → listed op ≡ true → op_of (op_code op) ≡ op
unfolding op_of op_code listed cast
op_of-op_code k_invalid h = cc
op_of-op_code (unlisted w) h = cc
op_of-op_code k_register_rank h = refl
op_of-op_code k_heartbeat h = refl
op_of-op_code k_request_offload h = refl
op_of-op_code k_mark_d2h_submitted h = refl
op_of-op_code k_mark_d2h_complete h = refl
op_of-op_code k_request_prefetch h = refl
op_of-op_code k_mark_h2d_submitted h = refl
op_of-op_code k_mark_h2d_complete h = refl
op_of-op_code k_release_lease h = refl
op_of-op_code k_query_location h = refl
op_of-op_code k_batch_complete h = refl
op_of-op_code k_shutdown h = refl
op_of-op_code k_get_stats h = refl
op_of-op_code k_register_job h = refl
op_of-op_code k_request_canonical_evict h = refl
op_of-op_code k_commit_canonical_object h = refl
op_of-op_code k_seal_model_version h = refl
op_of-op_code k_get_latest_sealed_version h = refl
op_of-op_code k_get_manifest h = refl
op_of-op_code k_pull_tensor h = refl
op_of-op_code k_request_canonical_restore h = refl
op_of-op_code k_release_canonical_restore h = refl
op_of-op_code k_drop_canonical_version h = refl
op_of-op_code k_release_canonical h = refl
