-- ===== src/Replies.antt =====
-- The outcome of a request: the answer, or the refusal that the reply's message names.
use state_spectre.Prelude.{Bool, true, false}

pub data Refusal : Type 0 where
  epoch_invalid nbytes_zero no_pinned_capacity slot_overlap lease_mismatch : Refusal
  not_reserved_d2h not_pinned_valid not_lease_owner rejected : Refusal
  unknown_tensor version_not_latest not_resident no_readback_capacity : Refusal
  store_disabled job_not_registered version_sealed nbytes_mismatch attach_disabled : Refusal
  quota_exceeded create_disabled unknown_object bytes_not_valid not_attachable : Refusal
  hash_mismatch not_readable cold_not_ready no_warm_capacity readback_failed transitioning : Refusal
  manifests_disabled seal_failed not_sealed object_not_sealed not_in_manifest : Refusal
  export_disabled export_quota staging_failed transport_failed : Refusal

pub data Reply {ℓ} (A : Type ℓ) : Type ℓ where
  ok : A → Reply A
  err : Refusal → Reply A

abbrev pub is_ok {ℓ} : {A : Type ℓ} → Reply A → Bool
is_ok (ok a) = true
is_ok (err e) = false
