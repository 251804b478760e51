-- ===== src/Keys.antt =====
-- src/daemon/canonical.cpp: the identity string of a canonical key and the content hash.
-- Characters are their codes.
pub mod Fields
pub mod Injective
use state_spectre.Prelude.{
  ℕ, zero, suc, ◌+◌, ◌-◌, ◌*◌, ◌/◌, ◌%◌, ◌^◌, List, [], ◌∷◌, ◌++◌, ltb, if◌then◌else◌,
}
use Prim.Native.Nat.{bit_xor}
use state_spectre.State.{TensorKey}

-- The decimal digits of a number in front of a text; a uint64_t has at most 20.
unfoldable pub digits_before : ℕ → ℕ → List ℕ → List ℕ
digits_before zero n acc = acc
digits_before (suc f) n acc =
    let rest = digits_before f (n / 10) ((48 + n % 10) ∷ acc) in
    if ltb n 10 then (48 + n) ∷ acc else rest

unfoldable pub decimal : ℕ → List ℕ
decimal n = digits_before 20 n []

-- snprintf("%llu:")
abbrev pub u64_field : ℕ → List ℕ
u64_field n = decimal n ++ (58 ∷ [])

-- snprintf("%lld:") of an int32_t given by its bit pattern
abbrev pub i64_field : ℕ → List ℕ
i64_field n = if ltb n (2 ^ 31) then u64_field n else 45 ∷ u64_field (2 ^ 32 - n)

-- The fields in the order in which they are appended. The job's name is not among them.
unfoldable pub canonical_key_string : TensorKey → List ℕ
canonical_key_string k =
    u64_field k.job.tenant_id
    ++ (u64_field k.job.job_id
        ++ (u64_field k.job.launch_epoch
            ++ (u64_field k.model_role
                ++ (u64_field k.model_version
                    ++ (u64_field k.param_id
                        ++ (u64_field k.param_fqn_hash
                            ++ (u64_field k.dtype
                                ++ (u64_field k.layout
                                    ++ (u64_field k.nbytes
                                        ++ (u64_field k.shape_hash
                                            ++ (u64_field k.stride_hash
                                                ++ (u64_field k.pp_rank
                                                    ++ (u64_field k.tp_rank
                                                        ++ (u64_field k.ep_rank
                                                            ++ (u64_field k.etp_rank
                                                            ++ (i64_field k.expert_id
                                                            ++ (u64_field k.shard_offset
                                                            ++ u64_field
                                                            k.shard_nbytes)))))))))))))))))

abbrev pub fnv_prime : ℕ
fnv_prime = 1099511628211

abbrev pub fnv_basis : ℕ
fnv_basis = 1469598103934665603

abbrev pub mix_step : ℕ → ℕ → ℕ
mix_step h v = bit_xor h v * fnv_prime % 2 ^ 64

abbrev pub rotate_left : ℕ → ℕ
rotate_left h = h * 2 % 2 ^ 64 + h / 2 ^ 63

-- the loop of hash_bytes, over the bytes that are left
unfoldable pub hash_from : List ℕ → ℕ → ℕ → ℕ × ℕ
hash_from [] h1 h2 = (h1, h2)
hash_from (b ∷ bs) h1 h2 = hash_from bs (mix_step h1 b) (rotate_left (mix_step h2 b))

unfoldable pub hash_bytes : List ℕ → ℕ × ℕ
hash_bytes bs = hash_from bs fnv_basis fnv_prime
