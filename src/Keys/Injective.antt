-- ===== src/Keys/Injective.antt =====
-- src/daemon/canonical.cpp: the key string against the key.
use state_spectre.Prelude.{◌^◌, Bool, ltb, ◌&&◌}
use state_spectre.State.{TensorKey}

-- Every field fits the integer that the daemon formats: 64 bits, and 32 for the signed expert id.
abbrev pub fits : TensorKey → Bool
fits k =
    ltb k.job.tenant_id (2 ^ 64)
    && (ltb k.job.job_id (2 ^ 64)
        && (ltb k.job.launch_epoch (2 ^ 64)
            && (ltb k.model_role (2 ^ 64)
                && (ltb k.model_version (2 ^ 64)
                    && (ltb k.param_id (2 ^ 64)
                        && (ltb k.param_fqn_hash (2 ^ 64)
                            && (ltb k.dtype (2 ^ 64)
                                && (ltb k.layout (2 ^ 64)
                                    && (ltb k.nbytes (2 ^ 64)
                                        && (ltb k.shape_hash (2 ^ 64)
                                            && (ltb k.stride_hash (2 ^ 64)
                                                && (ltb k.pp_rank (2 ^ 64)
                                                    && (ltb k.tp_rank (2 ^ 64)
                                                        && (ltb k.ep_rank (2 ^ 64)
                                                            && (ltb k.etp_rank (2 ^ 64)
                                                            && (ltb k.expert_id (2 ^ 32)
                                                            && (ltb k.shard_offset (2 ^ 64)
                                                            && (ltb k.shard_nbytes
                                                            (2 ^ 64)))))))))))))))))))
