-- ===== src/Examples/Keys.antt =====
-- The theorem on key strings at a key with a negative expert id.
use state_spectre.State.{TensorKey}
use state_spectre.Examples.{key}

abbrev expert_key : TensorKey
expert_key = record key { expert_id = 0xFFFFFFFF }
