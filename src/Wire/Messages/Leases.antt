-- ===== src/Wire/Messages/Leases.antt =====
-- The messages for leases, locations, completions and administration (src/common/wire.cpp and src/common/protocol.h).
use mathlib.Core.Bool.{Bool}
use Prim.Native.Nat.{ℕ, zero, suc}
use mathlib.Core.List.{List, [], ◌∷◌}
use state_spectre.Prelude.{length}
use state_spectre.Wire.Words.{U32, U64, Bytes, cast}
use state_spectre.Wire.Buffer.{
  Writer, Reader, ◌>>◌, ◌>>=◌, pure, done, refuse, put_u32, put_u64, put_bool, put_str, put_list,
  get_u32, get_u64, get_bool, get_str, get_list,
}

pub record ReleaseLeaseRequest : Type 0 where
  pub rank_id : U32
  pub rank_epoch : U64
  pub lease_id : U64
  pub slot_id : U32
  pub reason : Bytes

unfoldable pub encode_release_lease_request : ReleaseLeaseRequest → Writer
encode_release_lease_request m = do
  put_u32 m.rank_id
  put_u64 m.rank_epoch
  put_u64 m.lease_id
  put_u32 m.slot_id
  put_str m.reason

unfoldable pub decode_release_lease_request : Reader ReleaseLeaseRequest
decode_release_lease_request = do
  rank_id ← get_u32
  rank_epoch ← get_u64
  lease_id ← get_u64
  slot_id ← get_u32
  reason ← get_str
  pure (record {
    rank_id = rank_id;
    rank_epoch = rank_epoch;
    lease_id = lease_id;
    slot_id = slot_id;
    reason = reason;
  })

pub record ReleaseLeaseResponse : Type 0 where
  pub ok : Bool
  pub message : Bytes

unfoldable pub encode_release_lease_response : ReleaseLeaseResponse → Writer
encode_release_lease_response m = do put_bool m.ok; put_str m.message

unfoldable pub decode_release_lease_response : Reader ReleaseLeaseResponse
decode_release_lease_response = do
  ok ← get_bool
  message ← get_str
  pure (record { ok = ok; message = message })

pub record LocationQueryRequest : Type 0 where
  pub tensor_id : U64
  pub version : U64

unfoldable pub encode_location_query_request : LocationQueryRequest → Writer
encode_location_query_request m = do put_u64 m.tensor_id; put_u64 m.version

unfoldable pub decode_location_query_request : Reader LocationQueryRequest
decode_location_query_request = do
  tensor_id ← get_u64
  version ← get_u64
  pure (record { tensor_id = tensor_id; version = version })

pub record LocationQueryResponse : Type 0 where
  pub ok : Bool
  pub message : Bytes
  pub location_kind : U32
  pub slot_id : U32
  pub nbytes : U64
  pub version : U64

unfoldable pub encode_location_query_response : LocationQueryResponse → Writer
encode_location_query_response m = do
  put_bool m.ok
  put_str m.message
  put_u32 m.location_kind
  put_u32 m.slot_id
  put_u64 m.nbytes
  put_u64 m.version

unfoldable pub decode_location_query_response : Reader LocationQueryResponse
decode_location_query_response = do
  ok ← get_bool
  message ← get_str
  location_kind ← get_u32
  slot_id ← get_u32
  nbytes ← get_u64
  version ← get_u64
  pure (record {
    ok = ok;
    message = message;
    location_kind = location_kind;
    slot_id = slot_id;
    nbytes = nbytes;
    version = version;
  })

pub record BatchCompletion : Type 0 where
  pub event_type : U32
  pub lease_id : U64
  pub tensor_id : U64
  pub version : U64
  pub slot_id : U32
  pub seq : U64
  pub timestamp_ns : U64
  pub keep_pinned : Bool

unfoldable pub put_batch_completion : BatchCompletion → Writer
put_batch_completion m = do
  put_u32 m.event_type
  put_u64 m.lease_id
  put_u64 m.tensor_id
  put_u64 m.version
  put_u32 m.slot_id
  put_u64 m.seq
  put_u64 m.timestamp_ns
  put_bool m.keep_pinned

unfoldable pub get_batch_completion : Reader BatchCompletion
get_batch_completion = do
  event_type ← get_u32
  lease_id ← get_u64
  tensor_id ← get_u64
  version ← get_u64
  slot_id ← get_u32
  seq ← get_u64
  timestamp_ns ← get_u64
  keep_pinned ← get_bool
  pure (record {
    event_type = event_type;
    lease_id = lease_id;
    tensor_id = tensor_id;
    version = version;
    slot_id = slot_id;
    seq = seq;
    timestamp_ns = timestamp_ns;
    keep_pinned = keep_pinned;
  })

pub record BatchCompleteRequest : Type 0 where
  pub rank_id : U32
  pub rank_epoch : U64
  pub completions : List BatchCompletion

unfoldable pub encode_batch_complete_request : BatchCompleteRequest → Writer
encode_batch_complete_request m = do
  put_u32 m.rank_id
  put_u64 m.rank_epoch
  put_list put_batch_completion m.completions

unfoldable pub decode_batch_complete_request : Reader BatchCompleteRequest
decode_batch_complete_request = do
  rank_id ← get_u32
  rank_epoch ← get_u64
  completions ← get_list get_batch_completion
  pure (record { rank_id = rank_id; rank_epoch = rank_epoch; completions = completions })

pub record BatchCompleteResponse : Type 0 where
  pub ok : Bool
  pub message : Bytes
  pub accepted : U32
  pub rejected : U32

unfoldable pub encode_batch_complete_response : BatchCompleteResponse → Writer
encode_batch_complete_response m = do
  put_bool m.ok
  put_str m.message
  put_u32 m.accepted
  put_u32 m.rejected

unfoldable pub decode_batch_complete_response : Reader BatchCompleteResponse
decode_batch_complete_response = do
  ok ← get_bool
  message ← get_str
  accepted ← get_u32
  rejected ← get_u32
  pure (record { ok = ok; message = message; accepted = accepted; rejected = rejected })

pub record GetStatsRequest : Type 0 where
  pub rank_id : U32

unfoldable pub encode_get_stats_request : GetStatsRequest → Writer
encode_get_stats_request m = do put_u32 m.rank_id

unfoldable pub decode_get_stats_request : Reader GetStatsRequest
decode_get_stats_request = do rank_id ← get_u32; pure (record { rank_id = rank_id })

pub record ShutdownRequest : Type 0 where
  pub token : U64

unfoldable pub encode_shutdown_request : ShutdownRequest → Writer
encode_shutdown_request m = do put_u64 m.token

unfoldable pub decode_shutdown_request : Reader ShutdownRequest
decode_shutdown_request = do token ← get_u64; pure (record { token = token })

pub record ShutdownResponse : Type 0 where
  pub ok : Bool
  pub message : Bytes

unfoldable pub encode_shutdown_response : ShutdownResponse → Writer
encode_shutdown_response m = do put_bool m.ok; put_str m.message

unfoldable pub decode_shutdown_response : Reader ShutdownResponse
decode_shutdown_response = do
  ok ← get_bool
  message ← get_str
  pure (record { ok = ok; message = message })

pub record GetStatsResponse : Type 0 where
  pub ok : Bool
  pub message : Bytes
  pub keys : List Bytes
  pub values : List U64

-- the loop over `keys[i]` and `values[i]`, of which `keys` gives the number; a key without a value
-- would be a read past the end of `values`, and the model refuses it
unfoldable pub put_stats : List Bytes → List U64 → Writer
put_stats [] values = done
put_stats (key ∷ keys) [] = refuse
put_stats (key ∷ keys) (value ∷ values) = do put_str key; put_u64 value; put_stats keys values

unfoldable pub get_stats : ℕ → Reader (List Bytes × List U64)
get_stats zero = pure ([], [])
get_stats (suc k) = do
  key ← get_str
  value ← get_u64
  more ← get_stats k
  pure (key ∷ more.0, value ∷ more.1)

unfoldable pub encode_get_stats_response : GetStatsResponse → Writer
encode_get_stats_response m = do
  put_bool m.ok
  put_str m.message
  put_u32 (cast 4 (length m.keys))
  put_stats m.keys m.values

unfoldable pub decode_get_stats_response : Reader GetStatsResponse
decode_get_stats_response = do
  ok ← get_bool
  message ← get_str
  k ← get_u32
  stats ← get_stats k.value
  pure (record { ok = ok; message = message; keys = stats.0; values = stats.1 })
