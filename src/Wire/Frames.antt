-- ===== src/Wire/Frames.antt =====
-- Frames (src/common/wire.cpp) and how a peer reads them off a connection (src/common/uds.cpp).
pub mod Delivery
use Prim.Native.Nat.{ℕ, ◌*◌}
use mathlib.Core.Bool.{Bool, true, false}
use mathlib.Core.Option.{Option, none, some}
use mathlib.Core.List.{List, [], ◌∷◌}
use state_spectre.Prelude.{length, if◌then◌else◌, ltb, ◌==◌}
use state_spectre.Prelude.Slices.{take, drop}
use state_spectre.Wire.Words.{Word, U16, U32, Bytes, cast}
use state_spectre.Wire.Buffer.{
  Writer, Reader, ◌>>◌, ◌>>=◌, pure, fail, put_u16, put_u32, put_chars, get_u16, get_u32,
  run_reader,
}
use state_spectre.Wire.OpCodes.{OpCode, op_code, op_of}

-- OFLD_RPC_MAGIC, kFrameHeaderSize, and the bound of `recv_frame` on a payload, 256u << 20
abbrev pub rpc_magic : ℕ
rpc_magic = 0x4F465250

abbrev pub header_size : ℕ
header_size = 12

abbrev pub max_payload : ℕ
max_payload = 256 * 1048576

pub record FrameHeader : Type 0 where
  pub magic : U32
  pub opcode : U16
  pub flags : U16
  pub payload_len : U32

unfoldable pub put_header : FrameHeader → Writer
put_header h = do put_u32 h.magic; put_u16 h.opcode; put_u16 h.flags; put_u32 h.payload_len

-- `none` is the WireError of a body whose size does not fit.
unfoldable pub make_frame : OpCode → Bytes → U16 → Option Bytes
make_frame op body flags =
    let header : FrameHeader = record {
      magic = cast 4 rpc_magic;
      opcode = op_code op;
      flags = flags;
      payload_len = cast 4 (length body);
    } in
    if ltb 0xFFFFFFFF (length body) then none else (put_header header >> put_chars body) []

-- the fields after a magic that was right
unfoldable pub get_header_fields : U32 → Reader FrameHeader
get_header_fields magic = do
  opcode ← get_u16
  flags ← get_u16
  payload_len ← get_u32
  pure (record { magic = magic; opcode = opcode; flags = flags; payload_len = payload_len })

unfoldable pub get_header : Reader FrameHeader
get_header = get_u32 >>= λ magic. if magic.value == rpc_magic then get_header_fields magic else fail

unfoldable pub parse_frame_header : Bytes → Option FrameHeader
parse_frame_header bytes =
    if ltb (length bytes) header_size then none else run_reader get_header bytes

-- What `recv_frame` reports of a connection: `eof` is the result false, `fault` an exception, and
-- `frame op payload rest` the result true, after which `rest` is still to be read.
pub data Received : Type 0 where
  eof : Received
  fault : Received
  frame : OpCode → Bytes → Bytes → Received

-- the part of `recv_frame` after the header
unfoldable pub recv_payload : Option FrameHeader → Bytes → Received
recv_payload none rest = fault
recv_payload (some h) rest =
    let n = h.payload_len.value in
    if ltb max_payload n
    then fault
    else if ltb (length rest) n
    then fault
    else frame (op_of h.opcode) (take n rest) (drop n rest)

-- The stream is what the peer sends until it closes the connection.
unfoldable pub recv_frame : Bytes → Received
recv_frame [] = eof
recv_frame (b ∷ bs) =
    let stream = b ∷ bs in
    if ltb (length stream) header_size
    then fault
    else recv_payload (parse_frame_header (take header_size stream)) (drop header_size stream)
