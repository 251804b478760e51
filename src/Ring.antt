-- ===== src/Ring.antt =====
-- src/common/completion_ring.h: the shared-memory completion ring of one rank.
-- `head` and `tail` are free-running uint64_t counters; an entry's place is `index & (capacity - 1)`.
-- The entry array is a function of the place. Each function here is one call that runs alone;
-- Ring/Spsc has the interleaving of the two sides' loads and stores.
pub mod Refine
pub mod Spsc
use state_spectre.Prelude.{
  ℕ, ◌+◌, ◌-◌, ◌%◌, ◌*◌, ◌/◌, ◌^◌, Bool, Option, none, some, leb, ltb, ◌==◌, ◌||◌, if◌then◌else◌,
}
use Prim.Native.Nat.{bit_and}

-- `ofld_completion_entry_t`
pub record Completion : Type 0 where
  pub lease_id : ℕ
  pub tensor_id : ℕ
  pub version : ℕ
  pub slot_id : ℕ
  pub event_type : ℕ
  pub timestamp_ns : ℕ

-- `CompletionRingHeader` with the entries that follow it
pub record Ring : Type 0 where
  pub capacity : ℕ
  pub owner_rank : ℕ
  pub rank_epoch : ℕ
  pub head : ℕ
  pub tail : ℕ
  pub entries : ℕ → Completion

abbrev pub u64 : ℕ
u64 = 2 ^ 64

-- `a - b` on uint64_t, for a, b below 2^64
abbrev pub sub_u64 : ℕ → ℕ → ℕ
sub_u64 a b = (a + u64 - b) % u64

abbrev pub place : Ring → ℕ → ℕ
place r index = bit_and index (r.capacity - 1)

abbrev pub put_at : (ℕ → Completion) → ℕ → Completion → ℕ → Completion
put_at es i e j = if i == j then e else es j

unfoldable pub ring_pending : Ring → ℕ
ring_pending r = sub_u64 r.tail r.head

-- `none` is the return value false: the ring is full.
unfoldable pub ring_push : Ring → Completion → Option Ring
ring_push r e =
    if leb r.capacity (sub_u64 r.tail r.head)
    then none
    else some
        (record r { entries = put_at r.entries (place r r.tail) e; tail = (r.tail + 1) % u64 })

-- `none` is the return value false: the ring is empty.
unfoldable pub ring_pop : Ring → Option (Completion × Ring)
ring_pop r =
    if r.head == r.tail
    then none
    else some (r.entries (place r r.head), record r { head = (r.head + 1) % u64 })
