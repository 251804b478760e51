-- ===== src/Lib.antt =====
-- A model of offloadd, the node daemon of StateSpectre, and the theorems that make it correct.
--
-- The daemon owns pinned memory, cut into slots, and the tables that say which tensor is where. Ranks
-- ask it over RPC: they reserve a run of slots, copy to it (device to host, D2H), mark the copy, read it
-- back (H2D) and release it; worker threads drain runs to a cold tier and read them back. On top of that
-- a store of canonical objects lets ranks share one copy of equal tensors, seals model versions into
-- manifests and exports sealed tensors.
--
-- Every handler is a function from the state (State.Daemon) to the state after it and the reply, with the
-- guards and the order of effects of the code. Files and what they model:
--   Ring              src/common/completion_ring.h: ring_push, ring_pop, ring_pending
--   State             abi/offload_abi.h, src/daemon/daemon.h, src/daemon/canonical.h, src/common/metrics.h
--   Slots             src/daemon/daemon.cpp: slot states, try_alloc_in_window, allocate_slots, free_slots
--   Leases            src/daemon/daemon.cpp: epoch_valid, find_lease, update_location_if_latest
--   Drain             src/daemon/daemon.cpp: force_drain_one, drain_worker_loop
--   Offload           src/daemon/daemon.cpp: RequestOffload, MarkD2H*, ReleaseLease, LocationQuery
--   Prefetch          src/daemon/daemon.cpp: RequestPrefetch, MarkH2D*, readback_worker_loop
--   Recovery          src/daemon/daemon.cpp: BatchComplete, apply_ring_completion, heartbeats
--   Keys, Objects     src/daemon/canonical.cpp: keys, hashes, holders, release
--   Evict, Commit     src/daemon/canonical.cpp: RegisterJob, RequestCanonicalEvict, CommitCanonicalObject
--   Retention, Seal   src/daemon/canonical_rollout.cpp: DropCanonicalVersion, SealModelVersion, GetManifest
--   Pull, Restore     src/daemon/canonical_rollout.cpp: PullTensor, RequestCanonicalRestore
--   Register          src/daemon/daemon.cpp: RegisterRank, the ring table, ring_poller_loop
--   Config            src/daemon/config.h, config.cpp: the YAML subset and load_config
--   Plan              src/daemon/daemon.cpp: build_slot_plan; the validation of src/daemon/config.cpp
--   Wire              src/common/wire.h, wire.cpp, wire_v2.cpp, protocol.h, protocol_v2.h, uds.cpp,
--                     dispatch and serve_connection of src/daemon/daemon.cpp, src/agent/rpc_client.cpp
--   Layout, Stripes   src/common/control_layout.h and stripe_segments of src/daemon/daemon.cpp
-- Versions (the v1 calls) and Catalog (the v2 calls) hold theorems over whole runs of the protocol, and
-- Examples the concrete states at which the theorems are applied.
--
-- The slot table is a function of the slot id, and the maps are association lists in the order in which
-- the program would iterate, which C++ leaves open. `clock` is what now_real_ns() returns during a handler.
-- Where a handler gives up mu_ (drains, readbacks, exports), the result of the IO and a function for what
-- the other threads do to the state meanwhile are arguments; theorems over runs ask of that function what
-- they state of every handler. A pointer into a table that is used after such a span is looked up again,
-- and stands for its last value if the entry is gone. Counters of Metrics wrap at 2^64; ids, the byte
-- counts of jobs and the reference counts are unbounded; the sum of a manifest's sizes wraps. Slot ids are
-- below 0xFFFFFFFF, so that none stands for kNoSlot; the slot numbers of a plan wrap at 2^32, its byte
-- offsets are unbounded. The comparison of doubles in pinned_pressure is a function of the configuration.
-- The scan of a window has one round for each index and one more, since each round goes at least one on; a
-- decimal number has at most 20 digits; the 65 attempts of allocate-or-drain are the code's own bound.
--
-- In Wire a message has the C++ types: a fixed-width integer is a number with a bound, a string is a list of
-- bytes, and an int32_t is its bit pattern. A connection is the list of the bytes that the peer sends until it
-- closes; an exception is `none` or `thrown`, without its text. The loop of a connection runs on fuel, one round
-- for each byte and one more, since a frame has twelve bytes at least. The handlers of a connection are an
-- argument: the handlers of this model take their requests as numbers and leave reply texts out.
--
-- In Config a text is the list of its characters, and the lines that the parser has not read yet are what a
-- function takes and gives back. Its recursion runs on three rounds for each line and each character of a line,
-- and two more. Doubles are a parameter with std::stod, the product with a unit and the literals as hundredths.
--
-- Not modelled: the bytes of tensors and the IO on them, sockets, threads, file descriptors and mappings,
-- reply texts and traces, fields of JobRecord that nothing reads, the texts of the loader's errors, the
-- agent beyond its RPC client, the bindings and the tools.
pub mod Prelude
pub mod Ring
pub mod State
pub mod Slots
pub mod Replies
pub mod Leases
pub mod Drain
pub mod Offload
pub mod Keys
pub mod Objects
pub mod Evict
pub mod Commit
pub mod Config
pub mod Retention
pub mod Seal
pub mod Pull
pub mod Restore
pub mod Prefetch
pub mod Recovery
pub mod Layout
pub mod Stripes
pub mod Versions
pub mod Catalog
pub mod Wire
pub mod Register
pub mod Plan
pub mod Examples
