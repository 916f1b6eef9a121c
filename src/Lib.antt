-- ===== src/Lib.antt =====
-- Verification of morton, a game server whose world is split over shards. This library models its
-- transport (the bit stream, the message codecs, and reliable delivery over UDP), its
-- replication of the world by delta snapshots, and the simulation of the world itself.
--
-- Parts and files, with paths from the repository's root:
-- - Base: helpers on Booleans, lists, maps, machine words, and numbers as lists of bits.
-- - Core.Sequence: `sequence_greater` of src/core/types.h, the order on wrapping sequence numbers.
--   Core.Vector: `Vec2`, `lerp` and `clampf` of that file. Core.Float: the `float` arithmetic of the
--   compiler, as a parameter.
-- - Proto.Bitstream.Writer and Proto.Bitstream.Reader: `BitWriter` and `BitReader` of
--   src/proto/bitstream.h. The writer's state has the bytes flushed so far, where the source has a
--   pointer and a count, so `finished` is the buffer that `bytes_written` leaves. Writer.Append,
--   Writer.Emit and Writer.Finish describe what a write appends, Reader.Take, Reader.Fields,
--   Reader.Chain and Reader.Buffer what a read takes. Proto.Bitstream.Ranged: `write_ranged`,
--   `read_ranged` and `bits_required`, with an `i32` as its bit pattern, for the ranges in which no
--   `i32` overflows, `IsRange`, as all that the program uses. Proto.Quantizer: `Quantizer` of the
--   same file.
-- - Proto.Messages: codecs of src/proto/messages.h, as functions from bytes to options. The result
--   0 of an encoder is `none`. A `float` field is its bit pattern; the axes of an input are
--   quantized. Messages.Inputs has the input packets, Proto.Packet the end that the encoders share.
-- - Proto.Snapshot: src/proto/snapshot.h and src/proto/snapshot.cpp. Encode has
--   `ReplicationState::encode`, which `prepare`s a packet and keeps its frame; Encode.Candidates has
--   its first half, from the entities in sight to the priorities; Merge the merge with the baseline
--   and the loops that write; Update one entity's update; Decode `decode_snapshot` and
--   `peek_snapshot_header`. A pointer to a frame is its slot. Merge.Baseline, Frame, Updates,
--   Update.Wire, Update.Size, Update.Arrival, History, Encode.Front, Encode.Round,
--   Encode.Selection, Encode.Frames, Encode.Agreement and Encode.Budget hold the lemmas and
--   theorems, from one entity up to a whole call.
-- - Net.SequenceBuffer: src/net/sequence_buffer.h at the capacity 1024. A pointer to an entry is its
--   slot, and a write through it is `store`. Window has the invariant, Lookup what lookups see,
--   Recorded what is remembered of one sequence.
-- - Net.Reliability: `ReliableEndpoint` of src/net/reliability.h and src/net/reliability.cpp. Send
--   has `queue_reliable` and `write_packet`, Receive `read_packet` with `process_acks`,
--   `on_packet_acked` and `deliver_in_order`, Rates has `update`. The `std::map` of early messages
--   is an association list. Acks, Duplicates, Duplicates.Later, Order and Wire hold the theorems.
-- - Spatial.Morton and Spatial.Grid: src/spatial/morton.h, src/spatial/grid.h and
--   src/spatial/grid.cpp. A query is the list of what its callback is called with; the callback of
--   `for_each_pair` is a function of the state that it changes. A failed `MORTON_CHECK` is `none`.
-- - Sim.Movement, Sim.Region, Sim.Entities and Sim.World: src/sim/movement.h, src/sim/region.h, and
--   `EntityStore` and `World` of src/sim/world.h and src/sim/world.cpp. The parallel arrays of the
--   store are one list of records; World.Tick has `World::step`. Region.Handoff, Entities.Index,
--   Entities.Removal, Entities.Contents, World.Inputs, World.Keeps, World.Store and World.Step hold
--   the theorems.
-- - Tests: runs on concrete inputs.
--
-- The endpoint writes and reads its packets by the bit stream, keeps its histories in two sequence
-- buffers and orders them by `sequence_greater`. The replication reads the entities of the world,
-- takes those in sight from the grid, and writes by the bit stream. A tick of the world applies the
-- inputs, rebuilds the grid and moves apart the pairs that it finds.
--
-- Bounds and fuel: a datagram has fewer than 2 ^ 28 bytes, so that its bits are counted in 32 bits.
-- The loop of `read_bits` takes a bit or more each round, so `count` rounds are enough; the varint
-- loops have at most five groups; `count_bits` halves 32 times; `clear_loop` and `loss_loop` have
-- the distance to their end as fuel, and `deliver_loop` the number of entries, each of which leaves
-- the buffer when it is delivered. `merge` has as fuel the number of entities of both lists, one of
-- which goes in every round.
--
-- Parameters: the order in which `std::nth_element` leaves its range, which permutes it, and the
-- result of the grid's query at a call of `encode`.
--
-- The order of floats is total where a handoff's margin is described, as it is without NaN.
--
-- Not modelled: log lines, times, connections, the client's view, the cluster, the
-- web feed and the programs. Sockets, clocks and the store are outside.
pub mod Base
pub mod Core
pub mod Proto
pub mod Net
pub mod Spatial
pub mod Sim
pub mod Tests
