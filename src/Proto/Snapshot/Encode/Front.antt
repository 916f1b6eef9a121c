-- ===== src/Proto/Snapshot/Encode/Front.antt =====
-- The header and the removed entities of a snapshot, from `encode` to `decode_snapshot` of
-- src/proto/snapshot.cpp.
use morton.Base.{
  ℕ, ◌<◌, ◌^◌, Bool, true, false, List, [], ◌∷◌, ◌++◌, Option, none, some, if◌then◌else◌, length,
  All, sub32, u32,
}
use morton.Base.BitList.{bits}
use morton.Proto.Bitstream.Bytes.{flat}
use morton.Proto.Bitstream.Writer.{BitWriter, write_varint}
use morton.Proto.Bitstream.Writer.Emit.{
  Emits, Emits-trans, Emits-nil, write_bool-Emits, write_u32-Emits, write_varint-Emits,
  varint_bytes,
}
use morton.Proto.Bitstream.Reader.{BitReader, read_bool, read_u32, read_varint}
use morton.Proto.Bitstream.Reader.Take.{Reads}
use morton.Proto.Bitstream.Reader.Fields.{read_bool-Reads, read_u32-Reads, read_varint-Reads}
use morton.Proto.Bitstream.Reader.Chain.{Reads-bind, Reads-map, Reads-nothing}
use morton.Proto.Snapshot.Update.{write_entity_id, read_entity_id}
use morton.Proto.Snapshot.Update.Arrival.{read_entity_id-Reads}
use morton.Proto.Snapshot.Decode.{SnapshotHeader, read_header, read_removed}
use morton.Proto.Snapshot.Merge.{write_removed}
use morton.Proto.Snapshot.Encode.{HeaderFields, write_baseline, write_header, write_front}

abbrev pub baseline_bits : Option ℕ → List ℕ
baseline_bits none = bits 1 1
baseline_bits (some tick) = bits 1 0 ++ bits 32 tick

abbrev pub header_bits : HeaderFields → List ℕ
header_bits h =
    bits 32 h.tick
    ++ (baseline_bits h.baseline ++ (bits 32 h.last_input_sequence ++ flat (varint_bytes h.viewer)))

abbrev pub removed_bits : ℕ → List ℕ → List ℕ
removed_bits previous_id [] = []
removed_bits previous_id (id ∷ ids) =
    flat (varint_bytes (sub32 id previous_id)) ++ removed_bits id ids

abbrev pub front_bits : HeaderFields → List ℕ → List ℕ
front_bits h removed =
    header_bits h ++ (flat (varint_bytes (u32 (length removed))) ++ removed_bits 0 removed)

abbrev pub FitsTick : Option ℕ → Type 0
FitsTick none = Unit
FitsTick (some tick) = tick < 2 ^ 32

-- A header in which every field fits its type.
pub record IsHeader (h : HeaderFields) : Type 0 where
  pub tick_fits : h.tick < 2 ^ 32
  pub baseline_fits : FitsTick h.baseline
  pub input_fits : h.last_input_sequence < 2 ^ 32
  pub viewer_fits : h.viewer < 2 ^ 32

write_baseline-Emits :
    (w : BitWriter) (baseline : Option ℕ)
    → FitsTick baseline
    → Emits w (baseline_bits baseline) (write_baseline w baseline)
unfolding write_baseline
write_baseline-Emits w none v = write_bool-Emits w true
write_baseline-Emits w (some tick) v =
    Emits-trans _ _ (write_bool-Emits w false) (write_u32-Emits _ tick v)

write_header-Emits :
    (w : BitWriter) (h : HeaderFields) → IsHeader h → Emits w (header_bits h) (write_header w h)
unfolding write_header
write_header-Emits w h v = Emits-trans _ _ (write_u32-Emits w h.tick v.tick_fits) (
    Emits-trans _ _ (write_baseline-Emits _ h.baseline v.baseline_fits) (
      Emits-trans _ _ (write_u32-Emits _ h.last_input_sequence v.input_fits)
        (write_varint-Emits _ h.viewer)))

write_removed-Emits :
    (w : BitWriter) (previous_id : ℕ) (ids : List ℕ)
    → Emits w (removed_bits previous_id ids) (write_removed w previous_id ids)
unfolding write_removed write_entity_id
write_removed-Emits w previous_id [] = Emits-nil w
write_removed-Emits w previous_id (id ∷ ids) =
    Emits-trans _ _ (write_varint-Emits w (sub32 id previous_id))
      (write_removed-Emits (write_varint w (sub32 id previous_id)) id ids)

pub write_front-Emits :
    (w : BitWriter) (h : HeaderFields) (removed : List ℕ)
    → IsHeader h
    → Emits w (front_bits h removed) (write_front w h removed)
unfolding write_front
write_front-Emits w h removed v = Emits-trans _ _ (write_header-Emits w h v) (
    Emits-trans _ _ (write_varint-Emits _ (u32 (length removed))) (write_removed-Emits _ 0 removed))

abbrev pub is_full : Option ℕ → Bool
is_full none = true
is_full (some tick) = false

abbrev pub tick_or_zero : Option ℕ → ℕ
tick_or_zero none = 0
tick_or_zero (some tick) = tick

-- What the decoder makes of a header.
abbrev pub header_of : HeaderFields → SnapshotHeader
header_of h = record {
  tick = h.tick;
  baseline_tick = tick_or_zero h.baseline;
  full = is_full h.baseline;
  last_input_sequence = h.last_input_sequence;
  viewer = h.viewer;
}

abbrev read_tick : Bool → BitReader → (Bool × ℕ) × BitReader
read_tick full r =
    let (baseline_tick, r') = (if full then (0, r) else read_u32 r) in ((full, baseline_tick), r')

abbrev read_baseline : BitReader → (Bool × ℕ) × BitReader
read_baseline r = let (full, r') = read_bool r in read_tick full r'

read_baseline-Reads :
    (baseline : Option ℕ)
    → FitsTick baseline
    → Reads read_baseline (baseline_bits baseline) (is_full baseline, tick_or_zero baseline)
unfolding bits
read_baseline-Reads none v =
    Reads-bind read_bool read_tick (bits 1 1) [] true (true, 0) (read_bool-Reads true)
      (Reads-nothing (true, 0))
read_baseline-Reads (some tick) v =
    Reads-bind read_bool read_tick (bits 1 0) (bits 32 tick) false (false, tick)
      (read_bool-Reads false)
      (Reads-map read_u32 (λ t. (false, t)) (bits 32 tick) tick (read_u32-Reads tick v))

abbrev read_viewer : ℕ → (Bool × ℕ) → ℕ → BitReader → SnapshotHeader × BitReader
read_viewer tick baseline last_input_sequence r =
    let (viewer, r') = read_varint r in
    (
      record {
        tick = tick;
        baseline_tick = baseline.1;
        full = baseline.0;
        last_input_sequence = last_input_sequence;
        viewer = viewer;
      },
      r',
    )

abbrev read_input : ℕ → (Bool × ℕ) → BitReader → SnapshotHeader × BitReader
read_input tick baseline r =
    let (last_input_sequence, r') = read_u32 r in read_viewer tick baseline last_input_sequence r'

abbrev after_tick : ℕ → BitReader → SnapshotHeader × BitReader
after_tick tick r = let (baseline, r') = read_baseline r in read_input tick baseline r'

read_viewer-Reads :
    (h : HeaderFields)
    → IsHeader h
    → Reads
        (read_viewer h.tick (is_full h.baseline, tick_or_zero h.baseline) h.last_input_sequence)
        (flat (varint_bytes h.viewer))
        (header_of h)
read_viewer-Reads h v r rest k e =
    let got = read_varint-Reads h.viewer v.viewer_fits r rest k e in
    record {
      value = λ i. record {
        tick = h.tick;
        baseline_tick = tick_or_zero h.baseline;
        full = is_full h.baseline;
        last_input_sequence = h.last_input_sequence;
        viewer = got.value i;
      };
      valid = got.valid;
      left = got.left;
      latch = got.latch;
    }

pub read_header-Reads :
    (h : HeaderFields) → IsHeader h → Reads read_header (header_bits h) (header_of h)
unfolding read_header
read_header-Reads h v =
    let baseline : Bool × ℕ = (is_full h.baseline, tick_or_zero h.baseline) in
    let viewer = flat (varint_bytes h.viewer) in
    let input = bits 32 h.last_input_sequence in
    Reads-bind read_u32 after_tick (bits 32 h.tick) (baseline_bits h.baseline ++ (input ++ viewer))
      h.tick (header_of h) (read_u32-Reads h.tick v.tick_fits)
      (Reads-bind read_baseline (read_input h.tick) (baseline_bits h.baseline) (input ++ viewer)
        baseline (header_of h) (read_baseline-Reads h.baseline v.baseline_fits)
        (Reads-bind read_u32 (read_viewer h.tick baseline) input viewer h.last_input_sequence
          (header_of h) (read_u32-Reads h.last_input_sequence v.input_fits)
          (read_viewer-Reads h v)))

pub read_removed-Reads :
    (ids : List ℕ) (previous_id : ℕ)
    → previous_id < 2 ^ 32
    → All (λ x. x < 2 ^ 32) ids
    → Reads (λ r. read_removed (length ids) r previous_id) (removed_bits previous_id ids) ids
unfolding read_removed
read_removed-Reads [] previous_id h v = Reads-nothing []
read_removed-Reads (id ∷ ids) previous_id h v =
    Reads-bind (λ r. read_entity_id r previous_id)
      (λ got r. let (rest, r') = read_removed (length ids) r got in (got ∷ rest, r'))
      (flat (varint_bytes (sub32 id previous_id))) (removed_bits id ids) id (id ∷ ids)
      (read_entity_id-Reads id previous_id v.0 h)
      (Reads-map (λ r. read_removed (length ids) r id) (◌∷◌ id) (removed_bits id ids) ids
        (read_removed-Reads ids id v.0 v.1))
