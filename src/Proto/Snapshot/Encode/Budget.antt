-- ===== src/Proto/Snapshot/Encode/Budget.antt =====
-- The room of a packet in `encode` of src/proto/snapshot.cpp: after a header that fits, the updates
-- never overflow the writer.
use morton.Base.{
  ℕ, zero, suc, ◌+◌, ◌-◌, ◌*◌, ◌^◌, ◌≤◌, ◌<◌, ◌≡◌, refl, ◌∙◌, false, List, [], ◌∷◌, map, inl, inr,
  leb, some, length, length-map, length-append, take, sub32, min, Bool-cases, arith,
}
use morton.Base.BitList.{bits, length-bits}
use morton.Core.Float.{F32}
use morton.Sim.Entities.{EntityStore}
use morton.Proto.Bitstream.Writer.{BitWriter, new_writer, bits_remaining, finished}
use morton.Proto.Bitstream.Writer.Append.{IsValid}
use morton.Proto.Bitstream.Writer.Finish.{Emits-Builds, new_writer-IsValid}
use morton.Proto.Snapshot.Merge.{Row}
use morton.Proto.Snapshot.Frame.{IsRows}
use morton.Proto.Snapshot.Updates.{updates_bits, length-updates_bits}
use morton.Proto.Snapshot.Encode.{
  HeaderFields, ReplicationState, prepare, encode, select, fits_of, write_front, write_back,
  usable_baseline, rows_of,
}
use morton.Proto.Snapshot.Encode.Selection.{sort_ascending-Perm, map-take, length-Perm}
use morton.Proto.Snapshot.Encode.Front.{IsHeader, front_bits, write_front-Emits}
use morton.Proto.Snapshot.Encode.Round.{IsSelection, back_bits, write_back-Emits, rows_of-Merged}
use morton.Proto.Snapshot.Encode.Frames.{usable_baseline-IsBase}
use morton.Proto.Snapshot.Encode.Agreement.{
  IsCall, built, rows, selection, header_fits, result-sent,
}

length-take_le : {A : Type 0} (n : ℕ) (xs : List A) → length (take n xs) ≤ n
length-take_le zero xs = omega arith
length-take_le (suc n) [] = omega arith
length-take_le (suc n) (x ∷ xs) = omega (arith, length-take_le n xs)

select-fits :
    {A : Type 0} (nth_element : ℕ → List (ℕ × A) → List (ℕ × A)) (fits : ℕ) (cs : List (ℕ × A))
    → length (select nth_element fits cs) ≤ fits
unfolding select
select-fits nth_element fits cs = elim (Bool-cases (leb (length cs) fits)) [
  | inl all ↦
      let small : length cs ≤ fits = ground arith in
      rw all (omega (arith, length-map (λ c. c.0) cs))
  | inr some_only ↦
      let best : List ℕ = map (λ c. c.0) (nth_element fits cs) in
      rw (some_only, map-take (λ (c : ℕ × _). c.0) fits (nth_element fits cs))
        (omega
          (arith, length-Perm (sort_ascending-Perm (take fits best)), length-take_le fits best))
]

length-back_bits :
    (rows : List Row) (selected : List ℕ)
    → length (back_bits rows selected) ≤ 16 + 101 * length selected
length-back_bits rows selected = omega (
  arith,
  length-append (bits 16 (length selected)) (updates_bits 0 rows selected),
  length-bits 16 (length selected),
  length-updates_bits 0 rows selected,
)

-- A writer with room for the count has room for the updates chosen.
back_fits :
    (w : BitWriter) (rows : List Row) (selected : List ℕ)
    → w.bit_pos ≤ w.capacity_bits
    → w.capacity_bits < 2 ^ 32
    → 16 ≤ bits_remaining w
    → length selected ≤ fits_of w
    → w.bit_pos + length (back_bits rows selected) ≤ w.capacity_bits
unfolding fits_of bits_remaining
back_fits w rows selected inside small room chosen =
    let left : sub32 w.capacity_bits w.bit_pos ≡ w.capacity_bits - w.bit_pos = omega arith in
    let fits : 101 * length selected + 16 ≤ w.capacity_bits - w.bit_pos = ground arith in
    omega (arith, length-back_bits rows selected, fits)

packet_fits :
    (capacity : ℕ) (h : HeaderFields) (removed : List ℕ) (rows : List Row) (selected : List ℕ)
    → capacity < 2 ^ 28
    → IsHeader h
    → IsRows 0 rows
    → IsSelection rows selected
    → (write_front (new_writer capacity) h removed).overflow ≡ false
    → 16 ≤ bits_remaining (write_front (new_writer capacity) h removed)
    → length selected ≤ fits_of (write_front (new_writer capacity) h removed)
    → (write_back (write_front (new_writer capacity) h removed) rows selected).overflow ≡ false
packet_fits capacity h removed rows selected small v k s clear room chosen =
    let start : IsValid (new_writer capacity) = new_writer-IsValid capacity small in
    let w : BitWriter = write_front (new_writer capacity) h removed in
    let xs : List ℕ = front_bits h removed in
    let first = write_front-Emits (new_writer capacity) h removed v in
    let empty : (new_writer capacity).bit_pos ≡ 0 = unfold new_writer in refl in
    let size : (new_writer capacity).capacity_bits ≡ 8 * capacity =
      unfold new_writer in omega arith in
    let inside : length xs ≤ 8 * capacity = (Emits-Builds capacity xs w small first).flag.0 clear in
    let done = first.fits start (omega (arith, inside, empty, size)) in
    let second = (write_back-Emits w rows selected k s).fits done.valid (
      back_fits w rows selected (omega (arith, inside, empty, size, done.position, done.capacity))
        (omega (arith, size, done.capacity)) room chosen) in
    second.latch ∙ clear

-- For a call of encode whose viewer exists, where the entities in sight and the frames kept are
-- ordered by id, fit their widths, number fewer than 65536 and have one fixed kind per id, and
-- nth_element permutes its range, a packet is returned whenever the header fits and leaves 16
-- bits: the updates that are selected never overflow the writer.
pub encode-sends :
    {F : F32} (nth_element : ℕ → List (ℕ × F.Carrier) → List (ℕ × F.Carrier)) (kinds : ℕ → ℕ)
    (s : ReplicationState F) (entities : EntityStore F) (nearby : List ℕ)
    (tick viewer viewer_index last_input_sequence capacity : ℕ)
    → IsCall nth_element kinds s entities nearby tick viewer viewer_index last_input_sequence
        capacity
    → (prepare nth_element s entities nearby tick viewer viewer_index last_input_sequence
        capacity).front.overflow
      ≡ false
    → 16
      ≤ bits_remaining
          (prepare nth_element s entities nearby tick viewer viewer_index last_input_sequence
            capacity).front
    → (encode nth_element s entities nearby tick viewer last_input_sequence capacity).0
      ≡ some (
          finished
            (prepare nth_element s entities nearby tick viewer viewer_index last_input_sequence
              capacity).packet)
unfolding prepare
encode-sends nth_element kinds s entities nearby tick viewer viewer_index last_input_sequence
      capacity v clear room =
    let p =
      built nth_element kinds s entities nearby tick viewer viewer_index last_input_sequence
        capacity in
    let b = usable_baseline-IsBase kinds s tick v.frames in
    let m = rows_of-Merged kinds (usable_baseline s tick) p.current b.ordered v.ordered in
    let quiet : p.packet.overflow ≡ false =
      packet_fits (min capacity s.config.max_snapshot_bytes) p.header
        (rows_of (usable_baseline s tick) p.current).1
        (rows_of (usable_baseline s tick) p.current).0 p.selected (omega (arith, v.capacity_fits))
        (header_fits nth_element kinds s entities nearby tick viewer viewer_index
          last_input_sequence capacity v)
        m.rows
        (selection nth_element kinds s entities nearby tick viewer viewer_index last_input_sequence
          capacity v)
        clear room (select-fits nth_element (fits_of p.front) p.candidates) in
    (result-sent nth_element kinds s entities nearby tick viewer viewer_index last_input_sequence
      capacity v (ground (arith, clear, quiet))).0
