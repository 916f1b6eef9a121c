-- ===== src/Proto/Snapshot/Encode/Round.antt =====
-- A whole snapshot, from `encode` to `decode_snapshot` of src/proto/snapshot.cpp.
use mathlib.Core.Path.{subst}
use morton.Base.{
  ℕ, zero, suc, ◌+◌, ◌^◌, ◌≤◌, ◌<◌, ◌≡◌, refl, sym, ◌∙◌, true, false, List, [], ◌∷◌, ◌++◌, Option,
  none, some, ltb, ==_refl, length, inl, inr, length-map, Bool-cases, All, u16, u32, replicate,
  get_or, arith,
}
use morton.Base.BitList.{bits}
use morton.Proto.Bitstream.Bytes.{flat, IsByte}
use morton.Proto.Bitstream.Writer.{BitWriter, new_writer, finished}
use morton.Proto.Bitstream.Writer.Emit.{Emits, Emits-trans, write_u16-Emits, varint_bytes}
use morton.Proto.Bitstream.Writer.Finish.{Emits-Builds}
use morton.Proto.Bitstream.Reader.{BitReader, new_reader, read_u16, read_varint}
use morton.Proto.Bitstream.Reader.Take.{IsValid, remaining, then_rest}
use morton.Proto.Bitstream.Reader.Fields.{new_reader-IsValid, read_u16-Reads, read_varint-Reads}
use morton.Proto.Snapshot.{EntityWireState, SnapshotFrame}
use morton.Proto.Snapshot.Decode.{
  read_header, read_removed, read_states, holds_baseline, base_states, without, decode_snapshot,
}
use morton.Proto.Snapshot.Merge.{Row, ids_of, merge, mark, keep}
use morton.Proto.Snapshot.Merge.Baseline.{unsent, IsStates, Merged, all_new-Merged, merge-Merged}
use morton.Proto.Snapshot.Frame.{IsRows}
use morton.Proto.Snapshot.Updates.{
  updates_bits, write_updates-Emits, Distinct, read_updates-updates_bits,
}
use morton.Proto.Snapshot.Encode.{HeaderFields, tick_of, rows_of, write_front, write_back}
use morton.Proto.Snapshot.Encode.Front.{
  header_bits, removed_bits, front_bits, IsHeader, header_of, is_full, tick_or_zero,
  write_front-Emits, read_header-Reads, read_removed-Reads,
}

abbrev pub states_of : Option SnapshotFrame → List EntityWireState
states_of none = []
states_of (some frame) = frame.states

abbrev pub HoldsFrame : Option SnapshotFrame → Type 0
HoldsFrame none = Unit
HoldsFrame (some frame) = frame.valid ≡ true

-- The rows that a snapshot sends: each once, and a `u16` counts them.
pub record IsSelection (rows : List Row) (selected : List ℕ) : Type 0 where
  pub bounded : All (λ i. i < length rows) selected
  pub distinct : Distinct selected
  pub counted : length selected < 2 ^ 16

abbrev pub back_bits : List Row → List ℕ → List ℕ
back_bits rows selected = bits 16 (length selected) ++ updates_bits 0 rows selected

pub write_back-Emits :
    (w : BitWriter) (rows : List Row) (selected : List ℕ)
    → IsRows 0 rows
    → IsSelection rows selected
    → Emits w (back_bits rows selected) (write_back w rows selected)
unfolding write_back
write_back-Emits w rows selected v s =
    let small : u16 (length selected) ≡ length selected = omega (arith, s.counted) in
    rw small (
      Emits-trans _ _ (write_u16-Emits w (length selected) s.counted)
        (write_updates-Emits _ 0 rows selected v s.bounded))

pub rows_of-Merged :
    (kinds : ℕ → ℕ) (base : Option SnapshotFrame) (current : List EntityWireState)
    → IsStates kinds 0 (states_of base)
    → IsStates kinds 0 current
    → Merged kinds 0 (states_of base) current (rows_of base current)
unfolding rows_of
rows_of-Merged kinds none current vb vc = all_new-Merged kinds 0 current vc
rows_of-Merged kinds (some frame) current vb vc =
    merge-Merged kinds (length frame.states + length current) 0 frame.states current vb vc
      (omega arith)

get_or-unsent : (n i : ℕ) → i < n → get_or (replicate n false) i true ≡ false
get_or-unsent zero i h = absurd (omega arith)
get_or-unsent (suc n) zero h = refl
get_or-unsent (suc n) (suc i) h = get_or-unsent n i (omega arith)

none_sent :
    (n : ℕ) (selected : List ℕ)
    → All (λ i. i < n) selected
    → All (λ i. get_or (replicate n false) i true ≡ false) selected
none_sent n [] h = tt
none_sent n (i ∷ selected) h = (get_or-unsent n i h.0, none_sent n selected h.1)

-- The decoder's second half turns the frame before the updates into the frame that is kept.
read_states-back_bits :
    (r : BitReader) (rows : List Row) (selected rest : List ℕ)
    → IsRows 0 rows
    → IsSelection rows selected
    → r.overflow ≡ false
    → IsValid r
    → remaining r ≡ back_bits rows selected ++ rest
    → read_states r (keep rows (unsent rows)) ≡ some (keep rows (mark selected (unsent rows)))
unfolding read_states
read_states-back_bits r rows selected rest v s clear k e =
    let count =
      read_u16-Reads (length selected) s.counted r (updates_bits 0 rows selected ++ rest) k
        (then_rest (bits 16 (length selected)) (updates_bits 0 rows selected) rest e) in
    let clear' : (read_u16 r).1.overflow ≡ false = count.latch ∙ clear in
    rw (clear', count.value)
      (read_updates-updates_bits selected (read_u16 r).1 0 rows (unsent rows) rest v s.bounded
        s.distinct (none_sent (length rows) selected s.bounded) (omega arith) clear' count.valid
        count.left)

holds_own_baseline :
    (h : HeaderFields) (base : Option SnapshotFrame)
    → h.baseline ≡ tick_of base
    → HoldsFrame base
    → holds_baseline (header_of h) base ≡ true
unfolding holds_baseline
holds_own_baseline h none e v = rw e refl
holds_own_baseline h (some frame) e v = rw (e, v) (==_refl frame.tick)

own_base_states :
    (h : HeaderFields) (base : Option SnapshotFrame)
    → h.baseline ≡ tick_of base
    → base_states (header_of h) base ≡ states_of base
own_base_states h none e = refl
own_base_states h (some frame) e = rw e refl

-- What the decoder reads from a buffer that begins with the bits of a snapshot.
decode_snapshot-bits :
    (bytes : List ℕ) (h : HeaderFields) (base : Option SnapshotFrame) (rows : List Row)
    (removed selected pad : List ℕ)
    → length bytes < 2 ^ 28
    → All IsByte bytes
    → flat bytes ≡ (front_bits h removed ++ back_bits rows selected) ++ pad
    → IsHeader h
    → h.baseline ≡ tick_of base
    → HoldsFrame base
    → IsRows 0 rows
    → IsSelection rows selected
    → keep rows (unsent rows) ≡ without removed (states_of base)
    → All (λ x. x < 2 ^ 32) removed
    → length removed < 2 ^ 16
    → decode_snapshot bytes base
      ≡ some (record {
        tick = h.tick;
        baseline_tick = tick_or_zero h.baseline;
        full = is_full h.baseline;
        last_input_sequence = h.last_input_sequence;
        viewer = h.viewer;
        states = keep rows (mark selected (unsent rows));
        removed = removed;
      })
unfolding decode_snapshot
decode_snapshot-bits bytes h base rows removed selected pad short b e v same held vr s before fits
      counted =
    let r0 : BitReader = new_reader bytes in
    let count : List ℕ = flat (varint_bytes (u32 (length removed))) in
    let back : List ℕ = back_bits rows selected ++ pad in
    let small : u32 (length removed) ≡ length removed = omega (arith, counted) in
    let start : remaining r0 ≡ flat bytes = unfold new_reader in refl in
    let e0 : remaining r0 ≡ (front_bits h removed ++ back_bits rows selected) ++ pad = start ∙ e in
    let e1 : remaining r0 ≡ header_bits h ++ ((count ++ removed_bits 0 removed) ++ back) =
      then_rest (header_bits h) (count ++ removed_bits 0 removed) back
        (then_rest (front_bits h removed) (back_bits rows selected) pad e0) in
    let header = read_header-Reads h v r0 _ (new_reader-IsValid bytes short b) e1 in
    let r1 : BitReader = (read_header r0).1 in
    let number =
      read_varint-Reads (length removed) (omega arith) r1 (removed_bits 0 removed ++ back)
        header.valid
        (subst (λ n. remaining r1 ≡ flat (varint_bytes n) ++ (removed_bits 0 removed ++ back)) small
          (then_rest count (removed_bits 0 removed) back header.left)) in
    let r2 : BitReader = (read_varint r1).1 in
    let gone = read_removed-Reads removed 0 (omega arith) fits r2 back number.valid number.left in
    let clear0 : r0.overflow ≡ false = unfold new_reader in refl in
    let clear1 : r1.overflow ≡ false = header.latch ∙ clear0 in
    let clear2 : r2.overflow ≡ false = number.latch ∙ clear1 in
    let clear3 : (read_removed (length removed) r2 0).1.overflow ≡ false = gone.latch ∙ clear2 in
    let few : ltb 65535 (length removed) ≡ false = ground arith in
    let states =
      read_states-back_bits (read_removed (length removed) r2 0).1 rows selected pad vr s clear3
        gone.valid gone.left in
    rw
      (
        header.value,
        clear1,
        holds_own_baseline h base same held,
        number.value,
        clear2,
        few,
        gone.value,
        clear3,
        own_base_states h base same,
        sym before,
        states,
        header.value,
        number.value,
        gone.value,
      )
      refl

removed-le :
    (left : ℕ) (base current : List EntityWireState)
    → length (merge left base current).1 ≤ length base
unfolding merge ids_of
removed-le zero base current = omega (arith, length-map (λ (s : EntityWireState). s.id) base)
removed-le (suc left) [] current = omega arith
removed-le (suc left) (b ∷ base) [] =
    omega (arith, length-map (λ (s : EntityWireState). s.id) (b ∷ base))
removed-le (suc left) (b ∷ base) (c ∷ current) = elim (Bool-cases (ltb b.id c.id)) [
  | inl before ↦ rw (merge, before) (omega (arith, removed-le left base (c ∷ current)))
  | inr not_before ↦ elim (Bool-cases (ltb c.id b.id)) [
    | inl after ↦ rw (merge, not_before, after) (removed-le left (b ∷ base) current)
    | inr same ↦ rw (merge, not_before, same) (omega (arith, removed-le left base current))
  ]
]

rows_of-removed :
    (base : Option SnapshotFrame) (current : List EntityWireState)
    → length (rows_of base current).1 ≤ length (states_of base)
unfolding rows_of
rows_of-removed none current = omega arith
rows_of-removed (some frame) current =
    removed-le (length frame.states + length current) frame.states current

-- A packet of any selection of rows of the merge, each once, that did not overflow is decoded
-- against its baseline to its header, the removed ids, and the current state of what was selected
-- with the baseline state of the rest. The baseline is valid, and its entities and the current
-- ones are ordered by id, fit their widths and have one fixed kind per id; the baseline has fewer
-- than 65536 entities.
pub decode_snapshot-write_back :
    (kinds : ℕ → ℕ) (capacity : ℕ) (h : HeaderFields) (base : Option SnapshotFrame)
    (current : List EntityWireState) (selected : List ℕ)
    → capacity < 2 ^ 28
    → IsHeader h
    → h.baseline ≡ tick_of base
    → HoldsFrame base
    → IsStates kinds 0 (states_of base)
    → IsStates kinds 0 current
    → length (states_of base) < 2 ^ 16
    → IsSelection (rows_of base current).0 selected
    → (write_back
        (write_front (new_writer capacity) h (rows_of base current).1)
        (rows_of base current).0
        selected).overflow
      ≡ false
    → decode_snapshot
        (finished (
          write_back
            (write_front (new_writer capacity) h (rows_of base current).1)
            (rows_of base current).0
            selected))
        base
      ≡ some (record {
        tick = h.tick;
        baseline_tick = tick_or_zero h.baseline;
        full = is_full h.baseline;
        last_input_sequence = h.last_input_sequence;
        viewer = h.viewer;
        states = keep (rows_of base current).0 (mark selected (unsent (rows_of base current).0));
        removed = (rows_of base current).1;
      })
decode_snapshot-write_back kinds capacity h base current selected small v same held vb vc few s
      clear =
    let m = rows_of-Merged kinds base current vb vc in
    let rows : List Row = (rows_of base current).0 in
    let removed : List ℕ = (rows_of base current).1 in
    let w : BitWriter = write_back (write_front (new_writer capacity) h removed) rows selected in
    let emits =
      Emits-trans (front_bits h removed) (back_bits rows selected)
        (write_front-Emits (new_writer capacity) h removed v)
        (write_back-Emits (write_front (new_writer capacity) h removed) rows selected m.rows s) in
    let (pad, contents, bytes, short) =
      (Emits-Builds capacity (front_bits h removed ++ back_bits rows selected) w small emits).holds
        clear in
    decode_snapshot-bits (finished w) h base rows removed selected pad (omega arith) bytes contents
      v same held m.rows s m.baseline m.fits (omega (arith, rows_of-removed base current))
