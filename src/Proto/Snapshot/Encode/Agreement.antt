-- ===== src/Proto/Snapshot/Encode/Agreement.antt =====
-- `encode` of src/proto/snapshot.cpp as a whole: the frame that the server keeps is the one that
-- the client decodes, and the frames stay well formed.
use mathlib.Core.Path.{subst}
use mathlib.Core.Option.{none-ne-some, some-injective}
use mathlib.Core.List.{Permᴰ}
use morton.Base.{
  ℕ, ◌^◌, ◌<◌, ◌≡◌, refl, sym, ap, ◌∙◌, Bool, true, false, ◌||◌, List, map, Option, none, some, inl,
  inr, length, length-map, min, Bool-cases, arith,
}
use morton.Core.Float.{F32}
use morton.Sim.Entities.{EntityStore, find}
use morton.Proto.Bitstream.Writer.{finished}
use morton.Proto.Snapshot.{EntityWireState, SnapshotFrame, SnapshotHistory, get, put}
use morton.Proto.Snapshot.History.{get-put}
use morton.Proto.Snapshot.Decode.{DecodedSnapshot, decode_snapshot}
use morton.Proto.Snapshot.Merge.{Row, keep, mark}
use morton.Proto.Snapshot.Merge.Baseline.{IsStates, unsent}
use morton.Proto.Snapshot.Encode.{
  ReplicationState, Prepared, prepare, encode, fits_of, keep_frame, rows_of, usable_baseline,
}
use morton.Proto.Snapshot.Encode.Candidates.{candidates_of}
use morton.Proto.Snapshot.Encode.Front.{IsHeader}
use morton.Proto.Snapshot.Encode.Selection.{
  select-bounds, length-select, IsAscending, candidates_of-IsAscending,
}
use morton.Proto.Snapshot.Encode.Round.{IsSelection, rows_of-Merged, decode_snapshot-write_back}
use morton.Proto.Snapshot.Encode.Frames.{
  IsFrame, IsHistory, usable_baseline-IsBase, keep-IsStates, put-IsHistory, length-keep,
}

-- The snapshot in `bytes` and the frame for `tick` that is kept of it hold the same entities.
pub record Agrees (history : SnapshotHistory) (tick viewer last_input_sequence : ℕ)
    (base : Option SnapshotFrame) (bytes : List ℕ) : Type 0 where
  pub frame : SnapshotFrame
  pub decoded : DecodedSnapshot
  pub stored : get history tick ≡ some frame
  pub received : decode_snapshot bytes base ≡ some decoded
  pub states : decoded.states ≡ frame.states
  pub tick_same : decoded.tick ≡ tick
  pub viewer_same : decoded.viewer ≡ viewer
  pub input_same : decoded.last_input_sequence ≡ last_input_sequence

module _ {F : F32} (nth_element : ℕ → List (ℕ × F.Carrier) → List (ℕ × F.Carrier)) (kinds : ℕ → ℕ)
    (s : ReplicationState F) (entities : EntityStore F) (nearby : List ℕ)
    (tick viewer viewer_index last_input_sequence capacity : ℕ) where
  abbrev pub built : Prepared F
  built =
      prepare nth_element s entities nearby tick viewer viewer_index last_input_sequence capacity

  -- What a call relies on: the entities in sight are ordered, of fixed kinds and fewer than 65536,
  -- and so are the frames kept.
  pub record IsCall : Type 0 where
    pub permutes : (n : ℕ) (xs : List (ℕ × F.Carrier)) → Permᴰ xs (nth_element n xs)
    pub found : find entities viewer ≡ some viewer_index
    pub frames : IsHistory kinds s.history
    pub ordered : IsStates kinds 0 built.current
    pub counted : length built.current < 2 ^ 16
    pub tick_fits : tick < 2 ^ 32
    pub viewer_fits : viewer < 2 ^ 32
    pub input_fits : last_input_sequence < 2 ^ 32
    pub capacity_fits : capacity < 2 ^ 28

  abbrev pub base : Option SnapshotFrame
  base = usable_baseline s tick

  abbrev pub rows : List Row
  rows = (rows_of base built.current).0

  rows_length : IsCall → length rows ≡ length built.current
  rows_length v =
      let m =
        rows_of-Merged kinds base built.current
          (usable_baseline-IsBase kinds s tick v.frames).ordered v.ordered in
      sym (length-map (λ (r : Row). r.0) rows)
      ∙ ap (λ (xs : List EntityWireState). length xs) m.currents

  pub selection : IsCall → IsSelection rows built.selected
  unfolding prepare
  selection v =
      let candidates : List (ℕ × F.Carrier) = (candidates_of built.scene 0 rows s.priority).0 in
      let ascending : IsAscending 0 (length rows) candidates =
        subst (λ n. IsAscending 0 n candidates) (omega arith)
          (candidates_of-IsAscending built.scene 0 rows s.priority) in
      let fits : ℕ = fits_of built.front in
      let chosen = select-bounds nth_element fits 0 (length rows) candidates v.permutes ascending in
      record {
        bounded = chosen.0;
        distinct = chosen.1;
        counted = omega (
          arith,
          v.counted,
          rows_length v,
          length-select nth_element fits (length rows) candidates v.permutes ascending,
        );
      }

  abbrev sent_frame : SnapshotFrame
  sent_frame = record {
    tick = tick;
    valid = true;
    states = keep rows (mark built.selected (unsent rows));
  }

  abbrev overflows : Bool
  overflows = built.front.overflow || built.packet.overflow

  abbrev pub result : Option (List ℕ) × ReplicationState F
  result = encode nth_element s entities nearby tick viewer last_input_sequence capacity

  result-overflow : IsCall → overflows ≡ true → (result.0 ≡ none) × (result.1.history ≡ s.history)
  unfolding encode
  result-overflow v over = rw (encode, v.found, over) (refl, refl)

  pub result-sent :
      IsCall
      → overflows ≡ false
      → (result.0 ≡ some (finished built.packet))
        × (result.1.history ≡ put s.history tick sent_frame)
  unfolding encode keep_frame
  result-sent v clear = rw (encode, v.found, clear) (refl, refl)

  sent_frame-IsFrame : IsCall → IsFrame kinds sent_frame
  sent_frame-IsFrame v =
      let m =
        rows_of-Merged kinds base built.current
          (usable_baseline-IsBase kinds s tick v.frames).ordered v.ordered in
      let currents : IsStates kinds 0 (map (λ (r : Row). r.0) rows) =
        subst (λ xs. IsStates kinds 0 xs) (sym m.currents) v.ordered in
      record {
        tick_fits = v.tick_fits;
        ordered = keep-IsStates kinds 0 rows (mark built.selected (unsent rows)) m.rows currents;
        counted =
            omega (
              arith,
              length-keep rows (mark built.selected (unsent rows)),
              rows_length v,
              v.counted,
            );
      }

  -- For a call of encode whose viewer exists, where the entities in sight and the frames kept are
  -- ordered by id, fit their widths, number fewer than 65536 and have one fixed kind per id, and
  -- nth_element permutes its range, the frames kept are well formed after the call, whether a
  -- packet is sent or not.
  pub encode-IsHistory : IsCall → IsHistory kinds result.1.history
  encode-IsHistory v = elim (Bool-cases overflows) [
    | inl over ↦ rw ((result-overflow v over).1) v.frames
    | inr clear ↦
        rw ((result-sent v clear).1)
          (put-IsHistory kinds s.history tick sent_frame (sent_frame-IsFrame v) v.frames)
  ]

  pub header_fits : IsCall → IsHeader built.header
  unfolding prepare
  header_fits v = record {
    tick_fits = v.tick_fits;
    baseline_fits = (usable_baseline-IsBase kinds s tick v.frames).tick_fits;
    input_fits = v.input_fits;
    viewer_fits = v.viewer_fits;
  }

  sent-Agrees :
      IsCall
      → 0 < length s.history
      → overflows ≡ false
      → Agrees result.1.history tick viewer last_input_sequence base (finished built.packet)
  unfolding prepare
  sent-Agrees v slots clear =
      let b = usable_baseline-IsBase kinds s tick v.frames in
      let quiet : built.packet.overflow ≡ false = ground arith in
      let small : min capacity s.config.max_snapshot_bytes < 2 ^ 28 =
        omega (arith, v.capacity_fits) in
      record {
        frame = sent_frame;
        decoded = _;
        stored = rw ((result-sent v clear).1) (get-put s.history tick sent_frame slots refl refl);
        received =
            decode_snapshot-write_back kinds (min capacity s.config.max_snapshot_bytes) built.header
              base built.current built.selected small (header_fits v) refl b.held b.ordered
              v.ordered b.counted (selection v) quiet;
        states = refl;
        tick_same = refl;
        viewer_same = refl;
        input_same = refl;
      }

  -- For a call of encode whose viewer exists, where the entities in sight and the frames kept are
  -- ordered by id, fit their widths, number fewer than 65536 and have one fixed kind per id, and
  -- nth_element permutes its range, a packet that is returned is decoded by decode_snapshot,
  -- against the same baseline, to exactly the entities of the frame that the server keeps for the
  -- tick, and the tick, viewer and input number come back.
  pub encode-Agrees :
      (bytes : List ℕ)
      → IsCall
      → 0 < length s.history
      → result.0 ≡ some bytes
      → Agrees result.1.history tick viewer last_input_sequence base bytes
  encode-Agrees bytes v slots e = elim (Bool-cases overflows) [
    | inl over ↦ absurd (none-ne-some bytes (sym (result-overflow v over).0 ∙ e))
    | inr clear ↦
        subst (λ bs. Agrees result.1.history tick viewer last_input_sequence base bs)
          (some-injective (finished built.packet) bytes (sym (result-sent v clear).0 ∙ e))
          (sent-Agrees v slots clear)
  ]
