-- ===== src/Proto/Snapshot/Updates.antt =====
-- The loop over the updates of a snapshot, from `encode` to `decode_snapshot` of
-- src/proto/snapshot.cpp.
use morton.Base.{
  ℕ, zero, suc, ◌*◌, ◌^◌, ◌≤◌, ◌<◌, ◌≡◌, ◌≢◌, refl, ap, ◌∙◌, Bool, true, false, List, [], ◌∷◌, ◌++◌,
  Option, none, some, length, length-append, get_or, get_or-set_ne, set, All, sub32, arith,
}
use morton.Proto.Bitstream.Bytes.{flat}
use morton.Proto.Bitstream.Writer.{BitWriter}
use morton.Proto.Bitstream.Writer.Emit.{Emits, Emits-trans, Emits-nil, varint_bytes}
use morton.Proto.Bitstream.Reader.{BitReader, read_bool}
use morton.Proto.Bitstream.Reader.Take.{IsValid, Read, remaining, then_rest}
use morton.Proto.Bitstream.Reader.Fields.{read_bool-Reads}
use morton.Proto.Snapshot.{EntityWireState}
use morton.Proto.Snapshot.Update.{read_entity_id, write_update}
use morton.Proto.Snapshot.Update.Wire.{
  IsWireState, flag, new_bits, changes_bits, state_bits, update_bits, write_update-Emits,
}
use morton.Proto.Snapshot.Update.Size.{worst_case_entity_bits, length-update_bits}
use morton.Proto.Snapshot.Update.Arrival.{
  updated, read_entity_id-Reads, read_new-Reads, read_changes-Reads,
}
use morton.Proto.Snapshot.Decode.{read_state, read_update, read_updates}
use morton.Proto.Snapshot.Merge.{Row, blank_row, write_updates, mark, keep}
use morton.Proto.Snapshot.Frame.{Precedes, IsRows, row_id, find_state-keep, put_state-keep}

abbrev pub updates_bits : ℕ → List Row → List ℕ → List ℕ
updates_bits previous_id rows [] = []
updates_bits previous_id rows (i ∷ selected) =
    update_bits previous_id (get_or rows i blank_row).0 (get_or rows i blank_row).1
    ++ updates_bits (row_id rows i) rows selected

pub row_fits :
    (rows : List Row) (i low : ℕ)
    → IsRows low rows
    → i < length rows
    → IsWireState (get_or rows i blank_row).0
      × Precedes (get_or rows i blank_row).0 (get_or rows i blank_row).1
row_fits [] i low v h = absurd (omega arith)
row_fits ((c, p) ∷ rows) zero low (above, fits, old, v) h = (fits, old)
row_fits ((c, p) ∷ rows) (suc i) low (above, fits, old, v) h =
    row_fits rows i (suc c.id) v (omega arith)

pub write_updates-Emits :
    (w : BitWriter) (previous_id : ℕ) (rows : List Row) (selected : List ℕ)
    → IsRows 0 rows
    → All (λ i. i < length rows) selected
    → Emits w (updates_bits previous_id rows selected) (write_updates w previous_id rows selected)
unfolding write_updates
write_updates-Emits w previous_id rows [] v h = Emits-nil w
write_updates-Emits w previous_id rows (i ∷ selected) v h =
    Emits-trans _ _
      (write_update-Emits w previous_id (get_or rows i blank_row).0 (get_or rows i blank_row).1
        (row_fits rows i 0 v h.0).0)
      (write_updates-Emits
        (write_update w previous_id (get_or rows i blank_row).0 (get_or rows i blank_row).1)
        (row_id rows i) rows selected v h.1)

-- Each entity takes at most the bits that are budgeted for it.
pub length-updates_bits :
    (previous_id : ℕ) (rows : List Row) (selected : List ℕ)
    → length (updates_bits previous_id rows selected) ≤ worst_case_entity_bits * length selected
length-updates_bits previous_id rows [] = omega arith
length-updates_bits previous_id rows (i ∷ selected) =
    let (c, p) = get_or rows i blank_row in
    omega (
      arith,
      length-append (update_bits previous_id c p) (updates_bits (row_id rows i) rows selected),
      length-update_bits previous_id c p,
      length-updates_bits (row_id rows i) rows selected,
    )

abbrev is_new : Option EntityWireState → Bool
is_new none = true
is_new (some b) = false

abbrev rest_bits : EntityWireState → Option EntityWireState → List ℕ
rest_bits c none = new_bits c
rest_bits c (some b) = changes_bits c b

state_bits_lem :
    (c : EntityWireState) (p : Option EntityWireState)
    → state_bits c p ≡ flag (is_new p) ++ rest_bits c p
unfolding state_bits
state_bits_lem c none = refl
state_bits_lem c (some b) = refl

read_state-Read :
    (c : EntityWireState) (p : Option EntityWireState) (r : BitReader) (rest : List ℕ)
    → IsWireState c
    → Precedes c p
    → r.overflow ≡ false
    → IsValid r
    → remaining r ≡ rest_bits c p ++ rest
    → Read r (some c) rest (read_state c.id (is_new p) p r)
unfolding read_state
read_state-Read c none r rest v old clear k e =
    let blank : EntityWireState = record { id = c.id; px = 0; py = 0; vx = 0; vy = 0; kind = 0 } in
    let got = read_new-Reads c blank v r rest k e in
    rw (got.latch ∙ clear)
      (record { value = ap some got.value; valid = got.valid; left = got.left; latch = got.latch })
read_state-Read c (some b) r rest v old clear k e =
    let got = read_changes-Reads c b v old.2 r rest k e in
    let same : updated c b ≡ c =
      λ i. record { id = old.0 i; px = c.px; py = c.py; vx = c.vx; vy = c.vy; kind = old.1 i } in
    rw (got.latch ∙ clear) (record {
      value = ap some (got.value ∙ same);
      valid = got.valid;
      left = got.left;
      latch = got.latch;
    })

-- What a round leaves: the frame with one more row sent, and the reader behind its bits.
record Round (rows : List Row) (flags : List Bool) (i : ℕ) (rest : List ℕ)
    (p : Option (ℕ × List EntityWireState × BitReader)) : Type 0 where
  reader : BitReader
  result : p ≡ some (row_id rows i, keep rows (set flags i true), reader)
  valid : IsValid reader
  left : remaining reader ≡ rest
  clear : reader.overflow ≡ false

read_update-Round :
    (r : BitReader) (previous_id : ℕ) (rows : List Row) (flags : List Bool) (i : ℕ) (rest : List ℕ)
    → IsRows 0 rows
    → i < length rows
    → get_or flags i true ≡ false
    → previous_id < 2 ^ 32
    → r.overflow ≡ false
    → IsValid r
    → remaining r
      ≡ update_bits previous_id (get_or rows i blank_row).0 (get_or rows i blank_row).1 ++ rest
    → Round rows flags i rest (read_update r previous_id (keep rows flags))
unfolding read_update
read_update-Round r previous_id rows flags i rest v h f small clear k e =
    let c : EntityWireState = (get_or rows i blank_row).0 in
    let p : Option EntityWireState = (get_or rows i blank_row).1 in
    let fits = row_fits rows i 0 v h in
    let id =
      read_entity_id-Reads c.id previous_id fits.0.id_fits small r (state_bits c p ++ rest) k
        (then_rest (flat (varint_bytes (sub32 c.id previous_id))) (state_bits c p) rest e) in
    let r1 : BitReader = (read_entity_id r previous_id).1 in
    let e1 : remaining r1 ≡ (flag (is_new p) ++ rest_bits c p) ++ rest =
      id.left ∙ ap (λ (xs : List ℕ). xs ++ rest) (state_bits_lem c p) in
    let new =
      read_bool-Reads (is_new p) r1 (rest_bits c p ++ rest) id.valid
        (then_rest (flag (is_new p)) (rest_bits c p) rest e1) in
    let r2 : BitReader = (read_bool r1).1 in
    let clear2 : r2.overflow ≡ false = new.latch ∙ id.latch ∙ clear in
    let state = read_state-Read c p r2 rest fits.0 fits.1 clear2 new.valid new.left in
    record {
      reader = (read_state c.id (is_new p) p r2).1;
      result =
          rw
            (
              id.value,
              new.value,
              find_state-keep rows flags i 0 v h f,
              clear2,
              state.value,
              id.value,
              new.value,
              find_state-keep rows flags i 0 v h f,
            )
            (ap (λ (s : List EntityWireState). some (c.id, s, (read_state c.id (is_new p) p r2).1))
              (put_state-keep rows flags i 0 v h f));
      valid = state.valid;
      left = state.left;
      clear = state.latch ∙ clear2;
    }

-- No index twice.
abbrev pub Distinct : List ℕ → Type 0
Distinct [] = Unit
Distinct (i ∷ is) = All (λ j. i ≢ j) is × Distinct is

still_unsent :
    (selected : List ℕ) (flags : List Bool) (i : ℕ)
    → All (λ j. i ≢ j) selected
    → All (λ j. get_or flags j true ≡ false) selected
    → All (λ j. get_or (set flags i true) j true ≡ false) selected
still_unsent [] flags i h u = tt
still_unsent (j ∷ selected) flags i h u =
    (get_or-set_ne flags i j true true h.0 ∙ u.0, still_unsent selected flags i h.1 u.1)

-- The decoder turns the frame in which the entities selected are not sent yet into the frame that
-- the encoder keeps.
pub read_updates-updates_bits :
    (selected : List ℕ) (r : BitReader) (previous_id : ℕ) (rows : List Row) (flags : List Bool)
    (rest : List ℕ)
    → IsRows 0 rows
    → All (λ i. i < length rows) selected
    → Distinct selected
    → All (λ i. get_or flags i true ≡ false) selected
    → previous_id < 2 ^ 32
    → r.overflow ≡ false
    → IsValid r
    → remaining r ≡ updates_bits previous_id rows selected ++ rest
    → read_updates (length selected) r previous_id (keep rows flags)
      ≡ some (keep rows (mark selected flags))
unfolding read_updates mark
read_updates-updates_bits [] r previous_id rows flags rest v h d u small clear k e = refl
read_updates-updates_bits (i ∷ selected) r previous_id rows flags rest v h d u small clear k e =
    let c : EntityWireState = (get_or rows i blank_row).0 in
    let first =
      read_update-Round r previous_id rows flags i (updates_bits c.id rows selected ++ rest) v h.0
        u.0 small clear k
        (then_rest (update_bits previous_id c (get_or rows i blank_row).1)
          (updates_bits c.id rows selected) rest e) in
    rw (read_updates, first.result)
      (read_updates-updates_bits selected first.reader c.id rows (set flags i true) rest v h.1 d.1
        (still_unsent selected flags i d.0 u.1) ((row_fits rows i 0 v h.0).0.id_fits) first.clear
        first.valid first.left)
