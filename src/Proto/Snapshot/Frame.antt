-- ===== src/Proto/Snapshot/Frame.antt =====
-- The frame of a snapshot as a map from ids: lookups and writes, row by row.
use morton.Base.{
  ℕ, zero, suc, ◌≤◌, ◌<◌, ◌≡◌, refl, ap, ◌∙◌, Bool, true, false, List, [], ◌∷◌, Option, none, some,
  lt→ltb, length, get_or, set, arith,
}
use morton.Proto.Snapshot.{EntityWireState, find_state}
use morton.Proto.Snapshot.Decode.{put_state}
use morton.Proto.Snapshot.Merge.{Row, blank_row, keep}
use morton.Proto.Snapshot.Update.Wire.{IsWireState}

-- What the baseline may have of a current entity: the same entity, of the same kind.
abbrev pub Precedes : EntityWireState → Option EntityWireState → Type 0
Precedes c none = Unit
Precedes c (some b) = (b.id ≡ c.id) × (b.kind ≡ c.kind) × IsWireState b

-- Rows in the order of their ids, `low` or more.
abbrev pub IsRows : ℕ → List Row → Type 0
IsRows low [] = Unit
IsRows low ((c, p) ∷ rows) = (low ≤ c.id) × IsWireState c × Precedes c p × IsRows (suc c.id) rows

find_state-skip :
    (id : ℕ) (s : EntityWireState) (rest : List EntityWireState)
    → s.id < id
    → find_state id (s ∷ rest) ≡ find_state id rest
unfolding find_state
find_state-skip id s rest h = rw (lt→ltb s.id id h) refl

find_state-head :
    (id : ℕ) (s : EntityWireState) (rest : List EntityWireState)
    → s.id ≡ id
    → find_state id (s ∷ rest) ≡ some s
unfolding find_state
find_state-head id s rest e = ground (arith, e)

find_state-above :
    (id : ℕ) (s : EntityWireState) (rest : List EntityWireState)
    → id < s.id
    → find_state id (s ∷ rest) ≡ none
unfolding find_state
find_state-above id s rest h = ground arith

put_state-skip :
    (t s : EntityWireState) (rest : List EntityWireState)
    → s.id < t.id
    → put_state t (s ∷ rest) ≡ s ∷ put_state t rest
unfolding put_state
put_state-skip t s rest h = rw (lt→ltb s.id t.id h) refl

put_state-head :
    (t s : EntityWireState) (rest : List EntityWireState)
    → s.id ≡ t.id
    → put_state t (s ∷ rest) ≡ t ∷ rest
unfolding put_state
put_state-head t s rest e = ground (arith, e)

put_state-above :
    (t s : EntityWireState) (rest : List EntityWireState)
    → t.id < s.id
    → put_state t (s ∷ rest) ≡ t ∷ s ∷ rest
unfolding put_state
put_state-above t s rest h = ground arith

-- Below all rows there is nothing.
find_state-keep_below :
    (rows : List Row) (flags : List Bool) (id low : ℕ)
    → IsRows low rows
    → id < low
    → find_state id (keep rows flags) ≡ none
unfolding keep
find_state-keep_below [] flags id low v h = unfold find_state in refl
find_state-keep_below ((c, p) ∷ rows) [] id low v h = unfold find_state in refl
find_state-keep_below ((c, p) ∷ rows) (true ∷ flags) id low (above, fits, old, v) h =
    find_state-above id c (keep rows flags) (omega arith)
find_state-keep_below ((c, none) ∷ rows) (false ∷ flags) id low (above, fits, old, v) h =
    find_state-keep_below rows flags id (suc c.id) v (omega arith)
find_state-keep_below ((c, some b) ∷ rows) (false ∷ flags) id low (above, fits, old, v) h =
    find_state-above id b (keep rows flags) (omega (arith, old.0))

put_state-keep_below :
    (rows : List Row) (flags : List Bool) (t : EntityWireState) (low : ℕ)
    → IsRows low rows
    → t.id < low
    → put_state t (keep rows flags) ≡ t ∷ keep rows flags
unfolding keep
put_state-keep_below [] flags t low v h = unfold put_state in refl
put_state-keep_below ((c, p) ∷ rows) [] t low v h = unfold put_state in refl
put_state-keep_below ((c, p) ∷ rows) (true ∷ flags) t low (above, fits, old, v) h =
    put_state-above t c (keep rows flags) (omega arith)
put_state-keep_below ((c, none) ∷ rows) (false ∷ flags) t low (above, fits, old, v) h =
    put_state-keep_below rows flags t (suc c.id) v (omega arith)
put_state-keep_below ((c, some b) ∷ rows) (false ∷ flags) t low (above, fits, old, v) h =
    put_state-above t b (keep rows flags) (omega (arith, old.0))

abbrev pub row_id : List Row → ℕ → ℕ
row_id rows i = (get_or rows i blank_row).0.id

row_id-ge : (rows : List Row) (i low : ℕ) → IsRows low rows → i < length rows → low ≤ row_id rows i
row_id-ge [] i low v h = absurd (omega arith)
row_id-ge ((c, p) ∷ rows) zero low v h = v.0
row_id-ge ((c, p) ∷ rows) (suc i) low (above, fits, old, v) h =
    omega (arith, row_id-ge rows i (suc c.id) v)

-- A row that is not sent shows what the baseline has.
pub find_state-keep :
    (rows : List Row) (flags : List Bool) (i low : ℕ)
    → IsRows low rows
    → i < length rows
    → get_or flags i true ≡ false
    → find_state (row_id rows i) (keep rows flags) ≡ (get_or rows i blank_row).1
unfolding keep
find_state-keep [] flags i low v h f = absurd (omega arith)
find_state-keep ((c, p) ∷ rows) [] i low v h f = absurd (cc)
find_state-keep ((c, p) ∷ rows) (true ∷ flags) zero low v h f = absurd (cc)
find_state-keep ((c, none) ∷ rows) (false ∷ flags) zero low (above, fits, old, v) h f =
    find_state-keep_below rows flags c.id (suc c.id) v (omega arith)
find_state-keep ((c, some b) ∷ rows) (false ∷ flags) zero low (above, fits, old, v) h f =
    find_state-head c.id b (keep rows flags) old.0
find_state-keep ((c, p) ∷ rows) (true ∷ flags) (suc i) low (above, fits, old, v) h f =
    find_state-skip (row_id rows i) c (keep rows flags)
      (row_id-ge rows i (suc c.id) v (omega arith))
    ∙ find_state-keep rows flags i (suc c.id) v (omega arith) f
find_state-keep ((c, none) ∷ rows) (false ∷ flags) (suc i) low (above, fits, old, v) h f =
    find_state-keep rows flags i (suc c.id) v (omega arith) f
find_state-keep ((c, some b) ∷ rows) (false ∷ flags) (suc i) low (above, fits, old, v) h f =
    find_state-skip (row_id rows i) b (keep rows flags)
      (omega (arith, old.0, row_id-ge rows i (suc c.id) v))
    ∙ find_state-keep rows flags i (suc c.id) v (omega arith) f

-- To put a current entity into the frame is to send its row.
pub put_state-keep :
    (rows : List Row) (flags : List Bool) (i low : ℕ)
    → IsRows low rows
    → i < length rows
    → get_or flags i true ≡ false
    → put_state (get_or rows i blank_row).0 (keep rows flags) ≡ keep rows (set flags i true)
unfolding keep
put_state-keep [] flags i low v h f = absurd (omega arith)
put_state-keep ((c, p) ∷ rows) [] i low v h f = absurd (cc)
put_state-keep ((c, p) ∷ rows) (true ∷ flags) zero low v h f = absurd (cc)
put_state-keep ((c, none) ∷ rows) (false ∷ flags) zero low (above, fits, old, v) h f =
    put_state-keep_below rows flags c (suc c.id) v (omega arith)
put_state-keep ((c, some b) ∷ rows) (false ∷ flags) zero low (above, fits, old, v) h f =
    put_state-head c b (keep rows flags) old.0
put_state-keep ((c, p) ∷ rows) (true ∷ flags) (suc i) low (above, fits, old, v) h f =
    put_state-skip (get_or rows i blank_row).0 c (keep rows flags)
      (row_id-ge rows i (suc c.id) v (omega arith))
    ∙ ap (◌∷◌ c) (put_state-keep rows flags i (suc c.id) v (omega arith) f)
put_state-keep ((c, none) ∷ rows) (false ∷ flags) (suc i) low (above, fits, old, v) h f =
    put_state-keep rows flags i (suc c.id) v (omega arith) f
put_state-keep ((c, some b) ∷ rows) (false ∷ flags) (suc i) low (above, fits, old, v) h f =
    put_state-skip (get_or rows i blank_row).0 b (keep rows flags)
      (omega (arith, old.0, row_id-ge rows i (suc c.id) v))
    ∙ ap (◌∷◌ b) (put_state-keep rows flags i (suc c.id) v (omega arith) f)
