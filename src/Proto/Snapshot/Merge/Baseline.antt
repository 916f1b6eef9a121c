-- ===== src/Proto/Snapshot/Merge/Baseline.antt =====
-- The merge of a baseline with the current entities, against what the decoder of
-- src/proto/snapshot.cpp makes of the baseline and the ids removed.
use mathlib.Core.Path.{subst}
use morton.Base.{
  ℕ, zero, suc, ◌+◌, ◌^◌, ◌≤◌, ◌<◌, ◌≡◌, refl, sym, ap, ◌∙◌, Bool, true, false, List, [], ◌∷◌, map,
  none, some, ltb, ◌==◌, length, replicate, All, Bool-cases, inl, inr, ltb→lt, arith,
}
use morton.Proto.Snapshot.{EntityWireState}
use morton.Proto.Snapshot.Update.Wire.{IsWireState}
use morton.Proto.Snapshot.Decode.{is_in, without}
use morton.Proto.Snapshot.Merge.{Row, all_new, ids_of, merge, keep}
use morton.Proto.Snapshot.Frame.{IsRows}

-- No entity is sent yet.
abbrev pub unsent : List Row → List Bool
unsent rows = replicate (length rows) false

module _ (kinds : ℕ → ℕ) where
  -- States in the order of their ids, `low` or more, each of the kind that belongs to its id.
  abbrev pub IsStates : ℕ → List EntityWireState → Type 0
  IsStates low [] = Unit
  IsStates low (s ∷ rest) =
      (low ≤ s.id) × IsWireState s × (s.kind ≡ kinds s.id) × IsStates (suc s.id) rest

  pub record Merged (low : ℕ) (base current : List EntityWireState) (p : List Row × List ℕ)
      : Type 0 where
    pub rows : IsRows low p.0
    pub currents : map (λ (r : Row). r.0) p.0 ≡ current
    pub baseline : keep p.0 (unsent p.0) ≡ without p.1 base
    pub above : All (λ x. low ≤ x) p.1
    pub fits : All (λ x. x < 2 ^ 32) p.1

  IsRows-weaken : (low high : ℕ) (rows : List Row) → low ≤ high → IsRows high rows → IsRows low rows
  IsRows-weaken low high [] h v = tt
  IsRows-weaken low high ((c, p) ∷ rows) h (above, fits, old, v) = (omega arith, fits, old, v)

  All-weaken :
      (low high : ℕ) (xs : List ℕ) → low ≤ high → All (λ x. high ≤ x) xs → All (λ x. low ≤ x) xs
  All-weaken low high [] h v = tt
  All-weaken low high (x ∷ xs) h v = (omega (arith, v.0), All-weaken low high xs h v.1)

  not_in : (id low : ℕ) (xs : List ℕ) → id < low → All (λ x. low ≤ x) xs → is_in id xs ≡ false
  unfolding is_in
  not_in id low [] h v = refl
  not_in id low (x ∷ xs) h v = ground (arith, v.0, not_in id low xs h v.1)

  -- An id below all states removes none of them.
  without-below :
      (id low : ℕ) (removed : List ℕ) (states : List EntityWireState)
      → IsStates low states
      → id < low
      → without (id ∷ removed) states ≡ without removed states
  unfolding without is_in
  without-below id low removed [] v h = refl
  without-below id low removed (s ∷ rest) (above, fits, kind, v) h =
      let other : (id == s.id) ≡ false = ground arith in
      let later = without-below id (suc s.id) removed rest v (omega arith) in rw (other, later) refl

  without-head :
      (s : EntityWireState) (removed : List ℕ) (rest : List EntityWireState)
      → IsStates (suc s.id) rest
      → without (s.id ∷ removed) (s ∷ rest) ≡ without removed rest
  unfolding without is_in
  without-head s removed rest v =
      let here : (s.id == s.id) ≡ true = ground arith in
      rw here (without-below s.id (suc s.id) removed rest v (omega arith))

  without-kept :
      (s : EntityWireState) (removed : List ℕ) (rest : List EntityWireState)
      → is_in s.id removed ≡ false
      → without removed (s ∷ rest) ≡ s ∷ without removed rest
  unfolding without
  without-kept s removed rest e = rw e refl

  all_gone :
      (low : ℕ) (states : List EntityWireState)
      → IsStates low states
      → without (ids_of states) states ≡ []
  unfolding ids_of
  all_gone low [] v = unfold without in refl
  all_gone low (s ∷ rest) (above, fits, kind, v) =
      without-head s (ids_of rest) rest v ∙ all_gone (suc s.id) rest v

  ids_above :
      (low : ℕ) (states : List EntityWireState)
      → IsStates low states
      → All (λ x. low ≤ x) (ids_of states)
  unfolding ids_of
  ids_above low [] v = tt
  ids_above low (s ∷ rest) (above, fits, kind, v) =
      (above, All-weaken low (suc s.id) (ids_of rest) (omega arith) (ids_above (suc s.id) rest v))

  ids_fit :
      (low : ℕ) (states : List EntityWireState)
      → IsStates low states
      → All (λ x. x < 2 ^ 32) (ids_of states)
  unfolding ids_of
  ids_fit low [] v = tt
  ids_fit low (s ∷ rest) (above, fits, kind, v) = (fits.id_fits, ids_fit (suc s.id) rest v)

  only_new :
      (low : ℕ) (current : List EntityWireState)
      → IsStates low current
      → IsRows low (all_new current)
        × (map (λ (r : Row). r.0) (all_new current) ≡ current)
        × (keep (all_new current) (unsent (all_new current)) ≡ [])
  unfolding all_new keep
  only_new low [] v = (tt, refl, refl)
  only_new low (c ∷ current) (above, fits, kind, v) =
      let (rows, same, nothing) = only_new (suc c.id) current v in
      ((above, fits, tt, rows), ap (◌∷◌ c) same, nothing)

  pub all_new-Merged :
      (low : ℕ) (current : List EntityWireState)
      → IsStates low current
      → Merged low [] current (all_new current, [])
  all_new-Merged low current v =
      let (rows, same, nothing) = only_new low current v in
      record {
        rows = rows;
        currents = same;
        baseline = nothing ∙ (unfold without in refl);
        above = tt;
        fits = tt;
      }

  module _ (low : ℕ) (b c : EntityWireState) (base current : List EntityWireState)
      (vb : IsStates low (b ∷ base)) (vc : IsStates low (c ∷ current)) (p : List Row × List ℕ) where
    removed_step :
        b.id < c.id
        → Merged (suc b.id) base (c ∷ current) p
        → Merged low (b ∷ base) (c ∷ current) (p.0, b.id ∷ p.1)
    removed_step h m = record {
      rows = IsRows-weaken low (suc b.id) p.0 (omega (arith, vb.0)) m.rows;
      currents = m.currents;
      baseline = m.baseline ∙ sym (without-head b p.1 base vb.3);
      above = (vb.0, All-weaken low (suc b.id) p.1 (omega (arith, vb.0)) m.above);
      fits = (vb.1.id_fits, m.fits);
    }

    new_step :
        Merged (suc c.id) (b ∷ base) current p
        → Merged low (b ∷ base) (c ∷ current) ((c, none) ∷ p.0, p.1)
    new_step m = record {
      rows = (vc.0, vc.1, tt, m.rows);
      currents = ap (◌∷◌ c) m.currents;
      baseline = unfold keep in m.baseline;
      above = All-weaken low (suc c.id) p.1 (omega (arith, vc.0)) m.above;
      fits = m.fits;
    }

    same_step :
        b.id ≡ c.id
        → Merged (suc c.id) base current p
        → Merged low (b ∷ base) (c ∷ current) ((c, some b) ∷ p.0, p.1)
    same_step e m = record {
      rows = (vc.0, vc.1, (e, vb.2 ∙ ap kinds e ∙ sym vc.2, vb.1), m.rows);
      currents = ap (◌∷◌ c) m.currents;
      baseline =
          unfold keep in
          (ap (◌∷◌ b) m.baseline
            ∙ sym
                (without-kept b p.1 base (not_in b.id (suc c.id) p.1 (omega (arith, e)) m.above)));
      above = All-weaken low (suc c.id) p.1 (omega (arith, vc.0)) m.above;
      fits = m.fits;
    }

  pub merge-Merged :
      (left low : ℕ) (base current : List EntityWireState)
      → IsStates low base
      → IsStates low current
      → length base + length current ≤ left
      → Merged low base current (merge left base current)
  unfolding merge ids_of
  merge-Merged zero low [] [] vb vc h = all_new-Merged low [] tt
  merge-Merged zero low (b ∷ base) current vb vc h = absurd (omega arith)
  merge-Merged zero low [] (c ∷ current) vb vc h = absurd (omega arith)
  merge-Merged (suc left) low [] current vb vc h = all_new-Merged low current vc
  merge-Merged (suc left) low (b ∷ base) [] vb vc h =
      let nothing : keep [] (unsent []) ≡ [] = unfold keep in refl in
      record {
        rows = tt;
        currents = refl;
        baseline = nothing ∙ sym (all_gone low (b ∷ base) vb);
        above = ids_above low (b ∷ base) vb;
        fits = ids_fit low (b ∷ base) vb;
      }
  merge-Merged (suc left) low (b ∷ base) (c ∷ current) vb vc h = elim (Bool-cases (ltb b.id c.id)) [
    | inl before ↦
        let less = ltb→lt b.id c.id before in
        rw (merge, before)
          (removed_step low b c base current vb vc (merge left base (c ∷ current)) less (
            merge-Merged left (suc b.id) base (c ∷ current) vb.3
              (omega (arith, less), vc.1, vc.2, vc.3) (omega arith)))
    | inr not_before ↦ elim (Bool-cases (ltb c.id b.id)) [
      | inl after ↦
          let less = ltb→lt c.id b.id after in
          rw (merge, not_before, after)
            (new_step low b c base current vb vc (merge left (b ∷ base) current) (
              merge-Merged left (suc c.id) (b ∷ base) current
                (omega (arith, less), vb.1, vb.2, vb.3) vc.3 (omega arith)))
      | inr not_after ↦
          let same : b.id ≡ c.id = ground arith in
          let states : IsStates (suc c.id) base = subst (λ k. IsStates (suc k) base) same vb.3 in
          rw (merge, not_before, not_after)
            (same_step low b c base current vb vc (merge left base current) same
              (merge-Merged left (suc c.id) base current states vc.3 (omega arith)))
    ]
  ]
