-- ===== src/Proto/Snapshot/Encode/Frames.antt =====
-- The frames that `ReplicationState` of src/proto/snapshot.h keeps, and the one that it uses as the
-- baseline.
use mathlib.Core.Path.{subst}
use morton.Base.{
  ℕ, suc, ◌^◌, ◌≤◌, ◌<◌, ◌≡◌, refl, sym, ap, ◌∙◌, Bool, true, false, List, [], ◌∷◌, map, Option,
  none, some, if◌then◌else◌, length, All, inl, inr, Bool-cases, ◌==◌, ◌%◌, arith,
}
use morton.Core.Float.{F32}
use morton.Proto.Snapshot.{
  EntityWireState, SnapshotFrame, SnapshotHistory, empty_frame, slot, get, put,
}
use morton.Proto.Snapshot.History.{get-Found, All-set}
use morton.Proto.Snapshot.Merge.{Row, keep}
use morton.Proto.Snapshot.Merge.Baseline.{IsStates}
use morton.Proto.Snapshot.Frame.{IsRows}
use morton.Proto.Snapshot.Encode.{ReplicationState, same_slot, tick_of, baseline, usable_baseline}
use morton.Proto.Snapshot.Encode.Front.{FitsTick}
use morton.Proto.Snapshot.Encode.Round.{states_of, HoldsFrame}

module _ (kinds : ℕ → ℕ) where
  -- A frame of fewer than 65536 entities, in order, each of the kind that belongs to its id.
  pub record IsFrame (frame : SnapshotFrame) : Type 0 where
    pub tick_fits : frame.tick < 2 ^ 32
    pub ordered : IsStates kinds 0 frame.states
    pub counted : length frame.states < 2 ^ 16

  abbrev pub IsHistory : SnapshotHistory → Type 0
  IsHistory frames = All IsFrame frames

  pub empty_frame-IsFrame : IsFrame empty_frame
  empty_frame-IsFrame = record { tick_fits = omega arith; ordered = tt; counted = omega arith }

  pub record IsBase (base : Option SnapshotFrame) : Type 0 where
    pub held : HoldsFrame base
    pub tick_fits : FitsTick (tick_of base)
    pub ordered : IsStates kinds 0 (states_of base)
    pub counted : length (states_of base) < 2 ^ 16

  none-IsBase : IsBase none
  none-IsBase = record { held = tt; tick_fits = tt; ordered = tt; counted = omega arith }

  get-IsBase :
      (frames : SnapshotHistory) (tick : ℕ) (base : Option SnapshotFrame)
      → IsHistory frames
      → get frames tick ≡ base
      → IsBase base
  get-IsBase frames tick none v e = none-IsBase
  get-IsBase frames tick (some frame) v e =
      let found = get-Found IsFrame frames tick frame empty_frame-IsFrame v e in
      record {
        held = found.held;
        tick_fits = found.kept.tick_fits;
        ordered = found.kept.ordered;
        counted = found.kept.counted;
      }

  if-IsBase :
      (b : Bool) (base : Option SnapshotFrame) → IsBase base → IsBase (if b then base else none)
  if-IsBase true base v = v
  if-IsBase false base v = none-IsBase

  unless-IsBase :
      (b : Bool) (base : Option SnapshotFrame)
      → IsBase base
      → IsBase (elim base [ none ↦ none | some frame ↦ if b then none else some frame ])
  unless-IsBase b none v = none-IsBase
  unless-IsBase true (some frame) v = none-IsBase
  unless-IsBase false (some frame) v = v

  pub usable_baseline-IsBase :
      {F : F32} (s : ReplicationState F) (tick : ℕ)
      → IsHistory s.history
      → IsBase (usable_baseline s tick)
  unfolding usable_baseline baseline
  usable_baseline-IsBase s tick v =
      unless-IsBase (same_slot (slot s.history s.last_acked_tick) (slot s.history tick))
        (baseline s)
        (if-IsBase s.has_acked (get s.history s.last_acked_tick)
          (get-IsBase s.history s.last_acked_tick (get s.history s.last_acked_tick) v refl))

  IsStates-weaken :
      (low high : ℕ) (states : List EntityWireState)
      → low ≤ high
      → IsStates kinds high states
      → IsStates kinds low states
  IsStates-weaken low high [] h v = tt
  IsStates-weaken low high (s ∷ rest) h (above, fits, kind, v) = (omega arith, fits, kind, v)

  -- What a snapshot leaves of ordered rows is ordered, whatever was sent.
  pub keep-IsStates :
      (low : ℕ) (rows : List Row) (flags : List Bool)
      → IsRows low rows
      → IsStates kinds low (map (λ (r : Row). r.0) rows)
      → IsStates kinds low (keep rows flags)
  unfolding keep
  keep-IsStates low [] flags v k = tt
  keep-IsStates low ((c, p) ∷ rows) [] v k = tt
  keep-IsStates low ((c, p) ∷ rows) (true ∷ flags) v k =
      (k.0, k.1, k.2, keep-IsStates (suc c.id) rows flags v.3 k.3)
  keep-IsStates low ((c, none) ∷ rows) (false ∷ flags) v k =
      IsStates-weaken low (suc c.id) (keep rows flags) (omega (arith, k.0))
        (keep-IsStates (suc c.id) rows flags v.3 k.3)
  keep-IsStates low ((c, some b) ∷ rows) (false ∷ flags) v k =
      let (same, kind, fits) = v.2 in
      (
        omega (arith, k.0, same),
        fits,
        kind ∙ k.2 ∙ ap kinds (sym same),
        subst (λ i. IsStates kinds (suc i) (keep rows flags)) (sym same)
            (keep-IsStates (suc c.id) rows flags v.3 k.3),
      )

  pub put-IsHistory :
      (frames : SnapshotHistory) (tick : ℕ) (frame : SnapshotFrame)
      → IsFrame frame
      → IsHistory frames
      → IsHistory (put frames tick frame)
  unfolding put
  put-IsHistory frames tick frame v h = elim (Bool-cases (length frames == 0)) [
    | inl nothing ↦ rw nothing h
    | inr any ↦ rw any (All-set IsFrame frames (tick % length frames) frame v h)
  ]

pub length-keep : (rows : List Row) (flags : List Bool) → length (keep rows flags) ≤ length rows
unfolding keep
length-keep [] flags = omega arith
length-keep ((c, p) ∷ rows) [] = omega arith
length-keep ((c, p) ∷ rows) (true ∷ flags) = omega (arith, length-keep rows flags)
length-keep ((c, none) ∷ rows) (false ∷ flags) = omega (arith, length-keep rows flags)
length-keep ((c, some b) ∷ rows) (false ∷ flags) = omega (arith, length-keep rows flags)
