-- ===== src/Proto/Snapshot/History.antt =====
-- The ring of frames of src/proto/snapshot.h: what is put is there, and what is there was put.
use mathlib.Core.Path.{subst}
use mathlib.Core.Option.{none-ne-some, some-injective}
use morton.Base.{
  ℕ, zero, suc, ◌%◌, ◌<◌, ◌≡◌, refl, true, false, not, ◌||◌, List, [], ◌∷◌, some, inl, inr, ◌==◌,
  ==_refl, length, length-set, get_or, set, get_or-set_self, All, Bool-cases, arith,
}
use morton.Proto.Snapshot.{SnapshotFrame, SnapshotHistory, empty_frame, get, put}

pub get-put :
    (frames : SnapshotHistory) (tick : ℕ) (frame : SnapshotFrame)
    → 0 < length frames
    → frame.valid ≡ true
    → frame.tick ≡ tick
    → get (put frames tick frame) tick ≡ some frame
unfolding get put
get-put frames tick frame some_frames held same =
    let i : ℕ = tick % length frames in
    let bounded : i < length frames = omega arith in
    let here : get_or (set frames i frame) i empty_frame ≡ frame =
      get_or-set_self frames i frame empty_frame bounded in
    let any : (length frames == 0) ≡ false = ground arith in
    rw (any, length-set frames i frame, any, here, held, same, ==_refl tick) refl

All-get_or {ℓ κ} :
    {A : Type ℓ} (P : A → Type κ) (xs : List A) (i : ℕ) (d : A) → P d → All P xs → P (get_or xs i d)
All-get_or P [] i d h v = h
All-get_or P (x ∷ xs) zero d h v = v.0
All-get_or P (x ∷ xs) (suc i) d h v = All-get_or P xs i d h v.1

pub All-set {ℓ κ} :
    {A : Type ℓ} (P : A → Type κ) (xs : List A) (i : ℕ) (a : A)
    → P a
    → All P xs
    → All P (set xs i a)
All-set P [] i a h v = tt
All-set P (x ∷ xs) zero a h v = (h, v.1)
All-set P (x ∷ xs) (suc i) a h v = (v.0, All-set P xs i a h v.1)

-- A frame that `get` finds is one of the frames, valid, and of the tick asked for.
pub record Found (P : SnapshotFrame → Type 0) (tick : ℕ) (frame : SnapshotFrame) : Type 0 where
  pub held : frame.valid ≡ true
  pub same : frame.tick ≡ tick
  pub kept : P frame

pub get-Found :
    (P : SnapshotFrame → Type 0) (frames : SnapshotHistory) (tick : ℕ) (frame : SnapshotFrame)
    → P empty_frame
    → All P frames
    → get frames tick ≡ some frame
    → Found P tick frame
unfolding get
get-Found P frames tick frame blank v e =
    let it : SnapshotFrame = get_or frames (tick % length frames) empty_frame in
    elim (Bool-cases (length frames == 0)) [
      | inl nothing ↦ absurd (none-ne-some frame (rw nothing at e))
      | inr some_frames ↦ elim (Bool-cases (not it.valid || not (it.tick == tick))) [
        | inl other ↦ absurd (none-ne-some frame (rw (some_frames, other) at e))
        | inr match ↦
            let here : it ≡ frame = some-injective it frame (rw (some_frames, match) at e) in
            let held : it.valid ≡ true = ground arith in
            let same : it.tick ≡ tick = ground arith in
            subst (Found P tick) here (record {
              held = held;
              same = same;
              kept = All-get_or P frames (tick % length frames) empty_frame blank v;
            })
      ]
    ]
