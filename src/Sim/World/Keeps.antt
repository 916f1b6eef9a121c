-- ===== src/Sim/World/Keeps.antt =====
-- The parts of a tick of `World` of src/sim/world.cpp move entities, and leave their ids and places
-- alone.
use morton.Base.{
  ℕ, zero, suc, ◌≡◌, refl, sym, ap, ◌∙◌, Bool, true, false, List, [], ◌∷◌, map, inl, inr, ◌==◌,
  if◌then◌else◌, length, length-map, length-set, set, Bool-cases, Option-cases, arith,
}
use morton.Base.Map.{lookup}
use morton.Core.Float.{F32}
use morton.Core.Vector.{Vec2, distance_sq}
use morton.Spatial.Grid.{visit_pairs}
use morton.Sim.Movement.{WorldParams}
use morton.Sim.Entities.{Entity, EntityStore, drifter_kind, find}
use morton.Sim.Entities.Index.{IsIndexed, id_at}
use morton.Sim.World.{PlayerSlot, WorldStats}
use morton.Sim.World.Tick.{
  next_input, move_entity, acknowledge_input, apply_input, apply_each, drive, shift, separate,
  confine,
}

module _ {F : F32} where
  -- One index, and under each place one id.
  pub record Keeps (s s' : EntityStore F) : Type 0 where
    pub size : length s'.rows ≡ length s.rows
    pub ids : (i : ℕ) → id_at s'.rows i ≡ id_at s.rows i
    pub index : s'.index_of ≡ s.index_of

  pub Keeps-refl : (s : EntityStore F) → Keeps s s
  Keeps-refl s = record { size = refl; ids = λ i. refl; index = refl }

  pub Keeps-trans : {s t u : EntityStore F} → Keeps s t → Keeps t u → Keeps s u
  Keeps-trans a b = record {
    size = b.size ∙ a.size;
    ids = λ i. b.ids i ∙ a.ids i;
    index = b.index ∙ a.index;
  }

  pub Keeps-IsIndexed : (s s' : EntityStore F) → Keeps s s' → IsIndexed s → IsIndexed s'
  Keeps-IsIndexed s s' k v = record {
    placed = λ i h.
        ap (λ (m : List (ℕ × ℕ)). lookup (id_at s'.rows i) m) k.index
        ∙ ap (λ (x : ℕ). lookup x s.index_of) (k.ids i)
        ∙ v.placed i (omega (arith, h, k.size));
    bounded = λ id i e.
        omega (
          arith,
          k.size,
          v.bounded id i (ap (λ (m : List (ℕ × ℕ)). lookup id m) (sym k.index) ∙ e),
        );
    owned =
        λ id i e. k.ids i ∙ v.owned id i (ap (λ (m : List (ℕ × ℕ)). lookup id m) (sym k.index) ∙ e);
  }

  id_at-set :
      (rows : List (Entity F)) (index i : ℕ) (e : Entity F)
      → e.id ≡ id_at rows index
      → id_at (set rows index e) i ≡ id_at rows i
  id_at-set [] index i e h = refl
  id_at-set (x ∷ rows) zero zero e h = h
  id_at-set (x ∷ rows) zero (suc i) e h = refl
  id_at-set (x ∷ rows) (suc index) zero e h = refl
  id_at-set (x ∷ rows) (suc index) (suc i) e h = id_at-set rows index i e h

  pub set-Keeps :
      (s : EntityStore F) (index : ℕ) (e : Entity F)
      → e.id ≡ id_at s.rows index
      → Keeps s (record s { rows = set s.rows index e })
  set-Keeps s index e h = record {
    size = length-set s.rows index e;
    ids = λ i. id_at-set s.rows index i e h;
    index = refl;
  }

  id_at-map :
      (f : Entity F → Entity F) (rows : List (Entity F)) (i : ℕ)
      → ((e : Entity F) → (f e).id ≡ e.id)
      → id_at (map f rows) i ≡ id_at rows i
  id_at-map f [] i h = refl
  id_at-map f (x ∷ rows) zero h = h x
  id_at-map f (x ∷ rows) (suc i) h = id_at-map f rows i h

  map-Keeps :
      (f : Entity F → Entity F) (s : EntityStore F)
      → ((e : Entity F) → (f e).id ≡ e.id)
      → Keeps s (record s { rows = map f s.rows })
  map-Keeps f s h = record {
    size = length-map f s.rows;
    ids = λ i. id_at-map f s.rows i h;
    index = refl;
  }

  apply_input-Keeps :
      (params : WorldParams F) (tick : ℕ) (slot : PlayerSlot F) (s : EntityStore F)
      (stats : WorldStats)
      → Keeps s (apply_input params tick slot s stats).1
  unfolding apply_input move_entity acknowledge_input
  apply_input-Keeps params tick slot s stats = elim (Option-cases (find s slot.entity)) [
    | inl absent ↦ rw (apply_input, absent) (Keeps-refl s)
    | inr (index, found) ↦
        rw (apply_input, found)
          (Keeps-trans (set-Keeps s index _ refl)
            (set-Keeps (move_entity params s index (next_input tick slot).0) index _ refl))
  ]

  pub apply_each-Keeps :
      (params : WorldParams F) (tick : ℕ) (players : List (ℕ × PlayerSlot F)) (s : EntityStore F)
      (stats : WorldStats)
      → Keeps s (apply_each params tick players s stats).1
  unfolding apply_each
  apply_each-Keeps params tick [] s stats = Keeps-refl s
  apply_each-Keeps params tick ((client, slot) ∷ players) s stats =
      Keeps-trans (apply_input-Keeps params tick slot s stats) (
        apply_each-Keeps params tick players (apply_input params tick slot s stats).1
          (apply_input params tick slot s stats).2)

  drive_id : (params : WorldParams F) (tick : ℕ) (e : Entity F) → (drive params tick e).id ≡ e.id
  unfolding drive
  drive_id params tick e = elim (Bool-cases (e.kind == drifter_kind)) [
    | inl drifts ↦ rw drifts refl
    | inr stays ↦ rw stays refl
  ]

  pub drive-Keeps :
      (params : WorldParams F) (tick : ℕ) (s : EntityStore F)
      → Keeps s (record s { rows = map (drive params tick) s.rows })
  drive-Keeps params tick s = map-Keeps (drive params tick) s (drive_id params tick)

  if-Keeps :
      (s : EntityStore F) (test : Bool) (x y : EntityStore F × ℕ)
      → Keeps s x.0
      → Keeps s y.0
      → Keeps s (if test then x else y).0
  if-Keeps s true x y a b = a
  if-Keeps s false x y a b = b

  shift-Keeps :
      (s : EntityStore F) (index : ℕ) (position : Vec2 F) → Keeps s (shift s index position)
  unfolding shift
  shift-Keeps s index position = set-Keeps s index _ refl

  separate-Keeps :
      (diameter : F.Carrier) (s : EntityStore F) (pairs a b : ℕ)
      → Keeps s (separate diameter (s, pairs) a b).0
  unfolding separate
  separate-Keeps diameter s pairs a b =
      if-Keeps s _ _ _ (Keeps-refl s) (Keeps-trans (shift-Keeps s a _) (shift-Keeps _ b _))

  pub visit_pairs-Keeps :
      (position : EntityStore F × ℕ → ℕ → Vec2 F) (radius_sq diameter : F.Carrier)
      (pairs : List (ℕ × ℕ)) (start : EntityStore F × ℕ)
      → Keeps start.0 (visit_pairs position radius_sq (separate diameter) pairs start).0
  unfolding visit_pairs
  visit_pairs-Keeps position radius_sq diameter [] start = Keeps-refl start.0
  visit_pairs-Keeps position radius_sq diameter (pair ∷ pairs) start =
      elim (Bool-cases
        (F.le (distance_sq (position start pair.0) (position start pair.1)) radius_sq)) [
          | inl near ↦
              rw (visit_pairs, near)
                (Keeps-trans (separate-Keeps diameter start.0 start.1 pair.0 pair.1) (
                  visit_pairs-Keeps position radius_sq diameter pairs
                    (separate diameter start pair.0 pair.1)))
          | inr far ↦
              rw (visit_pairs, far) (visit_pairs-Keeps position radius_sq diameter pairs start)
        ]

  pub confine-Keeps :
      (low high : F.Carrier) (s : EntityStore F)
      → Keeps s (record s { rows = map (confine low high) s.rows })
  confine-Keeps low high s = map-Keeps (confine low high) s (λ e. unfold confine in refl)
