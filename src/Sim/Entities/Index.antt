-- ===== src/Sim/Entities/Index.antt =====
-- The index of `EntityStore` of src/sim/world.h against its arrays.
use native.Mathlib.Decide.{dec_le}
use mathlib.Core.Option.{none-ne-some, some-injective}
use morton.Base.{
  ℕ, zero, suc, ◌≤◌, ◌<◌, ◌≡◌, refl, sym, ap, ◌∙◌, false, List, [], ◌∷◌, ◌++◌, none, some, inl, inr,
  ◌==◌, ==_refl, ==_iff, ne→==, ◌⊎◌, length, length-append, get_or, take, Bool-cases, arith,
}
use morton.Base.Map.{lookup, assign, lookup-assign}
use morton.Core.Float.{F32}
use morton.Core.Vector.{Vec2}
use morton.Sim.Entities.{Entity, EntityStore, no_entity, empty_store, add, find}

module _ {ℓ} {A : Type ℓ} where
  pub length-take_min : (n : ℕ) (xs : List A) → n ≤ length xs → length (take n xs) ≡ n
  length-take_min zero xs h = refl
  length-take_min (suc n) [] h = absurd (omega arith)
  length-take_min (suc n) (x ∷ xs) h = ap suc (length-take_min n xs (omega arith))

  pub get_or-take : (n i : ℕ) (xs : List A) (d : A) → i < n → get_or (take n xs) i d ≡ get_or xs i d
  get_or-take zero i xs d h = absurd (omega arith)
  get_or-take (suc n) i [] d h = refl
  get_or-take (suc n) zero (x ∷ xs) d h = refl
  get_or-take (suc n) (suc i) (x ∷ xs) d h = get_or-take n i xs d (omega arith)

  pub get_or-append_left :
      (xs ys : List A) (i : ℕ) (d : A) → i < length xs → get_or (xs ++ ys) i d ≡ get_or xs i d
  get_or-append_left [] ys i d h = absurd (omega arith)
  get_or-append_left (x ∷ xs) ys zero d h = refl
  get_or-append_left (x ∷ xs) ys (suc i) d h = get_or-append_left xs ys i d (omega arith)

  pub get_or-append_last : (xs : List A) (y d : A) → get_or (xs ++ (y ∷ [])) (length xs) d ≡ y
  get_or-append_last [] y d = refl
  get_or-append_last (x ∷ xs) y d = get_or-append_last xs y d

-- Two ids in one place are one.
pub same_place :
    (m : List (ℕ × ℕ)) (k l i j : ℕ) → lookup k m ≡ some i → lookup l m ≡ some j → k ≡ l → i ≡ j
same_place m k l i j e f same = some-injective i j (sym e ∙ ap (λ (x : ℕ). lookup x m) same ∙ f)

module _ {F : F32} where
  abbrev pub id_at : List (Entity F) → ℕ → ℕ
  id_at rows i = (get_or rows i (no_entity F)).id

  -- `index_of` has exactly the places of the entities.
  pub record IsIndexed (s : EntityStore F) : Type 0 where
    pub placed : (i : ℕ) → i < length s.rows → lookup (id_at s.rows i) s.index_of ≡ some i
    pub bounded : (id i : ℕ) → lookup id s.index_of ≡ some i → i < length s.rows
    pub owned : (id i : ℕ) → lookup id s.index_of ≡ some i → id_at s.rows i ≡ id

  pub empty_store-IsIndexed : IsIndexed (empty_store F)
  unfolding lookup
  empty_store-IsIndexed = record {
    placed = λ i h. absurd (omega (arith, h));
    bounded = λ id i e. absurd (none-ne-some i e);
    owned = λ id i e. absurd (none-ne-some i e);
  }

  pub same_id : (rows : List (Entity F)) (i j : ℕ) → i ≡ j → id_at rows i ≡ id_at rows j
  same_id rows i j e = ap (λ (x : ℕ). id_at rows x) e

  module _ (s : EntityStore F) (new : Entity F) (v : IsIndexed s)
      (fresh : lookup new.id s.index_of ≡ none) where
    abbrev pub added : EntityStore F
    added = record {
      rows = s.rows ++ (new ∷ []);
      index_of = assign new.id (length s.rows) s.index_of;
    }

    pub added_length : length added.rows ≡ suc (length s.rows)
    added_length = omega (arith, length-append s.rows (new ∷ []))

    pub added_old : (i : ℕ) → i < length s.rows → id_at added.rows i ≡ id_at s.rows i
    added_old i h =
        ap (λ (e : Entity F). e.id) (get_or-append_left s.rows (new ∷ []) i (no_entity F) h)

    pub added_new : id_at added.rows (length s.rows) ≡ new.id
    added_new = ap (λ (e : Entity F). e.id) (get_or-append_last s.rows new (no_entity F))

    pub added_placed :
        (i : ℕ) → i < length added.rows → lookup (id_at added.rows i) added.index_of ≡ some i
    added_placed i h = elim (dec_le (suc i) (length s.rows)) [
      | yes old ↦
          let there = v.placed i old in
          let other : (new.id == id_at s.rows i) ≡ false = ne→== new.id (id_at s.rows i) (λ same.
            none-ne-some i (sym fresh ∙ ap (λ (x : ℕ). lookup x s.index_of) same ∙ there)) in
          rw
            (
              added_old i old,
              lookup-assign new.id (id_at s.rows i) (length s.rows) s.index_of,
              other,
            )
            there
      | no last ↦
          let here : i ≡ length s.rows = omega (arith, h, added_length) in
          rw
            (
              here,
              added_new,
              lookup-assign new.id new.id (length s.rows) s.index_of,
              ==_refl new.id,
            )
            refl
    ]

    pub added_found :
        (id i : ℕ)
        → lookup id added.index_of ≡ some i
        → ((new.id ≡ id) × (i ≡ length s.rows)) ⊎ (lookup id s.index_of ≡ some i)
    added_found id i e =
        let e' = sym (lookup-assign new.id id (length s.rows) s.index_of) ∙ e in
        elim (Bool-cases (new.id == id)) [
          | inl here ↦
              inl
                ((==_iff new.id id).0 here, sym (some-injective (length s.rows) i (rw here at e')))
          | inr there ↦ inr (rw there at e')
        ]

    append-IsIndexed : IsIndexed added
    append-IsIndexed = record {
      placed = added_placed;
      bounded = λ id i e. elim (added_found id i e) [
        | inl here ↦ omega (arith, added_length, here.1)
        | inr old ↦ omega (arith, added_length, v.bounded id i old)
      ];
      owned = λ id i e. elim (added_found id i e) [
        | inl here ↦ same_id added.rows i (length s.rows) here.1 ∙ added_new ∙ here.0
        | inr old ↦ added_old i (v.bounded id i old) ∙ v.owned id i old
      ];
    }

  pub add-IsIndexed :
      (s : EntityStore F) (entity kind : ℕ) (start : Vec2 F) (client : ℕ)
      → IsIndexed s
      → find s entity ≡ none
      → IsIndexed (add s entity kind start client)
  unfolding find add
  add-IsIndexed s entity kind start client v fresh = append-IsIndexed s _ v fresh
