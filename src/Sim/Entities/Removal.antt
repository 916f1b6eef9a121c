-- ===== src/Sim/Entities/Removal.antt =====
-- `EntityStore::remove` of src/sim/world.cpp against the index.
use mathlib.Core.Option.{none-ne-some, some-injective}
use mathlib.Core.Path.{subst}
use mathlib.Core.Bool.{true≢false}
use morton.Base.{
  ℕ, suc, ◌-◌, ◌<◌, ◌≡◌, ◌≢◌, refl, sym, ap, ◌∙◌, false, Option, none, some, inl, inr,
  if◌then◌else◌, ◌==◌, ==_refl, ==_iff, ne→==, ◌⊎◌, length, length-set, get_or, get_or-set_self,
  get_or-set_ne, set, take, Bool-cases, Option-cases, arith,
}
use morton.Base.Map.{lookup, assign, erase, lookup-assign, lookup-erase}
use morton.Core.Float.{F32}
use morton.Sim.Entities.{Entity, EntityStore, no_entity, remove_at, remove}
use morton.Sim.Entities.Index.{IsIndexed, id_at, same_id, same_place, length-take_min, get_or-take}

module _ {F : F32} where
  -- The store after a removal, where the last entity moves into the place that is free.
  module _ (s : EntityStore F) (entity index : ℕ) (v : IsIndexed s)
      (found : lookup entity s.index_of ≡ some index) (moves : index ≢ length s.rows - 1) where
    abbrev pub last : ℕ
    last = length s.rows - 1

    abbrev pub mover : Entity F
    mover = get_or s.rows last (no_entity F)

    abbrev pub moved : EntityStore F
    moved = record {
      rows = take last (set s.rows index mover);
      index_of = erase entity (assign mover.id index s.index_of);
    }

    pub last_bounded : (index < last) × (suc last ≡ length s.rows)
    last_bounded = (
      omega (arith, moves, v.bounded entity index found),
      omega (arith, v.bounded entity index found),
    )

    pub mover_found : lookup mover.id s.index_of ≡ some last
    mover_found = v.placed last (omega (arith, last_bounded))

    pub moved_length : length moved.rows ≡ last
    moved_length =
        length-take_min last (set s.rows index mover)
          (omega (arith, length-set s.rows index mover, last_bounded))

    pub moved_here : get_or moved.rows index (no_entity F) ≡ mover
    moved_here =
        get_or-take last index (set s.rows index mover) (no_entity F) last_bounded.0
        ∙ get_or-set_self s.rows index mover (no_entity F) (omega (arith, last_bounded))

    pub moved_else :
        (i : ℕ)
        → i < last
        → index ≢ i
        → get_or moved.rows i (no_entity F) ≡ get_or s.rows i (no_entity F)
    moved_else i h other =
        get_or-take last i (set s.rows index mover) (no_entity F) h
        ∙ get_or-set_ne s.rows index i mover (no_entity F) other

    pub moved_lookup :
        (k : ℕ)
        → lookup k moved.index_of ≡ (
            if entity == k then none else if mover.id == k then some index else lookup k s.index_of)
    moved_lookup k =
        lookup-erase entity k (assign mover.id index s.index_of)
        ∙ ap (λ (o : Option ℕ). if entity == k then none else o)
            (lookup-assign mover.id k index s.index_of)

    pub moved_placed :
        (i : ℕ) → i < length moved.rows → lookup (id_at moved.rows i) moved.index_of ≡ some i
    moved_placed i h = elim (Bool-cases (index == i)) [
      | inl here ↦
          let same : index ≡ i = (==_iff index i).0 here in
          let other : (entity == mover.id) ≡ false =
            ne→== entity mover.id
              (λ e. moves (same_place s.index_of entity mover.id index last found mover_found e)) in
          subst (λ j. lookup (id_at moved.rows j) moved.index_of ≡ some j) same
            (rw
              (
                ap (λ (e : Entity F). e.id) moved_here,
                moved_lookup mover.id,
                other,
                ==_refl mover.id,
              )
              refl)
      | inr there ↦
          let different : index ≢ i = λ e. true≢false (sym ((==_iff index i).1 e) ∙ there) in
          let below : i < last = omega (arith, moved_length, h) in
          let old = v.placed i (omega (arith, below, last_bounded)) in
          let k : ℕ = id_at s.rows i in
          let not_entity : (entity == k) ≡ false =
            ne→== entity k (λ e. different (same_place s.index_of entity k index i found old e)) in
          let not_mover : (mover.id == k) ≡ false = ne→== mover.id k (λ e.
            omega (arith, below, same_place s.index_of mover.id k last i mover_found old e)) in
          rw
            (
              ap (λ (e : Entity F). e.id) (moved_else i below different),
              moved_lookup k,
              not_entity,
              not_mover,
            )
            old
    ]

    pub moved_found :
        (k i : ℕ)
        → lookup k moved.index_of ≡ some i
        → ((mover.id ≡ k) × (i ≡ index))
          ⊎ ((lookup k s.index_of ≡ some i) × (i < last) × (index ≢ i))
    moved_found k i e =
        let e' = sym (moved_lookup k) ∙ e in
        elim (Bool-cases (entity == k)) [
          | inl gone ↦ absurd (none-ne-some i (rw gone at e'))
          | inr kept ↦ elim (Bool-cases (mover.id == k)) [
            | inl here ↦
                inl
                  ((==_iff mover.id k).0 here, sym (some-injective index i (rw (kept, here) at e')))
            | inr there ↦
                let old : lookup k s.index_of ≡ some i = rw (kept, there) at e' in
                let not_last : i ≢ last = λ same. true≢false (
                  sym ((==_iff mover.id k).1 (same_id s.rows last i (sym same) ∙ v.owned k i old))
                  ∙ there) in
                let not_index : index ≢ i = λ same. true≢false (
                  sym (
                    (==_iff entity k).1 (
                      sym (v.owned entity index found)
                      ∙ same_id s.rows index i same
                      ∙ v.owned k i old))
                  ∙ kept) in
                inr (old, omega (arith, v.bounded k i old, last_bounded, not_last), not_index)
          ]
        ]

    pub moved-IsIndexed : IsIndexed moved
    moved-IsIndexed = record {
      placed = moved_placed;
      bounded = λ k i e. elim (moved_found k i e) [
        | inl here ↦ omega (arith, moved_length, here.1, last_bounded)
        | inr old ↦ omega (arith, moved_length, old.1)
      ];
      owned = λ k i e. elim (moved_found k i e) [
        | inl here ↦
            same_id moved.rows i index here.1 ∙ ap (λ (e : Entity F). e.id) moved_here ∙ here.0
        | inr old ↦ ap (λ (e : Entity F). e.id) (moved_else i old.1 old.2) ∙ v.owned k i old.0
      ];
    }

  -- The store after the last entity is removed.
  module _ (s : EntityStore F) (entity index : ℕ) (v : IsIndexed s)
      (found : lookup entity s.index_of ≡ some index) (at_end : index ≡ length s.rows - 1) where
    abbrev pub cut : EntityStore F
    cut = record { rows = take (length s.rows - 1) s.rows; index_of = erase entity s.index_of }

    pub cut_length : length cut.rows ≡ index
    cut_length = length-take_min (length s.rows - 1) s.rows (omega arith) ∙ sym at_end

    pub cut_old :
        (i : ℕ) → i < index → get_or cut.rows i (no_entity F) ≡ get_or s.rows i (no_entity F)
    cut_old i h = get_or-take (length s.rows - 1) i s.rows (no_entity F) (omega (arith, at_end))

    cut_placed : (i : ℕ) → i < length cut.rows → lookup (id_at cut.rows i) cut.index_of ≡ some i
    cut_placed i h =
        let below : i < index = omega (arith, cut_length, h) in
        let old = v.placed i (omega (arith, below, at_end)) in
        let k : ℕ = id_at s.rows i in
        let not_entity : (entity == k) ≡ false =
          ne→== entity k
            (λ e. omega (arith, below, same_place s.index_of entity k index i found old e)) in
        rw
          (
            ap (λ (e : Entity F). e.id) (cut_old i below),
            lookup-erase entity k s.index_of,
            not_entity,
          )
          old

    pub cut_found :
        (k i : ℕ) → lookup k cut.index_of ≡ some i → (lookup k s.index_of ≡ some i) × (i < index)
    cut_found k i e =
        let e' = sym (lookup-erase entity k s.index_of) ∙ e in
        elim (Bool-cases (entity == k)) [
          | inl gone ↦ absurd (none-ne-some i (rw gone at e'))
          | inr kept ↦
              let old : lookup k s.index_of ≡ some i = rw kept at e' in
              let not_last : i ≢ index = λ same. true≢false (
                sym (
                  (==_iff entity k).1 (
                    sym (v.owned entity index found)
                    ∙ same_id s.rows index i (sym same)
                    ∙ v.owned k i old))
                ∙ kept) in
              (old, omega (arith, v.bounded k i old, at_end, not_last))
        ]

    pub cut-IsIndexed : IsIndexed cut
    cut-IsIndexed = record {
      placed = cut_placed;
      bounded = λ k i e. omega (arith, cut_length, (cut_found k i e).1);
      owned = λ k i e.
          let old = cut_found k i e in
          ap (λ (e : Entity F). e.id) (cut_old i old.1) ∙ v.owned k i old.0;
    }

  remove_at-IsIndexed :
      (s : EntityStore F) (entity index : ℕ)
      → IsIndexed s
      → lookup entity s.index_of ≡ some index
      → IsIndexed (remove_at s entity index)
  unfolding remove_at
  remove_at-IsIndexed s entity index v found = elim (Bool-cases (index == length s.rows - 1)) [
    | inl at_end ↦
        rw at_end
          (cut-IsIndexed s entity index v found ((==_iff index (length s.rows - 1)).0 at_end))
    | inr moves ↦ rw moves (
        moved-IsIndexed s entity index v found
          (λ e. true≢false (sym ((==_iff index (length s.rows - 1)).1 e) ∙ moves)))
  ]

  -- A removal, of an entity that is there or not, keeps index_of the exact map from ids to the
  -- places of the arrays.
  pub remove-IsIndexed :
      (s : EntityStore F) (entity : ℕ) → IsIndexed s → IsIndexed (remove s entity).1
  unfolding remove
  remove-IsIndexed s entity v = elim (Option-cases (lookup entity s.index_of)) [
    | inl absent ↦ rw (remove, absent) v
    | inr (index, found) ↦ rw (remove, found) (remove_at-IsIndexed s entity index v found)
  ]
