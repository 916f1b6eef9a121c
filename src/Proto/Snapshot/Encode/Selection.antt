-- ===== src/Proto/Snapshot/Encode/Selection.antt =====
-- The entities that `encode` of src/proto/snapshot.cpp chooses to send.
use mathlib.Core.Path.{subst}
use mathlib.Core.List.{Permᴰ}
use mathlib.Core.List.Permᴰ as Permᴰ
use morton.Base.{
  ℕ, zero, suc, ◌+◌, ◌≤◌, ◌<◌, ◌≡◌, ◌≢◌, refl, sym, ap, ◌∙◌, List, [], ◌∷◌, map, inl, inr, ltb, leb,
  length, length-map, take, All, Bool-cases, arith,
}
use morton.Core.Float.{F32}
use morton.Proto.Snapshot.Merge.{Row}
use morton.Proto.Snapshot.Updates.{Distinct}
use morton.Proto.Snapshot.Encode.{select}
use morton.Proto.Snapshot.Encode.Candidates.{
  Scene, Carried, insert_ascending, sort_ascending, skip_carried, is_unchanged, candidates_of,
}

All-Perm {ℓ κ} : {A : Type ℓ} (P : A → Type κ) {xs ys : List A} → Permᴰ xs ys → All P xs → All P ys
All-Perm P Permᴰ.nil h = tt
All-Perm P (Permᴰ.cons e d) h = (subst P e h.0, All-Perm P d h.1)
All-Perm P (Permᴰ.swap e f) h = (subst P f h.1.0, (subst P e h.0, h.1.1))
All-Perm P (Permᴰ.trans d e) h = All-Perm P e (All-Perm P d h)

Distinct-Perm : {xs ys : List ℕ} → Permᴰ xs ys → Distinct xs → Distinct ys
Distinct-Perm Permᴰ.nil h = tt
Distinct-Perm (Permᴰ.cons {l₂ = ys} e d) h =
    (subst (λ a. All (λ j. a ≢ j) ys) e (All-Perm _ d h.0), Distinct-Perm d h.1)
Distinct-Perm (Permᴰ.swap {l = l} e f) h = (
  (λ same. h.0.0 (e ∙ sym same ∙ sym f), subst (λ b. All (λ j. b ≢ j) l) f h.1.0),
  (subst (λ a. All (λ j. a ≢ j) l) e h.0.1, h.1.1),
)
Distinct-Perm (Permᴰ.trans d e) h = Distinct-Perm e (Distinct-Perm d h)

All-take {ℓ κ} : {A : Type ℓ} (P : A → Type κ) (n : ℕ) (xs : List A) → All P xs → All P (take n xs)
All-take P zero xs h = tt
All-take P (suc n) [] h = tt
All-take P (suc n) (x ∷ xs) h = (h.0, All-take P n xs h.1)

pub map-take {ℓ κ} :
    {A : Type ℓ} {B : Type κ} (f : A → B) (n : ℕ) (xs : List A)
    → map f (take n xs) ≡ take n (map f xs)
map-take f zero xs = refl
map-take f (suc n) [] = refl
map-take f (suc n) (x ∷ xs) = ap (◌∷◌ (f x)) (map-take f n xs)

Distinct-take : (n : ℕ) (xs : List ℕ) → Distinct xs → Distinct (take n xs)
Distinct-take zero xs h = tt
Distinct-take (suc n) [] h = tt
Distinct-take (suc n) (x ∷ xs) h = (All-take _ n xs h.0, Distinct-take n xs h.1)

insert_ascending-Perm : (i : ℕ) (js : List ℕ) → Permᴰ (i ∷ js) (insert_ascending i js)
unfolding insert_ascending
insert_ascending-Perm i [] = Permᴰ.refl (i ∷ [])
insert_ascending-Perm i (j ∷ js) = elim (Bool-cases (ltb j i)) [
  | inl before ↦
      rw before (Permᴰ.trans (Permᴰ.swap refl refl) (Permᴰ.cons refl (insert_ascending-Perm i js)))
  | inr after ↦ rw after (Permᴰ.refl (i ∷ j ∷ js))
]

pub sort_ascending-Perm : (is : List ℕ) → Permᴰ is (sort_ascending is)
unfolding sort_ascending
sort_ascending-Perm [] = Permᴰ.nil
sort_ascending-Perm (i ∷ is) =
    Permᴰ.trans (Permᴰ.cons refl (sort_ascending-Perm is))
      (insert_ascending-Perm i (sort_ascending is))

-- In the order of their rows, which are the rows from `low` to below `high`.
abbrev pub IsAscending {ℓ} : {A : Type ℓ} → ℕ → ℕ → List (ℕ × A) → Type 0
IsAscending low high [] = Unit
IsAscending low high (c ∷ cs) = (low ≤ c.0) × (c.0 < high) × IsAscending (suc c.0) high cs

module _ {ℓ} {A : Type ℓ} where
  IsAscending-weaken :
      (low low' high : ℕ) (cs : List (ℕ × A))
      → low ≤ low'
      → IsAscending low' high cs
      → IsAscending low high cs
  IsAscending-weaken low low' high [] h v = tt
  IsAscending-weaken low low' high (c ∷ cs) h (above, below, v) = (omega arith, below, v)

  ascending_bounds :
      (low high : ℕ) (cs : List (ℕ × A))
      → IsAscending low high cs
      → All (λ i. i < high) (map (λ c. c.0) cs)
  ascending_bounds low high [] v = tt
  ascending_bounds low high (c ∷ cs) (above, below, v) =
      (below, ascending_bounds (suc c.0) high cs v)

  ascending_above :
      (i low high : ℕ) (cs : List (ℕ × A))
      → i < low
      → IsAscending low high cs
      → All (λ j. i ≢ j) (map (λ c. c.0) cs)
  ascending_above i low high [] h v = tt
  ascending_above i low high (c ∷ cs) h (above, below, v) =
      (λ e. omega (arith, e), ascending_above i (suc c.0) high cs (omega arith) v)

  IsAscending-Distinct :
      (low high : ℕ) (cs : List (ℕ × A)) → IsAscending low high cs → Distinct (map (λ c. c.0) cs)
  IsAscending-Distinct low high [] v = tt
  IsAscending-Distinct low high (c ∷ cs) (above, below, v) = (
    ascending_above c.0 (suc c.0) high cs (omega arith) v,
    IsAscending-Distinct (suc c.0) high cs v,
  )

  ascending_length :
      (low high : ℕ) (cs : List (ℕ × A))
      → low ≤ high
      → IsAscending low high cs
      → low + length cs ≤ high
  ascending_length low high [] h v = omega arith
  ascending_length low high (c ∷ cs) h (above, below, v) =
      omega (arith, ascending_length (suc c.0) high cs (omega arith) v)

  -- The rows chosen, whichever way the candidates are partitioned.
  pub select-bounds :
      (nth_element : ℕ → List (ℕ × A) → List (ℕ × A)) (fits low high : ℕ) (cs : List (ℕ × A))
      → ((n : ℕ) (xs : List (ℕ × A)) → Permᴰ xs (nth_element n xs))
      → IsAscending low high cs
      → All (λ i. i < high) (select nth_element fits cs) × Distinct (select nth_element fits cs)
  unfolding select
  select-bounds nth_element fits low high cs permutes v = elim (Bool-cases (leb (length cs) fits)) [
    | inl all ↦ rw all (ascending_bounds low high cs v, IsAscending-Distinct low high cs v)
    | inr some_only ↦
        let best : List ℕ = map (λ c. c.0) (nth_element fits cs) in
        let moved : Permᴰ (map (λ c. c.0) cs) best = Permᴰ.map (λ c. c.0) (permutes fits cs) in
        let sorted : Permᴰ (take fits best) (sort_ascending (take fits best)) =
          sort_ascending-Perm (take fits best) in
        rw (some_only, map-take (λ (c : ℕ × A). c.0) fits (nth_element fits cs))
          (
            All-Perm (λ i. i < high) sorted
                (All-take (λ i. i < high) fits best
                  (All-Perm (λ i. i < high) moved (ascending_bounds low high cs v))),
            Distinct-Perm sorted (
                Distinct-take fits best (Distinct-Perm moved (IsAscending-Distinct low high cs v))),
          )
  ]

pub length-take : {A : Type 0} (n : ℕ) (xs : List A) → length (take n xs) ≤ length xs
length-take zero xs = omega arith
length-take (suc n) [] = omega arith
length-take (suc n) (x ∷ xs) = omega (arith, length-take n xs)

pub length-Perm : {xs ys : List ℕ} → Permᴰ xs ys → length xs ≡ length ys
length-Perm Permᴰ.nil = refl
length-Perm (Permᴰ.cons e d) = ap suc (length-Perm d)
length-Perm (Permᴰ.swap e f) = refl
length-Perm (Permᴰ.trans d e) = length-Perm d ∙ length-Perm e

pub length-select :
    {A : Type 0} (nth_element : ℕ → List (ℕ × A) → List (ℕ × A)) (fits high : ℕ) (cs : List (ℕ × A))
    → ((n : ℕ) (xs : List (ℕ × A)) → Permᴰ xs (nth_element n xs))
    → IsAscending 0 high cs
    → length (select nth_element fits cs) ≤ high
unfolding select
length-select nth_element fits high cs permutes v = elim (Bool-cases (leb (length cs) fits)) [
  | inl all ↦
      rw all (omega (arith, length-map (λ c. c.0) cs, ascending_length 0 high cs (omega arith) v))
  | inr some_only ↦
      let best : List ℕ = map (λ c. c.0) (nth_element fits cs) in
      rw (some_only, map-take (λ (c : ℕ × _). c.0) fits (nth_element fits cs))
        (omega (
          arith,
          length-Perm (sort_ascending-Perm (take fits best)),
          length-take fits best,
          length-Perm (Permᴰ.map (λ c. c.0) (permutes fits cs)),
          length-map (λ c. c.0) cs,
          ascending_length 0 high cs (omega arith) v,
        ))
]

pub candidates_of-IsAscending :
    {F : F32} (scene : Scene F) (index : ℕ) (rows : List Row) (carried : List (Carried F))
    → IsAscending index (index + length rows) (candidates_of scene index rows carried).0
unfolding candidates_of
candidates_of-IsAscending scene index [] carried = tt
candidates_of-IsAscending scene index (row ∷ rows) carried =
    let left = skip_carried row.0.id carried in
    let later : IsAscending (suc index) (index + suc (length rows))
        (candidates_of scene (suc index) rows left).0 =
      subst (λ n. IsAscending (suc index) n (candidates_of scene (suc index) rows left).0)
        (omega arith) (candidates_of-IsAscending scene (suc index) rows left) in
    elim (Bool-cases (is_unchanged row)) [
      | inl unchanged ↦ rw unchanged (
          IsAscending-weaken index (suc index) (index + suc (length rows))
            (candidates_of scene (suc index) rows left).0 (omega arith) later)
      | inr changed ↦ rw changed (omega arith, omega arith, later)
    ]
