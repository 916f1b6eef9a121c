-- ===== src/Proto/Bitstream/Bytes.antt =====
-- A byte buffer read as one list of bits, the lowest bit of each byte first.
use native.Mathlib.Nat.{zero-add}
use native.Mathlib.Nat.{mod-eq_of_lt}
use mathlib.Core.Path.{ap₂}
use morton.Base.{
  All, take, drop-nil, take_first, ℕ, zero, suc, ◌+◌, ◌*◌, ◌/◌, ◌^◌, ◌<◌, ◌≡◌, refl, sym, ap, ◌∙◌,
  List, [], ◌∷◌, ◌++◌, append_assoc, length, drop, get_or, length-append, drop-append, drop-drop,
  arith,
}
use morton.Base.BitList.{of_bits, of_bits-bits, bits, length-bits, bits-add}

abbrev pub flat : List ℕ → List ℕ
flat [] = []
flat (b ∷ bs) = bits 8 b ++ flat bs

abbrev pub IsByte : ℕ → Type 0
IsByte b = b < 2 ^ 8

pub length-flat : (bs : List ℕ) → length (flat bs) ≡ 8 * length bs
length-flat [] = refl
length-flat (b ∷ bs) =
    omega (arith, length-append (bits 8 b) (flat bs), length-bits 8 b, length-flat bs)

pub flat-append : (xs ys : List ℕ) → flat (xs ++ ys) ≡ flat xs ++ flat ys
flat-append [] ys = refl
flat-append (x ∷ xs) ys = rw (flat-append xs ys) (sym (append_assoc (bits 8 x) (flat xs) (flat ys)))

pub drop_first : (xs ys : List ℕ) (n : ℕ) → length xs ≡ n → drop n (xs ++ ys) ≡ ys
drop_first xs ys n e = rw (← e) (drop-append xs ys)

-- The bits from position `8 * i + off` on begin inside byte `i`.
pub drop-flat :
    (i off n : ℕ) (bs : List ℕ)
    → off + n ≡ 8
    → i < length bs
    → drop (8 * i + off) (flat bs) ≡ bits n (get_or bs i 0 / 2 ^ off) ++ flat (drop (suc i) bs)
drop-flat i off n [] e h = absurd (omega arith)
drop-flat zero off n (b ∷ bs) e h =
    rw (zero-add off, ← e, bits-add off n b)
      (rw (append_assoc (bits off b) (bits n (b / 2 ^ off)) (flat bs))
        (drop_first (bits off b) (bits n (b / 2 ^ off) ++ flat bs) off (length-bits off b)))
drop-flat (suc i) off n (b ∷ bs) e h =
    let here : 8 * suc i + off ≡ 8 + (8 * i + off) = omega arith in
    rw here (
      sym (drop-drop 8 (8 * i + off) (bits 8 b ++ flat bs))
      ∙ ap (drop (8 * i + off)) (drop_first (bits 8 b) (flat bs) 8 (length-bits 8 b))
      ∙ drop-flat i off n bs e (omega arith))

pub flat-drop : (n : ℕ) (bs : List ℕ) → flat (drop n bs) ≡ drop (8 * n) (flat bs)
flat-drop zero bs = refl
flat-drop (suc n) [] = sym (drop-nil (8 * suc n))
flat-drop (suc n) (b ∷ bs) =
    let here : 8 + 8 * n ≡ 8 * suc n = omega arith in
    flat-drop n bs
    ∙ ap (drop (8 * n)) (sym (drop_first (bits 8 b) (flat bs) 8 (length-bits 8 b)))
    ∙ drop-drop 8 (8 * n) (bits 8 b ++ flat bs)
    ∙ ap (λ k. drop k (bits 8 b ++ flat bs)) here

pub All-drop : (n : ℕ) (bs : List ℕ) → All IsByte bs → All IsByte (drop n bs)
All-drop zero bs h = h
All-drop (suc n) [] h = tt
All-drop (suc n) (b ∷ bs) h = All-drop n bs h.1

-- A byte is the value of its bits.
byte_of_bits : (x b : ℕ) → IsByte x → IsByte b → bits 8 x ≡ bits 8 b → x ≡ b
byte_of_bits x b hx hb e =
    sym (mod-eq_of_lt hx)
    ∙ sym (of_bits-bits 8 x)
    ∙ ap of_bits e
    ∙ of_bits-bits 8 b
    ∙ mod-eq_of_lt hb

-- The bits of a prefix determine its bytes.
pub flat-prefix :
    (bs xs rest : List ℕ)
    → All IsByte bs
    → All IsByte xs
    → flat xs ≡ flat bs ++ rest
    → (take (length bs) xs ≡ bs) × (flat (drop (length bs) xs) ≡ rest)
flat-prefix [] xs rest hb hx e = (refl, e)
flat-prefix (b ∷ bs) [] rest hb hx e = absurd (
    omega (
      arith,
      ap length e,
      length-append (bits 8 b ++ flat bs) rest,
      length-append (bits 8 b) (flat bs),
      length-bits 8 b,
    ))
flat-prefix (b ∷ bs) (x ∷ xs) rest hb hx e =
    let e' : bits 8 x ++ flat xs ≡ bits 8 b ++ (flat bs ++ rest) =
      e ∙ append_assoc (bits 8 b) (flat bs) rest in
    let same : x ≡ b = byte_of_bits x b hx.0 hb.0 (
      sym (take_first (bits 8 x) (flat xs) 8 (length-bits 8 x))
      ∙ ap (take 8) e'
      ∙ take_first (bits 8 b) (flat bs ++ rest) 8 (length-bits 8 b)) in
    let others = flat-prefix bs xs rest hb.1 hx.1 (
      sym (drop_first (bits 8 x) (flat xs) 8 (length-bits 8 x))
      ∙ ap (drop 8) e'
      ∙ drop_first (bits 8 b) (flat bs ++ rest) 8 (length-bits 8 b)) in
    (ap₂ ◌∷◌ same others.0, others.1)
