-- ===== src/Base/BitList.antt =====
-- A number as its bits, lowest first.
use Prim.Native.Nat.{ℕ, zero, suc, ◌+◌, ◌*◌, ◌/◌, ◌%◌, ◌^◌, ◌<◌}
use mathlib.Core.Path.{◌≡◌, refl, ap, ap₂, ◌∙◌, sym}
use mathlib.Core.List.{List, [], ◌∷◌, ◌++◌}
use native.Mathlib.Nat.{
  zero-add, div-add-mod, pow-suc, one-le-pow, mod-lt, mod-eq_of_lt, add-mul-mod_self_right,
  div-div-eq-div-mul,
}
use native.Mathlib.Omega.{arith}
use morton.Base.Lists.{length}

-- The `n` lowest bits of `v`.
unfoldable pub bits : ℕ → ℕ → List ℕ
bits zero v = []
bits (suc n) v = v % 2 ∷ bits n (v / 2)

unfoldable pub of_bits : List ℕ → ℕ
of_bits [] = 0
of_bits (b ∷ bs) = b + 2 * of_bits bs

pub length-bits : (n v : ℕ) → length (bits n v) ≡ n
unfolding bits
length-bits zero v = refl
length-bits (suc n) v = ap suc (length-bits n (v / 2))

add_suc_left : (m n : ℕ) → suc m + n ≡ suc (m + n)
add_suc_left m n = omega arith

pub pow-add : (m n : ℕ) → 2 ^ (m + n) ≡ 2 ^ m * 2 ^ n
pow-add zero n = omega (arith, ap (λ (t : ℕ). 2 ^ t) (zero-add n))
pow-add (suc m) n = omega (
  arith,
  pow-suc 2 (m + n),
  pow-suc 2 m,
  pow-add m n,
  ap (λ (t : ℕ). 2 ^ t) (add_suc_left m n),
  ap (λ (t : ℕ). t * 2 ^ n) (pow-suc 2 m),
)

-- The remainder by `2 * p` from the lowest bit and the remainder of the rest by `p`.
mod_double : (v p : ℕ) → 0 < p → v % (p * 2) ≡ v % 2 + 2 * (v / 2 % p)
mod_double v p h =
    ap (λ t. t % (p * 2)) split
    ∙ add-mul-mod_self_right (v % 2 + 2 * (v / 2 % p)) (v / 2 / p) (p * 2)
    ∙ mod-eq_of_lt small
  where
    small : v % 2 + 2 * (v / 2 % p) < p * 2
    small = omega (arith, mod-lt (v / 2) h)

    split : v ≡ v % 2 + 2 * (v / 2 % p) + v / 2 / p * (p * 2)
    split = omega (arith, div-add-mod (v / 2) p)

pub of_bits-bits : (n v : ℕ) → of_bits (bits n v) ≡ v % 2 ^ n
unfolding bits of_bits
of_bits-bits zero v = omega arith
of_bits-bits (suc n) v =
    rw (of_bits-bits n (v / 2), pow-suc 2 n)
      (sym (mod_double v (2 ^ n) (one-le-pow n 2 (omega arith))))

pub bits-add : (m n v : ℕ) → bits (m + n) v ≡ bits m v ++ bits n (v / 2 ^ m)
unfolding bits
bits-add zero n v = ap₂ bits (omega arith) (omega arith)
bits-add (suc m) n v =
    let shift : v / 2 / 2 ^ m ≡ v / 2 ^ suc m =
      div-div-eq-div-mul v 2 (2 ^ m) ∙ ap (λ k. v / k) (omega (arith, pow-suc 2 m)) in
    rw (add_suc_left m n)
      (ap (◌∷◌ (v % 2)) (bits-add m n (v / 2) ∙ ap (λ w. bits m (v / 2) ++ bits n w) shift))

-- Bits above the `n` lowest do not show.
pub bits_low : (n v w : ℕ) → bits n (v + w * 2 ^ n) ≡ bits n v
unfolding bits
bits_low zero v w = refl
bits_low (suc n) v w =
    let double : w * 2 ^ suc n ≡ 2 * (w * 2 ^ n) =
      omega (arith, ap (λ (t : ℕ). w * t) (pow-suc 2 n)) in
    ap₂ ◌∷◌ (omega arith) (ap (bits n) (the_rest double) ∙ bits_low n (v / 2) w)
  where
    the_rest : w * 2 ^ suc n ≡ 2 * (w * 2 ^ n) → (v + w * 2 ^ suc n) / 2 ≡ v / 2 + w * 2 ^ n
    the_rest e = omega arith

-- Nor does what a mask of the `n` lowest takes away.
pub bits_masked : (n v : ℕ) → bits n (v % 2 ^ n) ≡ bits n v
bits_masked n v =
    sym (bits_low n (v % 2 ^ n) (v / 2 ^ n)) ∙ ap (bits n) (omega (arith, div-add-mod v (2 ^ n)))

pub bits_none : {p : ℕ} (acc : ℕ) → p ≡ 0 → bits p acc ≡ []
unfolding bits
bits_none acc e = ap (λ k. bits k acc) e

pub of_bits-append : (xs ys : List ℕ) → of_bits (xs ++ ys) ≡ of_bits xs + 2 ^ length xs * of_bits ys
unfolding of_bits
of_bits-append [] ys = omega arith
of_bits-append (x ∷ xs) ys =
    omega (arith, of_bits-append xs ys, ap (λ (t : ℕ). t * of_bits ys) (pow-suc 2 (length xs)))

pub joined-lt : (p n acc x : ℕ) → acc < 2 ^ p → x < 2 ^ n → acc + x * 2 ^ p < 2 ^ (p + n)
joined-lt p n acc x h k = rw (pow-add p n) (grind arith)
