-- ===== src/Proto/Bitstream/Reader/Chain.antt =====
-- Chains of reads of `BitReader` of src/proto/bitstream.h.
use mathlib.Core.Path.{subst}
use morton.Base.{ℕ, ◌≡◌, refl, sym, ◌∙◌, List, [], ◌++◌}
use morton.Proto.Bitstream.Reader.{BitReader}
use morton.Proto.Bitstream.Reader.Take.{Read, Reads, then_rest}

module _ {ℓ κ} {A : Type ℓ} {B : Type κ} where
  -- A read, and another that depends on its value.
  pub Reads-bind :
      (f : BitReader → A × BitReader) (g : A → BitReader → B × BitReader) (xs ys : List ℕ) (a : A)
      (b : B)
      → Reads f xs a
      → Reads (g a) ys b
      → Reads (λ r. g (f r).0 (f r).1) (xs ++ ys) b
  Reads-bind f g xs ys a b hf hg r rest k e =
      let first = hf r (ys ++ rest) k (then_rest xs ys rest e) in
      let second = hg (f r).1 rest first.valid first.left in
      subst (λ x. Read r b rest (g x (f r).1)) (sym first.value)
        (record {
          value = second.value;
          valid = second.valid;
          left = second.left;
          latch = second.latch ∙ first.latch;
        })

  -- The value of a read, put to use.
  pub Reads-map :
      (f : BitReader → A × BitReader) (h : A → B) (xs : List ℕ) (a : A)
      → Reads f xs a
      → Reads (λ r. (h (f r).0, (f r).1)) xs (h a)
  Reads-map f h xs a hf r rest k e =
      let first = hf r rest k e in
      record {
        value = λ i. h (first.value i);
        valid = first.valid;
        left = first.left;
        latch = first.latch;
      }

pub Reads-nothing {ℓ} : {A : Type ℓ} (a : A) → Reads (λ r. (a, r)) [] a
Reads-nothing a r rest k e = record { value = refl; valid = k; left = e; latch = refl }

pub Reads-eq {ℓ} :
    {A : Type ℓ} (f : BitReader → A × BitReader) (xs ys : List ℕ) (a b : A)
    → xs ≡ ys
    → a ≡ b
    → Reads f xs a
    → Reads f ys b
Reads-eq f xs ys a b exs ea h = subst (λ zs. Reads f zs b) exs (subst (λ c. Reads f xs c) ea h)
