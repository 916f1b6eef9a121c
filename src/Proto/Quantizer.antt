-- ===== src/Proto/Quantizer.antt =====
-- `Quantizer` of src/proto/bitstream.h.
use morton.Base.{ℕ, ◌-◌, ◌^◌, if◌then◌else◌, leb}
use morton.Core.Float.{F32}
use morton.Core.Vector.{clampf}

pub record Quantizer (F : F32) : Type 0 where
  pub min : F.Carrier
  pub max : F.Carrier
  pub bits : ℕ

unfoldable pub levels : ℕ → ℕ
levels bits = if leb 32 bits then 0xffff_ffff else 2 ^ bits - 1

module _ {F : F32} where
  open F use {add, sub, mul, div, of_u64, to_u32, decimal}

  unfoldable pub encode : Quantizer F → F.Carrier → ℕ
  encode q value =
      let normalized = div (sub (clampf F value q.min q.max) q.min) (sub q.max q.min) in
      to_u32 (add (mul normalized (of_u64 (levels q.bits))) (decimal 5 1))

  unfoldable pub decode : Quantizer F → ℕ → F.Carrier
  decode q quantized =
      let normalized = div (of_u64 quantized) (of_u64 (levels q.bits)) in
      add q.min (mul normalized (sub q.max q.min))

  unfoldable pub snap : Quantizer F → F.Carrier → F.Carrier
  snap q value = decode q (encode q value)
