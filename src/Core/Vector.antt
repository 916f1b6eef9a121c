-- ===== src/Core/Vector.antt =====
-- `Vec2`, `lerp` and `clampf` of src/core/types.h.
use morton.Base.{if◌then◌else◌}
use morton.Core.Float.{F32}

pub record Vec2 (F : F32) : Type 0 where
  pub x : F.Carrier
  pub y : F.Carrier

module _ {F : F32} where
  open F use {add, sub, mul, div, sqrt, lt, le, decimal}

  unfoldable pub plus : Vec2 F → Vec2 F → Vec2 F
  plus a b = record { x = add a.x b.x; y = add a.y b.y }

  unfoldable pub minus : Vec2 F → Vec2 F → Vec2 F
  minus a b = record { x = sub a.x b.x; y = sub a.y b.y }

  unfoldable pub times : Vec2 F → F.Carrier → Vec2 F
  times a s = record { x = mul a.x s; y = mul a.y s }

  unfoldable pub length_sq : Vec2 F → F.Carrier
  length_sq a = add (mul a.x a.x) (mul a.y a.y)

  unfoldable pub normalized : Vec2 F → Vec2 F
  normalized a =
      let len = sqrt (length_sq a) in
      if lt len (decimal 1 6)
      then record { x = decimal 0 0; y = decimal 0 0 }
      else record { x = div a.x len; y = div a.y len }

  unfoldable pub clamped : Vec2 F → F.Carrier → Vec2 F
  clamped a max_len =
      let len_sq = length_sq a in
      let len = sqrt len_sq in
      if le len_sq (mul max_len max_len)
      then a
      else record { x = mul (div a.x len) max_len; y = mul (div a.y len) max_len }

  unfoldable pub dot : Vec2 F → Vec2 F → F.Carrier
  dot a b = add (mul a.x b.x) (mul a.y b.y)

  unfoldable pub distance_sq : Vec2 F → Vec2 F → F.Carrier
  distance_sq a b = let dx = sub a.x b.x in let dy = sub a.y b.y in add (mul dx dx) (mul dy dy)

module _ (F : F32) where
  open F use {add, sub, mul, lt}

  unfoldable pub lerp : F.Carrier → F.Carrier → F.Carrier → F.Carrier
  lerp a b t = add a (mul (sub b a) t)

  unfoldable pub clampf : F.Carrier → F.Carrier → F.Carrier → F.Carrier
  clampf v lo hi = if lt v lo then lo else if lt hi v then hi else v

unfoldable pub lerp_vector : {F : F32} → Vec2 F → Vec2 F → F.Carrier → Vec2 F
unfolding lerp
lerp_vector {F} a b t = record { x = lerp F a.x b.x t; y = lerp F a.y b.y t }
