-- ===== src/Spatial/Morton.antt =====
-- src/spatial/morton.h: the keys of cells on a Z-order curve.
use morton.Base.{ℕ, bit_and, bit_or, ◌<<<◌, ◌>>>◌, u16, u32}

unfoldable pub spread_bits : ℕ → ℕ
spread_bits value =
    let x1 = bit_and (bit_or value (u32 (value <<< 8))) 0x00ff00ff in
    let x2 = bit_and (bit_or x1 (u32 (x1 <<< 4))) 0x0f0f0f0f in
    let x3 = bit_and (bit_or x2 (u32 (x2 <<< 2))) 0x33333333 in
    bit_and (bit_or x3 (u32 (x3 <<< 1))) 0x55555555

unfoldable pub compact_bits : ℕ → ℕ
compact_bits value =
    let x0 = bit_and value 0x55555555 in
    let x1 = bit_and (bit_or x0 (x0 >>> 1)) 0x33333333 in
    let x2 = bit_and (bit_or x1 (x1 >>> 2)) 0x0f0f0f0f in
    let x3 = bit_and (bit_or x2 (x2 >>> 4)) 0x00ff00ff in
    u16 (bit_and (bit_or x3 (x3 >>> 8)) 0x0000ffff)

unfoldable pub morton_encode : ℕ → ℕ → ℕ
morton_encode cell_x cell_y = bit_or (spread_bits cell_x) (u32 (spread_bits cell_y <<< 1))

unfoldable pub morton_decode : ℕ → ℕ × ℕ
morton_decode code = (compact_bits code, compact_bits (code >>> 1))
