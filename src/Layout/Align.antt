-- ===== src/Layout/Align.antt =====
-- `Align` at a power of two.
use native.Mathlib.Nat.{mod-lt, div-add-mod}
use featcache.Common.Bits.{bit_and-mask, two_pow_pos, mod_unique}
use featcache.Common.{ℕ, ◌+◌, ◌-◌, ◌/◌, ◌%◌, ◌^◌, ◌≤◌, ◌<◌, ◌≡◌, arith}
use featcache.Layout.{align, sub_u32, u32}

-- The greatest multiple that is not above v + n - 1.
pub align-eq :
    (k v : ℕ) → v + 2 ^ k ≤ 2 ^ 32 → align v (2 ^ k) ≡ v + 2 ^ k - 1 - (v + 2 ^ k - 1) % 2 ^ k
unfolding align
align-eq k v h = rw (top, ones, bit_and-mask k (v + 2 ^ k - 1))
  where
    top : sub_u32 (u32 (v + 2 ^ k)) 1 ≡ v + 2 ^ k - 1
    top = omega (arith, two_pow_pos k)

    ones : sub_u32 (2 ^ k) 1 ≡ 2 ^ k - 1
    ones = omega (arith, two_pow_pos k)

-- Where v + n does not pass 2^32, `Align` gives the smallest multiple of n that is at least v.
pub align_bounds :
    (k v : ℕ)
    → v + 2 ^ k ≤ 2 ^ 32
    → (v ≤ align v (2 ^ k)) × (align v (2 ^ k) < v + 2 ^ k) × (align v (2 ^ k) % 2 ^ k ≡ 0)
align_bounds k v h =
    let n = 2 ^ k in
    let pos = two_pow_pos k in
    let x = v + n - 1 in
    let split = div-add-mod x n in
    let low = mod-lt x pos in
    rw (align-eq k v h)
      (omega arith, omega arith, mod_unique n (x - x % n) (x / n) 0 (omega arith) pos)
