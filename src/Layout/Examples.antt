-- ===== src/Layout/Examples.antt =====
-- The helpers on uint32 at concrete inputs.
use featcache.Common.{ℕ, ◌%◌, ◌^◌, ◌≤◌, ◌<◌, ◌≡◌, refl, arith}
use featcache.Layout.Align.{align_bounds}
use featcache.Layout.Pow2.{next_pow2-least, next_pow2_wraps}
use featcache.Layout.{align, next_pow2, smear}

next_pow2_runs : next_pow2 1000 ≡ 1024
unfolding next_pow2 smear
next_pow2_runs = refl

align_runs : align 65 8 ≡ 72
unfolding align
align_runs = refl

next_pow2-least_example :
    (k : ℕ) × (k ≤ 31) × (next_pow2 5 ≡ 2 ^ k) × (5 ≤ 2 ^ k) × ((j : ℕ) → 5 ≤ 2 ^ j → k ≤ j)
next_pow2-least_example = next_pow2-least 5 (omega arith)

next_pow2_large : next_pow2 0x8000_0001 ≡ 0
next_pow2_large = next_pow2_wraps 0x8000_0001 (omega arith) (omega arith)

align_to_eight : (65 ≤ align 65 8) × (align 65 8 < 73) × (align 65 8 % 8 ≡ 0)
align_to_eight = align_bounds 3 65 (omega arith)
