-- ===== src/Loader/Overflow.antt =====
-- Where the 32-bit numbers of `Init` and `put` wrap.
use native.Mathlib.Decide.{dec_le}
use featcache.Common.Bits.{pow_mono}
use featcache.Common.{ℕ, ◌+◌, ◌*◌, ◌%◌, ◌^◌, ◌≤◌, ◌<◌, ◌≡◌, refl, true, arith, panic, lt→leb}
use featcache.Hash.{set_header_hash_seed}
use featcache.Header.Laws.{header_of-overlay, write_header-Differs}
use featcache.Layout.Pow2.{next_pow2-least}
use featcache.Layout.{align, next_pow2}
use featcache.Loader.Ready.{data_of-attached}
use featcache.Loader.{Loader, init}
use featcache.Memory.Words.{size-store_le}
use featcache.Memory.{store_le}
use featcache.Header.{write_header}
use featcache.Table.Fresh.{init_hash_table_panics}

-- The slots for so many entries have 12 GiB, which is 0 as a uint32.
capacity_29 :
    (expected : ℕ) → 2 ^ 27 < expected → expected ≤ 2 ^ 28 → next_pow2 (2 * expected) ≡ 2 ^ 29
capacity_29 expected lo hi =
    let (log, _, power, enough, least) = next_pow2-least (2 * expected) (omega arith) in
    let above : log ≤ 29 = least 29 (omega arith) in
    let below : 29 ≤ log = over_28 log enough in
    let exact : log ≡ 29 = omega arith in rw exact at power
  where
    over_28 : (log : ℕ) → 2 * expected ≤ 2 ^ log → 29 ≤ log
    over_28 log enough = elim (dec_le 29 log) [
      | yes p ↦ p
      | no p ↦ absurd (omega (arith, pow_mono log 28 (omega arith)))
    ]

start_wraps : align 64 8 ≡ 64
unfolding align
start_wraps = refl

-- For more than 2^27 and at most 2^28 expected entries the size of the table wraps to 0, the check
-- of the segment's size passes, and `Init` panics in any mapped segment of more than 64 bytes and
-- less than 64 bytes and 12 GiB.
pub init_overflow_panics :
    (l : Loader) (expected seed : ℕ)
    → l.segment.attached ≡ true
    → l.segment.cap ≡ l.segment.bytes.size
    → 64 < l.segment.cap
    → l.segment.cap < 64 + 12 * 2 ^ 30
    → 2 ^ 27 < expected
    → expected ≤ 2 ^ 28
    → init l expected seed ≡ panic
unfolding init set_header_hash_seed
init_overflow_panics l expected seed attached whole lo hi few many =
    let slots : expected % 2 ^ 32 * 2 % 2 ^ 32 ≡ 2 * expected = omega arith in
    let m₁ = write_header l.segment.bytes l.segment.cap (2 ^ 29) 64 in
    let size = (write_header-Differs l.segment.bytes l.segment.cap (2 ^ 29) 64).same_size in
    rw
      (
        slots,
        capacity_29 expected few many,
        start_wraps,
        lt→leb 64 l.segment.cap lo,
        data_of-attached l.segment attached,
        header_of-overlay l.segment.bytes (omega arith),
        init_hash_table_panics (store_le 8 m₁ 48 seed) 64 (2 ^ 29)
            (omega (arith, size-store_le 8 m₁ 48 seed)) (omega (arith, size-store_le 8 m₁ 48 seed)),
      )
      refl
