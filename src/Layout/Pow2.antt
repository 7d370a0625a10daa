-- ===== src/Layout/Pow2.antt =====
-- `NextPow2`: smearing the highest bit downward.
use native.Mathlib.Nat.{
  pow-suc, mod-lt, div-add-mod, div-le_self, div-lt_iff_lt-mul, mul-le-mul_left,
}
use featcache.Common.Bits.{bit_or_digit, bit_or-zero, two_pow_pos, pow_add, pow_mono}
use native.Mathlib.Decide.{dec_le, dec_lt}
use featcache.Common.{
  ℕ, zero, suc, ◌+◌, ◌-◌, ◌*◌, ◌/◌, ◌^◌, ◌≤◌, ◌<◌, ◌≡◌, arith, bit_or, ap, ◌∙◌, inl, inr, ◌==◌,
  Bool-cases, false,
}
use featcache.Layout.{smear, next_pow2}

double : (k : ℕ) → 2 ^ suc k ≡ 2 * 2 ^ k
double k = omega (arith, pow-suc 2 k)

-- `a | b` is at least each, and stays below a power of two that both are below.
bit_or_bounds :
    (k a b : ℕ) → a < 2 ^ k → b < 2 ^ k → (a ≤ bit_or a b) × (b ≤ bit_or a b) × (bit_or a b < 2 ^ k)
bit_or_bounds zero a b ha hb =
    let ea : a ≡ 0 = omega arith in let eb : b ≡ 0 = omega arith in rw (ea, eb) (omega arith)
bit_or_bounds (suc k) a b ha hb = omega (
  arith,
  double k,
  bit_or_digit a b,
  bit_or_bounds k (a / 2) (b / 2) (omega (arith, double k)) (omega (arith, double k)),
)

-- The bits above the lowest `k` pass through, if the other number has none there.
bit_or_high :
    (k q a b : ℕ) → a < 2 ^ k → b < 2 ^ k → bit_or (q * 2 ^ k + a) b ≡ q * 2 ^ k + bit_or a b
bit_or_high zero q a b ha hb =
    let ea : a ≡ 0 = omega arith in
    let eb : b ≡ 0 = omega arith in
    rw (ea, eb) (omega (arith, bit_or-zero (q * 1 + 0), bit_or-zero 0))
bit_or_high (suc k) q a b ha hb =
    let x = q * 2 ^ suc k + a in
    let twice : q * 2 ^ suc k ≡ 2 * (q * 2 ^ k) = omega (arith, ap (λ (t : ℕ). q * t) (double k)) in
    let half : x / 2 ≡ q * 2 ^ k + a / 2 = omega arith in
    omega (
      arith,
      bit_or_digit x b,
      ap (λ t. bit_or t (b / 2)) half,
      bit_or_high k q (a / 2) (b / 2) (omega (arith, double k)) (omega (arith, double k)),
      bit_or_digit a b,
    )

-- `x` has `w` bits, and the highest `s` of them are ones (all of them, if there are no more).
record HasTopOnes (w s x : ℕ) : Type 0 where
  below : x < 2 ^ w
  ones : 2 ^ w ≤ x + 2 ^ (w - s)

quotient_bound : (n m l x : ℕ) → 0 < n → n * m ≤ x + m → m ≤ n * l → m ≤ x / n + l
quotient_bound n m l x pos h k = elim (dec_le m (x / n + l)) [
  | yes p ↦ p
  | no p ↦
      let over : n * (x / n + l + 1) ≤ n * m = mul-le-mul_left n (omega arith) in
      absurd (omega (arith, div-add-mod x n, mod-lt x pos))
]

one_fewer : (n m : ℕ) → 0 < n → (n - 1) * m + m ≡ n * m
one_fewer zero m h = absurd (omega arith)
one_fewer (suc n) m h = let e : suc n - 1 ≡ n = omega arith in rw e (omega arith)

-- The step where the run does not fill the word, over the powers themselves.
module _ (j s x : ℕ) (below : x < 2 ^ s * 2 ^ j) (ones : 2 ^ s * 2 ^ j ≤ x + 2 ^ j) where
  low_part : ℕ
  low_part = x + 2 ^ j - 2 ^ s * 2 ^ j

  recompose : x ≡ (2 ^ s - 1) * 2 ^ j + low_part
  unfolding low_part
  recompose = omega (arith, one_fewer (2 ^ s) (2 ^ j) (two_pow_pos s))

  smear_partial : 2 ^ s * 2 ^ j ≤ bit_or x (x / 2 ^ s) + 2 ^ (j - s)
  smear_partial =
      let y_lt : x / 2 ^ s < 2 ^ j = (div-lt_iff_lt-mul (two_pow_pos s)).1 (omega arith) in
      let low_lt : low_part < 2 ^ j = unfold low_part in omega arith in
      let wide : 2 ^ j ≤ 2 ^ s * 2 ^ (j - s) =
        rw (← pow_add s (j - s)) (pow_mono j (s + (j - s)) (omega arith)) in
      let y_ge = quotient_bound (2 ^ s) (2 ^ j) (2 ^ (j - s)) x (two_pow_pos s) ones wide in
      let high = bit_or_high j (2 ^ s - 1) low_part (x / 2 ^ s) low_lt y_lt in
      let bounds = bit_or_bounds j low_part (x / 2 ^ s) low_lt y_lt in
      let whole = ap (λ t. bit_or t (x / 2 ^ s)) recompose in
      omega (arith, one_fewer (2 ^ s) (2 ^ j) (two_pow_pos s))

-- A smear by `s` doubles the run of ones.
smear-HasTopOnes : (w s x : ℕ) → HasTopOnes w s x → HasTopOnes w (s + s) (smear s x)
unfolding smear
smear-HasTopOnes w s x t =
    let bounds =
      bit_or_bounds w x (x / 2 ^ s) t.below (omega (arith, t.below, div-le_self x (2 ^ s))) in
    elim (dec_le w s) [
      | yes all ↦
          let last : w - s ≡ 0 = omega arith in
          record {
            below = bounds.2;
            ones = omega (arith, t.ones, ap (λ e. 2 ^ e) last, two_pow_pos (w - (s + s)));
          }
      | no short ↦
          let split : w ≡ s + (w - s) = omega arith in
          let whole : 2 ^ w ≡ 2 ^ s * 2 ^ (w - s) = ap (λ e. 2 ^ e) split ∙ pow_add s (w - s) in
          let rest : w - s - s ≡ w - (s + s) = omega arith in
          record {
            below = bounds.2;
            ones =
                rw (whole, ← rest)
                  (smear_partial (w - s) s x (omega (arith, t.below)) (omega (arith, t.ones)));
          }
    ]

-- The width of a number, as its position between powers of two.
width : (n x : ℕ) → x < 2 ^ n → (w : ℕ) × (w ≤ n) × HasTopOnes w 1 x
width zero x h = (0, omega arith, record { below = h; ones = omega arith })
width (suc n) x h = elim (dec_lt x (2 ^ n)) [
  | yes p ↦ let (w, le, t) = width n x p in (w, omega arith, t)
  | no p ↦
      let e : suc n - 1 ≡ n = omega arith in
      (suc n, omega arith, record { below = h; ones = rw e (omega (arith, double n)) })
]

smeared :
    (w x : ℕ)
    → w ≤ 32
    → HasTopOnes w 1 x
    → smear 16 (smear 8 (smear 4 (smear 2 (smear 1 x)))) + 1 ≡ 2 ^ w
smeared w x le t =
    let t₂ = smear-HasTopOnes w 1 x t in
    let t₄ = smear-HasTopOnes w 2 _ t₂ in
    let t₈ = smear-HasTopOnes w 4 _ t₄ in
    let t₁₆ = smear-HasTopOnes w 8 _ t₈ in
    let t₃₂ = smear-HasTopOnes w 16 _ t₁₆ in
    let full : w - 32 ≡ 0 = omega arith in omega (arith, t₃₂.below, t₃₂.ones, ap (λ e. 2 ^ e) full)

-- No smaller power of two reaches v.
width_least : (w v j : ℕ) → 0 < v → HasTopOnes w 1 (v - 1) → v ≤ 2 ^ j → w ≤ j
width_least w v j pos t h = elim (dec_le w j) [
  | yes p ↦ p
  | no p ↦
      let e : w ≡ suc (w - 1) = omega arith in
      absurd
        (omega (arith, t.ones, pow_mono j (w - 1) (omega arith), ap (λ n. 2 ^ n) e, double (w - 1)))
]

-- Up to 2^31, `NextPow2` is the smallest power of two that is at least v.
pub next_pow2-least :
    (v : ℕ)
    → v ≤ 2 ^ 31
    → (k : ℕ) × (k ≤ 31) × (next_pow2 v ≡ 2 ^ k) × (v ≤ 2 ^ k) × ((j : ℕ) → v ≤ 2 ^ j → k ≤ j)
unfolding next_pow2
next_pow2-least v h = elim (Bool-cases (v == 0)) [
  | inl z ↦ (0, omega arith, rw z, ground arith, λ j q. omega arith)
  | inr nz ↦
      let pos : 0 < v = ground arith in
      let (w, le, t) = width 31 (v - 1) (omega arith) in
      let power = smeared w (v - 1) (omega arith) t in
      let small : 2 ^ w ≤ 2 ^ 31 = pow_mono w 31 le in
      (
        w,
        le,
        rw (nz, power) (omega arith),
        omega (arith, t.below),
        λ j q. width_least w v j pos t q,
      )
]

-- Above 2^31 the final increment wraps to 0.
pub next_pow2_wraps : (v : ℕ) → 2 ^ 31 < v → v < 2 ^ 32 → next_pow2 v ≡ 0
unfolding next_pow2
next_pow2_wraps v lo hi =
    let (w, le, t) = width 32 (v - 1) (omega arith) in
    let nz : (v == 0) ≡ false = ground arith in
    let power = smeared w (v - 1) le t in
    let top : w ≡ 32 = wide w le t.below in rw (nz, power, top)
  where
    wide : (w : ℕ) → w ≤ 32 → v - 1 < 2 ^ w → w ≡ 32
    wide w le below = elim (dec_le w 31) [
      | yes p ↦ absurd (omega (arith, pow_mono w 31 p))
      | no p ↦ omega arith
    ]
