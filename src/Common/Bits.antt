-- ===== src/Common/Bits.antt =====
-- The bit operations at variables: the law of the lowest digit, masks, and disjoint fields.
use Prim.Native.Nat.{
  ℕ, zero, suc, ◌+◌, ◌-◌, ◌*◌, ◌/◌, ◌%◌, ◌^◌, ◌≤◌, ◌<◌, min, max, digits, bit_and, bit_or,
  bit_and-bitwise, bit_or-bitwise, bit_xor, bit_xor-bitwise, differ,
}
use mathlib.Core.Path.{◌≡◌, refl, ap}
use native.Mathlib.Nat.{pow-suc, div-add-mod, mod-lt, zero-add, suc-add, pow-le-pow_right}
use native.Mathlib.Omega.{arith}

-- `digits` with more fuel than bits gives the same number.
module _ (tail : ℕ → ℕ) (op : ℕ → ℕ → ℕ) where
  enough_fuel : (f g a b : ℕ) → a ≤ f → a ≤ g → digits tail op f a b ≡ digits tail op g a b
  enough_fuel zero zero a b p q = refl
  enough_fuel (suc f) (suc g) zero b p q = refl
  enough_fuel (suc f) zero zero b p q = refl
  enough_fuel zero (suc g) zero b p q = refl
  enough_fuel (suc f) zero (suc a) b p q = absurd (omega arith)
  enough_fuel zero (suc g) (suc a) b p q = absurd (omega arith)
  enough_fuel (suc f) (suc g) (suc a) b p q =
      rw (enough_fuel f g (suc a / 2) (b / 2) (omega arith) (omega arith))

pub bit_and_digit : (a b : ℕ) → bit_and a b ≡ bit_and (a / 2) (b / 2) * 2 + min (a % 2) (b % 2)
bit_and_digit zero b = omega (arith, bit_and-bitwise 0 b, bit_and-bitwise 0 (b / 2))
bit_and_digit (suc a) b = omega (
  arith,
  bit_and-bitwise (suc a) b,
  bit_and-bitwise (suc a / 2) (b / 2),
  enough_fuel (λ b. zero) min a (suc a / 2) (suc a / 2) (b / 2) (omega arith) (omega arith),
)

pub bit_or_digit : (a b : ℕ) → bit_or a b ≡ bit_or (a / 2) (b / 2) * 2 + max (a % 2) (b % 2)
bit_or_digit zero b = omega (arith, bit_or-bitwise 0 b, bit_or-bitwise 0 (b / 2))
bit_or_digit (suc a) b = omega (
  arith,
  bit_or-bitwise (suc a) b,
  bit_or-bitwise (suc a / 2) (b / 2),
  enough_fuel (λ b. b) max a (suc a / 2) (suc a / 2) (b / 2) (omega arith) (omega arith),
)

-- On digits, `differ` is addition without carry.
differ_digit : (x y : ℕ) → x < 2 → y < 2 → differ x y ≡ (x + y) % 2
differ_digit zero y hx hy = omega arith
differ_digit (suc zero) zero hx hy = refl
differ_digit (suc zero) (suc zero) hx hy = refl
differ_digit (suc zero) (suc (suc y)) hx hy = absurd (omega arith)
differ_digit (suc (suc x)) y hx hy = absurd (omega arith)

pub bit_xor_digit : (a b : ℕ) → bit_xor a b ≡ bit_xor (a / 2) (b / 2) * 2 + (a % 2 + b % 2) % 2
bit_xor_digit zero b = omega (arith, bit_xor-bitwise 0 b, bit_xor-bitwise 0 (b / 2))
bit_xor_digit (suc a) b = omega (
  arith,
  bit_xor-bitwise (suc a) b,
  bit_xor-bitwise (suc a / 2) (b / 2),
  enough_fuel (λ b. b) differ a (suc a / 2) (suc a / 2) (b / 2) (omega arith) (omega arith),
  differ_digit (suc a % 2) (b % 2) (omega arith) (omega arith),
)

and_nothing : (f a : ℕ) → a ≤ f → bit_and a 0 ≡ 0
and_nothing f zero h = refl
and_nothing zero (suc a) h = absurd (omega arith)
and_nothing (suc f) (suc a) h =
    omega (arith, bit_and_digit (suc a) 0, and_nothing f (suc a / 2) (omega arith))

or_nothing : (f a : ℕ) → a ≤ f → bit_or a 0 ≡ a
or_nothing f zero h = refl
or_nothing zero (suc a) h = absurd (omega arith)
or_nothing (suc f) (suc a) h =
    omega (arith, bit_or_digit (suc a) 0, or_nothing f (suc a / 2) (omega arith))

pub bit_or-zero : (a : ℕ) → bit_or a 0 ≡ a
bit_or-zero a = or_nothing a a (omega arith)

pub pow_add : (a b : ℕ) → 2 ^ (a + b) ≡ 2 ^ a * 2 ^ b
pow_add zero b = rw zero-add (omega arith)
pow_add (suc a) b = rw (suc-add a b) (
    omega
      (arith, pow-suc 2 (a + b), pow-suc 2 a, pow_add a b, ap (λ (t : ℕ). t * 2 ^ b) (pow-suc 2 a)))

pub pow_mono : (a b : ℕ) → a ≤ b → 2 ^ a ≤ 2 ^ b
pow_mono a b h = pow-le-pow_right (omega arith) h

pub two_pow_pos : (k : ℕ) → 0 < 2 ^ k
two_pow_pos zero = omega arith
two_pow_pos (suc k) = omega (arith, two_pow_pos k, pow-suc 2 k)

-- The quotient and the remainder are determined by the division equation.
pub mod_unique : (n a q r : ℕ) → a ≡ n * q + r → r < n → a % n ≡ r
mod_unique n a q r e h = grind arith

-- `a & (2^k - 1)` is the remainder by `2^k`.
pub bit_and-mask : (k a : ℕ) → bit_and a (2 ^ k - 1) ≡ a % 2 ^ k
bit_and-mask zero a = omega (arith, and_nothing a a (omega arith))
bit_and-mask (suc k) a =
    rw (low, bit_and_digit a (2 ^ suc k - 1), half_mask, bit_and-mask k (a / 2))
      (omega (arith, double, two_pow_pos k))
  where
    double : 2 ^ suc k ≡ 2 * 2 ^ k
    double = omega (arith, pow-suc 2 k)

    half_mask : (2 ^ suc k - 1) / 2 ≡ 2 ^ k - 1
    half_mask = omega (arith, double, two_pow_pos k)

    low : a % 2 ^ suc k ≡ a / 2 % 2 ^ k * 2 + a % 2
    low =
        mod_unique (2 ^ suc k) a (a / 2 / 2 ^ k) _
          (rw double (omega (arith, div-add-mod (a / 2) (2 ^ k))))
          (omega (arith, double, two_pow_pos k, mod-lt (a / 2) (two_pow_pos k)))

pub bit_xor-lt : (k a b : ℕ) → a < 2 ^ k → b < 2 ^ k → bit_xor a b < 2 ^ k
bit_xor-lt zero a b ha hb =
    let ea : a ≡ 0 = omega arith in let eb : b ≡ 0 = omega arith in rw (ea, eb) (omega arith)
bit_xor-lt (suc k) a b ha hb = omega (
  arith,
  pow-suc 2 k,
  bit_xor_digit a b,
  bit_xor-lt k (a / 2) (b / 2) (omega (arith, pow-suc 2 k)) (omega (arith, pow-suc 2 k)),
)

-- Equal results of `^ b` come from equal numbers.
pub bit_xor-cancel : (k a a' b : ℕ) → a < 2 ^ k → a' < 2 ^ k → bit_xor a b ≡ bit_xor a' b → a ≡ a'
bit_xor-cancel zero a a' b ha ha' e = omega arith
bit_xor-cancel (suc k) a a' b ha ha' e =
    let halves : bit_xor (a / 2) (b / 2) ≡ bit_xor (a' / 2) (b / 2) =
      omega (arith, bit_xor_digit a b, bit_xor_digit a' b) in
    omega (
      arith,
      bit_xor_digit a b,
      bit_xor_digit a' b,
      bit_xor-cancel k (a / 2) (a' / 2) (b / 2) (omega (arith, pow-suc 2 k))
          (omega (arith, pow-suc 2 k)) halves,
    )

pub bit_xor-cancel_left :
    (k a b b' : ℕ) → b < 2 ^ k → b' < 2 ^ k → bit_xor a b ≡ bit_xor a b' → b ≡ b'
bit_xor-cancel_left zero a b b' hb hb' e = omega arith
bit_xor-cancel_left (suc k) a b b' hb hb' e =
    let halves : bit_xor (a / 2) (b / 2) ≡ bit_xor (a / 2) (b' / 2) =
      omega (arith, bit_xor_digit a b, bit_xor_digit a b') in
    omega (
      arith,
      bit_xor_digit a b,
      bit_xor_digit a b',
      bit_xor-cancel_left k (a / 2) (b / 2) (b' / 2) (omega (arith, pow-suc 2 k))
          (omega (arith, pow-suc 2 k)) halves,
    )
