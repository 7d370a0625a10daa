-- ===== src/Protocol/Wire.antt =====
-- Numbers and names on the wire.
use native.Mathlib.Nat.{
  pow-suc, div-add-mod, mod-lt, one-le-pow, zero-add, suc-add, mul-le-mul_right,
}
use featcache.Common.Bits.{mod_unique}
use featcache.Common.{
  ℕ, zero, suc, ◌+◌, ◌*◌, ◌/◌, ◌%◌, ◌^◌, ◌≡◌, ◌≢◌, refl, ap, sym, List, [], ◌∷◌, ◌++◌, length,
  length-append, length-replicate, take, drop, replicate, take_prefix, drop_prefix, get_or, arith,
  true, false, ◌==◌,
}
use featcache.Protocol.{to_be, from_be, trim_loop, trim, field}

pub length-to_be : (n v : ℕ) → length (to_be n v) ≡ n
unfolding to_be
length-to_be zero v = refl
length-to_be (suc n) v = ap suc (length-to_be n v)

-- A field of n bytes carries a number below 256^n.
pub from_be-to_be : (n v : ℕ) → from_be (to_be n v) ≡ v % 256 ^ n
unfolding from_be to_be
from_be-to_be zero v = omega arith
from_be-to_be (suc n) v =
    rw (length-to_be n v, from_be-to_be n v)
      (sym (
        mod_unique (256 ^ suc n) v (v / 256 ^ n / 256) _
          (rw (pow-suc 256 n) (
            omega (
              arith,
              div-add-mod v (256 ^ n),
              ap (λ (t : ℕ). 256 ^ n * t) (div-add-mod (v / 256 ^ n) 256),
            )))
          (rw (pow-suc 256 n) (
            let low = mod-lt v (one-le-pow n 256 (omega arith)) in
            let high = mul-le-mul_right {m = v / 256 ^ n % 256} {n = 255} (256 ^ n) (omega arith) in
            omega arith))))

get_or-append : (xs zs : List ℕ) (j : ℕ) → get_or (xs ++ zs) (length xs + j) 0 ≡ get_or zs j 0
get_or-append [] zs j = rw zero-add
get_or-append (x ∷ xs) zs j = rw suc-add (get_or-append xs zs j)

get_or-zeros : (k j : ℕ) → ◌≡◌ {A = ℕ} (get_or (replicate k 0) j 0) 0
get_or-zeros zero j = refl
get_or-zeros (suc k) zero = refl
get_or-zeros (suc k) (suc j) = get_or-zeros k j

take_through :
    (ys : List ℕ) (b : ℕ) (zs : List ℕ) → take (suc (length ys)) (ys ++ (b ∷ zs)) ≡ ys ++ (b ∷ [])
take_through [] b zs = refl
take_through (y ∷ ys) b zs = ap (λ r. y ∷ r) (take_through ys b zs)

-- Zeros behind a name that ends in another byte are cut off.
trim_loop-zeros :
    (ys : List ℕ) (b k j : ℕ)
    → b ≢ 0
    → trim_loop (ys ++ (b ∷ replicate k 0)) (suc (length ys + j)) ≡ ys ++ (b ∷ [])
unfolding trim_loop
trim_loop-zeros ys b k zero ne =
    let here : (get_or (ys ++ (b ∷ replicate k 0)) (length ys + 0) 0 == 0) ≡ false =
      ground (arith, get_or-append ys (b ∷ replicate k 0) 0) in
    let last : length ys + 0 + 1 ≡ suc (length ys) = omega arith in
    rw (here, last) (take_through ys b (replicate k 0))
trim_loop-zeros ys b k (suc j) ne =
    let here : (get_or (ys ++ (b ∷ replicate k 0)) (length ys + suc j) 0 == 0) ≡ true =
      ground (arith, get_or-append ys (b ∷ replicate k 0) (suc j), get_or-zeros k j) in
    let down : length ys + suc j ≡ suc (length ys + j) = omega arith in
    rw here (rw down (trim_loop-zeros ys b k j ne))

-- A name of zeros alone is left as it is.
trim_loop-all_zero : (k i : ℕ) → trim_loop (replicate k 0) i ≡ replicate k 0
unfolding trim_loop
trim_loop-all_zero k zero = refl
trim_loop-all_zero k (suc i) = rw (get_or-zeros k i) (trim_loop-all_zero k i)

-- The padded name comes back, if it does not end in a zero.
pub trim_padded :
    (ys : List ℕ) (b k : ℕ) → b ≢ 0 → trim (ys ++ (b ∷ replicate k 0)) ≡ ys ++ (b ∷ [])
unfolding trim
trim_padded ys b k ne =
    let size : length (ys ++ (b ∷ replicate k 0)) ≡ suc (length ys + k) =
      omega (arith, length-append ys (b ∷ replicate k 0), length-replicate {A = ℕ} k 0) in
    rw size (trim_loop-zeros ys b k k ne)

pub trim_all_zero : (k : ℕ) → trim (replicate k 0) ≡ replicate k 0
unfolding trim
trim_all_zero k = trim_loop-all_zero k (length (replicate k 0))

-- A field of known length, at a known offset.
pub field_at :
    (front mid back : List ℕ) → field (front ++ (mid ++ back)) (length front) (length mid) ≡ mid
unfolding field
field_at front mid back = rw (drop_prefix front (mid ++ back)) (take_prefix mid back)

pub drop-append_past :
    (xs zs : List ℕ) (n j : ℕ) → length xs ≡ n → drop (n + j) (xs ++ zs) ≡ drop j zs
drop-append_past [] zs n j e = rw (← e, zero-add)
drop-append_past (x ∷ xs) zs n j e = rw (← e, suc-add) (drop-append_past xs zs (length xs) j refl)
