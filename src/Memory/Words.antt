-- ===== src/Memory/Words.antt =====
-- Reads after writes, and what a write leaves alone.
use native.Mathlib.Nat.{pow-suc, div-add-mod, mod-lt, one-le-pow}
use featcache.Common.{
  ℕ, zero, suc, ◌+◌, ◌*◌, ◌/◌, ◌%◌, ◌^◌, ◌≤◌, ◌<◌, ◌≡◌, refl, ap, ap₂, ◌∙◌, sym, ◌⊎◌, inl, inr,
  List, [], ◌∷◌, length, arith, ltb, lt→ltb, Bool-cases,
}
use featcache.Common.Bits.{mod_unique}
use featcache.Memory.{Memory, poke, load_le, store_le, slice, copy}

-- `m'` has the size of `m`, and the same bytes outside `[lo, hi)`.
pub record Differs (lo hi : ℕ) (m m' : Memory) : Type 0 where
  pub same_size : m'.size ≡ m.size
  pub same_byte : (j : ℕ) → (j < lo) ⊎ (hi ≤ j) → m'.byte j ≡ m.byte j

pub Differs-refl : {lo hi : ℕ} {m : Memory} → Differs lo hi m m
Differs-refl = record { same_size = refl; same_byte = λ j h. refl }

pub Differs-trans :
    {lo hi : ℕ} {a b c : Memory} → Differs lo hi a b → Differs lo hi b c → Differs lo hi a c
Differs-trans p q = record {
  same_size = q.same_size ∙ p.same_size;
  same_byte = λ j h. q.same_byte j h ∙ p.same_byte j h;
}

pub Differs-wider :
    {lo hi lo' hi' : ℕ} {a b : Memory}
    → lo' ≤ lo
    → hi ≤ hi'
    → Differs lo hi a b
    → Differs lo' hi' a b
Differs-wider l r p = record {
  same_size = p.same_size;
  same_byte = λ j h. p.same_byte j (omega arith);
}

pub poke-Differs : (m : Memory) (o b : ℕ) → Differs o (o + 1) m (poke m o b)
unfolding poke
poke-Differs m o b = record { same_size = refl; same_byte = λ j h. ground arith }

pub store_le-Differs : (n : ℕ) (m : Memory) (o v : ℕ) → Differs o (o + n) m (store_le n m o v)
unfolding store_le
store_le-Differs zero m o v = Differs-refl
store_le-Differs (suc n) m o v =
    Differs-trans
      (Differs-wider (omega arith) (omega arith) (store_le-Differs n m (o + 1) (v / 256)))
      (Differs-wider (omega arith) (omega arith) (poke-Differs _ o (v % 256)))

pub size-store_le : (n : ℕ) (m : Memory) (o v : ℕ) → (store_le n m o v).size ≡ m.size
size-store_le n m o v = (store_le-Differs n m o v).same_size

-- A load sees only its own bytes.
pub load_le-Differs :
    {lo hi : ℕ} {m m' : Memory} (n o : ℕ)
    → Differs lo hi m m'
    → (o + n ≤ lo) ⊎ (hi ≤ o)
    → load_le n m' o ≡ load_le n m o
unfolding load_le
load_le-Differs zero o d h = refl
load_le-Differs (suc n) o d h =
    omega (arith, d.same_byte o (omega arith), load_le-Differs n (o + 1) d (omega arith))

pub slice-Differs :
    {lo hi : ℕ} {m m' : Memory} (n o : ℕ)
    → Differs lo hi m m'
    → (o + n ≤ lo) ⊎ (hi ≤ o)
    → slice n m' o ≡ slice n m o
unfolding slice
slice-Differs zero o d h = refl
slice-Differs (suc n) o d h =
    ap₂ ◌∷◌ (d.same_byte o (omega arith)) (slice-Differs n (o + 1) d (omega arith))

next_digit : (n v : ℕ) → v % 256 + 256 * (v / 256 % 256 ^ n) ≡ v % 256 ^ suc n
next_digit n v = sym (
    mod_unique (256 ^ suc n) v (v / 256 / 256 ^ n) _
      (rw (pow-suc 256 n) (omega (arith, div-add-mod (v / 256) (256 ^ n))))
      (omega (arith, pow-suc 256 n, mod-lt (v / 256) (one-le-pow n 256 (omega arith)))))

pub byte-poke_self : (m : Memory) (o b : ℕ) → (poke m o b).byte o ≡ b
unfolding poke
byte-poke_self m o b = ground arith

-- A load gives back what was stored, cut to its width.
pub load-store_le : (n : ℕ) (m : Memory) (o v : ℕ) → load_le n (store_le n m o v) o ≡ v % 256 ^ n
unfolding load_le store_le
load-store_le zero m o v = omega arith
load-store_le (suc n) m o v =
    let rest = store_le n m (o + 1) (v / 256) in
    omega (
      arith,
      byte-poke_self rest o (v % 256),
      load_le-Differs n (o + 1) (poke-Differs rest o (v % 256)) (inr (omega arith)),
      load-store_le n m (o + 1) (v / 256),
      next_digit n v,
    )

-- A field that is stored next to others keeps its value.
pub load-store_le_ne :
    (n k : ℕ) (m : Memory) (o o' v : ℕ)
    → (o' + n ≤ o) ⊎ (o + k ≤ o')
    → load_le n (store_le k m o v) o' ≡ load_le n m o'
load-store_le_ne n k m o o' v h = load_le-Differs n o' (store_le-Differs k m o v) h

pub length-slice : (n : ℕ) (m : Memory) (o : ℕ) → length (slice n m o) ≡ n
unfolding slice
length-slice zero m o = refl
length-slice (suc n) m o = ap suc (length-slice n m (o + 1))

pub copy-Differs : (m : Memory) (o : ℕ) (bs : List ℕ) → Differs o (o + length bs) m (copy m o bs)
unfolding copy
copy-Differs m o [] = Differs-refl
copy-Differs m o (b ∷ bs) = elim (Bool-cases (ltb o m.size)) [
  | inl fits ↦ rw fits (
      Differs-trans (Differs-wider (omega arith) (omega arith) (copy-Differs m (o + 1) bs))
        (Differs-wider (omega arith) (omega arith) (poke-Differs _ o b)))
  | inr over ↦ rw over Differs-refl
]

-- What was copied is read back, where it fits.
pub slice-copy :
    (m : Memory) (o : ℕ) (bs : List ℕ)
    → o + length bs ≤ m.size
    → slice (length bs) (copy m o bs) o ≡ bs
unfolding copy slice
slice-copy m o [] h = refl
slice-copy m o (b ∷ bs) h = rw (lt→ltb o m.size (omega arith)) (
    ap₂ ◌∷◌ (byte-poke_self _ o b) (
      slice-Differs (length bs) (o + 1) (poke-Differs (copy m (o + 1) bs) o b) (inr (omega arith))
      ∙ slice-copy m (o + 1) bs (omega arith)))

-- A load and a slice depend on their bytes only.
pub load_le_same :
    (m m' : Memory) (n o : ℕ)
    → ((j : ℕ) → o ≤ j → j < o + n → m'.byte j ≡ m.byte j)
    → load_le n m' o ≡ load_le n m o
unfolding load_le
load_le_same m m' zero o same = refl
load_le_same m m' (suc n) o same = omega (
  arith,
  same o (omega arith) (omega arith),
  load_le_same m m' n (o + 1) (λ j lo hi. same j (omega arith) (omega arith)),
)

pub slice_same :
    (m m' : Memory) (n o : ℕ)
    → ((j : ℕ) → o ≤ j → j < o + n → m'.byte j ≡ m.byte j)
    → slice n m' o ≡ slice n m o
unfolding slice
slice_same m m' zero o same = refl
slice_same m m' (suc n) o same =
    ap₂ ◌∷◌ (same o (omega arith) (omega arith))
      (slice_same m m' n (o + 1) (λ j lo hi. same j (omega arith) (omega arith)))
