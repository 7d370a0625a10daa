-- ===== src/Demo/Range.antt =====
-- A map that `range` goes through in some order: what a `MapDataSource` then supplies.
use native.Mathlib.Nat.{mul-suc}
use featcache.Common.{
  ℕ, ◌*◌, ◌≤◌, ◌<◌, ◌^◌, ◌≡◌, ◌≢◌, ◌∙◌, refl, sym, ap, subst, inl, inr, Bool, true, false, ◌||◌,
  List, [], ◌∷◌, none, some, All, length, map, arith, Bool-cases, if◌then◌else◌,
}
use featcache.Loader.Load.Supply.{wanted, last_value, IsDistinct, IsSmall, data_size}
use featcache.Loader.Load.{is_skipped}
use featcache.Loader.Outcome.{chunk_size}
use featcache.Source.Map.{map_get}
use featcache.Source.Supply.{Entry}
use featcache.Table.Refine.{equal_bytes_iff}
use featcache.Table.View.{equal_bytes}

abbrev pub has_key : List (List ℕ) → List ℕ → Bool
has_key [] k = false
has_key (key ∷ keys) k = equal_bytes k key || has_key keys k

abbrev pub IsOnce : List (List ℕ) → Type 0
IsOnce [] = Unit {0}
IsOnce (key ∷ keys) = All (λ k. k ≢ key) keys × IsOnce keys

-- `range` over a map takes each of its keys once, and no other, in any order.
pub record IsRange (keys order : List (List ℕ)) : Type 0 where
  pub same_count : length order ≡ length keys
  pub once : IsOnce order
  pub same_keys : (k : List ℕ) → has_key order k ≡ has_key keys k

abbrev pub supplied : List (List ℕ × List ℕ) → List (List ℕ) → List Entry
supplied entries order = map (λ (k : List ℕ). (k, map_get entries k)) order

-- What holds for each key holds for one that is among them.
All-has_key :
    (P : List ℕ → Type 0) (keys : List (List ℕ)) (k : List ℕ)
    → All P keys
    → has_key keys k ≡ true
    → P k
All-has_key P [] k ps e = absurd (cc e)
All-has_key P (key ∷ keys) k (p, ps) e = elim (Bool-cases (equal_bytes k key)) [
  | inl same ↦ subst P (sym ((equal_bytes_iff k key).0 same)) p
  | inr other ↦ All-has_key P keys k ps (rw other at e)
]

All-order :
    (P : List ℕ → Type 0) (order : List (List ℕ))
    → ((k : List ℕ) → has_key order k ≡ true → P k)
    → All P order
All-order P [] f = tt
All-order P (k ∷ order) f = (
  f k (rw ((equal_bytes_iff k k).1 refl) refl),
  All-order P order (λ j e. f j (ground (arith, e))),
)

-- What holds for each key of the map holds along the order.
pub All-IsRange :
    (P : List ℕ → Type 0) {keys order : List (List ℕ)}
    → IsRange keys order
    → All P keys
    → All P order
All-IsRange P {keys = keys} {order = order} r ps =
    All-order P order (λ k e. All-has_key P keys k ps (sym (r.same_keys k) ∙ e))

module _ (entries : List (List ℕ × List ℕ)) where
  pub wanted-supplied :
      (order : List (List ℕ))
      → All (λ k. is_skipped k ≡ false) order
      → wanted (supplied entries order) ≡ supplied entries order
  unfolding wanted
  wanted-supplied [] taken = refl
  wanted-supplied (k ∷ order) (p, taken) = rw (p, wanted-supplied order taken) refl

  All-supplied :
      (key : List ℕ) (order : List (List ℕ))
      → All (λ k. k ≢ key) order
      → All (λ (e : Entry). e.0 ≢ key) (supplied entries order)
  All-supplied key [] ne = tt
  All-supplied key (k ∷ order) (p, ne) = (p, All-supplied key order ne)

  pub supplied-IsDistinct :
      (order : List (List ℕ)) → IsOnce order → IsDistinct (supplied entries order)
  supplied-IsDistinct [] once = tt
  supplied-IsDistinct (k ∷ order) (ne, once) =
      (All-supplied k order ne, supplied-IsDistinct order once)

  -- Every chunk has at most so many bytes.
  abbrev pub IsWithin : ℕ → List ℕ → Type 0
  IsWithin bound k = chunk_size k (map_get entries k) ≤ bound

  pub supplied-IsSmall :
      (bound : ℕ) (order : List (List ℕ))
      → bound < 2 ^ 31
      → All (IsWithin bound) order
      → IsSmall (supplied entries order)
  supplied-IsSmall bound [] h within = tt
  supplied-IsSmall bound (k ∷ order) h (p, within) =
      (omega (arith, p), supplied-IsSmall bound order h within)

  pub data_size-supplied :
      (bound : ℕ) (order : List (List ℕ))
      → All (IsWithin bound) order
      → data_size (supplied entries order) ≤ bound * length order
  data_size-supplied bound [] within = omega arith
  data_size-supplied bound (k ∷ order) (p, within) =
      let rest = data_size-supplied bound order within in
      omega (arith, mul-suc bound (length order))

  -- What the entries give a key.
  pub last_value-supplied :
      (order : List (List ℕ)) (k : List ℕ)
      → last_value (supplied entries order) k
        ≡ (if has_key order k then some (map_get entries k) else none)
  unfolding last_value
  last_value-supplied [] k = refl
  last_value-supplied (key ∷ order) k =
      rw (last_value-supplied order k) (elim (Bool-cases (has_key order k)) [
        | inl later ↦ rw later (ground arith)
        | inr first ↦ elim (Bool-cases (equal_bytes k key)) [
          | inl same ↦
              rw (first, same)
                (ap (λ j. some (map_get entries j)) (sym ((equal_bytes_iff k key).0 same)))
          | inr other ↦ rw (first, other) refl
        ]
      ])
