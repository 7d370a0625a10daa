-- ===== src/Source/Map.antt =====
-- `MapDataSource`: the entries of a map in memory.
use native.Mathlib.Nat.{add-zero, zero-add}
use native.Mathlib.Numerals.{add-one}
use featcache.Common.{
  drop, zero, suc, ◌≡◌, refl, map, arith, ℕ, ◌+◌, List, [], ◌∷◌, none, some, length, get_elem?,
  if◌then◌else◌,
}
use featcache.Protocol.{ok}
use featcache.Source.Supply.{Entry, Supplies}
use featcache.Source.{DataSource, Next, entry, end_of_data}
use featcache.Table.View.{equal_bytes}

-- The map as an association list, and its keys in the order that `range` gave them.
pub record MapDataSource : Type 0 where
  pub entries : List (List ℕ × List ℕ)
  pub keys : List (List ℕ)
  pub idx : ℕ

unfoldable pub map_get : List (List ℕ × List ℕ) → List ℕ → List ℕ
map_get [] k = []
map_get ((key, value) ∷ entries) k =
    let rest = map_get entries k in if equal_bytes key k then value else rest

-- `NewMapDataSource`: `order` is how `range` goes through the keys.
unfoldable pub new_map_data_source : List (List ℕ × List ℕ) → List (List ℕ) → MapDataSource
new_map_data_source entries order = record { entries = entries; keys = order; idx = 0 }

unfoldable pub total : MapDataSource → ℕ
total ds = length ds.entries

unfoldable pub next : MapDataSource → MapDataSource × Next
next ds = elim (get_elem? ds.keys ds.idx) [
  | none ↦ (ds, end_of_data)
  | some k ↦ (record ds { idx = ds.idx + 1 }, entry k (map_get ds.entries k))
]

unfoldable pub map_source : DataSource MapDataSource
unfolding next total
map_source = record {
  open_source = λ ds. (ds, ok (total ds));
  next = next;
  close_source = λ ds. ds;
}

-- The key at a position, as the entry that `Next` answers.
abbrev entry_at : List (List ℕ × List ℕ) → List ℕ → Entry
entry_at entries k = (k, map_get entries k)

drop-nil : (keys : List (List ℕ)) (i : ℕ) → drop i keys ≡ [] → get_elem? keys i ≡ none
drop-nil [] i e = refl
drop-nil (k ∷ keys) zero e = cc
drop-nil (k ∷ keys) (suc i) e = drop-nil keys i e

drop-cons :
    (keys : List (List ℕ)) (i : ℕ) (k : List ℕ) (back : List (List ℕ))
    → drop i keys ≡ k ∷ back
    → (get_elem? keys i ≡ some k) × (drop (suc i) keys ≡ back)
drop-cons [] zero k back e = cc
drop-cons [] (suc i) k back e = cc
drop-cons (j ∷ keys) zero k back e = (cc, cc)
drop-cons (j ∷ keys) (suc i) k back e = drop-cons keys i k back e

module _ (entries : List (List ℕ × List ℕ)) (keys : List (List ℕ)) where
  abbrev at_key : ℕ → MapDataSource
  at_key i = record { entries = entries; keys = keys; idx = i }

  next_end : (i : ℕ) → get_elem? keys i ≡ none → next (at_key i) ≡ (at_key i, end_of_data)
  unfolding next
  next_end i e = rw (e, next) refl

  next_key :
      (i : ℕ) (k : List ℕ)
      → get_elem? keys i ≡ some k
      → next (at_key i) ≡ (at_key (i + 1), entry k (map_get entries k))
  unfolding next
  next_key i k e = rw (e, next) refl

  Supplies-from :
      (i : ℕ) (back : List (List ℕ))
      → drop i keys ≡ back
      → Supplies map_source (at_key i) (map (entry_at entries) back) (at_key (i + length back))
  unfolding map_source
  Supplies-from i [] e = rw add-zero (next_end i (drop-nil keys i e))
  Supplies-from i (k ∷ back) e =
      let (here, later) = drop-cons keys i k back e in
      let more : i + 1 + length back ≡ i + suc (length back) = omega arith in
      (
        at_key (i + 1),
        next_key i k here,
        rw (← more) (Supplies-from (i + 1) back (rw add-one later)),
      )

-- The source of a map opens with the number of its entries, and supplies each key, in the order of
-- `range`, with the value that the map holds for it.
pub map_source-Supplies :
    (entries : List (List ℕ × List ℕ)) (order : List (List ℕ))
    → (map_source.open_source (new_map_data_source entries order)
        ≡ (new_map_data_source entries order, ok (length entries)))
      × Supplies map_source
          (new_map_data_source entries order)
          (map (λ k. (k, map_get entries k)) order)
          (record (new_map_data_source entries order) { idx = length order })
unfolding new_map_data_source map_source
map_source-Supplies entries order =
    (refl, rw zero-add at (Supplies-from entries order 0 order refl))
