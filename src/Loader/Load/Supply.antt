-- ===== src/Loader/Load/Supply.antt =====
-- Which of the entries of a source `Load` takes in.
use featcache.Common.{
  ℕ, ◌+◌, ◌^◌, ◌<◌, ◌≢◌, List, [], ◌∷◌, Option, none, some, All, Run, ok, if◌then◌else◌,
}
use featcache.Loader.Load.{is_skipped}
use featcache.Loader.Outcome.{chunk_size}
use featcache.Source.Supply.{Entry}
use featcache.Table.View.{equal_bytes}

-- The entries whose key is not skipped.
unfoldable pub wanted : List Entry → List Entry
wanted [] = []
wanted ((key, value) ∷ es) =
    let rest = wanted es in if is_skipped key then rest else ((key, value) ∷ rest)

-- The last value that a list of entries gives a key.
unfoldable pub last_value : List Entry → List ℕ → Option (List ℕ)
last_value [] k = none
last_value ((key, value) ∷ es) k = elim (last_value es k) [
  | some v ↦ some v
  | none ↦ if equal_bytes k key then some value else none
]

abbrev pub or_else : Option (List ℕ) → Run (Option (List ℕ)) → Run (Option (List ℕ))
or_else none r = r
or_else (some v) r = ok (some v)

-- No key occurs twice.
abbrev pub IsDistinct : List Entry → Type 0
IsDistinct [] = Unit {0}
IsDistinct ((key, value) ∷ es) = All (λ e. e.0 ≢ key) es × IsDistinct es

-- The bytes of all chunks.
abbrev pub data_size : List Entry → ℕ
data_size [] = 0
data_size (e ∷ es) = chunk_size e.0 e.1 + data_size es

-- Every chunk is below 2 GiB.
abbrev pub IsSmall : List Entry → Type 0
IsSmall es = All (λ e. chunk_size e.0 e.1 < 2 ^ 31) es
