-- ===== src/Source/Supply.antt =====
-- What a data source supplies.
use featcache.Common.{ℕ, ◌≡◌, List, [], ◌∷◌}
use featcache.Source.{DataSource, entry, end_of_data}

abbrev pub Entry : Type 0
Entry = List ℕ × List ℕ

-- From `s` on, `Next` answers these entries in order, and then ErrEOF.
module _ {S : Type 0} (ds : DataSource S) where
  abbrev pub Supplies : S → List Entry → S → Type 0
  Supplies s [] s' = ds.next s ≡ (s', end_of_data)
  Supplies s ((key, value) ∷ es) s' =
      (s₁ : S) × (ds.next s ≡ (s₁, entry key value)) × Supplies s₁ es s'
