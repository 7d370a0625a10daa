-- ===== src/Loader/Load/Entries.antt =====
-- The first entry of a list: whether it is wanted, and what a lookup sees once it is put.
use featcache.Common.{
  ℕ, ◌≡◌, ◌≢◌, ◌∙◌, refl, inl, inr, true, false, List, [], ◌∷◌, Option, some, All, arith, Run, ok,
  Bool-cases, if◌then◌else◌,
}
use featcache.Loader.Load.Loop.{IsAbsent}
use featcache.Loader.Load.Supply.{wanted, last_value, or_else}
use featcache.Loader.Load.{is_skipped}
use featcache.Loader.Outcome.{lookup}
use featcache.Loader.{Loader}
use featcache.Source.Supply.{Entry}
use featcache.Table.Refine.{equal_bytes_iff}
use featcache.Table.View.{equal_bytes}
use featcache.Table.{HashTable}

module _ (key value : List ℕ) (es : List Entry) where
  pub wanted-skip : is_skipped key ≡ true → wanted ((key, value) ∷ es) ≡ wanted es
  unfolding wanted
  wanted-skip e = rw e refl

  pub wanted-take : is_skipped key ≡ false → wanted ((key, value) ∷ es) ≡ (key, value) ∷ wanted es
  unfolding wanted
  wanted-take e = rw e refl

pub other_key : (k key : List ℕ) → k ≢ key → equal_bytes k key ≡ false
other_key k key ne = elim (Bool-cases (equal_bytes k key)) [
  | inl e ↦ absurd (ne ((equal_bytes_iff k key).0 e))
  | inr e ↦ e
]

-- Adding a key leaves the keys absent that are not it.
pub still-IsAbsent :
    (ht : HashTable) (l l' : Loader) (seed : ℕ) (key value : List ℕ) (es : List Entry)
    → ((k : List ℕ)
        → lookup ht l' seed k ≡ (if equal_bytes k key then ok (some value) else lookup ht l seed k))
    → All (λ e. e.0 ≢ key) es
    → IsAbsent ht l seed es
    → IsAbsent ht l' seed es
still-IsAbsent ht l l' seed key value [] reads ne absent = tt
still-IsAbsent ht l l' seed key value (e ∷ es) reads ne absent = (
  reads e.0 ∙ rw (other_key e.0 key ne.0) absent.0,
  still-IsAbsent ht l l' seed key value es reads ne.1 absent.1,
)

-- Two steps of lookups in one.
pub reads_both :
    (r : Run (Option (List ℕ))) (key value : List ℕ) (loaded : List Entry) (k : List ℕ)
    → or_else (last_value loaded k) (if equal_bytes k key then ok (some value) else r)
      ≡ or_else (last_value ((key, value) ∷ loaded) k) r
unfolding last_value
reads_both r key value loaded k = ground arith
