-- ===== src/Loader/Load/Loop.antt =====
-- The loop of `Load` over the entries of a source, on a loader that is ready.
use featcache.Common.{
  ℕ, suc, ◌+◌, ◌^◌, ◌<◌, ◌≡◌, ◌≢◌, refl, ap, ◌⊎◌, true, false, List, [], ◌++◌, Option, none, some,
  All, length, ok, panic,
}
use featcache.Loader.Load.Supply.{wanted, last_value, or_else, data_size}
use featcache.Loader.Load.{Failure, load_failed, is_skipped, stopped_by, ended, load_loop}
use featcache.Loader.Outcome.{lookup}
use featcache.Loader.Ready.{IsReady}
use featcache.Loader.{Loader, LoadError, put, data_region_full}
use featcache.Memory.Words.{Differs}
use featcache.Source.Supply.{Entry}
use featcache.Source.{DataSource, entry, end_of_data}
use featcache.Table.Free.{free_slots}
use featcache.Table.Probe.{hit}
use featcache.Table.Refine.{IsWellFormed}
use featcache.Table.Scan.{free_kind}
use featcache.Table.{HashTable}

-- A lookup of every key is a miss.
abbrev pub IsAbsent : HashTable → Loader → ℕ → List Entry → Type 0
IsAbsent ht l seed es = All (λ e. lookup ht l seed e.0 ≡ ok none) es

-- Why the loop ended with the entries `rest` still to load: there are none; or every slot is taken;
-- or there is no room for data, and this is an error.
abbrev pub IsStopped : HashTable → ℕ → ℕ → List Entry → Option Failure → Loader → Type 0
IsStopped ht log seed rest failure l =
    ((failure ≡ none) × (rest ≡ []) × IsReady l ht log seed)
    ⊎ (((failure ≡ none)
          × (rest ≢ [])
          × IsReady l ht log seed
          × ((i : ℕ) → i < ht.capacity → free_kind ht l.segment.bytes i ≢ hit))
        ⊎ ((failure ≡ some (load_failed data_region_full)) × (rest ≢ [])))

-- The data region is too small for these entries.
abbrev pub IsShort : Loader → List Entry → Type 0
IsShort l es = l.segment.bytes.size < l.data_end + data_size es

-- The loop ended: the entries `loaded` were counted, and read as their values; every other lookup
-- answers as before, and the bytes before the slots are as they were.
pub record Loaded (ht : HashTable) (log seed : ℕ) (l : Loader) (loaded rest : List Entry)
    (failure : Option Failure) (l' : Loader) : Type 0 where
  pub reads :
      (k : List ℕ) → lookup ht l' seed k ≡ or_else (last_value loaded k) (lookup ht l seed k)
  pub behind : Differs ht.slot_base l.segment.bytes.size l.segment.bytes l'.segment.bytes
  pub room : free_slots ht l'.segment.bytes + length loaded ≡ free_slots ht l.segment.bytes
  pub shortage : (failure ≡ none) ⊎ IsShort l (loaded ++ rest)
  pub attached : l'.segment.attached ≡ true
  pub formed : IsWellFormed ht log l'.segment.bytes
  pub why : IsStopped ht log seed rest failure l'

-- One round of the loop, by what `Next` and `put` answer.
module _ {S : Type 0} (ds : DataSource S) (pkg_seed fuel : ℕ) {s s₁ : S} (l : Loader)
    (count : ℕ) where
  pub round_end :
      ds.next s ≡ (s₁, end_of_data)
      → load_loop ds pkg_seed (suc fuel) s l count ≡ ended none count s₁ l
  unfolding load_loop
  round_end e = rw (ap (λ p. p.1) e, ap (λ p. p.0) e, load_loop) refl

  module _ {key value : List ℕ} (e : ds.next s ≡ (s₁, entry key value)) where
    pub round_skip :
        is_skipped key ≡ true
        → load_loop ds pkg_seed (suc fuel) s l count ≡ load_loop ds pkg_seed fuel s₁ l count
    unfolding load_loop
    round_skip skip = rw (ap (λ p. p.1) e, ap (λ p. p.0) e, skip, load_loop) refl

    module _ (taken : is_skipped key ≡ false) where
      pub round_panic :
          put l pkg_seed key value ≡ panic → load_loop ds pkg_seed (suc fuel) s l count ≡ panic
      unfolding load_loop
      round_panic p = rw (ap (λ p. p.1) e, ap (λ p. p.0) e, taken, p, load_loop) refl

      pub round_error :
          (err : LoadError) (l' : Loader)
          → put l pkg_seed key value ≡ ok (some err, l')
          → load_loop ds pkg_seed (suc fuel) s l count ≡ ended (stopped_by err) count s₁ l'
      unfolding load_loop
      round_error err l' p = rw (ap (λ q. q.1) e, taken, p, ap (λ q. q.0) e, load_loop) refl

      pub round_next :
          (l' : Loader)
          → put l pkg_seed key value ≡ ok (none, l')
          → load_loop ds pkg_seed (suc fuel) s l count
            ≡ load_loop ds pkg_seed fuel s₁ l' (count + 1)
      unfolding load_loop
      round_next l' p = rw (ap (λ q. q.1) e, taken, p, ap (λ q. q.0) e, load_loop) refl

module _ {S : Type 0} (ds : DataSource S) (pkg_seed : ℕ) (ht : HashTable) (log seed : ℕ) where
  -- What the loop comes to from a state on, for the entries `es`.
  abbrev pub Ends : ℕ → S → Loader → ℕ → List Entry → Type 0
  Ends fuel s l count es =
      ((load_loop ds pkg_seed fuel s l count ≡ panic)
        × (l.segment.bytes.size ≡ 2 ^ 31)
        × IsShort l (wanted es))
      ⊎ ((loaded : List Entry) × (rest : List Entry) × (failure : Option Failure) × (s' : S)
          × (l' : Loader) × (load_loop ds pkg_seed fuel s l count
              ≡ ended failure (count + length loaded) s' l')
          × (wanted es ≡ loaded ++ rest)
          × Loaded ht log seed l loaded rest failure l')
