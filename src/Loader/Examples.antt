-- ===== src/Loader/Examples.antt =====
-- The loader at concrete segments: 256 bytes, with a table of two slots.
use featcache.Common.{
  ℕ, ◌*◌, ◌^◌, ◌≤◌, ◌<◌, ◌≡◌, refl, ◌⊎◌, true, List, [], ◌∷◌, none, some, arith, ok, panic,
}
use featcache.Layout.{align}
use featcache.Loader.Init.{data_start, handle_for, IsInitialized, init-refines, laid_out}
use featcache.Loader.Load.Whole.{IsFresh}
use featcache.Loader.Outcome.{lookup, IsPanic, IsRegionFull, IsHashFull, IsAdded}
use featcache.Loader.Overflow.{init_overflow_panics}
use featcache.Loader.Put.{put-refines}
use featcache.Loader.Ready.{IsReady}
use featcache.Loader.{Loader, segment_too_small, init}
use featcache.Segment.{Segment}
use featcache.Table.Free.{free_slots}
use featcache.Table.{new_hash_table}

-- A segment of so many zero bytes, with one mapped handle.
abbrev pub zeros : ℕ → Segment
zeros n = record {
  name = b's' ∷ [];
  bytes = record { size = n; byte = λ j. 0 };
  attached = true;
  cap = n;
  mapped = true;
  backed_by_file = true;
}

abbrev pub fresh : ℕ → Loader
fresh n = record {
  segment = zeros n;
  hash_table = none;
  config = record { segment_name = b's' ∷ []; segment_size = n };
  data_end = 0;
}

pub fresh-IsFresh : (n : ℕ) → n ≤ 2 ^ 31 → IsFresh (fresh n)
fresh-IsFresh n h = record { no_table = refl; attached = refl; whole = refl; bounded = h }

init-refines_example :
    (log : ℕ) × (log ≤ 27)
    × (2 * 1 ≤ 2 ^ log)
    × ((j : ℕ) → 2 * 1 ≤ 2 ^ j → log ≤ j)
    × (((init (fresh 256) 1 7 ≡ ok (some segment_too_small, fresh 256))
          × (256 ≤ data_start (2 ^ log)))
        ⊎ IsInitialized (fresh 256) 1 7 log)
init-refines_example =
    init-refines (fresh 256) refl refl (omega arith) 7 (omega arith) (omega arith) 1 (omega arith)

-- The loader with two slots, whose data region starts at 112.
pub two_fit : data_start 2 < 256
unfolding align
two_fit = omega arith

abbrev pub started : Loader
started =
    (laid_out (fresh 256) refl refl (omega arith) 7 (omega arith) (omega arith) 1 (omega arith)
      two_fit).0

pub started-IsReady : IsReady started (handle_for 2) 1 7
started-IsReady =
    (laid_out (fresh 256) refl refl (omega arith) 7 (omega arith) (omega arith) 1 (omega arith)
      two_fit).2

pub started_free : free_slots (handle_for 2) started.segment.bytes ≡ 2
unfolding new_hash_table
started_free =
    (laid_out (fresh 256) refl refl (omega arith) 7 (omega arith) (omega arith) 1 (omega arith)
      two_fit).6

pub started_end : started.data_end ≡ 112
unfolding new_hash_table align
started_end =
    (laid_out (fresh 256) refl refl (omega arith) 7 (omega arith) (omega arith) 1 (omega arith)
      two_fit).7

pub started_size : started.segment.bytes.size ≡ 256
started_size =
    (laid_out (fresh 256) refl refl (omega arith) 7 (omega arith) (omega arith) 1 (omega arith)
      two_fit).5

pub started_empty : (k : List ℕ) → lookup (handle_for 2) started 7 k ≡ ok none
started_empty =
    (laid_out (fresh 256) refl refl (omega arith) 7 (omega arith) (omega arith) 1 (omega arith)
      two_fit).3

put-refines_example :
    IsPanic started 3 (b'k' ∷ []) (1 ∷ 2 ∷ [])
    ⊎ (IsRegionFull started 3 (b'k' ∷ []) (1 ∷ 2 ∷ [])
        ⊎ (IsHashFull started (handle_for 2) 1 7 3 (b'k' ∷ []) (1 ∷ 2 ∷ [])
            ⊎ IsAdded started (handle_for 2) 1 7 3 (b'k' ∷ []) (1 ∷ 2 ∷ [])))
put-refines_example =
    put-refines started-IsReady 3 (b'k' ∷ []) (1 ∷ 2 ∷ []) (omega arith) (started_empty (b'k' ∷ []))

init_overflow_panics_example : init (fresh (2 ^ 31)) (2 ^ 28) 7 ≡ panic
init_overflow_panics_example =
    init_overflow_panics (fresh (2 ^ 31)) (2 ^ 28) 7 refl refl (omega arith) (omega arith)
      (omega arith) (omega arith)

-- A segment that has no room between its data and the 2 GiB.
abbrev full_up : Loader
full_up = record (fresh (2 ^ 31)) { data_end = 2147483645 }
