-- ===== src/Loader/Load/LineExamples.antt =====
-- A file of two lines, of which one is loaded.
use featcache.Common.{ℕ, ◌^◌, ◌≤◌, ◌≡◌, refl, ◌⊎◌, List, [], ◌∷◌, map, arith, panic, Option}
use featcache.Loader.Load.Single.{load_file, load-line_source}
use featcache.Loader.Load.Supply.{wanted, IsDistinct, IsSmall}
use featcache.Loader.Load.{Failure, ended, is_skipped}
use featcache.Loader.{Loader}
use featcache.Protocol
use featcache.Source.Line.{Scanned, scanned_line, no_more, Scanning, LineDataSource, split}
use featcache.Loader.Examples.{fresh, fresh-IsFresh}

-- A file of two lines, `a` TAB `1` and `b` TAB `2`.
abbrev two_lines : List (List ℕ)
two_lines = (b'a' ∷ 9 ∷ b'1' ∷ []) ∷ (b'b' ∷ 9 ∷ b'2' ∷ []) ∷ []

abbrev scan_list : List (List ℕ) → List (List ℕ) × Scanned
scan_list [] = ([], no_more)
scan_list (bytes ∷ lines) = (lines, scanned_line bytes)

abbrev in_memory : Scanning (List (List ℕ))
in_memory = record { open_file = λ path. Protocol.ok two_lines; scan = scan_list }

lines_wanted : wanted (map split two_lines) ≡ (b'a' ∷ [], b'1' ∷ []) ∷ (b'b' ∷ [], b'2' ∷ []) ∷ []
unfolding wanted is_skipped split
lines_wanted = refl

lines-IsDistinct : IsDistinct (wanted (map split two_lines))
lines-IsDistinct = rw lines_wanted (((λ e. ground arith), tt), (tt, tt))

lines-IsSmall : IsSmall (wanted (map split two_lines))
lines-IsSmall = rw lines_wanted (omega arith, (omega arith, tt))

load-line_source_example :
    ((load_file in_memory 3 7 5 [] (fresh 256) ≡ panic) × (256 ≡ 2 ^ 31))
    ⊎ ((failure : Option Failure) × (count : ℕ) × (s' : LineDataSource (List (List ℕ)))
        × (l' : Loader) × (load_file in_memory 3 7 5 [] (fresh 256) ≡ ended failure count s' l')
        × (count ≤ 1))
load-line_source_example =
    load-line_source in_memory 3 7 5 [] two_lines [] two_lines (fresh 256) refl
      (_, refl, (_, refl, refl)) (omega arith) (fresh-IsFresh 256 (omega arith)) lines-IsDistinct
      lines-IsSmall (omega arith) (omega arith)
