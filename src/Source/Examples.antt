-- ===== src/Source/Examples.antt =====
-- The data sources at concrete files.
use featcache.Common.{ℕ, ◌≡◌, refl, List, [], ◌∷◌, map, arith}
use featcache.Protocol
use featcache.Protocol.{unexpected_eof, read_full}
use featcache.Source.File.RoundTrip.{file_bytes, at_bytes, file_source-Supplies}
use featcache.Source.File.{Files, file_source, next_from, with_header, finish, read_entry}
use featcache.Source.Line.{
  Scanned, scanned_line, no_more, Scanning, split, line_source, at_scanner, line_source-Supplies,
  split-tab,
}
use featcache.Source.Map.{map_source, map_get, new_map_data_source, map_source-Supplies}
use featcache.Source.Supply.{Entry, Supplies}
use featcache.Source.{failed, from_le}

abbrev two_entries : List Entry
two_entries = (b'a' ∷ [], 1 ∷ 2 ∷ []) ∷ (b'b' ∷ [], []) ∷ []

abbrev no_files : Files
no_files = record {
  open_file = λ path. Protocol.err (Protocol.os_error 2);
  stat_size = λ path. Protocol.err (Protocol.os_error 2);
}

file_source-Supplies_example :
    Supplies
      (file_source no_files)
      (at_bytes [] (file_bytes two_entries))
      two_entries
      (at_bytes [] [])
file_source-Supplies_example =
    file_source-Supplies no_files [] two_entries
      ((omega arith, omega arith), ((omega arith, omega arith), tt))

-- A file that ends inside the length of a value.
cut_off : next_from (1 ∷ 0 ∷ 0 ∷ 0 ∷ b'a' ∷ 2 ∷ 0 ∷ []) ≡ ([], failed unexpected_eof)
unfolding next_from with_header finish read_entry read_full from_le
cut_off = refl

abbrev two_lines : List (List ℕ)
two_lines = (b'a' ∷ 9 ∷ b'1' ∷ []) ∷ (b'b' ∷ []) ∷ []

abbrev scan_list : List (List ℕ) → List (List ℕ) × Scanned
scan_list [] = ([], no_more)
scan_list (bytes ∷ lines) = (lines, scanned_line bytes)

abbrev in_memory : Scanning (List (List ℕ))
in_memory = record { open_file = λ path. Protocol.ok two_lines; scan = scan_list }

line_source-Supplies_example :
    Supplies
      (line_source in_memory)
      (at_scanner in_memory [] two_lines 0)
      (map split two_lines)
      (at_scanner in_memory [] [] 2)
line_source-Supplies_example =
    line_source-Supplies in_memory [] two_lines [] 0 two_lines (_, refl, (_, refl, refl))

split_runs : map split two_lines ≡ (b'a' ∷ [], b'1' ∷ []) ∷ (b'b' ∷ [], []) ∷ []
unfolding split
split_runs = refl

abbrev both_keys : List (List ℕ)
both_keys = (b'b' ∷ []) ∷ (b'a' ∷ []) ∷ []

entries-Supplies :
    (map_source.open_source (new_map_data_source two_entries both_keys)
      ≡ (new_map_data_source two_entries both_keys, Protocol.ok 2))
    × Supplies map_source
        (new_map_data_source two_entries both_keys)
        (map (λ k. (k, map_get two_entries k)) both_keys)
        (record (new_map_data_source two_entries both_keys) { idx = 2 })
entries-Supplies = map_source-Supplies two_entries both_keys

split_two_tabs : split (b'a' ∷ 9 ∷ b'1' ∷ 9 ∷ []) ≡ (b'a' ∷ [], b'1' ∷ 9 ∷ [])
split_two_tabs = split-tab (b'a' ∷ []) (b'1' ∷ 9 ∷ []) (omega arith, tt)
