-- ===== src/Source/File/RoundTrip.antt =====
-- The documented format of an entry, and that `Next` reads it.
use featcache.Common.{
  some, All, ℕ, zero, suc, ◌/◌, ◌%◌, ◌^◌, ◌<◌, ◌≡◌, ◌∙◌, refl, sym, ap, List, [], ◌∷◌, ◌++◌, length,
  append_assoc, arith,
}
use featcache.Protocol.{read_full, ok}
use featcache.Protocol.RoundTrip.{read_full-append}
use featcache.Source.Supply.{Entry, Supplies}
use featcache.Source.{Next, entry, end_of_data, from_le}
use featcache.Source.File.{
  read_entry, finish, with_header, next_from, Files, FileDataSource, next, file_source,
}

unfoldable pub to_le : ℕ → ℕ → List ℕ
to_le zero v = []
to_le (suc n) v = (v % 256) ∷ to_le n (v / 256)

-- [keyLen: uint32 LE][key][valueLen: uint32 LE][value]
abbrev pub entry_bytes : List ℕ → List ℕ → List ℕ
entry_bytes key value = to_le 4 (length key) ++ (key ++ (to_le 4 (length value) ++ value))

length-to_le : (n v : ℕ) → length (to_le n v) ≡ n
unfolding to_le
length-to_le zero v = refl
length-to_le (suc n) v = omega (arith, length-to_le n (v / 256))

from_le-to_le : (v : ℕ) → v < 2 ^ 32 → from_le (to_le 4 v) ≡ v
unfolding from_le to_le
from_le-to_le v h = omega arith

append_three : (xs ys zs rest : List ℕ) → (xs ++ (ys ++ zs)) ++ rest ≡ xs ++ (ys ++ (zs ++ rest))
append_three xs ys zs rest =
    append_assoc xs (ys ++ zs) rest ∙ ap (λ t. xs ++ t) (append_assoc ys zs rest)

read_entry_parts :
    (key header value rest₁ rest₂ rest₃ rest₄ : List ℕ) (n : ℕ)
    → read_full n rest₁ ≡ ok (key, rest₂)
    → read_full 4 rest₂ ≡ ok (header, rest₃)
    → read_full (from_le header) rest₃ ≡ ok (value, rest₄)
    → read_entry n rest₁ ≡ ok (key, value, rest₄)
unfolding read_entry
read_entry_parts key header value rest₁ rest₂ rest₃ rest₄ n a b c = rw (a, b, c) refl

next_from_parts :
    (stream header rest₁ key value rest : List ℕ)
    → read_full 4 stream ≡ ok (header, rest₁)
    → read_entry (from_le header) rest₁ ≡ ok (key, value, rest)
    → next_from stream ≡ (rest, entry key value)
unfolding next_from with_header finish
next_from_parts stream header rest₁ key value rest a b = ap with_header a ∙ ap finish b

module _ (key value rest : List ℕ) (key_lt : length key < 2 ^ 32)
    (value_lt : length value < 2 ^ 32) where
  read_entry-bytes :
      read_entry
        (from_le (to_le 4 (length key)))
        (key ++ (to_le 4 (length value) ++ (value ++ rest)))
      ≡ ok (key, value, rest)
  read_entry-bytes =
      let header = to_le 4 (length value) in
      read_entry_parts key header value _ (header ++ (value ++ rest)) (value ++ rest) rest _
        (read_full-append key _ _ (sym (from_le-to_le (length key) key_lt)))
        (read_full-append header (value ++ rest) 4 (length-to_le 4 (length value)))
        (read_full-append value rest _ (sym (from_le-to_le (length value) value_lt)))

  -- `Next` reads an entry in the documented format, and leaves the file behind it.
  pub next_from-entry_bytes : next_from (entry_bytes key value ++ rest) ≡ (rest, entry key value)
  next_from-entry_bytes =
      let header = to_le 4 (length key) in
      let tail = to_le 4 (length value) ++ value in
      next_from_parts (entry_bytes key value ++ rest) header
        (key ++ (to_le 4 (length value) ++ (value ++ rest))) key value rest
        (ap (read_full 4) (
            append_assoc header (key ++ tail) rest
            ∙ ap (λ t. header ++ t) (append_three key (to_le 4 (length value)) value rest))
          ∙ read_full-append header _ 4 (length-to_le 4 (length key)))
        read_entry-bytes

-- A file in the documented format.
abbrev pub file_bytes : List Entry → List ℕ
file_bytes [] = []
file_bytes ((key, value) ∷ es) = entry_bytes key value ++ file_bytes es

-- Every length fits its four bytes.
abbrev pub FitsWords : List Entry → Type 0
FitsWords es = All (λ e. (length e.0 < 2 ^ 32) × (length e.1 < 2 ^ 32)) es

-- The source with so much of the file left.
abbrev pub at_bytes : List ℕ → List ℕ → FileDataSource
at_bytes path stream = record { path = path; br = some stream }

next-at_bytes :
    (path stream rest : List ℕ) (answer : Next)
    → next_from stream ≡ (rest, answer)
    → next (at_bytes path stream) ≡ (at_bytes path rest, answer)
unfolding next
next-at_bytes path stream rest answer e = rw e refl

no_bytes_left : next_from [] ≡ ([], end_of_data)
unfolding next_from with_header read_full
no_bytes_left = refl

-- An open file in the documented format, whose keys and values are shorter than 2^32 bytes,
-- supplies its entries, in order, and then ErrEOF.
pub file_source-Supplies :
    (files : Files) (path : List ℕ) (es : List Entry)
    → FitsWords es
    → Supplies (file_source files) (at_bytes path (file_bytes es)) es (at_bytes path [])
unfolding file_source
file_source-Supplies files path [] fits = next-at_bytes path [] [] end_of_data no_bytes_left
file_source-Supplies files path ((key, value) ∷ es) fits = (
  at_bytes path (file_bytes es),
  next-at_bytes path _ (file_bytes es) (entry key value)
      (next_from-entry_bytes key value (file_bytes es) fits.0.0 fits.0.1),
  file_source-Supplies files path es fits.1,
)
