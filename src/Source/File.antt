-- ===== src/Source/File.antt =====
-- `FileDataSource`: the entries of a binary file, over the bytes that are still to be read.
pub mod RoundTrip
use featcache.Common.{ℕ, ◌/◌, List, [], Option, none, some}
use featcache.Protocol.{
  eof, unexpected_eof, write_error, os_error, read_full, Result, ok, err, ◌>>=◌,
}
use featcache.Source.{DataSource, Next, entry, end_of_data, failed, crashed, from_le}

-- An entry behind its key length. io.EOF inside an entry is not `ErrEOF`.
unfoldable pub read_entry : ℕ → List ℕ → Result (List ℕ × List ℕ × List ℕ)
read_entry key_len rest₁ = do
  (key, rest₂) ← read_full key_len rest₁
  (val_header, rest₃) ← read_full 4 rest₂
  (value, rest₄) ← read_full (from_le val_header) rest₃
  ok (key, value, rest₄)

unfoldable pub finish : Result (List ℕ × List ℕ × List ℕ) → List ℕ × Next
finish (ok (key, value, rest)) = (rest, entry key value)
finish (err e) = ([], failed e)

-- What the header read decides: only io.EOF before its first byte is the end of the data.
unfoldable pub with_header : Result (List ℕ × List ℕ) → List ℕ × Next
with_header (ok (key_header, rest)) = finish (read_entry (from_le key_header) rest)
with_header (err eof) = ([], end_of_data)
with_header (err unexpected_eof) = ([], failed unexpected_eof)
with_header (err write_error) = ([], failed write_error)
with_header (err (os_error n)) = ([], failed (os_error n))

-- The bytes that are left when `Next` fails do not matter: the caller stops.
unfoldable pub next_from : List ℕ → List ℕ × Next
next_from stream = with_header (read_full 4 stream)

-- What the operating system answers for a path: `os.Open` with the contents, and the size that
-- `Stat` reports.
pub record Files : Type 0 where
  pub open_file : List ℕ → Result (List ℕ)
  pub stat_size : List ℕ → Result ℕ

-- `br` is nil before `Open`.
pub record FileDataSource : Type 0 where
  pub path : List ℕ
  pub br : Option (List ℕ)

unfoldable pub new_file_data_source : List ℕ → FileDataSource
new_file_data_source path = record { path = path; br = none }

-- Where `Stat` fails the reader is set all the same.
unfoldable pub open_source : Files → FileDataSource → FileDataSource × Result ℕ
open_source files ds = elim (files.open_file ds.path) [
  | err e ↦ (ds, err e)
  | ok contents ↦
      (record ds { br = some contents }, (do size ← files.stat_size ds.path; ok (size / 8)))
]

-- `Next` on a nil reader panics.
unfoldable pub next : FileDataSource → FileDataSource × Next
next ds = elim ds.br [
  | none ↦ (ds, crashed)
  | some stream ↦ let (rest, answer) = next_from stream in (record ds { br = some rest }, answer)
]

-- `Close` changes no field; the file's own `Close` is the operating system's.
unfoldable pub file_source : Files → DataSource FileDataSource
unfolding open_source next
file_source files = record { open_source = open_source files; next = next; close_source = λ ds. ds }
