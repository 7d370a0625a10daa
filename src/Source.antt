-- ===== src/Source.antt =====
-- pkg/featcache/datasource.go: where the entries to load come from. A file is the bytes that are
-- still to be read; opening, closing and scanning it are parameters.
pub mod Supply
pub mod File
pub mod Line
pub mod Map
mod Examples
use featcache.Common.{
  ℕ, zero, suc, ◌+◌, ◌*◌, ◌/◌, List, [], ◌∷◌, ◌++◌, Option, none, some, length, get_elem?, ◌==◌,
  if◌then◌else◌,
}
use featcache.Protocol.{
  IoError, eof, unexpected_eof, write_error, read_full, Result, ok, err, ◌>>=◌,
}
use featcache.Table.View.{equal_bytes}

-- One answer of `Next`: an entry, `ErrEOF`, another error, or a panic.
pub data Next : Type 0 where
  entry : List ℕ → List ℕ → Next
  end_of_data : Next
  failed : IoError → Next
  crashed : Next

-- The interface: the source after each call, and what `Open` and `Next` answer. An error of `Close`
-- is dropped by the only caller.
pub record DataSource (S : Type 0) : Type 0 where
  pub open_source : S → S × Result ℕ
  pub next : S → S × Next
  pub close_source : S → S

-- `binary.LittleEndian.Uint32` on the bytes read.
unfoldable pub from_le : List ℕ → ℕ
from_le [] = 0
from_le (b ∷ bs) = b + 256 * from_le bs
