-- ===== src/Segment.antt =====
-- pkg/shm/segment.go: a handle to a segment. The bytes are shared by every holder of the mapping; a
-- component that writes returns the segment with the new bytes.
pub mod Linux
pub mod Elsewhere
use featcache.Common.{ℕ, Bool, true, false, List, if◌then◌else◌}
use featcache.Memory.{Memory}

-- `attached` says that `data` is not nil; a nil slice has no bytes.
pub record Segment : Type 0 where
  pub name : List ℕ
  pub bytes : Memory
  pub attached : Bool
  pub cap : ℕ
  pub mapped : Bool
  pub backed_by_file : Bool

abbrev pub no_bytes : Memory
no_bytes = record { size = 0; byte = λ j. 0 }

-- `Data()`
unfoldable pub data_of : Segment → Memory
data_of s = if s.attached then s.bytes else no_bytes

unfoldable pub borrow : Segment → Segment
borrow s = record s { backed_by_file = false }

-- `NewInMemorySegment`: `make` gives zero bytes.
unfoldable pub new_in_memory_segment : List ℕ → ℕ → Segment
new_in_memory_segment name size = record {
  name = name;
  bytes = record { size = size; byte = λ j. 0 };
  attached = true;
  cap = size;
  mapped = false;
  backed_by_file = false;
}
