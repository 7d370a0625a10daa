-- ===== src/Reader.antt =====
-- pkg/featcache/reader.go: lookups in a mapped segment. The handle keeps no copy of the bytes: it
-- reads those that the segment has at the time of the call.
pub mod Batch
pub mod Agree
pub mod Loaded
pub mod Connect
mod Examples
use featcache.Common.{
  ℕ, Bool, true, false, List, [], ◌∷◌, Option, none, some, Run, ok, panic, ◌>>=◌,
}
use featcache.Hash.{hash_key_with_seed, header_hash_seed}
use featcache.Header.{header_of}
use featcache.Memory.{Memory}
use featcache.Segment.{Segment, data_of}
use featcache.Table.{HashTable, new_hash_table}
use featcache.Table

-- The read path; `mu`, `conn` and `closed` belong to the control plane.
pub record Reader : Type 0 where
  pub segment : Segment
  pub hash_table : HashTable
  pub seed : ℕ

-- `NewReaderFromSegment`, with `initHashTable`; `pkg_seed` is the seed of the process.
unfoldable pub new_reader_from_segment : ℕ → Segment → Run Reader
new_reader_from_segment pkg_seed seg = do
  let m = data_of seg
  hdr ← header_of m
  ok (record {
    segment = seg;
    hash_table = new_hash_table hdr.hash_offset hdr.data_offset hdr.hash_cap;
    seed = header_hash_seed pkg_seed m;
  })

-- `none` is the answer `(nil, false)`.
unfoldable pub get : Reader → List ℕ → Run (Option (List ℕ))
get r key = Table.get r.hash_table (data_of r.segment) (hash_key_with_seed key r.seed) key

-- The two slices of the answer, as pairs.
unfoldable pub get_batch : Reader → List (List ℕ) → Run (List (Option (List ℕ)))
get_batch r [] = ok []
get_batch r (key ∷ keys) = do found ← get r key; rest ← get_batch r keys; ok (found ∷ rest)

unfoldable pub gen_counter : Reader → Run ℕ
gen_counter r = do hdr ← header_of (data_of r.segment); ok hdr.gen_counter
