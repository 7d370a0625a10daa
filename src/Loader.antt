-- ===== src/Loader.antt =====
-- pkg/featcache/loader.go: the write side. `dataEnd` is an int32, kept here as its bit pattern below
-- 2^32; `LoadFactor` is a float64 that no code reads, and is left out.
pub mod Frame
pub mod Before
pub mod Chunk
pub mod Ready
pub mod Outcome
pub mod Put
pub mod Init
pub mod Overflow
pub mod Load
pub mod Life
pub mod Examples
use featcache.Common.{
  ℕ, zero, suc, ◌+◌, ◌-◌, ◌*◌, ◌%◌, ◌^◌, Bool, true, false, ◌||◌, List, [], ◌∷◌, Option, none, some,
  length, leb, ltb, ◌==◌, if◌then◌else◌, Run, ok, panic, ◌>>=◌,
}
use featcache.Hash.{hash_key_with_seed, header_hash_seed, set_header_hash_seed}
use featcache.Header.{overlay, header_of, write_header, gen_counter_off}
use featcache.Layout.{
  u32, sub_u32, align, next_pow2, header_size, slot_size, max_key_len, segment_default_size,
}
use featcache.Memory.{Memory, store_le, load_le, copy, put_le}
use featcache.Segment.{Segment, data_of}
use featcache.Table.{HashTable, new_hash_table, init_hash_table, insert}

pub data LoadError : Type 0 where
  segment_too_small data_region_full hash_full : LoadError

pub record LoaderConfig : Type 0 where
  pub segment_name : List ℕ
  pub segment_size : ℕ

-- Sizes that are not positive become the default; a negative size is 0 here.
unfoldable pub defaults : LoaderConfig → LoaderConfig
defaults c = if c.segment_size == 0 then record c { segment_size = segment_default_size } else c

-- A nil `hashTable` is `none`.
pub record Loader : Type 0 where
  pub segment : Segment
  pub hash_table : Option HashTable
  pub config : LoaderConfig
  pub data_end : ℕ

unfoldable pub new_loader_with_segment : LoaderConfig → Segment → Loader
new_loader_with_segment config seg = record {
  segment = seg;
  hash_table = none;
  config = defaults config;
  data_end = 0;
}

-- The loader with new bytes in its segment.
abbrev pub with_bytes : Loader → Memory → Loader
with_bytes l m = record l { segment = record l.segment { bytes = m } }

-- `seed` is what `randSeed` draws. The error, if any, and the loader after the call.
unfoldable pub init : Loader → ℕ → ℕ → Run (Option LoadError × Loader)
init l expected seed =
    let seg_size = l.segment.cap in
    let slots_needed = u32 (u32 expected * 2) in
    let hash_cap = next_pow2 slots_needed in
    let hash_bytes = hash_cap * slot_size in
    let data_offset = align (u32 (header_size + u32 hash_bytes)) 8 in
    if leb seg_size data_offset then ok (some segment_too_small, l) else (do
      _ ← header_of (data_of l.segment)
      let m₁ = write_header (data_of l.segment) seg_size hash_cap data_offset
      let (m₂, _) = set_header_hash_seed m₁ seed
      (m₃, _) ← init_hash_table m₂ header_size hash_cap
      ok (
        none,
        record (with_bytes l m₃) {
          hash_table = some (new_hash_table header_size data_offset hash_cap);
          data_end = data_offset;
        },
      ))

-- `data[off:off+4]`, then the two copies, where `off` is not negative.
unfoldable pub write_chunk : Memory → ℕ → List ℕ → List ℕ → Run Memory
write_chunk m off key value = do
  m₁ ← put_le 4 m off (length key)
  let m₂ = copy m₁ (off + 4) key
  ok (copy m₂ (off + 4 + length key) value)

-- The second half of `put`, once the data is written at `off`.
unfoldable pub index_chunk : Loader → ℕ → ℕ → List ℕ → List ℕ → Run (Option LoadError × Loader)
index_chunk l pkg_seed off key value = do
  let m = data_of l.segment
  hdr ← header_of m
  let h = hash_key_with_seed key (header_hash_seed pkg_seed m)
  let rel_offset = sub_u32 (u32 off) hdr.data_offset
  elim l.hash_table [
    | none ↦ panic
    | some ht ↦ do
      (done, m') ← insert ht m h rel_offset (u32 (length value))
      ok (if done then none else some hash_full, with_bytes l m')
  ]

-- The int32 `data_off` is negative from 2^31 on: then the bound is compared with a negative number,
-- and slicing at it panics.
unfoldable pub put : Loader → ℕ → List ℕ → List ℕ → Run (Option LoadError × Loader)
put l pkg_seed key value =
    let m = data_of l.segment in
    let chunk_size = 4 + length key + length value in
    let new_end = u32 (l.data_end + chunk_size) in
    let data_off = sub_u32 new_end (u32 chunk_size) in
    let l₁ = record l { data_end = new_end } in
    if ltb data_off (2 ^ 31)
    then (if ltb m.size (data_off + chunk_size) then ok (some data_region_full, l₁) else (do
      m₁ ← write_chunk m data_off key value
      index_chunk (with_bytes l₁ m₁) pkg_seed data_off key value))
    else (if ltb (m.size + 2 ^ 32) (data_off + chunk_size)
        then ok (some data_region_full, l₁)
        else panic)
