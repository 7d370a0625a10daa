-- ===== src/Header.antt =====
-- pkg/featcache/header.go: the header as an overlay on the first bytes of the segment. The fields
-- of `Header` stand at fixed offsets in little-endian order. Taking `&seg.Data()[0]` panics on an
-- empty segment; an access through the pointer is not checked any more.
pub mod Laws
mod Examples
use featcache.Common.{ℕ, ltb, if◌then◌else◌, Run, ok, panic}
use featcache.Layout.{Header, magic, version, header_size}
use featcache.Memory.{Memory, load_le, store_le, slice}

abbrev pub gen_counter_off : ℕ
gen_counter_off = 16

abbrev pub hash_cap_off : ℕ
hash_cap_off = 24

abbrev pub hash_offset_off : ℕ
hash_offset_off = 28

abbrev pub data_offset_off : ℕ
data_offset_off = 32

-- The fields as they stand in memory.
unfoldable pub overlay : Memory → Header
overlay m = record {
  magic_field = load_le 4 m 0;
  version_field = load_le 4 m 4;
  size = load_le 8 m 8;
  gen_counter = load_le 8 m gen_counter_off;
  hash_cap = load_le 4 m hash_cap_off;
  hash_offset = load_le 4 m hash_offset_off;
  data_offset = load_le 4 m data_offset_off;
  data_end = load_le 4 m 36;
  segment_id = load_le 4 m 40;
  flags = load_le 4 m 44;
  reserved = slice 16 m 48;
}

unfoldable pub header_of : Memory → Run Header
header_of m = if ltb 0 m.size then ok (overlay m) else panic

-- The ten assignments of `Init`, in order.
unfoldable pub write_header : Memory → ℕ → ℕ → ℕ → Memory
write_header m seg_size hash_cap data_offset =
    let m₁ = store_le 4 m 0 magic in
    let m₂ = store_le 4 m₁ 4 version in
    let m₃ = store_le 8 m₂ 8 seg_size in
    let m₄ = store_le 8 m₃ gen_counter_off 0 in
    let m₅ = store_le 4 m₄ hash_cap_off hash_cap in
    let m₆ = store_le 4 m₅ hash_offset_off header_size in
    let m₇ = store_le 4 m₆ data_offset_off data_offset in
    let m₈ = store_le 4 m₇ 36 data_offset in let m₉ = store_le 4 m₈ 40 0 in store_le 4 m₉ 44 0
