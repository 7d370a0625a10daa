-- ===== src/Table/Chunk.antt =====
-- A key and its value in the data region, and what the comparison and the read of a slot that points
-- to them answer.
use featcache.Common.{ℕ, ◌+◌, ◌≤◌, ◌≡◌, refl, true, List, length, arith, ==_iff, le→leb}
use featcache.Memory.{Memory, load_le, slice}
use featcache.Table.Refine.{equal_bytes_iff}
use featcache.Table.View.{matches, value_at}
use featcache.Table.{HashTable}

-- The data region holds key and value at this offset: [keyLen:4B][key][value].
pub record IsChunk (ht : HashTable) (m : Memory) (offset : ℕ) (key value : List ℕ) : Type 0 where
  pub fits : ht.data_base + offset + 4 + length key + length value ≤ m.size
  pub key_len : load_le 4 m (ht.data_base + offset) ≡ length key
  pub key_bytes : slice (length key) m (ht.data_base + offset + 4) ≡ key
  pub value_bytes : slice (length value) m (ht.data_base + offset + 4 + length key) ≡ value

module _ {ht : HashTable} {m : Memory} {offset : ℕ} {key value : List ℕ}
    (c : IsChunk ht m offset key value) where
  pub matches-IsChunk : matches ht m offset key ≡ true
  unfolding matches
  matches-IsChunk =
      rw
        (
          le→leb (ht.data_base + offset + 4 + length key) m.size (omega (arith, c.fits)),
          (==_iff _ _).1 c.key_len,
          c.key_bytes,
        )
        ((equal_bytes_iff key key).1 refl)

  pub value_at-IsChunk : value_at ht m offset (length value) ≡ value
  unfolding value_at
  value_at-IsChunk =
      rw
        (
          c.key_len,
          le→leb (ht.data_base + offset + 4) m.size (omega (arith, c.fits)),
          le→leb (ht.data_base + offset + 4 + length key + length value) m.size c.fits,
        )
        c.value_bytes
