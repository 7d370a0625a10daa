-- ===== src/Loader/Chunk.antt =====
-- `put` writes a chunk: [keyLen:4B][key][value].
use featcache.Common.{ℕ, ◌+◌, ◌≤◌, ◌<◌, ◌^◌, ◌≡◌, ◌∙◌, refl, inl, List, length, arith, ok, le→leb}
use featcache.Memory.{Memory, store_le, load_le, copy, put_le, slice}
use featcache.Memory.Words.{
  Differs, Differs-trans, Differs-wider, store_le-Differs, load-store_le, load_le-Differs,
  copy-Differs, slice-copy, slice-Differs, size-store_le,
}
use featcache.Loader.{write_chunk}

module _ (m : Memory) (off : ℕ) (key value : List ℕ)
    (fits : off + 4 + length key + length value ≤ m.size) (key_lt : length key < 2 ^ 32) where
  sized : Memory
  sized = store_le 4 m off (length key)

  keyed : Memory
  keyed = copy sized (off + 4) key

  pub chunked : Memory
  chunked = copy keyed (off + 4 + length key) value

  keyed_size : keyed.size ≡ m.size
  unfolding keyed sized
  keyed_size = (copy-Differs sized (off + 4) key).same_size ∙ size-store_le 4 m off (length key)

  pub write_chunk-chunked : write_chunk m off key value ≡ ok chunked
  unfolding write_chunk put_le chunked keyed sized
  write_chunk-chunked = rw (le→leb (off + 4) m.size (omega arith)) refl

  -- Only the bytes of the chunk are written.
  pub chunked-Differs : Differs off (off + 4 + length key + length value) m chunked
  unfolding chunked keyed sized
  chunked-Differs =
      Differs-trans
        (Differs-wider (omega arith) (omega arith) (store_le-Differs 4 m off (length key)))
        (Differs-trans
          (Differs-wider (omega arith) (omega arith) (copy-Differs sized (off + 4) key))
          (Differs-wider (omega arith) (omega arith)
            (copy-Differs keyed (off + 4 + length key) value)))

  pub chunked_len : load_le 4 chunked off ≡ length key
  unfolding chunked keyed sized
  chunked_len = omega (
    arith,
    load_le-Differs 4 off (copy-Differs keyed (off + 4 + length key) value) (inl (omega arith)),
    load_le-Differs 4 off (copy-Differs sized (off + 4) key) (inl (omega arith)),
    load-store_le 4 m off (length key),
  )

  pub chunked_key : slice (length key) chunked (off + 4) ≡ key
  unfolding chunked keyed
  chunked_key =
      slice-Differs (length key) (off + 4) (copy-Differs keyed (off + 4 + length key) value)
        (inl (omega arith))
      ∙ slice-copy sized (off + 4) key
          (unfold sized in omega (arith, size-store_le 4 m off (length key)))

  pub chunked_value : slice (length value) chunked (off + 4 + length key) ≡ value
  unfolding chunked
  chunked_value = slice-copy keyed (off + 4 + length key) value (omega (arith, keyed_size))
