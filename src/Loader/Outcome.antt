-- ===== src/Loader/Outcome.antt =====
-- The outcomes of `put`, and its second half, which indexes the chunk.
use featcache.Common.{
  ℕ, ◌+◌, ◌-◌, ◌%◌, ◌≤◌, ◌<◌, ◌^◌, ◌≡◌, ◌≢◌, refl, sym, subst, Bool, true, Option, none, some, List,
  length, arith, Run, ok, panic, if◌then◌else◌, ◌>>=◌, le→ltb,
}
use featcache.Hash.{hash_key_with_seed}
use featcache.Header.Laws.{header_of-overlay}
use featcache.Header.{overlay}
use featcache.Loader.Ready.{IsHeaded, IsReady, header_hash_seed-IsHeaded, data_of-attached}
use featcache.Loader.{Loader, LoadError, data_region_full, hash_full, with_bytes, index_chunk, put}
use featcache.Memory.{Memory}
use featcache.Memory.Words.{Differs}
use featcache.Table.Free.{free_slots}
use featcache.Table.Probe.{hit}
use featcache.Table.Scan.{free_kind}
use featcache.Table.View.{equal_bytes}
use featcache.Table.{HashTable, get, insert}

-- The size of a chunk, and the loader once it has claimed the space.
abbrev pub chunk_size : List ℕ → List ℕ → ℕ
chunk_size key value = 4 + length key + length value

abbrev pub claimed : Loader → List ℕ → List ℕ → Loader
claimed l key value = record l { data_end = l.data_end + chunk_size key value }

-- The value of a key, as a process sees it that hashes with the seed.
abbrev pub lookup : HashTable → Loader → ℕ → List ℕ → Run (Option (List ℕ))
lookup ht l seed key = get ht l.segment.bytes (hash_key_with_seed key seed) key

-- The outcome of `put` from that of `Insert`.
abbrev pub answer : Loader → Bool × Memory → Run (Option LoadError × Loader)
answer l (done, m') = ok (if done then none else some hash_full, with_bytes l m')

module _ {ht : HashTable} {seed : ℕ} (l : Loader) (attached : l.segment.attached ≡ true)
    (headed : IsHeaded ht seed l.segment.bytes) (pkg_seed off : ℕ) (key value : List ℕ)
    (pos : 0 < l.segment.bytes.size) (after : ht.data_base ≤ off) (off_lt : off < 2 ^ 32)
    (value_lt : length value < 2 ^ 32) where
  -- The second half of `put`, with one handle or another.
  abbrev pub Indexes : Option HashTable → Type 0
  Indexes o = index_chunk (record l { hash_table = o }) pkg_seed off key value ≡ (
      insert ht l.segment.bytes (hash_key_with_seed key seed) (off - ht.data_base) (length value)
      >>= answer (record l { hash_table = o }))

  index_chunk-handle : Indexes (some ht)
  unfolding index_chunk overlay
  index_chunk-handle =
      let rel : (off % 2 ^ 32 + 2 ^ 32 - ht.data_base) % 2 ^ 32 ≡ off - ht.data_base =
        omega arith in
      let whole : length value % 2 ^ 32 ≡ length value = omega arith in
      rw
        (
          data_of-attached l.segment attached,
          header_of-overlay l.segment.bytes pos,
          header_hash_seed-IsHeaded pkg_seed headed,
          headed.base,
          rel,
          whole,
        )
        refl

  pub index_chunk-insert : l.hash_table ≡ some ht → Indexes l.hash_table
  index_chunk-insert handle = subst Indexes (sym handle) index_chunk-handle

-- The four outcomes of `put`. The position of the data is past the int32 range, and it panics:
abbrev pub IsPanic : Loader → ℕ → List ℕ → List ℕ → Type 0
IsPanic l pkg_seed key value = (put l pkg_seed key value ≡ panic) × (l.data_end ≡ 2 ^ 31)

-- there was no room behind the data:
abbrev pub IsRegionFull : Loader → ℕ → List ℕ → List ℕ → Type 0
IsRegionFull l pkg_seed key value =
    (put l pkg_seed key value ≡ ok (some data_region_full, claimed l key value))
    × (l.segment.bytes.size < l.data_end + chunk_size key value)

-- every slot was taken, and lookups answer as before;
abbrev pub IsHashFull : Loader → HashTable → ℕ → ℕ → ℕ → List ℕ → List ℕ → Type 0
IsHashFull l ht log seed pkg_seed key value =
    (l' : Loader) × (put l pkg_seed key value ≡ ok (some hash_full, l'))
    × IsReady l' ht log seed
    × ((k : List ℕ) → lookup ht l' seed k ≡ lookup ht l seed k)
    × ((i : ℕ) → i < ht.capacity → free_kind ht l'.segment.bytes i ≢ hit)
    × Differs ht.slot_base l.segment.bytes.size l.segment.bytes l'.segment.bytes
    × (free_slots ht l'.segment.bytes ≡ free_slots ht l.segment.bytes)

-- or the key, and no other, has the value now, and takes one slot that was free
-- and the room of its chunk.
abbrev pub IsAdded : Loader → HashTable → ℕ → ℕ → ℕ → List ℕ → List ℕ → Type 0
IsAdded l ht log seed pkg_seed key value =
    (l' : Loader) × (put l pkg_seed key value ≡ ok (none, l'))
    × IsReady l' ht log seed
    × ((k : List ℕ)
        → lookup ht l' seed k ≡ (if equal_bytes k key then ok (some value) else lookup ht l seed k))
    × Differs ht.slot_base l.segment.bytes.size l.segment.bytes l'.segment.bytes
    × (free_slots ht l'.segment.bytes + 1 ≡ free_slots ht l.segment.bytes)
    × (l'.data_end ≡ l.data_end + chunk_size key value)

-- Where the bit pattern of `dataEnd` is that of a negative int32.
pub put_negative_panics :
    (l : Loader) (pkg_seed : ℕ) (key value : List ℕ)
    → l.segment.attached ≡ true
    → 2 ^ 31 ≤ l.data_end
    → l.data_end < 2 ^ 32
    → l.data_end + chunk_size key value ≤ l.segment.bytes.size + 2 ^ 32
    → chunk_size key value < 2 ^ 31
    → put l pkg_seed key value ≡ panic
unfolding put
put_negative_panics l pkg_seed key value attached negative word short small =
    let back : ((l.data_end + chunk_size key value) % 2 ^ 32
            + 2 ^ 32
            - chunk_size key value % 2 ^ 32)
          % 2 ^ 32
        ≡ l.data_end =
      omega arith in
    rw
      (
        data_of-attached l.segment attached,
        back,
        le→ltb l.data_end (2 ^ 31) negative,
        le→ltb (l.segment.bytes.size + 2 ^ 32) (l.data_end + chunk_size key value) short,
      )
      refl
