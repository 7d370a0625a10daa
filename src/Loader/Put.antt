-- ===== src/Loader/Put.antt =====
-- What `put` does to the map that the segment stands for.
use native.Mathlib.Decide.{dec_lt}
use featcache.Loader.Outcome.{
  chunk_size, claimed, lookup, answer, index_chunk-insert, IsPanic, IsRegionFull, IsHashFull,
  IsAdded, put_negative_panics,
}
use featcache.Common.{
  ℕ, ◌+◌, ◌-◌, ◌%◌, ◌*◌, ◌≤◌, ◌<◌, ◌^◌, ◌≡◌, ◌∙◌, refl, ap, ◌⊎◌, inl, inr, none, some, List, length,
  arith, ok, panic, ltb, ◌==◌, if◌then◌else◌, ◌>>=◌, lt→ltb, ltb→lt, ltb→le, le→ltb, Bool-cases,
  ==_iff,
}
use featcache.Hash.{hash_key_with_seed}
use featcache.Hash.Laws.{hash_key_with_seed-lt}
use featcache.Layout.{slot_size}
use featcache.Loader.Chunk.{
  chunked, write_chunk-chunked, chunked-Differs, chunked_len, chunked_key, chunked_value,
}
use featcache.Loader.Frame.{IsStored, same_slot, frame-IsWellFormed, frame-IsStored, frame-get}
use featcache.Loader.Ready.{IsHeaded, IsReady, IsHeaded-Differs, data_of-attached}
use featcache.Loader.{Loader, data_region_full, with_bytes, write_chunk, index_chunk, put}
use featcache.Memory.{Memory, load_le}
use featcache.Memory.Words.{Differs, Differs-trans, Differs-wider, Differs-refl, load_le-Differs}
use featcache.Table.Chunk.{IsChunk}
use featcache.Table.Free.{free_slots, free_slots-same}
use featcache.Table.Insert.{Inserted, insert-refines}
use featcache.Table.Refine.{IsWellFormed, equal_bytes_iff}
use featcache.Table.View.{slot_at, equal_bytes}
use featcache.Table.{HashTable, get, insert}

module _ {l : Loader} {ht : HashTable} {log seed : ℕ} (ready : IsReady l ht log seed) (pkg_seed : ℕ)
    (key value : List ℕ) (small : chunk_size key value < 2 ^ 31) where
  abbrev m : Memory
  m = l.segment.bytes

  -- Where nothing overflows, the chunk goes to the end of the data.
  put-eq :
      l.data_end < 2 ^ 31
      → put l pkg_seed key value ≡ (
          if ltb m.size (l.data_end + chunk_size key value)
          then ok (some data_region_full, claimed l key value)
          else (do
            m₁ ← write_chunk m l.data_end key value
            index_chunk (with_bytes (claimed l key value) m₁) pkg_seed l.data_end key value))
  unfolding put
  put-eq below =
      let inside = ready.inside in
      let bounded = ready.bounded in
      let no_wrap : (l.data_end + chunk_size key value) % 2 ^ 32
          ≡ l.data_end + chunk_size key value =
        omega arith in
      let chunk_no_wrap : chunk_size key value % 2 ^ 32 ≡ chunk_size key value = omega arith in
      let back : (l.data_end + chunk_size key value + 2 ^ 32 - chunk_size key value) % 2 ^ 32
          ≡ l.data_end =
        omega arith in
      rw
        (
          data_of-attached l.segment ready.attached,
          no_wrap,
          chunk_no_wrap,
          back,
          lt→ltb l.data_end (2 ^ 31) (omega arith),
        )
        refl

  module _ (fits : l.data_end + chunk_size key value ≤ m.size) where
    written_at : l.data_end + 4 + length key + length value ≤ m.size
    written_at = omega (arith, fits)

    key_lt : length key < 2 ^ 32
    key_lt = omega (arith, small)

    with_chunk : Memory
    with_chunk = chunked m l.data_end key value written_at key_lt

    chunk_Differs : Differs l.data_end (l.data_end + 4 + length key + length value) m with_chunk
    unfolding with_chunk
    chunk_Differs = chunked-Differs m l.data_end key value written_at key_lt

    formed : IsWellFormed ht log with_chunk
    formed = frame-IsWellFormed ready.formed ready.stored ready.after chunk_Differs

    headed : IsHeaded ht seed with_chunk
    headed =
        IsHeaded-Differs
          (let fit = ready.formed.laid.slots_fit in omega (arith, ready.headed.behind, ready.after))
          chunk_Differs ready.headed

    offset : ℕ
    offset = l.data_end - ht.data_base

    offset_base : ht.data_base + offset ≡ l.data_end
    unfolding offset
    offset_base = omega (arith, ready.after)

    with_chunk-IsChunk : IsChunk ht with_chunk offset key value
    unfolding with_chunk
    with_chunk-IsChunk = record {
      fits = omega (arith, offset_base, chunk_Differs.same_size, written_at);
      key_len = rw offset_base (chunked_len m l.data_end key value written_at key_lt);
      key_bytes = rw offset_base (chunked_key m l.data_end key value written_at key_lt);
      value_bytes = rw offset_base (chunked_value m l.data_end key value written_at key_lt);
    }

    below : l.data_end < 2 ^ 31
    below = let bounded = ready.bounded in omega (arith, fits)

    put_inserts : put l pkg_seed key value ≡ (
        insert ht with_chunk (hash_key_with_seed key seed) offset (length value)
        >>= answer (with_bytes (claimed l key value) with_chunk))
    unfolding with_chunk offset
    put_inserts =
        put-eq below
        ∙ rw
            (
              le→ltb m.size (l.data_end + chunk_size key value) fits,
              write_chunk-chunked m l.data_end key value written_at key_lt,
            )
            (index_chunk-insert (with_bytes (claimed l key value) with_chunk) ready.attached headed
              pkg_seed l.data_end key value (let size = chunk_Differs.same_size in omega arith)
              ready.after (let bounded = ready.bounded in omega (arith, fits))
              (omega (arith, small)) ready.handle)

    -- The loader with what `Insert` made of the bytes, where they differ in slots only.
    module _ (m' : Memory)
        (d : Differs ht.slot_base (ht.slot_base + ht.capacity * slot_size) with_chunk m')
        (wf' : IsWellFormed ht log m')
        (slots : (i : ℕ)
          → (slot_at ht m' i ≡ slot_at ht with_chunk i)
            ⊎ (((slot_at ht m' i).offset ≡ offset) × ((slot_at ht m' i).vlen ≡ length value))) where
      chunk_still :
          (o : ℕ) → load_le 4 m' (ht.data_base + o) ≡ load_le 4 with_chunk (ht.data_base + o)
      chunk_still o =
          let fit = formed.laid.slots_fit in
          load_le-Differs 4 (ht.data_base + o) d (inr (omega arith))

      stored' : IsStored ht m' (l.data_end + chunk_size key value)
      stored' i lt used = elim (slots i) [
        | inl same ↦
            let before =
              frame-IsStored ready.formed ready.stored ready.after chunk_Differs i lt
                (rw same at used) in
            rw (same, chunk_still (slot_at ht with_chunk i).offset) (omega (arith, before))
        | inr (o, v) ↦
            rw (o, v, chunk_still offset) (omega (arith, offset_base, with_chunk-IsChunk.key_len))
      ]

      updated-IsReady : IsReady (with_bytes (claimed l key value) m') ht log seed
      updated-IsReady = record {
        handle = ready.handle;
        attached = ready.attached;
        bounded = rw (d.same_size, chunk_Differs.same_size) ready.bounded;
        headed = IsHeaded-Differs ready.headed.behind d headed;
        formed = wf';
        after = omega (arith, ready.after);
        inside = rw (d.same_size, chunk_Differs.same_size) fits;
        stored = stored';
      }

    abbrev hash : ℕ
    hash = hash_key_with_seed key seed

    still-IsAbsent : lookup ht l seed key ≡ ok none → get ht with_chunk hash key ≡ ok none
    still-IsAbsent absent =
        frame-get ready.formed ready.stored ready.after chunk_Differs hash key ∙ absent

    -- A lookup by key after the insertion.
    lookup-Inserted :
        (m' : Memory)
        → Inserted ht log with_chunk hash offset key value m'
        → (k : List ℕ)
        → lookup ht (with_bytes (claimed l key value) m') seed k
          ≡ (if equal_bytes k key then ok (some value) else lookup ht l seed k)
    lookup-Inserted m' ins k =
        let before =
          frame-get ready.formed ready.stored ready.after chunk_Differs (hash_key_with_seed k seed)
            k in
        elim (Bool-cases (equal_bytes k key)) [
          | inl same ↦
              rw
                (ins.reads, before, same, (equal_bytes_iff k key).0 same, (==_iff hash hash).1 refl)
                refl
          | inr other ↦
              rw (ins.reads, before, other)
                (elim (Bool-cases (hash_key_with_seed k seed == hash)) [
                  | inl e ↦ rw e refl
                  | inr e ↦ rw e refl
                ])
        ]

    wide_Differs : Differs ht.slot_base m.size m with_chunk
    wide_Differs =
        let fit = ready.formed.laid.slots_fit in
        Differs-wider (omega (arith, ready.after)) (omega (arith, written_at)) chunk_Differs

    -- The chunk takes no slot.
    same_free : free_slots ht with_chunk ≡ free_slots ht m
    same_free =
        free_slots-same ht m with_chunk
          (same_slot ready.formed ready.stored ready.after chunk_Differs)

    put_in_room :
        lookup ht l seed key ≡ ok none
        → IsHashFull l ht log seed pkg_seed key value ⊎ IsAdded l ht log seed pkg_seed key value
    put_in_room absent =
        elim (insert-refines formed hash with_chunk-IsChunk (still-IsAbsent absent)
          (hash_key_with_seed-lt key seed ready.headed.seed_lt)
          (let bounded = ready.bounded in omega (arith, offset_base, fits))
          (omega (arith, small))) [
            | inl (run, full) ↦ inl (
              with_bytes (claimed l key value) with_chunk,
              put_inserts
                  ∙ ap (λ r. r >>= answer (with_bytes (claimed l key value) with_chunk)) run,
              updated-IsReady with_chunk Differs-refl formed (λ i. inl refl),
              (λ k. frame-get ready.formed ready.stored ready.after chunk_Differs _ k),
              full,
              wide_Differs,
              same_free,
            )
            | inr (m', run, ins) ↦ inr (
              with_bytes (claimed l key value) m',
              put_inserts
                  ∙ ap (λ r. r >>= answer (with_bytes (claimed l key value) with_chunk)) run,
              updated-IsReady m' ins.elsewhere ins.well_formed ins.slots,
              lookup-Inserted m' ins,
              Differs-trans wide_Differs (
                  let fit = ready.formed.laid.slots_fit in
                  Differs-wider (omega arith) (omega (arith, ready.after, ready.inside))
                    ins.elsewhere),
              ins.room ∙ same_free,
              refl,
            )
          ]

  past_int32 : l.data_end ≡ 2 ^ 31 → put l pkg_seed key value ≡ panic
  past_int32 e =
      let bounded = ready.bounded in
      put_negative_panics l pkg_seed key value ready.attached (omega arith) (omega arith)
        (let inside = ready.inside in omega (arith, small)) (omega (arith, small))

  put_below :
      l.data_end < 2 ^ 31
      → lookup ht l seed key ≡ ok none
      → IsRegionFull l pkg_seed key value
        ⊎ (IsHashFull l ht log seed pkg_seed key value ⊎ IsAdded l ht log seed pkg_seed key value)
  put_below below absent = elim (Bool-cases (ltb m.size (l.data_end + chunk_size key value))) [
    | inl over ↦
        inl (put-eq below ∙ rw over refl, ltb→lt m.size (l.data_end + chunk_size key value) over)
    | inr room ↦ inr (put_in_room (ltb→le m.size (l.data_end + chunk_size key value) room) absent)
  ]

  -- For a loader that is ready, a key that a lookup misses and a chunk below 2 GiB, `put` ends in
  -- one of four ways. The data ends at 2 GiB, where the int32 position is negative, and it panics;
  -- or there is no room behind the data, and the segment is as it was; or every slot is taken, and
  -- every lookup answers as before; or it succeeds, and this key and no other has the value. In the
  -- last two cases the loader is ready again.
  pub put-refines :
      lookup ht l seed key ≡ ok none
      → IsPanic l pkg_seed key value
        ⊎ (IsRegionFull l pkg_seed key value
            ⊎ (IsHashFull l ht log seed pkg_seed key value
                ⊎ IsAdded l ht log seed pkg_seed key value))
  put-refines absent = elim (dec_lt l.data_end (2 ^ 31)) [
    | yes below ↦ inr (put_below below absent)
    | no past ↦
        let inside = ready.inside in
        let bounded = ready.bounded in
        let exact : l.data_end ≡ 2 ^ 31 = omega arith in inl (past_int32 exact, exact)
  ]
