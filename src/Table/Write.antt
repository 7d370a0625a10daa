-- ===== src/Table/Write.antt =====
-- What the writes of `Insert` and `Delete` do to the slots, and that they leave the data alone.
use featcache.Common.{ℕ, ◌+◌, ◌^◌, ◌<◌, ◌≡◌, ◌≢◌, List, length, arith}
use featcache.Layout.{slot_used, slot_tomb}
use featcache.Memory.{Memory, load_le, store_le}
use featcache.Memory.Words.{
  Differs, Differs-trans, Differs-wider, store_le-Differs, load_le-Differs, slice-Differs,
  load-store_le, load-store_le_ne,
}
use featcache.Table.Scan.{written, buried}
use featcache.Table.View.{IsLaidOut, slot_at, matches, value_at}
use featcache.Table.{HashTable, slot_off}

module _ (ht : HashTable) (m : Memory) (i : ℕ) where
  module _ (hash offset vlen : ℕ) where
    pub written-Differs :
        Differs (slot_off ht i) (slot_off ht i + 24) m (written ht m i hash offset vlen)
    unfolding written
    written-Differs =
        let off = slot_off ht i in
        Differs-trans
          (Differs-trans
            (Differs-trans
              (Differs-wider (omega arith) (omega arith)
                (store_le-Differs 4 m (off + 16) slot_used))
              (Differs-wider (omega arith) (omega arith) (store_le-Differs 8 _ off hash)))
            (Differs-wider (omega arith) (omega arith) (store_le-Differs 4 _ (off + 8) offset)))
          (Differs-wider (omega arith) (omega arith) (store_le-Differs 4 _ (off + 12) vlen))

    pub slot_at-written_self :
        hash < 2 ^ 64
        → offset < 2 ^ 32
        → vlen < 2 ^ 32
        → slot_at ht (written ht m i hash offset vlen) i
          ≡ record { hash = hash; offset = offset; vlen = vlen; status = slot_used }
    unfolding slot_at written
    slot_at-written_self h o v =
        let off = slot_off ht i in
        let m₁ = store_le 4 m (off + 16) slot_used in
        let m₂ = store_le 8 m₁ off hash in
        let m₃ = store_le 4 m₂ (off + 8) offset in
        rw
          (
            load-store_le 4 m₃ (off + 12) vlen,
            load-store_le_ne 8 4 m₃ (off + 12) off vlen (omega arith),
            load-store_le_ne 4 4 m₃ (off + 12) (off + 8) vlen (omega arith),
            load-store_le_ne 4 4 m₃ (off + 12) (off + 16) vlen (omega arith),
            load-store_le 4 m₂ (off + 8) offset,
            load-store_le_ne 8 4 m₂ (off + 8) off offset (omega arith),
            load-store_le_ne 4 4 m₂ (off + 8) (off + 16) offset (omega arith),
            load-store_le 8 m₁ off hash,
            load-store_le_ne 4 8 m₁ off (off + 16) hash (omega arith),
            load-store_le 4 m (off + 16) slot_used,
          )
          (ground arith)

  pub buried-Differs : Differs (slot_off ht i) (slot_off ht i + 24) m (buried ht m i)
  unfolding buried
  buried-Differs =
      Differs-wider (omega arith) (omega arith)
        (store_le-Differs 4 m (slot_off ht i + 16) slot_tomb)

  pub slot_at-buried_self :
      slot_at ht (buried ht m i) i ≡ record (slot_at ht m i) { status = slot_tomb }
  unfolding slot_at buried
  slot_at-buried_self =
      let off = slot_off ht i in
      rw (
        load-store_le 4 m (off + 16) slot_tomb,
        load-store_le_ne 8 4 m (off + 16) off slot_tomb (omega arith),
        load-store_le_ne 4 4 m (off + 16) (off + 8) slot_tomb (omega arith),
        load-store_le_ne 4 4 m (off + 16) (off + 12) slot_tomb (omega arith),
      )

-- A write that stays within slot `i` is not seen by the other slots, nor by the chunks.
module _ (ht : HashTable) {m m' : Memory} (i : ℕ)
    (d : Differs (slot_off ht i) (slot_off ht i + 24) m m') where
  pub slot_at-Differs : (j : ℕ) → j ≢ i → slot_at ht m' j ≡ slot_at ht m j
  unfolding slot_at
  slot_at-Differs j ne =
      let off = slot_off ht j in
      rw (
        load_le-Differs 8 off d (omega arith),
        load_le-Differs 4 (off + 8) d (omega arith),
        load_le-Differs 4 (off + 12) d (omega arith),
        load_le-Differs 4 (off + 16) d (omega arith),
      )

  module _ {log : ℕ} (laid : IsLaidOut ht log m.size) (lt : i < ht.capacity) where
    pub matches-Differs : (o : ℕ) (key : List ℕ) → matches ht m' o key ≡ matches ht m o key
    unfolding matches
    matches-Differs o key =
        let chunk = ht.data_base + o in
        let fits = laid.slots_fit in
        simp (
          load_le-Differs 4 chunk d (omega arith),
          slice-Differs (length key) (chunk + 4) d (omega arith),
          d.same_size,
        )

    pub value_at-Differs : (o vlen : ℕ) → value_at ht m' o vlen ≡ value_at ht m o vlen
    unfolding value_at
    value_at-Differs o vlen =
        let chunk = ht.data_base + o in
        let fits = laid.slots_fit in
        simp (
          load_le-Differs 4 chunk d (omega arith),
          slice-Differs vlen (chunk + 4 + load_le 4 m chunk) d (omega arith),
          d.same_size,
        )
