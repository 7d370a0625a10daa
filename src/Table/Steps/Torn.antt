-- ===== src/Table/Steps/Torn.antt =====
-- What a reader sees just before the last store of `Insert`: the length of the value is not there
-- yet. The order of the stores is the code's: the slot is marked as used before it is filled.
use featcache.Common.{
  ℕ, zero, suc, ◌+◌, ◌^◌, ◌<◌, ◌≡◌, ◌∙◌, refl, ap, sym, fun_ext, inl, inr, true, ◌||◌, List, [],
  none, some, length, ◌==◌, le→leb, ok, Bool-cases, arith,
}
use featcache.Layout.{slot_empty, slot_used, slot_tomb}
use featcache.Memory.{Memory, poke, load_le, store_le, slice, put_le}
use featcache.Memory.Words.{load-store_le_ne, size-store_le}
use featcache.Table.Chunk.{IsChunk}
use featcache.Table.Insert.{written-Inserted}
use featcache.Table.Probe.{hit, Kind-cases, search, search-hit, search-eq_hit, search-eq_skip}
use featcache.Table.Refine.{IsWellFormed, same_entry_iff, free_kind_stop}
use featcache.Table.Scan.{free_kind, find_free, written, status_read, claim}
use featcache.Table.Steps.Runs.{insert_steps}
use featcache.Table.Steps.{probing, placed, returned, insert_step, insert_start}
use featcache.Table.View.{IsLaidOut, next-lt, home-lt, slot_at, cell-lt}
use featcache.Table.{HashTable, slot_off, home, next, get}

bytes_of_zero :
    (m : Memory) (o : ℕ)
    → load_le 4 m o ≡ 0
    → (m.byte o ≡ 0)
      × (m.byte (o + 1) ≡ 0)
      × (m.byte (o + 1 + 1) ≡ 0)
      × (m.byte (o + 1 + 1 + 1) ≡ 0)
unfolding load_le
bytes_of_zero m o e = (omega arith, omega arith, omega arith, omega arith)

zero_byte : (m : Memory) (o j : ℕ) → load_le 4 m o ≡ 0 → (store_le 4 m o 0).byte j ≡ m.byte j
unfolding store_le poke
zero_byte m o j e =
    let (a, b, c, d) = bytes_of_zero m o e in
    let at : (k : ℕ) → m.byte k ≡ 0 → j ≡ k → m.byte j ≡ 0 = λ k p q. ap m.byte q ∙ p in
    ground (arith, at o a, at (o + 1) b, at (o + 1 + 1) c, at (o + 1 + 1 + 1) d)

-- Zeros over zeros change nothing.
store_le-zero : (m : Memory) (o : ℕ) → load_le 4 m o ≡ 0 → store_le 4 m o 0 ≡ m
unfolding store_le poke
store_le-zero m o e = λ i. record { size = m.size; byte = fun_ext (λ j. zero_byte m o j e) i }

-- The bytes before the last store.
abbrev pub unfinished : HashTable → Memory → ℕ → ℕ → ℕ → Memory
unfinished ht m p hash offset =
    let off = slot_off ht p in
    store_le 4 (store_le 8 (store_le 4 m (off + 16) slot_used) off hash) (off + 8) offset

module _ {ht : HashTable} {log : ℕ} (m : Memory) (laid : IsLaidOut ht log m.size)
    (hash offset vlen : ℕ) where
  -- The four steps at the free slot.
  place :
      (rounds p : ℕ)
      → p < ht.capacity
      → free_kind ht m p ≡ hit
      → insert_steps ht hash offset vlen 4 (probing (suc rounds) p) m
        ≡ ok (placed p, unfinished ht m p hash offset)
  unfolding insert_steps insert_step free_kind put_le
  place rounds p lt free =
      let off = slot_off ht p in
      let fits = cell-lt m laid p lt in
      let status = (slot_at ht m p).status in
      elim (Bool-cases (status == slot_empty || status == slot_tomb)) [
        | inr taken ↦ cc (taken, free)
        | inl open_slot ↦ simp (
          status_read m laid p lt,
          open_slot,
          claim m laid p lt,
          size-store_le,
          le→leb (off + 8) m.size (omega arith),
          le→leb (off + 8 + 4) m.size (omega arith),
        )
      ]

  walk_to_free :
      (rounds idx p : ℕ)
      → idx < ht.capacity
      → search (next ht) (free_kind ht m) rounds idx ≡ some p
      → (n : ℕ) × (insert_steps ht hash offset vlen n (probing rounds idx) m
          ≡ ok (placed p, unfinished ht m p hash offset))
  unfolding insert_steps insert_step free_kind
  walk_to_free zero idx p lt found = unfold search in cc
  walk_to_free (suc rounds) idx p lt found =
      Kind-cases (free_kind ht m idx) (λ s. absurd (free_kind_stop ht m idx s))
        (λ h.
          let here : idx ≡ p = cc (search-eq_hit (next ht) (free_kind ht m) rounds idx h, found) in
          (4, rw here (place rounds p (rw (← here) lt) (rw (← here) h))))
        (λ s.
          let (n, run) =
            walk_to_free rounds (next ht idx) p (next-lt laid idx)
              (sym (search-eq_skip (next ht) (free_kind ht m) rounds idx s) ∙ found) in
          (
            suc n,
            (let status = (slot_at ht m idx).status in
                elim (Bool-cases (status == slot_empty || status == slot_tomb)) [
                  | inl open_slot ↦ cc (open_slot, s)
                  | inr taken ↦ rw (status_read m laid idx lt, taken) run
                ]),
          ))

IsChunk-no_value :
    {ht : HashTable} {m : Memory} {offset : ℕ} {key value : List ℕ}
    → IsChunk ht m offset key value
    → IsChunk ht m offset key []
unfolding slice
IsChunk-no_value c = record {
  fits = omega (arith, c.fits);
  key_len = c.key_len;
  key_bytes = c.key_bytes;
  value_bytes = refl;
}

module _ {ht : HashTable} {log : ℕ} {m : Memory} (wf : IsWellFormed ht log m) (hash : ℕ) where
  -- The bytes before the last store are those of an insertion with an empty value.
  unfinished-written :
      (offset p : ℕ)
      → (slot_at ht m p).vlen ≡ 0
      → unfinished ht m p hash offset ≡ written ht m p hash offset 0
  unfolding written slot_at
  unfinished-written offset p clean =
      let off = slot_off ht p in
      sym (
        store_le-zero (unfinished ht m p hash offset) (off + 12) (
          load-store_le_ne 4 4 _ (off + 8) (off + 12) offset (inr (omega arith))
          ∙ load-store_le_ne 4 8 _ off (off + 12) hash (inr (omega arith))
          ∙ load-store_le_ne 4 4 m (off + 16) (off + 12) slot_used (inl (omega arith))
          ∙ clean))

  last_step :
      (offset vlen p : ℕ)
      → p < ht.capacity
      → insert_step ht hash offset vlen (placed p) (unfinished ht m p hash offset)
        ≡ ok (returned true, written ht m p hash offset vlen)
  unfolding insert_step put_le written
  last_step offset vlen p lt =
      let fits = cell-lt m wf.laid p lt in
      let off = slot_off ht p in simp (size-store_le, le→leb (off + 12 + 4) m.size (omega arith))

  module _ {key value : List ℕ} {offset : ℕ} (chunk : IsChunk ht m offset key value)
      (absent : get ht m hash key ≡ ok none) (hash_fits : hash < 2 ^ 64)
      (offset_fits : offset < 2 ^ 32) (value_fits : length value < 2 ^ 32) (p : ℕ)
      (found : find_free ht m hash ≡ some p) where
    get-written :
        (v : List ℕ)
        → IsChunk ht m offset key v
        → length v < 2 ^ 32
        → get ht (written ht m p hash offset (length v)) hash key ≡ ok (some v)
    get-written v c fits =
        (written-Inserted wf hash c absent hash_fits offset_fits fits p found).reads hash key
        ∙ rw ((same_entry_iff hash hash key key).1 (refl, refl)) refl

    -- A key that is absent is inserted in a free slot whose length field holds 0, as in a table that
    -- was just initialised. Before the last store of the insertion, `Get` answers the key with an
    -- empty value; after it, with the value.
    pub torn_value :
        (slot_at ht m p).vlen ≡ 0
        → (n : ℕ) × (m₁ : Memory) × (m₂ : Memory) × (insert_steps ht hash offset
              (length value)
              n
              (insert_start ht hash)
              m
            ≡ ok (placed p, m₁))
          × (get ht m₁ hash key ≡ ok (some []))
          × (insert_step ht hash offset (length value) (placed p) m₁ ≡ ok (returned true, m₂))
          × (get ht m₂ hash key ≡ ok (some value))
    torn_value clean =
        let (n, walk) =
          walk_to_free m wf.laid hash offset (length value) ht.capacity (home ht hash) p
            (home-lt wf.laid hash) found in
        (
          n,
          unfinished ht m p hash offset,
          written ht m p hash offset (length value),
          walk,
          rw (unfinished-written offset p clean)
              (get-written [] (IsChunk-no_value chunk) (omega arith)),
          last_step offset (length value) p
              (search-hit (next ht) ht.capacity (next-lt wf.laid) (free_kind ht m) ht.capacity
                (home ht hash) p found (home-lt wf.laid hash)).1,
          get-written value chunk value_fits,
        )
