-- ===== src/Table.antt =====
-- pkg/featcache/hashtable.go: open addressing with linear probing over 24-byte slots in shared
-- memory. The handle's `data` field aliases the segment, so the memory is passed beside the handle,
-- and an operation that writes returns the new memory. A slot index, an offset and a length are
-- below 2 ^ 33, so no sum of them wraps the 64-bit `int`.
pub mod Probe
pub mod View
pub mod Scan
pub mod Write
pub mod Refine
pub mod Chunk
pub mod Free
pub mod Insert
pub mod Delete
pub mod Fresh
pub mod Count
pub mod Race
pub mod Steps
pub mod Examples
use featcache.Common.{
  ℕ, zero, suc, ◌+◌, ◌-◌, ◌*◌, ◌%◌, ◌^◌, Bool, true, false, not, ◌&&◌, ◌||◌, List, [], ◌∷◌, Option,
  none, some, leb, ltb, ◌==◌, if◌then◌else◌, Run, ok, panic, ◌>>=◌, bit_and, length,
}
use featcache.Layout.{HashSlot, slot_size, slot_empty, slot_used, slot_tomb}
use featcache.Memory.{
  Memory, poke, load_le, slice, get_le, put_le, atomic_load, atomic_store, compare_and_swap,
}

pub record HashTable : Type 0 where
  pub slot_base : ℕ
  pub data_base : ℕ
  pub capacity : ℕ
  pub mask : ℕ

-- With capacity 0 the mask is -1 in Go; no loop then makes a round, so it is never read.
unfoldable pub new_hash_table : ℕ → ℕ → ℕ → HashTable
new_hash_table slot_base data_base capacity = record {
  slot_base = slot_base;
  data_base = data_base;
  capacity = capacity;
  mask = capacity - 1;
}

-- The loop of `InitHashTable` at byte `i`, with `rounds` left.
zero_bytes : ℕ → ℕ → Memory → Run Memory
zero_bytes zero i m = ok m
zero_bytes (suc rounds) i m =
    let rest = zero_bytes rounds (i + 1) (poke m i 0) in if ltb i m.size then rest else panic

-- The new contents, and the offset past the table.
unfoldable pub init_hash_table : Memory → ℕ → ℕ → Run (Memory × ℕ)
unfolding zero_bytes
init_hash_table m slot_base num_slots = do
  let slot_bytes = num_slots * slot_size
  m' ← zero_bytes slot_bytes slot_base m
  ok (m', slot_base + slot_bytes)

abbrev pub slot_off : HashTable → ℕ → ℕ
slot_off ht idx = ht.slot_base + idx * slot_size

-- `int(uint32(hash)) & ht.mask`
unfoldable pub home : HashTable → ℕ → ℕ
home ht hash = bit_and (hash % 2 ^ 32) ht.mask

-- `(idx + 1) & ht.mask`
unfoldable pub next : HashTable → ℕ → ℕ
next ht idx = bit_and (idx + 1) ht.mask

unfoldable pub get_slot : HashTable → Memory → ℕ → Run HashSlot
get_slot ht m idx = do
  let off = slot_off ht idx
  status ← atomic_load m (off + 16)
  hash ← get_le 8 m off
  offset ← get_le 4 m (off + 8)
  vlen ← get_le 4 m (off + 12)
  ok (record { hash = hash; offset = offset; vlen = vlen; status = status })

-- The comparison loop: byte `i` of the stored key, which starts at `o`, against the rest of `key`.
same_bytes : Memory → ℕ → List ℕ → Run Bool
same_bytes m o [] = ok true
same_bytes m o (b ∷ key) =
    let rest = same_bytes m (o + 1) key in
    if ltb o m.size then (if m.byte o == b then rest else ok false) else panic

unfoldable pub match_key_at : HashTable → Memory → ℕ → List ℕ → Run Bool
unfolding same_bytes
match_key_at ht m data_off key =
    let abs_off = ht.data_base + data_off in
    if ltb m.size (abs_off + 4) then ok false else do
      k_len ← get_le 4 m abs_off
      if not (k_len == length key)
          then ok false
          else (if ltb m.size (abs_off + 4 + k_len)
              then ok false
              else same_bytes m (abs_off + 4) key)

-- A nil slice is the empty list.
unfoldable pub get_value : HashTable → Memory → ℕ → ℕ → Run (List ℕ)
get_value ht m data_off v_len =
    let abs_off = ht.data_base + data_off in
    if ltb m.size (abs_off + 4) then ok [] else do
      k_len ← get_le 4 m abs_off
      let val_off = abs_off + 4 + k_len
      if ltb m.size (val_off + v_len) then ok [] else ok (slice v_len m val_off)

-- The loop of `Get`, with `rounds` left: `none` is a miss.
get_loop : HashTable → Memory → ℕ → List ℕ → ℕ → ℕ → Run (Option (List ℕ))
get_loop ht m hash key zero idx = ok none
get_loop ht m hash key (suc rounds) idx =
    let on = get_loop ht m hash key rounds (next ht idx) in
    do
      slot ← get_slot ht m idx
      if slot.status == slot_empty
          then ok none
          else if slot.status == slot_used && slot.hash == hash
          then (do
            same ← match_key_at ht m slot.offset key
            if same then (do val ← get_value ht m slot.offset slot.vlen; ok (some val)) else on)
          else on

-- `some val` is Go's (val, true), `none` is (nil, false).
unfoldable pub get : HashTable → Memory → ℕ → List ℕ → Run (Option (List ℕ))
unfolding get_loop
get ht m hash key = get_loop ht m hash key ht.capacity (home ht hash)

-- The three writes to a slot that was claimed.
pub fill_slot : HashTable → Memory → ℕ → ℕ → ℕ → ℕ → Run Memory
fill_slot ht m idx hash offset vlen = do
  let off = slot_off ht idx
  m₁ ← put_le 8 m off hash
  m₂ ← put_le 4 m₁ (off + 8) offset
  put_le 4 m₂ (off + 12) vlen

insert_loop : HashTable → ℕ → ℕ → ℕ → ℕ → ℕ → Memory → Run (Bool × Memory)
insert_loop ht hash offset vlen zero idx m = ok (false, m)
insert_loop ht hash offset vlen (suc rounds) idx m = do
  let cell = slot_off ht idx + 16
  let on = insert_loop ht hash offset vlen rounds (next ht idx) m
  status ← atomic_load m cell
  if status == slot_empty || status == slot_tomb
      then (do
        (claimed, m₁) ← compare_and_swap m cell status slot_used
        let lost = insert_loop ht hash offset vlen rounds (next ht idx) m₁
        if claimed then (do m₂ ← fill_slot ht m₁ idx hash offset vlen; ok (true, m₂)) else lost)
      else on

-- The key argument of `Insert` is not used by the code.
unfoldable pub insert : HashTable → Memory → ℕ → ℕ → ℕ → Run (Bool × Memory)
unfolding insert_loop fill_slot
insert ht m hash offset vlen = insert_loop ht hash offset vlen ht.capacity (home ht hash) m

unfoldable pub slot_hash : HashTable → Memory → ℕ → Run ℕ
slot_hash ht m idx = get_le 8 m (slot_off ht idx)

unfoldable pub match_key_at_slot : HashTable → Memory → ℕ → List ℕ → Run Bool
match_key_at_slot ht m idx key = do
  data_off ← get_le 4 m (slot_off ht idx + 8)
  match_key_at ht m data_off key

delete_loop : HashTable → ℕ → List ℕ → ℕ → ℕ → Memory → Run (Bool × Memory)
delete_loop ht hash key zero idx m = ok (false, m)
delete_loop ht hash key (suc rounds) idx m =
    let on = delete_loop ht hash key rounds (next ht idx) m in
    let cell = slot_off ht idx + 16 in
    do
      status ← atomic_load m cell
      if status == slot_empty
          then ok (false, m)
          else if status == slot_used
          then (do
            h ← slot_hash ht m idx
            if h == hash
                then (do
                  same ← match_key_at_slot ht m idx key
                  if same then (do m' ← atomic_store m cell slot_tomb; ok (true, m')) else on)
                else on)
          else on

unfoldable pub delete : HashTable → Memory → ℕ → List ℕ → Run (Bool × Memory)
unfolding delete_loop
delete ht m hash key = delete_loop ht hash key ht.capacity (home ht hash) m

count_loop : HashTable → Memory → ℕ → ℕ → ℕ → Run ℕ
count_loop ht m zero i c = ok c
count_loop ht m (suc rounds) i c = do
  slot ← get_slot ht m i
  count_loop ht m rounds (i + 1) (if slot.status == slot_used then c + 1 else c)

unfoldable pub count : HashTable → Memory → Run ℕ
unfolding count_loop
count ht m = count_loop ht m ht.capacity 0 0

-- The callback of `Iterate` keeps a state, and answers whether to go on.
iterate_loop {ℓ} : {S : Type ℓ} → HashTable → Memory → (HashSlot → S → Bool × S) → ℕ → ℕ → S → Run S
iterate_loop ht m fn zero i s = ok s
iterate_loop ht m fn (suc rounds) i s = do
  slot ← get_slot ht m i
  let skipped = iterate_loop ht m fn rounds (i + 1) s
  let (more, s') = fn slot s
  let called = iterate_loop ht m fn rounds (i + 1) s'
  if slot.status == slot_used then (if more then called else ok s') else skipped

unfoldable pub iterate {ℓ} :
    {S : Type ℓ} → HashTable → Memory → (HashSlot → S → Bool × S) → S → Run S
unfolding iterate_loop
iterate ht m fn s = iterate_loop ht m fn ht.capacity 0 s
