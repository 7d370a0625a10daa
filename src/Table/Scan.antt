-- ===== src/Table/Scan.antt =====
-- Each loop of the table is a search over kinds of slots, followed by one read or one write.
use featcache.Common.{
  ℕ, zero, suc, ◌+◌, ◌<◌, ◌≡◌, refl, Bool, true, false, ◌&&◌, ◌||◌, List, Option, none, some, ◌==◌,
  ==_iff, lt→ltb, le→leb, if◌then◌else◌, ok, arith,
}
use featcache.Layout.{slot_empty, slot_used, slot_tomb}
use featcache.Memory.{Memory, store_le, get_le, put_le, atomic_load, atomic_store, compare_and_swap}
use featcache.Memory.Words.{size-store_le}
use featcache.Table.Probe.{Kind, stop, hit, skip, search}
use featcache.Table.View.{
  IsLaidOut, next-lt, home-lt, slot_at, matches, value_at, match_key_at-eq, get_value-eq, cell-lt,
  get_slot-eq,
}
use featcache.Table.{
  HashTable, slot_off, home, next, get_loop, get, insert_loop, fill_slot, insert, slot_hash,
  match_key_at_slot, delete_loop, delete,
}

-- To `Get` and `Delete`, a slot with this hash and key is a hit.
unfoldable pub key_kind : HashTable → Memory → ℕ → List ℕ → ℕ → Kind
key_kind ht m hash key i =
    let s = slot_at ht m i in
    if s.status == slot_empty
    then stop
    else if s.status == slot_used && (s.hash == hash && matches ht m s.offset key)
    then hit
    else skip

-- To `Insert`, a slot that never was or no longer is used is a hit.
unfoldable pub free_kind : HashTable → Memory → ℕ → Kind
free_kind ht m i =
    let s = slot_at ht m i in if s.status == slot_empty || s.status == slot_tomb then hit else skip

abbrev pub find : HashTable → Memory → ℕ → List ℕ → Option ℕ
find ht m hash key = search (next ht) (key_kind ht m hash key) ht.capacity (home ht hash)

abbrev pub find_free : HashTable → Memory → ℕ → Option ℕ
find_free ht m hash = search (next ht) (free_kind ht m) ht.capacity (home ht hash)

abbrev pub slot_value : HashTable → Memory → ℕ → List ℕ
slot_value ht m i = value_at ht m (slot_at ht m i).offset (slot_at ht m i).vlen

abbrev pub read_found : HashTable → Memory → Option ℕ → Option (List ℕ)
read_found ht m none = none
read_found ht m (some i) = some (slot_value ht m i)

-- The memory after the four writes of a successful `Insert`.
unfoldable pub written : HashTable → Memory → ℕ → ℕ → ℕ → ℕ → Memory
written ht m i hash offset vlen =
    let off = slot_off ht i in
    store_le 4
      (store_le 4 (store_le 8 (store_le 4 m (off + 16) slot_used) off hash) (off + 8) offset)
      (off + 12) vlen

unfoldable pub buried : HashTable → Memory → ℕ → Memory
buried ht m i = store_le 4 m (slot_off ht i + 16) slot_tomb

abbrev pub insert_result : HashTable → Memory → ℕ → ℕ → ℕ → Option ℕ → Bool × Memory
insert_result ht m hash offset vlen none = (false, m)
insert_result ht m hash offset vlen (some i) = (true, written ht m i hash offset vlen)

abbrev pub delete_result : HashTable → Memory → Option ℕ → Bool × Memory
delete_result ht m none = (false, m)
delete_result ht m (some i) = (true, buried ht m i)

module _ {ht : HashTable} {log : ℕ} (m : Memory) (laid : IsLaidOut ht log m.size) where
  module _ (idx : ℕ) (h : idx < ht.capacity) where
    pub status_read : atomic_load m (slot_off ht idx + 16) ≡ ok (slot_at ht m idx).status
    unfolding atomic_load slot_at
    status_read = rw (lt→ltb (slot_off ht idx + 16) m.size (omega (arith, cell-lt m laid idx h)))

    hash_read : slot_hash ht m idx ≡ ok (slot_at ht m idx).hash
    unfolding slot_hash get_le slot_at
    hash_read = rw (le→leb (slot_off ht idx + 8) m.size (omega (arith, cell-lt m laid idx h)))

    match_at_slot :
        (key : List ℕ)
        → match_key_at_slot ht m idx key ≡ ok (matches ht m (slot_at ht m idx).offset key)
    unfolding match_key_at_slot get_le slot_at
    match_at_slot key = rw (
      le→leb (slot_off ht idx + 8 + 4) m.size (omega (arith, cell-lt m laid idx h)),
      match_key_at-eq,
    )

    bury : atomic_store m (slot_off ht idx + 16) slot_tomb ≡ ok (buried ht m idx)
    unfolding atomic_store buried
    bury = rw (lt→ltb (slot_off ht idx + 16) m.size (omega (arith, cell-lt m laid idx h)))

    pub claim :
        compare_and_swap m (slot_off ht idx + 16) (slot_at ht m idx).status slot_used
        ≡ ok (true, store_le 4 m (slot_off ht idx + 16) slot_used)
    unfolding compare_and_swap
    claim = rw (status_read, (==_iff (slot_at ht m idx).status (slot_at ht m idx).status).1 refl)

    fill :
        (hash offset vlen : ℕ)
        → fill_slot ht (store_le 4 m (slot_off ht idx + 16) slot_used) idx hash offset vlen
          ≡ ok (written ht m idx hash offset vlen)
    unfolding fill_slot put_le written
    fill hash offset vlen =
        let fits = cell-lt m laid idx h in
        let off = slot_off ht idx in
        simp (
          size-store_le,
          le→leb (off + 8) m.size (omega arith),
          le→leb (off + 8 + 4) m.size (omega arith),
          le→leb (off + 12 + 4) m.size (omega arith),
        )

  get_loop-eq :
      (hash : ℕ) (key : List ℕ) (rounds idx : ℕ)
      → idx < ht.capacity
      → get_loop ht m hash key rounds idx
        ≡ ok (read_found ht m (search (next ht) (key_kind ht m hash key) rounds idx))
  unfolding get_loop search key_kind
  get_loop-eq hash key zero idx h = refl
  get_loop-eq hash key (suc rounds) idx h =
      simp
        (
          get_slot-eq m laid idx h,
          match_key_at-eq,
          get_value-eq,
          get_loop-eq hash key rounds (next ht idx) (next-lt laid idx),
        )
        (ground arith)

  -- `Get` panics on no input; it reads the value of the slot that the search finds.
  pub get-eq :
      (hash : ℕ) (key : List ℕ) → get ht m hash key ≡ ok (read_found ht m (find ht m hash key))
  unfolding get
  get-eq hash key = get_loop-eq hash key ht.capacity (home ht hash) (home-lt laid hash)

  insert_loop-eq :
      (hash offset vlen rounds idx : ℕ)
      → idx < ht.capacity
      → insert_loop ht hash offset vlen rounds idx m
        ≡ ok (insert_result ht m hash offset vlen (search (next ht) (free_kind ht m) rounds idx))
  unfolding insert_loop search free_kind
  insert_loop-eq hash offset vlen zero idx h = refl
  insert_loop-eq hash offset vlen (suc rounds) idx h =
      simp
        (
          status_read idx h,
          claim idx h,
          fill idx h,
          insert_loop-eq hash offset vlen rounds (next ht idx) (next-lt laid idx),
        )
        (ground arith)

  pub insert-eq :
      (hash offset vlen : ℕ)
      → insert ht m hash offset vlen
        ≡ ok (insert_result ht m hash offset vlen (find_free ht m hash))
  unfolding insert
  insert-eq hash offset vlen =
      insert_loop-eq hash offset vlen ht.capacity (home ht hash) (home-lt laid hash)

  delete_loop-eq :
      (hash : ℕ) (key : List ℕ) (rounds idx : ℕ)
      → idx < ht.capacity
      → delete_loop ht hash key rounds idx m
        ≡ ok (delete_result ht m (search (next ht) (key_kind ht m hash key) rounds idx))
  unfolding delete_loop search key_kind
  delete_loop-eq hash key zero idx h = refl
  delete_loop-eq hash key (suc rounds) idx h =
      simp
        (
          status_read idx h,
          hash_read idx h,
          match_at_slot idx h,
          bury idx h,
          delete_loop-eq hash key rounds (next ht idx) (next-lt laid idx),
        )
        (ground arith)

  pub delete-eq :
      (hash : ℕ) (key : List ℕ)
      → delete ht m hash key ≡ ok (delete_result ht m (find ht m hash key))
  unfolding delete
  delete-eq hash key = delete_loop-eq hash key ht.capacity (home ht hash) (home-lt laid hash)
