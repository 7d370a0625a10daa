-- ===== src/Table/Steps.antt =====
-- `Insert` and `Get` of pkg/featcache/hashtable.go, one access to the shared bytes at a time, and a
-- writer and a reader that run at the same time. In `Get` the reads of a slot's plain fields, the
-- comparison of a key and the read of a value are one step each.
pub mod Runs
pub mod System
pub mod Kept
pub mod Writer
pub mod Reader
pub mod Stable
pub mod Torn
mod Examples
use featcache.Common.{
  ℕ, zero, suc, ◌+◌, Bool, true, false, ◌&&◌, ◌||◌, List, Option, none, some, ◌==◌, if◌then◌else◌,
  Run, ok, ◌>>=◌,
}
use featcache.Layout.{slot_empty, slot_used, slot_tomb, HashSlot}
use featcache.Memory.{Memory, get_le, put_le, atomic_load, compare_and_swap}
use featcache.Table.{HashTable, slot_off, home, next, match_key_at, get_value, slot_hash}

-- Where a call of `Insert` stands: at the head of the loop, before the compare-and-swap with the
-- status that was read, before each of the three writes, and at the end with its result.
pub data Pc : Type 0 where
  probing : (rounds idx : ℕ) → Pc
  loaded : (rounds idx status : ℕ) → Pc
  claimed hashed placed : (idx : ℕ) → Pc
  returned : Bool → Pc

module _ (ht : HashTable) (hash offset vlen : ℕ) where
  unfoldable pub insert_step : Pc → Memory → Run (Pc × Memory)
  insert_step (probing zero idx) m = ok (returned false, m)
  insert_step (probing (suc rounds) idx) m = do
    status ← atomic_load m (slot_off ht idx + 16)
    let on =
        if status == slot_empty || status == slot_tomb
        then loaded rounds idx status
        else probing rounds (next ht idx)
    ok (on, m)
  insert_step (loaded rounds idx status) m = do
    (won, m') ← compare_and_swap m (slot_off ht idx + 16) status slot_used
    ok (if won then claimed idx else probing rounds (next ht idx), m')
  insert_step (claimed idx) m = do m' ← put_le 8 m (slot_off ht idx) hash; ok (hashed idx, m')
  insert_step (hashed idx) m = do m' ← put_le 4 m (slot_off ht idx + 8) offset; ok (placed idx, m')
  insert_step (placed idx) m = do
    m' ← put_le 4 m (slot_off ht idx + 12) vlen
    ok (returned true, m')
  insert_step (returned done) m = ok (returned done, m)

abbrev pub insert_start : HashTable → ℕ → Pc
insert_start ht hash = probing ht.capacity (home ht hash)

-- Where a call of `Get` stands: at the head of the loop, with the status that was read, with a copy
-- of the slot, before the value of the key that was found is read, and at the end with its answer.
pub data Look : Type 0 where
  looking : (rounds idx : ℕ) → Look
  opened : (rounds idx status : ℕ) → Look
  copied : (rounds idx : ℕ) → HashSlot → Look
  matched : (offset vlen : ℕ) → Look
  answered : Option (List ℕ) → Look

module _ (ht : HashTable) (hash : ℕ) (key : List ℕ) where
  unfoldable pub get_step : Look → Memory → Run Look
  get_step (looking zero idx) m = ok (answered none)
  get_step (looking (suc rounds) idx) m = do
    status ← atomic_load m (slot_off ht idx + 16)
    ok (opened rounds idx status)
  get_step (opened rounds idx status) m = do
    let off = slot_off ht idx
    h ← get_le 8 m off
    offset ← get_le 4 m (off + 8)
    vlen ← get_le 4 m (off + 12)
    ok (copied rounds idx (record { hash = h; offset = offset; vlen = vlen; status = status }))
  get_step (copied rounds idx slot) m =
      let on = looking rounds (next ht idx) in
      if slot.status == slot_empty
      then ok (answered none)
      else if slot.status == slot_used && slot.hash == hash
      then (do
        same ← match_key_at ht m slot.offset key
        ok (if same then matched slot.offset slot.vlen else on))
      else ok on
  get_step (matched offset vlen) m = do val ← get_value ht m offset vlen; ok (answered (some val))
  get_step (answered a) m = ok (answered a)

abbrev pub get_start : HashTable → ℕ → Look
get_start ht hash = looking ht.capacity (home ht hash)
