-- ===== src/Table/View.antt =====
-- What the slots and the chunks behind them hold, as plain functions of the memory, and the
-- handle's geometry under which the code's accesses stay in range.
use native.Mathlib.Nat.{mod-lt}
use featcache.Common.Bits.{bit_and-mask, two_pow_pos}
use featcache.Common.{
  ℕ, ◌+◌, ◌-◌, ◌*◌, ◌%◌, ◌^◌, ◌≤◌, ◌<◌, ◌≡◌, refl, Bool, true, false, ◌&&◌, List, [], ◌∷◌, leb,
  ◌==◌, if◌then◌else◌, ok, bit_and, length, arith,
}
use featcache.Layout.{HashSlot, slot_size}
use featcache.Memory.{Memory, load_le, slice, get_le, atomic_load}
use featcache.Table.{HashTable, slot_off, home, next, same_bytes, get_slot, match_key_at, get_value}

-- The handle covers `2 ^ log` slots, which lie before the data region, in the memory.
pub record IsLaidOut (ht : HashTable) (log : ℕ) (size : ℕ) : Type 0 where
  pub cap_pow : ht.capacity ≡ 2 ^ log
  pub mask_ones : ht.mask ≡ ht.capacity - 1
  pub slots_fit : ht.slot_base + ht.capacity * slot_size ≤ ht.data_base
  pub data_fits : ht.data_base ≤ size

module _ {ht : HashTable} {log size : ℕ} (laid : IsLaidOut ht log size) where
  pub masked : (a : ℕ) → bit_and a ht.mask ≡ a % ht.capacity
  masked a = rw (laid.mask_ones, laid.cap_pow) (bit_and-mask log a)

  pub capacity_pos : 0 < ht.capacity
  capacity_pos = rw laid.cap_pow (two_pow_pos log)

  pub home-lt : (hash : ℕ) → home ht hash < ht.capacity
  unfolding home
  home-lt hash = rw masked (mod-lt _ capacity_pos)

  pub next-lt : (i : ℕ) → next ht i < ht.capacity
  unfolding next
  next-lt i = rw masked (mod-lt _ capacity_pos)

unfoldable pub slot_at : HashTable → Memory → ℕ → HashSlot
slot_at ht m idx = record {
  hash = load_le 8 m (slot_off ht idx);
  offset = load_le 4 m (slot_off ht idx + 8);
  vlen = load_le 4 m (slot_off ht idx + 12);
  status = load_le 4 m (slot_off ht idx + 16);
}

abbrev pub equal_bytes : List ℕ → List ℕ → Bool
equal_bytes [] [] = true
equal_bytes [] (b ∷ bs) = false
equal_bytes (a ∷ as') [] = false
equal_bytes (a ∷ as') (b ∷ bs) = a == b && equal_bytes as' bs

-- Whether the chunk at a data offset starts with this key, length field included.
unfoldable pub matches : HashTable → Memory → ℕ → List ℕ → Bool
matches ht m data_off key =
    let chunk = ht.data_base + data_off in
    leb (chunk + 4 + length key) m.size
    && (load_le 4 m chunk == length key && equal_bytes (slice (length key) m (chunk + 4)) key)

-- The value behind the key, or nothing where it would leave the memory.
unfoldable pub value_at : HashTable → Memory → ℕ → ℕ → List ℕ
value_at ht m data_off vlen =
    let chunk = ht.data_base + data_off in
    let start = chunk + 4 + load_le 4 m chunk in
    if leb (chunk + 4) m.size && leb (start + vlen) m.size then slice vlen m start else []

same_bytes-eq :
    (m : Memory) (o : ℕ) (key : List ℕ)
    → o + length key ≤ m.size
    → same_bytes m o key ≡ ok (equal_bytes (slice (length key) m o) key)
unfolding same_bytes slice
same_bytes-eq m o [] h = refl
same_bytes-eq m o (b ∷ key) h = ground (arith, same_bytes-eq m (o + 1) key)

-- `matchKeyAt` reads nothing out of range, whatever the offset and the stored length are.
pub match_key_at-eq :
    (ht : HashTable) (m : Memory) (data_off : ℕ) (key : List ℕ)
    → match_key_at ht m data_off key ≡ ok (matches ht m data_off key)
unfolding match_key_at matches get_le
match_key_at-eq ht m data_off key =
    ground (arith, same_bytes-eq m (ht.data_base + data_off + 4) key)

pub get_value-eq :
    (ht : HashTable) (m : Memory) (data_off vlen : ℕ)
    → get_value ht m data_off vlen ≡ ok (value_at ht m data_off vlen)
unfolding get_value value_at get_le
get_value-eq ht m data_off vlen = ground arith

module _ {ht : HashTable} {log : ℕ} (m : Memory) (laid : IsLaidOut ht log m.size) where
  pub cell-lt : (idx : ℕ) → idx < ht.capacity → slot_off ht idx + 24 ≤ m.size
  cell-lt idx h = omega (arith, laid.slots_fit, laid.data_fits)

  pub get_slot-eq : (idx : ℕ) → idx < ht.capacity → get_slot ht m idx ≡ ok (slot_at ht m idx)
  unfolding get_slot slot_at get_le atomic_load
  get_slot-eq idx h = ground (arith, cell-lt idx)
