-- ===== src/Table/Fresh.antt =====
-- `InitHashTable` and `NewHashTable`: a fresh table is well formed and empty.
use native.Mathlib.Decide.{dec_le}
use featcache.Common.{
  ℕ, zero, suc, ◌+◌, ◌*◌, ◌^◌, ◌≤◌, ◌<◌, ◌≡◌, ◌≢◌, refl, ap, List, none, arith, ok, panic, lt→ltb,
  ltb→lt, ltb, Bool-cases, inl, inr,
}
use featcache.Layout.{slot_size, slot_empty}
use featcache.Memory.{Memory, poke, load_le}
use featcache.Memory.Words.{
  Differs, Differs-refl, Differs-trans, Differs-wider, poke-Differs, byte-poke_self,
}
use featcache.Table.Probe.{hit}
use featcache.Table.Refine.{IsWellFormed, key_kind_hit, get_miss}
use featcache.Table.Scan.{key_kind}
use featcache.Table.View.{IsLaidOut, slot_at}
use featcache.Table.{HashTable, slot_off, new_hash_table, zero_bytes, init_hash_table, get}

-- `m'` is `m` with zeros in `[lo, hi)`.
pub record Zeroed (lo hi : ℕ) (m m' : Memory) : Type 0 where
  pub outside : Differs lo hi m m'
  pub inside : (j : ℕ) → lo ≤ j → j < hi → m'.byte j ≡ 0

zero_bytes-Zeroed :
    (rounds i : ℕ) (m : Memory)
    → i + rounds ≤ m.size
    → (m' : Memory) × (zero_bytes rounds i m ≡ ok m') × Zeroed i (i + rounds) m m'
unfolding zero_bytes
zero_bytes-Zeroed zero i m h =
    (m, refl, record { outside = Differs-refl; inside = λ j p q. absurd (omega arith) })
zero_bytes-Zeroed (suc rounds) i m h =
    let (m', run, z) =
      zero_bytes-Zeroed rounds (i + 1) (poke m i 0)
        (omega (arith, (poke-Differs m i 0).same_size)) in
    (
      m',
      rw (lt→ltb i m.size (omega arith)) run,
      record {
        outside =
            Differs-trans (Differs-wider (omega arith) (omega arith) (poke-Differs m i 0))
              (Differs-wider (omega arith) (omega arith) z.outside);
        inside = λ j p q. elim (dec_le (i + 1) j) [
          | yes later ↦ z.inside j later (omega arith)
          | no first ↦
              let here : j ≡ i = omega arith in
              omega (
                arith,
                z.outside.same_byte j (omega arith),
                byte-poke_self m i 0,
                ap (poke m i 0).byte here,
              )
        ];
      },
    )

load_le-zero :
    (n : ℕ) (m : Memory) (o : ℕ) → ((j : ℕ) → o ≤ j → j < o + n → m.byte j ≡ 0) → load_le n m o ≡ 0
unfolding load_le
load_le-zero zero m o z = refl
load_le-zero (suc n) m o z = omega (
  arith,
  z o (omega arith) (omega arith),
  load_le-zero n m (o + 1) (λ j p q. z j (omega arith) (omega arith)),
)

-- `InitHashTable` returns where the table fits, and zeroes its bytes and no other.
pub init_hash_table-Zeroed :
    (m : Memory) (slot_base num_slots : ℕ)
    → slot_base + num_slots * slot_size ≤ m.size
    → (m' : Memory) × (init_hash_table m slot_base num_slots
        ≡ ok (m', slot_base + num_slots * slot_size))
      × Zeroed slot_base (slot_base + num_slots * slot_size) m m'
unfolding init_hash_table
init_hash_table-Zeroed m slot_base num_slots h =
    let (m', run, z) = zero_bytes-Zeroed (num_slots * slot_size) slot_base m h in (m', rw run, z)

module _ {ht : HashTable} {log : ℕ} {m m' : Memory} (laid : IsLaidOut ht log m.size)
    (z : Zeroed ht.slot_base (ht.slot_base + ht.capacity * slot_size) m m') where
  pub all_empty : (i : ℕ) → i < ht.capacity → (slot_at ht m' i).status ≡ slot_empty
  unfolding slot_at
  all_empty i h =
      load_le-zero 4 m' (slot_off ht i + 16) λ j p q. z.inside j (omega arith) (omega arith)

  not_hit : (hash : ℕ) (key : List ℕ) (i : ℕ) → i < ht.capacity → key_kind ht m' hash key i ≢ hit
  not_hit hash key i lt e =
      let used = ((key_kind_hit ht m' hash key i).0 e).0 in absurd (omega (arith, all_empty i lt))

  pub Zeroed-IsWellFormed : IsWellFormed ht log m'
  Zeroed-IsWellFormed = record {
    laid = rw z.outside.same_size laid;
    reached = λ i lt used. absurd (omega (arith, all_empty i lt));
    unique = λ hash key i j i_lt j_lt hi hj. absurd (not_hit hash key i i_lt hi);
  }

  pub Zeroed-get : (hash : ℕ) (key : List ℕ) → get ht m' hash key ≡ ok none
  Zeroed-get hash key = get_miss Zeroed-IsWellFormed hash key (not_hit hash key)

pub new_hash_table-IsLaidOut :
    (slot_base data_base log size : ℕ)
    → slot_base + 2 ^ log * slot_size ≤ data_base
    → data_base ≤ size
    → IsLaidOut (new_hash_table slot_base data_base (2 ^ log)) log size
unfolding new_hash_table
new_hash_table-IsLaidOut slot_base data_base log size h k = record {
  cap_pow = refl;
  mask_ones = refl;
  slots_fit = h;
  data_fits = k;
}

-- Once `InitHashTable` has run over a handle's slots, the table is well formed and every lookup
-- misses; no byte outside the slots changed.
pub init_hash_table-empty :
    {ht : HashTable} {log : ℕ} (m : Memory)
    → IsLaidOut ht log m.size
    → (m' : Memory) × (init_hash_table m ht.slot_base ht.capacity
        ≡ ok (m', ht.slot_base + ht.capacity * slot_size))
      × Differs ht.slot_base (ht.slot_base + ht.capacity * slot_size) m m'
      × IsWellFormed ht log m'
      × ((hash : ℕ) (key : List ℕ) → get ht m' hash key ≡ ok none)
init_hash_table-empty {ht} m laid =
    let fits = laid.slots_fit in
    let (m', run, z) =
      init_hash_table-Zeroed m ht.slot_base ht.capacity (omega (arith, laid.data_fits)) in
    (m', run, z.outside, Zeroed-IsWellFormed laid z, Zeroed-get laid z)

zero_bytes_out :
    (rounds i : ℕ) (m : Memory) → m.size < i + rounds → i ≤ m.size → zero_bytes rounds i m ≡ panic
unfolding zero_bytes
zero_bytes_out zero i m h k = absurd (omega arith)
zero_bytes_out (suc rounds) i m h k = elim (Bool-cases (ltb i m.size)) [
  | inl fits ↦ rw fits (
      zero_bytes_out rounds (i + 1) (poke m i 0) (omega (arith, (poke-Differs m i 0).same_size))
        (omega (arith, (poke-Differs m i 0).same_size, ltb→lt i m.size fits)))
  | inr over ↦ rw over refl
]

-- A table that leaves the memory is not initialised: the index panics.
pub init_hash_table_panics :
    (m : Memory) (slot_base num_slots : ℕ)
    → slot_base ≤ m.size
    → m.size < slot_base + num_slots * slot_size
    → init_hash_table m slot_base num_slots ≡ panic
unfolding init_hash_table
init_hash_table_panics m slot_base num_slots h k =
    rw (zero_bytes_out (num_slots * slot_size) slot_base m k h) refl
