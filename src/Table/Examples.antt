-- ===== src/Table/Examples.antt =====
-- Runs of the table at concrete memories, and its theorems at concrete inputs: two slots at offset
-- 0, the data region at offset 48, which holds the chunk of the key 7 and the value 9, 8.
use featcache.Common.{
  ℕ, ◌-◌, ◌<◌, ◌≡◌, ◌≢◌, refl, ◌⊎◌, Bool, true, false, List, [], ◌∷◌, none, some, arith, ok, get_or,
  ltb, if◌then◌else◌, ◌>>=◌, ◌+◌,
}
use featcache.Layout.{HashSlot, slot_used, slot_tomb}
use featcache.Memory.{
  Memory, poke, load_le, store_le, slice, get_le, put_le, atomic_load, atomic_store,
  compare_and_swap,
}
use featcache.Memory.Words.{Differs, Differs-refl}
use featcache.Table.Count.{used_slots, visit, iterate-eq}
use featcache.Table.Delete.{Deleted, delete-refines}
use featcache.Table.Fresh.{Zeroed, Zeroed-IsWellFormed, Zeroed-get, init_hash_table-empty}
use featcache.Table.Chunk.{IsChunk}
use featcache.Table.Insert.{Inserted, written-Inserted, insert-refines}
use featcache.Table.Probe.{hit, search}
use featcache.Table.Race.{claim-delete}
use featcache.Table.Refine.{IsWellFormed}
use featcache.Table.Scan.{free_kind, key_kind, find, slot_value, written}
use featcache.Table.View.{IsLaidOut, slot_at, matches}
use featcache.Table.{
  HashTable, new_hash_table, init_hash_table, home, next, get_slot, get, insert, delete, count,
  iterate, fill_slot, slot_off, match_key_at, get_value, slot_hash, match_key_at_slot,
}

abbrev pub two_slots : HashTable
two_slots = record { slot_base = 0; data_base = 48; capacity = 2; mask = 1 }

abbrev chunk_bytes : List ℕ
chunk_bytes = 1 ∷ 0 ∷ 0 ∷ 0 ∷ 7 ∷ 9 ∷ 8 ∷ []

abbrev pub blank : Memory
blank = record { size = 64; byte = λ j. if ltb j 48 then 0 else get_or chunk_bytes (j - 48) 0 }

unfoldable pub everything : Unit {0}
unfolding new_hash_table poke load_le store_le slice get_le put_le atomic_load atomic_store
    compare_and_swap init_hash_table home next get_slot match_key_at get_value get insert slot_hash
    match_key_at_slot delete count iterate search free_kind written slot_at
everything = tt

pub two_slots-IsLaidOut : IsLaidOut two_slots 1 64
two_slots-IsLaidOut = record {
  cap_pow = refl;
  mask_ones = refl;
  slots_fit = omega arith;
  data_fits = omega arith;
}

pub blank-Zeroed : Zeroed 0 48 blank blank
blank-Zeroed = record { outside = Differs-refl; inside = λ j p q. ground arith }

pub blank-IsWellFormed : IsWellFormed two_slots 1 blank
blank-IsWellFormed = Zeroed-IsWellFormed two_slots-IsLaidOut blank-Zeroed

pub blank-IsChunk : IsChunk two_slots blank 0 (7 ∷ []) (9 ∷ 8 ∷ [])
unfolding everything
blank-IsChunk = record { fits = omega arith; key_len = refl; key_bytes = refl; value_bytes = refl }

abbrev pub filled : Memory
filled = written two_slots blank 1 5 0 2

-- A hash of 5 has its home in slot 1.
insert_runs : insert two_slots blank 5 0 2 ≡ ok (true, filled)
unfolding everything
insert_runs = refl

pub get_runs : get two_slots filled 5 (7 ∷ []) ≡ ok (some (9 ∷ 8 ∷ []))
unfolding everything
get_runs = refl

count_runs : count two_slots filled ≡ ok 1
unfolding everything
count_runs = refl

get_other_key : get two_slots filled 5 (6 ∷ []) ≡ ok none
unfolding everything
get_other_key = refl

pub filled-Inserted : Inserted two_slots 1 blank 5 0 (7 ∷ []) (9 ∷ 8 ∷ []) filled
unfolding everything
filled-Inserted =
    written-Inserted blank-IsWellFormed 5 blank-IsChunk
      (Zeroed-get two_slots-IsLaidOut blank-Zeroed 5 (7 ∷ [])) (omega arith) (omega arith)
      (omega arith) 1 refl

emptied_again :
    (m' : Memory) × (init_hash_table filled 0 2 ≡ ok (m', 48))
    × Differs 0 48 filled m'
    × IsWellFormed two_slots 1 m'
    × ((hash : ℕ) (key : List ℕ) → get two_slots m' hash key ≡ ok none)
emptied_again = init_hash_table-empty filled filled-Inserted.well_formed.laid

insert-refines_example :
    ((insert two_slots blank 5 0 2 ≡ ok (false, blank))
      × ((i : ℕ) → i < 2 → free_kind two_slots blank i ≢ hit))
    ⊎ ((m' : Memory) × (insert two_slots blank 5 0 2 ≡ ok (true, m'))
        × Inserted two_slots 1 blank 5 0 (7 ∷ []) (9 ∷ 8 ∷ []) m')
insert-refines_example =
    insert-refines blank-IsWellFormed 5 blank-IsChunk
      (Zeroed-get two_slots-IsLaidOut blank-Zeroed 5 (7 ∷ [])) (omega arith) (omega arith)
      (omega arith)

delete-refines_example :
    ((get two_slots filled 5 (7 ∷ []) ≡ ok none)
      × (delete two_slots filled 5 (7 ∷ []) ≡ ok (false, filled)))
    ⊎ ((v : List ℕ) × (m' : Memory) × (get two_slots filled 5 (7 ∷ []) ≡ ok (some v))
        × (delete two_slots filled 5 (7 ∷ []) ≡ ok (true, m'))
        × Deleted two_slots 1 filled 5 (7 ∷ []) m')
delete-refines_example = delete-refines filled-Inserted.well_formed 5 (7 ∷ [])

abbrev collect : HashSlot → List ℕ → Bool × List ℕ
collect s seen = (true, s.hash ∷ seen)

iterate-eq_example :
    iterate two_slots filled collect [] ≡ ok (visit collect (used_slots two_slots filled 2 0) [])
iterate-eq_example = iterate-eq filled filled-Inserted.well_formed.laid collect []

filled_found : find two_slots filled 5 (7 ∷ []) ≡ some 1
unfolding everything key_kind matches
filled_found = refl

home_three : home two_slots 3 ≡ 1
unfolding home
home_three = refl

-- The key 7 is deleted, and a key with the hash 3 comes into its slot.
claim-delete_example :
    (m' : Memory) × (m₁ : Memory) × (delete two_slots filled 5 (7 ∷ []) ≡ ok (true, m'))
    × (get two_slots m' 5 (7 ∷ []) ≡ ok none)
    × (compare_and_swap m' (slot_off two_slots 1 + 16) slot_tomb slot_used ≡ ok (true, m₁))
    × (get two_slots m₁ 5 (7 ∷ []) ≡ ok (some (slot_value two_slots filled 1)))
    × (insert two_slots m' 3 8 1 ≡ (fill_slot two_slots m₁ 1 3 8 1 >>= (λ m₂. ok (true, m₂))))
claim-delete_example =
    claim-delete filled-Inserted.well_formed 5 (7 ∷ []) 1 filled_found 3 8 1 home_three
