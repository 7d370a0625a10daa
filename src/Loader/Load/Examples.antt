-- ===== src/Loader/Load/Examples.antt =====
-- A map of two entries, the second with an empty key, loaded into small segments.
use featcache.Common.{
  ℕ, ◌+◌, ◌*◌, ◌^◌, ◌≤◌, ◌<◌, ◌≡◌, refl, ◌⊎◌, Bool, true, false, List, [], ◌∷◌, none, some, length,
  arith, ok, panic, Run, Option,
}
use featcache.Hash.{
  hash_key_with_seed, hash_bytes, hash_byte, set_header_hash_seed, header_hash_seed,
}
use featcache.Layout.{align, next_pow2, smear}
use featcache.Loader.Init.{data_start, handle_for}
use featcache.Loader.Load.Loop.{IsAbsent, Ends}
use featcache.Loader.Load.Refine.{load_loop-Ends}
use featcache.Loader.Load.Supply.{data_size, wanted, IsDistinct, IsSmall}
use featcache.Loader.Load.Whole.{closed, Finishes, load-refines}
use featcache.Loader.Load.{
  load_failed, Ended, is_skipped, load, load_loop, finish_load, bump_generation, stopped_by,
}
use featcache.Loader.{segment_too_small, init, put, write_chunk, index_chunk}
use featcache.Memory.{
  load_le, store_le, poke, copy, slice, get_le, put_le, atomic_load, compare_and_swap,
}
use featcache.Protocol
use featcache.Segment.{data_of}
use featcache.Source.Map.{map_source, map_get, new_map_data_source, map_source-Supplies}
use featcache.Source.Supply.{Entry, Supplies}
use featcache.Table.Free.{free_slots}
use featcache.Table.{HashTable, insert, init_hash_table, home, new_hash_table}
use featcache.Table
use featcache.Header.{header_of, overlay, write_header}
use featcache.Loader.Load.Again.{AddsAll, load-AddsAll}
use featcache.Loader.Load.Room.{LoadsAll, load-LoadsAll}
use featcache.Loader.Examples.{
  fresh, fresh-IsFresh, started, started-IsReady, started_free, started_end, started_size,
  started_empty,
}

-- A map of two entries, the second with an empty key, which `Load` skips.
abbrev pub two_entries : List Entry
two_entries = (b'a' ∷ [], 1 ∷ []) ∷ ([], 2 ∷ []) ∷ []

abbrev pub two_keys : List (List ℕ)
two_keys = (b'a' ∷ []) ∷ [] ∷ []

pub two_supplied :
    Supplies map_source
      (new_map_data_source two_entries two_keys)
      two_entries
      (record (new_map_data_source two_entries two_keys) { idx = 2 })
unfolding map_get
two_supplied = (map_source-Supplies two_entries two_keys).1

pub two_wanted : wanted two_entries ≡ (b'a' ∷ [], 1 ∷ []) ∷ []
unfolding wanted is_skipped
two_wanted = refl

pub two-IsDistinct : IsDistinct (wanted two_entries)
two-IsDistinct = rw two_wanted (tt, tt)

pub two-IsSmall : IsSmall (wanted two_entries)
two-IsSmall = rw two_wanted (omega arith, tt)

pub two-IsAbsent : IsAbsent (handle_for 2) started 7 (wanted two_entries)
two-IsAbsent = rw two_wanted (started_empty (b'a' ∷ []), tt)

load_loop-Ends_example :
    Ends map_source 3
      (handle_for 2)
      1
      7
      5
      (new_map_data_source two_entries two_keys)
      started
      0
      two_entries
load_loop-Ends_example =
    load_loop-Ends map_source 3 (handle_for 2) 1 7 two_entries 5
      (new_map_data_source two_entries two_keys)
      (record (new_map_data_source two_entries two_keys) { idx = 2 }) started 0 two_supplied
      (omega arith) started-IsReady two-IsDistinct two-IsSmall two-IsAbsent

pub two_opened :
    map_source.open_source (new_map_data_source two_entries two_keys)
    ≡ (new_map_data_source two_entries two_keys, Protocol.ok 2)
two_opened = (map_source-Supplies two_entries two_keys).0

abbrev TwoOutcome : Type 0
TwoOutcome =
    (log : ℕ) × (log ≤ 27)
    × (2 * 2 ≤ 2 ^ log)
    × ((j : ℕ) → 2 * 2 ≤ 2 ^ j → log ≤ j)
    × (((load map_source 3 7 5 (new_map_data_source two_entries two_keys) (fresh 256)
            ≡ closed map_source 3 7 5 (some (load_failed segment_too_small)) 0
                (new_map_data_source two_entries two_keys) (fresh 256))
          × (256 ≤ data_start (2 ^ log)))
        ⊎ (((load map_source 3 7 5 (new_map_data_source two_entries two_keys) (fresh 256) ≡ panic)
              × (256 ≡ 2 ^ 31)
              × (256 < (handle_for (2 ^ log)).data_base + data_size (wanted two_entries)))
            ⊎ Finishes map_source 3 7 5 two_entries log 256
                (load map_source 3 7 5 (new_map_data_source two_entries two_keys) (fresh 256))))

load-refines_example : TwoOutcome
load-refines_example =
    load-refines map_source 3 7 5 two_entries (new_map_data_source two_entries two_keys)
      (new_map_data_source two_entries two_keys)
      (record (new_map_data_source two_entries two_keys) { idx = 2 }) (fresh 256) 2
      (fresh-IsFresh 256 (omega arith)) two_opened (omega arith) two_supplied (omega arith)
      two-IsDistinct two-IsSmall (omega arith) (omega arith)

-- Whether a run returned without an error, and its count.
abbrev summary : {S : Type 0} → Run (Option (Ended S)) → Option (Bool × ℕ)
summary panic = none
summary (ok none) = none
summary (ok (some e)) = some (elim e.failure [ none ↦ true | some f ↦ false ], e.count)

everything : Unit {0}
unfolding load load_loop finish_load bump_generation stopped_by is_skipped map_source map_get put
    init write_chunk index_chunk insert init_hash_table home Table.next next_pow2 smear align
    header_of overlay write_header set_header_hash_seed header_hash_seed hash_key_with_seed
    hash_bytes hash_byte load_le store_le poke copy slice get_le put_le atomic_load compare_and_swap
    new_hash_table new_map_data_source data_of
everything = tt

load_runs :
    summary (load map_source 3 7 5 (new_map_data_source two_entries two_keys) (fresh 256))
    ≡ some (true, 1)
unfolding everything
load_runs = refl

pub two_announced : length (wanted two_entries) ≤ 2
two_announced = rw two_wanted (omega arith)

pub two_room : data_size (wanted two_entries) + 96 * 2 + 96 ≤ 320
two_room = rw two_wanted (omega arith)

load-LoadsAll_example :
    LoadsAll map_source 3 7 5 two_entries (new_map_data_source two_entries two_keys) (fresh 320)
load-LoadsAll_example =
    load-LoadsAll map_source 3 7 5 two_entries (new_map_data_source two_entries two_keys)
      (new_map_data_source two_entries two_keys)
      (record (new_map_data_source two_entries two_keys) { idx = 2 }) (fresh 320) 2
      (fresh-IsFresh 320 (omega arith)) two_opened (omega arith) two_announced two_supplied
      (omega arith) two-IsDistinct two-IsSmall (omega arith) (omega arith) two_room

-- The state after this run.
abbrev pub two_loaded :
    LoadsAll map_source 3 7 5 two_entries (new_map_data_source two_entries two_keys) (fresh 320)
two_loaded =
    load-LoadsAll map_source 3 7 5 two_entries (new_map_data_source two_entries two_keys)
      (new_map_data_source two_entries two_keys)
      (record (new_map_data_source two_entries two_keys) { idx = 2 }) (fresh 320) 2
      (fresh-IsFresh 320 (omega arith)) two_opened (omega arith) two_announced two_supplied
      (omega arith) two-IsDistinct two-IsSmall (omega arith) (omega arith) two_room

two_slots_free : length (wanted two_entries) ≤ free_slots (handle_for 2) started.segment.bytes
two_slots_free = rw two_wanted (omega (arith, started_free))

two_fit_behind : started.data_end + data_size (wanted two_entries) ≤ started.segment.bytes.size
two_fit_behind = rw two_wanted (omega (arith, started_end, started_size))

load-AddsAll_example :
    AddsAll map_source 3 9 5
      (handle_for 2)
      1
      7
      two_entries
      (new_map_data_source two_entries two_keys)
      started
load-AddsAll_example =
    load-AddsAll map_source 3 9 5 two_entries (new_map_data_source two_entries two_keys)
      (new_map_data_source two_entries two_keys)
      (record (new_map_data_source two_entries two_keys) { idx = 2 }) started 2 started-IsReady
      two_opened two_supplied (omega arith) two-IsDistinct two-IsSmall two-IsAbsent two_slots_free
      two_fit_behind
