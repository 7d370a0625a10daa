-- ===== src/Reader/Examples.antt =====
-- A reader of the segment that the loader's example filled.
use featcache.Common.{ℕ, ◌≡◌, refl, List, Returns, ok, map, none, length, false, arith}
use featcache.Loader.Examples.{fresh, fresh-IsFresh, started, started-IsReady}
use featcache.Loader.Init.{handle_for}
use featcache.Loader.Load.Examples.{
  two_entries, two_keys, two_supplied, two-IsDistinct, two-IsSmall, two_opened, two_announced,
  two_room,
}
use featcache.Loader.Load.Supply.{wanted, last_value}
use featcache.Loader.Load.Whole.{closed}
use featcache.Loader.Load.{load}
use featcache.Loader.Outcome.{lookup}
use featcache.Loader.{Loader}
use featcache.Reader.Agree.{new_reader-lookup}
use featcache.Reader.Loaded.{load-get_batch}
use featcache.Reader.{new_reader_from_segment, get, get_batch, gen_counter}
use featcache.Segment.Linux.{mapping}
use featcache.Segment.{Segment}
use featcache.Source.Map.{MapDataSource, map_source, new_map_data_source}

-- Another handle on the loader's bytes.
abbrev mapped : Segment
mapped = record started.segment { backed_by_file = false }

new_reader-lookup_example :
    Returns
      (new_reader_from_segment 9 mapped)
      (λ r. (k : List ℕ) → get r k ≡ lookup (handle_for 2) started 7 k)
new_reader-lookup_example = new_reader-lookup started-IsReady mapped started-IsReady.attached refl 9

load-get_batch_example :
    (s' : MapDataSource) × (l' : Loader) × (load map_source 3 7 5
        (new_map_data_source two_entries two_keys)
        (fresh 320)
      ≡ closed map_source 3 7 5 none (length (wanted two_entries)) s' l')
    × ((name : List ℕ) (size reader_seed : ℕ)
        → Returns (new_reader_from_segment reader_seed (mapping name l'.segment.bytes size)) (λ r.
          ((keys : List (List ℕ))
            → get_batch r keys ≡ ok (map (last_value (wanted two_entries)) keys))
          × (gen_counter r ≡ ok 1)))
load-get_batch_example =
    load-get_batch map_source 3 7 5 two_entries (new_map_data_source two_entries two_keys)
      (new_map_data_source two_entries two_keys)
      (record (new_map_data_source two_entries two_keys) { idx = 2 }) (fresh 320) 2
      (fresh-IsFresh 320 (omega arith)) two_opened (omega arith) two_announced two_supplied
      (omega arith) two-IsDistinct two-IsSmall (omega arith) (omega arith) two_room
