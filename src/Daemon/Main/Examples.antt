-- ===== src/Daemon/Main/Examples.antt =====
-- The program with 128 bytes and no source.
use featcache.Common.{ℕ, ◌≤◌, ◌≡◌, ◌⊎◌, refl, true, List, [], ◌∷◌, none, some, arith, ok, Returns}
use featcache.Daemon.Examples.{no_files, no_lines, over_fc, escaped, makes_fc}
use featcache.Daemon.Main.Ready.{after_start, Listens, main-ready}
use featcache.Daemon.Main.{
  Flags, default_flags, stopped, version_shown, unsupported, main, main_elsewhere,
}
use featcache.Daemon.{init_failed, uds_address}
use featcache.Loader.{Loader, segment_too_small}
use featcache.Reader.{new_reader_from_segment, get}
use featcache.Segment.Linux.Examples.{toy}
use featcache.Server.Life.Examples.{quiet}
use featcache.Server.{CacheServer, state_ready}

abbrev small_flags : Flags
small_flags = record default_flags { name = b'f' ∷ b'c' ∷ []; size = 128; uds = escaped }

shows_version :
    main no_lines 9 7 5 toy quiet no_files (record small_flags { version = true })
    ≡ ok (some (no_files, version_shown))
unfolding main
shows_version = refl

refuses_elsewhere : main_elsewhere small_flags ≡ unsupported
unfolding main_elsewhere
refuses_elsewhere = refl

-- The default address has its null byte already.
default_address : uds_address default_flags.uds ≡ default_flags.uds
unfolding uds_address
default_address = refl

main-ready_example :
    ((main no_lines 9 7 5 toy quiet no_files small_flags
        ≡ ok (
            some (
              after_start no_lines 9 7 5 toy quiet no_files small_flags refl,
              stopped (init_failed segment_too_small),
            )))
      × (128 ≤ 88))
    ⊎ ((l' : Loader) × (s : CacheServer) × Listens no_lines 9 7 5 toy quiet no_files small_flags
          refl l' s
        × (s.state ≡ state_ready)
        × (s.uds_addr ≡ uds_address escaped)
        × (s.seg ≡ l'.segment)
        × ((reader_seed : ℕ)
            → Returns
                (new_reader_from_segment reader_seed s.seg)
                (λ r. (k : List ℕ) → get r k ≡ ok none)))
main-ready_example =
    main-ready no_lines 9 7 5 toy quiet no_files small_flags refl over_fc refl makes_fc refl refl
      (omega arith) (omega arith) (omega arith)
