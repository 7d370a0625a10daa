-- ===== src/Daemon/Examples.antt =====
-- The daemon without a source in a world without files, and its address.
use featcache.Common.{ℕ, ◌≤◌, ◌≡◌, ◌⊎◌, refl, List, [], ◌∷◌, some, none, arith, ok, Returns, false}
use featcache.Daemon.Empty.{start-ready}
use featcache.Daemon.{init_failed, serving, uds_address, start}
use featcache.Loader.Life.{new_loader}
use featcache.Loader.{Loader, LoaderConfig, segment_too_small, new_loader_with_segment, defaults}
use featcache.Protocol
use featcache.Reader.{new_reader_from_segment, get}
use featcache.Segment.Linux.Examples.{Names, toy}
use featcache.Segment.Linux.{mapping, create_segment, create_or_open, map_created, dev_shm_path}
use featcache.Server.{CacheServer, state_ready}
use featcache.Source.Line.{no_more, Scanning}

abbrev pub no_files : Names
no_files = λ q. false

abbrev pub fc : LoaderConfig
fc = record { segment_name = b'f' ∷ b'c' ∷ []; segment_size = 128 }

abbrev pub no_lines : Scanning (List ℕ)
no_lines = record { open_file = λ path. Protocol.ok []; scan = λ c. (c, no_more) }

abbrev pub over_fc : Loader
over_fc = record {
  segment = mapping (b'f' ∷ b'c' ∷ []) (record { size = 128; byte = λ j. 0 }) 128;
  hash_table = none;
  config = fc;
  data_end = 0;
}

pub makes_fc : (new_loader toy no_files fc).1 ≡ Protocol.ok over_fc
unfolding new_loader create_or_open create_segment map_created new_loader_with_segment defaults
    dev_shm_path
makes_fc = refl

-- The flag's default, as a shell user writes it.
abbrev pub escaped : List ℕ
escaped = b'\\' ∷ b'x' ∷ b'0' ∷ b'0' ∷ b'f' ∷ []

unescaped : uds_address escaped ≡ 0 ∷ b'f' ∷ []
unfolding uds_address
unescaped = refl

starts_ready :
    (((start no_lines 9 7 5 toy no_files fc [] escaped).1
        ≡ ok (some (init_failed segment_too_small)))
      × (128 ≤ 88))
    ⊎ ((l' : Loader) × (s : CacheServer) × ((start no_lines 9 7 5 toy no_files fc [] escaped).1
          ≡ ok (some (serving l' s)))
        × (s.state ≡ state_ready)
        × (s.uds_addr ≡ uds_address escaped)
        × (s.seg ≡ l'.segment)
        × ((reader_seed : ℕ)
            → Returns
                (new_reader_from_segment reader_seed s.seg)
                (λ r. (k : List ℕ) → get r k ≡ ok none)))
starts_ready =
    start-ready no_lines 9 7 5 toy no_files fc escaped over_fc makes_fc refl refl (omega arith)
      (omega arith) (omega arith)
