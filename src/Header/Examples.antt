-- ===== src/Header/Examples.antt =====
-- The header of `Init` in a segment of zeros.
use featcache.Common.{◌≡◌, arith}
use featcache.Header.Laws.{overlay-write_header}
use featcache.Header.{overlay, write_header}
use featcache.Layout.{magic, version, header_size}
use featcache.Memory.{Memory, slice}

abbrev blank : Memory
blank = record { size = 256; byte = λ j. 0 }

overlay-write_header_example : overlay (write_header blank 256 2 112) ≡ record {
  magic_field = magic;
  version_field = version;
  size = 256;
  gen_counter = 0;
  hash_cap = 2;
  hash_offset = header_size;
  data_offset = 112;
  data_end = 112;
  segment_id = 0;
  flags = 0;
  reserved = slice 16 blank 48;
}
overlay-write_header_example =
    overlay-write_header blank 256 2 112 (omega arith) (omega arith) (omega arith)
