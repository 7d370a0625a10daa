-- ===== src/Reader/Agree.antt =====
-- A reader that maps the bytes of a loader sees the loader's map, in whatever process it runs.
use featcache.Common.{ℕ, ◌≡◌, ◌∙◌, refl, sym, ap, true, List, map, arith, ok, Returns}
use featcache.Header.Laws.{header_of-overlay}
use featcache.Header.{overlay}
use featcache.Loader.Load.Supply.{last_value}
use featcache.Source.Supply.{Entry}
use featcache.Loader.Outcome.{lookup}
use featcache.Loader.Ready.{IsReady, header_hash_seed-IsHeaded, data_of-attached}
use featcache.Loader.{Loader}
use featcache.Memory.{load_le}
use featcache.Reader.Batch.{get_batch-map}
use featcache.Reader.{Reader, new_reader_from_segment, get, get_batch, gen_counter}
use featcache.Segment.{Segment, data_of}
use featcache.Hash.{hash_key_with_seed}
use featcache.Table
use featcache.Table.{HashTable, new_hash_table}

module _ {l : Loader} {ht : HashTable} {log seed : ℕ} (ready : IsReady l ht log seed)
    (seg : Segment) (mapped : seg.attached ≡ true) (shared : seg.bytes ≡ l.segment.bytes)
    (pkg_seed : ℕ) where
  abbrev reader : Reader
  reader = record { segment = seg; hash_table = ht; seed = seed }

  bytes_of : data_of seg ≡ l.segment.bytes
  bytes_of = data_of-attached seg mapped ∙ shared

  same_handle : new_hash_table ht.slot_base ht.data_base ht.capacity ≡ ht
  unfolding new_hash_table
  same_handle = λ i. record {
    slot_base = ht.slot_base;
    data_base = ht.data_base;
    capacity = ht.capacity;
    mask = sym ready.formed.laid.mask_ones i;
  }

  opens : new_reader_from_segment pkg_seed seg ≡ ok reader
  unfolding new_reader_from_segment overlay
  opens =
      rw
        (
          bytes_of,
          header_of-overlay l.segment.bytes (
              let fit = ready.formed.laid.slots_fit in
              let inside = ready.formed.laid.data_fits in omega (arith, ready.headed.behind)),
          ready.headed.cap,
          ready.headed.slots,
          ready.headed.base,
          same_handle,
          header_hash_seed-IsHeaded pkg_seed ready.headed,
        )
        refl

  get-reader : (k : List ℕ) → get reader k ≡ lookup ht l seed k
  unfolding get
  get-reader k = ap (λ m. Table.get ht m (hash_key_with_seed k seed) k) bytes_of

  -- A reader opens on any handle that maps the bytes of a loader that is ready, and its `Get`
  -- answers what a lookup with the loader's table and seed answers.
  pub new_reader-lookup :
      Returns
        (new_reader_from_segment pkg_seed seg)
        (λ r. (k : List ℕ) → get r k ≡ lookup ht l seed k)
  new_reader-lookup = (reader, opens, get-reader)

  generation : (n : ℕ) → load_le 8 l.segment.bytes 16 ≡ n → gen_counter reader ≡ ok n
  unfolding gen_counter overlay
  generation n e =
      rw
        (
          bytes_of,
          header_of-overlay l.segment.bytes (
              let fit = ready.formed.laid.slots_fit in
              let inside = ready.formed.laid.data_fits in omega (arith, ready.headed.behind)),
          e,
        )
        refl

-- A reader of bytes that hold these entries at generation 1.
pub opens_loaded :
    {l : Loader} {ht : HashTable} {log seed : ℕ} (es : List Entry)
    → IsReady l ht log seed
    → load_le 8 l.segment.bytes 16 ≡ 1
    → ((k : List ℕ) → lookup ht l seed k ≡ ok (last_value es k))
    → (seg : Segment) → seg.attached ≡ true
    → seg.bytes ≡ l.segment.bytes
    → (pkg_seed : ℕ)
    → Returns (new_reader_from_segment pkg_seed seg) (λ r.
      ((keys : List (List ℕ)) → get_batch r keys ≡ ok (map (last_value es) keys))
      × (gen_counter r ≡ ok 1))
opens_loaded es ready gen reads seg mapped shared pkg_seed = (
  reader ready seg mapped shared pkg_seed,
  opens ready seg mapped shared pkg_seed,
  (
    (λ keys.
        get_batch-map (reader ready seg mapped shared pkg_seed) (last_value es) keys
          (λ k. get-reader ready seg mapped shared pkg_seed k ∙ reads k)),
    generation ready seg mapped shared pkg_seed 1 gen,
  ),
)
