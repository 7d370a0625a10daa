-- ===== src/Reader/Loaded.antt =====
-- A first `Load`, and then a reader of the bytes that it left.
use featcache.Common.{
  ℕ, ◌+◌, ◌*◌, ◌^◌, ◌≤◌, ◌<◌, ◌≡◌, ◌∙◌, refl, sym, ap, true, List, Option, none, some, map, length,
  Run, ok, panic, Returns,
}
use featcache.Loader.Load.Room.{load-LoadsAll}
use featcache.Loader.Load.Supply.{wanted, last_value, IsDistinct, IsSmall, data_size}
use featcache.Loader.Load.Whole.{IsFresh, closed}
use featcache.Loader.Load.{Ended, load}
use featcache.Loader.{Loader}
use featcache.Memory.{Memory}
use featcache.Protocol
use featcache.Reader.Agree.{opens_loaded}
use featcache.Reader.{new_reader_from_segment, get_batch, gen_counter}
use featcache.Segment.Linux.{mapping}
use featcache.Segment.{Segment}
use featcache.Source.Supply.{Entry, Supplies}
use featcache.Source.{DataSource}

-- The bytes of the loader with which a run ended.
abbrev bytes_after : {S : Type 0} → Memory → Run (Option (Ended S)) → Memory
bytes_after other (ok (some e)) = e.loader.segment.bytes
bytes_after other (ok none) = other
bytes_after other panic = other

module _ {S : Type 0} (ds : DataSource S) (pkg_seed seed fuel : ℕ) (es : List Entry) (s s₁ s₂ : S)
    (l : Loader) (total : ℕ) (fresh : IsFresh l)
    (opened : ds.open_source s ≡ (s₁, Protocol.ok total)) (few : total ≤ 2 ^ 26)
    (announced : length (wanted es) ≤ total) (supplied : Supplies ds s₁ es s₂)
    (enough : length es < fuel) (distinct : IsDistinct (wanted es)) (small : IsSmall (wanted es))
    (positive : 0 < seed) (seed_fits : seed < 2 ^ 64)
    (room : data_size (wanted es) + 96 * total + 96 ≤ l.segment.bytes.size) where
  -- A reader of the bytes that this `Load` left.
  pub opens_after :
      (s' : S) (l' : Loader) (count : ℕ)
      → load ds pkg_seed seed fuel s l ≡ closed ds pkg_seed seed fuel none count s' l'
      → (seg : Segment) → seg.attached ≡ true
      → seg.bytes ≡ l'.segment.bytes
      → (reader_seed : ℕ)
      → Returns (new_reader_from_segment reader_seed seg) (λ r.
        ((keys : List (List ℕ)) → get_batch r keys ≡ ok (map (last_value (wanted es)) keys))
        × (gen_counter r ≡ ok 1))
  opens_after s' l' count run seg attached shared reader_seed =
      let (_, l₁, _, all, ready, gen, reads) =
        load-LoadsAll ds pkg_seed seed fuel es s s₁ s₂ l total fresh opened few announced supplied
          enough distinct small positive seed_fits room in
      let same : l'.segment.bytes ≡ l₁.segment.bytes =
        ap (bytes_after l.segment.bytes) (sym run ∙ all) in
      opens_loaded (wanted es) ready gen reads seg attached (shared ∙ same) reader_seed

  -- The first `Load` of a fresh loader over at most 2 GiB, from a source that announces at least
  -- as many entries as are wanted of it, up to 2^26, and supplies finitely many, fewer than the
  -- fuel, where no wanted key occurs twice and every chunk is below 2 GiB, and the chunks of the
  -- wanted entries and 96 bytes for each announced entry and once more fit the segment, with a
  -- seed that is not 0 and has 64 bits: it returns without an error and counts every wanted entry.
  -- A reader of any handle that maps the bytes it left, of whatever name and size, then opens,
  -- sees generation 1, and `GetBatch` answers for every list of keys, in order, the values of the
  -- wanted entries and a miss for every other key.
  pub load-get_batch :
      (s' : S) × (l' : Loader) × (load ds pkg_seed seed fuel s l
        ≡ closed ds pkg_seed seed fuel none (length (wanted es)) s' l')
      × ((name : List ℕ) (size reader_seed : ℕ)
          → Returns (new_reader_from_segment reader_seed (mapping name l'.segment.bytes size)) (λ r.
            ((keys : List (List ℕ)) → get_batch r keys ≡ ok (map (last_value (wanted es)) keys))
            × (gen_counter r ≡ ok 1)))
  load-get_batch =
      let (s', l', _, run, _, _, _) =
        load-LoadsAll ds pkg_seed seed fuel es s s₁ s₂ l total fresh opened few announced supplied
          enough distinct small positive seed_fits room in
      (
        s',
        l',
        run,
        (λ name size reader_seed.
            opens_after s' l' (length (wanted es)) run (mapping name l'.segment.bytes size) refl
              refl reader_seed),
      )
