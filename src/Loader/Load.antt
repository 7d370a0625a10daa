-- ===== src/Loader/Load.antt =====
-- `Load`: every entry of a data source is put into the segment. The loop over `Next` takes fuel; the
-- result `none` says that it ran out.
pub mod Supply
pub mod Loop
pub mod Entries
pub mod Refine
pub mod Generation
pub mod Whole
pub mod Room
pub mod Again
pub mod Single
pub mod Examples
mod LineExamples
use featcache.Common.{
  ℕ, zero, suc, ◌+◌, Bool, true, false, ◌||◌, List, Option, none, some, length, ltb, ◌==◌,
  if◌then◌else◌, Run, panic, ok, ◌>>=◌,
}
use featcache.Header.{header_of, gen_counter_off}
use featcache.Layout.{max_key_len}
use featcache.Loader.{
  Loader, LoadError, segment_too_small, data_region_full, hash_full, with_bytes, init, put,
}
use featcache.Memory.{store_le}
use featcache.Protocol
use featcache.Protocol.{IoError}
use featcache.Segment.{data_of}
use featcache.Source.{DataSource, Next, entry, end_of_data, failed, crashed}

-- An error of the source, or of the loader itself.
pub data Failure : Type 0 where
  source_failed : IoError → Failure
  load_failed : LoadError → Failure

-- How the loop ended: its error, the entries counted, the source and the loader.
pub record Ended (S : Type 0) : Type 0 where
  pub failure : Option Failure
  pub count : ℕ
  pub source : S
  pub loader : Loader

-- `len(key) == 0 || len(key) > MaxKeyLen`
unfoldable pub is_skipped : List ℕ → Bool
is_skipped key = length key == 0 || ltb max_key_len (length key)

-- What the loop returns for an error of `put`: a full table ends it like the end of the data.
unfoldable pub stopped_by : LoadError → Option Failure
stopped_by hash_full = none
stopped_by data_region_full = some (load_failed data_region_full)
stopped_by segment_too_small = some (load_failed segment_too_small)

abbrev pub ended : {S : Type 0} → Option Failure → ℕ → S → Loader → Run (Option (Ended S))
ended f count s l = ok (some (record { failure = f; count = count; source = s; loader = l }))

-- `headerOf(l.segment).GenCounter++`, on uint64.
unfoldable pub bump_generation : Loader → Run Loader
bump_generation l = do
  hdr ← header_of (data_of l.segment)
  ok (with_bytes l (store_le 8 (data_of l.segment) gen_counter_off (hdr.gen_counter + 1)))

module _ {S : Type 0} (ds : DataSource S) (pkg_seed : ℕ) where
  -- The body of the loop with `rest` for the next round.
  unfoldable pub load_loop : ℕ → S → Loader → ℕ → Run (Option (Ended S))
  load_loop zero s l count = ok none
  load_loop (suc fuel) s l count =
      let (s', answer) = ds.next s in
      elim answer [
        | end_of_data ↦ ended none count s' l
        | crashed ↦ panic
        | failed e ↦ ended (some (source_failed e)) count s' l
        | entry key value ↦
            let skip = load_loop fuel s' l count in
            let take_in = (do
              (e, l') ← put l pkg_seed key value
              elim e [
                | none ↦ load_loop fuel s' l' (count + 1)
                | some err ↦ ended (stopped_by err) count s' l'
              ]) in
            if is_skipped key then skip else take_in
      ]

  -- What `Load` does behind the loop: an error is returned as it is.
  unfoldable pub finish_load : Ended S → Run (Ended S)
  finish_load e = elim e.failure [
    | some f ↦ ok (record e { source = ds.close_source e.source })
    | none ↦ do
      l' ← bump_generation e.loader
      ok (record e { source = ds.close_source e.source; loader = l' })
  ]

  -- `seed` is what `randSeed` draws, if `Init` is called.
  unfoldable pub load : ℕ → ℕ → S → Loader → Run (Option (Ended S))
  load seed fuel s l =
      let (s₁, opened) = ds.open_source s in
      elim opened [
        | Protocol.err e ↦ ended (some (source_failed e)) 0 s₁ l
        | Protocol.ok total ↦ do
          (e, l₁) ← elim l.hash_table [ none ↦ init l total seed | some ht ↦ ok (none, l) ]
          elim e [
            | some err ↦ ended (some (load_failed err)) 0 (ds.close_source s₁) l₁
            | none ↦ do
              r ← load_loop fuel s₁ l₁ 0
              elim r [ none ↦ ok none | some e' ↦ do done ← finish_load e'; ok (some done) ]
          ]
      ]
