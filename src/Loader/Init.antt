-- ===== src/Loader/Init.antt =====
-- What `Init` makes of a segment: the layout that it computes, and the state that it leaves.
use featcache.Common.Bits.{pow_mono}
use featcache.Common.{
  ℕ, ◌+◌, ◌*◌, ◌%◌, ◌^◌, ◌≤◌, ◌<◌, ◌≡◌, ◌∙◌, refl, ap, ◌⊎◌, inl, inr, true, none, some, arith, ok,
  leb, lt→leb, leb→le, leb→lt, Bool-cases, List, Run, Option, if◌then◌else◌, ◌>>=◌,
}
use featcache.Hash.{set_header_hash_seed}
use featcache.Header.Laws.{header_of-overlay, write_header-Differs, overlay-write_header}
use featcache.Header.{overlay, header_of, write_header}
use featcache.Segment.{data_of}
use featcache.Layout.Align.{align_bounds}
use featcache.Layout.Pow2.{next_pow2-least}
use featcache.Layout.{Header, align, next_pow2, slot_size, header_size}
use featcache.Loader.Outcome.{lookup}
use featcache.Loader.Ready.{IsHeaded, IsReady, IsHeaded-Differs, data_of-attached}
use featcache.Loader.{Loader, LoadError, segment_too_small, with_bytes, init}
use featcache.Memory.Words.{
  Differs, Differs-trans, Differs-wider, load_le-Differs, store_le-Differs, load-store_le,
}
use featcache.Memory.{Memory, load_le, store_le}
use featcache.Table.Fresh.{
  init_hash_table-Zeroed, Zeroed-IsWellFormed, Zeroed-get, all_empty, new_hash_table-IsLaidOut,
}
use featcache.Table.Free.{free_slots, free_slots-empty}
use featcache.Table.View.{IsLaidOut}
use featcache.Table.{HashTable, new_hash_table, init_hash_table}

-- Where the data region starts, with so many slots.
abbrev pub data_start : ℕ → ℕ
data_start cap = align (header_size + cap * slot_size) 8

abbrev pub handle_for : ℕ → HashTable
handle_for cap = new_hash_table header_size (data_start cap) cap

-- The header with the seed.
abbrev headed : Memory → ℕ → ℕ → ℕ → Memory
headed m cap log seed = store_le 8 (write_header m cap (2 ^ log) (data_start (2 ^ log))) 48 seed

module _ (log : ℕ) (small : log ≤ 27) where
  cap_small : 2 ^ log ≤ 2 ^ 27
  cap_small = pow_mono log 27 small

  pub data_start_bounds :
      (64 + 2 ^ log * 24 ≤ data_start (2 ^ log)) × (data_start (2 ^ log) < 64 + 2 ^ log * 24 + 8)
  data_start_bounds =
      let (lo, hi, even) = align_bounds 3 (64 + 2 ^ log * 24) (omega (arith, cap_small)) in (lo, hi)

  headed-IsHeaded :
      (m : Memory) (size seed : ℕ)
      → size ≤ 2 ^ 31
      → 0 < seed
      → seed < 2 ^ 64
      → IsHeaded (handle_for (2 ^ log)) seed (headed m size log seed)
  unfolding new_hash_table
  headed-IsHeaded m size seed h pos lt =
      let start = data_start (2 ^ log) in
      let m₁ = write_header m size (2 ^ log) start in
      let d = store_le-Differs 8 m₁ 48 seed in
      let read =
        overlay-write_header m size (2 ^ log) start (omega arith) (omega (arith, cap_small))
          (omega (arith, cap_small, data_start_bounds)) in
      record {
        behind = omega arith;
        cap =
            load_le-Differs 4 24 d (inl (omega arith))
            ∙ unfold overlay in (ap (λ (r : Header). r.hash_cap) read);
        slots =
            load_le-Differs 4 28 d (inl (omega arith))
            ∙ unfold overlay in (ap (λ (r : Header). r.hash_offset) read);
        base =
            load_le-Differs 4 32 d (inl (omega arith))
            ∙ unfold overlay in (ap (λ (r : Header). r.data_offset) read);
        seeded = load-store_le 8 m₁ 48 seed ∙ omega arith;
        seed_pos = pos;
        seed_lt = lt;
      }

-- The layout that `Init` computes, with the rest of the function behind it.
abbrev lay_out : Loader → ℕ → ℕ → ℕ → Run (Option LoadError × Loader)
lay_out l hash_cap start seed =
    if leb l.segment.cap start then ok (some segment_too_small, l) else (do
      _ ← header_of (data_of l.segment)
      (m₃, _) ←
          init_hash_table
            (store_le 8 (write_header (data_of l.segment) l.segment.cap hash_cap start) 48 seed)
            header_size hash_cap
      ok (
        none,
        record (with_bytes l m₃) {
          hash_table = some (new_hash_table header_size start hash_cap);
          data_end = start;
        },
      ))

module _ (l : Loader) (expected seed log : ℕ) (few : expected ≤ 2 ^ 26) (small : log ≤ 27)
    (sized : next_pow2 (2 * expected) ≡ 2 ^ log) where
  init-lay_out : init l expected seed ≡ lay_out l (2 ^ log) (data_start (2 ^ log)) seed
  unfolding init set_header_hash_seed
  init-lay_out =
      let slots : expected % 2 ^ 32 * 2 % 2 ^ 32 ≡ 2 * expected = omega arith in
      let table : 2 ^ log * 24 % 2 ^ 32 ≡ 2 ^ log * 24 = omega (arith, cap_small log small) in
      let front : (64 + 2 ^ log * 24) % 2 ^ 32 ≡ 64 + 2 ^ log * 24 =
        omega (arith, cap_small log small) in
      rw (slots, sized, table, front) refl

-- `Init` succeeded with `2 ^ log` slots: the loader is ready, and its table is empty, with every
-- slot free.
abbrev pub IsInitialized : Loader → ℕ → ℕ → ℕ → Type 0
IsInitialized l expected seed log =
    (l' : Loader) × (init l expected seed ≡ ok (none, l'))
    × IsReady l' (handle_for (2 ^ log)) log seed
    × ((k : List ℕ) → lookup (handle_for (2 ^ log)) l' seed k ≡ ok none)
    × (load_le 8 l'.segment.bytes 16 ≡ 0)
    × (l'.segment.bytes.size ≡ l.segment.bytes.size)
    × (free_slots (handle_for (2 ^ log)) l'.segment.bytes ≡ (handle_for (2 ^ log)).capacity)
    × (l'.data_end ≡ (handle_for (2 ^ log)).data_base)

module _ (l : Loader) (attached : l.segment.attached ≡ true)
    (whole : l.segment.cap ≡ l.segment.bytes.size) (bounded : l.segment.bytes.size ≤ 2 ^ 31)
    (seed : ℕ) (seed_pos : 0 < seed) (seed_lt : seed < 2 ^ 64) where
  module _ (log : ℕ) (small : log ≤ 27) (room : data_start (2 ^ log) < l.segment.cap) where
    abbrev before : Memory
    before = headed l.segment.bytes l.segment.cap log seed

    before-Differs : Differs 0 56 l.segment.bytes before
    before-Differs =
        Differs-trans
          (Differs-wider (omega arith) (omega arith)
            (write_header-Differs l.segment.bytes l.segment.cap (2 ^ log) (data_start (2 ^ log))))
          (Differs-wider (omega arith) (omega arith) (store_le-Differs 8 _ 48 seed))

    laid : IsLaidOut (handle_for (2 ^ log)) log before.size
    laid = rw before-Differs.same_size (
        new_hash_table-IsLaidOut 64 (data_start (2 ^ log)) log l.segment.bytes.size
          (omega (arith, data_start_bounds log small)) (omega arith))

    no_generation : load_le 8 before 16 ≡ 0
    no_generation =
        load_le-Differs 8 16 (store_le-Differs 8 _ 48 seed) (inl (omega arith))
        ∙ unfold overlay in
          (ap (λ (r : Header). r.gen_counter)
            (overlay-write_header l.segment.bytes l.segment.cap (2 ^ log) (data_start (2 ^ log))
              (omega arith) (omega (arith, cap_small log small))
              (omega (arith, cap_small log small, data_start_bounds log small))))

    pub laid_out :
        (l' : Loader) × (lay_out l (2 ^ log) (data_start (2 ^ log)) seed ≡ ok (none, l'))
        × IsReady l' (handle_for (2 ^ log)) log seed
        × ((k : List ℕ) → lookup (handle_for (2 ^ log)) l' seed k ≡ ok none)
        × (load_le 8 l'.segment.bytes 16 ≡ 0)
        × (l'.segment.bytes.size ≡ l.segment.bytes.size)
        × (free_slots (handle_for (2 ^ log)) l'.segment.bytes ≡ (handle_for (2 ^ log)).capacity)
        × (l'.data_end ≡ (handle_for (2 ^ log)).data_base)
    unfolding new_hash_table
    laid_out =
        let (m', run, z) =
          init_hash_table-Zeroed before 64 (2 ^ log)
            (omega (arith, before-Differs.same_size, data_start_bounds log small)) in
        let size : m'.size ≡ l.segment.bytes.size =
          z.outside.same_size ∙ before-Differs.same_size in
        (
          record (with_bytes l m') {
            hash_table = some (handle_for (2 ^ log));
            data_end = data_start (2 ^ log);
          },
          rw
              (
                data_of-attached l.segment attached,
                lt→leb (data_start (2 ^ log)) l.segment.cap room,
                header_of-overlay l.segment.bytes (omega arith),
                run,
              )
              refl,
          record {
            handle = refl;
            attached = attached;
            bounded = rw size bounded;
            headed = IsHeaded-Differs (omega arith) z.outside (
                headed-IsHeaded log small l.segment.bytes l.segment.cap seed (omega arith) seed_pos
                  seed_lt);
            formed = Zeroed-IsWellFormed laid z;
            after = omega arith;
            inside = omega (arith, size, room, whole);
            stored = λ i lt used. absurd (omega (arith, all_empty laid z i lt));
          },
          (λ k. Zeroed-get laid z _ k),
          load_le-Differs 8 16 z.outside (inl (omega arith)) ∙ no_generation,
          size,
          free_slots-empty (handle_for (2 ^ log)) m' (all_empty laid z),
          refl,
        )

  -- For up to 2^26 expected entries, in a mapped segment of at most 2 GiB: `Init` chooses the smallest
  -- power of two with two slots for each entry. Either the layout leaves no room for data, and it
  -- fails and changes nothing; or it succeeds, and the loader is ready, with an empty table.
  pub init-refines :
      (expected : ℕ)
      → expected ≤ 2 ^ 26
      → (log : ℕ) × (log ≤ 27)
        × (2 * expected ≤ 2 ^ log)
        × ((j : ℕ) → 2 * expected ≤ 2 ^ j → log ≤ j)
        × (((init l expected seed ≡ ok (some segment_too_small, l))
              × (l.segment.cap ≤ data_start (2 ^ log)))
            ⊎ IsInitialized l expected seed log)
  init-refines expected few =
      let (log, _, power, enough, least) = next_pow2-least (2 * expected) (omega arith) in
      let small : log ≤ 27 = least 27 (omega arith) in
      let steps = init-lay_out l expected seed log few small power in
      (
        log,
        small,
        enough,
        least,
        elim (Bool-cases (leb l.segment.cap (data_start (2 ^ log)))) [
          | inl full ↦ inl (steps ∙ rw full refl, leb→le l.segment.cap (data_start (2 ^ log)) full)
          | inr room ↦
              let (l', run, ready, empty, gen, size, free, end) =
                laid_out log small (leb→lt l.segment.cap (data_start (2 ^ log)) room) in
              inr (l', steps ∙ run, ready, empty, gen, size, free, end)
        ],
      )
