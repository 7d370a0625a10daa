-- ===== src/Loader/Load/Room.antt =====
-- The table is large enough for what the source announces.
use native.Mathlib.Decide.{dec_lt}
use native.Mathlib.Nat.{pow-suc}
use featcache.Common.{
  ℕ, zero, suc, ◌+◌, ◌*◌, ◌^◌, ◌≤◌, ◌<◌, ◌≡◌, ◌≢◌, ◌∙◌, refl, sym, ap, ◌⊎◌, inl, inr, List, [], ◌∷◌,
  ◌++◌, none, length, length-append, append-nil, arith, ok,
}
use featcache.Loader.Init.{data_start_bounds, handle_for}
use featcache.Loader.Load.Supply.{wanted, last_value, IsDistinct, IsSmall, data_size}
use featcache.Loader.Load.Whole.{IsFresh, closed, Finishes, load-refines}
use featcache.Loader.Load.{load}
use featcache.Loader.Outcome.{lookup}
use featcache.Loader.Ready.{IsReady}
use featcache.Loader.{Loader}
use featcache.Memory.{load_le}
use featcache.Protocol
use featcache.Source.Supply.{Entry, Supplies}
use featcache.Source.{DataSource}
use featcache.Table.Free.{free_slots-none}
use featcache.Table.{new_hash_table}

-- Some entries are left only where one of them is.
pub some_left :
    (es loaded rest : List Entry) → es ≡ loaded ++ rest → rest ≢ [] → length loaded < length es
some_left es loaded [] split left = absurd (left refl)
some_left es loaded (e ∷ rest) split left =
    let sizes = ap length split ∙ length-append loaded (e ∷ rest) in omega (arith, sizes)

-- The table of a minimal number of slots, and the header, in bytes.
pub layout_small :
    (log total : ℕ)
    → log ≤ 27
    → ((j : ℕ) → 2 * total ≤ 2 ^ j → log ≤ j)
    → (handle_for (2 ^ log)).data_base < 96 * total + 96
unfolding new_hash_table
layout_small zero total small least = omega (arith, data_start_bounds 0 (omega arith))
layout_small (suc log) total small least =
    let bounds = data_start_bounds (suc log) small in
    elim (dec_lt (2 ^ log) (2 * total)) [
      | yes below ↦ omega (arith, pow-suc 2 log, bounds)
      | no over ↦ let too_far = least log (omega arith) in absurd (omega arith)
    ]

module _ {S : Type 0} (ds : DataSource S) (pkg_seed seed fuel : ℕ) where
  -- Every wanted entry is loaded.
  abbrev pub LoadsAll : List Entry → S → Loader → Type 0
  LoadsAll es s l =
      (s' : S) × (l' : Loader) × (log : ℕ) × (load ds pkg_seed seed fuel s l
        ≡ closed ds pkg_seed seed fuel none (length (wanted es)) s' l')
      × IsReady l' (handle_for (2 ^ log)) log seed
      × (load_le 8 l'.segment.bytes 16 ≡ 1)
      × ((k : List ℕ) → lookup (handle_for (2 ^ log)) l' seed k ≡ ok (last_value (wanted es) k))

  -- Where the table has two slots for each announced entry and the data region has room for all.
  by_ending :
      (es : List Entry) (s : S) (l : Loader) (log total : ℕ)
      → length (wanted es) ≤ total
      → 2 * total ≤ 2 ^ log
      → Finishes ds pkg_seed seed fuel es log l.segment.bytes.size (load ds pkg_seed seed fuel s l)
      → LoadsAll es s l
        ⊎ (l.segment.bytes.size < (handle_for (2 ^ log)).data_base + data_size (wanted es))
  unfolding new_hash_table
  by_ending es s l log total announced two (loaded, rest, failure, s', l', run, done, sized) =
      elim done.ending [
        | inr (e, left) ↦ elim done.shortage [
          | inl none_failed ↦ absurd (cc (e, none_failed))
          | inr short ↦ inr (omega (arith, short, sized))
        ]
        | inl (e, ready, gen, inr (left, full)) ↦
            let none_free = free_slots-none (handle_for (2 ^ log)) l'.segment.bytes full in
            let room = done.room in
            let few = some_left (wanted es) loaded rest done.split left in absurd (omega arith)
        | inl (e, ready, gen, inl nothing) ↦
            let all : wanted es ≡ loaded =
              done.split ∙ ap (λ r. loaded ++ r) nothing ∙ append-nil loaded in
            inl (
              s',
              l',
              log,
              run
                  ∙ ap (λ f. closed ds pkg_seed seed fuel f (length loaded) s' l') e
                  ∙ ap (λ n. closed ds pkg_seed seed fuel none n s' l') (ap length (sym all)),
              ready,
              gen,
              (λ k. done.reads k ∙ ap (λ (es' : List Entry). ok (last_value es' k)) (sym all)),
            )
      ]

  -- `Load` succeeds where there is room: on a fresh loader over at most 2 GiB, from a source that
  -- announces at least as many entries as are wanted of it, up to 2^26, and supplies finitely many,
  -- fewer than the fuel, where no wanted key occurs twice and every chunk is below 2 GiB, and the
  -- chunks of the wanted entries and 96 bytes for each announced entry and once more fit the segment.
  -- It counts every wanted entry, each reads as its value, nothing else is present, the loader is
  -- ready and the generation is 1.
  pub load-LoadsAll :
      (es : List Entry) (s s₁ s₂ : S) (l : Loader) (total : ℕ)
      → IsFresh l
      → ds.open_source s ≡ (s₁, Protocol.ok total)
      → total ≤ 2 ^ 26
      → length (wanted es) ≤ total
      → Supplies ds s₁ es s₂
      → length es < fuel
      → IsDistinct (wanted es)
      → IsSmall (wanted es)
      → 0 < seed
      → seed < 2 ^ 64
      → data_size (wanted es) + 96 * total + 96 ≤ l.segment.bytes.size
      → LoadsAll es s l
  unfolding new_hash_table
  load-LoadsAll es s s₁ s₂ l total fresh opened few announced sup enough dist small pos lt room =
      let (log, log_le, two, least, outcome) =
        load-refines ds pkg_seed seed fuel es s s₁ s₂ l total fresh opened few sup enough dist small
          pos lt in
      let bound = layout_small log total log_le least in
      elim outcome [
        | inl (run, full) ↦ absurd (omega (arith, fresh.whole))
        | inr (inl (run, big, short)) ↦ absurd (omega arith)
        | inr (inr done) ↦ elim (by_ending es s l log total announced two done) [
          | inl all ↦ all
          | inr short ↦ absurd (omega arith)
        ]
      ]
