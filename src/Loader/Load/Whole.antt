-- ===== src/Loader/Load/Whole.antt =====
-- `Load` on a loader without a table: `Init`, the loop, and the generation counter.
use featcache.Common.{
  ℕ, ◌+◌, ◌*◌, ◌^◌, ◌≤◌, ◌<◌, ◌≡◌, ◌≢◌, ◌∙◌, refl, sym, ap, subst, ◌⊎◌, inl, inr, true, List, [],
  ◌∷◌, ◌++◌, Option, none, some, length, arith, Run, ok, panic, ◌>>=◌,
}
use featcache.Loader.Init.{data_start, handle_for, init-refines}
use featcache.Loader.Load.Generation.{
  bumped, bump_generation-bumped, bumped_counter, bumped-lookup, bumped_full, bumped-IsReady,
  bumped-free_slots, bumped_size,
}
use featcache.Loader.Load.Loop.{IsAbsent, IsStopped, IsShort, Loaded, Ends}
use featcache.Loader.Load.Refine.{load_loop-Ends}
use featcache.Loader.Load.Supply.{wanted, last_value, or_else, IsDistinct, IsSmall, data_size}
use featcache.Loader.Load.{Failure, load_failed, Ended, ended, load_loop, finish_load, load}
use featcache.Loader.Outcome.{lookup}
use featcache.Loader.Ready.{IsReady}
use featcache.Loader.{Loader, LoadError, segment_too_small, data_region_full, init}
use featcache.Memory.Words.{load_le-Differs}
use featcache.Memory.{load_le}
use featcache.Protocol
use featcache.Source.Supply.{Entry, Supplies}
use featcache.Source.{DataSource}
use featcache.Table.Free.{free_slots}
use featcache.Table.Probe.{hit}
use featcache.Table.Refine.{IsWellFormed}
use featcache.Table.Scan.{free_kind}
use featcache.Table.{HashTable}

-- A loader as the constructor makes it, over a mapped segment of at most 2 GiB.
pub record IsFresh (l : Loader) : Type 0 where
  pub no_table : l.hash_table ≡ none
  pub attached : l.segment.attached ≡ true
  pub whole : l.segment.cap ≡ l.segment.bytes.size
  pub bounded : l.segment.bytes.size ≤ 2 ^ 31

-- The wanted entries `loaded` read as their values and nothing else is present. Without an error
-- the generation is 1, the loader is ready, and either nothing is left or every slot is taken; the
-- only error is that there is no room for data.
pub record IsLoaded (ht : HashTable) (log seed : ℕ) (es loaded rest : List Entry)
    (failure : Option Failure) (l : Loader) : Type 0 where
  pub split : wanted es ≡ loaded ++ rest
  pub formed : IsWellFormed ht log l.segment.bytes
  pub reads : (k : List ℕ) → lookup ht l seed k ≡ ok (last_value loaded k)
  pub shortage : (failure ≡ none) ⊎ (l.segment.bytes.size < ht.data_base + data_size (wanted es))
  pub room : free_slots ht l.segment.bytes + length loaded ≡ ht.capacity
  pub ending :
      ((failure ≡ none)
        × IsReady l ht log seed
        × (load_le 8 l.segment.bytes 16 ≡ 1)
        × ((rest ≡ [])
            ⊎ ((rest ≢ []) × ((i : ℕ) → i < ht.capacity → free_kind ht l.segment.bytes i ≢ hit))))
      ⊎ ((failure ≡ some (load_failed data_region_full)) × (rest ≢ []))

module _ {S : Type 0} (ds : DataSource S) (pkg_seed seed fuel : ℕ) where
  -- What comes back, with the source closed.
  abbrev pub closed : Option Failure → ℕ → S → Loader → Run (Option (Ended S))
  closed f count s l = ended f count (ds.close_source s) l

  or_else-ok : (o : Option (List ℕ)) → or_else o (ok none) ≡ ok o
  or_else-ok none = refl
  or_else-ok (some v) = refl

  -- What `Load` makes of the end of the loop.
  abbrev pub finish : Run (Option (Ended S)) → Run (Option (Ended S))
  finish run = do
    r ← run
    elim r [ none ↦ ok none | some e' ↦ do done ← finish_load ds pkg_seed e'; ok (some done) ]

  finish_error :
      (f : Failure) (count : ℕ) (s : S) (l : Loader)
      → finish (ended (some f) count s l) ≡ closed (some f) count s l
  unfolding finish_load
  finish_error f count s l = refl

  pub finish_done :
      {ht : HashTable} {log seed' : ℕ} (count : ℕ) (s : S) (l : Loader)
      (ready : IsReady l ht log seed')
      → finish (ended none count s l) ≡ closed none count s (bumped ready)
  unfolding finish_load
  finish_done count s l ready = rw (bump_generation-bumped ready) refl

  module _ (s s₁ : S) (l : Loader) (total : ℕ) (opened : ds.open_source s ≡ (s₁, Protocol.ok total))
      (no_table : l.hash_table ≡ none) where
    load_unready :
        (e : LoadError)
        → init l total seed ≡ ok (some e, l)
        → load ds pkg_seed seed fuel s l ≡ closed (some (load_failed e)) 0 s₁ l
    unfolding load
    load_unready e run = simp (ap (λ p. p.1) opened, no_table, run, ap (λ p. p.0) opened, load) refl

    load_started :
        (l₁ : Loader)
        → init l total seed ≡ ok (none, l₁)
        → load ds pkg_seed seed fuel s l ≡ finish (load_loop ds pkg_seed fuel s₁ l₁ 0)
    unfolding load
    load_started l₁ run = rw (ap (λ p. p.1) opened, no_table, run, ap (λ p. p.0) opened, load) refl

  -- How a run ends that got past `Init` with `2 ^ log` slots, in a segment of this size.
  abbrev pub Finishes : List Entry → ℕ → ℕ → Run (Option (Ended S)) → Type 0
  Finishes es log size run =
      (loaded : List Entry) × (rest : List Entry) × (failure : Option Failure) × (s' : S)
      × (l' : Loader) × (run ≡ closed failure (length loaded) s' l')
      × IsLoaded (handle_for (2 ^ log)) log seed es loaded rest failure l'
      × (l'.segment.bytes.size ≡ size)

  -- What the loop left, with the generation counter behind it.
  module _ (es : List Entry) (l₁ : Loader) (log : ℕ)
      (empty : (k : List ℕ) → lookup (handle_for (2 ^ log)) l₁ seed k ≡ ok none)
      (gen : load_le 8 l₁.segment.bytes 16 ≡ 0)
      (free : free_slots (handle_for (2 ^ log)) l₁.segment.bytes ≡ (handle_for (2 ^ log)).capacity)
      (end : l₁.data_end ≡ (handle_for (2 ^ log)).data_base) where
    abbrev ht : HashTable
    ht = handle_for (2 ^ log)

    module _ (loaded rest : List Entry) (failure : Option Failure) (s' : S) (l' : Loader)
        (split : wanted es ≡ loaded ++ rest)
        (done : Loaded ht log seed l₁ loaded rest failure l') where
      values : (k : List ℕ) → lookup ht l' seed k ≡ ok (last_value loaded k)
      values k =
          done.reads k
          ∙ ap (or_else (last_value loaded k)) (empty k)
          ∙ or_else-ok (last_value loaded k)

      room_left : free_slots ht l'.segment.bytes + length loaded ≡ ht.capacity
      room_left = done.room ∙ free

      short_of :
          (failure ≡ none)
          ⊎ (l'.segment.bytes.size < (handle_for (2 ^ log)).data_base + data_size (wanted es))
      short_of = elim done.shortage [
        | inl e ↦ inl e
        | inr short ↦ inr (let size = done.behind.same_size in rw split (omega (arith, short, end)))
      ]

      -- Without an error, the loader is bumped.
      finish_ready :
          failure ≡ none
          → (ready : IsReady l' ht log seed)
          → ((rest ≡ [])
              ⊎ ((rest ≢ [])
                  × ((i : ℕ)
                      → i < ht.capacity
                      → free_kind ht (bumped ready).segment.bytes i ≢ hit)))
          → Finishes es log l₁.segment.bytes.size (finish (ended failure (length loaded) s' l'))
      finish_ready e ready why = (
        loaded,
        rest,
        none,
        s',
        bumped ready,
        ap (λ f. finish (ended f (length loaded) s' l')) e
            ∙ finish_done (length loaded) s' l' ready,
        record {
          split = split;
          formed = (bumped-IsReady ready).formed;
          reads = λ k. bumped-lookup ready k ∙ values k;
          shortage = inl refl;
          room =
              let same = bumped-free_slots ready in
              let rest = room_left in omega (arith, same, rest);
          ending = inl (
            refl,
            bumped-IsReady ready,
            bumped_counter ready
                ∙ (let same =
                      load_le-Differs 8 16 done.behind (inl (omega (arith, ready.headed.behind))) in
                    omega (arith, gen)),
            why,
          );
        },
        bumped_size ready ∙ done.behind.same_size,
      )

      finish_stopped :
          IsStopped ht log seed rest failure l'
          → Finishes es log l₁.segment.bytes.size (finish (ended failure (length loaded) s' l'))
      finish_stopped (inl (e, nothing, ready)) = finish_ready e ready (inl nothing)
      finish_stopped (inr (inl (e, some_left, ready, full))) =
          finish_ready e ready (inr (some_left, bumped_full ready full))
      finish_stopped (inr (inr (e, some_left))) = (
        loaded,
        rest,
        some (load_failed data_region_full),
        s',
        l',
        ap (λ f. finish (ended f (length loaded) s' l')) e
            ∙ finish_error (load_failed data_region_full) (length loaded) s' l',
        record {
          split = split;
          formed = done.formed;
          reads = values;
          shortage = rw e at short_of;
          room = room_left;
          ending = inr (refl, some_left);
        },
        done.behind.same_size,
      )

    all-IsAbsent : (es' : List Entry) → IsAbsent ht l₁ seed es'
    all-IsAbsent [] = tt
    all-IsAbsent (e ∷ es') = (empty e.0, all-IsAbsent es')

    finish_ended :
        (s₁ : S)
        → Ends ds pkg_seed ht log seed fuel s₁ l₁ 0 es
        → ((finish (load_loop ds pkg_seed fuel s₁ l₁ 0) ≡ panic)
            × (l₁.segment.bytes.size ≡ 2 ^ 31)
            × IsShort l₁ (wanted es))
          ⊎ Finishes es log l₁.segment.bytes.size (finish (load_loop ds pkg_seed fuel s₁ l₁ 0))
    finish_ended s₁ (inl (run, big, short)) = inl (ap finish run, big, short)
    finish_ended s₁ (inr (loaded, rest, failure, s', l', run, split, done)) = inr (
        subst (λ r. Finishes es log l₁.segment.bytes.size (finish r))
          (sym (run ∙ ap (λ n. ended failure n s' l') (omega arith)))
          (finish_stopped loaded rest failure s' l' split done done.why))

  -- `Load` on a fresh loader over at most 2 GiB, from a source that opens with an estimate of up to
  -- 2^26 entries and supplies finitely many, fewer than the fuel, where no wanted key occurs twice
  -- and every chunk is below 2 GiB. With the smallest power of two
  -- that has two slots for each estimated entry: either the
  -- layout leaves no room, and it fails, nothing is written and the source is closed; or it panics,
  -- in a segment of exactly 2 GiB that is too small for the wanted entries; or it returns the number of a prefix of the wanted entries, with
  -- the source closed. Then these entries read as their values, take a slot each, and nothing else is present; without
  -- an error the generation is 1, and nothing is left or every slot is taken; the only error is
  -- that there is no room for data, in a segment that is too small for the wanted entries.
  pub load-refines :
      (es : List Entry) (s s₁ s₂ : S) (l : Loader) (total : ℕ)
      → IsFresh l
      → ds.open_source s ≡ (s₁, Protocol.ok total)
      → total ≤ 2 ^ 26
      → Supplies ds s₁ es s₂
      → length es < fuel
      → IsDistinct (wanted es)
      → IsSmall (wanted es)
      → 0 < seed
      → seed < 2 ^ 64
      → (log : ℕ) × (log ≤ 27)
        × (2 * total ≤ 2 ^ log)
        × ((j : ℕ) → 2 * total ≤ 2 ^ j → log ≤ j)
        × (((load ds pkg_seed seed fuel s l ≡ closed (some (load_failed segment_too_small)) 0 s₁ l)
              × (l.segment.cap ≤ data_start (2 ^ log)))
            ⊎ (((load ds pkg_seed seed fuel s l ≡ panic)
                  × (l.segment.bytes.size ≡ 2 ^ 31)
                  × (l.segment.bytes.size
                      < (handle_for (2 ^ log)).data_base + data_size (wanted es)))
                ⊎ Finishes es log l.segment.bytes.size (load ds pkg_seed seed fuel s l)))
  load-refines es s s₁ s₂ l total fresh opened few sup enough dist small seed_pos seed_lt =
      let (log, log_le, two, least, outcome) =
        init-refines l fresh.attached fresh.whole fresh.bounded seed seed_pos seed_lt total few in
      (
        log,
        log_le,
        two,
        least,
        elim outcome [
          | inl (run, full) ↦
              inl (load_unready s s₁ l total opened fresh.no_table segment_too_small run, full)
          | inr (l₁, run, ready, empty, gen, size, free, end) ↦
              let started = load_started s s₁ l total opened fresh.no_table l₁ run in
              inr
                (elim (finish_ended es l₁ log empty gen free end s₁ (
                  load_loop-Ends ds pkg_seed (handle_for (2 ^ log)) log seed es fuel s₁ s₂ l₁ 0 sup
                    enough ready dist small
                    (all-IsAbsent es l₁ log empty gen free end (wanted es)))) [
                      | inl (panics, big, short) ↦
                          inl (started ∙ panics, sym size ∙ big, omega (arith, short, end, size))
                      | inr done ↦ inr (
                          subst (λ r. Finishes es log l.segment.bytes.size r) (sym started)
                            (subst
                              (λ n. Finishes es log n (finish (load_loop ds pkg_seed fuel s₁ l₁ 0)))
                              size done))
                    ])
        ],
      )
