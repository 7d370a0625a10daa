-- ===== src/Loader/Load/Refine.antt =====
-- By induction on what the source supplies: what the loop of `Load` leaves in the segment.
use featcache.Common.{
  ℕ, zero, suc, ◌+◌, ◌<◌, ◌≡◌, ◌∙◌, refl, sym, ap, ◌⊎◌, inl, inr, true, false, List, [], ◌∷◌, none,
  some, length, arith, ok, Bool-cases, if◌then◌else◌,
}
use featcache.Loader.Load.Loop.{
  IsAbsent, round_end, round_skip, round_panic, round_error, round_next, Ends,
}
use featcache.Loader.Load.Supply.{wanted, last_value, or_else, IsDistinct, IsSmall}
use featcache.Loader.Load.{load_failed, is_skipped, stopped_by, ended}
use featcache.Loader.Outcome.{
  chunk_size, lookup, claimed, IsPanic, IsRegionFull, IsHashFull, IsAdded,
}
use featcache.Loader.Put.{put-refines}
use featcache.Loader.Ready.{IsReady}
use featcache.Loader.{Loader, hash_full, data_region_full, put}
use featcache.Memory.Words.{Differs, Differs-refl, Differs-trans, Differs-wider}
use featcache.Source.Supply.{Entry, Supplies}
use featcache.Source.{DataSource, entry, end_of_data}
use featcache.Table.Free.{free_slots}
use featcache.Table.View.{equal_bytes}
use featcache.Table.{HashTable}
use featcache.Loader.Load.Entries.{wanted-skip, wanted-take, still-IsAbsent, reads_both}

module _ {S : Type 0} (ds : DataSource S) (pkg_seed : ℕ) (ht : HashTable) (log seed : ℕ) where
  -- A round that changes nothing, or that adds an entry, before the rest of the loop.
  skip_first :
      (fuel : ℕ) (s s₁ : S) (l : Loader) (count : ℕ) (key value : List ℕ) (es : List Entry)
      → ds.next s ≡ (s₁, entry key value)
      → is_skipped key ≡ true
      → Ends ds pkg_seed ht log seed fuel s₁ l count es
      → Ends ds pkg_seed ht log seed (suc fuel) s l count ((key, value) ∷ es)
  skip_first fuel s s₁ l count key value es e skip (inl (run, big, short)) = inl (
    round_skip ds pkg_seed fuel l count e skip ∙ run,
    big,
    rw (wanted-skip key value es skip) short,
  )
  skip_first fuel s s₁ l count key value es e skip
        (inr (loaded, rest, f, s', l', run, split, done)) =
      inr (
        loaded,
        rest,
        f,
        s',
        l',
        round_skip ds pkg_seed fuel l count e skip ∙ run,
        wanted-skip key value es skip ∙ split,
        done,
      )

  take_first :
      (fuel : ℕ) (s s₁ : S) (l l₁ : Loader) (count : ℕ) (key value : List ℕ) (es : List Entry)
      → ds.next s ≡ (s₁, entry key value)
      → is_skipped key ≡ false
      → put l pkg_seed key value ≡ ok (none, l₁)
      → ((k : List ℕ)
          → lookup ht l₁ seed k
            ≡ (if equal_bytes k key then ok (some value) else lookup ht l seed k))
      → Differs ht.slot_base l.segment.bytes.size l.segment.bytes l₁.segment.bytes
      → free_slots ht l₁.segment.bytes + 1 ≡ free_slots ht l.segment.bytes
      → l₁.data_end ≡ l.data_end + chunk_size key value
      → Ends ds pkg_seed ht log seed fuel s₁ l₁ (count + 1) es
      → Ends ds pkg_seed ht log seed (suc fuel) s l count ((key, value) ∷ es)
  take_first fuel s s₁ l l₁ count key value es e taken added reads d less end
        (inl (run, big, short)) =
      inl (
        round_next ds pkg_seed fuel l count e taken l₁ added ∙ run,
        sym d.same_size ∙ big,
        rw (wanted-take key value es taken) (let size = d.same_size in omega (arith, short, end)),
      )
  take_first fuel s s₁ l l₁ count key value es e taken added reads d less end
        (inr (loaded, rest, f, s', l', run, split, done)) =
      inr (
        (key, value) ∷ loaded,
        rest,
        f,
        s',
        l',
        round_next ds pkg_seed fuel l count e taken l₁ added
            ∙ run
            ∙ ap (λ n. ended f n s' l') (omega arith),
        wanted-take key value es taken ∙ ap (λ r. (key, value) ∷ r) split,
        record {
          reads = λ k.
              done.reads k
              ∙ ap (or_else (last_value loaded k)) (reads k)
              ∙ reads_both (lookup ht l seed k) key value loaded k;
          behind =
              Differs-trans d
                (Differs-wider (omega arith) (omega (arith, d.same_size)) done.behind);
          shortage = elim done.shortage [
            | inl none_failed ↦ inl none_failed
            | inr short ↦ inr (let size = d.same_size in omega (arith, short, end))
          ];
          room = let rest = done.room in omega (arith, rest);
          attached = done.attached;
          formed = done.formed;
          why = done.why;
        },
      )

  -- One entry that is taken, by the outcome of `put`, with the rest of the loop as a function.
  by_outcome :
      (fuel : ℕ) (s s₁ : S) (l : Loader) (count : ℕ) (key value : List ℕ) (es : List Entry)
      → ds.next s ≡ (s₁, entry key value)
      → is_skipped key ≡ false
      → IsReady l ht log seed
      → ((l₁ : Loader)
          → IsReady l₁ ht log seed
          → ((k : List ℕ)
              → lookup ht l₁ seed k
                ≡ (if equal_bytes k key then ok (some value) else lookup ht l seed k))
          → Ends ds pkg_seed ht log seed fuel s₁ l₁ (count + 1) es)
      → IsPanic l pkg_seed key value
        ⊎ (IsRegionFull l pkg_seed key value
            ⊎ (IsHashFull l ht log seed pkg_seed key value
                ⊎ IsAdded l ht log seed pkg_seed key value))
      → Ends ds pkg_seed ht log seed (suc fuel) s l count ((key, value) ∷ es)
  by_outcome fuel s s₁ l count key value es e taken ready rest (inl (run, end)) = inl (
    round_panic ds pkg_seed fuel l count e taken run,
    (let inside = ready.inside in let bounded = ready.bounded in omega arith),
    rw (wanted-take key value es taken)
        (let inside = ready.inside in let bounded = ready.bounded in omega arith),
  )
  by_outcome fuel s s₁ l count key value es e taken ready rest (inr (inl (run, over))) = inr (
    [],
    (key, value) ∷ wanted es,
    some (load_failed data_region_full),
    s₁,
    claimed l key value,
    unfold stopped_by in
        (round_error ds pkg_seed fuel l count e taken data_region_full (claimed l key value) run
          ∙ ap (λ n. ended (some (load_failed data_region_full)) n s₁ (claimed l key value))
              (omega arith)),
    wanted-take key value es taken,
    record {
      reads = λ k. unfold last_value in refl;
      behind = Differs-refl;
      shortage = inr (omega (arith, over));
      room = omega arith;
      attached = ready.attached;
      formed = ready.formed;
      why = inr (inr (refl, λ none_left. cc));
    },
  )
  by_outcome fuel s s₁ l count key value es e taken ready rest
        (inr (inr (inl (l₁, run, ready₁, same, full, d, free)))) =
      inr (
        [],
        (key, value) ∷ wanted es,
        none,
        s₁,
        l₁,
        unfold stopped_by in
            (round_error ds pkg_seed fuel l count e taken hash_full l₁ run
              ∙ ap (λ n. ended none n s₁ l₁) (omega arith)),
        wanted-take key value es taken,
        record {
          reads = λ k. unfold last_value in same k;
          behind = d;
          shortage = inl refl;
          room = omega (arith, free);
          attached = ready₁.attached;
          formed = ready₁.formed;
          why = inr (inl (refl, (λ none_left. cc), ready₁, full));
        },
      )
  by_outcome fuel s s₁ l count key value es e taken ready rest
        (inr (inr (inr (l₁, run, ready₁, reads, d, less, end)))) =
      take_first fuel s s₁ l l₁ count key value es e taken run reads d less end
        (rest l₁ ready₁ reads)

  no_entries :
      (fuel : ℕ) (s s₁ : S) (l : Loader) (count : ℕ)
      → ds.next s ≡ (s₁, end_of_data)
      → IsReady l ht log seed
      → Ends ds pkg_seed ht log seed (suc fuel) s l count []
  unfolding wanted
  no_entries fuel s s₁ l count e ready = inr (
    [],
    [],
    none,
    s₁,
    l,
    round_end ds pkg_seed fuel l count e ∙ ap (λ n. ended none n s₁ l) (omega arith),
    refl,
    record {
      reads = λ k. unfold last_value in refl;
      behind = Differs-refl;
      shortage = inl refl;
      room = omega arith;
      attached = ready.attached;
      formed = ready.formed;
      why = inl (refl, refl, ready);
    },
  )

  -- On a loader that is ready, with a source of finitely many entries and more fuel than these,
  -- where no wanted key occurs twice or is present, and every chunk is below 2 GiB: the loop ends.
  -- It panics only in a segment of exactly 2 GiB. Otherwise it has put a prefix of the wanted
  -- entries, counted them, and each of them reads as its value while every other lookup is as
  -- before; and it stopped because nothing is left, because every slot is taken, or because there
  -- is no room for data, which alone is an error.
  pub load_loop-Ends :
      (es : List Entry) (fuel : ℕ) (s s' : S) (l : Loader) (count : ℕ)
      → Supplies ds s es s'
      → length es < fuel
      → IsReady l ht log seed
      → IsDistinct (wanted es)
      → IsSmall (wanted es)
      → IsAbsent ht l seed (wanted es)
      → Ends ds pkg_seed ht log seed fuel s l count es
  load_loop-Ends es zero s s' l count sup enough ready dist small absent = absurd (omega arith)
  load_loop-Ends [] (suc fuel) s s' l count sup enough ready dist small absent =
      no_entries fuel s s' l count sup ready
  load_loop-Ends ((key, value) ∷ es) (suc fuel) s s' l count (s₁, e, sup) enough ready dist small
        absent =
      elim (Bool-cases (is_skipped key)) [
        | inl skip ↦
            let same = wanted-skip key value es skip in
            skip_first fuel s s₁ l count key value es e skip (
              load_loop-Ends es fuel s₁ s' l count sup (omega arith) ready (rw same at dist)
                (rw same at small) (rw same at absent))
        | inr taken ↦
            let same = wanted-take key value es taken in
            let dist' : IsDistinct ((key, value) ∷ wanted es) = rw same at dist in
            let small' : IsSmall ((key, value) ∷ wanted es) = rw same at small in
            let absent' : IsAbsent ht l seed ((key, value) ∷ wanted es) = rw same at absent in
            by_outcome fuel s s₁ l count key value es e taken ready
              (λ l₁ ready₁ reads.
                load_loop-Ends es fuel s₁ s' l₁ (count + 1) sup (omega arith) ready₁ dist'.1
                  small'.1
                  (still-IsAbsent ht l l₁ seed key value (wanted es) reads dist'.0 absent'.1))
              (put-refines ready pkg_seed key value small'.0 absent'.0)
      ]
