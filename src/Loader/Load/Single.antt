-- ===== src/Loader/Load/Single.antt =====
-- What becomes of a source that does not know how many entries it has: a table of one slot.
use featcache.Common.{
  ℕ, ◌^◌, ◌≤◌, ◌<◌, ◌≡◌, ◌∙◌, refl, ap, subst, ◌⊎◌, inl, inr, List, [], ◌∷◌, ◌++◌, Option, some,
  length, map, arith, Run, ok, panic, Option-cases,
}
use featcache.Hash.{hash_key_with_seed}
use featcache.Loader.Init.{handle_for}
use featcache.Loader.Load.Supply.{wanted, last_value, IsDistinct, IsSmall}
use featcache.Loader.Load.Whole.{IsFresh, IsLoaded, load-refines}
use featcache.Loader.Load.{Failure, Ended, ended, load}
use featcache.Loader.{Loader}
use featcache.Memory.{Memory}
use featcache.Protocol
use featcache.Source.Line.{
  Scanning, LineDataSource, split, new_line_data_source, open_source, line_source, Gives,
  at_scanner, line_source-Supplies,
}
use featcache.Source.Supply.{Entry}
use featcache.Table.Probe.{hit}
use featcache.Table.Refine.{
  IsWellFormed, equal_bytes_iff, matches_unique, key_kind_hit, get_cases, get_miss,
}
use featcache.Table.Scan.{key_kind}
use featcache.Table.View.{slot_at}
use featcache.Table.{HashTable, new_hash_table, get}

found_head :
    (key value : List ℕ) (es : List Entry)
    → (v : List ℕ) × (last_value ((key, value) ∷ es) key ≡ some v)
unfolding last_value
found_head key value es = elim (Option-cases (last_value es key)) [
  | inl e ↦ (value, rw (e, (equal_bytes_iff key key).1 refl) refl)
  | inr (v, e) ↦ (v, rw e refl)
]

found_later :
    (e : Entry) (es : List Entry) (k v : List ℕ)
    → last_value es k ≡ some v
    → last_value (e ∷ es) k ≡ some v
unfolding last_value
found_later (key, value) es k v h = rw h refl

module _ {ht : HashTable} {log : ℕ} {m : Memory} (wf : IsWellFormed ht log m) where
  -- What a lookup finds stands in a slot.
  hit_of_get :
      (h : ℕ) (k v : List ℕ)
      → get ht m h k ≡ ok (some v)
      → (i : ℕ) × (i < ht.capacity) × (key_kind ht m h k i ≡ hit)
  hit_of_get h k v e = elim (get_cases wf h k) [
    | inl found ↦ found
    | inr never ↦ absurd (cc (get_miss wf h k never))
  ]

  -- In a table of one slot two keys cannot both be present.
  one_key :
      ht.capacity ≡ 1
      → (h h' : ℕ) (k k' v v' : List ℕ) → get ht m h k ≡ ok (some v)
      → get ht m h' k' ≡ ok (some v')
      → k ≡ k'
  one_key one h h' k k' v v' e e' =
      let (i, i_lt, hit_i) = hit_of_get h k v e in
      let (j, j_lt, hit_j) = hit_of_get h' k' v' e' in
      let same : j ≡ i = omega arith in
      let here : key_kind ht m h' k' i ≡ hit = rw same at hit_j in
      matches_unique ht m (slot_at ht m i).offset k k' ((key_kind_hit ht m h k i).0 hit_i).2
        ((key_kind_hit ht m h' k' i).0 here).2

module _ {seed : ℕ} {es rest : List Entry} {failure : Option Failure} {l : Loader} where
  at_most_one :
      (loaded : List Entry)
      → IsLoaded (handle_for (2 ^ 0)) 0 seed es loaded rest failure l
      → IsDistinct (loaded ++ rest)
      → length loaded ≤ 1
  unfolding new_hash_table
  at_most_one [] done dist = omega arith
  at_most_one (e ∷ []) done dist = omega arith
  at_most_one ((a, x) ∷ ((b, y) ∷ more)) done dist =
      let (v, at_a) = found_head a x ((b, y) ∷ more) in
      let (w, at_b) = found_head b y more in
      absurd (
        dist.0.0 (
          one_key done.formed refl (hash_key_with_seed b seed) (hash_key_with_seed a seed) b a w v
            (done.reads b ∙ ap ok (found_later (a, x) ((b, y) ∷ more) b w at_b))
            (done.reads a ∙ ap ok at_a)))

opened_lines :
    {C : Type 0} (scanning : Scanning C) (path : List ℕ) (c : C)
    → scanning.open_file path ≡ Protocol.ok c
    → (line_source scanning).open_source (new_line_data_source path)
      ≡ (at_scanner scanning path c 0, Protocol.ok 0)
unfolding line_source open_source new_line_data_source
opened_lines scanning path c e = rw (e, open_source) refl

module _ {C : Type 0} (scanning : Scanning C) (pkg_seed seed fuel : ℕ) where
  abbrev pub load_file : List ℕ → Loader → Run (Option (Ended (LineDataSource C)))
  load_file path l = load (line_source scanning) pkg_seed seed fuel (new_line_data_source path) l

  -- `Load` takes in at most one line of a text file, however many it has: the source's estimate is 0,
  -- for which `Init` makes a table of one slot. So it is for every fresh loader over at most 2 GiB
  -- and every file whose scanner gives finitely many lines, fewer than the fuel, with distinct wanted
  -- keys and chunks below 2 GiB; it may also panic, in a segment of exactly 2 GiB.
  pub load-line_source :
      (path : List ℕ) (c c' : C) (lines : List (List ℕ)) (l : Loader)
      → scanning.open_file path ≡ Protocol.ok c
      → Gives scanning c lines c'
      → length (map split lines) < fuel
      → IsFresh l
      → IsDistinct (wanted (map split lines))
      → IsSmall (wanted (map split lines))
      → 0 < seed
      → seed < 2 ^ 64
      → ((load_file path l ≡ panic) × (l.segment.bytes.size ≡ 2 ^ 31))
        ⊎ ((failure : Option Failure) × (count : ℕ) × (s' : LineDataSource C) × (l' : Loader)
            × (load_file path l ≡ ended failure count s' l')
            × (count ≤ 1))
  load-line_source path c c' lines l opened gives enough fresh dist small seed_pos seed_lt =
      let (log, _, _, least, outcome) =
        load-refines (line_source scanning) pkg_seed seed fuel (map split lines)
          (new_line_data_source path) (at_scanner scanning path c 0) _ l 0 fresh
          (opened_lines scanning path c opened) (omega arith)
          (line_source-Supplies scanning path c c' 0 lines gives) enough dist small seed_pos
          seed_lt in
      let none_expected : log ≡ 0 = omega (arith, least 0 (omega arith)) in
      elim outcome [
        | inl (run, full) ↦ inr (some _, 0, _, l, run, omega arith)
        | inr (inl (panics, big, _)) ↦ inl (panics, big)
        | inr (inr (loaded, rest, failure, s', l', run, done, _)) ↦ inr (
          failure,
          length loaded,
          (line_source scanning).close_source s',
          l',
          run,
          at_most_one loaded
              (subst
                (λ n. IsLoaded (handle_for (2 ^ n)) n seed (map split lines) loaded rest failure l')
                none_expected done)
              (rw done.split at dist),
        )
      ]
