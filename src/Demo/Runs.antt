-- ===== src/Demo/Runs.antt =====
-- The demo runs to its end.
use featcache.Common.{
  ℕ, ◌+◌, ◌*◌, ◌≤◌, ◌<◌, ◌^◌, ◌≡◌, ◌∙◌, refl, ap, inl, inr, true, false, List, [], ◌∷◌, Option,
  none, some, All, length, map, arith, Run, Bool-cases, ok, if◌then◌else◌,
}
use featcache.Demo.Range.{
  IsRange, has_key, supplied, All-IsRange, wanted-supplied, supplied-IsDistinct, IsWithin,
  supplied-IsSmall, data_size-supplied, last_value-supplied,
}
use featcache.Demo.{
  Shown, finished, demo_entries, demo_config, user_key, user_value, vocab_key, vocab_value,
  missing_key, show, run, clean_up, demo,
}
use featcache.Loader.Init.{init-refines}
use featcache.Loader.Life.{new_loader}
use featcache.Loader.Load.Again.{AddsAll, load-AddsAll}
use featcache.Loader.Load.Loop.{IsAbsent}
use featcache.Loader.Load.Room.{layout_small}
use featcache.Loader.Load.Supply.{wanted, last_value, or_else, data_size}
use featcache.Loader.Load.Whole.{closed}
use featcache.Loader.Load.{is_skipped, load}
use featcache.Loader.Outcome.{lookup}
use featcache.Loader.Ready.{IsReady}
use featcache.Loader.{Loader, init}
use featcache.Protocol
use featcache.Protocol.{IoError}
use featcache.Reader.Agree.{new_reader-lookup}
use featcache.Reader.Batch.{get_batch-map}
use featcache.Reader.Connect.{Net}
use featcache.Reader.{Reader, get}
use featcache.Segment.Linux.{Os}
use featcache.Source.Map.{
  MapDataSource, map_source, new_map_data_source, map_get, map_source-Supplies,
}
use featcache.Source.Supply.{Entry}
use featcache.Table.Free.{free_slots}
use featcache.Table.{HashTable, new_hash_table}

abbrev pub demo_keys : List (List ℕ)
demo_keys = map (λ (e : List ℕ × List ℕ). e.0) demo_entries

-- What the demo shows.
abbrev pub shown : Shown
shown = record { count = 4; value = user_value; batch = some vocab_value ∷ none ∷ [] }

keys_taken : All (λ k. is_skipped k ≡ false) demo_keys
unfolding is_skipped
keys_taken = (refl, (refl, (refl, (refl, tt))))

keys-IsWithin : All (IsWithin demo_entries 64) demo_keys
unfolding map_get
keys-IsWithin = (omega arith, (omega arith, (omega arith, (omega arith, tt))))

length-supplied :
    (entries : List (List ℕ × List ℕ)) (order : List (List ℕ))
    → length (supplied entries order) ≡ length order
length-supplied entries [] = refl
length-supplied entries (k ∷ order) =
    let rest = length-supplied entries order in omega (arith, rest)

-- What a lookup finds after the demo's `Load`.
abbrev found : List ℕ → Option (List ℕ)
found k = if has_key demo_keys k then some (map_get demo_entries k) else none

module _ (pkg_seed seed : ℕ) (order : List (List ℕ)) (range : IsRange demo_keys order) where
  abbrev es : List Entry
  es = supplied demo_entries order

  abbrev source_start : MapDataSource
  source_start = new_map_data_source demo_entries order

  all_wanted : wanted es ≡ es
  all_wanted = wanted-supplied demo_entries order (All-IsRange _ range keys_taken)

  four : length es ≡ 4
  four = length-supplied demo_entries order ∙ range.same_count

  all_fit : data_size es ≤ 256
  all_fit =
      let count = range.same_count in
      let sizes = data_size-supplied demo_entries 64 order (All-IsRange _ range keys-IsWithin) in
      omega (arith, sizes, count)

  nothing-IsAbsent :
      (ht : HashTable) (l : Loader)
      → ((k : List ℕ) → lookup ht l seed k ≡ ok none)
      → (es' : List Entry) → IsAbsent ht l seed es'
  nothing-IsAbsent ht l empty [] = tt
  nothing-IsAbsent ht l empty (e ∷ es') = (empty e.0, nothing-IsAbsent ht l empty es')

  loads :
      {ht : HashTable} {log : ℕ} (l : Loader)
      → IsReady l ht log seed
      → ((k : List ℕ) → lookup ht l seed k ≡ ok none)
      → 4 ≤ free_slots ht l.segment.bytes
      → l.data_end + 256 ≤ l.segment.bytes.size
      → AddsAll map_source pkg_seed seed 5 ht log seed es source_start l
  loads {ht} l ready empty slots room =
      let (opened, sup) = map_source-Supplies demo_entries order in
      let count = four in
      let fit = all_fit in
      load-AddsAll map_source pkg_seed seed 5 es source_start source_start _ l (length demo_entries)
        ready opened sup (omega arith)
        (rw all_wanted (supplied-IsDistinct demo_entries order range.once))
        (rw all_wanted (
          supplied-IsSmall demo_entries 64 order (omega arith) (All-IsRange _ range keys-IsWithin)))
        (nothing-IsAbsent ht l empty (wanted es)) (rw all_wanted (omega arith))
        (rw all_wanted (omega arith))

  -- The reader finds what was loaded.
  shows :
      {ht : HashTable} {log : ℕ} (l : Loader)
      → IsReady l ht log seed
      → ((k : List ℕ) → lookup ht l seed k ≡ ok (found k))
      → (r : Reader) × (show pkg_seed l 4 ≡ ok (r, some shown))
  unfolding show map_get
  shows l ready reads =
      let (r, opens, gets) = new_reader-lookup ready l.segment ready.attached refl pkg_seed in
      let answers : (k : List ℕ) → get r k ≡ ok (found k) = λ k. gets k ∙ reads k in
      (
        r,
        rw (opens, answers user_key, get_batch-map r found (vocab_key ∷ missing_key ∷ []) answers)
            refl,
      )

  value_of :
      (k : List ℕ) (before : Run (Option (List ℕ)))
      → before ≡ ok none
      → or_else (last_value (wanted es) k) before ≡ ok (found k)
  value_of k before miss =
      rw (all_wanted, last_value-supplied demo_entries order k, range.same_keys k, miss)
        (elim (Bool-cases (has_key demo_keys k)) [ inl e ↦ rw e refl | inr e ↦ rw e refl ])

  run_steps :
      (l l₁ l' : Loader) (s' : MapDataSource) (r : Reader)
      → init l 2 seed ≡ ok (none, l₁)
      → load map_source pkg_seed seed 5 source_start l₁
        ≡ closed map_source pkg_seed seed 5 none 4 s' l'
      → show pkg_seed l' 4 ≡ ok (r, some shown)
      → run pkg_seed seed order l ≡ ok (inr (l', r, shown))
  unfolding run
  run_steps l l₁ l' s' r starts loaded answers = rw (starts, loaded, answers) refl

  run-shown :
      (l : Loader)
      → l.segment.attached ≡ true
      → l.segment.cap ≡ l.segment.bytes.size
      → l.segment.bytes.size ≡ 64 * 1024 * 1024
      → 0 < seed
      → seed < 2 ^ 64
      → (l' : Loader) × (r : Reader) × (run pkg_seed seed order l ≡ ok (inr (l', r, shown)))
  unfolding run new_hash_table
  run-shown l attached whole size pos lt =
      let (log, log_le, two, least, outcome) =
        init-refines l attached whole (omega arith) seed pos lt 2 (omega arith) in
      let bound = layout_small log 2 log_le least in
      elim outcome [
        | inl (stops, full) ↦ absurd (omega arith)
        | inr (l₁, starts, ready, empty, gen, same_size, free, end) ↦
            let (s', l', loaded, ready', reads) =
              loads l₁ ready empty (omega arith) (omega arith) in
            let (r, answers) = shows l' ready' (λ k. reads k ∙ value_of k _ (empty k)) in
            (
              l',
              r,
              run_steps l l₁ l' s' r starts
                  (loaded
                    ∙ ap (λ n. closed map_source pkg_seed seed 5 none n s' l')
                        (ap length all_wanted ∙ four))
                  answers,
            )
      ]

  -- Where `NewLoader` has mapped the 64 MiB of the segment, the demo runs to its end, however `range`
  -- goes through its map, and whatever seed is drawn: it counts its four entries, finds the value of
  -- the key it looks up, and the batch has one hit and the expected miss. What is left open are the
  -- errors of the two closings.
  pub demo-finished :
      {W : Type 0} (os : Os W) (net : Net W) (w : W) (l : Loader)
      → (new_loader os w demo_config).1 ≡ Protocol.ok l
      → l.segment.attached ≡ true
      → l.segment.cap ≡ l.segment.bytes.size
      → l.segment.bytes.size ≡ 64 * 1024 * 1024
      → 0 < seed
      → seed < 2 ^ 64
      → (w' : W) × (closing : Option IoError) × (destroying : List IoError) × (demo os net pkg_seed
            seed order w
          ≡ ok (w', finished shown closing destroying))
  unfolding demo
  demo-finished os net w l made attached whole size pos lt =
      let (l', r, ran) = run-shown l attached whole size pos lt in
      let (w₂, closing, destroying) = clean_up os net (new_loader os w demo_config).0 l' r in
      (w₂, closing, destroying, rw (made, ran, demo) refl)
