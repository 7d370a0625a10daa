-- ===== src/Table/Steps/Stable.antt =====
-- A reader beside a writer: a key that was in the table when the reader began is found, whatever
-- the writer does in between.
use featcache.Common.{
  ℕ, suc, ◌*◌, true, ◌≤◌, ◌<◌, ◌≡◌, subst, ok_injective, ◌∙◌, sym, ◌⊎◌, inl, inr, List, some, ok,
  Returns, arith,
}
use featcache.Loader.Frame.{IsStored}
use featcache.Memory.{Memory}
use featcache.Table.Probe.{hit, Trail-map_below}
use featcache.Table.Refine.{IsWellFormed, IsOccupied, key_kind_hit, get_hit, get_miss, get_cases}
use featcache.Table.Scan.{key_kind, slot_value}
use featcache.Table.Steps.Kept.{IsUsed, Keeps, Keeps-refl, Keeps-behind, IsAt}
use featcache.Table.Steps.Reader.{IsOnWay, get_step-IsOnWay, is_pending, by_look}
use featcache.Table.Steps.System.{
  System, Writes, copies, begins, stores, Reach, start, write, read, calling,
}
use featcache.Table.Steps.Writer.{IsKept, insert_step-IsKept}
use featcache.Table.Steps.{insert_step, answered, get_step}
use featcache.Table.View.{next-lt, home-lt}
use featcache.Table.{HashTable, home, next, get}

-- No entry was deleted.
abbrev pub IsUndeleted : HashTable → Memory → Type 0
IsUndeleted ht m = (i : ℕ) → i < ht.capacity → IsOccupied ht m i → IsUsed ht m i

module _ {ht : HashTable} {log frontier : ℕ} {m₀ : Memory} (wf : IsWellFormed ht log m₀)
    (behind : ht.data_base ≤ frontier) (stored : IsStored ht m₀ frontier) (hash : ℕ)
    (key value : List ℕ) (i : ℕ) (lt : i < ht.capacity) (here : key_kind ht m₀ hash key i ≡ hit)
    (reads : slot_value ht m₀ i ≡ value) where
  -- What holds in every reachable state, after so many steps of the reader.
  record IsLive (n : ℕ) (s : System) : Type 0 where
    kept : Keeps ht frontier m₀ s.mem
    at : IsAt ht m₀ s.writer
    way : IsOnWay ht m₀ i value n s.reader

  Writes-IsLive : {n : ℕ} {s t : System} → Writes ht frontier s t → IsLive n s → IsLive n t
  Writes-IsLive (copies done lo hi e far d) live = record {
    kept = Keeps-behind wf.laid behind far d live.kept;
    at = live.at;
    way = live.way;
  }
  Writes-IsLive (begins done h o v e) live = record {
    kept = live.kept;
    at = home-lt wf.laid h;
    way = live.way;
  }
  Writes-IsLive {s = s} (stores e) live =
      let (r, run, keeps) =
        insert_step-IsKept wf.laid behind s.hash s.offset s.vlen live.kept s.writer live.at in
      let (kept, at) = subst (IsKept ht frontier m₀) (ok_injective (sym run ∙ e)) keeps in
      record { kept = kept; at = at; way = live.way }

  Reach-IsLive :
      {s₀ : System} {n : ℕ} {s : System}
      → Reach ht frontier hash key s₀ n s
      → IsLive 0 s₀
      → IsLive n s
  Reach-IsLive start first = first
  Reach-IsLive (write r w) first = Writes-IsLive w (Reach-IsLive r first)
  Reach-IsLive (read {n} {s} r e) first =
      let live = Reach-IsLive r first in
      let (look, run, way) =
        get_step-IsOnWay wf behind stored hash key value i lt here reads live.kept n s.reader
          live.way in
      record {
        kept = live.kept;
        at = live.at;
        way = subst (IsOnWay ht m₀ i value (suc n)) (ok_injective (sym run ∙ e)) way;
      }

module _ {ht : HashTable} {log frontier : ℕ} {m₀ : Memory} (wf : IsWellFormed ht log m₀)
    (undeleted : IsUndeleted ht m₀) (behind : ht.data_base ≤ frontier)
    (stored : IsStored ht m₀ frontier) (hash : ℕ) (key value : List ℕ)
    (present : get ht m₀ hash key ≡ ok (some value)) where
  -- The slot of the key, and that every reachable state is live.
  IsLive-states :
      (i : ℕ) × (lt : i < ht.capacity) × (here : key_kind ht m₀ hash key i ≡ hit)
      × (reads : slot_value ht m₀ i ≡ value) × ((n : ℕ) (s : System)
          → Reach ht frontier hash key (calling ht hash m₀) n s
          → IsLive wf behind stored hash key value i lt here reads n s)
  IsLive-states = elim (get_cases wf hash key) [
    | inr never ↦ absurd (cc (get_miss wf hash key never, present))
    | inl (i, lt, here) ↦
        let parts = (key_kind_hit ht m₀ hash key i).0 here in
        let (k, k_lt, trail) = wf.reached i lt parts.0 in
        let home_lt = home-lt wf.laid hash in
        let used =
          Trail-map_below (next ht) ht.capacity (next-lt wf.laid) undeleted k (home ht hash) i
            home_lt (rw parts.1 at trail) in
        let reads : slot_value ht m₀ i ≡ value = cc (get_hit wf hash key i lt here, present) in
        (
          i,
          lt,
          here,
          reads,
          (λ n s r. Reach-IsLive wf behind stored hash key value i lt here reads r (record {
            kept = Keeps-refl wf.laid behind;
            at = tt;
            way = (omega arith, record { gap = k; near = k_lt; below = home_lt; trail = used });
          })),
        )
  ]

  -- A reader calls `Get` for a key that is in a well-formed table, between two insertions, where
  -- no entry was deleted and every chunk ends in front of the frontier, which is not in front of
  -- the data region. However the steps of `Get` and those of a writer interleave, which copies
  -- behind the frontier and inserts what it likes: the call may be on its way for three steps for
  -- each slot at most, and what it answers, after one step more at the latest, is the value that
  -- the key had when the call began.
  pub concurrent_get :
      (n : ℕ) (s : System)
      → Reach ht frontier hash key (calling ht hash m₀) n s
      → ((is_pending s.reader ≡ true) × (n ≤ 3 * ht.capacity)) ⊎ (s.reader ≡ answered (some value))
  concurrent_get n s r =
      let (i, lt, here, reads, live) = IsLive-states in
      by_look wf behind stored hash key value i lt here reads n s.reader (live n s r).way

  -- A reader calls `Get` for a key that is in a well-formed table, between two insertions, where no
  -- entry was deleted and every chunk ends in front of the frontier, which is not in front of the
  -- data region. However the steps of `Get` and those of a writer interleave, which copies behind the
  -- frontier and inserts what it likes: in every state that they reach the segment has the size,
  -- every slot that was in use has the fields, and every byte of the data in front of the frontier
  -- has the value that it had when the call began. The next step of the reader returns, and the call
  -- is on its way then or has answered the value that the key had; and the next step of the writer
  -- returns, and leaves all of that as it was.
  pub steps_keep :
      (n : ℕ) (s : System)
      → Reach ht frontier hash key (calling ht hash m₀) n s
      → Keeps ht frontier m₀ s.mem
        × Returns
            (get_step ht hash key s.reader s.mem)
            (λ look. (is_pending look ≡ true) ⊎ (look ≡ answered (some value)))
        × Returns
            (insert_step ht s.hash s.offset s.vlen s.writer s.mem)
            (λ next. Keeps ht frontier m₀ next.1)
  steps_keep n s r =
      let (i, lt, here, reads, live) = IsLive-states in
      let now = live n s r in
      let (look, looks, way) =
        get_step-IsOnWay wf behind stored hash key value i lt here reads now.kept n s.reader
          now.way in
      let (next, moves, keeps) =
        insert_step-IsKept wf.laid behind s.hash s.offset s.vlen now.kept s.writer now.at in
      (
        now.kept,
        (
          look,
          looks,
          elim (by_look wf behind stored hash key value i lt here reads (suc n) look way) [
            | inl (pending, _) ↦ inl pending
            | inr done ↦ inr done
          ],
        ),
        (next, moves, keeps.0),
      )
