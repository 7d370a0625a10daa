-- ===== src/Loader/Frame.antt =====
-- A write behind the chunks in use leaves the table as it is: `put` writes its chunk before it
-- touches the index.
use native.Mathlib.Decide.{ℕ_discrete}
use featcache.Common.{
  ℕ, ◌+◌, ◌≤◌, ◌<◌, ◌≡◌, ◌∙◌, sym, ap, inl, inr, List, some, length, arith, ok, ◌==◌, ==_iff,
  Bool-cases,
}
use featcache.Layout.{slot_used}
use featcache.Memory.{Memory, load_le}
use featcache.Memory.Words.{Differs, load_le-Differs, slice-Differs}
use featcache.Table.Probe.{Trail-map_below}
use featcache.Table.Refine.{IsWellFormed, IsOccupied, key_kind_hit, get_hit, get_miss, get_cases}
use featcache.Table.Scan.{key_kind, slot_value}
use featcache.Table.View.{next-lt, home-lt, slot_at, matches, value_at}
use featcache.Table.{HashTable, slot_off, next, get}

-- The chunk of every used slot ends at `end` or before.
abbrev pub IsStored : HashTable → Memory → ℕ → Type 0
IsStored ht m end =
    (i : ℕ)
    → i < ht.capacity
    → (slot_at ht m i).status ≡ slot_used
    → ht.data_base
        + (slot_at ht m i).offset
        + 4
        + load_le 4 m (ht.data_base + (slot_at ht m i).offset)
        + (slot_at ht m i).vlen
      ≤ end

module _ {ht : HashTable} {log lo hi : ℕ} {m m' : Memory} (wf : IsWellFormed ht log m)
    (stored : IsStored ht m lo) (after : ht.data_base ≤ lo) (d : Differs lo hi m m') where
  pub same_slot : (i : ℕ) → i < ht.capacity → slot_at ht m' i ≡ slot_at ht m i
  unfolding slot_at
  same_slot i lt =
      let off = slot_off ht i in
      let fits = wf.laid.slots_fit in
      rw (
        load_le-Differs 8 off d (omega arith),
        load_le-Differs 4 (off + 8) d (omega arith),
        load_le-Differs 4 (off + 12) d (omega arith),
        load_le-Differs 4 (off + 16) d (omega arith),
      )

  same_matches :
      (o : ℕ) (key : List ℕ)
      → ht.data_base + o + 4 + load_le 4 m (ht.data_base + o) ≤ lo
      → matches ht m' o key ≡ matches ht m o key
  unfolding matches
  same_matches o key h =
      let chunk = ht.data_base + o in
      simp (load_le-Differs 4 chunk d (omega arith), d.same_size)
        (elim (ℕ_discrete (load_le 4 m chunk) (length key)) [
          | yes e ↦ simp (slice-Differs (length key) (chunk + 4) d (omega arith))
          | no ne ↦ ground arith
        ])

  same_value :
      (i : ℕ)
      → i < ht.capacity
      → (slot_at ht m i).status ≡ slot_used
      → slot_value ht m' i ≡ slot_value ht m i
  unfolding value_at
  same_value i lt used =
      let o = (slot_at ht m i).offset in
      let chunk = ht.data_base + o in
      let v = (slot_at ht m i).vlen in
      let fits = stored i lt used in
      simp (
        same_slot i lt,
        load_le-Differs 4 chunk d (omega arith),
        slice-Differs v (chunk + 4 + load_le 4 m chunk) d (omega arith),
        d.same_size,
      )

  same_kind :
      (h : ℕ) (k : List ℕ) (i : ℕ) → i < ht.capacity → key_kind ht m' h k i ≡ key_kind ht m h k i
  unfolding key_kind
  same_kind h k i lt = elim (Bool-cases ((slot_at ht m i).status == slot_used)) [
    | inl used ↦ simp (
      same_slot i lt,
      same_matches (slot_at ht m i).offset k
          (omega (arith, stored i lt ((==_iff (slot_at ht m i).status slot_used).0 used))),
    )
    | inr other ↦ simp (same_slot i lt) (ground arith)
  ]

  used_still : (i : ℕ) → i < ht.capacity → IsOccupied ht m i → IsOccupied ht m' i
  used_still i lt occ = rw (same_slot i lt) occ

  pub frame-IsWellFormed : IsWellFormed ht log m'
  frame-IsWellFormed = record {
    laid = rw d.same_size wf.laid;
    reached = λ i lt used.
        let (n, n_lt, trail) = wf.reached i lt (rw (same_slot i lt) at used) in
        (
          n,
          n_lt,
          rw (same_slot i lt) (
              Trail-map_below (next ht) ht.capacity (next-lt wf.laid) used_still n _ i
                (home-lt wf.laid _) trail),
        );
    unique = λ h k i j i_lt j_lt hi' hj.
        wf.unique h k i j i_lt j_lt (sym (same_kind h k i i_lt) ∙ hi')
          (sym (same_kind h k j j_lt) ∙ hj);
  }

  pub frame-IsStored : IsStored ht m' lo
  frame-IsStored i lt used =
      let was : (slot_at ht m i).status ≡ slot_used = rw (same_slot i lt) at used in
      let fits = stored i lt was in
      rw
        (same_slot i lt, load_le-Differs 4 (ht.data_base + (slot_at ht m i).offset) d (omega arith))
        fits

  -- Every lookup answers as before.
  pub frame-get : (h : ℕ) (k : List ℕ) → get ht m' h k ≡ get ht m h k
  frame-get h k = elim (get_cases wf h k) [
    | inl (i, lt, e) ↦
        get_hit frame-IsWellFormed h k i lt (same_kind h k i lt ∙ e)
        ∙ ap (λ v. ok (some v)) (same_value i lt ((key_kind_hit ht m h k i).0 e).0)
        ∙ sym (get_hit wf h k i lt e)
    | inr never ↦
        get_miss frame-IsWellFormed h k (λ i lt e. never i lt (sym (same_kind h k i lt) ∙ e))
        ∙ sym (get_miss wf h k never)
  ]
