-- ===== src/Loader/Before.antt =====
-- A write before the slots leaves the table as it is: the generation counter is in the header.
use featcache.Common.{
  ℕ, ◌+◌, ◌≤◌, ◌≡◌, ◌∙◌, refl, sym, ap, fun_ext, List, Option, none, some, length, arith, ok,
}
use featcache.Memory.{Memory, load_le}
use featcache.Memory.Words.{Differs, load_le-Differs, slice-Differs}
use featcache.Loader.Frame.{IsStored}
use featcache.Table.Probe.{Kind, search, Trail-map}
use featcache.Table.Refine.{IsWellFormed}
use featcache.Table.Scan.{key_kind, slot_value, find, read_found, get-eq}
use featcache.Table.View.{slot_at, matches, value_at}
use featcache.Table.{HashTable, slot_off, home, next, get}

module _ {ht : HashTable} {log lo hi : ℕ} {m m' : Memory} (wf : IsWellFormed ht log m)
    (before : hi ≤ ht.slot_base) (d : Differs lo hi m m') where
  pub same_slot : (i : ℕ) → slot_at ht m' i ≡ slot_at ht m i
  unfolding slot_at
  same_slot i =
      let off = slot_off ht i in
      rw (
        load_le-Differs 8 off d (omega arith),
        load_le-Differs 4 (off + 8) d (omega arith),
        load_le-Differs 4 (off + 12) d (omega arith),
        load_le-Differs 4 (off + 16) d (omega arith),
      )

  behind : hi ≤ ht.data_base
  behind = let fit = wf.laid.slots_fit in omega arith

  same_matches : (o : ℕ) (key : List ℕ) → matches ht m' o key ≡ matches ht m o key
  unfolding matches
  same_matches o key =
      let chunk = ht.data_base + o in
      simp (
        load_le-Differs 4 chunk d (omega (arith, behind)),
        slice-Differs (length key) (chunk + 4) d (omega (arith, behind)),
        d.same_size,
      )

  same_value : (i : ℕ) → slot_value ht m' i ≡ slot_value ht m i
  unfolding value_at
  same_value i =
      let chunk = ht.data_base + (slot_at ht m i).offset in
      simp (
        same_slot i,
        load_le-Differs 4 chunk d (omega (arith, behind)),
        slice-Differs (slot_at ht m i).vlen (chunk + 4 + load_le 4 m chunk) d
            (omega (arith, behind)),
        d.same_size,
      )

  same_kind : (h : ℕ) (k : List ℕ) → key_kind ht m' h k ≡ key_kind ht m h k
  unfolding key_kind
  same_kind h k = fun_ext (λ i. rw (same_slot i, same_matches) refl)

  pub before-IsWellFormed : IsWellFormed ht log m'
  before-IsWellFormed = record {
    laid = rw d.same_size wf.laid;
    reached = λ i lt used.
        let (n, n_lt, trail) = wf.reached i lt (rw (same_slot i) at used) in
        (
          n,
          n_lt,
          rw (same_slot i) (Trail-map (next ht) (λ j occ. rw (same_slot j) occ) n _ i trail),
        );
    unique = λ h k. rw (same_kind h k) (wf.unique h k);
  }

  pub before-IsStored : (end : ℕ) → IsStored ht m end → IsStored ht m' end
  before-IsStored end stored i lt used =
      rw
        (
          same_slot i,
          load_le-Differs 4 (ht.data_base + (slot_at ht m i).offset) d (omega (arith, behind)),
        )
        (stored i lt (rw (same_slot i) at used))

  same_found : (o : Option ℕ) → read_found ht m' o ≡ read_found ht m o
  same_found none = refl
  same_found (some i) = ap some (same_value i)

  pub before-get : (h : ℕ) (k : List ℕ) → get ht m' h k ≡ get ht m h k
  before-get h k =
      get-eq m' before-IsWellFormed.laid h k
      ∙ ap ok (same_found (find ht m' h k) ∙ ap (read_found ht m) (ap found (same_kind h k)))
      ∙ sym (get-eq m wf.laid h k)
    where
      found : (ℕ → Kind) → Option ℕ
      found kind = search (next ht) kind ht.capacity (home ht h)
