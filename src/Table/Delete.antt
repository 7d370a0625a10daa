-- ===== src/Table/Delete.antt =====
-- What `Delete` does to the map that the table stands for.
use native.Mathlib.Decide.{ℕ_discrete}
use featcache.Common.{
  ℕ, ◌+◌, ◌*◌, ◌<◌, ◌≡◌, ◌≢◌, ◌∙◌, sym, ap, ◌↔◌, ◌⊎◌, inl, inr, true, false, ◌&&◌, List, none, some,
  arith, ◌==◌, if◌then◌else◌, Option-cases, Bool-cases, ok,
}
use featcache.Layout.{HashSlot, slot_used, slot_tomb, slot_size}
use featcache.Memory.{Memory}
use featcache.Memory.Words.{Differs, Differs-wider}
use featcache.Table.Count.{count_less}
use featcache.Table.Probe.{hit, Trail, Trail-map}
use featcache.Table.Refine.{
  IsWellFormed, IsOccupied, same_entry_iff, matches_unique, key_kind_hit, find_sound, get_hit,
  get_miss, get_cases,
}
use featcache.Table.Scan.{
  key_kind, find, slot_value, read_found, buried, delete_result, get-eq, delete-eq,
}
use featcache.Table.View.{IsLaidOut, slot_at, matches, value_at, equal_bytes}
use featcache.Table.Write.{
  buried-Differs, slot_at-buried_self, slot_at-Differs, matches-Differs, value_at-Differs,
}
use featcache.Table.{HashTable, home, next, get, delete, count}

-- `Delete` buried a slot: the key is absent now, every other lookup answers as before, one slot
-- fewer is used, and only bytes of the slot region changed.
pub record Deleted (ht : HashTable) (log : ℕ) (m : Memory) (hash : ℕ) (key : List ℕ) (m' : Memory)
    : Type 0 where
  pub well_formed : IsWellFormed ht log m'
  pub reads :
      (h : ℕ) (k : List ℕ)
      → get ht m' h k ≡ (if h == hash && equal_bytes k key then ok none else get ht m h k)
  pub counted : (n : ℕ) → count ht m ≡ ok (n + 1) → count ht m' ≡ ok n
  pub elsewhere : Differs ht.slot_base (ht.slot_base + ht.capacity * slot_size) m m'

module _ {ht : HashTable} {log : ℕ} {m : Memory} (wf : IsWellFormed ht log m) (hash : ℕ)
    (key : List ℕ) where
  module _ (p : ℕ) (found : find ht m hash key ≡ some p) where
    after : Memory
    after = buried ht m p

    parts : (key_kind ht m hash key p ≡ hit) × (p < ht.capacity)
    parts = find_sound wf hash key p found

    here : slot_at ht after p ≡ record (slot_at ht m p) { status = slot_tomb }
    unfolding after
    here = slot_at-buried_self ht m p

    there : (j : ℕ) → j ≢ p → slot_at ht after j ≡ slot_at ht m j
    unfolding after
    there = slot_at-Differs ht p (buried-Differs ht m p)

    same_matches : (o : ℕ) (k : List ℕ) → matches ht after o k ≡ matches ht m o k
    unfolding after
    same_matches = matches-Differs ht p (buried-Differs ht m p) wf.laid parts.1

    same_value : (o v : ℕ) → value_at ht after o v ≡ value_at ht m o v
    unfolding after
    same_value = value_at-Differs ht p (buried-Differs ht m p) wf.laid parts.1

    laid_after : IsLaidOut ht log after.size
    unfolding after
    laid_after = rw (buried-Differs ht m p).same_size wf.laid

    tomb_here : (slot_at ht after p).status ≡ slot_tomb
    tomb_here = ap (λ (s : HashSlot). s.status) here

    after-IsOccupied : (j : ℕ) → IsOccupied ht m j → IsOccupied ht after j
    after-IsOccupied j occ = elim (ℕ_discrete j p) [
      | yes e ↦ rw e (omega (arith, tomb_here))
      | no ne ↦ rw (there j ne) occ
    ]

    hit_there : (h : ℕ) (k : List ℕ) (j : ℕ) → j ≢ p → key_kind ht after h k j ≡ key_kind ht m h k j
    unfolding key_kind
    hit_there h k j ne = rw (there j ne, same_matches)

    gone_here : (h : ℕ) (k : List ℕ) → key_kind ht after h k p ≢ hit
    gone_here h k e =
        let used = ((key_kind_hit ht after h k p).0 e).0 in absurd (omega (arith, tomb_here))

    -- Before, the slot answered to this hash and key only.
    hit_here : (h : ℕ) (k : List ℕ) → (key_kind ht m h k p ≡ hit) ↔ ((h ≡ hash) × (k ≡ key))
    hit_here h k =
        let mine = (key_kind_hit ht m hash key p).0 parts.0 in
        (
          (λ e.
              let q = (key_kind_hit ht m h k p).0 e in
              (sym q.1 ∙ mine.1, matches_unique ht m (slot_at ht m p).offset k key q.2 mine.2)),
          (λ e. rw (e.0, e.1) parts.0),
        )

    reached_after :
        (i : ℕ)
        → i < ht.capacity
        → (slot_at ht after i).status ≡ slot_used
        → (n : ℕ) × (n < ht.capacity)
          × Trail (next ht) (IsOccupied ht after) n (home ht (slot_at ht after i).hash) i
    reached_after i lt used = elim (ℕ_discrete i p) [
      | yes e ↦ absurd (omega (arith, tomb_here, ap (λ j. (slot_at ht after j).status) e))
      | no ne ↦
          let (n, n_lt, trail) = wf.reached i lt (rw (there i ne) at used) in
          (n, n_lt, rw (there i ne) (Trail-map (next ht) after-IsOccupied n _ i trail))
    ]

    not_here : (h : ℕ) (k : List ℕ) (j : ℕ) → key_kind ht after h k j ≡ hit → j ≢ p
    not_here h k j e same = gone_here h k (rw same at e)

    after-IsWellFormed : IsWellFormed ht log after
    after-IsWellFormed = record {
      laid = laid_after;
      reached = reached_after;
      unique = λ h k i j i_lt j_lt hi hj.
          wf.unique h k i j i_lt j_lt (sym (hit_there h k i (not_here h k i hi)) ∙ hi)
            (sym (hit_there h k j (not_here h k j hj)) ∙ hj);
    }

    get-after :
        (h : ℕ) (k : List ℕ)
        → get ht after h k ≡ (if h == hash && equal_bytes k key then ok none else get ht m h k)
    get-after h k = elim (Bool-cases (h == hash && equal_bytes k key)) [
      | inl same ↦ rw same (
          get_miss after-IsWellFormed h k λ j lt e.
            let ne = not_here h k j e in
            let old = (hit_here h k).1 ((same_entry_iff h hash k key).0 same) in
            ne (wf.unique h k j p lt parts.1 (sym (hit_there h k j ne) ∙ e) old))
      | inr other ↦ rw other (elim (get_cases wf h k) [
        | inl (i, lt, e) ↦
            let ne : i ≢ p =
              λ same. cc ((same_entry_iff h hash k key).1 ((hit_here h k).0 (rw same at e))) in
            get_hit after-IsWellFormed h k i lt (hit_there h k i ne ∙ e)
            ∙ ap (λ v. ok (some v)) (rw (there i ne, same_value))
            ∙ sym (get_hit wf h k i lt e)
        | inr never ↦
            get_miss after-IsWellFormed h k
              (λ j lt e. never j lt (sym (hit_there h k j (not_here h k j e)) ∙ e))
            ∙ sym (get_miss wf h k never)
      ])
    ]

    delete-Deleted : Deleted ht log m hash key after
    delete-Deleted = record {
      well_formed = after-IsWellFormed;
      reads = get-after;
      counted =
          count_less ht m after p there wf.laid laid_after parts.1
            ((key_kind_hit ht m hash key p).0 parts.0).0 (λ e. omega (arith, tomb_here));
      elsewhere =
          unfold after in
          Differs-wider (omega arith) (omega (arith, parts.1)) (buried-Differs ht m p);
    }

  -- In a well-formed table every used slot is reached from the home slot of its hash over slots that
  -- are not empty, and no two used slots hold one hash and key. In such a table `Delete` changes
  -- nothing where the key is absent; where it is present, `Delete` succeeds, and the table is
  -- well-formed again, without this key, with every other key as before and one entry less,
  -- and only bytes of the slot region have changed.
  -- `Insert` does not test that its key is absent: a table into which a key was inserted twice is not
  -- well-formed, and the theorem does not speak of it.
  pub delete-refines :
      ((get ht m hash key ≡ ok none) × (delete ht m hash key ≡ ok (false, m)))
      ⊎ ((v : List ℕ) × (m' : Memory) × (get ht m hash key ≡ ok (some v))
          × (delete ht m hash key ≡ ok (true, m'))
          × Deleted ht log m hash key m')
  delete-refines = elim (Option-cases (find ht m hash key)) [
    | inl e ↦ inl (
      get-eq m wf.laid hash key ∙ ap (λ o. ok (read_found ht m o)) e,
      delete-eq m wf.laid hash key ∙ ap (λ o. ok (delete_result ht m o)) e,
    )
    | inr (p, e) ↦ inr (
      slot_value ht m p,
      buried ht m p,
      get-eq m wf.laid hash key ∙ ap (λ o. ok (read_found ht m o)) e,
      delete-eq m wf.laid hash key ∙ ap (λ o. ok (delete_result ht m o)) e,
      unfold after in (delete-Deleted p e),
    )
  ]
