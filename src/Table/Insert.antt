-- ===== src/Table/Insert.antt =====
-- What `Insert` does to the map that the table stands for.
use featcache.Common.{
  ℕ, ◌+◌, ◌*◌, ◌^◌, ◌<◌, ◌≡◌, ◌≢◌, ◌∙◌, refl, sym, ap, ◌↔◌, ◌⊎◌, inl, inr, true, false, ◌&&◌, List,
  none, some, length, arith, ◌==◌, if◌then◌else◌, Option-cases, Bool-cases, ok,
}
use native.Mathlib.Decide.{ℕ_discrete}
use featcache.Layout.{HashSlot, slot_used, slot_size}
use featcache.Memory.{Memory}
use featcache.Memory.Words.{Differs, Differs-wider}
use featcache.Table.Chunk.{IsChunk, matches-IsChunk, value_at-IsChunk}
use featcache.Table.Count.{count_more}
use featcache.Table.Free.{free_slots, free_slots-taken}
use featcache.Table.Probe.{hit, skip, Trail, Trail-map, search-hit, search_total}
use featcache.Table.Refine.{
  IsWellFormed, IsOccupied, same_entry_iff, matches_unique, key_kind_hit, free_kind_hit,
  free_kind_skip, free_kind_stop, get_hit, get_miss, get_absent, get_cases, walk_to,
}
use featcache.Table.Scan.{
  key_kind, free_kind, find_free, slot_value, written, insert_result, insert-eq,
}
use featcache.Table.View.{IsLaidOut, next-lt, home-lt, slot_at, matches, value_at, equal_bytes}
use featcache.Table.Write.{
  written-Differs, slot_at-written_self, slot_at-Differs, matches-Differs, value_at-Differs,
}
use featcache.Table.{HashTable, home, next, get, insert, count}

-- `Insert` claimed a slot: the key now reads as the value, every other lookup answers as before,
-- one more slot is used, the slot points to the chunk, and only bytes of the slot region changed.
pub record Inserted (ht : HashTable) (log : ℕ) (m : Memory) (hash offset : ℕ) (key value : List ℕ)
    (m' : Memory) : Type 0 where
  pub well_formed : IsWellFormed ht log m'
  pub reads :
      (h : ℕ) (k : List ℕ)
      → get ht m' h k ≡ (if h == hash && equal_bytes k key then ok (some value) else get ht m h k)
  pub slots :
      (i : ℕ)
      → (slot_at ht m' i ≡ slot_at ht m i)
        ⊎ (((slot_at ht m' i).offset ≡ offset) × ((slot_at ht m' i).vlen ≡ length value))
  pub counted : (n : ℕ) → count ht m ≡ ok n → count ht m' ≡ ok (n + 1)
  pub room : free_slots ht m' + 1 ≡ free_slots ht m
  pub elsewhere : Differs ht.slot_base (ht.slot_base + ht.capacity * slot_size) m m'

module _ {ht : HashTable} {log : ℕ} {m : Memory} (wf : IsWellFormed ht log m) (hash : ℕ) where
  -- `Insert` refuses only when every slot is taken.
  pub find_free-none :
      find_free ht m hash ≡ none → (i : ℕ) → i < ht.capacity → free_kind ht m i ≢ hit
  find_free-none e i lt h =
      let (n, n_lt, trail) = walk_to wf.laid (home ht hash) i (home-lt wf.laid hash) lt in
      let (k, found) =
        search_total (next ht) ht.capacity (next-lt wf.laid) (free_kind ht m) ht.capacity
          (home ht hash) i n (free_kind_stop ht m) h trail n_lt in
      cc

  module _ {key value : List ℕ} {offset : ℕ} (chunk : IsChunk ht m offset key value)
      (absent : get ht m hash key ≡ ok none) (hash_lt : hash < 2 ^ 64) (offset_lt : offset < 2 ^ 32)
      (value_lt : length value < 2 ^ 32) (p : ℕ) (found : find_free ht m hash ≡ some p) where
    after : Memory
    after = written ht m p hash offset (length value)

    parts :
        (free_kind ht m p ≡ hit)
        × (p < ht.capacity)
        × (n : ℕ) × (n < ht.capacity)
        × Trail (next ht) (λ k. free_kind ht m k ≡ skip) n (home ht hash) p
    parts =
        search-hit (next ht) ht.capacity (next-lt wf.laid) (free_kind ht m) ht.capacity
          (home ht hash) p found (home-lt wf.laid hash)

    here :
        slot_at ht after p
        ≡ record { hash = hash; offset = offset; vlen = length value; status = slot_used }
    unfolding after
    here = slot_at-written_self ht m p hash offset (length value) hash_lt offset_lt value_lt

    there : (j : ℕ) → j ≢ p → slot_at ht after j ≡ slot_at ht m j
    unfolding after
    there = slot_at-Differs ht p (written-Differs ht m p hash offset (length value))

    same_matches : (o : ℕ) (k : List ℕ) → matches ht after o k ≡ matches ht m o k
    unfolding after
    same_matches =
        matches-Differs ht p (written-Differs ht m p hash offset (length value)) wf.laid parts.1

    same_value : (o v : ℕ) → value_at ht after o v ≡ value_at ht m o v
    unfolding after
    same_value =
        value_at-Differs ht p (written-Differs ht m p hash offset (length value)) wf.laid parts.1

    laid_after : IsLaidOut ht log after.size
    unfolding after
    laid_after = rw (written-Differs ht m p hash offset (length value)).same_size wf.laid

    after-IsOccupied : (j : ℕ) → IsOccupied ht m j → IsOccupied ht after j
    after-IsOccupied j occ = elim (ℕ_discrete j p) [
      | yes e ↦ rw (e, here) (omega arith)
      | no ne ↦ rw (there j ne) occ
    ]

    -- A slot other than the new one is a hit after the write just if it was before.
    hit_there : (h : ℕ) (k : List ℕ) (j : ℕ) → j ≢ p → key_kind ht after h k j ≡ key_kind ht m h k j
    unfolding key_kind
    hit_there h k j ne = rw (there j ne, same_matches)

    hit_here : (h : ℕ) (k : List ℕ) → (key_kind ht after h k p ≡ hit) ↔ ((h ≡ hash) × (k ≡ key))
    hit_here h k =
        let iff = key_kind_hit ht after h k p in
        (
          (λ e.
              let q = iff.0 e in
              let stored : matches ht m offset k ≡ true = rw (same_matches, here) at q.2 in
              (
                sym q.1 ∙ ap (λ (s : HashSlot). s.hash) here,
                matches_unique ht m offset k key stored (matches-IsChunk chunk),
              )),
          (λ e. iff.1 (
            ap (λ (s : HashSlot). s.status) here,
            ap (λ (s : HashSlot). s.hash) here ∙ sym e.0,
            rw (here, same_matches, e.1) (matches-IsChunk chunk),
          )),
        )

    p_unused : (slot_at ht m p).status ≢ slot_used
    p_unused e = let free = (free_kind_hit ht m p).0 parts.0 in absurd (omega arith)

    p_free : (h : ℕ) (k : List ℕ) → key_kind ht m h k p ≢ hit
    p_free h k e = p_unused ((key_kind_hit ht m h k p).0 e).0

    reached_after :
        (i : ℕ)
        → i < ht.capacity
        → (slot_at ht after i).status ≡ slot_used
        → (n : ℕ) × (n < ht.capacity)
          × Trail (next ht) (IsOccupied ht after) n (home ht (slot_at ht after i).hash) i
    reached_after i lt used = elim (ℕ_discrete i p) [
      | yes e ↦
          let (hit_p, p_lt, n, n_lt, trail) = parts in
          (
            n,
            n_lt,
            rw (e, here)
                (Trail-map (next ht) (λ j s. after-IsOccupied j (free_kind_skip ht m j s)) n
                  (home ht hash) p trail),
          )
      | no ne ↦
          let (n, n_lt, trail) = wf.reached i lt (rw (there i ne) at used) in
          (n, n_lt, rw (there i ne) (Trail-map (next ht) after-IsOccupied n _ i trail))
    ]

    -- A used slot other than the new one does not hold the new key.
    only_here :
        (h : ℕ) (k : List ℕ) (j : ℕ)
        → j < ht.capacity
        → j ≢ p
        → key_kind ht after h k j ≡ hit
        → (h ≡ hash) × (k ≡ key)
        → ⊥
    only_here h k j lt ne e same =
        get_absent wf hash key absent j lt
          (rw (sym same.0, sym same.1) (sym (hit_there h k j ne) ∙ e))

    unique_after :
        (h : ℕ) (k : List ℕ) (i j : ℕ)
        → i < ht.capacity
        → j < ht.capacity
        → key_kind ht after h k i ≡ hit
        → key_kind ht after h k j ≡ hit
        → i ≡ j
    unique_after h k i j i_lt j_lt hi hj = elim (ℕ_discrete i p) [
      | yes ei ↦ elim (ℕ_discrete j p) [
        | yes ej ↦ ei ∙ sym ej
        | no nj ↦ absurd (only_here h k j j_lt nj hj ((hit_here h k).0 (rw ei at hi)))
      ]
      | no ni ↦ elim (ℕ_discrete j p) [
        | yes ej ↦ absurd (only_here h k i i_lt ni hi ((hit_here h k).0 (rw ej at hj)))
        | no nj ↦
            wf.unique h k i j i_lt j_lt (sym (hit_there h k i ni) ∙ hi)
              (sym (hit_there h k j nj) ∙ hj)
      ]
    ]

    after-IsWellFormed : IsWellFormed ht log after
    after-IsWellFormed = record {
      laid = laid_after;
      reached = reached_after;
      unique = unique_after;
    }

    value_here : slot_value ht after p ≡ value
    value_here = rw (here, same_value) (value_at-IsChunk chunk)

    value_there : (j : ℕ) → j ≢ p → slot_value ht after j ≡ slot_value ht m j
    value_there j ne = rw (there j ne, same_value)

    get-after :
        (h : ℕ) (k : List ℕ)
        → get ht after h k
          ≡ (if h == hash && equal_bytes k key then ok (some value) else get ht m h k)
    get-after h k = elim (Bool-cases (h == hash && equal_bytes k key)) [
      | inl same ↦ rw same (
          get_hit after-IsWellFormed h k p parts.1
            ((hit_here h k).1 ((same_entry_iff h hash k key).0 same))
          ∙ ap (λ v. ok (some v)) value_here)
      | inr other ↦ rw other (elim (get_cases wf h k) [
        | inl (i, lt, e) ↦
            let ne : i ≢ p = λ same. p_free h k (rw same at e) in
            get_hit after-IsWellFormed h k i lt (hit_there h k i ne ∙ e)
            ∙ ap (λ v. ok (some v)) (value_there i ne)
            ∙ sym (get_hit wf h k i lt e)
        | inr never ↦
            get_miss after-IsWellFormed h k (λ j lt e. elim (ℕ_discrete j p) [
              | yes same ↦ cc ((same_entry_iff h hash k key).1 ((hit_here h k).0 (rw same at e)))
              | no ne ↦ never j lt (sym (hit_there h k j ne) ∙ e)
            ])
            ∙ sym (get_miss wf h k never)
      ])
    ]

    slots_after :
        (i : ℕ)
        → (slot_at ht after i ≡ slot_at ht m i)
          ⊎ (((slot_at ht after i).offset ≡ offset) × ((slot_at ht after i).vlen ≡ length value))
    slots_after i = elim (ℕ_discrete i p) [
      | yes e ↦ inr (rw (e, here) (refl, refl))
      | no ne ↦ inl (there i ne)
    ]

    insert-Inserted : Inserted ht log m hash offset key value after
    insert-Inserted = record {
      well_formed = after-IsWellFormed;
      reads = get-after;
      slots = slots_after;
      counted =
          count_more ht m after p there wf.laid laid_after parts.1 p_unused
            (ap (λ (s : HashSlot). s.status) here);
      room =
          free_slots-taken ht m after p there parts.0 (ap (λ (s : HashSlot). s.status) here)
            parts.1;
      elsewhere =
          unfold after in
          Differs-wider (omega arith) (omega (arith, parts.1))
            (written-Differs ht m p hash offset (length value));
    }

    pub written-Inserted :
        Inserted ht log m hash offset key value (written ht m p hash offset (length value))
    unfolding after
    written-Inserted = insert-Inserted

  -- In a well-formed table, for a key that a lookup misses, whose chunk with the value stands in
  -- the data region at the offset, where the hash, the offset and the value's length fit their
  -- fields: either every slot is taken, and `Insert` fails and changes nothing; or it succeeds,
  -- and the table is well-formed again, with the value at this key and every other lookup as
  -- before.
  pub insert-refines :
      {key value : List ℕ} {offset : ℕ}
      → IsChunk ht m offset key value
      → get ht m hash key ≡ ok none
      → hash < 2 ^ 64
      → offset < 2 ^ 32
      → length value < 2 ^ 32
      → ((insert ht m hash offset (length value) ≡ ok (false, m))
          × ((i : ℕ) → i < ht.capacity → free_kind ht m i ≢ hit))
        ⊎ ((m' : Memory) × (insert ht m hash offset (length value) ≡ ok (true, m'))
            × Inserted ht log m hash offset key value m')
  insert-refines {key} {value} {offset} chunk absent hl ol vl =
      elim (Option-cases (find_free ht m hash)) [
        | inl full ↦ inl (
          insert-eq m wf.laid hash offset (length value)
              ∙ ap (λ o. ok (insert_result ht m hash offset (length value) o)) full,
          find_free-none full,
        )
        | inr (p, found) ↦ inr (
          written ht m p hash offset (length value),
          insert-eq m wf.laid hash offset (length value)
              ∙ ap (λ o. ok (insert_result ht m hash offset (length value) o)) found,
          written-Inserted chunk absent hl ol vl p found,
        )
      ]
