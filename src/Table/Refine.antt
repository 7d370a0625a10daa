-- ===== src/Table/Refine.antt =====
-- The table as a finite map: the invariant of linear probing, and lookups by it.
use native.Mathlib.Nat.{mod-eq_of_lt, mod-add-mod, add-zero}
use native.Mathlib.Decide.{dec_le}
use featcache.Common.{
  ◌==◌, ◌&&◌, ℕ, zero, suc, ◌+◌, ◌-◌, ◌%◌, ◌<◌, ◌≡◌, ◌≢◌, ◌∙◌, subst, sym, ap, ◌↔◌, ◌⊎◌, inl, inr,
  true, List, [], ◌∷◌, none, some, length, arith, Option-cases, ok,
}
use featcache.Layout.{slot_empty, slot_used, slot_tomb}
use featcache.Memory.{Memory, slice}
use featcache.Table.Probe.{
  stop, hit, skip, Trail, Trail-map, search_finds, search-hit, search_misses,
}
use featcache.Table.Scan.{key_kind, free_kind, find, slot_value, read_found, get-eq}
use featcache.Table.View.{IsLaidOut, next-lt, home-lt, masked, slot_at, matches, equal_bytes}
use featcache.Table.{HashTable, home, next, get}

abbrev pub IsOccupied : HashTable → Memory → ℕ → Type 0
IsOccupied ht m i = (slot_at ht m i).status ≢ slot_empty

-- Every used slot is reached from the home slot of its hash over occupied slots, and no two used
-- slots answer to one hash and key.
pub record IsWellFormed (ht : HashTable) (log : ℕ) (m : Memory) : Type 0 where
  pub laid : IsLaidOut ht log m.size
  pub reached :
      (i : ℕ)
      → i < ht.capacity
      → (slot_at ht m i).status ≡ slot_used
      → (n : ℕ) × (n < ht.capacity)
        × Trail (next ht) (IsOccupied ht m) n (home ht (slot_at ht m i).hash) i
  pub unique :
      (hash : ℕ) (key : List ℕ) (i j : ℕ)
      → i < ht.capacity
      → j < ht.capacity
      → key_kind ht m hash key i ≡ hit
      → key_kind ht m hash key j ≡ hit
      → i ≡ j

pub equal_bytes_iff : (xs ys : List ℕ) → (equal_bytes xs ys ≡ true) ↔ (xs ≡ ys)
equal_bytes_iff [] [] = ground arith
equal_bytes_iff [] (y ∷ ys) = ground arith
equal_bytes_iff (x ∷ xs) [] = ground arith
equal_bytes_iff (x ∷ xs) (y ∷ ys) = ground (arith, equal_bytes_iff xs ys)

pub same_entry_iff :
    (h hash : ℕ) (k key : List ℕ)
    → ((h == hash && equal_bytes k key) ≡ true) ↔ ((h ≡ hash) × (k ≡ key))
same_entry_iff h hash k key = ground (arith, equal_bytes_iff k key)

module _ (ht : HashTable) (m : Memory) where
  -- A chunk starts with one key only.
  pub matches_unique :
      (o : ℕ) (a b : List ℕ) → matches ht m o a ≡ true → matches ht m o b ≡ true → a ≡ b
  unfolding matches
  matches_unique o a b p q =
      let chunk = ht.data_base + o in
      let same_length : length a ≡ length b = ground arith in
      sym ((equal_bytes_iff (slice (length a) m (chunk + 4)) a).0 (ground arith))
      ∙ ap (λ n. slice n m (chunk + 4)) same_length
      ∙ (equal_bytes_iff (slice (length b) m (chunk + 4)) b).0 (ground arith)

  pub key_kind_hit :
      (hash : ℕ) (key : List ℕ) (i : ℕ)
      → (key_kind ht m hash key i ≡ hit)
        ↔ ((slot_at ht m i).status ≡ slot_used)
          × ((slot_at ht m i).hash ≡ hash)
          × (matches ht m (slot_at ht m i).offset key ≡ true)
  unfolding key_kind
  key_kind_hit hash key i = ground arith

  pub key_kind_stop :
      (hash : ℕ) (key : List ℕ) (i : ℕ) → IsOccupied ht m i → key_kind ht m hash key i ≢ stop
  unfolding key_kind
  key_kind_stop hash key i h = ground arith

  pub free_kind_hit :
      (i : ℕ)
      → (free_kind ht m i ≡ hit)
        ↔ (((slot_at ht m i).status ≡ slot_empty) ⊎ ((slot_at ht m i).status ≡ slot_tomb))
  unfolding free_kind
  free_kind_hit i = ground arith

  pub free_kind_skip : (i : ℕ) → free_kind ht m i ≡ skip → IsOccupied ht m i
  unfolding free_kind
  free_kind_skip i h = ground arith

  pub free_kind_stop : (i : ℕ) → free_kind ht m i ≢ stop
  unfolding free_kind
  free_kind_stop i h = ground arith

module _ {ht : HashTable} {log : ℕ} {m : Memory} (wf : IsWellFormed ht log m) (hash : ℕ)
    (key : List ℕ) where
  -- The search finds the slot of a key, wherever it is.
  pub find_hit :
      (i : ℕ) → i < ht.capacity → key_kind ht m hash key i ≡ hit → find ht m hash key ≡ some i
  find_hit i lt h =
      let parts = (key_kind_hit ht m hash key i).0 h in
      let (n, n_lt, trail) = wf.reached i lt parts.0 in
      search_finds (next ht) ht.capacity (next-lt wf.laid) (key_kind ht m hash key) i n ht.capacity
        (home ht hash) (λ k k_lt e. wf.unique hash key k i k_lt lt e h) h
        (Trail-map (next ht) (key_kind_stop ht m hash key) n (home ht hash) i (rw parts.1 at trail))
        (home-lt wf.laid hash) n_lt

  pub find-none :
      ((i : ℕ) → i < ht.capacity → key_kind ht m hash key i ≢ hit) → find ht m hash key ≡ none
  find-none never =
      search_misses (next ht) ht.capacity (next-lt wf.laid) (key_kind ht m hash key) ht.capacity
        (home ht hash) never (home-lt wf.laid hash)

  pub find_sound :
      (i : ℕ) → find ht m hash key ≡ some i → (key_kind ht m hash key i ≡ hit) × (i < ht.capacity)
  find_sound i e =
      let found =
        search-hit (next ht) ht.capacity (next-lt wf.laid) (key_kind ht m hash key) ht.capacity
          (home ht hash) i e (home-lt wf.laid hash) in
      (found.0, found.1)

  -- `Get` answers the value of a slot exactly when the slot holds the key.
  pub get_hit :
      (i : ℕ)
      → i < ht.capacity
      → key_kind ht m hash key i ≡ hit
      → get ht m hash key ≡ ok (some (slot_value ht m i))
  get_hit i lt h = get-eq m wf.laid hash key ∙ ap (λ o. ok (read_found ht m o)) (find_hit i lt h)

  pub get_miss :
      ((i : ℕ) → i < ht.capacity → key_kind ht m hash key i ≢ hit) → get ht m hash key ≡ ok none
  get_miss never = get-eq m wf.laid hash key ∙ ap (λ o. ok (read_found ht m o)) (find-none never)

  -- A miss says that no slot holds the key.
  pub get_absent :
      get ht m hash key ≡ ok none → (i : ℕ) → i < ht.capacity → key_kind ht m hash key i ≢ hit
  get_absent e i lt h = cc (get_hit i lt h)

  -- The two ways that a lookup ends.
  pub get_cases :
      ((i : ℕ) × (i < ht.capacity) × (key_kind ht m hash key i ≡ hit))
      ⊎ (((i : ℕ) → i < ht.capacity → key_kind ht m hash key i ≢ hit))
  get_cases = elim (Option-cases (find ht m hash key)) [
    | inl e ↦ inr (λ i lt h. cc (find_hit i lt h))
    | inr (i, e) ↦ inl (i, (find_sound i e).1, (find_sound i e).0)
  ]

module _ {ht : HashTable} {log size : ℕ} (laid : IsLaidOut ht log size) where
  -- From a slot, `n` steps lead to the slot that is `n` further on, round the table.
  walk : (n i : ℕ) → i < ht.capacity → Trail (next ht) (λ k. Unit {0}) n i ((i + n) % ht.capacity)
  walk zero i h = sym (ap (λ (t : ℕ). t % ht.capacity) (add-zero i) ∙ mod-eq_of_lt h)
  walk (suc n) i h = (
    tt,
    subst (Trail (next ht) (λ k. Unit {0}) n (next ht i)) turned
        (walk n (next ht i) (next-lt laid i)),
  )
    where
      turned : (next ht i + n) % ht.capacity ≡ (i + suc n) % ht.capacity
      turned =
          unfold next in
          (rw (masked laid (i + 1))
            (mod-add-mod (i + 1) ht.capacity n ∙ ap (λ (t : ℕ). t % ht.capacity) (omega arith)))

  pub walk_to :
      (i j : ℕ)
      → i < ht.capacity
      → j < ht.capacity
      → (n : ℕ) × (n < ht.capacity) × Trail (next ht) (λ k. Unit {0}) n i j
  walk_to i j hi hj = elim (dec_le i j) [
    | yes p ↦ (
      j - i,
      omega arith,
      subst (Trail (next ht) (λ k. Unit {0}) (j - i) i) (grind arith) (walk (j - i) i hi),
    )
    | no p ↦ (
      j + ht.capacity - i,
      omega arith,
      subst (Trail (next ht) (λ k. Unit {0}) (j + ht.capacity - i) i) (grind arith)
          (walk (j + ht.capacity - i) i hi),
    )
  ]
