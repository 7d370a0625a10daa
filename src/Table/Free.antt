-- ===== src/Table/Free.antt =====
-- How many slots an insertion may still take: those whose status is empty or deleted.
use native.Mathlib.Decide.{ℕ_discrete}
use featcache.Common.{
  ℕ, zero, suc, ◌+◌, ◌≤◌, ◌<◌, ◌≡◌, ◌≢◌, refl, ◌⊎◌, inl, ◌||◌, ◌==◌, if◌then◌else◌, arith,
}
use featcache.Layout.{slot_empty, slot_used, slot_tomb}
use featcache.Memory.{Memory}
use featcache.Table.Probe.{hit}
use featcache.Table.Scan.{free_kind}
use featcache.Table.View.{slot_at}
use featcache.Table.{HashTable}

-- 1 for a slot that is free, by its status.
abbrev pub room_of : ℕ → ℕ
room_of status = if status == slot_empty || status == slot_tomb then 1 else 0

-- The free slots among the `rounds` slots from `i` on.
unfoldable pub free_from : HashTable → Memory → ℕ → ℕ → ℕ
free_from ht m zero i = 0
free_from ht m (suc rounds) i = room_of (slot_at ht m i).status + free_from ht m rounds (i + 1)

abbrev pub free_slots : HashTable → Memory → ℕ
free_slots ht m = free_from ht m ht.capacity 0

module _ (ht : HashTable) (m m' : Memory) where
  free_from-same :
      (rounds i : ℕ)
      → i + rounds ≤ ht.capacity
      → ((j : ℕ) → j < ht.capacity → slot_at ht m' j ≡ slot_at ht m j)
      → free_from ht m' rounds i ≡ free_from ht m rounds i
  unfolding free_from
  free_from-same zero i h same = refl
  free_from-same (suc rounds) i h same =
      rw (same i (omega arith), free_from-same rounds (i + 1) (omega arith) same) refl

  -- Where no slot changes.
  pub free_slots-same :
      ((j : ℕ) → j < ht.capacity → slot_at ht m' j ≡ slot_at ht m j)
      → free_slots ht m' ≡ free_slots ht m
  free_slots-same same = free_from-same ht.capacity 0 (omega arith) same

  -- One slot changes: the number changes by that slot.
  module _ (p : ℕ) (there : (j : ℕ) → j ≢ p → slot_at ht m' j ≡ slot_at ht m j)
      (before : free_kind ht m p ≡ hit) (after : (slot_at ht m' p).status ≡ slot_used) where
    free_outside :
        (rounds i : ℕ)
        → (p < i) ⊎ (i + rounds ≤ p)
        → free_from ht m' rounds i ≡ free_from ht m rounds i
    unfolding free_from
    free_outside zero i h = refl
    free_outside (suc rounds) i h =
        rw (there i (λ e. omega arith), free_outside rounds (i + 1) (omega arith)) refl

    taken : (room_of (slot_at ht m p).status ≡ 1) × (room_of (slot_at ht m' p).status ≡ 0)
    unfolding free_kind
    taken = (ground (arith, before), rw after refl)

    free_less :
        (rounds i : ℕ)
        → i ≤ p
        → p < i + rounds
        → free_from ht m' rounds i + 1 ≡ free_from ht m rounds i
    unfolding free_from
    free_less zero i lo hi = absurd (omega arith)
    free_less (suc rounds) i lo hi = elim (ℕ_discrete i p) [
      | yes e ↦
          let rest = free_outside rounds (p + 1) (inl (omega arith)) in
          rw (e, taken.0, taken.1, rest) (omega arith)
      | no ne ↦
          let rest = free_less rounds (i + 1) (omega arith) (omega arith) in
          rw (there i ne) (omega arith)
    ]

    -- A free slot that is used now.
    pub free_slots-taken : p < ht.capacity → free_slots ht m' + 1 ≡ free_slots ht m
    free_slots-taken lt = free_less ht.capacity 0 (omega arith) (omega arith)

module _ (ht : HashTable) (m : Memory) where
  free_from-none :
      (rounds i : ℕ)
      → i + rounds ≤ ht.capacity
      → ((j : ℕ) → j < ht.capacity → free_kind ht m j ≢ hit)
      → free_from ht m rounds i ≡ 0
  unfolding free_from free_kind
  free_from-none zero i h full = refl
  free_from-none (suc rounds) i h full =
      let rest = free_from-none rounds (i + 1) (omega arith) full in
      let here = full i (omega arith) in ground arith

  -- Where every slot is taken.
  pub free_slots-none : ((j : ℕ) → j < ht.capacity → free_kind ht m j ≢ hit) → free_slots ht m ≡ 0
  free_slots-none full = free_from-none ht.capacity 0 (omega arith) full

  free_from-empty :
      (rounds i : ℕ)
      → i + rounds ≤ ht.capacity
      → ((j : ℕ) → j < ht.capacity → (slot_at ht m j).status ≡ slot_empty)
      → free_from ht m rounds i ≡ rounds
  unfolding free_from
  free_from-empty zero i h empty = refl
  free_from-empty (suc rounds) i h empty =
      let rest = free_from-empty rounds (i + 1) (omega arith) empty in
      rw (empty i (omega arith)) (omega arith)

  -- Where every slot is empty.
  pub free_slots-empty :
      ((j : ℕ) → j < ht.capacity → (slot_at ht m j).status ≡ slot_empty)
      → free_slots ht m ≡ ht.capacity
  free_slots-empty empty = free_from-empty ht.capacity 0 (omega arith) empty
