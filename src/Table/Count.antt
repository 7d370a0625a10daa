-- ===== src/Table/Count.antt =====
-- `Count` and `Iterate` against the list of used slots in index order, and how `Insert` and
-- `Delete` change the count.
use native.Mathlib.Decide.{ℕ_discrete}
use featcache.Common.{
  ℕ, zero, suc, ◌+◌, ◌≤◌, ◌<◌, ◌≡◌, ◌≢◌, ◌∙◌, refl, sym, ap, ◌⊎◌, inl, inr, Bool, List, [], ◌∷◌,
  arith, ◌==◌, if◌then◌else◌, ok, length, Bool-cases,
}
use featcache.Layout.{HashSlot, slot_used}
use featcache.Memory.{Memory}
use featcache.Table.View.{IsLaidOut, slot_at, get_slot-eq}
use featcache.Table.{HashTable, count_loop, count, iterate_loop, iterate}

-- The used slots among the `rounds` slots from `i` on.
unfoldable pub used_slots : HashTable → Memory → ℕ → ℕ → List HashSlot
used_slots ht m zero i = []
used_slots ht m (suc rounds) i =
    let rest = used_slots ht m rounds (i + 1) in
    if (slot_at ht m i).status == slot_used then slot_at ht m i ∷ rest else rest

-- A callback over a list, until it answers false.
unfoldable pub visit {ℓ} : {S : Type ℓ} → (HashSlot → S → Bool × S) → List HashSlot → S → S
visit fn [] s = s
visit fn (x ∷ xs) s = let on = visit fn xs (fn x s).1 in if (fn x s).0 then on else (fn x s).1

module _ {ht : HashTable} {log : ℕ} (m : Memory) (laid : IsLaidOut ht log m.size) where
  count_loop-eq :
      (rounds i c : ℕ)
      → i + rounds ≤ ht.capacity
      → count_loop ht m rounds i c ≡ ok (c + length (used_slots ht m rounds i))
  unfolding count_loop used_slots
  count_loop-eq zero i c h = ap ok (omega arith)
  count_loop-eq (suc rounds) i c h =
      simp (get_slot-eq m laid i (omega arith))
        (elim (Bool-cases ((slot_at ht m i).status == slot_used)) [
          | inl used ↦
              rw used (count_loop-eq rounds (i + 1) (c + 1) (omega arith) ∙ ap ok (omega arith))
          | inr other ↦ rw other (count_loop-eq rounds (i + 1) c (omega arith))
        ])

  -- `Count` is the number of used slots.
  pub count-eq : count ht m ≡ ok (length (used_slots ht m ht.capacity 0))
  unfolding count
  count-eq = count_loop-eq ht.capacity 0 0 (omega arith) ∙ ap ok (omega arith)

  iterate_loop-eq {ℓ} :
      {S : Type ℓ} (fn : HashSlot → S → Bool × S) (rounds i : ℕ) (s : S)
      → i + rounds ≤ ht.capacity
      → iterate_loop ht m fn rounds i s ≡ ok (visit fn (used_slots ht m rounds i) s)
  unfolding iterate_loop used_slots visit
  iterate_loop-eq fn zero i s h = refl
  iterate_loop-eq fn (suc rounds) i s h =
      simp (get_slot-eq m laid i (omega arith))
        (elim (Bool-cases ((slot_at ht m i).status == slot_used)) [
          | inl used ↦ rw used (elim (Bool-cases (fn (slot_at ht m i) s).0) [
            | inl more ↦
                rw more (iterate_loop-eq fn rounds (i + 1) (fn (slot_at ht m i) s).1 (omega arith))
            | inr end ↦ rw end
          ])
          | inr other ↦ rw other (iterate_loop-eq fn rounds (i + 1) s (omega arith))
        ])

  -- In a table that fits its segment `Iterate` calls the callback on the used slots in index
  -- order, until it answers false.
  pub iterate-eq {ℓ} :
      {S : Type ℓ} (fn : HashSlot → S → Bool × S) (s : S)
      → iterate ht m fn s ≡ ok (visit fn (used_slots ht m ht.capacity 0) s)
  unfolding iterate
  iterate-eq fn s = iterate_loop-eq fn ht.capacity 0 s (omega arith)

-- One slot changes: the number of used slots changes by that slot.
module _ (ht : HashTable) (m m' : Memory) (p : ℕ)
    (there : (j : ℕ) → j ≢ p → slot_at ht m' j ≡ slot_at ht m j) where
  used_outside :
      (rounds i : ℕ)
      → (p < i) ⊎ (i + rounds ≤ p)
      → used_slots ht m' rounds i ≡ used_slots ht m rounds i
  unfolding used_slots
  used_outside zero i h = refl
  used_outside (suc rounds) i h =
      rw (there i (λ e. omega arith), used_outside rounds (i + 1) (omega arith))

  pub used_more :
      (rounds i : ℕ)
      → i ≤ p
      → p < i + rounds
      → (slot_at ht m p).status ≢ slot_used
      → (slot_at ht m' p).status ≡ slot_used
      → length (used_slots ht m' rounds i) ≡ length (used_slots ht m rounds i) + 1
  unfolding used_slots
  used_more zero i lo hi before after = absurd (omega arith)
  used_more (suc rounds) i lo hi before after = elim (ℕ_discrete i p) [
    | yes e ↦ rw (e, used_outside rounds (p + 1) (inl (omega arith))) (ground arith)
    | no ne ↦ rw (there i ne) (ground (arith, used_more rounds (i + 1) (omega arith)))
  ]

-- Where one slot turns from not used to used, the count goes up by one.
pub count_more :
    (ht : HashTable) {log : ℕ} (m m' : Memory) (p : ℕ)
    → ((j : ℕ) → j ≢ p → slot_at ht m' j ≡ slot_at ht m j)
    → IsLaidOut ht log m.size
    → IsLaidOut ht log m'.size
    → p < ht.capacity
    → (slot_at ht m p).status ≢ slot_used
    → (slot_at ht m' p).status ≡ slot_used
    → (n : ℕ) → count ht m ≡ ok n
    → count ht m' ≡ ok (n + 1)
count_more ht m m' p there laid laid' lt before after n e =
    let more = used_more ht m m' p there ht.capacity 0 (omega arith) (omega arith) before after in
    let was : length (used_slots ht m ht.capacity 0) ≡ n = cc (count-eq m laid) in
    count-eq m' laid' ∙ ap ok (more ∙ ap (λ (k : ℕ). k + 1) was)

-- The other way round.
pub count_less :
    (ht : HashTable) {log : ℕ} (m m' : Memory) (p : ℕ)
    → ((j : ℕ) → j ≢ p → slot_at ht m' j ≡ slot_at ht m j)
    → IsLaidOut ht log m.size
    → IsLaidOut ht log m'.size
    → p < ht.capacity
    → (slot_at ht m p).status ≡ slot_used
    → (slot_at ht m' p).status ≢ slot_used
    → (n : ℕ) → count ht m ≡ ok (n + 1)
    → count ht m' ≡ ok n
count_less ht m m' p there laid laid' lt before after n e =
    let more =
      used_more ht m' m p (λ j ne. sym (there j ne)) ht.capacity 0 (omega arith) (omega arith) after
        before in
    let was : length (used_slots ht m ht.capacity 0) ≡ n + 1 = cc (count-eq m laid) in
    count-eq m' laid' ∙ ap ok (omega arith)
