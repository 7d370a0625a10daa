-- ===== src/Table/Steps/Reader.antt =====
-- A step of `Get` while the slots in use and their chunks stay as they are: a reader on the way to a
-- key's slot gets nearer, and answers the key's value.
use featcache.Common.{
  ℕ, zero, suc, ◌+◌, ◌*◌, ◌≤◌, ◌<◌, ◌≡◌, ◌∙◌, refl, ap, sym, ◌⊎◌, inl, inr, List, none, some, ok,
  Returns, arith, Bool, true, false,
}
use featcache.Layout.{HashSlot}
use featcache.Loader.Frame.{IsStored}
use featcache.Memory.{Memory, get_le}
use featcache.Table.Probe.{Kind, stop, hit, skip, Kind-cases, Trail}
use featcache.Table.Refine.{IsWellFormed, key_kind_hit, key_kind_stop}
use featcache.Table.Scan.{key_kind, slot_value, status_read}
use featcache.Table.Steps.Kept.{IsUsed, Keeps, laid_still, same_kind, same_value}
use featcache.Table.Steps.{Look, looking, opened, copied, matched, answered, get_step}
use featcache.Table.View.{
  IsLaidOut, next-lt, slot_at, value_at, cell-lt, match_key_at-eq, get_value-eq,
}
use featcache.Table.{HashTable, next}

-- What the reader does with a copy of a slot, by the kind of the slot.
abbrev after_kind : HashTable → Memory → ℕ → ℕ → Kind → Look
after_kind ht m rounds idx stop = answered none
after_kind ht m rounds idx hit = let slot = slot_at ht m idx in matched slot.offset slot.vlen
after_kind ht m rounds idx skip = looking rounds (next ht idx)

module _ {ht : HashTable} {log : ℕ} (m : Memory) (laid : IsLaidOut ht log m.size) (hash : ℕ)
    (key : List ℕ) where
  step_looking :
      (rounds idx : ℕ)
      → idx < ht.capacity
      → get_step ht hash key (looking (suc rounds) idx) m
        ≡ ok (opened rounds idx (slot_at ht m idx).status)
  unfolding get_step
  step_looking rounds idx lt = rw (status_read m laid idx lt) refl

  step_opened :
      (rounds idx : ℕ)
      → idx < ht.capacity
      → get_step ht hash key (opened rounds idx (slot_at ht m idx).status) m
        ≡ ok (copied rounds idx (slot_at ht m idx))
  unfolding get_step get_le slot_at
  step_opened rounds idx lt = ground (arith, cell-lt m laid idx lt)

  step_copied :
      (rounds idx : ℕ)
      → get_step ht hash key (copied rounds idx (slot_at ht m idx)) m
        ≡ ok (after_kind ht m rounds idx (key_kind ht m hash key idx))
  unfolding get_step key_kind
  step_copied rounds idx = simp match_key_at-eq (ground arith)

  step_matched :
      (offset vlen : ℕ)
      → get_step ht hash key (matched offset vlen) m
        ≡ ok (answered (some (value_at ht m offset vlen)))
  unfolding get_step
  step_matched offset vlen = rw (get_value-eq ht m offset vlen) refl

-- The call has not returned yet.
abbrev pub is_pending : Look → Bool
is_pending (looking rounds idx) = true
is_pending (opened rounds idx status) = true
is_pending (copied rounds idx slot) = true
is_pending (matched offset vlen) = true
is_pending (answered a) = false

-- Between the reader, at the slot `idx`, and the slot `i` are slots in use only, fewer than the
-- rounds left.
pub record IsBefore (ht : HashTable) (m₀ : Memory) (i rounds idx : ℕ) : Type 0 where
  pub gap : ℕ
  pub near : gap < rounds
  pub below : idx < ht.capacity
  pub trail : Trail (next ht) (IsUsed ht m₀) gap idx i

-- The reader is on the way to the slot `i`, at it, or has answered; it has taken `n` steps.
abbrev pub IsOnWay : HashTable → Memory → ℕ → List ℕ → ℕ → Look → Type 0
IsOnWay ht m₀ i value n (looking rounds idx) =
    (n + 3 * rounds ≡ 3 * ht.capacity) × IsBefore ht m₀ i rounds idx
IsOnWay ht m₀ i value n (opened rounds idx status) =
    (n + 3 * rounds + 2 ≡ 3 * ht.capacity)
    × IsBefore ht m₀ i (suc rounds) idx
    × (status ≡ (slot_at ht m₀ idx).status)
IsOnWay ht m₀ i value n (copied rounds idx slot) =
    (n + 3 * rounds + 1 ≡ 3 * ht.capacity)
    × IsBefore ht m₀ i (suc rounds) idx
    × (slot ≡ slot_at ht m₀ idx)
IsOnWay ht m₀ i value n (matched offset vlen) =
    (n ≤ 3 * ht.capacity) × (offset ≡ (slot_at ht m₀ i).offset) × (vlen ≡ (slot_at ht m₀ i).vlen)
IsOnWay ht m₀ i value n (answered a) = a ≡ some value

module _ {ht : HashTable} {log frontier : ℕ} {m₀ : Memory} (wf : IsWellFormed ht log m₀)
    (behind : ht.data_base ≤ frontier) (stored : IsStored ht m₀ frontier) (hash : ℕ)
    (key value : List ℕ) (i : ℕ) (lt : i < ht.capacity) (here : key_kind ht m₀ hash key i ≡ hit)
    (reads : slot_value ht m₀ i ≡ value) where
  i-IsUsed : IsUsed ht m₀ i
  i-IsUsed = ((key_kind_hit ht m₀ hash key i).0 here).0

  Trail-IsUsed : (gap idx : ℕ) → Trail (next ht) (IsUsed ht m₀) gap idx i → IsUsed ht m₀ idx
  Trail-IsUsed zero idx same = rw same i-IsUsed
  Trail-IsUsed (suc gap) idx (used, trail) = used

  IsBefore-IsUsed : {rounds idx : ℕ} → IsBefore ht m₀ i rounds idx → IsUsed ht m₀ idx
  IsBefore-IsUsed {idx = idx} b = Trail-IsUsed b.gap idx b.trail

  step_on :
      (rounds gap idx : ℕ)
      → gap < suc rounds
      → Trail (next ht) (IsUsed ht m₀) gap idx i
      → (idx ≡ i) ⊎ IsBefore ht m₀ i rounds (next ht idx)
  step_on rounds zero idx near same = inl same
  step_on rounds (suc gap) idx near (used, trail) =
      inr (record { gap = gap; near = omega arith; below = next-lt wf.laid idx; trail = trail })

  -- The slot of a copy is the key's, or the way goes on.
  round :
      {m : Memory}
      → Keeps ht frontier m₀ m
      → (n rounds idx : ℕ) → n + 3 * rounds + 1 ≡ 3 * ht.capacity
      → IsBefore ht m₀ i (suc rounds) idx
      → IsOnWay ht m₀ i value (suc n) (after_kind ht m rounds idx (key_kind ht m hash key idx))
  round {m} kept n rounds idx count b =
      let used = IsBefore-IsUsed b in
      let same = same_kind wf.laid behind kept stored idx b.below used hash key in
      Kind-cases (key_kind ht m₀ hash key idx)
        (λ s. absurd (key_kind_stop ht m₀ hash key idx (λ e. absurd (omega arith)) s))
        (λ h.
          let at : idx ≡ i = wf.unique hash key idx i b.below lt h here in
          let there = kept.same_slot idx b.below used ∙ ap (slot_at ht m₀) at in
          rw (same, h)
            (
              omega arith,
              ap (λ (s : HashSlot). s.offset) there,
              ap (λ (s : HashSlot). s.vlen) there,
            ))
        (λ s. elim (step_on rounds b.gap idx b.near b.trail) [
          | inl at ↦ absurd (cc (s, here, ap (key_kind ht m₀ hash key) at))
          | inr on ↦ rw (same, s) (omega arith, on)
        ])

  pub get_step-IsOnWay :
      {m : Memory}
      → Keeps ht frontier m₀ m
      → (n : ℕ) (look : Look) → IsOnWay ht m₀ i value n look
      → Returns (get_step ht hash key look m) (IsOnWay ht m₀ i value (suc n))
  unfolding get_step
  get_step-IsOnWay kept n (looking zero idx) (count, b) = absurd (omega (arith, b.near))
  get_step-IsOnWay {m} kept n (looking (suc rounds) idx) (count, b) = (
    opened rounds idx (slot_at ht m idx).status,
    step_looking m (laid_still wf.laid behind kept) hash key rounds idx b.below,
    (
      omega arith,
      b,
      ap (λ (s : HashSlot). s.status) (kept.same_slot idx b.below (IsBefore-IsUsed b)),
    ),
  )
  get_step-IsOnWay {m} kept n (opened rounds idx status) (count, b, e) =
      let there = kept.same_slot idx b.below (IsBefore-IsUsed b) in
      (
        copied rounds idx (slot_at ht m idx),
        rw (e, sym (ap (λ (s : HashSlot). s.status) there))
            (step_opened m (laid_still wf.laid behind kept) hash key rounds idx b.below),
        (omega arith, b, there),
      )
  get_step-IsOnWay {m} kept n (copied rounds idx slot) (count, b, e) =
      let there = kept.same_slot idx b.below (IsBefore-IsUsed b) in
      (
        after_kind ht m rounds idx (key_kind ht m hash key idx),
        rw (e ∙ sym there) (step_copied m (laid_still wf.laid behind kept) hash key rounds idx),
        round kept n rounds idx count b,
      )
  get_step-IsOnWay {m} kept n (matched offset vlen) (count, e, f) = (
    answered (some (value_at ht m offset vlen)),
    step_matched m (laid_still wf.laid behind kept) hash key offset vlen,
    ap some (
        rw (e, f)
          (ap (λ (s : HashSlot). value_at ht m s.offset s.vlen) (sym (kept.same_slot i lt i-IsUsed))
            ∙ same_value wf.laid behind kept stored i lt i-IsUsed
            ∙ reads)),
  )
  get_step-IsOnWay kept n (answered a) e = (answered a, refl, e)

  pub by_look :
      (n : ℕ) (look : Look)
      → IsOnWay ht m₀ i value n look
      → ((is_pending look ≡ true) × (n ≤ 3 * ht.capacity)) ⊎ (look ≡ answered (some value))
  by_look n (looking rounds idx) (count, b) = inl (refl, omega arith)
  by_look n (opened rounds idx status) (count, b, e) = inl (refl, omega arith)
  by_look n (copied rounds idx slot) (count, b, e) = inl (refl, omega arith)
  by_look n (matched offset vlen) (count, e, f) = inl (refl, count)
  by_look n (answered a) e = inr (ap answered e)
