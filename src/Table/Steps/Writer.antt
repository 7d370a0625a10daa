-- ===== src/Table/Steps/Writer.antt =====
-- A step of `Insert` neither panics nor changes what a reader of the old entries sees.
use featcache.Common.{
  ℕ, zero, suc, ◌+◌, ◌≤◌, ◌<◌, ◌≡◌, ◌≢◌, refl, ap, ◌⊎◌, inl, inr, true, ◌||◌, ◌==◌, ==_iff,
  Bool-cases, le→leb, ok, Returns, ◌>>=◌, arith,
}
use featcache.Layout.{HashSlot, slot_empty, slot_used, slot_tomb}
use featcache.Memory.{Memory, store_le, put_le, compare_and_swap}
use featcache.Memory.Words.{Differs-wider, store_le-Differs}
use featcache.Table.Scan.{status_read}
use featcache.Table.Steps.Kept.{Keeps, Keeps-slot, IsAt, laid_still}
use featcache.Table.Steps.{Pc, probing, loaded, claimed, hashed, placed, returned, insert_step}
use featcache.Table.View.{IsLaidOut, next-lt, slot_at, cell-lt}
use featcache.Table.{HashTable, slot_off, next}

-- What a step comes to.
abbrev pub IsKept : HashTable → ℕ → Memory → Pc × Memory → Type 0
IsKept ht frontier m₀ r = Keeps ht frontier m₀ r.1 × IsAt ht m₀ r.0

module _ {ht : HashTable} {log frontier : ℕ} {m₀ : Memory} (laid : IsLaidOut ht log m₀.size)
    (behind : ht.data_base ≤ frontier) (hash offset vlen : ℕ) where
  module _ {m : Memory} (kept : Keeps ht frontier m₀ m) where
    -- One of the three writes, which stays in a slot that was not in use.
    stored_in :
        (n o idx v : ℕ) (pc : Pc)
        → idx < ht.capacity
        → (slot_at ht m₀ idx).status ≢ slot_used
        → slot_off ht idx ≤ o
        → o + n ≤ slot_off ht idx + 24
        → IsAt ht m₀ pc
        → Returns (put_le n m o v >>= (λ m'. ok (pc, m'))) (IsKept ht frontier m₀)
    unfolding put_le
    stored_in n o idx v pc lt free lo hi at = (
      (pc, store_le n m o v),
      rw (le→leb (o + n) m.size (omega (arith, cell-lt m (laid_still laid behind kept) idx lt)))
          refl,
      (
        Keeps-slot laid behind idx lt free (Differs-wider lo hi (store_le-Differs n m o v)) kept,
        at,
      ),
    )

    not_in_use :
        (idx status : ℕ)
        → idx < ht.capacity
        → (slot_at ht m idx).status ≡ status
        → (status ≡ slot_empty) ⊎ (status ≡ slot_tomb)
        → (slot_at ht m₀ idx).status ≢ slot_used
    not_in_use idx status lt now free used =
        let same = ap (λ (s : HashSlot). s.status) (kept.same_slot idx lt used) in
        absurd (omega arith)

    swap :
        (rounds idx status : ℕ)
        → idx < ht.capacity
        → (status ≡ slot_empty) ⊎ (status ≡ slot_tomb)
        → Returns
            (insert_step ht hash offset vlen (loaded rounds idx status) m)
            (IsKept ht frontier m₀)
    unfolding insert_step compare_and_swap
    swap rounds idx status lt free =
        let read = status_read m (laid_still laid behind kept) idx lt in
        elim (Bool-cases ((slot_at ht m idx).status == status)) [
          | inl same ↦
              let unused =
                not_in_use idx status lt ((==_iff (slot_at ht m idx).status status).0 same) free in
              (
                (claimed idx, store_le 4 m (slot_off ht idx + 16) slot_used),
                rw (read, same) refl,
                (
                  Keeps-slot laid behind idx lt unused
                      (Differs-wider (omega arith) (omega arith)
                        (store_le-Differs 4 m (slot_off ht idx + 16) slot_used))
                      kept,
                  (lt, unused),
                ),
              )
          | inr other ↦
              ((probing rounds (next ht idx), m), rw (read, other) refl, (kept, next-lt laid idx))
        ]

    load :
        (rounds idx : ℕ)
        → idx < ht.capacity
        → Returns
            (insert_step ht hash offset vlen (probing (suc rounds) idx) m)
            (IsKept ht frontier m₀)
    unfolding insert_step
    load rounds idx lt =
        let read = status_read m (laid_still laid behind kept) idx lt in
        let s = (slot_at ht m idx).status in
        elim (Bool-cases (s == slot_empty || s == slot_tomb)) [
          | inl free ↦ ((loaded rounds idx s, m), rw (read, free) refl, (kept, (lt, ground arith)))
          | inr taken ↦
              ((probing rounds (next ht idx), m), rw (read, taken) refl, (kept, next-lt laid idx))
        ]

    pub insert_step-IsKept :
        (pc : Pc)
        → IsAt ht m₀ pc
        → Returns (insert_step ht hash offset vlen pc m) (IsKept ht frontier m₀)
    unfolding insert_step
    insert_step-IsKept (probing zero idx) lt = (_, refl, (kept, tt))
    insert_step-IsKept (probing (suc rounds) idx) lt = load rounds idx lt
    insert_step-IsKept (loaded rounds idx status) (lt, free) = swap rounds idx status lt free
    insert_step-IsKept (claimed idx) (lt, free) =
        stored_in 8 (slot_off ht idx) idx hash (hashed idx) lt free (omega arith) (omega arith)
          (lt, free)
    insert_step-IsKept (hashed idx) (lt, free) =
        stored_in 4 (slot_off ht idx + 8) idx offset (placed idx) lt free (omega arith)
          (omega arith) (lt, free)
    insert_step-IsKept (placed idx) (lt, free) =
        stored_in 4 (slot_off ht idx + 12) idx vlen (returned true) lt free (omega arith)
          (omega arith) tt
    insert_step-IsKept (returned done) at = (_, refl, (kept, tt))
