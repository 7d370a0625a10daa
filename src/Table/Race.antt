-- ===== src/Table/Race.antt =====
-- `Insert` marks a slot as used before it writes the slot's other fields: what a concurrent `Get` may
-- see in between.
use featcache.Common.{
  ℕ, zero, suc, ◌+◌, ◌<◌, ◌≡◌, ◌∙◌, refl, ap, fun_ext, inl, inr, true, List, none, some, arith, ok,
  ◌>>=◌,
}
use featcache.Layout.{HashSlot, slot_used, slot_tomb}
use featcache.Memory.{Memory, poke, load_le, store_le, compare_and_swap}
use featcache.Table.Scan.{
  status_read, claim, find, buried, slot_value, read_found, delete_result, get-eq, delete-eq,
}
use featcache.Table.Refine.{IsWellFormed, same_entry_iff, key_kind_hit, find_sound}
use featcache.Table.View.{IsLaidOut, slot_at, capacity_pos}
use featcache.Table.Write.{buried-Differs, slot_at-buried_self}
use featcache.Table.Delete.{delete-refines}
use featcache.Table.{insert_loop, HashTable, home, get, delete, insert, fill_slot, slot_off}

positive : (n : ℕ) → 0 < n → (k : ℕ) × (n ≡ suc k)
positive zero h = absurd (omega arith)
positive (suc k) h = (k, refl)

bytes_of_one :
    (m : Memory) (o : ℕ)
    → load_le 4 m o ≡ 1
    → (m.byte o ≡ 1)
      × (m.byte (o + 1) ≡ 0)
      × (m.byte (o + 1 + 1) ≡ 0)
      × (m.byte (o + 1 + 1 + 1) ≡ 0)
unfolding load_le
bytes_of_one m o e = (omega arith, omega arith, omega arith, omega arith)

restored_byte :
    (m : Memory) (o j : ℕ)
    → load_le 4 m o ≡ 1
    → (store_le 4 (store_le 4 m o 2) o 1).byte j ≡ m.byte j
unfolding store_le poke
restored_byte m o j e =
    let (a, b, c, d) = bytes_of_one m o e in
    let at : (k n : ℕ) → m.byte k ≡ n → j ≡ k → m.byte j ≡ n = λ k n p q. ap m.byte q ∙ p in
    ground (arith, at o 1 a, at (o + 1) 0 b, at (o + 1 + 1) 0 c, at (o + 1 + 1 + 1) 0 d)

restored : (m : Memory) (o : ℕ) → load_le 4 m o ≡ 1 → store_le 4 (store_le 4 m o 2) o 1 ≡ m
unfolding store_le poke
restored m o e = λ i. record { size = m.size; byte = fun_ext (λ j. restored_byte m o j e) i }

module _ {ht : HashTable} {log : ℕ} {m : Memory} (wf : IsWellFormed ht log m) (hash : ℕ)
    (key : List ℕ) (p : ℕ) (found : find ht m hash key ≡ some p) where
  in_use : (p < ht.capacity) × (load_le 4 m (slot_off ht p + 16) ≡ slot_used)
  unfolding slot_at
  in_use =
      let (kind, lt) = find_sound wf hash key p found in
      (lt, ((key_kind_hit ht m hash key p).0 kind).0)

  tomb_now : (slot_at ht (buried ht m p) p).status ≡ slot_tomb
  tomb_now = ap (λ (s : HashSlot). s.status) (slot_at-buried_self ht m p)

  laid_now : IsLaidOut ht log (buried ht m p).size
  laid_now = rw (buried-Differs ht m p).same_size wf.laid

  as_before : store_le 4 (buried ht m p) (slot_off ht p + 16) slot_used ≡ m
  unfolding buried
  as_before = restored m (slot_off ht p + 16) in_use.1

  claimed : compare_and_swap (buried ht m p) (slot_off ht p + 16) slot_tomb slot_used ≡ ok (true, m)
  claimed =
      let swapped = claim (buried ht m p) laid_now p in_use.0 in
      rw tomb_now at swapped ∙ ap (λ m₁. ok (true, m₁)) as_before

  insert_loop-claimed :
      (h offset vlen rounds : ℕ)
      → home ht h ≡ p
      → insert_loop ht h offset vlen (suc rounds) (home ht h) (buried ht m p)
        ≡ (fill_slot ht m p h offset vlen >>= (λ m₂. ok (true, m₂)))
  unfolding insert_loop
  insert_loop-claimed h offset vlen rounds at_home =
      let read = status_read (buried ht m p) laid_now p in_use.0 ∙ ap ok tomb_now in
      rw (at_home, read, claimed) refl

  insert-claimed :
      (h offset vlen : ℕ)
      → home ht h ≡ p
      → insert ht (buried ht m p) h offset vlen
        ≡ (fill_slot ht m p h offset vlen >>= (λ m₂. ok (true, m₂)))
  unfolding insert
  insert-claimed h offset vlen at_home =
      let (rounds, e) = positive ht.capacity (capacity_pos wf.laid) in
      ap (λ n. insert_loop ht h offset vlen n (home ht h) (buried ht m p)) e
      ∙ insert_loop-claimed h offset vlen rounds at_home

  removed : (m' : Memory) → delete ht m hash key ≡ ok (true, m') → get ht m' hash key ≡ ok none
  removed m' run = elim (delete-refines wf hash key) [
    | inl (_, miss) ↦ absurd (cc)
    | inr (v, after, _, ran, done) ↦
        let same : m' ≡ after = cc in
        rw (same, done.reads hash key, (same_entry_iff hash hash key key).1 (refl, refl)) refl
  ]

  -- A key stands in slot `p`; it is deleted, and then an insertion starts whose hash has `p` as its
  -- home slot. The lookup of the deleted key misses after the deletion; but the first store of
  -- `Insert`, the claim of the slot, gives back the bytes of the time before the deletion, and what is
  -- left of `Insert` are the stores to the slot's other fields. A reader that looks in between gets
  -- the deleted key with its value.
  pub claim-delete :
      (h offset vlen : ℕ)
      → home ht h ≡ p
      → (m' : Memory) × (m₁ : Memory) × (delete ht m hash key ≡ ok (true, m'))
        × (get ht m' hash key ≡ ok none)
        × (compare_and_swap m' (slot_off ht p + 16) slot_tomb slot_used ≡ ok (true, m₁))
        × (get ht m₁ hash key ≡ ok (some (slot_value ht m p)))
        × (insert ht m' h offset vlen ≡ (fill_slot ht m₁ p h offset vlen >>= (λ m₂. ok (true, m₂))))
  claim-delete h offset vlen at_home =
      let run = delete-eq m wf.laid hash key ∙ ap (λ o. ok (delete_result ht m o)) found in
      (
        buried ht m p,
        m,
        run,
        removed (buried ht m p) run,
        claimed,
        get-eq m wf.laid hash key ∙ ap (λ o. ok (read_found ht m o)) found,
        insert-claimed h offset vlen at_home,
      )
