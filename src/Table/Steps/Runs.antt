-- ===== src/Table/Steps/Runs.antt =====
-- A call that nobody interrupts: step by step it does what `Insert` and `Get` do at once.
use featcache.Common.{
  ℕ, zero, suc, ◌+◌, ◌*◌, ◌≤◌, ◌≡◌, refl, inl, inr, Bool, true, false, ◌||◌, List, Option, none,
  some, ◌==◌, Run, ok, ◌>>=◌, arith, Bool-cases, Run-cases, ◌&&◌,
}
use featcache.Layout.{slot_empty, slot_used, slot_tomb}
use featcache.Memory.{Memory, get_le, atomic_load, compare_and_swap, put_le}
use featcache.Table.Steps.{
  Pc, probing, claimed, returned, insert_step, insert_start, Look, looking, answered, get_step,
  get_start,
}
use featcache.Table.{
  HashTable, slot_off, home, next, insert_loop, insert, fill_slot, get_loop, get, get_slot,
  match_key_at, get_value,
}

module _ (ht : HashTable) (hash offset vlen : ℕ) where
  -- `n` steps of `Insert`, one after the other.
  unfoldable pub insert_steps : ℕ → Pc → Memory → Run (Pc × Memory)
  insert_steps zero pc m = ok (pc, m)
  insert_steps (suc n) pc m = do
    (pc', m') ← insert_step ht hash offset vlen pc m
    insert_steps n pc' m'

  insert_steps-returned :
      (n : ℕ) (done : Bool) (m : Memory) → insert_steps n (returned done) m ≡ ok (returned done, m)
  unfolding insert_steps insert_step
  insert_steps-returned zero done m = refl
  insert_steps-returned (suc n) done m = insert_steps-returned n done m

  -- What a call returns.
  abbrev pub finished : Bool × Memory → Run (Pc × Memory)
  finished r = ok (returned r.0, r.1)

  insert_steps-filled :
      (n idx : ℕ) (m : Memory)
      → 3 ≤ n
      → insert_steps n (claimed idx) m
        ≡ ((fill_slot ht m idx hash offset vlen >>= (λ m'. ok (true, m'))) >>= finished)
  unfolding insert_steps insert_step fill_slot
  insert_steps-filled zero idx m h = absurd (omega arith)
  insert_steps-filled (suc zero) idx m h = absurd (omega arith)
  insert_steps-filled (suc (suc zero)) idx m h = absurd (omega arith)
  insert_steps-filled (suc (suc (suc n))) idx m h =
      let off = slot_off ht idx in
      elim (Run-cases (put_le 8 m off hash)) [
        | inl e ↦ rw e refl
        | inr (m₁, e) ↦ rw e (elim (Run-cases (put_le 4 m₁ (off + 8) offset)) [
          | inl f ↦ rw f refl
          | inr (m₂, f) ↦ rw f (elim (Run-cases (put_le 4 m₂ (off + 12) vlen)) [
            | inl g ↦ rw g refl
            | inr (m₃, g) ↦ rw g (insert_steps-returned n true m₃)
          ])
        ])
      ]

  insert_steps-loop :
      (rounds n idx : ℕ) (m : Memory)
      → 2 * rounds + 4 ≤ n
      → insert_steps n (probing rounds idx) m
        ≡ (insert_loop ht hash offset vlen rounds idx m >>= finished)
  unfolding insert_steps insert_step insert_loop
  insert_steps-loop rounds zero idx m h = absurd (omega arith)
  insert_steps-loop rounds (suc zero) idx m h = absurd (omega arith)
  insert_steps-loop zero (suc (suc n)) idx m h = insert_steps-returned (suc n) false m
  insert_steps-loop (suc rounds) (suc (suc n)) idx m h =
      let cell = slot_off ht idx + 16 in
      elim (Run-cases (atomic_load m cell)) [
        | inl e ↦ rw e refl
        | inr (status, e) ↦ rw e (elim (Bool-cases (status == slot_empty || status == slot_tomb)) [
          | inr taken ↦ rw taken (insert_steps-loop rounds (suc n) (next ht idx) m (omega arith))
          | inl free ↦ rw free (elim (Run-cases (compare_and_swap m cell status slot_used)) [
            | inl f ↦ rw f refl
            | inr ((true, m'), f) ↦ rw f (insert_steps-filled n idx m' (omega arith))
            | inr ((false, m'), f) ↦
                rw f (insert_steps-loop rounds n (next ht idx) m' (omega arith))
          ])
        ])
      ]

  -- A call of `Insert` that nobody interrupts, taken one access at a time, does what the whole
  -- operation does, on every memory: within two steps for each slot and four more it has returned,
  -- with the same result and the same bytes, or panics where the operation panics.
  pub insert_steps-insert :
      (m : Memory) (n : ℕ)
      → 2 * ht.capacity + 4 ≤ n
      → insert_steps n (insert_start ht hash) m ≡ (insert ht m hash offset vlen >>= finished)
  unfolding insert
  insert_steps-insert m n h = insert_steps-loop ht.capacity n (home ht hash) m h

module _ (ht : HashTable) (hash : ℕ) (key : List ℕ) (m : Memory) where
  -- `n` steps of `Get` on one memory.
  unfoldable pub get_steps : ℕ → Look → Run Look
  get_steps zero look = ok look
  get_steps (suc n) look = do look' ← get_step ht hash key look m; get_steps n look'

  get_steps-answered : (n : ℕ) (a : Option (List ℕ)) → get_steps n (answered a) ≡ ok (answered a)
  unfolding get_steps get_step
  get_steps-answered zero a = refl
  get_steps-answered (suc n) a = get_steps-answered n a

  abbrev pub given : Option (List ℕ) → Run Look
  given a = ok (answered a)

  get_steps-loop :
      (rounds n idx : ℕ)
      → 3 * rounds + 2 ≤ n
      → get_steps n (looking rounds idx) ≡ (get_loop ht m hash key rounds idx >>= given)
  unfolding get_steps get_step get_loop get_slot
  get_steps-loop rounds zero idx h = absurd (omega arith)
  get_steps-loop rounds (suc zero) idx h = absurd (omega arith)
  get_steps-loop zero (suc n) idx h = get_steps-answered n none
  get_steps-loop (suc rounds) (suc (suc zero)) idx h = absurd (omega arith)
  get_steps-loop (suc rounds) (suc (suc (suc zero))) idx h = absurd (omega arith)
  get_steps-loop (suc rounds) (suc (suc (suc (suc n)))) idx h =
      let off = slot_off ht idx in
      let on = get_steps-loop rounds (suc n) (next ht idx) (omega arith) in
      elim (Run-cases (atomic_load m (off + 16))) [
        | inl e ↦ rw e refl
        | inr (status, e) ↦ rw e (elim (Run-cases (get_le 8 m off)) [
          | inl f ↦ rw f refl
          | inr (stored, f) ↦ rw f (elim (Run-cases (get_le 4 m (off + 8))) [
            | inl g ↦ rw g refl
            | inr (offset, g) ↦ rw g (elim (Run-cases (get_le 4 m (off + 12))) [
              | inl k ↦ rw k refl
              | inr (vlen, k) ↦ rw k (elim (Bool-cases (status == slot_empty)) [
                | inl empty ↦ rw empty (get_steps-answered (suc n) none)
                | inr taken ↦ rw taken (elim (Bool-cases (status == slot_used && stored == hash)) [
                  | inr other ↦ rw other on
                  | inl like ↦ rw like (elim (Run-cases (match_key_at ht m offset key)) [
                    | inl q ↦ rw q refl
                    | inr (false, q) ↦ rw q on
                    | inr (true, q) ↦ rw q (elim (Run-cases (get_value ht m offset vlen)) [
                      | inl r ↦ rw r refl
                      | inr (v, r) ↦ rw r (get_steps-answered n (some v))
                    ])
                  ])
                ])
              ])
            ])
          ])
        ])
      ]

  -- A call of `Get` that nobody interrupts has answered within three steps for each slot and two
  -- more, what the whole operation answers, or panics where it panics.
  pub get_steps-get :
      (n : ℕ)
      → 3 * ht.capacity + 2 ≤ n
      → get_steps n (get_start ht hash) ≡ (get ht m hash key >>= given)
  unfolding get
  get_steps-get n h = get_steps-loop ht.capacity n (home ht hash) h
