-- ===== src/Table/Steps/Examples.antt =====
-- A writer and a reader at the table of two slots, which holds the key 7 in slot 1.
use featcache.Common.{
  ℕ, zero, suc, ◌≤◌, ◌≡◌, refl, ◌⊎◌, true, [], ◌∷◌, some, arith, ok, ◌>>=◌, Returns,
}
use featcache.Layout.{HashSlot, slot_used}
use featcache.Loader.Frame.{IsStored}
use featcache.Memory.{Memory}
use featcache.Table.Examples.{
  two_slots, blank, filled, everything, blank-IsWellFormed, two_slots-IsLaidOut, blank-Zeroed,
  blank-IsChunk, get_runs, filled-Inserted,
}
use featcache.Table.Fresh.{Zeroed-get}
use featcache.Table.Steps.Kept.{Keeps}
use featcache.Table.Steps.Reader.{is_pending}
use featcache.Table.Steps.Runs.{insert_steps, insert_steps-insert, finished}
use featcache.Table.Steps.Stable.{IsUndeleted, concurrent_get, steps_keep}
use featcache.Table.Steps.System.{System, begins, stores, Reach, start, write, read, calling}
use featcache.Table.Steps.Torn.{torn_value}
use featcache.Table.Steps.{
  Look, probing, loaded, placed, returned, insert_step, insert_start, opened, copied, matched,
  answered, get_step,
}
use featcache.Table.{get, insert}

abbrev frontier : ℕ
frontier = 55

filled-IsUndeleted : IsUndeleted two_slots filled
unfolding everything
filled-IsUndeleted zero lt occupied = absurd (occupied refl)
filled-IsUndeleted (suc zero) lt occupied = refl
filled-IsUndeleted (suc (suc i)) lt occupied = absurd (omega arith)

filled-IsStored : IsStored two_slots filled frontier
unfolding everything
filled-IsStored zero lt used = absurd (omega arith)
filled-IsStored (suc zero) lt used = omega arith
filled-IsStored (suc (suc i)) lt used = absurd (omega arith)

-- The writer begins to insert a key with the hash 3, whose home is taken, and finds slot 0 free.
abbrev first_call : System
first_call = calling two_slots 5 filled

abbrev begun : System
begun = record first_call { writer = insert_start two_slots 3; hash = 3; offset = 8; vlen = 1 }

abbrev passed : System
passed = record begun { mem = filled; writer = probing 1 0 }

abbrev ready : System
ready = record passed { mem = filled; writer = loaded 0 0 0 }

-- The reader reads the status of slot 1, its fields, the key and the value.
abbrev reading : Look → System
reading look = record ready { reader = look }

abbrev seen : System
seen = reading (answered (some (9 ∷ 8 ∷ [])))

abbrev slot_one : HashSlot
slot_one = record { hash = 5; offset = 0; vlen = 2; status = slot_used }

ready-Reach : Reach two_slots frontier 5 (7 ∷ []) first_call 0 ready
unfolding everything insert_step
ready-Reach =
    write
      (write (write start (begins true 3 8 1 refl)) (stores {pc = probing 1 0} {m = filled} refl))
      (stores {pc = loaded 0 0 0} {m = filled} refl)

seen-Reach : Reach two_slots frontier 5 (7 ∷ []) first_call 4 seen
unfolding everything get_step
seen-Reach =
    let status = read {look = opened 1 1 slot_used} ready-Reach refl in
    let slot = read {look = copied 1 1 slot_one} status refl in
    let key = read {look = matched 0 2} slot refl in read key refl

concurrent_get_example :
    ((is_pending seen.reader ≡ true) × (4 ≤ 6)) ⊎ (seen.reader ≡ answered (some (9 ∷ 8 ∷ [])))
concurrent_get_example =
    concurrent_get filled-Inserted.well_formed filled-IsUndeleted (omega arith) filled-IsStored 5
      (7 ∷ []) (9 ∷ 8 ∷ []) get_runs 4 seen seen-Reach

steps_keep_example :
    Keeps two_slots frontier first_call.mem seen.mem
    × Returns
        (get_step two_slots 5 (7 ∷ []) seen.reader seen.mem)
        (λ look. (is_pending look ≡ true) ⊎ (look ≡ answered (some (9 ∷ 8 ∷ []))))
    × Returns
        (insert_step two_slots 3 8 1 seen.writer seen.mem)
        (λ next. Keeps two_slots frontier first_call.mem next.1)
steps_keep_example =
    steps_keep filled-Inserted.well_formed filled-IsUndeleted (omega arith) filled-IsStored 5
      (7 ∷ []) (9 ∷ 8 ∷ []) get_runs 4 seen seen-Reach

blank_filled_by_steps :
    insert_steps two_slots 5 0 2 8 (insert_start two_slots 5) blank
    ≡ (insert two_slots blank 5 0 2 >>= finished two_slots 5 0 2)
blank_filled_by_steps = insert_steps-insert two_slots 5 0 2 blank 8 (omega arith)

torn_value_example :
    (n : ℕ) × (m₁ : Memory) × (m₂ : Memory) × (insert_steps two_slots 5 0 2 n
        (insert_start two_slots 5)
        blank
      ≡ ok (placed 1, m₁))
    × (get two_slots m₁ 5 (7 ∷ []) ≡ ok (some []))
    × (insert_step two_slots 5 0 2 (placed 1) m₁ ≡ ok (returned true, m₂))
    × (get two_slots m₂ 5 (7 ∷ []) ≡ ok (some (9 ∷ 8 ∷ [])))
unfolding everything
torn_value_example =
    torn_value blank-IsWellFormed 5 blank-IsChunk
      (Zeroed-get two_slots-IsLaidOut blank-Zeroed 5 (7 ∷ [])) (omega arith) (omega arith)
      (omega arith) 1 refl refl
