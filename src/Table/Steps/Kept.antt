-- ===== src/Table/Steps/Kept.antt =====
-- What no step of a writer changes: the slots in use and the bytes in front of the frontier.
use native.Mathlib.Decide.{ℕ_discrete}
use featcache.Common.{
  ℕ, ◌+◌, ◌*◌, ◌≤◌, ◌<◌, ◌≡◌, ◌≢◌, ◌∙◌, refl, ap, sym, ◌⊎◌, inl, inr, List, length, arith,
}
use featcache.Layout.{slot_empty, slot_used, slot_tomb, slot_size}
use featcache.Loader.Frame.{IsStored}
use featcache.Memory.{Memory, load_le}
use featcache.Memory.Words.{Differs, load_le-Differs, load_le_same, slice_same}
use featcache.Table.Scan.{key_kind, slot_value}
use featcache.Table.Steps.{Pc, probing, loaded, claimed, hashed, placed, returned}
use featcache.Table.View.{IsLaidOut, slot_at, matches, value_at}
use featcache.Table.Write.{slot_at-Differs}
use featcache.Table.{HashTable, slot_off}

abbrev pub IsUsed : HashTable → Memory → ℕ → Type 0
IsUsed ht m i = (slot_at ht m i).status ≡ slot_used

-- `m` agrees with `m₀` where a reader of the entries of `m₀` looks.
pub record Keeps (ht : HashTable) (frontier : ℕ) (m₀ m : Memory) : Type 0 where
  pub same_size : m.size ≡ m₀.size
  pub same_slot : (i : ℕ) → i < ht.capacity → IsUsed ht m₀ i → slot_at ht m i ≡ slot_at ht m₀ i
  pub same_byte : (x : ℕ) → ht.data_base ≤ x → x < frontier → m.byte x ≡ m₀.byte x

-- Where a call of `Insert` may stand: it has claimed no slot that was in use.
abbrev pub IsAt : HashTable → Memory → Pc → Type 0
IsAt ht m₀ (probing rounds idx) = idx < ht.capacity
IsAt ht m₀ (loaded rounds idx status) =
    (idx < ht.capacity) × ((status ≡ slot_empty) ⊎ (status ≡ slot_tomb))
IsAt ht m₀ (claimed idx) = (idx < ht.capacity) × ((slot_at ht m₀ idx).status ≢ slot_used)
IsAt ht m₀ (hashed idx) = (idx < ht.capacity) × ((slot_at ht m₀ idx).status ≢ slot_used)
IsAt ht m₀ (placed idx) = (idx < ht.capacity) × ((slot_at ht m₀ idx).status ≢ slot_used)
IsAt ht m₀ (returned done) = Unit {0}

slot_at-behind :
    (ht : HashTable) {lo hi : ℕ} {m m' : Memory} (i : ℕ)
    → i < ht.capacity
    → ht.slot_base + ht.capacity * slot_size ≤ lo
    → Differs lo hi m m'
    → slot_at ht m' i ≡ slot_at ht m i
unfolding slot_at
slot_at-behind ht i lt far d =
    let off = slot_off ht i in
    rw (
      load_le-Differs 8 off d (omega arith),
      load_le-Differs 4 (off + 8) d (omega arith),
      load_le-Differs 4 (off + 12) d (omega arith),
      load_le-Differs 4 (off + 16) d (omega arith),
    )

module _ {ht : HashTable} {log frontier : ℕ} {m₀ : Memory} (laid : IsLaidOut ht log m₀.size)
    (behind : ht.data_base ≤ frontier) where
  pub Keeps-refl : Keeps ht frontier m₀ m₀
  Keeps-refl = record {
    same_size = refl;
    same_slot = λ i lt used. refl;
    same_byte = λ x lo hi. refl;
  }

  -- A store into a slot that was not in use.
  pub Keeps-slot :
      {m m' : Memory} (p : ℕ)
      → p < ht.capacity
      → (slot_at ht m₀ p).status ≢ slot_used
      → Differs (slot_off ht p) (slot_off ht p + 24) m m'
      → Keeps ht frontier m₀ m
      → Keeps ht frontier m₀ m'
  Keeps-slot p lt free d k = record {
    same_size = d.same_size ∙ k.same_size;
    same_slot = λ i i_lt used.
        slot_at-Differs ht p d i (λ e. free (ap (λ j. (slot_at ht m₀ j).status) (sym e) ∙ used))
        ∙ k.same_slot i i_lt used;
    same_byte =
        λ x lo hi. d.same_byte x (inr (omega (arith, laid.slots_fit))) ∙ k.same_byte x lo hi;
  }

  -- A copy behind the frontier.
  pub Keeps-behind :
      {lo hi : ℕ} {m m' : Memory}
      → frontier ≤ lo
      → Differs lo hi m m'
      → Keeps ht frontier m₀ m
      → Keeps ht frontier m₀ m'
  Keeps-behind far d k = record {
    same_size = d.same_size ∙ k.same_size;
    same_slot = λ i lt used.
        slot_at-behind ht i lt (omega (arith, laid.slots_fit)) d ∙ k.same_slot i lt used;
    same_byte = λ x lo hi. d.same_byte x (inl (omega arith)) ∙ k.same_byte x lo hi;
  }

  module _ {m : Memory} (kept : Keeps ht frontier m₀ m) where
    pub laid_still : IsLaidOut ht log m.size
    laid_still = rw kept.same_size laid

    module _ (stored : IsStored ht m₀ frontier) (i : ℕ) (lt : i < ht.capacity)
        (used : IsUsed ht m₀ i) where
      abbrev chunk : ℕ
      chunk = ht.data_base + (slot_at ht m₀ i).offset

      same_length : load_le 4 m chunk ≡ load_le 4 m₀ chunk
      same_length =
          load_le_same m₀ m 4 chunk
            (λ j lo hi. kept.same_byte j (omega arith) (omega (arith, stored i lt used)))

      same_matches :
          (key : List ℕ)
          → matches ht m (slot_at ht m₀ i).offset key ≡ matches ht m₀ (slot_at ht m₀ i).offset key
      unfolding matches
      same_matches key =
          simp (same_length, kept.same_size)
            (elim (ℕ_discrete (load_le 4 m₀ chunk) (length key)) [
              | yes e ↦ simp (
                  slice_same m₀ m (length key) (chunk + 4)
                    (λ j lo hi. kept.same_byte j (omega arith) (omega (arith, stored i lt used))))
              | no ne ↦ ground arith
            ])

      pub same_kind :
          (hash : ℕ) (key : List ℕ) → key_kind ht m hash key i ≡ key_kind ht m₀ hash key i
      unfolding key_kind
      same_kind hash key = simp (kept.same_slot i lt used, same_matches key)

      pub same_value : slot_value ht m i ≡ slot_value ht m₀ i
      unfolding value_at
      same_value =
          let size = load_le 4 m₀ chunk in
          let v = (slot_at ht m₀ i).vlen in
          simp (
            kept.same_slot i lt used,
            same_length,
            slice_same m₀ m v (chunk + 4 + size)
                (λ j lo hi. kept.same_byte j (omega arith) (omega (arith, stored i lt used))),
            kept.same_size,
          )
