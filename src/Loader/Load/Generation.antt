-- ===== src/Loader/Load/Generation.antt =====
-- The end of `Load`: the generation counter goes up, and nothing else changes.
use featcache.Common.{ℕ, ◌+◌, ◌%◌, ◌^◌, ◌≤◌, ◌<◌, ◌≡◌, ◌≢◌, ◌∙◌, refl, inr, List, arith, ok}
use featcache.Header.Laws.{header_of-overlay}
use featcache.Header.{overlay}
use featcache.Loader.Before.{before-IsWellFormed, before-IsStored, before-get, same_slot}
use featcache.Loader.Load.{bump_generation}
use featcache.Loader.Outcome.{lookup}
use featcache.Loader.Ready.{IsReady, data_of-attached}
use featcache.Loader.{Loader, with_bytes}
use featcache.Memory.Words.{Differs, store_le-Differs, load_le-Differs, load-store_le}
use featcache.Memory.{Memory, load_le, store_le}
use featcache.Table.Free.{free_slots, free_slots-same}
use featcache.Table.Probe.{hit}
use featcache.Table.Scan.{free_kind}
use featcache.Table.{HashTable}

module _ {l : Loader} {ht : HashTable} {log seed : ℕ} (ready : IsReady l ht log seed) where
  abbrev m : Memory
  m = l.segment.bytes

  abbrev pub bumped : Loader
  bumped = with_bytes l (store_le 8 m 16 (load_le 8 m 16 + 1))

  bumped-Differs : Differs 16 24 m bumped.segment.bytes
  bumped-Differs = store_le-Differs 8 m 16 (load_le 8 m 16 + 1)

  pub bump_generation-bumped : bump_generation l ≡ ok bumped
  unfolding bump_generation overlay
  bump_generation-bumped =
      rw
        (
          data_of-attached l.segment ready.attached,
          header_of-overlay m (
              let fit = ready.formed.laid.slots_fit in
              let inside = ready.formed.laid.data_fits in omega (arith, ready.headed.behind)),
        )
        refl

  pub bumped_counter : load_le 8 bumped.segment.bytes 16 ≡ (load_le 8 m 16 + 1) % 2 ^ 64
  bumped_counter = load-store_le 8 m 16 (load_le 8 m 16 + 1)

  behind : 24 ≤ ht.slot_base
  behind = omega (arith, ready.headed.behind)

  pub bumped-lookup : (k : List ℕ) → lookup ht bumped seed k ≡ lookup ht l seed k
  bumped-lookup k = before-get ready.formed behind bumped-Differs _ k

  pub bumped_full :
      ((i : ℕ) → i < ht.capacity → free_kind ht m i ≢ hit)
      → (i : ℕ) → i < ht.capacity
      → free_kind ht bumped.segment.bytes i ≢ hit
  unfolding free_kind
  bumped_full full i lt = rw (same_slot ready.formed behind bumped-Differs i) (full i lt)

  pub bumped_size : bumped.segment.bytes.size ≡ m.size
  bumped_size = bumped-Differs.same_size

  pub bumped-free_slots : free_slots ht bumped.segment.bytes ≡ free_slots ht m
  bumped-free_slots =
      free_slots-same ht m bumped.segment.bytes
        (λ j lt. same_slot ready.formed behind bumped-Differs j)

  pub bumped-IsReady : IsReady bumped ht log seed
  bumped-IsReady = record {
    handle = ready.handle;
    attached = ready.attached;
    bounded = rw bumped-Differs.same_size ready.bounded;
    headed = record {
      behind = ready.headed.behind;
      cap = load_le-Differs 4 24 bumped-Differs (inr (omega arith)) ∙ ready.headed.cap;
      slots = load_le-Differs 4 28 bumped-Differs (inr (omega arith)) ∙ ready.headed.slots;
      base = load_le-Differs 4 32 bumped-Differs (inr (omega arith)) ∙ ready.headed.base;
      seeded = load_le-Differs 8 48 bumped-Differs (inr (omega arith)) ∙ ready.headed.seeded;
      seed_pos = ready.headed.seed_pos;
      seed_lt = ready.headed.seed_lt;
    };
    formed = before-IsWellFormed ready.formed behind bumped-Differs;
    after = ready.after;
    inside = rw bumped-Differs.same_size ready.inside;
    stored = before-IsStored ready.formed behind bumped-Differs l.data_end ready.stored;
  }
