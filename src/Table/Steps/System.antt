-- ===== src/Table/Steps/System.antt =====
-- One writer, which inserts one entry after the other, and one reader, interleaved in any order.
-- Readers write nothing, so each of many readers sees what this one sees.
use featcache.Common.{ℕ, suc, ◌≤◌, ◌≡◌, Bool, true, List, ok}
use featcache.Memory.{Memory}
use featcache.Memory.Words.{Differs}
use featcache.Table.Steps.{Pc, returned, insert_step, insert_start, Look, get_step, get_start}
use featcache.Table.{HashTable}

-- The bytes, the call of `Insert` with its arguments, and the call of `Get`.
pub record System : Type 0 where
  pub mem : Memory
  pub writer : Pc
  pub hash : ℕ
  pub offset : ℕ
  pub vlen : ℕ
  pub reader : Look

-- Between two insertions the loader copies an entry's bytes behind those in use, which end at
-- `frontier`; it may then begin an insertion with any arguments.
pub data Writes (ht : HashTable) (frontier : ℕ) (s : System) : System → Type 0 where
  copies :
      (done : Bool) (lo hi : ℕ) {m : Memory}
      → s.writer ≡ returned done
      → frontier ≤ lo
      → Differs lo hi s.mem m
      → Writes ht frontier s (record s { mem = m })
  begins :
      (done : Bool) (h o v : ℕ)
      → s.writer ≡ returned done
      → Writes ht frontier s
          (record s { writer = insert_start ht h; hash = h; offset = o; vlen = v })
  stores :
      {pc : Pc} {m : Memory}
      → insert_step ht s.hash s.offset s.vlen s.writer s.mem ≡ ok (pc, m)
      → Writes ht frontier s (record s { mem = m; writer = pc })

-- The number counts the reader's steps.
pub data Reach (ht : HashTable) (frontier hash : ℕ) (key : List ℕ) (s₀ : System)
    : ℕ → System → Type 0 where
  start : Reach ht frontier hash key s₀ 0 s₀
  write :
      {n : ℕ} {s t : System}
      → Reach ht frontier hash key s₀ n s
      → Writes ht frontier s t
      → Reach ht frontier hash key s₀ n t
  read :
      {n : ℕ} {s : System} {look : Look}
      → Reach ht frontier hash key s₀ n s
      → get_step ht hash key s.reader s.mem ≡ ok look
      → Reach ht frontier hash key s₀ (suc n) (record s { reader = look })

-- The reader calls `Get` while no insertion is on its way.
abbrev pub calling : HashTable → ℕ → Memory → System
calling ht hash m = record {
  mem = m;
  writer = returned true;
  hash = 0;
  offset = 0;
  vlen = 0;
  reader = get_start ht hash;
}
