-- ===== src/Loader/Ready.antt =====
-- The loader between two calls: `Init` establishes it and `put` keeps it.
use featcache.Common.{ℕ, ◌≤◌, ◌<◌, ◌^◌, ◌≡◌, ◌∙◌, refl, inl, true, some, arith}
use featcache.Hash.{header_hash_seed}
use featcache.Loader.Frame.{IsStored}
use featcache.Loader.{Loader}
use featcache.Memory.{Memory, load_le}
use featcache.Memory.Words.{Differs, load_le-Differs}
use featcache.Segment.{Segment, data_of}
use featcache.Table.Refine.{IsWellFormed}
use featcache.Table.{HashTable}

-- The fields of the header that the loader and the readers need, and the seed.
pub record IsHeaded (ht : HashTable) (seed : ℕ) (m : Memory) : Type 0 where
  pub behind : 64 ≤ ht.slot_base
  pub cap : load_le 4 m 24 ≡ ht.capacity
  pub slots : load_le 4 m 28 ≡ ht.slot_base
  pub base : load_le 4 m 32 ≡ ht.data_base
  pub seeded : load_le 8 m 48 ≡ seed
  pub seed_pos : 0 < seed
  pub seed_lt : seed < 2 ^ 64

-- The loader has a well-formed table, whose chunks end where the data ends, in a segment of at most 2 GiB.
pub record IsReady (l : Loader) (ht : HashTable) (log seed : ℕ) : Type 0 where
  pub handle : l.hash_table ≡ some ht
  pub attached : l.segment.attached ≡ true
  pub bounded : l.segment.bytes.size ≤ 2 ^ 31
  pub headed : IsHeaded ht seed l.segment.bytes
  pub formed : IsWellFormed ht log l.segment.bytes
  pub after : ht.data_base ≤ l.data_end
  pub inside : l.data_end ≤ l.segment.bytes.size
  pub stored : IsStored ht l.segment.bytes l.data_end

-- A change behind the header keeps it.
pub IsHeaded-Differs :
    {ht : HashTable} {seed lo hi : ℕ} {m m' : Memory}
    → 64 ≤ lo
    → Differs lo hi m m'
    → IsHeaded ht seed m
    → IsHeaded ht seed m'
IsHeaded-Differs h d p = record {
  behind = p.behind;
  cap = load_le-Differs 4 24 d (inl (omega arith)) ∙ p.cap;
  slots = load_le-Differs 4 28 d (inl (omega arith)) ∙ p.slots;
  base = load_le-Differs 4 32 d (inl (omega arith)) ∙ p.base;
  seeded = load_le-Differs 8 48 d (inl (omega arith)) ∙ p.seeded;
  seed_pos = p.seed_pos;
  seed_lt = p.seed_lt;
}

-- Every process finds the seed.
pub header_hash_seed-IsHeaded :
    {ht : HashTable} {seed : ℕ} {m : Memory} (pkg_seed : ℕ)
    → IsHeaded ht seed m
    → header_hash_seed pkg_seed m ≡ seed
unfolding header_hash_seed
header_hash_seed-IsHeaded pkg_seed p = ground (arith, p.seeded, p.seed_pos)

pub data_of-attached : (s : Segment) → s.attached ≡ true → data_of s ≡ s.bytes
unfolding data_of
data_of-attached s h = rw h refl
