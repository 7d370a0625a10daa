-- ===== src/Memory.antt =====
-- Raw bytes and the accesses that the Go code makes to them: `data []byte`, encoding/binary in
-- little-endian order, sync/atomic on a 4-byte cell. A slice is its length and its contents.
-- Addresses and lengths are Go `int`s; none is negative in the code modelled here except where a
-- definition says so, so they are natural numbers.
pub mod Words
use featcache.Common.{
  ℕ, zero, suc, ◌+◌, ◌*◌, ◌/◌, ◌%◌, ◌^◌, Bool, true, false, List, [], ◌∷◌, leb, ltb, ◌==◌,
  if◌then◌else◌, Run, ok, panic, ◌>>=◌,
}

-- `size` is `len(data)`, `byte i` is `data[i]`.
pub record Memory : Type 0 where
  pub size : ℕ
  pub byte : ℕ → ℕ

unfoldable pub poke : Memory → ℕ → ℕ → Memory
poke m i b = record m { byte = λ j. if j == i then b else m.byte j }

-- The `n` bytes from `o` on as a little-endian number.
unfoldable pub load_le : ℕ → Memory → ℕ → ℕ
load_le zero m o = 0
load_le (suc n) m o = m.byte o + 256 * load_le n m (o + 1)

-- The low `n` bytes of `v`, written from `o` on.
unfoldable pub store_le : ℕ → Memory → ℕ → ℕ → Memory
store_le zero m o v = m
store_le (suc n) m o v = poke (store_le n m (o + 1) (v / 256)) o (v % 256)

-- The `n` bytes from `o` on.
unfoldable pub slice : ℕ → Memory → ℕ → List ℕ
slice zero m o = []
slice (suc n) m o = m.byte o ∷ slice n m (o + 1)

-- `copy(data[o:], bytes)`: what does not fit is left out.
unfoldable pub copy : Memory → ℕ → List ℕ → Memory
copy m o [] = m
copy m o (b ∷ bs) = let rest = copy m (o + 1) bs in if ltb o m.size then poke rest o b else m

-- `binary.LittleEndian.Uint32(data[o:o+4])` and its kin: `data[o:o+n]` panics out of range.
unfoldable pub get_le : ℕ → Memory → ℕ → Run ℕ
get_le n m o = if leb (o + n) m.size then ok (load_le n m o) else panic

unfoldable pub put_le : ℕ → Memory → ℕ → ℕ → Run Memory
put_le n m o v = if leb (o + n) m.size then ok (store_le n m o v) else panic

-- `atomic.LoadUint32((*uint32)(unsafe.Pointer(&data[o])))`: only `data[o]` itself is checked.
unfoldable pub atomic_load : Memory → ℕ → Run ℕ
atomic_load m o = if ltb o m.size then ok (load_le 4 m o) else panic

unfoldable pub atomic_store : Memory → ℕ → ℕ → Run Memory
atomic_store m o v = if ltb o m.size then ok (store_le 4 m o v) else panic

-- `atomic.CompareAndSwapUint32`.
unfoldable pub compare_and_swap : Memory → ℕ → ℕ → ℕ → Run (Bool × Memory)
unfolding atomic_load
compare_and_swap m o old new = do
  now ← atomic_load m o
  if now == old then ok (true, store_le 4 m o new) else ok (false, m)
