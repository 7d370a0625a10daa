-- ===== src/Hash.antt =====
-- pkg/featcache/hash.go: the seeded FNV-1a hash, and the seed that the header keeps in its reserved
-- bytes. What crypto/rand delivers is an argument: the list of its answers, in order.
pub mod Laws
mod Examples
use featcache.Common.{
  ℕ, ◌+◌, ◌*◌, ◌%◌, ◌^◌, List, [], ◌∷◌, Option, none, some, bit_xor, ◌==◌, if◌then◌else◌, Run, ok,
  panic,
}
use featcache.Memory.{Memory, load_le, store_le}

abbrev pub fnv_offset64 : ℕ
fnv_offset64 = 14695981039346656037

abbrev pub fnv_prime64 : ℕ
fnv_prime64 = 1099511628211

-- One round: `h ^= uint64(b)`, then `h *= fnvPrime64` on uint64.
unfoldable pub hash_byte : ℕ → ℕ → ℕ
hash_byte h b = bit_xor h b * fnv_prime64 % 2 ^ 64

unfoldable pub hash_bytes : ℕ → List ℕ → ℕ
hash_bytes h [] = h
hash_bytes h (b ∷ key) = hash_bytes (hash_byte h b) key

unfoldable pub hash_key_with_seed : List ℕ → ℕ → ℕ
hash_key_with_seed key seed = hash_bytes (bit_xor fnv_offset64 seed) key

-- `HashKey`, with the package's seed variable as an argument.
unfoldable pub hash_key : ℕ → List ℕ → ℕ
hash_key pkg_seed key = hash_key_with_seed key pkg_seed

-- `Reserved[0:8]` is at byte 48 of the header.
abbrev pub seed_off : ℕ
seed_off = 48

unfoldable pub header_hash_seed : ℕ → Memory → ℕ
header_hash_seed pkg_seed m =
    let seed = load_le 8 m seed_off in if seed == 0 then pkg_seed else seed

-- The loop of `randSeed` over the answers of `rand.Read`: `none` is its error, on which the code
-- panics; `some b` is eight fresh bytes, little-endian. The result `none` means that all the
-- answers listed were zero and the loop still waits for another.
unfoldable pub rand_seed : List (Option ℕ) → Run (Option ℕ)
rand_seed [] = ok none
rand_seed (none ∷ draws) = panic
rand_seed (some seed ∷ draws) =
    let again = rand_seed draws in if seed == 0 then again else ok (some seed)

-- `seed` is what `randSeed` returned; it is the result as well.
unfoldable pub set_header_hash_seed : Memory → ℕ → Memory × ℕ
set_header_hash_seed m seed = (store_le 8 m seed_off seed, seed)
