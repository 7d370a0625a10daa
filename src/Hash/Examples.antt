-- ===== src/Hash/Examples.antt =====
-- The hash and the seed at concrete inputs.
use featcache.Common.{◌≡◌, ◌≢◌, refl, [], ◌∷◌, none, some, ok, panic, arith}
use featcache.Hash.Laws.{hash_key_with_seed-ne, header_hash_seed-set}
use featcache.Hash.{
  hash_byte, hash_bytes, hash_key_with_seed, header_hash_seed, rand_seed, set_header_hash_seed,
}
use featcache.Memory.{Memory}

-- FNV-1a of "a", with the seed 0.
hash_a : hash_key_with_seed (b'a' ∷ []) 0 ≡ 0xaf63dc4c8601ec8c
unfolding hash_key_with_seed hash_bytes hash_byte
hash_a = refl

rand_seed_skips_zero : rand_seed (some 0 ∷ some 9 ∷ none ∷ []) ≡ ok (some 9)
unfolding rand_seed
rand_seed_skips_zero = refl

rand_seed_error : rand_seed (some 0 ∷ none ∷ []) ≡ panic
unfolding rand_seed
rand_seed_error = refl

abbrev zeros : Memory
zeros = record { size = 64; byte = λ j. 0 }

seeds_matter : hash_key_with_seed (1 ∷ 2 ∷ 3 ∷ []) 7 ≢ hash_key_with_seed (1 ∷ 5 ∷ 3 ∷ []) 7
seeds_matter =
    hash_key_with_seed-ne (1 ∷ []) (3 ∷ []) 2 5 7 (omega arith) (omega arith) (omega arith)
      (omega arith) (omega arith)

header_hash_seed-set_example : header_hash_seed 3 (set_header_hash_seed zeros 7).0 ≡ 7
header_hash_seed-set_example = header_hash_seed-set 3 7 zeros (omega arith) (omega arith)
