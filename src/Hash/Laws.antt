-- ===== src/Hash/Laws.antt =====
-- What the loader and the readers rely on.
use featcache.Common.{
  ℕ, ◌*◌, ◌%◌, ◌^◌, ◌<◌, ◌≡◌, ◌≢◌, refl, ◌∙◌, sym, List, [], ◌∷◌, ◌++◌, Option, none, some, arith,
  bit_xor, All, ok,
}
use featcache.Common.Bits.{bit_xor-lt, bit_xor-cancel, bit_xor-cancel_left}
use featcache.Memory.{Memory}
use featcache.Memory.Words.{load-store_le}
use featcache.Hash.{
  hash_byte, hash_bytes, hash_key_with_seed, header_hash_seed, rand_seed, set_header_hash_seed,
  fnv_offset64,
}

hash_bytes-lt : (h : ℕ) (key : List ℕ) → h < 2 ^ 64 → hash_bytes h key < 2 ^ 64
unfolding hash_bytes hash_byte
hash_bytes-lt h [] lt = lt
hash_bytes-lt h (b ∷ key) lt = hash_bytes-lt (hash_byte h b) key (omega arith)

-- A hash is a uint64, the hash of the empty key included.
pub hash_key_with_seed-lt :
    (key : List ℕ) (seed : ℕ) → seed < 2 ^ 64 → hash_key_with_seed key seed < 2 ^ 64
unfolding hash_key_with_seed
hash_key_with_seed-lt key seed lt =
    hash_bytes-lt _ key (bit_xor-lt 64 fnv_offset64 seed (omega arith) lt)

-- Multiplication by the prime has an inverse modulo 2^64.
times_prime-cancel :
    (x y : ℕ)
    → x < 2 ^ 64
    → y < 2 ^ 64
    → x * 1099511628211 % 2 ^ 64 ≡ y * 1099511628211 % 2 ^ 64
    → x ≡ y
times_prime-cancel x y hx hy e = omega arith

below_word : (h b : ℕ) → h < 2 ^ 64 → b < 256 → bit_xor h b < 2 ^ 64
below_word h b hl bl = bit_xor-lt 64 h b hl (omega arith)

hash_byte-injective :
    (h h' b : ℕ) → h < 2 ^ 64 → h' < 2 ^ 64 → b < 256 → hash_byte h b ≡ hash_byte h' b → h ≡ h'
unfolding hash_byte
hash_byte-injective h h' b hl hl' bl e = bit_xor-cancel 64 h h' b hl hl' (
    times_prime-cancel (bit_xor h b) (bit_xor h' b) (below_word h b hl bl) (below_word h' b hl' bl)
      e)

hash_byte-byte :
    (h a b : ℕ) → h < 2 ^ 64 → a < 256 → b < 256 → hash_byte h a ≡ hash_byte h b → a ≡ b
unfolding hash_byte
hash_byte-byte h a b hl al bl e =
    bit_xor-cancel_left 64 h a b (omega arith) (omega arith) (
      times_prime-cancel (bit_xor h a) (bit_xor h b) (below_word h a hl al) (below_word h b hl bl)
        e)

hash_byte-lt : (h b : ℕ) → hash_byte h b < 2 ^ 64
unfolding hash_byte
hash_byte-lt h b = omega arith

hash_bytes-injective :
    (h h' : ℕ) (key : List ℕ)
    → h < 2 ^ 64
    → h' < 2 ^ 64
    → All (λ b. b < 256) key
    → hash_bytes h key ≡ hash_bytes h' key
    → h ≡ h'
unfolding hash_bytes
hash_bytes-injective h h' [] hl hl' bytes e = e
hash_bytes-injective h h' (b ∷ key) hl hl' bytes e = hash_byte-injective h h' b hl hl' bytes.0 (
    hash_bytes-injective (hash_byte h b) (hash_byte h' b) key (hash_byte-lt h b) (hash_byte-lt h' b)
      bytes.1 e)

pub hash_bytes-append :
    (h : ℕ) (a b : List ℕ) → hash_bytes h (a ++ b) ≡ hash_bytes (hash_bytes h a) b
unfolding hash_bytes
hash_bytes-append h [] b = refl
hash_bytes-append h (x ∷ a) b = hash_bytes-append (hash_byte h x) a b

-- Under one seed, keys that differ in a single byte have different hashes.
pub hash_key_with_seed-ne :
    (front back : List ℕ) (a b seed : ℕ)
    → seed < 2 ^ 64
    → a < 256
    → b < 256
    → All (λ x. x < 256) back
    → a ≢ b
    → hash_key_with_seed (front ++ (a ∷ back)) seed ≢ hash_key_with_seed (front ++ (b ∷ back)) seed
hash_key_with_seed-ne front back a b seed sl al bl bytes ne e =
    let h = hash_key_with_seed front seed in
    let same : hash_bytes h (a ∷ back) ≡ hash_bytes h (b ∷ back) =
      unfold hash_key_with_seed in
      (sym (hash_bytes-append _ front (a ∷ back)) ∙ e ∙ hash_bytes-append _ front (b ∷ back)) in
    ne (
      hash_byte-byte h a b (hash_key_with_seed-lt front seed sl) al bl (
        hash_bytes-injective (hash_byte h a) (hash_byte h b) back (hash_byte-lt h a)
          (hash_byte-lt h b) bytes (unfold hash_bytes in same)))

-- A seed that is not 0 and has 64 bits, once it is persisted, is the one that every process
-- recovers, whatever its own seed is.
pub header_hash_seed-set :
    (pkg_seed seed : ℕ) (m : Memory)
    → seed ≢ 0
    → seed < 2 ^ 64
    → header_hash_seed pkg_seed (set_header_hash_seed m seed).0 ≡ seed
unfolding header_hash_seed set_header_hash_seed
header_hash_seed-set pkg_seed seed m pos lt = ground (arith, load-store_le 8 m 48 seed)

-- A seed that `randSeed` returns is not the reserved 0, and is one of the draws.
pub rand_seed-nonzero :
    (draws : List (Option ℕ)) (seed : ℕ) → rand_seed draws ≡ ok (some seed) → seed ≢ 0
unfolding rand_seed
rand_seed-nonzero [] seed e = cc
rand_seed-nonzero (none ∷ draws) seed e = cc
rand_seed-nonzero (some x ∷ draws) seed e = ground (arith, rand_seed-nonzero draws seed)
