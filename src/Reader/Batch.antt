-- ===== src/Reader/Batch.antt =====
-- What `GetBatch` answers.
use featcache.Common.{ℕ, ◌≡◌, refl, List, [], ◌∷◌, Option, ok, map}
use featcache.Reader.{Reader, get, get_batch}

-- Where every single lookup answers, the batch answers the same, in the order of the keys.
pub get_batch-map :
    (r : Reader) (answer : List ℕ → Option (List ℕ)) (keys : List (List ℕ))
    → ((key : List ℕ) → get r key ≡ ok (answer key))
    → get_batch r keys ≡ ok (map answer keys)
unfolding get_batch
get_batch-map r answer [] h = refl
get_batch-map r answer (key ∷ keys) h = rw (h key, get_batch-map r answer keys h) refl
