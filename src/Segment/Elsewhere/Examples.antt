-- ===== src/Segment/Elsewhere/Examples.antt =====
-- A registry of one segment.
use featcache.Common.{ℕ, ◌≡◌, ◌≢◌, ◌⊎◌, List, [], ◌∷◌, none, some, false, arith}
use featcache.Segment.Elsewhere.{
  Registry, register_test_segment, lookup, open_segment, destroy, open_segment-register,
  open_segment-destroy,
}
use featcache.Segment.{Segment, new_in_memory_segment}

abbrev held : ℕ → Segment
held id = new_in_memory_segment (id ∷ []) 64

abbrev name_a : List ℕ
name_a = b'a' ∷ []

abbrev name_b : List ℕ
name_b = b'b' ∷ []

abbrev one_name : Registry
one_name = (b'a' ∷ [], 1) ∷ []

registered_opens :
    (open_segment held (register_test_segment one_name name_b 2) name_b
      ≡ some (record (held 2) { backed_by_file = false }))
    × ((name_a ≡ name_b)
        ⊎ (open_segment held (register_test_segment one_name name_b 2) name_a
            ≡ open_segment held one_name name_a))
registered_opens = open_segment-register held one_name name_b name_a 2 (ground arith)

-- Two names of the segment 97.
abbrev two_names : Registry
two_names = (name_a, b'a') ∷ (name_b, b'a') ∷ []

open_segment-destroy_example :
    let (heap', reg') = destroy held two_names b'a' in
    (open_segment heap' reg' (held b'a').name ≡ none)
    × ((name_b ≡ (held b'a').name)
        ⊎ ((lookup two_names name_b ≡ some b'a')
            × (open_segment heap' reg' name_b
                ≡ some (record (held b'a') { attached = false; backed_by_file = false })))
        ⊎ ((lookup two_names name_b ≢ some b'a')
            × (open_segment heap' reg' name_b ≡ open_segment held two_names name_b)))
open_segment-destroy_example = open_segment-destroy held two_names b'a' name_b
