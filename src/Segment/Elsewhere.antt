-- ===== src/Segment/Elsewhere.antt =====
-- pkg/shm/segment_other.go: without shared memory there is only the registry of test segments. It
-- holds pointers, so a segment is read at the time of the call, from a heap of the segments by
-- number.
mod Examples
use featcache.Common.{
  ℕ, ◌≡◌, ◌≢◌, ◌∙◌, refl, ap, sym, inl, inr, ◌⊎◌, Bool, true, false, List, [], ◌∷◌, Option, none,
  some, if◌then◌else◌, ◌==◌, ==_iff, Bool-cases,
}
use featcache.Segment.{Segment}
use featcache.Segment.Linux.Close.{flag}
use featcache.Table.Refine.{equal_bytes_iff}
use featcache.Table.View.{equal_bytes}

-- A Go map from names to segments.
abbrev pub Registry : Type 0
Registry = List (List ℕ × ℕ)

unfoldable pub lookup : Registry → List ℕ → Option ℕ
lookup [] name = none
lookup ((n, id) ∷ reg) name =
    let rest = lookup reg name in if equal_bytes name n then some id else rest

unfoldable pub unregister_test_segment : Registry → List ℕ → Registry
unregister_test_segment [] name = []
unregister_test_segment ((n, id) ∷ reg) name =
    let rest = unregister_test_segment reg name in
    if equal_bytes n name then rest else (n, id) ∷ rest

unfoldable pub register_test_segment : Registry → List ℕ → ℕ → Registry
register_test_segment reg [] id = reg
register_test_segment reg (b ∷ bs) id = (b ∷ bs, id) ∷ unregister_test_segment reg (b ∷ bs)

-- A new handle on the same bytes; `none` is ErrNotSupported.
unfoldable pub open_segment : (ℕ → Segment) → Registry → List ℕ → Option Segment
open_segment heap reg name = elim (lookup reg name) [
  | none ↦ none
  | some id ↦ some (record (heap id) { backed_by_file = false })
]

unfoldable pub create_segment : List ℕ → ℕ → Option Segment
create_segment name size = none

-- The segment of this number becomes another.
abbrev pub update : (ℕ → Segment) → ℕ → Segment → ℕ → Segment
update heap id s k = if k == id then s else heap k

-- `close` and `destroy` act on the segment that the receiver points to.
unfoldable pub close : (ℕ → Segment) → ℕ → ℕ → Segment
close heap id = elim (heap id).attached [
  | false ↦ heap
  | true ↦ update heap id (record (heap id) { attached = false })
]

unfoldable pub destroy : (ℕ → Segment) → Registry → ℕ → (ℕ → Segment) × Registry
destroy heap reg id = (close heap id, unregister_test_segment reg (heap id).name)

registered : (o : Option ℕ) → (o ≡ none) ⊎ ((id : ℕ) × (o ≡ some id))
registered none = inl refl
registered (some id) = inr (id, refl)

other_bytes : (q n : List ℕ) → q ≢ n → equal_bytes q n ≡ false
other_bytes q n ne = elim (flag (equal_bytes q n)) [
  | inl e ↦ absurd (ne ((equal_bytes_iff q n).0 e))
  | inr e ↦ e
]

lookup-unregister_self :
    (reg : Registry) (name : List ℕ) → lookup (unregister_test_segment reg name) name ≡ none
unfolding lookup unregister_test_segment
lookup-unregister_self [] name = refl
lookup-unregister_self ((n, id) ∷ reg) name = elim (flag (equal_bytes n name)) [
  | inl e ↦ rw e (lookup-unregister_self reg name)
  | inr e ↦
      let differs : equal_bytes name n ≡ false =
        other_bytes name n (λ p. cc ((equal_bytes_iff n name).1 (sym p), e)) in
      rw (e, differs) (lookup-unregister_self reg name)
]

lookup-unregister_other :
    (reg : Registry) (name q : List ℕ)
    → q ≢ name
    → lookup (unregister_test_segment reg name) q ≡ lookup reg q
unfolding lookup unregister_test_segment
lookup-unregister_other [] name q ne = refl
lookup-unregister_other ((n, id) ∷ reg) name q ne = elim (flag (equal_bytes n name)) [
  | inl e ↦
      let differs : equal_bytes q n ≡ false =
        other_bytes q n (λ p. ne (p ∙ (equal_bytes_iff n name).0 e)) in
      rw (e, differs) (lookup-unregister_other reg name q ne)
  | inr e ↦ rw (e, lookup-unregister_other reg name q ne) refl
]

other_or_same : (q name : List ℕ) → (q ≡ name) ⊎ (q ≢ name)
other_or_same q name = elim (flag (equal_bytes q name)) [
  | inl e ↦ inl ((equal_bytes_iff q name).0 e)
  | inr e ↦ inr (λ p. cc ((equal_bytes_iff q name).1 p, e))
]

lookup-register :
    (reg : Registry) (b : ℕ) (bs q : List ℕ) (id : ℕ)
    → (lookup (register_test_segment reg (b ∷ bs) id) (b ∷ bs) ≡ some id)
      × ((q ≡ b ∷ bs) ⊎ (lookup (register_test_segment reg (b ∷ bs) id) q ≡ lookup reg q))
unfolding lookup register_test_segment
lookup-register reg b bs q id = (
  rw ((equal_bytes_iff (b ∷ bs) (b ∷ bs)).1 refl) refl,
  elim (other_or_same q (b ∷ bs)) [
    | inl e ↦ inl e
    | inr ne ↦ inr (rw (other_bytes q (b ∷ bs) ne) (lookup-unregister_other reg (b ∷ bs) q ne))
  ],
)

module _ (heap : ℕ → Segment) (reg : Registry) where
  open_segment-lookup :
      (before after : Registry) (q : List ℕ)
      → lookup after q ≡ lookup before q
      → open_segment heap after q ≡ open_segment heap before q
  unfolding open_segment
  open_segment-lookup before after q e = rw (e, open_segment) refl

  -- A segment that was registered under a name, which is not empty, is opened by it: the new handle
  -- has the segment's bytes of the time of the call, and does not own a file. Every other name opens
  -- as before.
  pub open_segment-register :
      (name q : List ℕ) (id : ℕ)
      → name ≢ []
      → (open_segment heap (register_test_segment reg name id) name
          ≡ some (record (heap id) { backed_by_file = false }))
        × ((q ≡ name)
            ⊎ (open_segment heap (register_test_segment reg name id) q ≡ open_segment heap reg q))
  unfolding open_segment
  open_segment-register [] q id ne = absurd (ne refl)
  open_segment-register (b ∷ bs) q id ne =
      let (mine, others) = lookup-register reg b bs q id in
      (
        rw (mine, open_segment) refl,
        elim others [
          | inl e ↦ inl e
          | inr e ↦ inr (open_segment-lookup reg (register_test_segment reg (b ∷ bs) id) q e)
        ],
      )

  close-same : (id : ℕ) → close heap id id ≡ record (heap id) { attached = false }
  unfolding close
  close-same id = elim (flag (heap id).attached) [
    | inl a ↦ rw (a, close, (==_iff id id).1 refl) refl
    | inr a ↦ rw (a, close) (λ i. record (heap id) { attached = a i })
  ]

  close-other : (id k : ℕ) → (k == id) ≡ false → close heap id k ≡ heap k
  unfolding close
  close-other id k ne = elim (flag (heap id).attached) [
    | inl a ↦ rw (a, close, ne) refl
    | inr a ↦ rw (a, close) refl
  ]

  open_segment-close :
      (after : Registry) (id : ℕ) (q : List ℕ)
      → lookup after q ≡ lookup reg q
      → ((lookup reg q ≡ some id)
          × (open_segment (close heap id) after q
              ≡ some (record (heap id) { attached = false; backed_by_file = false })))
        ⊎ ((lookup reg q ≢ some id)
            × (open_segment (close heap id) after q ≡ open_segment heap reg q))
  unfolding open_segment
  open_segment-close after id q e = elim (registered (lookup reg q)) [
    | inl free ↦ inr ((λ p. absurd (cc (p, free))), rw (e, free, open_segment) refl)
    | inr (k, at) ↦ elim (Bool-cases (k == id)) [
      | inl same ↦
          let here : k ≡ id = (==_iff k id).0 same in
          inl (
            at ∙ ap some here,
            rw (e, at, here, open_segment)
                (ap (λ (s : Segment). some (record s { backed_by_file = false })) (close-same id)),
          )
      | inr other ↦ inr (
        (λ p. absurd (let here : k ≡ id = cc (at, p) in cc (other, (==_iff k id).1 here))),
        rw (e, at, open_segment)
            (ap (λ (s : Segment). some (record s { backed_by_file = false }))
              (close-other id k other)),
      )
    ]
  ]

  -- After `Destroy` on a segment its name opens nothing. Any other name that is registered to this
  -- same segment opens a handle without bytes, since the registry points to the segment that was
  -- closed; every name that is registered to another segment, or to none, opens as before.
  pub open_segment-destroy :
      (id : ℕ) (q : List ℕ)
      → let (heap', reg') = destroy heap reg id in
        (open_segment heap' reg' (heap id).name ≡ none)
        × ((q ≡ (heap id).name)
            ⊎ ((lookup reg q ≡ some id)
                × (open_segment heap' reg' q
                    ≡ some (record (heap id) { attached = false; backed_by_file = false })))
            ⊎ ((lookup reg q ≢ some id) × (open_segment heap' reg' q ≡ open_segment heap reg q)))
  unfolding open_segment destroy
  open_segment-destroy id q = (
    rw (lookup-unregister_self reg (heap id).name, open_segment) refl,
    elim (other_or_same q (heap id).name) [
      | inl e ↦ inl e
      | inr ne ↦ inr (
          open_segment-close (unregister_test_segment reg (heap id).name) id q
            (lookup-unregister_other reg (heap id).name q ne))
    ],
  )
