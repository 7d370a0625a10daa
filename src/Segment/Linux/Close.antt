-- ===== src/Segment/Linux/Close.antt =====
-- `Close` and `Destroy`: what they do to the handle and to the files.
use featcache.Common.{
  ℕ, ◌≡◌, ◌≢◌, ◌∙◌, refl, ap, ◌⊎◌, inl, inr, Bool, true, false, List, [], Option, none, some,
}
use featcache.Protocol.{IoError}
use featcache.Segment.{Segment, data_of}
use featcache.Segment.Linux.{Os, dev_shm_path, join, unmap_segment, close, removal, destroy}
use featcache.Segment.Linux.Files.{errors}
use featcache.Segment.Linux.Posix.{Sets, IsPosix}

pub flag : (b : Bool) → (b ≡ true) ⊎ (b ≡ false)
flag true = inl refl
flag false = inr refl

-- `after` is the handle `s` but for what says that it is mapped.
record IsSameHandle (s after : Segment) : Type 0 where
  name_same : after.name ≡ s.name
  owner_same : after.backed_by_file ≡ s.backed_by_file

no_errors : (e f : Option IoError) → (join e f ≢ []) ⊎ ((e ≡ none) × (f ≡ none))
no_errors none none = inr (refl, refl)
no_errors none (some f) = inl (λ p. absurd (cc))
no_errors (some e) none = inl (λ p. absurd (cc))
no_errors (some e) (some f) = inl (λ p. absurd (cc))

module _ {W : Type 0} (os : Os W) where
  unmap_segment-handle : (w : W) (s : Segment) → IsSameHandle s (unmap_segment os w s).1
  unfolding unmap_segment
  unmap_segment-handle w s = elim (errors (os.unmap w s.bytes).1) [
    | inl q ↦ rw (q, unmap_segment) (record { name_same = refl; owner_same = refl })
    | inr (e, q) ↦ rw (q, unmap_segment) (record { name_same = refl; owner_same = refl })
  ]

  -- The three cases of `close`.
  close-cases :
      (w : W) (s : Segment)
      → ((s.attached ≡ false) × (close os w s ≡ (w, s, none)))
        ⊎ ((s.mapped ≡ false) × (close os w s ≡ (w, record s { attached = false }, none)))
        ⊎ (close os w s ≡ unmap_segment os w s)
  unfolding close
  close-cases w s = elim (flag s.attached) [
    | inr a ↦ inl (a, simp (a, close) refl)
    | inl a ↦ elim (flag s.mapped) [
      | inr b ↦ inr (inl (b, simp (a, b, close) refl))
      | inl b ↦ inr (inr (simp (a, b, close) refl))
    ]
  ]

  close-handle : (w : W) (s : Segment) → IsSameHandle s (close os w s).1
  close-handle w s = elim (close-cases w s) [
    | inl (_, e) ↦ rw e (record { name_same = refl; owner_same = refl })
    | inr (inl (_, e)) ↦ rw e (record { name_same = refl; owner_same = refl })
    | inr (inr e) ↦ rw e (unmap_segment-handle w s)
  ]

  unmap_segment-detached :
      (w : W) (s : Segment)
      → (unmap_segment os w s).2 ≡ none
      → (unmap_segment os w s).1.attached ≡ false
  unfolding unmap_segment
  unmap_segment-detached w s = elim (errors (os.unmap w s.bytes).1) [
    | inl q ↦ rw (q, unmap_segment) (λ e. refl)
    | inr (e, q) ↦ rw (q, unmap_segment) (λ f. absurd (cc))
  ]

  pub close-detached :
      (w : W) (s : Segment) → (close os w s).2 ≡ none → (close os w s).1.attached ≡ false
  close-detached w s = elim (close-cases w s) [
    | inl (a, e) ↦ rw e (λ f. a)
    | inr (inl (_, e)) ↦ rw e (λ f. refl)
    | inr (inr e) ↦ rw e (unmap_segment-detached w s)
  ]

  pub close_detached-same : (w : W) (s : Segment) → s.attached ≡ false → close os w s ≡ (w, s, none)
  unfolding close
  close_detached-same w s a = simp (a, close) refl

  -- A `Close` that reports no error leaves a handle without bytes, on which a second one does
  -- nothing, whatever happened in between.
  pub close_twice :
      (w : W) (s : Segment)
      → (close os w s).2 ≡ none
      → ((close os w s).1.attached ≡ false)
        × ((later : W) → close os later (close os w s).1 ≡ (later, (close os w s).1, none))
  close_twice w s fine =
      let detached = close-detached w s fine in
      (detached, (λ later. close_detached-same later (close os w s).1 detached))

  -- A close takes the bytes away or leaves them.
  pub close-data_of :
      (w : W) (s : Segment)
      → ((close os w s).1.attached ≡ false) ⊎ (data_of (close os w s).1 ≡ data_of s)
  unfolding unmap_segment data_of
  close-data_of w s = elim (close-cases w s) [
    | inl (_, e) ↦ inr (ap (λ r. data_of r.1) e)
    | inr (inl (_, e)) ↦ inl (ap (λ r. r.1.attached) e)
    | inr (inr e) ↦ elim (errors (os.unmap w s.bytes).1) [
      | inl fine ↦ inl (ap (λ r. r.1.attached) e ∙ rw (fine, unmap_segment) refl)
      | inr (f, failed) ↦ inr (ap (λ r. data_of r.1) e ∙ rw (failed, unmap_segment) refl)
    ]
  ]

  destroy-run :
      (w : W) (s : Segment)
      → ((s.backed_by_file ≡ false)
          → destroy os w s ≡ ((close os w s).0, (close os w s).1, join (close os w s).2 none))
        × ((s.backed_by_file ≡ true)
            → let unlinked = removal os (close os w s).0 s.name in
              destroy os w s ≡ (unlinked.0, (close os w s).1, join (close os w s).2 unlinked.1))
  unfolding destroy
  destroy-run w s =
      let same = close-handle w s in
      (
        (λ b. rw (same.owner_same ∙ b, destroy) refl),
        (λ b. rw (same.owner_same ∙ b, same.name_same, destroy) refl),
      )

  pub destroy-close : (w : W) (s : Segment) → (destroy os w s).1 ≡ (close os w s).1
  destroy-close w s = elim (flag s.backed_by_file) [
    | inl b ↦ ap (λ r. r.1) ((destroy-run w s).1 b)
    | inr b ↦ ap (λ r. r.1) ((destroy-run w s).0 b)
  ]

  module _ (exists : W → List ℕ → Bool) (posix : IsPosix os exists) where
    unmap_segment-same : (w : W) (s : Segment) → exists (unmap_segment os w s).0 ≡ exists w
    unfolding unmap_segment
    unmap_segment-same w s = elim (errors (os.unmap w s.bytes).1) [
      | inl q ↦ rw (q, unmap_segment) (posix.unmap_keeps w s.bytes)
      | inr (e, q) ↦ rw (q, unmap_segment) (posix.unmap_keeps w s.bytes)
    ]

    pub close-same : (w : W) (s : Segment) → exists (close os w s).0 ≡ exists w
    close-same w s = elim (close-cases w s) [
      | inl (_, e) ↦ rw e refl
      | inr (inl (_, e)) ↦ rw e refl
      | inr (inr e) ↦ rw e (unmap_segment-same w s)
    ]

    removal-Sets :
        (w : W) (name : List ℕ)
        → (removal os w name).1 ≡ none
        → Sets (exists w) (exists (removal os w name).0) (dev_shm_path name) false
    unfolding removal
    removal-Sets w name = elim (errors (os.remove w (dev_shm_path name)).1) [
      | inl q ↦ rw (q, removal) (λ e. posix.removed w (dev_shm_path name) q)
      | inr (e, q) ↦ elim (flag (os.is_not_exist e)) [
        | inl m ↦
            rw (q, m, removal)
              (λ f. (
                ap (λ g. g (dev_shm_path name)) (posix.not_removed w (dev_shm_path name) e q)
                    ∙ posix.missing w (dev_shm_path name) e q m,
                (λ p ne. ap (λ g. g p) (posix.not_removed w (dev_shm_path name) e q)),
              ))
        | inr m ↦ rw (q, m, removal) (λ f. absurd (cc))
      ]
    ]

    destroy_owned :
        (w : W) (s : Segment)
        → s.backed_by_file ≡ true
        → ((destroy os w s).2 ≢ [])
          ⊎ (((destroy os w s).1.attached ≡ false)
              × Sets (exists w) (exists (destroy os w s).0) (dev_shm_path s.name) false)
    destroy_owned w s owned =
        let run = (destroy-run w s).1 owned in
        rw run (elim (no_errors (close os w s).2 (removal os (close os w s).0 s.name).1) [
          | inl fails ↦ inl fails
          | inr (closed, unlinked) ↦
              let (gone, others) = removal-Sets (close os w s).0 s.name unlinked in
              inr (
                close-detached w s closed,
                (gone, (λ q ne. others q ne ∙ ap (λ f. f q) (close-same w s))),
              )
        ])

    -- `Destroy` on a handle that owns its file either reports an error, or it leaves the handle
    -- without bytes and the file gone, also where it was gone before, and touches no other file. On a
    -- handle that does not own its file, it touches no file.
    pub destroy-Sets :
        (w : W) (s : Segment)
        → ((s.backed_by_file ≡ true)
            × (((destroy os w s).2 ≢ [])
                ⊎ (((destroy os w s).1.attached ≡ false)
                    × Sets (exists w) (exists (destroy os w s).0) (dev_shm_path s.name) false)))
          ⊎ ((s.backed_by_file ≡ false) × (exists (destroy os w s).0 ≡ exists w))
    destroy-Sets w s = elim (flag s.backed_by_file) [
      | inl owned ↦ inl (owned, destroy_owned w s owned)
      | inr borrowed ↦ inr (borrowed, rw ((destroy-run w s).0 borrowed) (close-same w s))
    ]
