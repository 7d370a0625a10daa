-- ===== src/Segment/Linux/Files.antt =====
-- Which names a segment's life makes and removes.
use featcache.Common.{
  ℕ, ◌≡◌, subst, ◌∙◌, refl, sym, ap, ◌⊎◌, inl, inr, Bool, true, false, List, Option, none, some,
}
use featcache.Memory.{Memory}
use featcache.Protocol.{IoError, Result, ok, err}
use featcache.Segment.{Segment}
use featcache.Segment.Linux.{
  Os, dev_shm_path, mapping, map_created, create_segment, map_opened, open_segment, create_or_open,
}
use featcache.Segment.Linux.Posix.{Sets, IsPosix}

pub answers : {A : Type 0} (r : Result A) → ((e : IoError) × (r ≡ err e)) ⊎ ((a : A) × (r ≡ ok a))
answers (err e) = inl (e, refl)
answers (ok a) = inr (a, refl)

pub errors : (r : Option IoError) → (r ≡ none) ⊎ ((e : IoError) × (r ≡ some e))
errors none = inl refl
errors (some e) = inr (e, refl)

pub Sets-then :
    {before between after : List ℕ → Bool} {p : List ℕ} {b : Bool}
    → after ≡ between
    → Sets before between p b
    → Sets before after p b
Sets-then {before} {p = p} {b = b} e = subst (λ f. Sets before f p b) (sym e)

-- The path is as before, and so is every other.
abbrev pub SameAt : (List ℕ → Bool) → (List ℕ → Bool) → List ℕ → Type 0
SameAt before after p = Sets before after p (before p)

SameAt-same : {before after : List ℕ → Bool} (p : List ℕ) → after ≡ before → SameAt before after p
SameAt-same p e = (ap (λ f. f p) e, (λ q ne. ap (λ f. f q) e))

module _ {W : Type 0} (os : Os W) (exists : W → List ℕ → Bool) (posix : IsPosix os exists) where
  -- `os.Remove` succeeds wherever there is such a file.
  abbrev pub IsRemovable : List ℕ → Type 0
  IsRemovable p = (w : W) → exists w p ≡ true → (os.remove w p).1 ≡ none

  -- A file that was made is removed again.
  cleaned :
      (w w₁ : W) (p : List ℕ) (fd : ℕ)
      → IsRemovable p
      → exists w p ≡ false
      → Sets (exists w) (exists w₁) p true
      → SameAt (exists w) (exists (os.close_file (os.remove w₁ p).0 fd)) p
  cleaned w w₁ p fd removes absent (made, others) =
      let (gone, kept) = posix.removed w₁ p (removes w₁ made) in
      Sets-then (posix.close_keeps (os.remove w₁ p).0 fd)
        (gone ∙ sym absent, (λ q ne. kept q ne ∙ others q ne))

  -- What a creation comes to: an error, with every file as before, or the handle of a new file.
  abbrev pub IsCreated : W → List ℕ → ℕ → W × Result Segment → Type 0
  IsCreated w name size r =
      ((e : IoError) × (r.1 ≡ err e) × SameAt (exists w) (exists r.0) (dev_shm_path name))
      ⊎ ((bytes : Memory) × (r.1 ≡ ok (mapping name bytes size))
          × (exists w (dev_shm_path name) ≡ false)
          × Sets (exists w) (exists r.0) (dev_shm_path name) true)

  map_created-IsCreated :
      (w w₁ : W) (name : List ℕ) (size fd : ℕ)
      → IsRemovable (dev_shm_path name)
      → exists w (dev_shm_path name) ≡ false
      → Sets (exists w) (exists w₁) (dev_shm_path name) true
      → IsCreated w name size (map_created os name fd size w₁)
  unfolding map_created
  map_created-IsCreated w w₁ name size fd removes absent made =
      let path = dev_shm_path name in
      let w₂ = (os.map_file w₁ fd size).0 in
      let mapped = Sets-then (posix.map_keeps w₁ fd size) made in
      elim (answers (os.map_file w₁ fd size).1) [
        | inl (e, q) ↦
            rw (q, map_created) (inl (e, refl, cleaned w w₂ path fd removes absent mapped))
        | inr (bytes, q) ↦
            rw (q, map_created)
              (inr (bytes, refl, absent, Sets-then (posix.close_keeps w₂ fd) mapped))
      ]

  -- Where the files of /dev/shm can be removed, `CreateSegment` either fails with every file as it
  -- was, or it succeeds where there was no file of this name: there is one now, and the handle has
  -- the size that was asked for and owns the file.
  pub create_segment-IsCreated :
      (w : W) (name : List ℕ) (size : ℕ)
      → IsRemovable (dev_shm_path name)
      → IsCreated w name size (create_segment os w name size)
  unfolding create_segment
  create_segment-IsCreated w name size removes =
      let path = dev_shm_path name in
      let w₁ = (os.create_file w path).0 in
      elim (answers (os.create_file w path).1) [
        | inl (e, q) ↦
            rw (q, create_segment)
              (inl (e, refl, SameAt-same path (posix.create_failed w path e q)))
        | inr (fd, q) ↦
            let (absent, made) = posix.create_made w path fd q in
            let cut = Sets-then (posix.truncate_keeps w₁ fd size) made in
            let w₂ = (os.truncate w₁ fd size).0 in
            elim (errors (os.truncate w₁ fd size).1) [
              | inl t ↦
                  rw (q, t, create_segment)
                    (map_created-IsCreated w w₂ name size fd removes absent cut)
              | inr (e, t) ↦
                  rw (q, t, create_segment) (inl (e, refl, cleaned w w₂ path fd removes absent cut))
            ]
      ]

  map_opened-same :
      (w : W) (name : List ℕ) (fd size : ℕ) → exists (map_opened os name fd size w).0 ≡ exists w
  unfolding map_opened
  map_opened-same w name fd size =
      let same = posix.close_keeps (os.map_file w fd size).0 fd ∙ posix.map_keeps w fd size in
      elim (answers (os.map_file w fd size).1) [
        | inl (e, q) ↦ rw (q, map_opened) same
        | inr (bytes, q) ↦ rw (q, map_opened) same
      ]

  open_segment-same : (w : W) (name : List ℕ) → exists (open_segment os w name).0 ≡ exists w
  unfolding open_segment
  open_segment-same w name =
      let path = dev_shm_path name in
      let w₁ = (os.open_file w path).0 in
      elim (answers (os.open_file w path).1) [
        | inl (e, q) ↦ rw (q, open_segment) (posix.open_keeps w path)
        | inr (fd, q) ↦
            let w₂ = (os.stat_size w₁ fd).0 in
            let same = posix.stat_keeps w₁ fd ∙ posix.open_keeps w path in
            elim (answers (os.stat_size w₁ fd).1) [
              | inl (e, t) ↦ rw (q, t, open_segment) (posix.close_keeps w₂ fd ∙ same)
              | inr (size, t) ↦ rw (q, t, open_segment) (map_opened-same w₂ name fd size ∙ same)
            ]
      ]

  create_segment-refused :
      (w : W) (name : List ℕ) (size : ℕ) (e : IoError)
      → (os.create_file w (dev_shm_path name)).1 ≡ err e
      → create_segment os w name size ≡ ((os.create_file w (dev_shm_path name)).0, err e)
  unfolding create_segment
  create_segment-refused w name size e q = rw (q, create_segment) refl

  -- What an opening comes to: an error, or a handle of the size of the file that it opened.
  abbrev pub IsOpened : W → List ℕ → W × Result Segment → Type 0
  IsOpened w name r =
      let (w₁, file) = os.open_file w (dev_shm_path name) in
      ((e : IoError) × (r.1 ≡ err e))
      ⊎ ((fd : ℕ) × (size : ℕ) × (bytes : Memory) × (file ≡ ok fd)
          × ((os.stat_size w₁ fd).1 ≡ ok size)
          × (r.1 ≡ ok (mapping name bytes size)))

  map_opened-handle :
      (w : W) (name : List ℕ) (fd size : ℕ)
      → ((e : IoError) × ((map_opened os name fd size w).1 ≡ err e))
        ⊎ ((bytes : Memory) × ((map_opened os name fd size w).1 ≡ ok (mapping name bytes size)))
  unfolding map_opened
  map_opened-handle w name fd size = elim (answers (os.map_file w fd size).1) [
    | inl (e, q) ↦ inl (e, rw (q, map_opened) refl)
    | inr (bytes, q) ↦ inr (bytes, rw (q, map_opened) refl)
  ]

  open_segment-IsOpened : (w : W) (name : List ℕ) → IsOpened w name (open_segment os w name)
  unfolding open_segment
  open_segment-IsOpened w name =
      let w₁ = (os.open_file w (dev_shm_path name)).0 in
      elim (answers (os.open_file w (dev_shm_path name)).1) [
        | inl (e, q) ↦ inl (e, rw (q, open_segment) refl)
        | inr (fd, q) ↦ elim (answers (os.stat_size w₁ fd).1) [
          | inl (e, t) ↦ inl (e, rw (q, t, open_segment) refl)
          | inr (size, t) ↦ elim (map_opened-handle (os.stat_size w₁ fd).0 name fd size) [
            | inl (e, m) ↦ inl (e, rw (q, t, open_segment) m)
            | inr (bytes, m) ↦ inr (fd, size, bytes, q, t, rw (q, t, open_segment) m)
          ]
        ]
      ]

  -- Where a file of the name exists, `CreateSegment` fails, and makes and removes no file. So
  -- `NewLoader` and `NewCacheServer` come to what `OpenSegment` comes to after it, again without a
  -- file made or removed: an error, or a handle that owns the file and has the size of the file that
  -- was opened, whatever size was asked for.
  pub create_or_open-existing :
      (w : W) (name : List ℕ) (size : ℕ)
      → exists w (dev_shm_path name) ≡ true
      → let w₁ = (create_segment os w name size).0 in
        ((e : IoError) × ((create_segment os w name size).1 ≡ err e))
        × (exists w₁ ≡ exists w)
        × (create_or_open os w name size ≡ open_segment os w₁ name)
        × (exists (create_or_open os w name size).0 ≡ exists w)
        × IsOpened w₁ name (create_or_open os w name size)
  unfolding create_or_open
  create_or_open-existing w name size present =
      let path = dev_shm_path name in
      elim (answers (os.create_file w path).1) [
        | inl (e, q) ↦
            let refused = create_segment-refused w name size e q in
            let same = ap (λ r. exists r.0) refused ∙ posix.create_failed w path e q in
            let w₁ = (create_segment os w name size).0 in
            let opens : create_or_open os w name size ≡ open_segment os w₁ name =
              rw (ap (λ r. r.1) refused, create_or_open) refl in
            (
              (e, ap (λ r. r.1) refused),
              same,
              opens,
              ap (λ r. exists r.0) opens ∙ open_segment-same w₁ name ∙ same,
              subst (IsOpened w₁ name) (sym opens) (open_segment-IsOpened w₁ name),
            )
        | inr (fd, q) ↦ let (absent, made) = posix.create_made w path fd q in absurd (cc)
      ]
