-- ===== src/Source/Line.antt =====
-- `LineDataSource`: the lines that a scanner gives, each split at its first tab.
use featcache.Protocol.{IoError, Result, ok, err}
use native.Mathlib.Nat.{add-zero}
use featcache.Source.Supply.{Supplies}
use featcache.Source.{DataSource, Next, entry, end_of_data, failed, crashed}
use featcache.Common.{
  ap, suc, map, length, Option, none, some, ◌+◌, ℕ, List, [], ◌∷◌, ◌==◌, if◌then◌else◌, ◌≡◌, ◌≢◌,
  refl, ◌++◌, All, arith,
}

-- The loop over a line: the key so far is what stands before the first tab.
unfoldable pub split : List ℕ → List ℕ × List ℕ
split [] = ([], [])
split (b ∷ line) = let (key, value) = split line in if b == 9 then ([], line) else (b ∷ key, value)

-- os.Open and bufio.Scanner, which are the standard library's: the scanner on the file of a path,
-- and what `Scan`, `Bytes` and `Err` answer, with the scanner afterwards.
pub data Scanned : Type 0 where
  scanned_line : List ℕ → Scanned
  no_more : Scanned
  scan_failed : IoError → Scanned

pub record Scanning (C : Type 0) : Type 0 where
  pub open_file : List ℕ → Result C
  pub scan : C → C × Scanned

-- `sc` is nil before `Open`; `n` counts the lines.
pub record LineDataSource (C : Type 0) : Type 0 where
  pub path : List ℕ
  pub sc : Option C
  pub n : ℕ

module _ {C : Type 0} where
  unfoldable pub new_line_data_source : List ℕ → LineDataSource C
  new_line_data_source path = record { path = path; sc = none; n = 0 }

  -- The number of lines is not known: the estimate is 0.
  unfoldable pub open_source : Scanning C → LineDataSource C → LineDataSource C × Result ℕ
  open_source scanning ds = elim (scanning.open_file ds.path) [
    | err e ↦ (ds, err e)
    | ok c ↦ (record ds { sc = some c; n = 0 }, ok 0)
  ]

  -- `Next` on a nil scanner panics.
  unfoldable pub next : Scanning C → LineDataSource C → LineDataSource C × Next
  next scanning ds = elim ds.sc [
    | none ↦ (ds, crashed)
    | some c ↦
        let (c', scanned) = scanning.scan c in
        elim scanned [
          | no_more ↦ (record ds { sc = some c' }, end_of_data)
          | scan_failed e ↦ (record ds { sc = some c' }, failed e)
          | scanned_line bytes ↦
              let (key, value) = split bytes in
              (record ds { sc = some c'; n = ds.n + 1 }, entry key value)
        ]
  ]

  unfoldable pub line_source : Scanning C → DataSource (LineDataSource C)
  unfolding open_source next
  line_source scanning = record {
    open_source = open_source scanning;
    next = next scanning;
    close_source = λ ds. ds;
  }

-- A line with a tab is cut at the first one.
pub split-tab :
    (key value : List ℕ) → All (λ b. b ≢ 9) key → split (key ++ (9 ∷ value)) ≡ (key, value)
unfolding split
split-tab [] value h = refl
split-tab (b ∷ key) value (ne, h) = rw (split-tab key value h) (ground arith)

-- A line without a tab is a key with an empty value.
pub split_no_tab : (line : List ℕ) → All (λ b. b ≢ 9) line → split line ≡ (line, [])
unfolding split
split_no_tab [] h = refl
split_no_tab (b ∷ line) (ne, h) = rw (split_no_tab line h) (ground arith)

-- The scanner gives these lines and then no more, without an error.
module _ {C : Type 0} (scanning : Scanning C) where
  abbrev pub Gives : C → List (List ℕ) → C → Type 0
  Gives c [] c' = scanning.scan c ≡ (c', no_more)
  Gives c (bytes ∷ lines) c' =
      (c₁ : C) × (scanning.scan c ≡ (c₁, scanned_line bytes)) × Gives c₁ lines c'

  abbrev pub at_scanner : List ℕ → C → ℕ → LineDataSource C
  at_scanner path c n = record { path = path; sc = some c; n = n }

  next-at_scanner :
      (path : List ℕ) (c c₁ : C) (n : ℕ) (bytes : List ℕ)
      → scanning.scan c ≡ (c₁, scanned_line bytes)
      → next scanning (at_scanner path c n)
        ≡ (at_scanner path c₁ (n + 1), entry (split bytes).0 (split bytes).1)
  unfolding next
  next-at_scanner path c c₁ n bytes e = rw (ap (λ p. p.1) e, ap (λ p. p.0) e, next) refl

  next_ends :
      (path : List ℕ) (c c₁ : C) (n : ℕ)
      → scanning.scan c ≡ (c₁, no_more)
      → next scanning (at_scanner path c n) ≡ (at_scanner path c₁ n, end_of_data)
  unfolding next
  next_ends path c c₁ n e = rw (ap (λ p. p.1) e, ap (λ p. p.0) e, next) refl

  -- Where the scanner gives finitely many lines, the source supplies each of them split at its first
  -- tab, and then ErrEOF; its counter is the number of lines.
  pub line_source-Supplies :
      (path : List ℕ) (c c' : C) (n : ℕ) (lines : List (List ℕ))
      → Gives c lines c'
      → Supplies
          (line_source scanning)
          (at_scanner path c n)
          (map split lines)
          (at_scanner path c' (n + length lines))
  unfolding line_source
  line_source-Supplies path c c' n [] gives = rw add-zero (next_ends path c c' n gives)
  line_source-Supplies path c c' n (bytes ∷ lines) (c₁, e, gives) = (
    at_scanner path c₁ (n + 1),
    next-at_scanner path c c₁ n bytes e,
    (let more : n + 1 + length lines ≡ n + suc (length lines) = omega arith in
        rw (← more) (line_source-Supplies path c₁ c' (n + 1) lines gives)),
  )
