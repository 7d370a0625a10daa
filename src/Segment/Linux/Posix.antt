-- ===== src/Segment/Linux/Posix.antt =====
-- What the code relies on of the file system: which of the calls make or remove a name. `exists`
-- tells whether a path names a file.
use featcache.Common.{ℕ, ◌≡◌, ◌≢◌, Bool, true, false, List, none, some}
use featcache.Memory.{Memory}
use featcache.Protocol.{IoError, ok, err}
use featcache.Segment.Linux.{Os}

-- At the path `p` the answer is `b` now, at every other path it is as before.
abbrev pub Sets : (List ℕ → Bool) → (List ℕ → Bool) → List ℕ → Bool → Type 0
Sets before after p b = (after p ≡ b) × ((q : List ℕ) → q ≢ p → after q ≡ before q)

-- open(2), ftruncate(2), mmap(2), unlink(2): O_EXCL fails where the file exists, a call that fails
-- changes no name, and unlink fails with ENOENT where there is none.
pub record IsPosix {W : Type 0} (os : Os W) (exists : W → List ℕ → Bool) : Type 0 where
  pub create_made :
      (w : W) (p : List ℕ) (fd : ℕ)
      → (os.create_file w p).1 ≡ ok fd
      → (exists w p ≡ false) × Sets (exists w) (exists (os.create_file w p).0) p true
  pub create_failed :
      (w : W) (p : List ℕ) (e : IoError)
      → (os.create_file w p).1 ≡ err e
      → exists (os.create_file w p).0 ≡ exists w
  pub open_keeps : (w : W) (p : List ℕ) → exists (os.open_file w p).0 ≡ exists w
  pub truncate_keeps : (w : W) (fd n : ℕ) → exists (os.truncate w fd n).0 ≡ exists w
  pub stat_keeps : (w : W) (fd : ℕ) → exists (os.stat_size w fd).0 ≡ exists w
  pub map_keeps : (w : W) (fd n : ℕ) → exists (os.map_file w fd n).0 ≡ exists w
  pub unmap_keeps : (w : W) (bytes : Memory) → exists (os.unmap w bytes).0 ≡ exists w
  pub close_keeps : (w : W) (fd : ℕ) → exists (os.close_file w fd) ≡ exists w
  pub removed :
      (w : W) (p : List ℕ)
      → (os.remove w p).1 ≡ none
      → Sets (exists w) (exists (os.remove w p).0) p false
  pub not_removed :
      (w : W) (p : List ℕ) (e : IoError)
      → (os.remove w p).1 ≡ some e
      → exists (os.remove w p).0 ≡ exists w
  pub missing :
      (w : W) (p : List ℕ) (e : IoError)
      → (os.remove w p).1 ≡ some e
      → os.is_not_exist e ≡ true
      → exists w p ≡ false
