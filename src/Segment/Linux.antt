-- ===== src/Segment/Linux.antt =====
-- pkg/shm/segment_linux.go: segments over /dev/shm. The operating system is a parameter: each call
-- answers with the world after it. A file descriptor is a number.
pub mod Posix
pub mod Files
pub mod Close
pub mod Examples
use featcache.Common.{ℕ, true, false, Bool, List, [], ◌∷◌, ◌++◌, Option, none, some}
use featcache.Memory.{Memory}
use featcache.Protocol.{IoError, Result, ok, err}
use featcache.Segment.{Segment}

-- `os.OpenFile` with O_RDWR|O_CREATE|O_EXCL and with O_RDWR, `Truncate`, `Stat().Size()`,
-- `unix.Mmap` and `unix.Munmap`, `File.Close`, `os.Remove`, `os.IsNotExist`.
pub record Os (W : Type 0) : Type 0 where
  pub create_file : W → List ℕ → W × Result ℕ
  pub open_file : W → List ℕ → W × Result ℕ
  pub truncate : W → ℕ → ℕ → W × Option IoError
  pub stat_size : W → ℕ → W × Result ℕ
  pub map_file : W → ℕ → ℕ → W × Result Memory
  pub unmap : W → Memory → W × Option IoError
  pub close_file : W → ℕ → W
  pub remove : W → List ℕ → W × Option IoError
  pub is_not_exist : IoError → Bool

-- "/dev/shm/" and the name.
unfoldable pub dev_shm_path : List ℕ → List ℕ
dev_shm_path name = b'/' ∷ b'd' ∷ b'e' ∷ b'v' ∷ b'/' ∷ b's' ∷ b'h' ∷ b'm' ∷ b'/' ∷ name

abbrev pub mapping : List ℕ → Memory → ℕ → Segment
mapping name bytes size = record {
  name = name;
  bytes = bytes;
  attached = true;
  cap = size;
  mapped = true;
  backed_by_file = true;
}

-- `errors.Join`: the errors that are not nil.
abbrev pub join : Option IoError → Option IoError → List IoError
join none none = []
join none (some f) = f ∷ []
join (some e) none = e ∷ []
join (some e) (some f) = e ∷ f ∷ []

module _ {W : Type 0} (os : Os W) where
  -- What `createSegment` does once the file is truncated: the deferred `Close` runs last.
  unfoldable pub map_created : List ℕ → ℕ → ℕ → W → W × Result Segment
  map_created name fd size w =
      let (w₁, region) = os.map_file w fd size in
      elim region [
        | ok bytes ↦ (os.close_file w₁ fd, ok (mapping name bytes size))
        | err e ↦ (os.close_file (os.remove w₁ (dev_shm_path name)).0 fd, err e)
      ]

  unfoldable pub create_segment : W → List ℕ → ℕ → W × Result Segment
  create_segment w name size =
      let (w₁, opened) = os.create_file w (dev_shm_path name) in
      elim opened [
        | err e ↦ (w₁, err e)
        | ok fd ↦
            let (w₂, failed) = os.truncate w₁ fd size in
            elim failed [
              | some e ↦ (os.close_file (os.remove w₂ (dev_shm_path name)).0 fd, err e)
              | none ↦ map_created name fd size w₂
            ]
      ]

  -- What `openSegment` does with the size that `Stat` answered.
  unfoldable pub map_opened : List ℕ → ℕ → ℕ → W → W × Result Segment
  map_opened name fd size w =
      let (w₁, region) = os.map_file w fd size in
      elim region [
        | ok bytes ↦ (os.close_file w₁ fd, ok (mapping name bytes size))
        | err e ↦ (os.close_file w₁ fd, err e)
      ]

  unfoldable pub open_segment : W → List ℕ → W × Result Segment
  open_segment w name =
      let (w₁, opened) = os.open_file w (dev_shm_path name) in
      elim opened [
        | err e ↦ (w₁, err e)
        | ok fd ↦
            let (w₂, stat) = os.stat_size w₁ fd in
            elim stat [
              | err e ↦ (os.close_file w₂ fd, err e)
              | ok size ↦ map_opened name fd size w₂
            ]
      ]

  -- `CreateSegment`, or `OpenSegment` where that fails, as NewLoader and NewCacheServer do.
  unfoldable pub create_or_open : W → List ℕ → ℕ → W × Result Segment
  create_or_open w name size =
      let (w₁, created) = create_segment w name size in
      elim created [ ok seg ↦ (w₁, ok seg) | err e ↦ open_segment w₁ name ]

  -- A failed `Munmap` leaves the bytes in place, but no longer mapped.
  unfoldable pub unmap_segment : W → Segment → W × Segment × Option IoError
  unmap_segment w s =
      let (w₁, failed) = os.unmap w s.bytes in
      elim failed [
        | some e ↦ (w₁, record s { mapped = false }, some e)
        | none ↦ (w₁, record s { attached = false; mapped = false }, none)
      ]

  -- The handle after the call, and the error.
  unfoldable pub close : W → Segment → W × Segment × Option IoError
  close w s = elim s.attached [
    | false ↦ (w, s, none)
    | true ↦ elim s.mapped [
      | true ↦ unmap_segment w s
      | false ↦ (w, record s { attached = false }, none)
    ]
  ]

  -- The error of `os.Remove` that `destroy` reports.
  unfoldable pub removal : W → List ℕ → W × Option IoError
  removal w name =
      let (w₁, failed) = os.remove w (dev_shm_path name) in
      elim failed [
        | none ↦ (w₁, none)
        | some e ↦ elim (os.is_not_exist e) [ true ↦ (w₁, none) | false ↦ (w₁, some e) ]
      ]

  unfoldable pub destroy : W → Segment → W × Segment × List IoError
  destroy w s =
      let (w₁, s', failed) = close w s in
      let (w₂, not_removed) = removal w₁ s'.name in
      elim s'.backed_by_file [
        | false ↦ (w₁, s', join failed none)
        | true ↦ (w₂, s', join failed not_removed)
      ]
