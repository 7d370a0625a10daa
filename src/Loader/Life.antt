-- ===== src/Loader/Life.antt =====
-- How a loader comes by its segment, and gives it up: `NewLoader`, `Close` and `Destroy`.
use featcache.Common.{List, Option}
use featcache.Loader.{Loader, LoaderConfig, defaults, new_loader_with_segment}
use featcache.Protocol.{IoError, Result, ok, err}
use featcache.Segment.Linux
use featcache.Segment.Linux.{Os, create_or_open}

module _ {W : Type 0} (os : Os W) where
  unfoldable pub new_loader : W → LoaderConfig → W × Result Loader
  new_loader w config =
      let c = defaults config in
      let (w₁, found) = create_or_open os w c.segment_name c.segment_size in
      elim found [ err e ↦ (w₁, err e) | ok seg ↦ (w₁, ok (new_loader_with_segment c seg)) ]

  unfoldable pub close : W → Loader → W × Loader × Option IoError
  close w l =
      let (w₁, seg, failed) = Linux.close os w l.segment in (w₁, record l { segment = seg }, failed)

  unfoldable pub destroy : W → Loader → W × Loader × List IoError
  destroy w l =
      let (w₁, seg, failed) = Linux.destroy os w l.segment in
      (w₁, record l { segment = seg }, failed)
