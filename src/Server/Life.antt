-- ===== src/Server/Life.antt =====
-- The server's segment and socket: `NewCacheServer`, the opening of `Listen`, `Close` and `Destroy`.
-- The loop of `Listen` is in Server.Listen.
pub mod Ownership
pub mod Examples
use featcache.Common.{ℕ, true, false, Bool, List, [], ◌∷◌, Option, none, some, ◌==◌}
use featcache.Protocol.{IoError, Result, ok, err}
use featcache.Segment.Linux
use featcache.Segment.Linux.{Os, create_or_open}
use featcache.Segment.{Segment}
use featcache.Server.{CacheServer, state_idle}

-- `os.Remove` and `os.Chmod` on the address, whose errors are dropped, `net.ListenUnix`, and the
-- listener's `Close`.
pub record Sockets (W : Type 0) : Type 0 where
  pub remove_socket : W → List ℕ → W
  pub open_to_all : W → List ℕ → W
  pub listen_unix : W → List ℕ → W × Result ℕ
  pub close_listener : W → ℕ → W

-- `s.udsAddr != "" && s.udsAddr[0] == '/'`
abbrev pub is_path : List ℕ → Bool
is_path [] = false
is_path (b ∷ bs) = b == b'/'

module _ {W : Type 0} (os : Os W) (sockets : Sockets W) where
  unfoldable pub new_cache_server : W → List ℕ → ℕ → List ℕ → W × Result CacheServer
  new_cache_server w segment_name segment_size uds_addr =
      let (w₁, found) = create_or_open os w segment_name segment_size in
      elim found [
        | err e ↦ (w₁, err e)
        | ok seg ↦ (
          w₁,
          ok (record {
            segment_name = segment_name;
            segment_size = segment_size;
            uds_addr = uds_addr;
            seg = seg;
            listener = none;
            closed = false;
            state = state_idle;
          }),
        )
      ]

  unfoldable pub clear_address : W → CacheServer → W
  clear_address w s = elim (is_path s.uds_addr) [
    | true ↦ sockets.remove_socket w s.uds_addr
    | false ↦ w
  ]

  -- `Listen` until its loop.
  unfoldable pub start_listening : W → CacheServer → W × CacheServer × Option IoError
  start_listening w s =
      let (w₁, listening) = sockets.listen_unix (clear_address w s) s.uds_addr in
      elim listening [
        | err e ↦ (w₁, s, some e)
        | ok ln ↦ (
          elim (is_path s.uds_addr) [ true ↦ sockets.open_to_all w₁ s.uds_addr | false ↦ w₁ ],
          record s { listener = some ln },
          none,
        )
      ]

  abbrev stop_listening : W → Option ℕ → W
  stop_listening w none = w
  stop_listening w (some ln) = sockets.close_listener w ln

  unfoldable pub close : W → CacheServer → W × CacheServer × Option IoError
  close w s =
      let (w₁, seg, failed) =
        Linux.close os (clear_address (stop_listening w s.listener) s) s.seg in
      (w₁, record s { closed = true; seg = seg }, failed)

  unfoldable pub destroy : W → CacheServer → W × CacheServer × List IoError
  destroy w s =
      let (w₁, seg, failed) =
        Linux.destroy os (clear_address (stop_listening w s.listener) s) s.seg in
      (w₁, record s { closed = true; seg = seg }, failed)
