-- ===== src/Server/Life/Ownership.antt =====
-- Who removes the file of the segment that a loader shares with its server.
use featcache.Common.{ℕ, ◌≡◌, ◌∙◌, refl, inl, inr, Bool, false, List, ◌∷◌, some}
use featcache.Loader.{Loader}
use featcache.Loader.Life
use featcache.Segment.Linux
use featcache.Segment.Linux.Close.{destroy-Sets}
use featcache.Segment.Linux.Posix.{IsPosix}
use featcache.Segment.Linux.{Os}
use featcache.Segment.{Segment, borrow}
use featcache.Protocol.{ok}
use featcache.Segment.Linux.Files.{answers}
use featcache.Server.Life.{Sockets, clear_address, start_listening, stop_listening, destroy}
use featcache.Server.{CacheServer, new_server, set_state}

-- `stop_keeps`: an address that begins with a zero byte is abstract and names no file (unix(7)), so
-- that there is none which the listener's `Close` could remove.
module _ {W : Type 0} (os : Os W) (sockets : Sockets W) (exists : W → List ℕ → Bool)
    (posix : IsPosix os exists)
    (stop_keeps : (v w : W) (rest : List ℕ) (ln : ℕ)
      → (sockets.listen_unix v (0 ∷ rest)).1 ≡ ok ln
      → exists (sockets.close_listener w ln) ≡ exists w) where
  destroy_borrowed-same :
      (w : W) (seg : Segment)
      → seg.backed_by_file ≡ false
      → exists (Linux.destroy os w seg).0 ≡ exists w
  destroy_borrowed-same w seg borrowed = elim (destroy-Sets os exists posix w seg) [
    | inl (owned, _) ↦ absurd (cc)
    | inr (_, same) ↦ same
  ]

  destroy_abstract-same :
      (w : W) (s : CacheServer) (rest : List ℕ)
      → s.seg.backed_by_file ≡ false
      → s.uds_addr ≡ 0 ∷ rest
      → exists (stop_listening os sockets w s.listener) ≡ exists w
      → exists (destroy os sockets w s).0 ≡ exists w
  unfolding destroy clear_address
  destroy_abstract-same w s rest borrowed address stopped =
      let kept = destroy_borrowed-same (stop_listening os sockets w s.listener) s.seg borrowed in
      simp (address, destroy, clear_address) (kept ∙ stopped)

  -- A loader's segment is shared with a server that is made over it, at an abstract address, which
  -- begins with a zero byte. A listener that `ListenUnix` makes at such an address has no file, and
  -- its `Close` removes none. The server has its state set, and opens its listener or fails to. Then
  -- `Destroy` in any later world removes no file: neither the loader's, on the handle that they
  -- share, though that loader may have made the segment's file, nor the server's.
  pub new_server-destroy :
      (l : Loader) (rest : List ℕ) (state : ℕ) (w v : W)
      → let (s, seg) = new_server l.segment (0 ∷ rest) in
        let (_, s', _) = start_listening os sockets w (set_state s state) in
        (exists (Life.destroy os v (record l { segment = seg })).0 ≡ exists v)
        × (exists (destroy os sockets v s').0 ≡ exists v)
  unfolding Life.destroy new_server borrow set_state start_listening clear_address
  new_server-destroy l rest state w v = (
    destroy_borrowed-same v (borrow l.segment) refl,
    elim (answers (sockets.listen_unix w (0 ∷ rest)).1) [
      | inl (e, q) ↦
          rw (q, start_listening)
            (destroy_abstract-same v (set_state (new_server l.segment (0 ∷ rest)).0 state) rest refl
              refl refl)
      | inr (ln, q) ↦
          rw (q, start_listening)
            (destroy_abstract-same v
              (record (set_state (new_server l.segment (0 ∷ rest)).0 state) { listener = some ln })
              rest refl refl (stop_keeps w v rest ln q))
    ],
  )
