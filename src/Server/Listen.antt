-- ===== src/Server/Listen.antt =====
-- The loop of `Listen` of pkg/featcache/server.go, which accepts connections, beside the goroutines
-- that handle them, the loader that stores into the segment or closes it, and a `Close` or `Destroy`
-- of the server. What a client sends is a finite list of bytes: one that keeps silent and does not
-- hang up is not modelled, and its handler waits.
pub mod Handlers
pub mod Laws
pub mod Ends
mod Examples
use featcache.Common.{
  ℕ, ◌≡◌, Bool, true, false, List, [], ◌∷◌, ◌++◌, Option, if◌then◌else◌, Run, ok, ◌>>=◌,
}
use featcache.Memory.{Memory}
use featcache.Protocol.{IoError, Writer}
use featcache.Segment.Linux
use featcache.Segment.Linux.{Os}
use featcache.Server.Life
use featcache.Server.Life.{Sockets}
use featcache.Server.{CacheServer, set_state, handle_conn}

-- Before the test of `closed`, in `AcceptUnix`, and after the loop.
pub data Place : Type 0 where
  checking accepting returned : Place

-- `Write` to a connection, and its `Close`, whose error is dropped.
pub record Conns (W : Type 0) : Type 0 where
  pub send : W → ℕ → List ℕ → W × Option IoError
  pub hang_up : W → ℕ → W

-- The server and its loop, whether the listener still takes connections, and the connections with
-- what their clients send: those that wait for their handler, all that were accepted, and those
-- whose handler has ended.
pub record Listening (W : Type 0) : Type 0 where
  pub world : W
  pub server : CacheServer
  pub place : Place
  pub taking : Bool
  pub pending : List (ℕ × List ℕ)
  pub accepted : List ℕ
  pub ended : List ℕ

-- `for !s.closed.Load()`
unfoldable pub loop_test : CacheServer → Place
loop_test s = if s.closed then returned else accepting

-- After an error of `AcceptUnix`.
unfoldable pub accept_error : CacheServer → Place
accept_error s = if s.closed then returned else checking

module _ {W : Type 0} (conns : Conns W) where
  -- A whole run of a handler, with the deferred `Close` of its connection.
  unfoldable pub serve_conn : W → CacheServer → ℕ → List ℕ → Run W
  serve_conn w server conn sent = do
    w' ← handle_conn (record { write = λ v bytes. conns.send v conn bytes }) server sent w
    ok (conns.hang_up w' conn)

-- When `Listen` comes to its loop.
abbrev pub at_loop : {W : Type 0} → W → CacheServer → Listening W
at_loop w server = record {
  world = w;
  server = server;
  place = checking;
  taking = true;
  pending = [];
  accepted = [];
  ended = [];
}

-- A listener that is closed takes no connection; `AcceptUnix` may fail at any time. The loader may
-- store into the shared bytes at any time, and may close or destroy the shared segment, as main.go
-- does on a signal while the listener is open; anyone may set the state. `Close` and `Destroy` of the
-- server set `closed` first; what they do then is one step.
pub data Step {W : Type 0} (os : Os W) (sockets : Sockets W) (conns : Conns W) (s : Listening W)
    : Listening W → Type 0 where
  tests : s.place ≡ checking → Step os sockets conns s (record s { place = loop_test s.server })
  accepts :
      (conn : ℕ) (sent : List ℕ)
      → s.place ≡ accepting
      → s.taking ≡ true
      → Step os sockets conns s (record s {
        place = checking;
        pending = (conn, sent) ∷ s.pending;
        accepted = conn ∷ s.accepted;
      })
  accept_fails :
      s.place ≡ accepting → Step os sockets conns s (record s { place = accept_error s.server })
  answers :
      (before after : List (ℕ × List ℕ)) (conn : ℕ) (sent : List ℕ) {w : W}
      → s.pending ≡ before ++ ((conn, sent) ∷ after)
      → serve_conn conns s.world s.server conn sent ≡ ok w
      → Step os sockets conns s
          (record s { world = w; pending = before ++ after; ended = conn ∷ s.ended })
  sets : (state : ℕ) → Step os sockets conns s (record s { server = set_state s.server state })
  stores :
      (m : Memory)
      → m.size ≡ s.server.seg.bytes.size
      → Step os sockets conns s
          (record s { server = record s.server { seg = record s.server.seg { bytes = m } } })
  marks : Step os sockets conns s (record s { server = record s.server { closed = true } })
  closes :
      s.server.closed ≡ true
      → Step os sockets conns s (record s {
        world = (Life.close os sockets s.world s.server).0;
        server = (Life.close os sockets s.world s.server).1;
        taking = false;
      })
  closes_segment : Step os sockets conns s (record s {
    world = (Linux.close os s.world s.server.seg).0;
    server = record s.server { seg = (Linux.close os s.world s.server.seg).1 };
  })
  destroys_segment : Step os sockets conns s (record s {
    world = (Linux.destroy os s.world s.server.seg).0;
    server = record s.server { seg = (Linux.destroy os s.world s.server.seg).1 };
  })
  destroys :
      s.server.closed ≡ true
      → Step os sockets conns s (record s {
        world = (Life.destroy os sockets s.world s.server).0;
        server = (Life.destroy os sockets s.world s.server).1;
        taking = false;
      })

pub data Reach {W : Type 0} (os : Os W) (sockets : Sockets W) (conns : Conns W) (s₀ : Listening W)
    : Listening W → Type 0 where
  start : Reach os sockets conns s₀ s₀
  step :
      {s t : Listening W}
      → Reach os sockets conns s₀ s
      → Step os sockets conns s t
      → Reach os sockets conns s₀ t
