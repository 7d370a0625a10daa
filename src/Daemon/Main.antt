-- ===== src/Daemon/Main.antt =====
-- The whole `main` of cmd/featload: main.go on Linux, main_other.go elsewhere. Log lines and the
-- texts of the messages are left out.
pub mod Ready
mod Examples
use featcache.Common.{ℕ, ◌^◌, Bool, true, false, List, [], ◌∷◌, Option, none, some, Run, ok, ◌>>=◌}
use featcache.Daemon.{Started, create_failed, load_failed, init_failed, serving, start}
use featcache.Loader.Life
use featcache.Loader.{Loader, LoaderConfig}
use featcache.Protocol.{IoError}
use featcache.Segment.Linux.{Os}
use featcache.Server.Life.{Sockets, start_listening}
use featcache.Server.{CacheServer}
use featcache.Source.Line.{Scanning}

-- What the flag package answers.
pub record Flags : Type 0 where
  pub name : List ℕ
  pub size : ℕ
  pub uds : List ℕ
  pub source : List ℕ
  pub version : Bool

-- The default address starts with the null byte itself.
abbrev pub default_flags : Flags
default_flags = record {
  name = b'f' ∷ b'e' ∷ b'a' ∷ b't' ∷ b'c' ∷ b'a' ∷ b'c' ∷ b'h' ∷ b'e' ∷ [];
  size = 2 ^ 31;
  uds = 0 ∷ b'f' ∷ b'e' ∷ b'a' ∷ b't' ∷ b'c' ∷ b'a' ∷ b'c' ∷ b'h' ∷ b'e' ∷ [];
  source = [];
  version = false;
}

abbrev pub config_of : Flags → LoaderConfig
config_of flags = record { segment_name = flags.name; segment_size = flags.size }

-- How the program ends, or that it has come to the loop of `Listen`.
pub data Ending : Type 0 where
  version_shown : Ending
  unsupported : Ending
  stopped : Started → Ending
  listen_failed : IoError → Ending
  listening : Loader → CacheServer → Ending

-- `server.Listen()` until its loop.
unfoldable pub listen : {W : Type 0} → Os W → Sockets W → W → Started → W × Ending
listen os sockets w (create_failed e) = (w, stopped (create_failed e))
listen os sockets w (load_failed f) = (w, stopped (load_failed f))
listen os sockets w (init_failed e) = (w, stopped (init_failed e))
listen os sockets w (serving l s) =
    let (w', s', failed) = start_listening os sockets w s in
    elim failed [ none ↦ (w', listening l s') | some e ↦ (w', listen_failed e) ]

-- `none` says that the fuel of `Load` ran out.
unfoldable pub main :
    {C W : Type 0}
    → Scanning C
    → ℕ
    → ℕ
    → ℕ
    → Os W
    → Sockets W
    → W
    → Flags
    → Run (Option (W × Ending))
main scanning pkg_seed seed fuel os sockets w flags =
    let (w₁, begun) =
      start scanning pkg_seed seed fuel os w (config_of flags) flags.source flags.uds in
    elim flags.version [
      | true ↦ ok (some (w, version_shown))
      | false ↦ do
        r ← begun
        elim r [ none ↦ ok none | some started ↦ ok (some (listen os sockets w₁ started)) ]
    ]

-- The goroutine that waits for SIGINT or SIGTERM; the error is dropped, and the program ends.
unfoldable pub shut_down : {W : Type 0} → Os W → W → Loader → W
shut_down os w l = (Life.close os w l).0

-- main_other.go
unfoldable pub main_elsewhere : Flags → Ending
main_elsewhere flags = elim flags.version [ true ↦ version_shown | false ↦ unsupported ]
