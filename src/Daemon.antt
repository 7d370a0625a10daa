-- ===== src/Daemon.antt =====
-- cmd/featload/main.go: the loader daemon from `NewLoader` to the call of `Listen`. What the flag
-- package answers are arguments; the version flag, `Listen` and the signals are in Daemon.Main.
-- `log.Fatalf` ends the program.
pub mod Empty
pub mod Main
pub mod Examples
use featcache.Common.{
  ℕ, Bool, true, false, List, [], ◌∷◌, Option, none, some, drop, take, if◌then◌else◌, Run, ok,
  panic, ◌>>=◌,
}
use featcache.Loader.Life.{new_loader}
use featcache.Loader.Load.{Failure, load}
use featcache.Loader.{Loader, LoaderConfig, LoadError, init}
use featcache.Protocol
use featcache.Protocol.{IoError}
use featcache.Segment.Linux.{Os}
use featcache.Server.{CacheServer, new_server, set_state, state_ready}
use featcache.Source.Line.{Scanning, line_source, new_line_data_source}
use featcache.Table.View.{equal_bytes}

-- How the program is when it comes to `Listen`, or the message that it ends with.
pub data Started : Type 0 where
  create_failed : IoError → Started
  load_failed : Failure → Started
  init_failed : LoadError → Started
  serving : Loader → CacheServer → Started

-- The four characters `\x00` at the front stand for the null byte.
unfoldable pub uds_address : List ℕ → List ℕ
uds_address path =
    if equal_bytes (take 4 path) (b'\\' ∷ b'x' ∷ b'0' ∷ b'0' ∷ []) then 0 ∷ drop 4 path else path

-- The server over the loader's own segment.
unfoldable pub serve : List ℕ → Loader → Started
serve uds_addr l =
    let (s, shared) = new_server l.segment uds_addr in
    serving (record l { segment = shared }) (set_state s state_ready)

-- `seed` is what `randSeed` draws; the fuel is that of `Load`, and `none` says that it ran out.
module _ {C : Type 0} (scanning : Scanning C) (pkg_seed seed fuel : ℕ) where
  unfoldable pub fill : List ℕ → List ℕ → Loader → Run (Option Started)
  fill [] uds_addr l = do
    (e, l') ← init l 0 seed
    ok (some (elim e [ none ↦ serve uds_addr l' | some err ↦ init_failed err ]))
  fill (b ∷ bs) uds_addr l = do
    r ← load (line_source scanning) pkg_seed seed fuel (new_line_data_source (b ∷ bs)) l
    elim r [
      | none ↦ ok none
      | some e ↦
          ok (some (elim e.failure [ none ↦ serve uds_addr e.loader | some f ↦ load_failed f ]))
    ]

  unfoldable pub start :
      {W : Type 0} → Os W → W → LoaderConfig → List ℕ → List ℕ → W × Run (Option Started)
  start os w config source_path uds_path =
      let (w₁, made) = new_loader os w config in
      elim made [
        | Protocol.err e ↦ (w₁, ok (some (create_failed e)))
        | Protocol.ok l ↦ (w₁, fill source_path (uds_address uds_path) l)
      ]
