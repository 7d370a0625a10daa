-- ===== src/Server/Life/Examples.antt =====
-- A server at an abstract address, in a world that is the set of the files' names.
use featcache.Common.{◌≡◌, refl, [], ◌∷◌}
use featcache.Loader.Examples.{started}
use featcache.Loader.Life
use featcache.Protocol
use featcache.Segment.Linux.Examples.{Names, kv_only, toy, present, toy-IsPosix}
use featcache.Server.Life.Ownership.{new_server-destroy}
use featcache.Server.Life.{Sockets, start_listening, destroy}
use featcache.Server.{new_server, set_state}

abbrev pub quiet : Sockets Names
quiet = record {
  remove_socket = λ w p. w;
  open_to_all = λ w p. w;
  listen_unix = λ w p. (w, Protocol.ok 4);
  close_listener = λ w ln. w;
}

new_server-destroy_example :
    let (s, seg) = new_server started.segment (0 ∷ []) in
    let (_, s', _) = start_listening toy quiet kv_only (set_state s 2) in
    ((Life.destroy toy kv_only (record started { segment = seg })).0 ≡ kv_only)
    × ((destroy toy quiet kv_only s').0 ≡ kv_only)
new_server-destroy_example =
    new_server-destroy toy quiet present toy-IsPosix (λ v w rest ln e. refl) started [] 2 kv_only
      kv_only
