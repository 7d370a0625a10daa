-- ===== src/Server/Listen/Examples.antt =====
-- A loop over the server of 64 bytes, with one connection that asks for the info.
use featcache.Common.{
  ℕ, ◌+◌, ◌≡◌, ◌≢◌, refl, ◌⊎◌, inl, true, false, List, [], ◌∷◌, none, Returns, panic,
}
use featcache.Layout.{op_get_info}
use featcache.Protocol
use featcache.Protocol.{Request, decode_request}
use featcache.Segment.Linux
use featcache.Segment.Linux.Examples.{Names, kv_only, toy}
use featcache.Server.Examples.{serving, serving_pos}
use featcache.Server.Life
use featcache.Server.Life.Examples.{quiet}
use featcache.Server.Listen.Ends.{loop_ends}
use featcache.Server.Listen.Handlers.{close-serve_conn}
use featcache.Server.Listen.Laws.{times, conns_of, serving_loop}
use featcache.Server.Listen.{
  returned, Conns, Listening, loop_test, serve_conn, at_loop, Step, tests, accepts, marks, closes,
  Reach, start, step,
}
use featcache.Server.{CacheServer}

abbrev deaf : Conns Names
deaf = record { send = λ w conn bytes. (w, none); hang_up = λ w conn. w }

abbrev asked : List ℕ
asked = 1 ∷ 0 ∷ 0 ∷ []

asked_decodes : decode_request asked ≡ Protocol.ok (record { op = op_get_info; key = [] }, [])
unfolding decode_request Protocol.read_full Protocol.from_be
asked_decodes = refl

abbrev waiting : Listening Names
waiting = record (at_loop kv_only serving) { pending = (5, asked) ∷ []; accepted = 5 ∷ [] }

waiting-Reach : Reach toy quiet deaf (at_loop kv_only serving) waiting
unfolding loop_test
waiting-Reach = step (step start (tests refl)) (accepts 5 asked refl refl)

abbrev marked : CacheServer
marked = record serving { closed = true }

abbrev shut : Listening Names
shut = record waiting {
  world = (Life.close toy quiet kv_only marked).0;
  server = (Life.close toy quiet kv_only marked).1;
  taking = false;
}

shut-Reach : Reach toy quiet deaf (at_loop kv_only serving) shut
shut-Reach = step (step waiting-Reach marks) (closes refl)

abbrev left : Listening Names
left = record shut { place = returned }

shut-Step : Step toy quiet deaf shut left
unfolding loop_test Life.close
shut-Step = tests refl

serving_loop_example :
    ((c : ℕ)
      → times c waiting.accepted ≡ times c waiting.ended + times c (conns_of waiting.pending))
    × ((waiting.place ≢ returned) ⊎ (waiting.server.closed ≡ true))
    × ((waiting.taking ≡ false)
        ⊎ (waiting.server.seg.attached ≡ false)
        ⊎ ((v : Names) (conn : ℕ) (sent : List ℕ)
            → Returns (serve_conn deaf v waiting.server conn sent) (λ w'. Unit {0})))
serving_loop_example = serving_loop toy quiet deaf kv_only serving waiting serving_pos waiting-Reach

loop_ends_example :
    ((shut.place ≡ returned)
      ⊎ ((u : Listening Names) × (Step toy quiet deaf shut u) × (u.place ≡ returned)))
    × ((left.place ≡ shut.place) ⊎ (left.place ≡ returned))
loop_ends_example =
    loop_ends toy quiet deaf kv_only serving shut left serving_pos shut-Reach refl shut-Step

closes_fine : (Life.close toy quiet kv_only serving).2 ≡ none
unfolding Life.close Linux.close Linux.unmap_segment
closes_fine = refl

close-serve_conn_example :
    serve_conn deaf kv_only (Life.close toy quiet kv_only serving).1 5 asked ≡ panic
close-serve_conn_example =
    close-serve_conn toy quiet deaf kv_only kv_only serving 5 asked
      (record { op = op_get_info; key = [] }) [] closes_fine asked_decodes (inl refl)
