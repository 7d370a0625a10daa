-- ===== src/Server/Listen/Laws.antt =====
-- What holds however the loop of `Listen`, its handlers and the rest interleave.
use featcache.Common.{
  ℕ, ◌+◌, ◌<◌, ◌≡◌, ◌≢◌, ◌∙◌, refl, ap, ◌⊎◌, inl, inr, true, false, List, [], ◌∷◌, ◌++◌, map, ◌==◌,
  if◌then◌else◌, Returns, arith, Bool-cases,
}
use featcache.Memory.{Memory}
use featcache.Segment.Linux
use featcache.Segment.Linux.Close.{close_detached-same, close-data_of, destroy-close}
use featcache.Segment.Linux.{Os}
use featcache.Segment.{Segment, data_of}
use featcache.Server.Life
use featcache.Server.Life.{Sockets}
use featcache.Server.Listen.{
  returned, Conns, Listening, loop_test, accept_error, serve_conn, at_loop, Step, tests, accepts,
  accept_fails, answers, sets, stores, marks, closes, closes_segment, destroys_segment, destroys,
  Reach, start, step,
}
use featcache.Server.{CacheServer, set_state}
use featcache.Server.Listen.Handlers.{serve_conn-returns}

-- How often a connection is in a list.
abbrev pub times : ℕ → List ℕ → ℕ
times c [] = 0
times c (x ∷ xs) = (if x == c then 1 else 0) + times c xs

abbrev pub conns_of : List (ℕ × List ℕ) → List ℕ
conns_of hs = map (λ (h : ℕ × List ℕ). h.0) hs

times-append :
    (c : ℕ) (before after : List (ℕ × List ℕ)) (conn : ℕ) (sent : List ℕ)
    → times c (conns_of (before ++ ((conn, sent) ∷ after)))
      ≡ (if conn == c then 1 else 0) + times c (conns_of (before ++ after))
times-append c [] after conn sent = refl
times-append c ((x, b) ∷ before) after conn sent =
    let rest = times-append c before after conn sent in omega (arith, rest)

test-leaves : (server : CacheServer) → (loop_test server ≢ returned) ⊎ (server.closed ≡ true)
unfolding loop_test
test-leaves server = elim (Bool-cases server.closed) [
  | inl e ↦ inr e
  | inr e ↦ inl (λ p. cc (e, p))
]

error-leaves : (server : CacheServer) → (accept_error server ≢ returned) ⊎ (server.closed ≡ true)
unfolding accept_error
error-leaves server = elim (Bool-cases server.closed) [
  | inl e ↦ inr e
  | inr e ↦ inl (λ p. cc (e, p))
]

same_bytes :
    (seg : Segment) (m : Memory)
    → m.size ≡ seg.bytes.size
    → 0 < (data_of seg).size
    → 0 < (data_of (record seg { bytes = m })).size
unfolding data_of
same_bytes seg m same h = elim (Bool-cases seg.attached) [
  | inl e ↦ rw (e, same) (rw e at h)
  | inr e ↦ let none_left : 0 < 0 = rw e at h in absurd (omega arith)
]

module _ {W : Type 0} (os : Os W) (sockets : Sockets W) (conns : Conns W) where
  -- The loop has left only after `closed` was set, the listener was closed after that, the segment
  -- has bytes until then or until it is closed itself, and every connection is counted.
  pub record IsGood (s : Listening W) : Type 0 where
    left : (s.place ≢ returned) ⊎ (s.server.closed ≡ true)
    pub shut : (s.taking ≡ true) ⊎ (s.server.closed ≡ true)
    has_bytes :
        (s.taking ≡ false) ⊎ ((s.server.seg.attached ≡ false) ⊎ (0 < (data_of s.server.seg).size))
    counted : (c : ℕ) → times c s.accepted ≡ times c s.ended + times c (conns_of s.pending)

  closed-has_bytes :
      (w : W) (seg : Segment)
      → (seg.attached ≡ false) ⊎ (0 < (data_of seg).size)
      → ((Linux.close os w seg).1.attached ≡ false) ⊎ (0 < (data_of (Linux.close os w seg).1).size)
  closed-has_bytes w seg (inl gone) =
      inl (ap (λ r. r.1.attached) (close_detached-same os w seg gone) ∙ gone)
  closed-has_bytes w seg (inr h) = elim (close-data_of os w seg) [
    | inl gone ↦ inl gone
    | inr same ↦ inr (rw same h)
  ]

  destroyed-has_bytes :
      (w : W) (seg : Segment)
      → (seg.attached ≡ false) ⊎ (0 < (data_of seg).size)
      → ((Linux.destroy os w seg).1.attached ≡ false)
        ⊎ (0 < (data_of (Linux.destroy os w seg).1).size)
  destroyed-has_bytes w seg bytes = rw (destroy-close os w seg) (closed-has_bytes w seg bytes)

  Step-IsGood : {s t : Listening W} → Step os sockets conns s t → IsGood s → IsGood t
  unfolding set_state Life.close Life.destroy data_of
  Step-IsGood {s} (tests e) g = record {
    left = test-leaves s.server;
    shut = g.shut;
    has_bytes = g.has_bytes;
    counted = g.counted;
  }
  Step-IsGood {s} (accepts conn sent e o) g = record {
    left = inl (λ p. cc p);
    shut = g.shut;
    has_bytes = g.has_bytes;
    counted = λ c. let k = g.counted c in omega (arith, k);
  }
  Step-IsGood {s} (accept_fails e) g = record {
    left = error-leaves s.server;
    shut = g.shut;
    has_bytes = g.has_bytes;
    counted = g.counted;
  }
  Step-IsGood {s} (answers before after conn sent at run) g = record {
    left = g.left;
    shut = g.shut;
    has_bytes = g.has_bytes;
    counted = λ c.
        let k = g.counted c in
        let there = ap (λ hs. times c (conns_of hs)) at ∙ times-append c before after conn sent in
        omega (arith, k, there);
  }
  Step-IsGood {s} (sets state) g = record {
    left = g.left;
    shut = g.shut;
    has_bytes = g.has_bytes;
    counted = g.counted;
  }
  Step-IsGood {s} (stores m same) g = record {
    left = g.left;
    shut = g.shut;
    has_bytes = elim g.has_bytes [
      | inl e ↦ inl e
      | inr (inl gone) ↦ inr (inl gone)
      | inr (inr h) ↦ inr (inr (same_bytes s.server.seg m same h))
    ];
    counted = g.counted;
  }
  Step-IsGood {s} marks g = record {
    left = inr refl;
    shut = inr refl;
    has_bytes = g.has_bytes;
    counted = g.counted;
  }
  Step-IsGood {s} (closes e) g = record {
    left = inr refl;
    shut = inr refl;
    has_bytes = inl refl;
    counted = g.counted;
  }
  Step-IsGood {s} closes_segment g = record {
    left = g.left;
    shut = g.shut;
    has_bytes = elim g.has_bytes [
      | inl e ↦ inl e
      | inr bytes ↦ inr (closed-has_bytes s.world s.server.seg bytes)
    ];
    counted = g.counted;
  }
  Step-IsGood {s} destroys_segment g = record {
    left = g.left;
    shut = g.shut;
    has_bytes = elim g.has_bytes [
      | inl e ↦ inl e
      | inr bytes ↦ inr (destroyed-has_bytes s.world s.server.seg bytes)
    ];
    counted = g.counted;
  }
  Step-IsGood {s} (destroys e) g = record {
    left = inr refl;
    shut = inr refl;
    has_bytes = inl refl;
    counted = g.counted;
  }

  pub Reach-IsGood : {s₀ s : Listening W} → Reach os sockets conns s₀ s → IsGood s₀ → IsGood s
  Reach-IsGood start first = first
  Reach-IsGood (step r t) first = Step-IsGood t (Reach-IsGood r first)

  pub at_loop-IsGood :
      (w : W) (server : CacheServer) → 0 < (data_of server.seg).size → IsGood (at_loop w server)
  at_loop-IsGood w server h = record {
    left = inl (λ p. cc p);
    shut = inl refl;
    has_bytes = inr (inr h);
    counted = λ c. refl;
  }

  -- `Listen` comes to its loop over a segment with bytes. However its loop, the handlers, the stores
  -- of the loader, a `Close` or `Destroy` of the segment by the loader, and a `Close` or `Destroy` of
  -- the server interleave: each connection that was accepted waits for its handler or has been
  -- handled, exactly once; the loop ends only after `closed` was set; and until the listener is
  -- closed or the segment loses its bytes, a handler that reads all that its client sends, a finite
  -- list of bytes of whatever content, returns without a panic.
  pub serving_loop :
      (w : W) (server : CacheServer) (s : Listening W)
      → 0 < (data_of server.seg).size
      → Reach os sockets conns (at_loop w server) s
      → ((c : ℕ) → times c s.accepted ≡ times c s.ended + times c (conns_of s.pending))
        × ((s.place ≢ returned) ⊎ (s.server.closed ≡ true))
        × ((s.taking ≡ false)
            ⊎ (s.server.seg.attached ≡ false)
            ⊎ ((v : W) (conn : ℕ) (sent : List ℕ)
                → Returns (serve_conn conns v s.server conn sent) (λ w'. Unit {0})))
  serving_loop w server s h r =
      let good = Reach-IsGood r (at_loop-IsGood w server h) in
      (
        good.counted,
        good.left,
        elim good.has_bytes [
          | inl e ↦ inl e
          | inr (inl gone) ↦ inr (inl gone)
          | inr (inr bytes) ↦
              inr (
                inr (λ v conn sent. serve_conn-returns os sockets conns v s.server conn sent bytes))
        ],
      )
