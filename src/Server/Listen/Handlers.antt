-- ===== src/Server/Listen/Handlers.antt =====
-- The handler of a connection: when it returns, and when it panics.
use featcache.Common.{
  ℕ, ◌<◌, ◌≡◌, refl, ◌⊎◌, inl, inr, false, List, none, ◌==◌, panic, Returns, Bool-cases, lt→ltb,
}
use featcache.Header.{header_of}
use featcache.Layout.{op_get_info, op_get_status}
use featcache.Protocol
use featcache.Protocol.{IoError, Request, decode_request, encode_response}
use featcache.Segment.Linux.Close.{close-detached}
use featcache.Segment.Linux.{Os}
use featcache.Segment.{data_of}
use featcache.Server.Life
use featcache.Server.Life.{Sockets}
use featcache.Server.Listen.{Conns, serve_conn}
use featcache.Server.{
  CacheServer, handle_conn, respond, handle_get_info, handle_get_status, segment_response,
}

respond_detached :
    (server : CacheServer) (op : ℕ)
    → server.seg.attached ≡ false
    → (op ≡ op_get_info) ⊎ (op ≡ op_get_status)
    → respond server op ≡ panic
unfolding respond handle_get_info handle_get_status segment_response header_of data_of
respond_detached server op gone (inl e) = rw (e, gone) refl
respond_detached server op gone (inr e) = rw (e, gone) refl

decoded :
    (r : Protocol.Result (Request × List ℕ))
    → ((e : IoError) × (r ≡ Protocol.err e))
      ⊎ ((req : Request) × (rest : List ℕ) × (r ≡ Protocol.ok (req, rest)))
decoded (Protocol.err e) = inl (e, refl)
decoded (Protocol.ok (req, rest)) = inr (req, rest, refl)

respond-returns :
    (server : CacheServer) (op : ℕ)
    → 0 < (data_of server.seg).size
    → Returns (respond server op) (λ resp. Unit {0})
unfolding respond handle_get_info handle_get_status segment_response header_of
respond-returns server op h = elim (Bool-cases (op == op_get_info)) [
  | inl e ↦ rw (e, lt→ltb 0 (data_of server.seg).size h) (_, refl, tt)
  | inr e ↦ elim (Bool-cases (op == op_get_status)) [
    | inl f ↦ rw (e, f, lt→ltb 0 (data_of server.seg).size h) (_, refl, tt)
    | inr f ↦ rw (e, f) (_, refl, tt)
  ]
]

module _ {W : Type 0} (os : Os W) (sockets : Sockets W) (conns : Conns W) where
  -- A handler does not panic over a segment with bytes.
  pub serve_conn-returns :
      (w : W) (server : CacheServer) (conn : ℕ) (sent : List ℕ)
      → 0 < (data_of server.seg).size
      → Returns (serve_conn conns w server conn sent) (λ w'. Unit {0})
  unfolding serve_conn handle_conn
  serve_conn-returns w server conn sent h = elim (decoded (decode_request sent)) [
    | inl (e, q) ↦ rw (q, serve_conn, handle_conn) (_, refl, tt)
    | inr (req, rest, q) ↦
        let (resp, run, _) = respond-returns server req.op h in
        rw (q, run, serve_conn, handle_conn) (_, refl, tt)
  ]

  -- A `Close` of the server that reports no error takes the bytes away: a handler whose connection
  -- was accepted before it, and that comes to answer a request for the info or the status after it,
  -- panics.
  pub close-serve_conn :
      (w v : W) (server : CacheServer) (conn : ℕ) (sent : List ℕ) (req : Request) (rest : List ℕ)
      → (Life.close os sockets w server).2 ≡ none
      → decode_request sent ≡ Protocol.ok (req, rest)
      → (req.op ≡ op_get_info) ⊎ (req.op ≡ op_get_status)
      → serve_conn conns v (Life.close os sockets w server).1 conn sent ≡ panic
  unfolding serve_conn handle_conn Life.close
  close-serve_conn w v server conn sent req rest fine decodes op =
      let gone = close-detached os _ server.seg fine in
      let panics = respond_detached (Life.close os sockets w server).1 req.op gone op in
      rw (decodes, panics, serve_conn, handle_conn) refl
