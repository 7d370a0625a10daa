-- ===== src/Reader/Connect/Session.antt =====
-- A reader that connects to the loader's server.
use featcache.Common.{
  ℕ, ◌<◌, ◌≤◌, ◌≡◌, ◌≢◌, ◌⊎◌, inl, inr, refl, ap, sym, ◌∙◌, List, [], ◌∷◌, ◌++◌, length, none,
  arith, ok, ok_injective,
}
use featcache.Layout.{op_get_info}
use featcache.Protocol
use featcache.Protocol.{
  Request, Response, Result, err, encode_request, encode_response, decode_request, decode_response,
}
use featcache.Protocol.RoundTrip.{buffer, IsResponse}
use featcache.Reader.Connect.{
  Net, ConnectError, name_mismatch, loader_busy, io_failed, Answer, refused, accepted, name_to_open,
  accept_response, to_conn, ask, connect,
}
use featcache.Segment.Linux.{Os, open_segment}
use featcache.Segment.Linux.Close.{flag}
use featcache.Segment.{Segment, data_of}
use featcache.Server.Session.{info, session-info, status_for_state-cases}
use featcache.Server.{CacheServer, handle_conn, state_loading, state_updating}
use featcache.Table.Refine.{equal_bytes_iff}
use featcache.Table.View.{equal_bytes}

abbrev pub asking : Request
asking = record { op = op_get_info; key = [] }

-- Where the loader reports a name, it is the one to open, unless the caller gave another.
name_to_open-cases :
    (want reported : List ℕ)
    → reported ≢ []
    → ((want ≢ [])
        × (want ≢ reported)
        × (name_to_open want reported ≡ refused (name_mismatch want reported)))
      ⊎ (((want ≡ []) ⊎ (want ≡ reported)) × (name_to_open want reported ≡ accepted reported))
unfolding name_to_open
name_to_open-cases want [] ne = absurd (ne refl)
name_to_open-cases [] (r ∷ rs) ne = inr (inl refl, refl)
name_to_open-cases (x ∷ xs) (r ∷ rs) ne = elim (flag (equal_bytes (x ∷ xs) (r ∷ rs))) [
  | inl e ↦ inr (inr ((equal_bytes_iff (x ∷ xs) (r ∷ rs)).0 e), rw e refl)
  | inr e ↦ inl (
    (λ p. absurd (cc)),
    (λ p. absurd (cc ((equal_bytes_iff (x ∷ xs) (r ∷ rs)).1 p, e))),
    rw e refl,
  )
]

accept_response-info :
    (s : CacheServer) (want : List ℕ)
    → (((s.state ≡ state_loading) ⊎ (s.state ≡ state_updating))
        × (accept_response want (info s) ≡ refused (loader_busy s.state)))
      ⊎ ((s.state ≢ state_loading)
          × (s.state ≢ state_updating)
          × (accept_response want (info s) ≡ name_to_open want s.segment_name))
unfolding accept_response
accept_response-info s want = elim (status_for_state-cases s.state) [
  | inl (busy, h) ↦ inl (h, rw busy refl)
  | inr (fine, loading, updating) ↦ inr (loading, updating, rw fine refl)
]

append_one : (front : List ℕ) (b : ℕ) → front ++ (b ∷ []) ≢ []
append_one [] b = ground arith
append_one (x ∷ front) b = ground arith

module _ {W : Type 0} (os : Os W) (net : Net W) (s : CacheServer) (front : List ℕ) (b : ℕ)
    (reachable : 0 < (data_of s.seg).size) (fits : IsResponse (info s))
    (named : s.segment_name ≡ front ++ (b ∷ [])) (ne : b ≢ 0)
    (short : length s.segment_name ≤ 64) where
  -- The connection `c` stands in a world where the request was sent and the server has answered.
  pub record IsServed (w : W) (c : ℕ) : Type 0 where
    pub sent : (encode_request (to_conn os net c) w asking).1 ≡ none
    pub answered :
        handle_conn buffer s (encode_request buffer [] asking).0 []
        ≡ ok (net.received (encode_request (to_conn os net c) w asking).0 c)

  ask-info :
      (w : W) (c : ℕ) (want : List ℕ)
      → IsServed w c
      → ask os net w c want
        ≡ ((encode_request (to_conn os net c) w asking).0, accept_response want (info s))
  unfolding ask
  ask-info w c want served =
      let (answer, run, decoded) =
        session-info s asking front b (inl refl) reachable fits named ne short in
      let heard : decode_response (net.received (encode_request (to_conn os net c) w asking).0 c)
          ≡ Protocol.ok (info s, []) =
        ap decode_response (ok_injective (sym served.answered ∙ run)) ∙ decoded in
      rw (served.sent, heard, ask) refl

  -- What `connect` makes of the outcome of `OpenSegment`.
  abbrev pub opened : ℕ → W × Result Segment → W × Answer (ℕ × Segment)
  opened c r = elim r.1 [
    | err e ↦ (net.hang_up r.0 c, refused (io_failed e))
    | Protocol.ok seg ↦ (r.0, accepted (c, seg))
  ]

  connect-ask :
      (w : W) (uds_addr want name : List ℕ) (c : ℕ)
      → (net.dial w uds_addr).1 ≡ Protocol.ok c
      → (ask os net (net.dial w uds_addr).0 c want).1 ≡ accepted name
      → connect os net w uds_addr want
        ≡ opened c (open_segment os (ask os net (net.dial w uds_addr).0 c want).0 name)
  unfolding connect
  connect-ask w uds_addr want name c d a = rw (d, a, connect) refl

  connect_refused :
      (w : W) (uds_addr want : List ℕ) (c : ℕ) (e : ConnectError)
      → (net.dial w uds_addr).1 ≡ Protocol.ok c
      → (ask os net (net.dial w uds_addr).0 c want).1 ≡ refused e
      → connect os net w uds_addr want
        ≡ (net.hang_up (ask os net (net.dial w uds_addr).0 c want).0 c, refused e)
  unfolding connect
  connect_refused w uds_addr want c e d a = rw (d, a, connect) refl

  -- A server's segment has bytes, its name is of 1 to 64 bytes and does not end in a zero byte, and
  -- the fields of its answer fit their widths in the message. A reader connects to this server: the
  -- dialling succeeds, the request is sent, and what comes back is what the server answers. While the
  -- server is loading or updating, the reader is refused as busy with this state, and hangs up.
  -- Otherwise, where the caller named another segment than the server's, it is refused with both
  -- names, and hangs up; where the caller named none or the same, the segment of the server's name is
  -- opened, and an error of that is passed on after hanging up.
  pub connect-server :
      (w : W) (uds_addr want : List ℕ) (c : ℕ)
      → (net.dial w uds_addr).1 ≡ Protocol.ok c
      → IsServed (net.dial w uds_addr).0 c
      → let asked = (encode_request (to_conn os net c) (net.dial w uds_addr).0 asking).0 in
        (((s.state ≡ state_loading) ⊎ (s.state ≡ state_updating))
          × (connect os net w uds_addr want ≡ (net.hang_up asked c, refused (loader_busy s.state))))
        ⊎ ((s.state ≢ state_loading)
            × (s.state ≢ state_updating)
            × (want ≢ [])
            × (want ≢ s.segment_name)
            × (connect os net w uds_addr want
                ≡ (net.hang_up asked c, refused (name_mismatch want s.segment_name))))
        ⊎ ((s.state ≢ state_loading)
            × (s.state ≢ state_updating)
            × ((want ≡ []) ⊎ (want ≡ s.segment_name))
            × (connect os net w uds_addr want ≡ opened c (open_segment os asked s.segment_name)))
  connect-server w uds_addr want c d served =
      let w₁ = (net.dial w uds_addr).0 in
      let heard = ask-info w₁ c want served in
      let world = ap (λ r. r.0) heard in
      let said = ap (λ r. r.1) heard in
      elim (accept_response-info s want) [
        | inl (busy, e) ↦ inl (
          busy,
          connect_refused w uds_addr want c (loader_busy s.state) d (said ∙ e)
              ∙ ap (λ w'. (net.hang_up w' c, refused (loader_busy s.state))) world,
        )
        | inr (loading, updating, e) ↦
            elim (name_to_open-cases want s.segment_name
              (λ p. append_one front b (sym named ∙ p))) [
                | inl (some_name, other, n) ↦ inr (
                    inl (
                      loading,
                      updating,
                      some_name,
                      other,
                      connect_refused w uds_addr want c (name_mismatch want s.segment_name) d
                            (said ∙ e ∙ n)
                          ∙ ap
                              (λ w'.
                                (net.hang_up w' c, refused (name_mismatch want s.segment_name)))
                              world,
                    ))
                | inr (same, n) ↦ inr (
                    inr (
                      loading,
                      updating,
                      same,
                      connect-ask w uds_addr want s.segment_name c d (said ∙ e ∙ n)
                          ∙ ap (λ w'. opened c (open_segment os w' s.segment_name)) world,
                    ))
              ]
      ]
