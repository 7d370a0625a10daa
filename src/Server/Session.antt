-- ===== src/Server/Session.antt =====
-- A whole session: what a client gets back from its request.
use featcache.Common.{
  ℕ, ◌<◌, ◌≤◌, ◌≡◌, ◌≢◌, ◌⊎◌, inl, inr, refl, ap, sym, ◌∙◌, List, [], ◌∷◌, ◌++◌, length, lt→ltb,
  arith, ok, Run, ◌>>=◌, Returns, append-nil,
}
use featcache.Header.{overlay, header_of}
use featcache.Memory.{load_le}
use featcache.Protocol.{
  Request, Response, decode_request, encode_request, encode_response, decode_response,
}
use featcache.Protocol
use featcache.Protocol.RoundTrip.{
  buffer, IsResponse, sent_key, decode_request-encode, decode_response-encode,
}
use featcache.Segment.{data_of}
use featcache.Layout.{op_get_info, op_get_status, resp_ok, resp_busy}
use featcache.Server.{
  CacheServer, status_for_state, handle_get_info, handle_get_status, segment_response,
  error_response, respond, handle_conn, state_loading, state_updating,
}

-- What the header of the segment says, and the state of the server.
abbrev pub info : CacheServer → Response
info s =
    let m = data_of s.seg in
    record {
      status = status_for_state s.state;
      segment_name = s.segment_name;
      segment_size = load_le 8 m 8;
      hash_offset = load_le 4 m 28;
      hash_cap = load_le 4 m 24;
      data_offset = load_le 4 m 32;
      gen_counter = load_le 8 m 16;
      state = s.state;
    }

handle_get_info-info :
    (s : CacheServer) → 0 < (data_of s.seg).size → handle_get_info s ≡ ok (info s)
unfolding handle_get_info segment_response header_of overlay
handle_get_info-info s h = rw (lt→ltb 0 (data_of s.seg).size h) refl

-- The status is busy just while the loader loads or updates.
pub status_for_state-cases :
    (state : ℕ)
    → ((status_for_state state ≡ resp_busy) × ((state ≡ state_loading) ⊎ (state ≡ state_updating)))
      ⊎ ((status_for_state state ≡ resp_ok) × (state ≢ state_loading) × (state ≢ state_updating))
unfolding status_for_state
status_for_state-cases state = ground arith

respond-info :
    (s : CacheServer) (op : ℕ)
    → 0 < (data_of s.seg).size
    → (op ≡ op_get_info) ⊎ (op ≡ op_get_status)
    → respond s op ≡ ok (info s)
unfolding respond handle_get_status
respond-info s op h (inl e) = rw e (handle_get_info-info s h)
respond-info s op h (inr e) = rw e (handle_get_info-info s h)

respond_other :
    (s : CacheServer) (op : ℕ)
    → op ≢ op_get_info
    → op ≢ op_get_status
    → respond s op ≡ ok error_response
unfolding respond
respond_other s op a b = ground arith

abbrev answer_to : CacheServer → Protocol.Result (Request × List ℕ) → Run (List ℕ)
answer_to s (Protocol.err e) = ok []
answer_to s (Protocol.ok (req, rest)) = do
  resp ← respond s req.op
  ok (encode_response buffer [] resp).0

handle_conn-answer :
    (s : CacheServer) (sent : List ℕ) (req : Request) (rest : List ℕ) (resp : Response)
    → decode_request sent ≡ Protocol.ok (req, rest)
    → respond s req.op ≡ ok resp
    → handle_conn buffer s sent [] ≡ ok (encode_response buffer [] resp).0
unfolding handle_conn
handle_conn-answer s sent req rest resp a b =
    ap (answer_to s) a ∙ ap (λ r. r >>= (λ resp'. ok (encode_response buffer [] resp').0)) b

-- A server's segment has bytes, its name is of 1 to 64 bytes and does not end in a zero byte, and
-- the fields of its answer fit their widths in the message. A client that sends it a request for the
-- info or the status, with any key, and decodes the answer, gets the header of the segment with the
-- name and the state of the server.
pub session-info :
    (s : CacheServer) (req : Request) (front : List ℕ) (b : ℕ)
    → (req.op ≡ op_get_info) ⊎ (req.op ≡ op_get_status)
    → 0 < (data_of s.seg).size
    → IsResponse (info s)
    → s.segment_name ≡ front ++ (b ∷ [])
    → b ≢ 0
    → length s.segment_name ≤ 64
    → Returns
        (handle_conn buffer s (encode_request buffer [] req).0 [])
        (λ answer. decode_response answer ≡ Protocol.ok (info s, []))
session-info s req front b op h fits name ne short =
    let sent = (encode_request buffer [] req).0 in
    let answer = (encode_response buffer [] (info s)).0 in
    (
      answer,
      handle_conn-answer s sent (record { op = req.op; key = sent_key req }) [] (info s)
          (ap decode_request (sym (append-nil sent)) ∙ decode_request-encode req [] (omega arith))
          (respond-info s req.op h op),
      ap decode_response (sym (append-nil answer))
          ∙ decode_response-encode (info s) fits short [] front b name ne,
    )
