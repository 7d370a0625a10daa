-- ===== src/Server/Examples.antt =====
-- A session with a server over 64 bytes of zeros.
use featcache.Common.{◌<◌, ◌≡◌, refl, inl, [], ◌∷◌, none, true, false, arith, Returns}
use featcache.Layout.{op_get_info}
use featcache.Protocol
use featcache.Protocol.RoundTrip.{buffer, IsResponse}
use featcache.Protocol.{Request, encode_request, decode_response}
use featcache.Segment.{data_of}
use featcache.Server.Session.{info, session-info}
use featcache.Server.{CacheServer, handle_conn, state_ready, status_for_state}
use featcache.Memory.{load_le}

abbrev pub serving : CacheServer
serving = record {
  segment_name = b'e' ∷ b'm' ∷ [];
  segment_size = 64;
  uds_addr = 0 ∷ b'f' ∷ [];
  seg = record {
    name = b'e' ∷ b'm' ∷ [];
    bytes = record { size = 64; byte = λ j. 0 };
    attached = true;
    cap = 64;
    mapped = true;
    backed_by_file = false;
  };
  listener = none;
  closed = false;
  state = state_ready;
}

abbrev asking : Request
asking = record { op = op_get_info; key = [] }

pub serving-IsResponse : IsResponse (info serving)
unfolding data_of load_le status_for_state
serving-IsResponse = omega arith

pub serving_pos : 0 < (data_of serving.seg).size
unfolding data_of
serving_pos = omega arith

session-info_example :
    Returns
      (handle_conn buffer serving (encode_request buffer [] asking).0 [])
      (λ answer. decode_response answer ≡ Protocol.ok (info serving, []))
session-info_example =
    session-info serving asking (b'e' ∷ []) b'm' (inl refl) serving_pos serving-IsResponse refl
      (omega arith) (omega arith)
