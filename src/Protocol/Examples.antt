-- ===== src/Protocol/Examples.antt =====
-- The codec at concrete messages.
use featcache.Common.{◌≡◌, refl, [], ◌∷◌, ◌++◌, replicate, arith}
use featcache.Protocol.RoundTrip.{
  buffer, IsResponse, sent_key, decode_response-encode, decode_response-empty_name,
  decode_request-encode,
}
use featcache.Protocol.{
  Response, ok, err, unexpected_eof, to_be, from_be, read_full, encode_request, decode_request,
  response_bytes, encode_response, trim_loop, trim, field, parse_response, decode_response,
}

abbrev ready : Response
ready = record {
  status = 0;
  segment_name = b'e' ∷ b'm' ∷ b'b' ∷ [];
  segment_size = 0x1_0000_0000;
  hash_offset = 64;
  hash_cap = 1024;
  data_offset = 24640;
  gen_counter = 1;
  state = 2;
}

abbrev nameless : Response
nameless = record ready { segment_name = [] }

ready_round_trip : decode_response (response_bytes ready ++ (9 ∷ [])) ≡ ok (ready, 9 ∷ [])
unfolding decode_response response_bytes to_be from_be read_full parse_response field trim trim_loop
ready_round_trip = refl

request_cut_off : decode_request (1 ∷ 0 ∷ 4 ∷ 7 ∷ []) ≡ err unexpected_eof
unfolding decode_request read_full from_be
request_cut_off = refl

ready-IsResponse : IsResponse ready
ready-IsResponse = omega arith

decode_response-encode_example :
    decode_response ((encode_response buffer [] ready).0 ++ (9 ∷ [])) ≡ ok (ready, 9 ∷ [])
decode_response-encode_example =
    decode_response-encode ready ready-IsResponse (omega arith) (9 ∷ []) (b'e' ∷ b'm' ∷ []) b'b'
      refl (omega arith)

decode_response-empty_name_example :
    decode_response ((encode_response buffer [] nameless).0 ++ [])
    ≡ ok (record nameless { segment_name = replicate 64 0 }, [])
decode_response-empty_name_example =
    decode_response-empty_name nameless (omega arith) (omega arith) [] refl

decode_request-encode_example :
    decode_request ((encode_request buffer [] (record { op = 1; key = 5 ∷ 6 ∷ [] })).0 ++ (9 ∷ []))
    ≡ ok (record { op = 1; key = sent_key (record { op = 1; key = 5 ∷ 6 ∷ [] }) }, 9 ∷ [])
decode_request-encode_example =
    decode_request-encode (record { op = 1; key = 5 ∷ 6 ∷ [] }) (9 ∷ []) (omega arith)
