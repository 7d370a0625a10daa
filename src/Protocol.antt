-- ===== src/Protocol.antt =====
-- pkg/featcache/protocol.go: the control-plane messages. A stream is the list of bytes that are
-- still to come before it ends; a writer is an interface, as io.Writer is in the code. A Go string
-- is its bytes.
pub mod Wire
pub mod RoundTrip
mod Examples
use featcache.Common.{
  ℕ, zero, suc, ◌+◌, ◌-◌, ◌*◌, ◌/◌, ◌%◌, ◌^◌, min, Bool, true, false, List, [], ◌∷◌, ◌++◌, Option,
  none, some, length, take, drop, replicate, get_or, leb, ltb, ◌==◌, if◌then◌else◌,
}

abbrev pub req_header_len : ℕ
req_header_len = 3

abbrev pub resp_header_len : ℕ
resp_header_len = 1 + 64 + 8 + 4 + 4 + 4 + 8 + 4

abbrev pub max_msg_len : ℕ
max_msg_len = 2 ^ 20

pub record Request : Type 0 where
  pub op : ℕ
  pub key : List ℕ

pub record Response : Type 0 where
  pub status : ℕ
  pub segment_name : List ℕ
  pub segment_size : ℕ
  pub hash_offset : ℕ
  pub hash_cap : ℕ
  pub data_offset : ℕ
  pub gen_counter : ℕ
  pub state : ℕ

-- `io.EOF` and `io.ErrUnexpectedEOF`, the errors of a writer, and those of the operating system by
-- their number.
pub data IoError : Type 0 where
  eof unexpected_eof write_error : IoError
  os_error : ℕ → IoError

pub data Result {ℓ} (A : Type ℓ) : Type ℓ where
  ok : A → Result A
  err : IoError → Result A

infixl 5 ◌>>=◌
abbrev pub ◌>>=◌ {ℓ κ} : {A : Type ℓ} {B : Type κ} → Result A → (A → Result B) → Result B
ok a >>= f = f a
err e >>= f = err e

-- io.Writer: the writer after the call, and its error.
pub record Writer (W : Type 0) : Type 0 where
  pub write : W → List ℕ → W × Option IoError

-- `binary.BigEndian`: the `n` low bytes of `v`, highest first, and back.
unfoldable pub to_be : ℕ → ℕ → List ℕ
to_be zero v = []
to_be (suc n) v = (v / 256 ^ n % 256) ∷ to_be n v

unfoldable pub from_be : List ℕ → ℕ
from_be [] = 0
from_be (b ∷ bs) = b * 256 ^ length bs + from_be bs

-- `io.ReadFull(r, buf)` with a buffer of `n` bytes.
unfoldable pub read_full : ℕ → List ℕ → Result (List ℕ × List ℕ)
read_full n stream =
    if leb n (length stream)
    then ok (take n stream, drop n stream)
    else (if length stream == 0 then err eof else err unexpected_eof)

module _ {W : Type 0} (writer : Writer W) where
  unfoldable pub encode_request : W → Request → W × Option IoError
  encode_request w req =
      let key_len = if ltb 65535 (length req.key) then 65535 else length req.key in
      let header = (req.op % 256) ∷ to_be 2 key_len in
      let (w₁, e₁) = writer.write w header in
      elim e₁ [
        | some e ↦ (w₁, some e)
        | none ↦ if ltb 0 key_len then writer.write w₁ (take key_len req.key) else (w₁, none)
      ]

unfoldable pub decode_request : List ℕ → Result (Request × List ℕ)
decode_request stream = do
  (header, rest) ← read_full req_header_len stream
  let key_len = from_be (take 2 (drop 1 header))
  if ltb max_msg_len key_len
      then err unexpected_eof
      else (if ltb 0 key_len
          then (do
            (key, rest') ← read_full key_len rest
            ok (record { op = get_or header 0 0; key = key }, rest'))
          else ok (record { op = get_or header 0 0; key = [] }, rest))

-- The header that `EncodeResponse` fills from offset 0 on, field by field; `make` zeroed it, so the
-- name is padded with zeros.
unfoldable pub response_bytes : Response → List ℕ
response_bytes resp =
    let name =
      if ltb 64 (length resp.segment_name) then take 64 resp.segment_name else resp.segment_name in
    (resp.status % 256)
    ∷ (name
        ++ (replicate (64 - length name) 0
            ++ (to_be 8 resp.segment_size
                ++ (to_be 4 resp.hash_offset
                    ++ (to_be 4 resp.hash_cap
                        ++ (to_be 4 resp.data_offset
                            ++ (to_be 8 resp.gen_counter ++ to_be 4 resp.state)))))))

module _ {W : Type 0} (writer : Writer W) where
  unfoldable pub encode_response : W → Response → W × Option IoError
  encode_response w resp = writer.write w (response_bytes resp)

-- The trimming loop of `DecodeResponse`, with the bytes below `i` still to look at. Where it finds
-- no other byte than zero it ends without a cut.
unfoldable pub trim_loop : List ℕ → ℕ → List ℕ
trim_loop name zero = name
trim_loop name (suc i) =
    let on = trim_loop name i in if get_or name i 0 == 0 then on else take (i + 1) name

unfoldable pub trim : List ℕ → List ℕ
trim name = trim_loop name (length name)

-- `header[off : off+n]`
unfoldable pub field : List ℕ → ℕ → ℕ → List ℕ
field header off n = take n (drop off header)

unfoldable pub parse_response : List ℕ → Response
parse_response header = record {
  status = get_or header 0 0;
  segment_name = trim (field header 1 64);
  segment_size = from_be (field header 65 8);
  hash_offset = from_be (field header 73 4);
  hash_cap = from_be (field header 77 4);
  data_offset = from_be (field header 81 4);
  gen_counter = from_be (field header 85 8);
  state = from_be (field header 93 4);
}

unfoldable pub decode_response : List ℕ → Result (Response × List ℕ)
decode_response stream = do
  (header, rest) ← read_full resp_header_len stream
  ok (parse_response header, rest)
