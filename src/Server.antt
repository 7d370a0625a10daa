-- ===== src/Server.antt =====
-- pkg/featcache/server.go: the answers of the control plane. A connection is the bytes that the
-- client sends, and a writer for the answer.
pub mod Session
pub mod Life
pub mod Listen
pub mod Examples
use featcache.Common.{
  ℕ, Bool, true, false, ◌||◌, List, [], Option, none, some, ◌==◌, if◌then◌else◌, Run, ok, panic,
  ◌>>=◌,
}
use featcache.Header.{header_of}
use featcache.Layout.{op_get_info, op_get_status, resp_ok, resp_busy, resp_error}
use featcache.Protocol.{
  Request, Response, Result, ok, err, Writer, IoError, decode_request, encode_response,
}
use featcache.Protocol
use featcache.Segment.{Segment, data_of, borrow}

-- An atomic.Int32 may hold other numbers: `SetState` takes any.
abbrev pub state_idle : ℕ
state_idle = 0

abbrev pub state_loading : ℕ
state_loading = 1

abbrev pub state_ready : ℕ
state_ready = 2

abbrev pub state_updating : ℕ
state_updating = 3

-- The state is an int32, kept as its bit pattern below 2^32.
pub record CacheServer : Type 0 where
  pub segment_name : List ℕ
  pub segment_size : ℕ
  pub uds_addr : List ℕ
  pub seg : Segment
  pub listener : Option ℕ
  pub closed : Bool
  pub state : ℕ

-- The segment is shared with the caller, who sees that it is borrowed now.
unfoldable pub new_server : Segment → List ℕ → CacheServer × Segment
new_server seg uds_addr = (
  record {
    segment_name = seg.name;
    segment_size = seg.cap;
    uds_addr = uds_addr;
    seg = borrow seg;
    listener = none;
    closed = false;
    state = state_idle;
  },
  borrow seg,
)

unfoldable pub set_state : CacheServer → ℕ → CacheServer
set_state s state = record s { state = state }

unfoldable pub status_for_state : ℕ → ℕ
status_for_state state =
    if state == state_loading || state == state_updating then resp_busy else resp_ok

-- The response of an op that is not known; the other fields are zero.
unfoldable pub error_response : Response
error_response = record {
  status = resp_error;
  segment_name = [];
  segment_size = 0;
  hash_offset = 0;
  hash_cap = 0;
  data_offset = 0;
  gen_counter = 0;
  state = 0;
}

unfoldable pub segment_response : CacheServer → Run Response
segment_response s = do
  hdr ← header_of (data_of s.seg)
  ok (record {
    status = 0;
    segment_name = s.segment_name;
    segment_size = hdr.size;
    hash_offset = hdr.hash_offset;
    hash_cap = hdr.hash_cap;
    data_offset = hdr.data_offset;
    gen_counter = hdr.gen_counter;
    state = s.state;
  })

unfoldable pub handle_get_info : CacheServer → Run Response
handle_get_info s = do
  resp ← segment_response s
  ok (record resp { status = status_for_state s.state })

unfoldable pub handle_get_status : CacheServer → Run Response
handle_get_status s = handle_get_info s

-- The switch on the op.
unfoldable pub respond : CacheServer → ℕ → Run Response
respond s op =
    if op == op_get_info
    then handle_get_info s
    else (if op == op_get_status then handle_get_status s else ok error_response)

-- One connection: what the client sent, and the writer after the answer. The error of the writer
-- is dropped.
module _ {W : Type 0} (writer : Writer W) where
  unfoldable pub handle_conn : CacheServer → List ℕ → W → Run W
  handle_conn s sent w = elim (decode_request sent) [
    | err e ↦ ok w
    | ok (req, rest) ↦ do resp ← respond s req.op; ok (encode_response writer w resp).0
  ]
