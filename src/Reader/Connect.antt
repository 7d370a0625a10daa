-- ===== src/Reader/Connect.antt =====
-- The control plane of pkg/featcache/reader.go: `NewReader`, `connect` and `Close`. The network is a
-- parameter, as the operating system is; a connection is a number, and what its peer sends is the
-- list of the bytes to come.
pub mod Session
pub mod Whole
mod Examples
use featcache.Common.{
  ℕ, true, false, Bool, not, ◌&&◌, List, [], ◌∷◌, Option, none, some, length, ◌==◌, if◌then◌else◌,
  Run, ok, panic, ◌>>=◌,
}
use featcache.Layout.{op_get_info, resp_ok, resp_busy}
use featcache.Protocol
use featcache.Protocol.{
  IoError, Request, Response, Result, Writer, err, encode_request, decode_response,
}
use featcache.Reader.{Reader, new_reader_from_segment}
use featcache.Segment.Linux
use featcache.Segment.Linux.{Os, open_segment}
use featcache.Segment.{Segment}
use featcache.Table.View.{equal_bytes}

-- `net.DialTimeout`, `Write`, the bytes that `Read` gets, and `Close`, whose error is dropped.
pub record Net (W : Type 0) : Type 0 where
  pub dial : W → List ℕ → W × Result ℕ
  pub send : W → ℕ → List ℕ → W × Option IoError
  pub received : W → ℕ → List ℕ
  pub hang_up : W → ℕ → W

-- What `NewReader` answers with.
pub data ConnectError : Type 0 where
  io_failed : IoError → ConnectError
  loader_busy : ℕ → ConnectError
  bad_status : ℕ → ConnectError
  name_mismatch : List ℕ → List ℕ → ConnectError
  empty_name : ConnectError

pub data Answer (A : Type 0) : Type 0 where
  refused : ConnectError → Answer A
  accepted : A → Answer A

-- A `Reader` with the fields of its control plane.
pub record Client : Type 0 where
  pub reader : Reader
  pub conn : Option ℕ
  pub closed : Bool

abbrev pub is_empty : List ℕ → Bool
is_empty [] = true
is_empty (b ∷ bs) = false

-- The check of the caller's name against the loader's, and the name to open.
unfoldable pub name_to_open : List ℕ → List ℕ → Answer (List ℕ)
name_to_open want reported =
    if not (is_empty want) && (not (is_empty reported) && not (equal_bytes want reported))
    then refused (name_mismatch want reported)
    else (let name = if is_empty reported then want else reported in
        if is_empty name then refused empty_name else accepted name)

-- The name of the segment, by the response.
unfoldable pub accept_response : List ℕ → Response → Answer (List ℕ)
accept_response want resp =
    if not (resp.status == resp_ok)
    then (if resp.status == resp_busy
        then refused (loader_busy resp.state)
        else refused (bad_status resp.status))
    else name_to_open want resp.segment_name

module _ {W : Type 0} (os : Os W) (net : Net W) where
  abbrev pub to_conn : ℕ → Writer W
  to_conn c = record { write = λ w bytes. net.send w c bytes }

  -- The request and the response on an open connection.
  unfoldable pub ask : W → ℕ → List ℕ → W × Answer (List ℕ)
  ask w c want =
      let (w₁, failed) = encode_request (to_conn c) w (record { op = op_get_info; key = [] }) in
      elim failed [
        | some e ↦ (w₁, refused (io_failed e))
        | none ↦ elim (decode_response (net.received w₁ c)) [
          | err e ↦ (w₁, refused (io_failed e))
          | Protocol.ok (resp, rest) ↦ (w₁, accept_response want resp)
        ]
      ]

  -- The segment of the discovered name; every error closes the connection.
  unfoldable pub connect : W → List ℕ → List ℕ → W × Answer (ℕ × Segment)
  connect w uds_addr want =
      let (w₁, dialled) = net.dial w uds_addr in
      elim dialled [
        | err e ↦ (w₁, refused (io_failed e))
        | Protocol.ok c ↦
            let (w₂, asked) = ask w₁ c want in
            elim asked [
              | refused e ↦ (net.hang_up w₂ c, refused e)
              | accepted name ↦
                  let (w₃, opened) = open_segment os w₂ name in
                  elim opened [
                    | err e ↦ (net.hang_up w₃ c, refused (io_failed e))
                    | Protocol.ok seg ↦ (w₃, accepted (c, seg))
                  ]
            ]
      ]

  -- `connect`, or `OpenSegment` where there is no address.
  unfoldable pub find_segment : W → List ℕ → List ℕ → W × Answer (Option ℕ × Segment)
  find_segment w segment_name uds_addr =
      let (w₁, connected) = connect w uds_addr segment_name in
      let (w₂, opened) = open_segment os w segment_name in
      elim (is_empty uds_addr) [
        | false ↦ elim connected [
          | refused e ↦ (w₁, refused e)
          | accepted (c, seg) ↦ (w₁, accepted (some c, seg))
        ]
        | true ↦ elim opened [
          | err e ↦ (w₂, refused (io_failed e))
          | Protocol.ok seg ↦ (w₂, accepted (none, seg))
        ]
      ]

  -- `pkg_seed` is the seed of the process.
  unfoldable pub new_reader : ℕ → W → List ℕ → List ℕ → Run (W × Answer Client)
  new_reader pkg_seed w segment_name uds_addr =
      let (w₁, found) = find_segment w segment_name uds_addr in
      elim found [
        | refused e ↦ ok (w₁, refused e)
        | accepted (conn, seg) ↦ do
          r ← new_reader_from_segment pkg_seed seg
          ok (w₁, accepted (record { reader = r; conn = conn; closed = false }))
      ]

  unfoldable pub new_reader_via_uds : ℕ → W → List ℕ → Run (W × Answer Client)
  new_reader_via_uds pkg_seed w uds_addr = new_reader pkg_seed w [] uds_addr

  abbrev hang_up_any : W → Option ℕ → W
  hang_up_any w none = w
  hang_up_any w (some c) = net.hang_up w c

  unfoldable pub close : W → Client → W × Client × Option IoError
  close w r =
      let (w₁, seg, failed) = Linux.close os (hang_up_any w r.conn) r.reader.segment in
      elim r.closed [
        | true ↦ (w, r, none)
        | false ↦
            (w₁, record r { closed = true; reader = record r.reader { segment = seg } }, failed)
      ]
