-- ===== src/Protocol/RoundTrip.antt =====
-- What one side encodes the other side decodes.
use featcache.Common.{
  ℕ, suc, ◌-◌, ◌%◌, ◌^◌, ◌≤◌, ◌<◌, ◌≡◌, ◌≢◌, refl, ap, ◌∙◌, sym, List, [], ◌∷◌, ◌++◌, length,
  append_assoc, append-nil, take_all, Bool-cases, inl, inr, false, length-append, length-replicate,
  take, drop, replicate, take_prefix, drop_prefix, arith, ltb, le→leb, le→ltb, ltb→lt, ltb→le, ◌==◌,
  if◌then◌else◌, none, length-take,
}
use featcache.Protocol.Wire.{
  length-to_be, from_be-to_be, trim_padded, trim_all_zero, drop-append_past,
}
use featcache.Protocol.{
  Request, Response, ok, err, eof, unexpected_eof, Writer, to_be, from_be, read_full,
  encode_request, decode_request, response_bytes, encode_response, trim, field, parse_response,
  decode_response, max_msg_len, resp_header_len,
}

-- A buffer that takes every write.
abbrev pub buffer : Writer (List ℕ)
buffer = record { write = λ w bs. (w ++ bs, none) }

pub read_full-append :
    (xs ys : List ℕ) (n : ℕ) → length xs ≡ n → read_full n (xs ++ ys) ≡ ok (xs, ys)
unfolding read_full
read_full-append xs ys n e = rw (
  ← e,
  le→leb (length xs) (length (xs ++ ys)) (omega (arith, length-append xs ys)),
  take_prefix,
  drop_prefix,
)

-- A stream that ends early is an error, and which one says whether anything was read.
pub read_full_short :
    (n : ℕ) (stream : List ℕ)
    → length stream < n
    → read_full n stream ≡ (if length stream == 0 then err eof else err unexpected_eof)
unfolding read_full
read_full_short n stream h = ground arith

-- The bytes of a response behind the name.
abbrev tail_bytes : Response → List ℕ
tail_bytes r =
    to_be 8 r.segment_size
    ++ (to_be 4 r.hash_offset
        ++ (to_be 4 r.hash_cap
            ++ (to_be 4 r.data_offset ++ (to_be 8 r.gen_counter ++ to_be 4 r.state))))

-- A name of at most 64 bytes, padded.
abbrev padded : List ℕ → List ℕ
padded name = name ++ replicate (64 - length name) 0

response_bytes_short :
    (r : Response)
    → length r.segment_name ≤ 64
    → response_bytes r ≡ (r.status % 256) ∷ (padded r.segment_name ++ tail_bytes r)
unfolding response_bytes
response_bytes_short r h = rw (
  le→ltb 64 (length r.segment_name) h,
  append_assoc r.segment_name (replicate (64 - length r.segment_name) 0) (tail_bytes r),
)

length-padded : (name : List ℕ) → length name ≤ 64 → length (padded name) ≡ 64
length-padded name h = omega (
  arith,
  length-append name (replicate (64 - length name) 0),
  length-replicate {A = ℕ} (64 - length name) 0,
)

-- The numbers behind the name, each at its offset.
module _ (r : Response) where
  tail_numbers :
      (from_be (take 8 (tail_bytes r)) ≡ r.segment_size % 2 ^ 64)
      × (from_be (take 4 (drop 8 (tail_bytes r))) ≡ r.hash_offset % 2 ^ 32)
      × (from_be (take 4 (drop 12 (tail_bytes r))) ≡ r.hash_cap % 2 ^ 32)
      × (from_be (take 4 (drop 16 (tail_bytes r))) ≡ r.data_offset % 2 ^ 32)
      × (from_be (take 8 (drop 20 (tail_bytes r))) ≡ r.gen_counter % 2 ^ 64)
      × (from_be (take 4 (drop 28 (tail_bytes r))) ≡ r.state % 2 ^ 32)
  unfolding to_be
  tail_numbers = (
    from_be-to_be 8 r.segment_size,
    from_be-to_be 4 r.hash_offset,
    from_be-to_be 4 r.hash_cap,
    from_be-to_be 4 r.data_offset,
    from_be-to_be 8 r.gen_counter,
    from_be-to_be 4 r.state,
  )

-- The fields of a message whose name part has 64 bytes.
module _ (s : ℕ) (name : List ℕ) (r : Response) (full : length name ≡ 64) where
  parse_parts : parse_response (s ∷ (name ++ tail_bytes r)) ≡ record {
    status = s;
    segment_name = trim name;
    segment_size = r.segment_size % 2 ^ 64;
    hash_offset = r.hash_offset % 2 ^ 32;
    hash_cap = r.hash_cap % 2 ^ 32;
    data_offset = r.data_offset % 2 ^ 32;
    gen_counter = r.gen_counter % 2 ^ 64;
    state = r.state % 2 ^ 32;
  }
  unfolding parse_response field
  parse_parts =
      let name_part : take 64 (name ++ tail_bytes r) ≡ name =
        rw full at (take_prefix name (tail_bytes r)) in
      let (size, off, cap, start, gen, state) = tail_numbers r in
      simp (
        name_part,
        drop-append_past name (tail_bytes r) 64 0 full,
        drop-append_past name (tail_bytes r) 64 8 full,
        drop-append_past name (tail_bytes r) 64 12 full,
        drop-append_past name (tail_bytes r) 64 16 full,
        drop-append_past name (tail_bytes r) 64 20 full,
        drop-append_past name (tail_bytes r) 64 28 full,
        size,
        off,
        cap,
        start,
        gen,
        state,
      )

-- Every number fits its field.
pub record IsResponse (r : Response) : Type 0 where
  pub status_fits : r.status < 256
  pub size_fits : r.segment_size < 2 ^ 64
  pub offset_fits : r.hash_offset < 2 ^ 32
  pub cap_fits : r.hash_cap < 2 ^ 32
  pub data_fits : r.data_offset < 2 ^ 32
  pub gen_fits : r.gen_counter < 2 ^ 64
  pub state_fits : r.state < 2 ^ 32

module _ (r : Response) (fits : IsResponse r) (short : length r.segment_name ≤ 64)
    (rest : List ℕ) where
  length-response_bytes : length (response_bytes r) ≡ resp_header_len
  length-response_bytes = rw (response_bytes_short r short) (
      unfold to_be in
      omega (
        arith,
        length-append (padded r.segment_name) (tail_bytes r),
        length-padded r.segment_name short,
      ))

  -- A response with a name of at most 64 bytes arrives as it was, but for the name, which is what
  -- the trimming makes of the padded name; the stream goes on behind it.
  decode_response-bytes :
      decode_response (response_bytes r ++ rest)
      ≡ ok (record r { segment_name = trim (padded r.segment_name) }, rest)
  unfolding decode_response
  decode_response-bytes =
      rw (read_full-append (response_bytes r) rest resp_header_len length-response_bytes) (
        rw
          (
            response_bytes_short r short,
            parse_parts (r.status % 256) (padded r.segment_name) r
                (length-padded r.segment_name short),
          )
          (ground (arith, fits)))

  -- A response whose fields fit their widths in the message and whose name is of 1 to 64 bytes and
  -- does not end in a zero byte comes back from the encoded bytes as it was, and the stream goes
  -- on behind it.
  pub decode_response-encode :
      (front : List ℕ) (b : ℕ)
      → r.segment_name ≡ front ++ (b ∷ [])
      → b ≢ 0
      → decode_response ((encode_response buffer [] r).0 ++ rest) ≡ ok (r, rest)
  unfolding encode_response
  decode_response-encode front b name ne =
      decode_response-bytes
      ∙ ap (λ n. ok (record r { segment_name = n }, rest))
          (rw (name, append_assoc front (b ∷ []) (replicate (64 - length (front ++ (b ∷ []))) 0))
            (trim_padded front b (64 - length (front ++ (b ∷ []))) ne))

  -- An empty name does not come back empty, in a response whose fields fit their widths: the
  -- trimming finds no byte to cut behind, and the reader gets 64 zero bytes.
  pub decode_response-empty_name :
      r.segment_name ≡ []
      → decode_response ((encode_response buffer [] r).0 ++ rest)
        ≡ ok (record r { segment_name = replicate 64 0 }, rest)
  unfolding encode_response
  decode_response-empty_name name =
      decode_response-bytes
      ∙ ap (λ n. ok (record r { segment_name = n }, rest)) (rw name (trim_all_zero 64))

-- What a request carries of its key.
abbrev pub sent_key : Request → List ℕ
sent_key req = take 65535 req.key

length-sent_key : (req : Request) → length (sent_key req) ≤ 65535
length-sent_key req = omega (arith, length-take 65535 req.key)

no_bytes : (key : List ℕ) → ltb 0 (length key) ≡ false → key ≡ []
no_bytes [] e = refl
no_bytes (b ∷ key) e = absurd (omega (arith, ltb→le 0 (length (b ∷ key)) e))

key_length : (key : List ℕ) → length key ≤ 65535 → from_be (to_be 2 (length key)) ≡ length key
key_length key h = omega (arith, from_be-to_be 2 (length key))

-- The header and the key, whether or not the key was cut.
request_bytes :
    (req : Request)
    → (encode_request buffer [] req).0
      ≡ (req.op % 256) ∷ (to_be 2 (length (sent_key req)) ++ sent_key req)
unfolding encode_request
request_bytes req = elim (Bool-cases (ltb 65535 (length req.key))) [
  | inl long ↦
      let cut : length (sent_key req) ≡ 65535 =
        omega (arith, length-take 65535 req.key, ltb→lt 65535 (length req.key) long) in
      rw (long, cut)
  | inr fits ↦
      let whole : sent_key req ≡ req.key =
        take_all 65535 req.key (ltb→le 65535 (length req.key) fits) in
      rw (fits, whole)
        (elim (Bool-cases (ltb 0 (length req.key))) [
          | inl some_key ↦ rw (some_key, take_all (length req.key) req.key (omega arith))
          | inr no_key ↦ rw no_key (
              ap (λ r. (req.op % 256) ∷ r)
                (sym (append-nil (to_be 2 (length req.key)))
                  ∙ ap (λ k. to_be 2 (length req.key) ++ k) (sym (no_bytes req.key no_key))))
        ])
]

decode_request-bytes :
    (op : ℕ) (key rest : List ℕ)
    → length key ≤ 65535
    → decode_request (op ∷ (to_be 2 (length key) ++ (key ++ rest)))
      ≡ ok (record { op = op; key = key }, rest)
unfolding decode_request
decode_request-bytes op key rest h =
    rw
      (
        read_full-append (op ∷ to_be 2 (length key)) (key ++ rest) 3
            (ap suc (length-to_be 2 (length key))),
        take_all 2 (to_be 2 (length key)) (omega (arith, length-to_be 2 (length key))),
        key_length key h,
        le→ltb max_msg_len (length key) (omega arith),
      )
      (elim (Bool-cases (ltb 0 (length key))) [
        | inl some_key ↦ rw (some_key, read_full-append key rest (length key) refl)
        | inr no_key ↦ rw (no_key, no_bytes key no_key)
      ])

-- A request whose opcode is a byte comes back from the encoded bytes with its key cut to 65535
-- bytes, and the stream goes on behind it.
pub decode_request-encode :
    (req : Request) (rest : List ℕ)
    → req.op < 256
    → decode_request ((encode_request buffer [] req).0 ++ rest)
      ≡ ok (record { op = req.op; key = sent_key req }, rest)
decode_request-encode req rest h =
    let small : req.op % 256 ≡ req.op = omega arith in
    ap (λ bytes. decode_request (bytes ++ rest)) (request_bytes req)
    ∙ rw (small, append_assoc (to_be 2 (length (sent_key req))) (sent_key req) rest)
        (decode_request-bytes req.op (sent_key req) rest (length-sent_key req))
