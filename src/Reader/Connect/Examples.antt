-- ===== src/Reader/Connect/Examples.antt =====
-- A client of the server over 64 bytes, where the segment opens with the bytes of the loader's
-- example.
use featcache.Common.{
  ℕ, ◌≡◌, ◌≢◌, ◌⊎◌, inl, refl, false, List, [], ◌∷◌, none, some, map, length, arith, ok, Returns,
}
use featcache.Loader.Examples.{fresh, fresh-IsFresh}
use featcache.Loader.Load.Examples.{
  two_entries, two_keys, two_supplied, two-IsDistinct, two-IsSmall, two_opened, two_announced,
  two_room, two_loaded,
}
use featcache.Loader.Load.Supply.{wanted, last_value}
use featcache.Protocol
use featcache.Protocol.RoundTrip.{buffer}
use featcache.Protocol.{encode_request, decode_response, os_error}
use featcache.Reader.Connect.Session.{IsServed, asking, opened, connect-server}
use featcache.Reader.Connect.Whole.{new_reader-get_batch}
use featcache.Reader.Connect.{
  Net, Client, refused, accepted, loader_busy, name_mismatch, connect, new_reader,
}
use featcache.Reader.{get_batch, gen_counter}
use featcache.Segment.Linux.{Os, mapping, open_segment, map_opened}
use featcache.Segment.{Segment}
use featcache.Source.Map.{map_source, new_map_data_source}
use featcache.Server.Examples.{serving, serving_pos, serving-IsResponse}
use featcache.Server.Session.{info, session-info}
use featcache.Server.{handle_conn, state_loading, state_updating}

abbrev em : List ℕ
em = b'e' ∷ b'm' ∷ []

-- Every file is the loader's segment; the world counts nothing.
abbrev linked : Os ℕ
linked = record {
  create_file = λ w p. (w, Protocol.err (os_error 17));
  open_file = λ w p. (w, Protocol.ok 3);
  truncate = λ w fd n. (w, none);
  stat_size = λ w fd. (w, Protocol.ok 320);
  map_file = λ w fd n. (w, Protocol.ok (two_loaded.1).segment.bytes);
  unmap = λ w bytes. (w, none);
  close_file = λ w fd. w;
  remove = λ w p. (w, none);
  is_not_exist = λ e. false;
}

abbrev answered_by :
    Returns
      (handle_conn buffer serving (encode_request buffer [] asking).0 [])
      (λ answer. decode_response answer ≡ Protocol.ok (info serving, []))
answered_by =
    session-info serving asking (b'e' ∷ []) b'm' (inl refl) serving_pos serving-IsResponse refl
      (omega arith) (omega arith)

abbrev wired : Net ℕ
wired = record {
  dial = λ w uds_addr. (w, Protocol.ok 5);
  send = λ w c bytes. (w, none);
  received = λ w c. answered_by.0;
  hang_up = λ w c. w;
}

served :
    IsServed linked wired serving
      (b'e' ∷ [])
      b'm'
      serving_pos
      serving-IsResponse
      refl
      (omega arith)
      (omega arith)
      0
      5
unfolding encode_request
served = record { sent = refl; answered = answered_by.1 }

abbrev other : List ℕ
other = b'x' ∷ []

-- A caller that names another segment.
connect-server_example :
    (((serving.state ≡ state_loading) ⊎ (serving.state ≡ state_updating))
      × (connect linked wired 0 (0 ∷ []) other ≡ (0, refused (loader_busy serving.state))))
    ⊎ ((serving.state ≢ state_loading)
        × (serving.state ≢ state_updating)
        × (other ≢ [])
        × (other ≢ em)
        × (connect linked wired 0 (0 ∷ []) other ≡ (0, refused (name_mismatch other em))))
    ⊎ ((serving.state ≢ state_loading)
        × (serving.state ≢ state_updating)
        × ((other ≡ []) ⊎ (other ≡ em))
        × (connect linked wired 0 (0 ∷ []) other
            ≡ opened linked wired serving
                (b'e' ∷ [])
                b'm'
                serving_pos
                serving-IsResponse
                refl
                (omega arith)
                (omega arith)
                5
                (open_segment linked 0 em)))
unfolding encode_request
connect-server_example =
    connect-server linked wired serving (b'e' ∷ []) b'm' serving_pos serving-IsResponse refl
      (omega arith) (omega arith) 0 (0 ∷ []) other 5 refl served

abbrev opened_em : Segment
opened_em = mapping em (two_loaded.1).segment.bytes 320

opens_em : (open_segment linked 0 em).1 ≡ Protocol.ok opened_em
unfolding open_segment map_opened
opens_em = refl

new_reader-get_batch_example : Returns (new_reader linked wired 9 0 [] (0 ∷ [])) (λ r.
    (client : Client) × (r.1 ≡ accepted client)
    × (client.conn ≡ some 5)
    × ((keys : List (List ℕ))
        → get_batch client.reader keys ≡ ok (map (last_value (wanted two_entries)) keys))
    × (gen_counter client.reader ≡ ok 1))
unfolding encode_request
new_reader-get_batch_example =
    new_reader-get_batch linked wired serving (b'e' ∷ []) b'm' serving_pos serving-IsResponse refl
      (omega arith) (omega arith) map_source 3 7 5 two_entries
      (new_map_data_source two_entries two_keys) (new_map_data_source two_entries two_keys)
      (record (new_map_data_source two_entries two_keys) { idx = 2 }) (fresh 320) 2
      (fresh-IsFresh 320 (omega arith)) two_opened (omega arith) two_announced two_supplied
      (omega arith) two-IsDistinct two-IsSmall (omega arith) (omega arith) two_room two_loaded.0
      two_loaded.1 (length (wanted two_entries)) two_loaded.3 0 (0 ∷ []) [] 5 opened_em 9
      (ground arith) refl served (omega arith) (omega arith) (inl refl) opens_em refl refl
