-- ===== src/Reader/Connect/Whole.antt =====
-- From the loader to a client of its server, through the shared bytes.
use featcache.Common.{
  ℕ, ◌+◌, ◌*◌, ◌^◌, ◌<◌, ◌≤◌, ◌≡◌, ◌≢◌, ◌⊎◌, inl, inr, refl, ap, ◌∙◌, true, false, List, [], ◌∷◌,
  ◌++◌, map, length, none, some, ok, Returns,
}
use featcache.Loader.Load.Supply.{wanted, last_value, IsDistinct, IsSmall, data_size}
use featcache.Loader.Load.Whole.{IsFresh, closed}
use featcache.Loader.Load.{load}
use featcache.Loader.{Loader}
use featcache.Protocol
use featcache.Protocol.RoundTrip.{IsResponse}
use featcache.Protocol.{encode_request}
use featcache.Reader.Loaded.{opens_after}
use featcache.Reader.Connect.Session.{IsServed, asking, connect-server}
use featcache.Reader.Connect.{Net, Client, accepted, to_conn, connect, find_segment, new_reader}
use featcache.Reader.{get_batch, gen_counter}
use featcache.Segment.Linux.{Os, open_segment}
use featcache.Segment.{Segment, data_of}
use featcache.Server.Session.{info}
use featcache.Server.{CacheServer, state_loading, state_updating}
use featcache.Source.Supply.{Entry, Supplies}
use featcache.Source.{DataSource}

module _ {W : Type 0} (os : Os W) (net : Net W) where
  find_segment-connect :
      (w : W) (want uds_addr : List ℕ) (c : ℕ) (seg : Segment)
      → uds_addr ≢ []
      → (connect os net w uds_addr want).1 ≡ accepted (c, seg)
      → (find_segment os net w want uds_addr).1 ≡ accepted (some c, seg)
  unfolding find_segment
  find_segment-connect w want [] c seg ne e = absurd (ne refl)
  find_segment-connect w want (b ∷ bs) c seg ne e = rw (e, find_segment) refl

  module _ (s : CacheServer) (front : List ℕ) (b : ℕ) (reachable : 0 < (data_of s.seg).size)
      (fits : IsResponse (info s)) (named : s.segment_name ≡ front ++ (b ∷ [])) (ne : b ≢ 0)
      (short : length s.segment_name ≤ 64) where
    connect-opened :
        (w : W) (uds_addr want : List ℕ) (c : ℕ) (seg : Segment)
        → (net.dial w uds_addr).1 ≡ Protocol.ok c
        → IsServed os net s front b reachable fits named ne short (net.dial w uds_addr).0 c
        → s.state ≢ state_loading
        → s.state ≢ state_updating
        → (want ≡ []) ⊎ (want ≡ s.segment_name)
        → (open_segment os
            (encode_request (to_conn os net c) (net.dial w uds_addr).0 asking).0
            s.segment_name).1
          ≡ Protocol.ok seg
        → (connect os net w uds_addr want).1 ≡ accepted (c, seg)
    connect-opened w uds_addr want c seg d served loading updating same found =
        elim (connect-server os net s front b reachable fits named ne short w uds_addr want c d
          served) [
            | inl (inl h, e) ↦ absurd (loading h)
            | inl (inr h, e) ↦ absurd (updating h)
            | inr (inl (_, _, some_name, other, _)) ↦
                absurd (elim same [ inl h ↦ some_name h | inr h ↦ other h ])
            | inr (inr (_, _, _, e)) ↦ ap (λ r. r.1) e ∙ rw found refl
          ]

    module _ {S : Type 0} (ds : DataSource S) (load_seed seed fuel : ℕ) (es : List Entry)
        (src src₁ src₂ : S) (l : Loader) (total : ℕ) (fresh : IsFresh l)
        (announcing : ds.open_source src ≡ (src₁, Protocol.ok total)) (few : total ≤ 2 ^ 26)
        (announced : length (wanted es) ≤ total) (supplied : Supplies ds src₁ es src₂)
        (enough : length es < fuel) (distinct : IsDistinct (wanted es))
        (small : IsSmall (wanted es)) (positive : 0 < seed) (seed_fits : seed < 2 ^ 64)
        (room : data_size (wanted es) + 96 * total + 96 ≤ l.segment.bytes.size) where
      -- The first `Load` of a fresh loader over at most 2 GiB leaves the loader `l'`, from a
      -- source that announces at least as many entries as are wanted of it, up to 2^26, and
      -- supplies finitely many, fewer than the fuel, where no wanted key occurs twice, every chunk
      -- is below 2 GiB, and the chunks of the wanted entries and 96 bytes for each announced entry
      -- and once more fit the segment, with a seed that is not 0 and has 64 bits. A server's
      -- segment has bytes, its name is of 1 to 64 bytes and does not end in a zero byte, and the
      -- fields of its answer fit their widths in the message; it is neither loading nor updating.
      -- A client dials it, sends its request, and gets what this server answers; it names no
      -- segment or the server's, and the segment of that name opens with the bytes that the `Load`
      -- left. Then `NewReader` returns a client on this connection, which sees generation 1, and
      -- whose `GetBatch` answers for every list of keys, in order, the values of the wanted
      -- entries and a miss for every other key.
      pub new_reader-get_batch :
          (src' : S) (l' : Loader) (count : ℕ)
          → load ds load_seed seed fuel src l ≡ closed ds load_seed seed fuel none count src' l'
          → (w : W) (uds_addr want : List ℕ) (c : ℕ) (seg : Segment) (pkg_seed : ℕ) → uds_addr ≢ []
          → (net.dial w uds_addr).1 ≡ Protocol.ok c
          → IsServed os net s front b reachable fits named ne short (net.dial w uds_addr).0 c
          → s.state ≢ state_loading
          → s.state ≢ state_updating
          → (want ≡ []) ⊎ (want ≡ s.segment_name)
          → (open_segment os
              (encode_request (to_conn os net c) (net.dial w uds_addr).0 asking).0
              s.segment_name).1
            ≡ Protocol.ok seg
          → seg.attached ≡ true
          → seg.bytes ≡ l'.segment.bytes
          → Returns (new_reader os net pkg_seed w want uds_addr) (λ r.
            (client : Client) × (r.1 ≡ accepted client)
            × (client.conn ≡ some c)
            × ((keys : List (List ℕ))
                → get_batch client.reader keys ≡ ok (map (last_value (wanted es)) keys))
            × (gen_counter client.reader ≡ ok 1))
      unfolding new_reader
      new_reader-get_batch src' l' count run w uds_addr want c seg pkg_seed addr d served loading
            updating same found attached shared =
          let found' =
            find_segment-connect w want uds_addr c seg addr
              (connect-opened w uds_addr want c seg d served loading updating same found) in
          let (r, opens, (reads, gen)) =
            opens_after ds load_seed seed fuel es src src₁ src₂ l total fresh announcing few
              announced supplied enough distinct small positive seed_fits room src' l' count run seg
              attached shared pkg_seed in
          (
            (
              (find_segment os net w want uds_addr).0,
              accepted (record { reader = r; conn = some c; closed = false }),
            ),
            rw (found', opens, new_reader) refl,
            (record { reader = r; conn = some c; closed = false }, refl, refl, reads, gen),
          )
