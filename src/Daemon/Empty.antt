-- ===== src/Daemon/Empty.antt =====
-- The daemon without a source.
use featcache.Common.{
  ℕ, ◌≤◌, ◌<◌, ◌^◌, ◌≡◌, ◌∙◌, ◌⊎◌, inl, inr, refl, true, List, [], Option, none, some, arith, ok,
  Returns,
}
use featcache.Daemon.{init_failed, serving, uds_address, serve, fill, start}
use featcache.Layout.{align}
use featcache.Loader.Init.{init-refines, data_start}
use featcache.Loader.Life.{new_loader}
use featcache.Loader.{Loader, LoaderConfig, LoadError, segment_too_small, init}
use featcache.Protocol
use featcache.Reader.Agree.{new_reader-lookup}
use featcache.Reader.{new_reader_from_segment, get}
use featcache.Segment.Linux.{Os}
use featcache.Segment.{borrow}
use featcache.Server.{CacheServer, new_server, set_state, state_ready}
use featcache.Source.Line.{Scanning}

one_slot_start : data_start (2 ^ 0) ≡ 88
unfolding align
one_slot_start = refl

le_first :
    (l : Loader) (log : ℕ) → l.segment.cap ≤ data_start (2 ^ log) → log ≡ 0 → l.segment.cap ≤ 88
le_first l log h e = rw (← one_slot_start) (rw e at h)

module _ {C W : Type 0} (scanning : Scanning C) (pkg_seed seed fuel : ℕ) (os : Os W) where
  start-fill :
      (w : W) (config : LoaderConfig) (source_path uds_path : List ℕ) (l : Loader)
      → (new_loader os w config).1 ≡ Protocol.ok l
      → (start scanning pkg_seed seed fuel os w config source_path uds_path).1
        ≡ fill scanning pkg_seed seed fuel source_path (uds_address uds_path) l
  unfolding start
  start-fill w config source_path uds_path l e = rw (e, start) refl

  fill_empty :
      (uds_addr : List ℕ) (l l' : Loader) (e : Option LoadError)
      → init l 0 seed ≡ ok (e, l')
      → fill scanning pkg_seed seed fuel [] uds_addr l
        ≡ ok (some (elim e [ none ↦ serve uds_addr l' | some err ↦ init_failed err ]))
  unfolding fill
  fill_empty uds_addr l l' e run = rw run refl

  -- The daemon without a source, once it has a mapped segment of at most 2 GiB: either the segment
  -- has at most 88 bytes, and it ends with the error of `Init`; or it comes to listen with the state
  -- ready, at the address that its flag stands for, over the loader's own segment, where every
  -- reader opens and every lookup misses.
  pub start-ready :
      (w : W) (config : LoaderConfig) (uds_path : List ℕ) (l : Loader)
      → (new_loader os w config).1 ≡ Protocol.ok l
      → l.segment.attached ≡ true
      → l.segment.cap ≡ l.segment.bytes.size
      → l.segment.bytes.size ≤ 2 ^ 31
      → 0 < seed
      → seed < 2 ^ 64
      → (((start scanning pkg_seed seed fuel os w config [] uds_path).1
            ≡ ok (some (init_failed segment_too_small)))
          × (l.segment.cap ≤ 88))
        ⊎ ((l' : Loader) × (s : CacheServer) × ((start scanning pkg_seed seed fuel os w config []
                uds_path).1
              ≡ ok (some (serving l' s)))
            × (s.state ≡ state_ready)
            × (s.uds_addr ≡ uds_address uds_path)
            × (s.seg ≡ l'.segment)
            × ((reader_seed : ℕ)
                → Returns
                    (new_reader_from_segment reader_seed s.seg)
                    (λ r. (k : List ℕ) → get r k ≡ ok none)))
  unfolding serve new_server set_state borrow
  start-ready w config uds_path l made attached whole bounded seed_pos seed_lt =
      let (log, _, _, least, outcome) =
        init-refines l attached whole bounded seed seed_pos seed_lt 0 (omega arith) in
      let one_slot : log ≡ 0 = omega (arith, least 0 (omega arith)) in
      let filled = start-fill w config [] uds_path l made in
      elim outcome [
        | inl (run, full) ↦ inl (
          filled ∙ fill_empty (uds_address uds_path) l l (some segment_too_small) run,
          le_first l log full one_slot,
        )
        | inr (l', run, ready, empty, _, _, _, _) ↦ inr (
          record l' { segment = borrow l'.segment },
          (set_state (new_server l'.segment (uds_address uds_path)).0 state_ready),
          filled ∙ fill_empty (uds_address uds_path) l l' none run,
          refl,
          refl,
          refl,
          (λ reader_seed.
              let (r, opens, reads) =
                new_reader-lookup ready (borrow l'.segment) ready.attached refl reader_seed in
              (r, opens, (λ k. reads k ∙ empty k))),
        )
      ]
