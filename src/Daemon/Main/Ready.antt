-- ===== src/Daemon/Main/Ready.antt =====
-- The program without a source, up to the loop of `Listen`.
use featcache.Common.{
  ℕ, ◌≤◌, ◌<◌, ◌^◌, ◌≡◌, ◌∙◌, refl, ap, ◌⊎◌, inl, inr, true, false, List, [], none, some, ok,
  Returns,
}
use featcache.Daemon.Empty.{start-ready}
use featcache.Daemon.Main.{Flags, config_of, stopped, listen_failed, listening, listen, main}
use featcache.Daemon.{Started, init_failed, serving, uds_address, start}
use featcache.Loader.Life.{new_loader}
use featcache.Loader.{Loader, segment_too_small}
use featcache.Protocol
use featcache.Protocol.{IoError}
use featcache.Reader.{new_reader_from_segment, get}
use featcache.Segment.Linux.{Os}
use featcache.Server.Life.{Sockets, start_listening, clear_address}
use featcache.Server.{CacheServer, state_ready}
use featcache.Source.Line.{Scanning}

bound :
    (r : Protocol.Result ℕ)
    → ((e : IoError) × (r ≡ Protocol.err e)) ⊎ ((ln : ℕ) × (r ≡ Protocol.ok ln))
bound (Protocol.err e) = inl (e, refl)
bound (Protocol.ok ln) = inr (ln, refl)

-- `Listen` fails to bind, or keeps the listener.
start_listening-cases :
    {W : Type 0} (os : Os W) (sockets : Sockets W) (w : W) (s : CacheServer)
    → ((e : IoError) × ((start_listening os sockets w s).1 ≡ s)
        × ((start_listening os sockets w s).2 ≡ some e))
      ⊎ ((ln : ℕ) × ((start_listening os sockets w s).1 ≡ record s { listener = some ln })
          × ((start_listening os sockets w s).2 ≡ none))
unfolding start_listening
start_listening-cases os sockets w s =
    elim (bound (sockets.listen_unix (clear_address os sockets w s) s.uds_addr).1) [
      | inl (e, q) ↦ inl (e, rw (q, start_listening) refl, rw (q, start_listening) refl)
      | inr (ln, q) ↦ inr (ln, rw (q, start_listening) refl, rw (q, start_listening) refl)
    ]

module _ {C W : Type 0} (scanning : Scanning C) (pkg_seed seed fuel : ℕ) (os : Os W)
    (sockets : Sockets W) (w : W) (flags : Flags) (run_it : flags.version ≡ false) where
  -- The world after the segment was made or opened.
  abbrev pub after_start : W
  after_start = (start scanning pkg_seed seed fuel os w (config_of flags) flags.source flags.uds).0

  main-started :
      (started : Started)
      → (start scanning pkg_seed seed fuel os w (config_of flags) flags.source flags.uds).1
        ≡ ok (some started)
      → main scanning pkg_seed seed fuel os sockets w flags
        ≡ ok (some (listen os sockets after_start started))
  unfolding main
  main-started started run = rw (run_it, run, main) refl

  -- `Listen` could not bind its socket, or it did.
  abbrev pub Listens : Loader → CacheServer → Type 0
  Listens l s =
      (w' : W) × (((e : IoError) × (main scanning pkg_seed seed fuel os sockets w flags
            ≡ ok (some (w', listen_failed e))))
        ⊎ ((s' : CacheServer) × (main scanning pkg_seed seed fuel os sockets w flags
              ≡ ok (some (w', listening l s')))
            × (s'.seg ≡ s.seg)
            × (s'.state ≡ s.state)
            × (s'.uds_addr ≡ s.uds_addr)))

  serving-Listens :
      (l : Loader) (s : CacheServer)
      → (start scanning pkg_seed seed fuel os w (config_of flags) flags.source flags.uds).1
        ≡ ok (some (serving l s))
      → Listens l s
  unfolding listen
  serving-Listens l s run =
      let begun = main-started (serving l s) run in
      elim (start_listening-cases os sockets after_start s) [
        | inl (e, same, failed) ↦ (
          (start_listening os sockets after_start s).0,
          inl (e, begun ∙ rw (failed, listen) refl),
        )
        | inr (ln, kept, bound_well) ↦ (
          (start_listening os sockets after_start s).0,
          inr (
            record s { listener = some ln },
            begun ∙ rw (bound_well, kept, listen) refl,
            refl,
            refl,
            refl,
          ),
        )
      ]

  -- The program without a source or the version flag, once it has a mapped segment of at most 2 GiB:
  -- either the segment has at most 88 bytes, and it ends with the error of `Init`; or it comes to
  -- `Listen`, over the loader's own segment, at the address that its flag stands for, with the state
  -- ready, where every reader opens and every lookup misses. `Listen` then ends it with the error of
  -- the socket, or comes to its loop with this segment, state and address.
  pub main-ready :
      (l : Loader)
      → flags.source ≡ []
      → (new_loader os w (config_of flags)).1 ≡ Protocol.ok l
      → l.segment.attached ≡ true
      → l.segment.cap ≡ l.segment.bytes.size
      → l.segment.bytes.size ≤ 2 ^ 31
      → 0 < seed
      → seed < 2 ^ 64
      → ((main scanning pkg_seed seed fuel os sockets w flags
            ≡ ok (some (after_start, stopped (init_failed segment_too_small))))
          × (l.segment.cap ≤ 88))
        ⊎ ((l' : Loader) × (s : CacheServer) × Listens l' s
            × (s.state ≡ state_ready)
            × (s.uds_addr ≡ uds_address flags.uds)
            × (s.seg ≡ l'.segment)
            × ((reader_seed : ℕ)
                → Returns
                    (new_reader_from_segment reader_seed s.seg)
                    (λ r. (k : List ℕ) → get r k ≡ ok none)))
  unfolding listen
  main-ready l no_source made attached whole bounded pos lt =
      let at_source =
        ap (λ path. (start scanning pkg_seed seed fuel os w (config_of flags) path flags.uds).1)
          no_source in
      elim (start-ready scanning pkg_seed seed fuel os w (config_of flags) flags.uds l made attached
        whole bounded pos lt) [
          | inl (stops, full) ↦
              inl (main-started (init_failed segment_too_small) (at_source ∙ stops), full)
          | inr (l', s, serves, ready, address, shared, reads) ↦
              inr (l', s, serving-Listens l' s (at_source ∙ serves), ready, address, shared, reads)
        ]
