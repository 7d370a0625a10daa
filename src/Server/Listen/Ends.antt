-- ===== src/Server/Listen/Ends.antt =====
-- The end of the loop of `Listen`.
use featcache.Common.{◌<◌, ◌≡◌, refl, ◌⊎◌, inl, inr, true, false}
use featcache.Segment.Linux.{Os}
use featcache.Segment.{data_of}
use featcache.Server.Life.{Sockets}
use featcache.Server.Listen.{
  Place, checking, accepting, returned, Conns, Listening, loop_test, accept_error, at_loop, Step,
  tests, accepts, accept_fails, answers, sets, stores, marks, closes, closes_segment,
  destroys_segment, destroys, Reach,
}
use featcache.Server.{CacheServer}
use featcache.Server.Listen.Laws.{Reach-IsGood, at_loop-IsGood}

places : (p : Place) → (p ≡ checking) ⊎ (p ≡ accepting) ⊎ (p ≡ returned)
places checking = inl refl
places accepting = inr (inl refl)
places returned = inr (inr refl)

module _ {W : Type 0} (os : Os W) (sockets : Sockets W) (conns : Conns W) where
  -- The loop's own next step, once `closed` is set and the listener closed.
  ending-Step :
      (s : Listening W)
      → s.server.closed ≡ true
      → (s.place ≡ returned)
        ⊎ ((t : Listening W) × (Step os sockets conns s t) × (t.place ≡ returned))
  unfolding loop_test accept_error
  ending-Step s closed = elim (places s.place) [
    | inl e ↦ inr (_, tests e, rw closed refl)
    | inr (inl e) ↦ inr (_, accept_fails e, rw closed refl)
    | inr (inr e) ↦ inl e
  ]

  Step-place :
      {s t : Listening W}
      → Step os sockets conns s t
      → s.taking ≡ false
      → s.server.closed ≡ true
      → (t.place ≡ s.place) ⊎ (t.place ≡ returned)
  unfolding loop_test accept_error
  Step-place (tests e) shut closed = inr (rw closed refl)
  Step-place (accepts conn sent e o) shut closed = absurd (cc (shut, o))
  Step-place (accept_fails e) shut closed = inr (rw closed refl)
  Step-place (answers before after conn sent e run) shut closed = inl refl
  Step-place (sets state) shut closed = inl refl
  Step-place (stores m same) shut closed = inl refl
  Step-place marks shut closed = inl refl
  Step-place (closes e) shut closed = inl refl
  Step-place closes_segment shut closed = inl refl
  Step-place destroys_segment shut closed = inl refl
  Step-place (destroys e) shut closed = inl refl

  -- `Listen` comes to its loop over a segment with bytes. Once `Close` or `Destroy` has closed the
  -- listener, `Listen` is at its end, or some step ends it; and every step leaves the loop where it is
  -- or ends it: it neither accepts a connection nor goes round again.
  pub loop_ends :
      (w : W) (server : CacheServer) (s t : Listening W)
      → 0 < (data_of server.seg).size
      → Reach os sockets conns (at_loop w server) s
      → s.taking ≡ false
      → Step os sockets conns s t
      → ((s.place ≡ returned)
          ⊎ ((u : Listening W) × (Step os sockets conns s u) × (u.place ≡ returned)))
        × ((t.place ≡ s.place) ⊎ (t.place ≡ returned))
  loop_ends w server s t h r shut next =
      elim (Reach-IsGood os sockets conns r (at_loop-IsGood os sockets conns w server h)).shut [
        | inl e ↦ absurd (cc (shut, e))
        | inr closed ↦ (ending-Step s closed, Step-place next shut closed)
      ]
