-- ===== src/Table/Probe.antt =====
-- Linear probing apart from bytes: a walk over slots by a successor function. `Get`, `Insert` and
-- `Delete` are all searches of this form, with different kinds of slots.
use featcache.Common.{ℕ, zero, suc, ◌≡◌, ◌≢◌, refl, sym, ap, ◌∙◌, ◌<◌, Option, none, some, arith}

-- What a probe does at a slot.
pub data Kind : Type 0 where
  stop hit skip : Kind

pub Kind-cases {ℓ} : {A : Type ℓ} (k : Kind) → (k ≡ stop → A) → (k ≡ hit → A) → (k ≡ skip → A) → A
Kind-cases stop s h k = s refl
Kind-cases hit s h k = h refl
Kind-cases skip s h k = k refl

module _ (next : ℕ → ℕ) where
  -- The first hit before a stop, within so many rounds.
  unfoldable pub search : (ℕ → Kind) → ℕ → ℕ → Option ℕ
  search kind zero i = none
  search kind (suc rounds) i =
      let rest = search kind rounds (next i) in
      elim (kind i) [ stop ↦ none | hit ↦ some i | skip ↦ rest ]

  -- `j` is `n` steps after `i`, and `P` holds at each slot before it.
  abbrev pub Trail : (ℕ → Type 0) → ℕ → ℕ → ℕ → Type 0
  Trail P zero i j = i ≡ j
  Trail P (suc n) i j = P i × Trail P n (next i) j

  pub Trail-map :
      {P Q : ℕ → Type 0} → ((i : ℕ) → P i → Q i) → (n i j : ℕ) → Trail P n i j → Trail Q n i j
  Trail-map f zero i j t = t
  Trail-map f (suc n) i j t = (f i t.0, Trail-map f n (next i) j t.1)

  pub Trail-map_below :
      (cap : ℕ)
      → ((i : ℕ) → next i < cap)
      → {P Q : ℕ → Type 0} → ((i : ℕ) → i < cap → P i → Q i)
      → (n i j : ℕ) → i < cap
      → Trail P n i j
      → Trail Q n i j
  Trail-map_below cap lt f zero i j h t = t
  Trail-map_below cap lt f (suc n) i j h t =
      (f i h t.0, Trail-map_below cap lt f n (next i) j (lt i) t.1)

  module _ (kind : ℕ → Kind) (rounds i : ℕ) where
    pub search-eq_hit : kind i ≡ hit → search kind (suc rounds) i ≡ some i
    unfolding search
    search-eq_hit e = rw (e, search)

    pub search-eq_stop : kind i ≡ stop → search kind (suc rounds) i ≡ none
    unfolding search
    search-eq_stop e = rw (e, search)

    pub search-eq_skip : kind i ≡ skip → search kind (suc rounds) i ≡ search kind rounds (next i)
    unfolding search
    search-eq_skip e = rw (e, search)

  module _ (cap : ℕ) (next-lt : (i : ℕ) → next i < cap) (kind : ℕ → Kind) where
    -- A hit that is the only one is found, if nothing before it stops the probe.
    pub search_finds :
        (j n rounds i : ℕ)
        → ((k : ℕ) → k < cap → kind k ≡ hit → k ≡ j)
        → kind j ≡ hit
        → Trail (λ k. kind k ≢ stop) n i j
        → i < cap
        → n < rounds
        → search kind rounds i ≡ some j
    search_finds j n zero i only h t lt r = absurd (omega arith)
    search_finds j zero (suc rounds) i only h t lt r =
        search-eq_hit kind rounds i (rw t h) ∙ ap some t
    search_finds j (suc n) (suc rounds) i only h t lt r =
        Kind-cases (kind i) (λ s. absurd (t.0 s))
          (λ e. search-eq_hit kind rounds i e ∙ ap some (only i lt e))
          (λ s.
            search-eq_skip kind rounds i s
            ∙ search_finds j n rounds (next i) only h t.1 (next-lt i) (omega arith))

    -- What is found is a hit, and every slot before it was skipped.
    pub search-hit :
        (rounds i j : ℕ)
        → search kind rounds i ≡ some j
        → i < cap
        → (kind j ≡ hit) × (j < cap) × (n : ℕ) × (n < rounds) × Trail (λ k. kind k ≡ skip) n i j
    search-hit zero i j e lt = unfold search in cc
    search-hit (suc rounds) i j e lt =
        Kind-cases (kind i) (λ s. cc (search-eq_stop kind rounds i s))
          (λ h.
            let same : i ≡ j = cc (search-eq_hit kind rounds i h) in
            (rw (← same) h, rw (← same) lt, 0, omega arith, same))
          (λ s.
            let (h, lt', n, r, t) =
              search-hit rounds (next i) j (sym (search-eq_skip kind rounds i s) ∙ e) (next-lt i) in
            (h, lt', suc n, omega arith, (s, t)))

    pub search_misses :
        (rounds i : ℕ) → ((k : ℕ) → k < cap → kind k ≢ hit) → i < cap → search kind rounds i ≡ none
    search_misses zero i never lt = unfold search in refl
    search_misses (suc rounds) i never lt =
        Kind-cases (kind i) (search-eq_stop kind rounds i) (λ h. absurd (never i lt h))
          (λ s. search-eq_skip kind rounds i s ∙ search_misses rounds (next i) never (next-lt i))

    -- Where nothing stops the probe and a hit lies within reach, it finds one.
    pub search_total :
        (rounds i : ℕ) (j n : ℕ)
        → ((k : ℕ) → kind k ≢ stop)
        → kind j ≡ hit
        → Trail (λ k. Unit {0}) n i j
        → n < rounds
        → (k : ℕ) × (search kind rounds i ≡ some k)
    search_total zero i j n free h t r = absurd (omega arith)
    search_total (suc rounds) i j zero free h t r = (i, search-eq_hit kind rounds i (rw t h))
    search_total (suc rounds) i j (suc n) free h t r =
        Kind-cases (kind i) (λ s. absurd (free i s)) (λ e. (i, search-eq_hit kind rounds i e))
          (λ s.
            let (k, e) = search_total rounds (next i) j n free h t.1 (omega arith) in
            (k, search-eq_skip kind rounds i s ∙ e))
