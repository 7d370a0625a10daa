-- ===== src/Header/Laws.antt =====
-- What `Init` writes into the header, read back through the overlay.
use featcache.Common.{
  ℕ, ◌+◌, ◌%◌, ◌^◌, ◌<◌, ◌≡◌, ◌∙◌, refl, inl, inr, zero, suc, List, [], ◌∷◌, take, get_elem?, some,
  subst, arith, ok, lt→ltb,
}
use featcache.Header.{overlay, header_of, write_header}
use featcache.Layout.{magic, version, header_size}
use featcache.Memory.Words.{
  Differs, Differs-refl, Differs-trans, Differs-wider, store_le-Differs, load_le-Differs,
  slice-Differs, load-store_le,
}
use featcache.Memory.{Memory, load_le, store_le, slice}

pub header_of-overlay : (m : Memory) → 0 < m.size → header_of m ≡ ok (overlay m)
unfolding header_of
header_of-overlay m h = rw (lt→ltb 0 m.size h) refl

-- Fields, each a width and a value, stored one behind the other.
lay : ℕ → List (ℕ × ℕ) → Memory → Memory
lay o [] m = m
lay o ((w, v) ∷ fields) m = lay (o + w) fields (store_le w m o v)

abbrev width : List (ℕ × ℕ) → ℕ
width [] = 0
width ((w, v) ∷ fields) = w + width fields

lay-Differs :
    (o : ℕ) (fields : List (ℕ × ℕ)) (m : Memory) → Differs o (o + width fields) m (lay o fields m)
unfolding lay
lay-Differs o [] m = Differs-refl
lay-Differs o ((w, v) ∷ fields) m =
    Differs-trans (Differs-wider (omega arith) (omega arith) (store_le-Differs w m o v))
      (Differs-wider (omega arith) (omega arith) (lay-Differs (o + w) fields (store_le w m o v)))

first_field :
    (o : ℕ) (fields : List (ℕ × ℕ)) (w v : ℕ) (m : Memory)
    → load_le w (lay o ((w, v) ∷ fields) m) (o + 0) ≡ v % 256 ^ w
unfolding lay
first_field o fields w v m =
    let here : o + 0 ≡ o = omega arith in
    rw here (
      load_le-Differs w o (lay-Differs (o + w) fields (store_le w m o v)) (inl (omega arith))
      ∙ load-store_le w m o v)

-- Each field reads as its value, cut to its width.
load-lay :
    (o : ℕ) (fields : List (ℕ × ℕ)) (i w v : ℕ) (m : Memory)
    → get_elem? fields i ≡ some (w, v)
    → load_le w (lay o fields m) (o + width (take i fields)) ≡ v % 256 ^ w
unfolding lay
load-lay o [] i w v m e = cc
load-lay o ((w', v') ∷ fields) zero w v m e =
    let same_width : w' ≡ w = ground arith in
    let same_value : v' ≡ v = ground arith in
    rw (same_width, same_value) (first_field o fields w v m)
load-lay o ((w', v') ∷ fields) (suc i) w v m e =
    subst (λ p. load_le w (lay (o + w') fields (store_le w' m o v')) p ≡ v % 256 ^ w) (omega arith)
      (load-lay (o + w') fields i w v (store_le w' m o v') e)

module _ (m : Memory) (seg_size hash_cap data_offset : ℕ) where
  abbrev fields : List (ℕ × ℕ)
  fields =
      (4, magic)
      ∷ (4, version)
      ∷ (8, seg_size)
      ∷ (8, 0)
      ∷ (4, hash_cap)
      ∷ (4, header_size)
      ∷ (4, data_offset)
      ∷ (4, data_offset)
      ∷ (4, 0)
      ∷ (4, 0)
      ∷ []

  write_header-lay : write_header m seg_size hash_cap data_offset ≡ lay 0 fields m
  unfolding write_header lay
  write_header-lay = refl

  pub write_header-Differs : Differs 0 48 m (write_header m seg_size hash_cap data_offset)
  write_header-Differs = rw write_header-lay (lay-Differs 0 fields m)

  -- What the ten assignments of `Init` write is what the overlay shows, field by field, and the
  -- reserved bytes stay, where the three numbers fit their fields.
  pub overlay-write_header :
      seg_size < 2 ^ 64
      → hash_cap < 2 ^ 32
      → data_offset < 2 ^ 32
      → overlay (write_header m seg_size hash_cap data_offset) ≡ record {
        magic_field = magic;
        version_field = version;
        size = seg_size;
        gen_counter = 0;
        hash_cap = hash_cap;
        hash_offset = header_size;
        data_offset = data_offset;
        data_end = data_offset;
        segment_id = 0;
        flags = 0;
        reserved = slice 16 m 48;
      }
  unfolding overlay
  overlay-write_header a b c =
      let size_fits : seg_size % 256 ^ 8 ≡ seg_size = omega arith in
      let cap_fits : hash_cap % 256 ^ 4 ≡ hash_cap = omega arith in
      let offset_fits : data_offset % 256 ^ 4 ≡ data_offset = omega arith in
      rw write_header-lay (λ i. record {
        magic_field = load-lay 0 fields 0 4 magic m refl i;
        version_field = load-lay 0 fields 1 4 version m refl i;
        size = (load-lay 0 fields 2 8 seg_size m refl ∙ size_fits) i;
        gen_counter = load-lay 0 fields 3 8 0 m refl i;
        hash_cap = (load-lay 0 fields 4 4 hash_cap m refl ∙ cap_fits) i;
        hash_offset = load-lay 0 fields 5 4 header_size m refl i;
        data_offset = (load-lay 0 fields 6 4 data_offset m refl ∙ offset_fits) i;
        data_end = (load-lay 0 fields 7 4 data_offset m refl ∙ offset_fits) i;
        segment_id = load-lay 0 fields 8 4 0 m refl i;
        flags = load-lay 0 fields 9 4 0 m refl i;
        reserved = slice-Differs 16 48 (lay-Differs 0 fields m) (inr (omega arith)) i;
      })
