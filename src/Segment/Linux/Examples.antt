-- ===== src/Segment/Linux/Examples.antt =====
-- A file system that is the set of its names.
use featcache.Common.{
  ℕ, ◌≡◌, ◌≢◌, refl, Bool, true, false, List, [], ◌∷◌, none, some, if◌then◌else◌, ◌==◌, inl, inr,
  ◌⊎◌,
}
use featcache.Protocol.{IoError, os_error, ok, err}
use featcache.Segment.{Segment}
use featcache.Segment.Linux.{
  Os, dev_shm_path, mapping, create_segment, open_segment, create_or_open, close, unmap_segment,
  removal, destroy,
}
use featcache.Segment.Linux.Close.{flag, close_twice, destroy-Sets}
use featcache.Segment.Linux.Files.{
  IsRemovable, IsCreated, IsOpened, create_segment-IsCreated, create_or_open-existing,
}
use featcache.Segment.Linux.Posix.{Sets, IsPosix}
use featcache.Table.Refine.{equal_bytes_iff}
use featcache.Table.View.{equal_bytes}

abbrev pub Names : Type 0
Names = List ℕ → Bool

abbrev set_name : Names → List ℕ → Bool → Names
set_name w p b = λ q. if equal_bytes q p then b else w q

abbrev no_file : IoError → Bool
no_file (os_error n) = n == 2
no_file e = false

abbrev pub toy : Os Names
toy = record {
  create_file = λ w p. if w p then (w, err (os_error 17)) else (set_name w p true, ok 3);
  open_file = λ w p. if w p then (w, ok 3) else (w, err (os_error 2));
  truncate = λ w fd n. (w, none);
  stat_size = λ w fd. (w, ok 128);
  map_file = λ w fd n. (w, ok (record { size = n; byte = λ j. 0 }));
  unmap = λ w bytes. (w, none);
  close_file = λ w fd. w;
  remove = λ w p. if w p then (set_name w p false, none) else (w, some (os_error 2));
  is_not_exist = no_file;
}

set_name-Sets : (w : Names) (p : List ℕ) (b : Bool) → Sets w (set_name w p b) p b
set_name-Sets w p b = (
  rw ((equal_bytes_iff p p).1 refl) refl,
  (λ q ne. elim (flag (equal_bytes q p)) [
    | inl e ↦ absurd (ne ((equal_bytes_iff q p).0 e))
    | inr e ↦ rw e refl
  ]),
)

toy_made :
    (w : Names) (p : List ℕ) (fd : ℕ)
    → (toy.create_file w p).1 ≡ ok fd
    → (w p ≡ false) × Sets w (toy.create_file w p).0 p true
toy_made w p fd = elim (flag (w p)) [
  | inl h ↦ rw h (λ e. absurd (cc))
  | inr h ↦ rw h (λ e. (refl, set_name-Sets w p true))
]

toy_refused :
    (w : Names) (p : List ℕ) (e : IoError)
    → (toy.create_file w p).1 ≡ err e
    → (toy.create_file w p).0 ≡ w
toy_refused w p e = elim (flag (w p)) [ inl h ↦ rw h (λ f. refl) | inr h ↦ rw h (λ f. absurd (cc)) ]

toy_opened : (w : Names) (p : List ℕ) → (toy.open_file w p).0 ≡ w
toy_opened w p = elim (flag (w p)) [ inl h ↦ rw h refl | inr h ↦ rw h refl ]

toy_removed :
    (w : Names) (p : List ℕ) → (toy.remove w p).1 ≡ none → Sets w (toy.remove w p).0 p false
toy_removed w p = elim (flag (w p)) [
  | inl h ↦ rw h (λ f. set_name-Sets w p false)
  | inr h ↦ rw h (λ f. absurd (cc))
]

toy_not_removed :
    (w : Names) (p : List ℕ) (e : IoError)
    → (toy.remove w p).1 ≡ some e
    → ((toy.remove w p).0 ≡ w) × (w p ≡ false)
toy_not_removed w p e = elim (flag (w p)) [
  | inl h ↦ rw h (λ f. absurd (cc))
  | inr h ↦ rw h (λ f. (refl, refl))
]

abbrev pub present : Names → List ℕ → Bool
present w = w

pub toy-IsPosix : IsPosix toy present
toy-IsPosix = record {
  create_made = toy_made;
  create_failed = toy_refused;
  open_keeps = toy_opened;
  truncate_keeps = λ w fd n. refl;
  stat_keeps = λ w fd. refl;
  map_keeps = λ w fd n. refl;
  unmap_keeps = λ w bytes. refl;
  close_keeps = λ w fd. refl;
  removed = toy_removed;
  not_removed = λ w p e f. (toy_not_removed w p e f).0;
  missing = λ w p e f m. (toy_not_removed w p e f).1;
}

abbrev kv : List ℕ
kv = b'k' ∷ b'v' ∷ []

abbrev pub kv_only : Names
kv_only = λ q. equal_bytes q (dev_shm_path kv)

toy-IsRemovable : (p : List ℕ) → IsRemovable toy present toy-IsPosix p
toy-IsRemovable p w h = rw h refl

create_segment-IsCreated_example :
    IsCreated toy present toy-IsPosix (λ q. false) kv 64 (create_segment toy (λ q. false) kv 64)
create_segment-IsCreated_example =
    create_segment-IsCreated toy present toy-IsPosix (λ q. false) kv 64
      (toy-IsRemovable (dev_shm_path kv))

kv_present : kv_only (dev_shm_path kv) ≡ true
kv_present = (equal_bytes_iff (dev_shm_path kv) (dev_shm_path kv)).1 refl

create_or_open-existing_example :
    let w₁ = (create_segment toy kv_only kv 32).0 in
    ((e : IoError) × ((create_segment toy kv_only kv 32).1 ≡ err e))
    × (w₁ ≡ kv_only)
    × (create_or_open toy kv_only kv 32 ≡ open_segment toy w₁ kv)
    × ((create_or_open toy kv_only kv 32).0 ≡ kv_only)
    × IsOpened toy present toy-IsPosix w₁ kv (create_or_open toy kv_only kv 32)
create_or_open-existing_example =
    create_or_open-existing toy present toy-IsPosix kv_only kv 32 kv_present

abbrev kv_segment : Segment
kv_segment = mapping kv (record { size = 64; byte = λ j. 0 }) 64

closes_well : (close toy kv_only kv_segment).2 ≡ none
unfolding close unmap_segment
closes_well = refl

closed_again :
    ((close toy kv_only kv_segment).1.attached ≡ false)
    × ((later : Names)
        → close toy later (close toy kv_only kv_segment).1
          ≡ (later, (close toy kv_only kv_segment).1, none))
closed_again = close_twice toy kv_only kv_segment closes_well

destroy-Sets_example :
    ((kv_segment.backed_by_file ≡ true)
      × (((destroy toy kv_only kv_segment).2 ≢ [])
          ⊎ (((destroy toy kv_only kv_segment).1.attached ≡ false)
              × Sets kv_only (destroy toy kv_only kv_segment).0 (dev_shm_path kv) false)))
    ⊎ ((kv_segment.backed_by_file ≡ false) × ((destroy toy kv_only kv_segment).0 ≡ kv_only))
destroy-Sets_example = destroy-Sets toy present toy-IsPosix kv_only kv_segment

-- No error is reported here.
destroy_runs : (destroy toy kv_only kv_segment).2 ≡ []
unfolding destroy close unmap_segment removal dev_shm_path
destroy_runs = refl
