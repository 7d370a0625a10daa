-- ===== src/Loader/Load/Again.antt =====
-- `Load` on a loader that has a table: `Init` was called before, or another `Load`.
use featcache.Common.{
  ℕ, ◌+◌, ◌≤◌, ◌<◌, ◌≡◌, ◌∙◌, refl, sym, ap, inl, inr, List, ◌++◌, none, some, length, append-nil,
  arith,
}
use featcache.Loader.Load.Generation.{bumped, bumped-lookup, bumped-IsReady}
use featcache.Loader.Load.Loop.{IsAbsent}
use featcache.Loader.Load.Refine.{load_loop-Ends}
use featcache.Loader.Load.Room.{some_left}
use featcache.Loader.Load.Supply.{wanted, last_value, or_else, IsDistinct, IsSmall, data_size}
use featcache.Loader.Load.Whole.{closed, finish, finish_done}
use featcache.Loader.Load.{ended, load, load_loop}
use featcache.Loader.Outcome.{lookup}
use featcache.Loader.Ready.{IsReady}
use featcache.Loader.{Loader}
use featcache.Protocol
use featcache.Source.Supply.{Entry, Supplies}
use featcache.Source.{DataSource}
use featcache.Table.Free.{free_slots, free_slots-none}
use featcache.Table.{HashTable}

module _ {S : Type 0} (ds : DataSource S) (pkg_seed seed fuel : ℕ) where
  load_again :
      (s s₁ : S) (l : Loader) (ht : HashTable) (total : ℕ)
      → ds.open_source s ≡ (s₁, Protocol.ok total)
      → l.hash_table ≡ some ht
      → load ds pkg_seed seed fuel s l
        ≡ finish ds pkg_seed seed fuel (load_loop ds pkg_seed fuel s₁ l 0)
  unfolding load
  load_again s s₁ l ht total opened handle =
      simp (ap (λ p. p.1) opened, handle, ap (λ p. p.0) opened, load) refl

  -- What a `Load` that puts every wanted entry comes to.
  abbrev pub AddsAll : HashTable → ℕ → ℕ → List Entry → S → Loader → Type 0
  AddsAll ht log table_seed es s l =
      (s' : S) × (l' : Loader) × (load ds pkg_seed seed fuel s l
        ≡ closed ds pkg_seed seed fuel none (length (wanted es)) s' l')
      × IsReady l' ht log table_seed
      × ((k : List ℕ)
          → lookup ht l' table_seed k
            ≡ or_else (last_value (wanted es) k) (lookup ht l table_seed k))

  -- `Load` on a loader that is ready succeeds where there is room: from a source that opens, however
  -- many entries it announces, and supplies finitely many, fewer than the fuel, where no wanted key
  -- occurs twice or is present and every chunk is below 2 GiB, with a free slot for each wanted
  -- entry and room behind the data for all their chunks. It counts every wanted entry, each reads as
  -- its value, every other lookup answers as before, and the loader is ready again.
  pub load-AddsAll :
      {ht : HashTable} {log table_seed : ℕ} (es : List Entry) (s s₁ s₂ : S) (l : Loader) (total : ℕ)
      → IsReady l ht log table_seed
      → ds.open_source s ≡ (s₁, Protocol.ok total)
      → Supplies ds s₁ es s₂
      → length es < fuel
      → IsDistinct (wanted es)
      → IsSmall (wanted es)
      → IsAbsent ht l table_seed (wanted es)
      → length (wanted es) ≤ free_slots ht l.segment.bytes
      → l.data_end + data_size (wanted es) ≤ l.segment.bytes.size
      → AddsAll ht log table_seed es s l
  load-AddsAll {ht} {log} {table_seed} es s s₁ s₂ l total ready opened sup enough dist small absent
        slots room =
      let begins = load_again s s₁ l ht total opened ready.handle in
      elim (load_loop-Ends ds pkg_seed ht log table_seed es fuel s₁ s₂ l 0 sup enough ready dist
        small absent) [
          | inl (run, big, short) ↦ absurd (omega arith)
          | inr (loaded, rest, failure, s', l', run, split, done) ↦ elim done.why [
            | inr (inr (e, left)) ↦ elim done.shortage [
              | inl none_failed ↦ absurd (cc (e, none_failed))
              | inr short ↦ let all = ap data_size split in absurd (omega arith)
            ]
            | inr (inl (e, left, ready', full)) ↦
                let none_free = free_slots-none ht l'.segment.bytes full in
                let count = done.room in
                let few = some_left (wanted es) loaded rest split left in absurd (omega arith)
            | inl (e, nothing, ready') ↦
                let all : wanted es ≡ loaded =
                  split ∙ ap (λ r. loaded ++ r) nothing ∙ append-nil loaded in
                (
                  s',
                  bumped ready',
                  begins
                      ∙ ap (finish ds pkg_seed seed fuel) (
                          run
                          ∙ ap (λ n. ended failure n s' l') (omega arith)
                          ∙ ap (λ f. ended f (length loaded) s' l') e)
                      ∙ finish_done ds pkg_seed seed fuel (length loaded) s' l' ready'
                      ∙ ap (λ n. closed ds pkg_seed seed fuel none n s' (bumped ready'))
                          (ap length (sym all)),
                  bumped-IsReady ready',
                  (λ k.
                      bumped-lookup ready' k
                      ∙ done.reads k
                      ∙ ap (λ es'. or_else (last_value es' k) (lookup ht l table_seed k))
                          (sym all)),
                )
          ]
        ]
