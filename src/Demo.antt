-- ===== src/Demo.antt =====
-- examples/featload-demo/main.go: a loader and a reader over one segment, with four entries. What is
-- printed is the outcome. `log.Fatalf` ends the program.
pub mod Range
pub mod Runs
mod Examples
use featcache.Common.{
  ℕ, ◌*◌, ◌^◌, Bool, true, false, List, [], ◌∷◌, Option, none, some, Run, ok, panic, ◌>>=◌, ◌⊎◌,
  inl, inr,
}
use featcache.Loader.Life
use featcache.Loader.Life.{new_loader}
use featcache.Loader.Load.{Failure, Ended, load}
use featcache.Loader.{Loader, LoaderConfig, LoadError, init}
use featcache.Protocol
use featcache.Protocol.{IoError}
use featcache.Reader.Connect
use featcache.Reader.Connect.{Net, Client}
use featcache.Reader.{Reader, new_reader_from_segment, get, get_batch}
use featcache.Segment.Linux.{Os}
use featcache.Source.Map.{map_source, new_map_data_source}

abbrev pub user_key : List ℕ
user_key = b'u' ∷ b's' ∷ b'e' ∷ b'r' ∷ b':' ∷ b'1' ∷ b'2' ∷ b'3' ∷ b':' ∷ b'e' ∷ b'm' ∷ b'b' ∷ []

abbrev pub user_value : List ℕ
user_value =
    b'e' ∷ b'm' ∷ b'b' ∷ b'e' ∷ b'd' ∷ b'd' ∷ b'i' ∷ b'n' ∷ b'g' ∷ b'_' ∷ b'd' ∷ b'a' ∷ b't' ∷ b'a'
    ∷ b'_' ∷ b'1' ∷ b'2' ∷ b'3' ∷ []

abbrev pub vocab_key : List ℕ
vocab_key =
    b't' ∷ b'o' ∷ b'k' ∷ b'e' ∷ b'n' ∷ b'i' ∷ b'z' ∷ b'e' ∷ b'r' ∷ b':' ∷ b'v' ∷ b'o' ∷ b'c' ∷ b'a'
    ∷ b'b' ∷ []

abbrev pub vocab_value : List ℕ
vocab_value = b'v' ∷ b'o' ∷ b'c' ∷ b'a' ∷ b'b' ∷ b'_' ∷ b'd' ∷ b'a' ∷ b't' ∷ b'a' ∷ []

abbrev pub item_key : List ℕ
item_key = b'i' ∷ b't' ∷ b'e' ∷ b'm' ∷ b':' ∷ b'4' ∷ b'5' ∷ b'6' ∷ b':' ∷ b'e' ∷ b'm' ∷ b'b' ∷ []

abbrev pub item_value : List ℕ
item_value =
    b'e' ∷ b'm' ∷ b'b' ∷ b'e' ∷ b'd' ∷ b'd' ∷ b'i' ∷ b'n' ∷ b'g' ∷ b'_' ∷ b'd' ∷ b'a' ∷ b't' ∷ b'a'
    ∷ b'_' ∷ b'4' ∷ b'5' ∷ b'6' ∷ []

abbrev pub dict_key : List ℕ
dict_key = b'f' ∷ b'e' ∷ b'a' ∷ b't' ∷ b'u' ∷ b'r' ∷ b'e' ∷ b':' ∷ b'd' ∷ b'i' ∷ b'c' ∷ b't' ∷ []

abbrev pub dict_value : List ℕ
dict_value =
    b's' ∷ b'p' ∷ b'a' ∷ b'r' ∷ b's' ∷ b'e' ∷ b'_' ∷ b'f' ∷ b'e' ∷ b'a' ∷ b't' ∷ b'u' ∷ b'r' ∷ b'e'
    ∷ b'_' ∷ b'd' ∷ b'i' ∷ b'c' ∷ b't' ∷ b'i' ∷ b'o' ∷ b'n' ∷ b'a' ∷ b'r' ∷ b'y' ∷ []

abbrev pub missing_key : List ℕ
missing_key = b'm' ∷ b'i' ∷ b's' ∷ b's' ∷ b'i' ∷ b'n' ∷ b'g' ∷ b':' ∷ b'k' ∷ b'e' ∷ b'y' ∷ []

abbrev pub demo_name : List ℕ
demo_name =
    b'f' ∷ b'e' ∷ b'a' ∷ b't' ∷ b'c' ∷ b'a' ∷ b'c' ∷ b'h' ∷ b'e' ∷ b'-' ∷ b'd' ∷ b'e' ∷ b'm' ∷ b'o'
    ∷ []

abbrev pub demo_entries : List (List ℕ × List ℕ)
demo_entries =
    (user_key, user_value)
    ∷ (vocab_key, vocab_value)
    ∷ (item_key, item_value)
    ∷ (dict_key, dict_value)
    ∷ []

abbrev pub demo_config : LoaderConfig
demo_config = record { segment_name = demo_name; segment_size = 64 * 1024 * 1024 }

-- What the lookups showed: the count, the value, and the answers of the batch.
pub record Shown : Type 0 where
  pub count : ℕ
  pub value : List ℕ
  pub batch : List (Option (List ℕ))

-- The message that the program ends with, or what it showed, with the errors of the two closings.
pub data Outcome : Type 0 where
  create_failed : IoError → Outcome
  init_failed : LoadError → Outcome
  load_failed : Failure → Outcome
  key_missing : Outcome
  finished : Shown → Option IoError → List IoError → Outcome

-- The lookups through a reader over the loader's own segment.
unfoldable pub show : ℕ → Loader → ℕ → Run (Reader × Option Shown)
show pkg_seed l count = do
  r ← new_reader_from_segment pkg_seed l.segment
  val ← get r user_key
  batch ← get_batch r (vocab_key ∷ missing_key ∷ [])
  ok (
    r,
    elim val [ none ↦ none | some v ↦ some (record { count = count; value = v; batch = batch }) ],
  )

-- From `Init` to the lookups; `seed` is what `randSeed` draws, and `order` how `range` goes through
-- the map. The loop of `Load` has a round for each entry and one more, so that its fuel does not run
-- out; where it did, the model would panic.
unfoldable pub run : ℕ → ℕ → List (List ℕ) → Loader → Run (Outcome ⊎ (Loader × Reader × Shown))
run pkg_seed seed order l = do
  (e, l₁) ← init l 2 seed
  elim e [
    | some err ↦ ok (inl (init_failed err))
    | none ↦ do
      r ← load map_source pkg_seed seed 5 (new_map_data_source demo_entries order) l₁
      elim r [
        | none ↦ panic
        | some ended ↦ elim ended.failure [
          | some f ↦ ok (inl (load_failed f))
          | none ↦ do
            (reader, shown) ← show pkg_seed ended.loader ended.count
            elim shown [ none ↦ ok (inl key_missing) | some s ↦ ok (inr (ended.loader, reader, s)) ]
        ]
      ]
  ]

module _ {W : Type 0} (os : Os W) (net : Net W) where
  -- The reader's `Close` closes the segment that the loader holds too.
  unfoldable pub clean_up : W → Loader → Reader → W × Option IoError × List IoError
  clean_up w l r =
      let (w₁, client, closing) =
        Connect.close os net w (record { reader = r; conn = none; closed = false }) in
      let (w₂, _, destroying) = Life.destroy os w₁ (record l { segment = client.reader.segment }) in
      (w₂, closing, destroying)

  unfoldable pub demo : ℕ → ℕ → List (List ℕ) → W → Run (W × Outcome)
  demo pkg_seed seed order w =
      let (w₁, made) = new_loader os w demo_config in
      elim made [
        | Protocol.err e ↦ ok (w₁, create_failed e)
        | Protocol.ok l ↦ do
          done ← run pkg_seed seed order l
          elim done [
            | inl outcome ↦ ok (w₁, outcome)
            | inr (l', r, shown) ↦
                let (w₂, closing, destroying) = clean_up w₁ l' r in
                ok (w₂, finished shown closing destroying)
          ]
      ]
