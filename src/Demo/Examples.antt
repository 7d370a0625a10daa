-- ===== src/Demo/Examples.antt =====
-- The demo in a world that is the set of the files' names.
use featcache.Common.{ℕ, ◌*◌, ◌≡◌, refl, false, List, [], ◌∷◌, Option, none, ok, arith}
use featcache.Demo.Range.{IsRange}
use featcache.Demo.Runs.{demo_keys, shown, demo-finished}
use featcache.Demo.{demo, demo_config, finished, user_key, vocab_key, item_key, dict_key}
use featcache.Loader.Life.{new_loader}
use featcache.Loader.{Loader, new_loader_with_segment, defaults}
use featcache.Protocol
use featcache.Protocol.{IoError}
use featcache.Reader.Connect.{Net}
use featcache.Segment.Linux.Examples.{Names, toy}
use featcache.Segment.Linux.{create_or_open, create_segment, map_created, dev_shm_path, mapping}

abbrev no_net : Net Names
no_net = record {
  dial = λ w addr. (w, Protocol.err Protocol.unexpected_eof);
  send = λ w conn bytes. (w, none);
  received = λ w conn. [];
  hang_up = λ w conn. w;
}

abbrev no_names : Names
no_names = λ path. false

abbrev made : Loader
made = new_loader_with_segment (defaults demo_config) (
    mapping demo_config.segment_name (record { size = 64 * 1024 * 1024; byte = λ j. 0 })
      (64 * 1024 * 1024))

made_new : (new_loader toy no_names demo_config).1 ≡ Protocol.ok made
unfolding new_loader create_or_open create_segment map_created defaults dev_shm_path
made_new = refl

abbrev backwards : List (List ℕ)
backwards = dict_key ∷ item_key ∷ vocab_key ∷ user_key ∷ []

backwards-IsRange : IsRange demo_keys backwards
backwards-IsRange = record {
  same_count = refl;
  once = (
    ((λ e. ground arith), ((λ e. ground arith), ((λ e. ground arith), tt))),
    (((λ e. ground arith), ((λ e. ground arith), tt)), (((λ e. ground arith), tt), (tt, tt))),
  );
  same_keys = λ k. ground arith;
}

demo-finished_example :
    (w' : Names) × (closing : Option IoError) × (destroying : List IoError) × (demo toy no_net 3 7
        backwards no_names
      ≡ ok (w', finished shown closing destroying))
unfolding new_loader_with_segment
demo-finished_example =
    demo-finished 3 7 backwards backwards-IsRange toy no_net no_names made made_new refl refl refl
      (omega arith) (omega arith)
