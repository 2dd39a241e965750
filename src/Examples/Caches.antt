-- ===== src/Examples/Caches.antt =====
-- The cache: examples.
use landc_go.Cache.Lru.{text, Codec, LruCache, new_lru_cache, unstarted}
use landc_go.Cache.Bounds.{IsBounded}
use landc_go.Cache.History.{sets, incrs, resizes, removes, run, run-new_lru_cache-IsBounded}
use landc_go.Prelude.{[], none, ◌∷◌, pos}

abbrev pub codec : Codec
codec = record { parse_int = λ s. pos 0; marshal = λ v. none }

-- Room for one entry.
abbrev small : LruCache
small = new_lru_cache 1

run-new_lru_cache-IsBounded_example : IsBounded (
    run codec small (
      sets 1 "a" (text "x") 0
      ∷ sets 2 "b" (text "y") 9
      ∷ resizes 2
      ∷ incrs 3 "c" 9
      ∷ removes "b"
      ∷ []))
run-new_lru_cache-IsBounded_example = run-new_lru_cache-IsBounded codec 1 (
    sets 1 "a" (text "x") 0
    ∷ sets 2 "b" (text "y") 9
    ∷ resizes 2
    ∷ incrs 3 "c" 9
    ∷ removes "b"
    ∷ [])

abbrev filled : LruCache
filled = record {
  lru_list = ("b", record { value = text "y"; expiration = 0; access_time = 1 }) ∷ [];
  capacity = 1;
  cleaner = unstarted;
}
