-- ===== src/Cache/Local.antt =====
-- frame/pkg/cache/cache.go, `LocalCache`, and tools_adapter.go, by which it is the `Cache` of
-- tools/ratelimit. A local cache fails on a key that is absent only.
use landc_go.RateLimit.{CacheOps, IsCache}
use landc_go.Cache.Lru.{Value, text, bytes, Codec, LruCache, set_with_expiration, get, remove, incr}
use landc_go.Cache.Reads.{get-set_with_expiration, get-remove}
use landc_go.Prelude.{
  Bool, List, Option, String, [], ap, arith, false, none, refl, some, true, ℕ, ◌∷◌,
}

-- The text of a value: texts and bytes as they are, all else by `json.Marshal`.
unfoldable pub text_of : Codec → Value → Option String
text_of codec (text s) = some s
text_of codec (bytes s) = some s
text_of codec v = codec.marshal v

abbrev pub text_found : Codec → Option Value → Option String
text_found codec none = none
text_found codec (some v) = text_of codec v

unfoldable pub local_get : Codec → (now : ℕ) → String → LruCache → LruCache × Option String
unfolding get text_of
local_get codec now key c = let (c', found) = get now key c in (c', text_found codec found)

abbrev pub is_found : Option Value → Bool
is_found none = false
is_found (some v) = true

unfoldable pub local_exists : (now : ℕ) → String → LruCache → LruCache × Bool
unfolding get
local_exists now key c = let (c', found) = get now key c in (c', is_found found)

unfoldable pub local_delete : List String → LruCache → LruCache
unfolding remove
local_delete [] c = c
local_delete (key ∷ ks) c = local_delete ks (remove key c)

-- `false`: the key is not there.
unfoldable pub local_expire : (now : ℕ) → String → (ttl : ℕ) → LruCache → LruCache × Bool
unfolding get set_with_expiration
local_expire now key ttl c =
    let (c', found) = get now key c in
    elim found [ none ↦ (c', false) | some v ↦ (set_with_expiration now key v ttl c', true) ]

-- `AsToolsCache` of a `LocalCache`.
unfoldable pub tools_cache : Codec → CacheOps LruCache
unfolding local_get local_exists local_delete set_with_expiration incr
tools_cache codec = record {
  fetch = local_get codec;
  store = λ now key value ttl c. (set_with_expiration now key (text value) ttl c, true);
  drop_key = λ now key c. (local_delete (key ∷ []) c, true);
  exists = λ now key c. let (c', found) = local_exists now key c in (c', some found);
  count_up = λ now key ttl c. let (c', n) = incr codec now key ttl c in (c', some n);
}

pub tools_cache-IsCache : (codec : Codec) → IsCache (tools_cache codec)
unfolding tools_cache local_get local_delete local_exists text_of
tools_cache-IsCache codec = record {
  stores = λ now key value ttl c. refl;
  finds = λ now later key value ttl c positive soon.
      ground (arith, get-set_with_expiration now later key (text value) ttl c);
  forgets = λ now later key c. ap (text_found codec) (get-remove later key c);
  sees = λ now later key value ttl c positive.
      ground (arith, get-set_with_expiration now later key (text value) ttl c);
}
