-- ===== src/Cache/Scoped.antt =====
-- tools/cache/cache.go, `ContextCache`: the cache that a context carries, if it carries one.
use landc_go.Cache.Lru.{
  Value, LruCache, new_lru_cache, set_with_expiration, get, remove, clear, size, cached_keys,
  cleanup_expired, set_capacity,
}
use landc_go.Prelude.{List, Option, String, [], none, some, ℕ}

-- `ctx.Value(cacheKey{})`, `none` where the context is nil or holds no cache.
abbrev pub ContextCache : Type 0
ContextCache = Option LruCache

-- `WithCache` and `WithCacheCapacity`.
unfoldable pub with_cache_capacity : ℕ → ContextCache
unfolding new_lru_cache
with_cache_capacity capacity = some (new_lru_cache capacity)

-- The calls of `ContextCache` that change the cache: without one they do nothing.
abbrev pub on_cache : (LruCache → LruCache) → ContextCache → ContextCache
on_cache f none = none
on_cache f (some c) = some (f c)

-- The calls that read it: without a cache they have a fixed answer.
abbrev pub ask_cache {ℓ} : {A : Type ℓ} → A → (LruCache → A) → ContextCache → A
ask_cache absent f none = absent
ask_cache absent f (some c) = f c

unfoldable pub context_set : (now : ℕ) → String → Value → (ttl : ℕ) → ContextCache → ContextCache
unfolding set_with_expiration
context_set now key value ttl = on_cache (set_with_expiration now key value ttl)

unfoldable pub context_get : (now : ℕ) → String → ContextCache → ContextCache × Option Value
unfolding get
context_get now key none = (none, none)
context_get now key (some c) = let (c', found) = get now key c in (some c', found)

unfoldable pub context_delete : String → ContextCache → ContextCache
unfolding remove
context_delete key = on_cache (remove key)

unfoldable pub context_clear : ContextCache → ContextCache
unfolding clear
context_clear = on_cache clear

unfoldable pub context_size : ContextCache → ℕ
unfolding size
context_size = ask_cache 0 size

unfoldable pub context_keys : ContextCache → List String
context_keys = ask_cache [] (λ c. cached_keys c)

unfoldable pub context_cleanup_expired : ℕ → ContextCache → ContextCache
unfolding cleanup_expired
context_cleanup_expired now = on_cache (cleanup_expired now)

unfoldable pub context_capacity : ContextCache → ℕ
context_capacity = ask_cache 0 (λ c. c.capacity)

unfoldable pub context_set_capacity : ℕ → ContextCache → ContextCache
unfolding set_capacity
context_set_capacity capacity = on_cache (set_capacity capacity)
