-- ===== src/Cache/Lru.antt =====
-- tools/cache/cache.go, `lruCache`. Its mutex makes each call one step, which takes the instant of
-- the call in nanoseconds. Go keeps the entries in a list, the one used last in front, and a map
-- from each key to its element of the list; every change of the one changes
-- the other in the same call, and they are one list of keys and items here. A capacity or a time to live that is not positive is 0.
use landc_go.Prelude.{
  Bool, List, Map, Option, String, [], delete, eqb, false, if◌then◌else◌, keys, length, lookup, ltb,
  negsuc, none, not, pos, some, suc, suc_ℤ, true, zero, ℕ, ℤ, ◌&&◌, ◌+◌, ◌∷◌,
}

-- What `interface{}` holds, as far as the code tells it apart. `integer` stands for int, int64 and
-- int32, `float` for a float64, with the integer that its conversion gives.
pub data Value : Type 0 where
  text bytes other : String → Value
  integer float : ℤ → Value

-- `strconv.ParseInt`, whose error the code drops, and `json.Marshal`.
pub record Codec : Type 0 where
  pub parse_int : String → ℤ
  pub marshal : Value → Option String

pub record CacheItem : Type 0 where
  pub value : Value
  pub expiration : ℕ
  pub access_time : ℕ

-- The cleaning goroutine: never started, or running, or told to stop.
pub data Cleaner : Type 0 where
  unstarted cleaning stopped : Cleaner

pub record LruCache : Type 0 where
  pub lru_list : Map CacheItem
  pub capacity : ℕ
  pub cleaner : Cleaner

unfoldable pub new_lru_cache : ℕ → LruCache
new_lru_cache capacity = record { lru_list = []; capacity = capacity; cleaner = unstarted }

unfoldable pub is_expired : ℕ → CacheItem → Bool
is_expired now item = not (eqb item.expiration 0) && ltb item.expiration now

abbrev pub deadline : (now ttl : ℕ) → ℕ
deadline now ttl = if ltb 0 ttl then now + ttl else 0

unfoldable pub remove_element : String → LruCache → LruCache
remove_element key c = record c { lru_list = delete key c.lru_list }

-- `MoveToFront`, with what the call has written into the item.
unfoldable pub move_to_front : String → CacheItem → LruCache → LruCache
move_to_front key item c = record c { lru_list = (key, item) ∷ delete key c.lru_list }

unfoldable pub drop_back {ℓ} : {A : Type ℓ} → List A → List A
drop_back [] = []
drop_back (x ∷ []) = []
drop_back (x ∷ y ∷ xs) = x ∷ drop_back (y ∷ xs)

unfoldable pub evict : LruCache → LruCache
unfolding drop_back
evict c = record c { lru_list = drop_back c.lru_list }

abbrev pub is_over : LruCache → Bool
is_over c = ltb 0 c.capacity && ltb c.capacity (length c.lru_list)

-- `PushFront`, and the eviction behind it.
unfoldable pub push_front : String → CacheItem → LruCache → LruCache
unfolding evict
push_front key item c =
    let pushed : LruCache = record c { lru_list = (key, item) ∷ c.lru_list } in
    if is_over pushed then evict pushed else pushed

unfoldable pub set_with_expiration : (now : ℕ) → String → Value → (ttl : ℕ) → LruCache → LruCache
unfolding move_to_front push_front
set_with_expiration now key value ttl c =
    let item : CacheItem = record {
      value = value;
      expiration = deadline now ttl;
      access_time = now;
    } in
    elim (lookup key c.lru_list) [
      | some _ ↦ move_to_front key item c
      | none ↦ push_front key item c
    ]

unfoldable pub set : (now : ℕ) → String → Value → LruCache → LruCache
unfolding set_with_expiration
set now key value c = set_with_expiration now key value 0 c

unfoldable pub get : (now : ℕ) → String → LruCache → LruCache × Option Value
unfolding is_expired remove_element move_to_front
get now key c = elim (lookup key c.lru_list) [
  | none ↦ (c, none)
  | some item ↦
      if is_expired now item
      then (remove_element key c, none)
      else (move_to_front key (record item { access_time = now }) c, some item.value)
]

unfoldable pub remove : String → LruCache → LruCache
unfolding remove_element
remove key c = elim (lookup key c.lru_list) [ none ↦ c | some _ ↦ remove_element key c ]

unfoldable pub to_int64 : Codec → Value → ℤ
to_int64 codec (integer n) = n
to_int64 codec (float n) = n
to_int64 codec (text s) = codec.parse_int s
to_int64 codec v = pos 0

-- `n + 1` on int64.
unfoldable pub next_count : ℤ → ℤ
next_count (pos n) = if ltb (n + 1) 9223372036854775808 then pos (n + 1) else negsuc n
next_count n = suc_ℤ n

-- A fresh counter.
unfoldable pub first_count : (now : ℕ) → String → (ttl : ℕ) → LruCache → LruCache × ℤ
unfolding push_front
first_count now key ttl c = (
  push_front key
      (record { value = integer (pos 1); expiration = deadline now ttl; access_time = now }) c,
  pos 1,
)

unfoldable pub incr : Codec → (now : ℕ) → String → (ttl : ℕ) → LruCache → LruCache × ℤ
unfolding is_expired remove_element move_to_front to_int64 next_count first_count
incr codec now key ttl c = elim (lookup key c.lru_list) [
  | none ↦ first_count now key ttl c
  | some item ↦ if is_expired now item then first_count now key ttl (remove_element key c) else (
    move_to_front key
        (record {
          value = integer (next_count (to_int64 codec item.value));
          expiration = if ltb 0 ttl then now + ttl else item.expiration;
          access_time = now;
        })
        c,
    next_count (to_int64 codec item.value),
  )
]

unfoldable pub clear : LruCache → LruCache
clear c = record c { lru_list = [] }

unfoldable pub size : LruCache → ℕ
size c = length c.lru_list

abbrev pub cached_keys : LruCache → List String
cached_keys c = keys c.lru_list

-- The loop of `CleanupExpired`, which goes from the back to the front.
unfoldable pub drop_expired : ℕ → Map CacheItem → Map CacheItem
unfolding is_expired
drop_expired now [] = []
drop_expired now ((key, item) ∷ rest) =
    if is_expired now item then drop_expired now rest else (key, item) ∷ drop_expired now rest

unfoldable pub cleanup_expired : ℕ → LruCache → LruCache
unfolding drop_expired
cleanup_expired now c = record c { lru_list = drop_expired now c.lru_list }

unfoldable pub start_cleanup : LruCache → LruCache
start_cleanup c = record c { cleaner = cleaning }

unfoldable pub stop_cleanup : LruCache → LruCache
stop_cleanup c = elim c.cleaner [ cleaning ↦ record c { cleaner = stopped } | _ ↦ c ]

-- A tick of the timer of the cleaning goroutine.
unfoldable pub cleanup_tick : ℕ → LruCache → LruCache
unfolding cleanup_expired
cleanup_tick now c = elim c.cleaner [ cleaning ↦ cleanup_expired now c | _ ↦ c ]

-- The loop of `SetCapacity`: as many rounds as there are entries are enough.
unfoldable pub evict_over : ℕ → LruCache → LruCache
unfolding evict
evict_over zero c = c
evict_over (suc fuel) c = elim (is_over c) [ true ↦ evict_over fuel (evict c) | false ↦ c ]

unfoldable pub set_capacity : ℕ → LruCache → LruCache
unfolding evict_over
set_capacity capacity c = evict_over (length c.lru_list) (record c { capacity = capacity })
