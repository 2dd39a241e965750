-- ===== src/Cache/Bounds.antt =====
-- Each operation leaves every key at most once, and no more entries than the capacity.
use landc_go.Cache.Entries.{
  drop_back-Distinct, length-drop_back, drop_expired-Distinct, length-drop_expired-le,
  length-delete-le, length-delete-lt,
}
use landc_go.Cache.Lru.{
  Value, Codec, CacheItem, Cleaner, LruCache, is_over, remove_element, move_to_front, evict,
  push_front, set_with_expiration, get, remove, first_count, next_count, incr, cleanup_expired,
  evict_over, set_capacity, to_int64, is_expired, deadline, integer,
}
use landc_go.Prelude.{
  Bool-cases, Distinct, In, String, arith, if◌then◌else◌, inl, inr, keys, keys-delete, length,
  lookup, some, ℕ, ◌∷◌, ◌≡◌, ◌≤◌, ◌⊎◌, Option-cases, apart, ltb, not_In-without, not_In_of_lookup,
  pos, suc, without-Distinct, zero, ◌+◌,
}

pub record IsBounded (c : LruCache) : Type 0 where
  pub distinct : Distinct (keys c.lru_list)
  pub bounded : (c.capacity ≡ 0) ⊎ (length c.lru_list ≤ c.capacity)

pub delete-IsBounded :
    (key : String) (c : LruCache) → IsBounded c → IsBounded (remove_element key c)
unfolding remove_element
delete-IsBounded key c h = record {
  distinct = rw (keys-delete key c.lru_list) (without-Distinct key (keys c.lru_list) h.distinct);
  bounded = ground (arith, h.bounded, length-delete-le key c.lru_list);
}

pub move_to_front-IsBounded :
    (key : String) (item old : CacheItem) (c : LruCache)
    → lookup key c.lru_list ≡ some old
    → IsBounded c
    → IsBounded (move_to_front key item c)
unfolding move_to_front
move_to_front-IsBounded key item old c there h = record {
  distinct =
      rw (keys-delete key c.lru_list)
        (not_In-without key (keys c.lru_list), without-Distinct key (keys c.lru_list) h.distinct);
  bounded = ground (arith, h.bounded, length-delete-lt key c.lru_list old there);
}

pub push_front-IsBounded :
    (key : String) (item : CacheItem) (c : LruCache)
    → ¬ In key (keys c.lru_list)
    → IsBounded c
    → IsBounded (push_front key item c)
unfolding push_front evict
push_front-IsBounded key item c absent h =
    let pushed : LruCache = record c { lru_list = (key, item) ∷ c.lru_list } in
    let apart : Distinct (keys pushed.lru_list) = (absent, h.distinct) in
    elim (Bool-cases (is_over pushed)) [
      | inl q ↦
          rw (push_front, q, if◌then◌else◌)
            (record {
              distinct = drop_back-Distinct pushed.lru_list apart;
              bounded = ground (arith, h.bounded, length-drop_back pushed.lru_list);
            })
      | inr q ↦
          rw (push_front, q, if◌then◌else◌)
            (record { distinct = apart; bounded = ground (arith, q) })
    ]

pub set_with_expiration-IsBounded :
    (now : ℕ) (key : String) (value : Value) (ttl : ℕ) (c : LruCache)
    → IsBounded c
    → IsBounded (set_with_expiration now key value ttl c)
unfolding set_with_expiration
set_with_expiration-IsBounded now key value ttl c h =
    let item : CacheItem = record {
      value = value;
      expiration = deadline now ttl;
      access_time = now;
    } in
    elim (Option-cases (lookup key c.lru_list)) [
      | inl q ↦
          rw (set_with_expiration, q)
            (push_front-IsBounded key item c (not_In_of_lookup key c.lru_list q) h)
      | inr (old, q) ↦ rw (set_with_expiration, q) (move_to_front-IsBounded key item old c q h)
    ]

pub get-IsBounded :
    (now : ℕ) (key : String) (c : LruCache) → IsBounded c → IsBounded (get now key c).0
unfolding get
get-IsBounded now key c h = elim (Option-cases (lookup key c.lru_list)) [
  | inl q ↦ rw (get, q) h
  | inr (item, q) ↦ elim (Bool-cases (is_expired now item)) [
    | inl old ↦ rw (get, q, old) (delete-IsBounded key c h)
    | inr fresh ↦
        rw (get, q, fresh)
          (move_to_front-IsBounded key (record item { access_time = now }) item c q h)
  ]
]

pub remove-IsBounded : (key : String) (c : LruCache) → IsBounded c → IsBounded (remove key c)
unfolding remove
remove-IsBounded key c h = elim (Option-cases (lookup key c.lru_list)) [
  | inl q ↦ rw (remove, q) h
  | inr (item, q) ↦ rw (remove, q) (delete-IsBounded key c h)
]

pub first_count-IsBounded :
    (now : ℕ) (key : String) (ttl : ℕ) (c : LruCache)
    → ¬ In key (keys c.lru_list)
    → IsBounded c
    → IsBounded (first_count now key ttl c).0
unfolding first_count
first_count-IsBounded now key ttl c absent h =
    push_front-IsBounded key
      (record { value = integer (pos 1); expiration = deadline now ttl; access_time = now }) c
      absent h

pub absent_removed : (key : String) (c : LruCache) → ¬ In key (keys (remove_element key c).lru_list)
unfolding remove_element
absent_removed key c = rw (keys-delete key c.lru_list) (not_In-without key (keys c.lru_list))

pub incr-IsBounded :
    (codec : Codec) (now : ℕ) (key : String) (ttl : ℕ) (c : LruCache)
    → IsBounded c
    → IsBounded (incr codec now key ttl c).0
unfolding incr
incr-IsBounded codec now key ttl c h = elim (Option-cases (lookup key c.lru_list)) [
  | inl q ↦ rw (incr, q) (first_count-IsBounded now key ttl c (not_In_of_lookup key c.lru_list q) h)
  | inr (item, q) ↦ elim (Bool-cases (is_expired now item)) [
    | inl old ↦
        rw (incr, q, old)
          (first_count-IsBounded now key ttl (remove_element key c) (absent_removed key c)
            (delete-IsBounded key c h))
    | inr fresh ↦
        rw (incr, q, fresh)
          (move_to_front-IsBounded key
            (record {
              value = integer (next_count (to_int64 codec item.value));
              expiration = if ltb 0 ttl then now + ttl else item.expiration;
              access_time = now;
            })
            item c q h)
  ]
]

pub cleanup_expired-IsBounded :
    (now : ℕ) (c : LruCache) → IsBounded c → IsBounded (cleanup_expired now c)
unfolding cleanup_expired
cleanup_expired-IsBounded now c h = record {
  distinct = drop_expired-Distinct now c.lru_list h.distinct;
  bounded = ground (arith, h.bounded, length-drop_expired-le now c.lru_list);
}

-- An eviction round keeps the keys apart, and enough rounds bring the list within the capacity.
pub evict_over-IsBounded :
    (fuel : ℕ) (c : LruCache)
    → Distinct (keys c.lru_list)
    → length c.lru_list ≤ fuel
    → IsBounded (evict_over fuel c)
unfolding evict_over evict
evict_over-IsBounded zero c apart enough = record { distinct = apart; bounded = inr (omega arith) }
evict_over-IsBounded (suc fuel) c apart enough = elim (Bool-cases (is_over c)) [
  | inl q ↦
      rw (evict_over, q)
        (evict_over-IsBounded fuel (evict c) (drop_back-Distinct c.lru_list apart)
          (omega (arith, enough, length-drop_back c.lru_list)))
  | inr q ↦ rw (evict_over, q) (record { distinct = apart; bounded = ground (arith, q) })
]

pub set_capacity-IsBounded :
    (capacity : ℕ) (c : LruCache) → IsBounded c → IsBounded (set_capacity capacity c)
unfolding set_capacity
set_capacity-IsBounded capacity c h =
    evict_over-IsBounded (length c.lru_list) (record c { capacity = capacity }) h.distinct
      (omega arith)

-- A change of the cleaner changes no entry.
pub cleaner-IsBounded :
    (c : LruCache) (cleaner : Cleaner) → IsBounded c → IsBounded (record c { cleaner = cleaner })
cleaner-IsBounded c cleaner h = record { distinct = h.distinct; bounded = h.bounded }
