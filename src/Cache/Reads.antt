-- ===== src/Cache/Reads.antt =====
-- What a call on the cache finds, and in which order the cache keeps its keys.
use landc_go.Cache.Lru.{
  Value, CacheItem, LruCache, is_over, drop_back, deadline, is_expired, move_to_front, push_front,
  evict, set_with_expiration, get, remove, remove_element,
}
use landc_go.Cache.Entries.{length-delete-lt}
use landc_go.Cache.Bounds.{IsBounded}
use landc_go.Prelude.{
  Bool-cases, Map, Option-cases, String, [], arith, delete, eq_refl, eqb, if◌then◌else◌, inl, inr,
  keys, keys-delete, leb, length, length-keys, lookup, lookup-delete, none, refl, some, sym, take,
  take_of_length-le, without, ℕ, ◌+◌, ◌-◌, ◌<◌, ◌||◌, ◌∙◌, ◌∷◌, ◌≡◌, ◌≤◌, not_In_of_lookup,
  without_absent, ap, suc,
}

abbrev stored_item : (now : ℕ) → Value → (ttl : ℕ) → CacheItem
stored_item now value ttl = record {
  value = value;
  expiration = deadline now ttl;
  access_time = now;
}

drop_back-cons :
    (e : String × CacheItem) (m : Map CacheItem)
    → 0 < length m
    → (rest : Map CacheItem) × (drop_back (e ∷ m) ≡ e ∷ rest)
unfolding drop_back
drop_back-cons e [] h = absurd (omega (arith, h))
drop_back-cons e (f ∷ m) h = (drop_back (f ∷ m), refl)

push_front-cons :
    (key : String) (item : CacheItem) (c : LruCache)
    → (rest : Map CacheItem) × ((push_front key item c).lru_list ≡ (key, item) ∷ rest)
unfolding push_front evict
push_front-cons key item c =
    let pushed : LruCache = record c { lru_list = (key, item) ∷ c.lru_list } in
    elim (Bool-cases (is_over pushed)) [
      | inl q ↦
          let (rest, e) = drop_back-cons (key, item) c.lru_list (ground (arith, q)) in
          (rest, rw (push_front, q, if◌then◌else◌) e)
      | inr q ↦ (c.lru_list, rw (push_front, q, if◌then◌else◌) refl)
    ]

-- A call of `Set` leaves its entry in front.
pub set_with_expiration-cons :
    (now : ℕ) (key : String) (value : Value) (ttl : ℕ) (c : LruCache)
    → (rest : Map CacheItem) × ((set_with_expiration now key value ttl c).lru_list
        ≡ (key, stored_item now value ttl) ∷ rest)
unfolding set_with_expiration move_to_front
set_with_expiration-cons now key value ttl c = elim (Option-cases (lookup key c.lru_list)) [
  | inl q ↦ rw (set_with_expiration, q) (push_front-cons key (stored_item now value ttl) c)
  | inr (old, q) ↦ rw (set_with_expiration, q) (delete key c.lru_list, refl)
]

get-cons :
    (later : ℕ) (key : String) (item : CacheItem) (rest : Map CacheItem) (c : LruCache)
    → c.lru_list ≡ (key, item) ∷ rest
    → (get later key c).1 ≡ (if is_expired later item then none else some item.value)
unfolding get lookup
get-cons later key item rest c q = ground (arith, q, eq_refl key)

-- What was set is found until its time to live has run out, for ever where it has none, whatever
-- the capacity, and not after.
pub get-set_with_expiration :
    (now later : ℕ) (key : String) (value : Value) (ttl : ℕ) (c : LruCache)
    → (get later key (set_with_expiration now key value ttl c)).1
      ≡ (if eqb ttl 0 || leb later (now + ttl) then some value else none)
unfolding is_expired
get-set_with_expiration now later key value ttl c =
    let (rest, e) = set_with_expiration-cons now key value ttl c in
    get-cons later key (stored_item now value ttl) rest (set_with_expiration now key value ttl c) e
    ∙ ground arith

lookup_removed : (key : String) (c : LruCache) → lookup key (remove_element key c).lru_list ≡ none
unfolding remove_element
lookup_removed key c = ground (arith, lookup-delete key key c.lru_list, eq_refl key)

-- A key that was removed is not found.
pub get-remove : (now : ℕ) (key : String) (c : LruCache) → (get now key (remove key c)).1 ≡ none
unfolding get remove
get-remove now key c = elim (Option-cases (lookup key c.lru_list)) [
  | inl q ↦ rw (remove, q, get, q) refl
  | inr (item, q) ↦ rw (remove, q, get, lookup_removed key c) refl
]

keys-drop_back : (m : Map CacheItem) → keys (drop_back m) ≡ take (length m - 1) (keys m)
unfolding drop_back
keys-drop_back [] = refl
keys-drop_back (e ∷ []) = refl
keys-drop_back (e ∷ f ∷ m) = ground (arith, keys-drop_back (f ∷ m))

keys-push_front :
    (key : String) (item : CacheItem) (c : LruCache)
    → length c.lru_list ≤ c.capacity
    → 0 < c.capacity
    → keys (push_front key item c).lru_list ≡ take c.capacity (key ∷ keys c.lru_list)
unfolding push_front evict
keys-push_front key item c fits positive =
    let pushed : LruCache = record c { lru_list = (key, item) ∷ c.lru_list } in
    let listed = length-keys c.lru_list in
    elim (Bool-cases (is_over pushed)) [
      | inl q ↦
          let full : length c.lru_list ≡ c.capacity = ground (arith, q, fits) in
          let less : suc (length c.lru_list) - 1 ≡ length c.lru_list = omega arith in
          rw (push_front, q, if◌then◌else◌, ← full)
            (keys-drop_back pushed.lru_list ∙ ap (λ n. take n (key ∷ keys c.lru_list)) less)
      | inr q ↦
          rw (push_front, q, if◌then◌else◌)
            (sym (
              take_of_length-le c.capacity (key ∷ keys c.lru_list)
                (ground (arith, q, fits, listed, positive))))
    ]

-- Setting a key puts it in front of the others, and what no longer fits is cut off at the back: the
-- entry that is evicted is the one used least recently.
pub keys-set_with_expiration :
    (now : ℕ) (key : String) (value : Value) (ttl : ℕ) (c : LruCache)
    → IsBounded c
    → 0 < c.capacity
    → keys (set_with_expiration now key value ttl c).lru_list
      ≡ take c.capacity (key ∷ without key (keys c.lru_list))
unfolding set_with_expiration move_to_front push_front evict
keys-set_with_expiration now key value ttl c h positive =
    let item = stored_item now value ttl in
    let fits : length c.lru_list ≤ c.capacity = ground (arith, h.bounded, positive) in
    elim (Option-cases (lookup key c.lru_list)) [
      | inr (old, q) ↦
          let short = length-delete-lt key c.lru_list old q in
          let listed = length-keys (delete key c.lru_list) in
          rw (set_with_expiration, q, ← keys-delete key c.lru_list)
            (sym (
              take_of_length-le c.capacity (key ∷ keys (delete key c.lru_list))
                (omega (arith, short, fits, listed))))
      | inl q ↦
          rw
            (
              set_with_expiration,
              q,
              without_absent key (keys c.lru_list) (not_In_of_lookup key c.lru_list q),
            )
            (keys-push_front key item c fits positive)
    ]
