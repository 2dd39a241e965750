-- ===== src/Lock/Exclusion.antt =====
-- The locks of one registry exclude each other.
use landc_go.Lock.{
  LockEntry, Registry, MemoryLock, try_lock, release, unlock, renew, is_held, ℕ, Option, String,
  List,
}
use landc_go.Prelude.{
  All, List, Option, String, [], all, arith, eq_iff, eq_refl, false, lookup, lookup-delete,
  lookup-insert, lt→ltb, none, refl, some, true, ℕ, ◌+◌, ◌<◌, ◌∷◌, ◌≡◌, ◌≢◌, ◌≤◌,
}

-- The calls of any handles.
pub data LockCall : Type 0 where
  tries renews : ℕ → MemoryLock → LockCall
  unlocks : MemoryLock → LockCall

abbrev pub after_unlock : Registry → Option (MemoryLock × Registry) → Registry
after_unlock reg none = reg
after_unlock reg (some (l, r)) = r

pub step : Registry → LockCall → Registry
step reg (tries now m) = (try_lock now m reg).registry
step reg (renews now m) = renew now m reg
step reg (unlocks m) = after_unlock reg (unlock m reg)

pub run : Registry → List LockCall → Registry
run reg [] = reg
run reg (c ∷ cs) = run (step reg c) cs

-- A call by a handle with another token, before the instant.
abbrev pub IsForeign : String → ℕ → LockCall → Type 0
IsForeign value until (tries now m) = (m.value ≢ value) × (now < until)
IsForeign value until (renews now m) = m.value ≢ value
IsForeign value until (unlocks m) = m.value ≢ value

-- The token has the name, until this instant at least.
abbrev Has : Registry → String → String → ℕ → Type 0
Has reg name value until =
    (e : LockEntry) × (lookup name reg ≡ some e) × (e.value ≡ value) × (until ≤ e.expire_at)

try_lock-Has :
    (reg : Registry) (name value : String) (until now : ℕ) (m : MemoryLock)
    → now < until
    → Has reg name value until
    → Has (try_lock now m reg).registry name value until
unfolding try_lock
try_lock-Has reg name value until now m soon (e, h, v, l) = (
  e,
  ground (
    arith,
    eq_iff m.name name,
    lookup-insert m.name name (record { value = m.value; expire_at = now + m.ttl }) reg,
  ),
  v,
  l,
)

renew-Has :
    (reg : Registry) (name value : String) (until now : ℕ) (m : MemoryLock)
    → m.value ≢ value
    → Has reg name value until
    → Has (renew now m reg) name value until
unfolding renew
renew-Has reg name value until now m other (e, h, v, l) = (
  e,
  ground (
    arith,
    eq_iff m.name name,
    eq_iff e.value m.value,
    lookup-insert m.name name (record { value = m.value; expire_at = now + m.ttl }) reg,
  ),
  v,
  l,
)

unlock-Has :
    (reg : Registry) (name value : String) (until : ℕ) (m : MemoryLock)
    → m.value ≢ value
    → Has reg name value until
    → Has (after_unlock reg (unlock m reg)) name value until
unfolding unlock release
unlock-Has reg name value until m other (e, h, v, l) = (
  e,
  ground (arith, eq_iff m.name name, eq_iff e.value m.value, lookup-delete m.name name reg),
  v,
  l,
)

run-Has :
    (reg : Registry) (cs : List LockCall) (name value : String) (until : ℕ)
    → All (IsForeign value until) cs
    → Has reg name value until
    → Has (run reg cs) name value until
unfolding run step
run-Has reg [] name value until all h = h
run-Has reg (tries now m ∷ cs) name value until all h =
    run-Has (try_lock now m reg).registry cs name value until all.1
      (try_lock-Has reg name value until now m all.0.1 h)
run-Has reg (renews now m ∷ cs) name value until all h =
    run-Has (renew now m reg) cs name value until all.1
      (renew-Has reg name value until now m all.0 h)
run-Has reg (unlocks m ∷ cs) name value until all h =
    run-Has (after_unlock reg (unlock m reg)) cs name value until all.1
      (unlock-Has reg name value until m all.0 h)

-- Mutual exclusion: while a granted lock has not run out, whatever calls handles with other tokens
-- make meanwhile, an attempt on the same name is refused and leaves the registry as it is.
pub try_lock-excludes :
    (now later : ℕ) (l m : MemoryLock) (reg : Registry) (cs : List LockCall)
    → (try_lock now l reg).granted ≡ true
    → All (IsForeign l.value (now + l.ttl)) cs
    → m.name ≡ l.name
    → later < now + l.ttl
    → ((try_lock later m (run (try_lock now l reg).registry cs)).granted ≡ false)
      × ((try_lock later m (run (try_lock now l reg).registry cs)).registry
          ≡ run (try_lock now l reg).registry cs)
unfolding try_lock
try_lock-excludes now later l m reg cs got foreign same soon =
    let mine : LockEntry = record { value = l.value; expire_at = now + l.ttl } in
    let there : lookup l.name (try_lock now l reg).registry ≡ some mine =
      ground (arith, lookup-insert l.name l.name mine reg, eq_refl l.name) in
    let (e, h, v, lasts) =
      run-Has (try_lock now l reg).registry cs l.name l.value (now + l.ttl) foreign
        (mine, there, refl, omega arith) in
    let held : is_held later (lookup m.name (run (try_lock now l reg).registry cs)) ≡ true =
      rw (same, h) (lt→ltb later e.expire_at (omega (arith, lasts, soon))) in
    (rw (try_lock, held) refl, rw (try_lock, held) refl)
