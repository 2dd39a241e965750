-- ===== src/Lock.antt =====
-- workflow/pkg/lock/memory_lock.go: the locks that share one registry of the process. Go's two
-- mutexes make each call one step. An instant is a number; the goroutine that renews a lock is a
-- call `renew` at each tick of its timer.
pub mod Exclusion
use landc_go.Prelude.{
  Bool, List, Map, Option, String, [], delete, false, if◌then◌else◌, insert, lookup, ltb, none, not,
  some, true, ℕ, ◌&&◌, ◌+◌, ◌==◌, ◌||◌, ◌∷◌,
}

pub record LockEntry : Type 0 where
  pub value : String
  pub expire_at : ℕ

abbrev pub Registry : Type 0
Registry = Map LockEntry

-- A handle, with the fields of its `LockConfig` that the code reads. `stopped`: `renewStop` is
-- closed.
pub record MemoryLock : Type 0 where
  pub name : String
  pub value : String
  pub ttl : ℕ
  pub auto_renew : Bool
  pub stopped : Bool
  pub locked : Bool

-- `value` is what the package uuid draws.
unfoldable pub new_memory_lock : (name value : String) (ttl : ℕ) (auto_renew : Bool) → MemoryLock
new_memory_lock name value ttl auto_renew = record {
  name = name;
  value = value;
  ttl = ttl;
  auto_renew = auto_renew;
  stopped = false;
  locked = false;
}

pub record Attempt : Type 0 where
  pub granted : Bool
  pub handle : MemoryLock
  pub registry : Registry

abbrev pub is_held : ℕ → Option LockEntry → Bool
is_held now none = false
is_held now (some e) = ltb now e.expire_at

unfoldable pub try_lock : ℕ → MemoryLock → Registry → Attempt
try_lock now l reg =
    if is_held now (lookup l.name reg)
    then record { granted = false; handle = l; registry = reg }
    else record {
      granted = true;
      handle = record l { locked = true };
      registry = insert l.name (record { value = l.value; expire_at = now + l.ttl }) reg;
    }

-- `Lock`: the instants of its attempts, each with whether the context is done behind it. `none`: no
-- attempt was granted.
unfoldable pub lock_within : List (ℕ × Bool) → MemoryLock → Registry → Option Attempt
unfolding try_lock
lock_within [] l reg = none
lock_within ((now, done) ∷ ts) l reg =
    let rest = lock_within ts l reg in
    if (try_lock now l reg).granted
    then some (try_lock now l reg)
    else (if done then none else rest)

abbrev pub is_own : String → Option LockEntry → Bool
is_own value none = false
is_own value (some e) = e.value == value

unfoldable pub release : MemoryLock → Registry → Registry
release l reg = if is_own l.value (lookup l.name reg) then delete l.name reg else reg

-- `none`: Go closes `renewStop` a second time, and panics.
unfoldable pub unlock : MemoryLock → Registry → Option (MemoryLock × Registry)
unfolding release
unlock l reg =
    if not l.locked
    then some (l, reg)
    else (if l.auto_renew && l.stopped
        then none
        else some (record l { locked = false; stopped = l.auto_renew || l.stopped }, release l reg))

-- A tick of the timer of `startAutoRenew`.
unfoldable pub renew : ℕ → MemoryLock → Registry → Registry
renew now l reg =
    if is_own l.value (lookup l.name reg)
    then insert l.name (record { value = l.value; expire_at = now + l.ttl }) reg
    else reg
