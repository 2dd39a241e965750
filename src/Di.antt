-- ===== src/Di.antt =====
-- frame/pkg/di/module.go: modules and the module manager. The functions of a module act on a world
-- `W`, a parameter. A `*Module` is an address; `heap` holds what the builder calls have set, and the
-- manager's `states` what `Init` changes, which all who hold the module share. Go locks the manager
-- for each call, so a call is one step.
pub mod Starting
pub mod Closing
pub mod Retry
use mathlib.Core.List.{reverse, ◌++◌}
use landc_go.Prelude.{
  Bool, List, Map, Option, String, [], eqb, false, if◌then◌else◌, insert, lookup, none, some, true,
  ℕ, ◌||◌, ◌∷◌,
}

pub record Module (W : Type 0) : Type 0 where
  pub name : String
  pub init_fn : Option (W → W × Option String)
  pub close_fn : Option (W → W × Option String)
  pub deps : List String

-- `initOnce` and `inited`.
pub record ModuleState : Type 0 where
  pub init_once : Bool
  pub inited : Bool

pub data UseError : Type 0 where
  missing_dep : (name dep : String) → UseError
  init_failed : (name cause : String) → UseError
  close_failed : (name cause : String) → UseError

pub record ModuleManager (W : Type 0) : Type 0 where
  pub states : ℕ → ModuleState
  pub world : W
  pub modules : Map ℕ
  pub order : List String

abbrev pub is_none : Option String → Bool
is_none none = true
is_none (some e) = false

unfoldable pub first_missing : List String → Map ℕ → Option String
unfolding lookup
first_missing [] modules = none
first_missing (d ∷ ds) modules =
    let rest = first_missing ds modules in elim (lookup d modules) [ none ↦ some d | some _ ↦ rest ]

module _ {W : Type 0} where
  unfoldable pub new_module : String → Module W
  new_module name = record { name = name; init_fn = none; close_fn = none; deps = [] }

  unfoldable pub depends_on : List String → Module W → Module W
  depends_on names m = record m { deps = m.deps ++ names }

  abbrev pub call : Option (W → W × Option String) → W → W × Option String
  call none w = (w, none)
  call (some f) w = f w

  -- An error ends a loop.
  abbrev pub and_then :
      ModuleManager W × Option UseError
      → (ModuleManager W → ModuleManager W × Option UseError)
      → ModuleManager W × Option UseError
  and_then (mm, some e) rest = (mm, some e)
  and_then (mm, none) rest = rest mm

module _ {W : Type 0} (heap : ℕ → Module W) where
  -- `Module.Init`: what `initOnce` lets through runs once, even if it fails.
  unfoldable pub init : ℕ → ModuleManager W → ModuleManager W × Option String
  init p mm =
      let (w, failure) = call (heap p).init_fn mm.world in
      let next : ModuleState = record {
        init_once = true;
        inited = is_none failure || (mm.states p).inited;
      } in
      if (mm.states p).init_once
      then (mm, none)
      else (record mm { world = w; states = λ q. if eqb q p then next else mm.states q }, failure)

  -- The entry of the map and, for a name that is new, the place in the order.
  unfoldable pub record_module : ℕ → ModuleManager W → ModuleManager W
  unfolding lookup insert
  record_module p mm =
      let name = (heap p).name in
      record mm {
        order = elim (lookup name mm.modules) [
          | none ↦ mm.order ++ (name ∷ [])
          | some _ ↦ mm.order
        ];
        modules = insert name p mm.modules;
      }

  -- What follows a call of `Init`.
  unfoldable pub enter_module :
      ℕ → ModuleManager W × Option String → ModuleManager W × Option UseError
  unfolding record_module
  enter_module p (mm, some e) = (mm, some (init_failed (heap p).name e))
  enter_module p (mm, none) = (record_module p mm, none)

  unfoldable pub use_one : ℕ → ModuleManager W → ModuleManager W × Option UseError
  unfolding init first_missing enter_module
  use_one p mm = elim (first_missing (heap p).deps mm.modules) [
    | some d ↦ (mm, some (missing_dep (heap p).name d))
    | none ↦ enter_module p (init p mm)
  ]

  unfoldable pub use_modules : List ℕ → ModuleManager W → ModuleManager W × Option UseError
  unfolding use_one
  use_modules [] mm = (mm, none)
  use_modules (p ∷ ps) mm = and_then (use_one p mm) (λ mm'. use_modules ps mm')

  unfoldable pub close_one : String → ℕ → ModuleManager W → ModuleManager W × Option UseError
  close_one k p mm =
      let (w, failure) = call (heap p).close_fn mm.world in
      (record mm { world = w }, elim failure [ none ↦ none | some e ↦ some (close_failed k e) ])

  -- The loop of `Close`, over the names in the order in which it visits them.
  unfoldable pub close_names : List String → ModuleManager W → ModuleManager W × Option UseError
  unfolding lookup close_one
  close_names [] mm = (mm, none)
  close_names (k ∷ ks) mm = elim (lookup k mm.modules) [
    | none ↦ close_names ks mm
    | some p ↦ and_then (close_one k p mm) (λ mm'. close_names ks mm')
  ]

  unfoldable pub close : ModuleManager W → ModuleManager W × Option UseError
  unfolding close_names
  close mm = close_names (reverse mm.order) mm
