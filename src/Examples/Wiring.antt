-- ===== src/Examples/Wiring.antt =====
-- The module manager: examples. The world is the list of what has run.
use landc_go.Di.{Module, ModuleManager, ModuleState, use_modules, close, call, init_failed}
use landc_go.Di.Starting.{DepsFirst, run_all, names}
use landc_go.Di.Closing.{closers, close-use_modules}
use landc_go.Di.Retry.{use_modules-again}
use landc_go.Prelude.{
  List, Option, String, [], false, lookup, none, refl, some, suc, zero, ℕ, ◌∷◌, ◌≡◌, Distinct,
  apart, inl, inr,
}

abbrev logs : String → List String → List String × Option String
logs text world = (text ∷ world, none)

abbrev fails : List String → List String × Option String
fails world = (world, some "no connection")

abbrev heap : ℕ → Module (List String)
heap zero = record {
  name = "db";
  init_fn = some (logs "open db");
  close_fn = some (logs "close db");
  deps = [];
}
heap (suc zero) = record {
  name = "users";
  init_fn = some (logs "open users");
  close_fn = some (logs "close users");
  deps = "db" ∷ [];
}
heap (suc (suc n)) = record { name = "mail"; init_fn = some fails; close_fn = none; deps = [] }

abbrev manager : ModuleManager (List String)
manager = record {
  states = λ p. record { init_once = false; inited = false };
  world = [];
  modules = [];
  order = [];
}

succeeds : (use_modules heap (0 ∷ 1 ∷ []) manager).1 ≡ none
unfolding use_modules
succeeds = refl

distinct : Distinct (names heap (0 ∷ 1 ∷ []))
distinct =
    (λ i. elim i [ inl e ↦ apart "users" "db" refl e | inr none_left ↦ none_left ], (λ i. i, tt))

close-use_modules_example :
    DepsFirst heap [] (0 ∷ 1 ∷ [])
    × (run_all (some (logs "open db") ∷ some (logs "open users") ∷ []) []
        ≡ ((use_modules heap (0 ∷ 1 ∷ []) manager).0.world, none))
    × ((close heap (use_modules heap (0 ∷ 1 ∷ []) manager).0).0.world
        ≡ (run_all (closers heap (1 ∷ 0 ∷ [])) (use_modules heap (0 ∷ 1 ∷ []) manager).0.world).0)
close-use_modules_example =
    close-use_modules heap (0 ∷ 1 ∷ []) manager refl refl distinct (refl, (refl, tt)) succeeds

use_modules-again_example :
    ((use_modules heap (2 ∷ []) manager).1 ≡ some (init_failed "mail" "no connection"))
    × ((use_modules heap (2 ∷ []) (use_modules heap (2 ∷ []) manager).0).1 ≡ none)
    × (lookup "mail" (use_modules heap (2 ∷ []) (use_modules heap (2 ∷ []) manager).0).0.modules
        ≡ some 2)
    × (((use_modules heap (2 ∷ []) (use_modules heap (2 ∷ []) manager).0).0.states 2).inited
        ≡ false)
unfolding landc_go.Di.first_missing
use_modules-again_example = use_modules-again heap 2 manager [] "no connection" refl refl refl refl
