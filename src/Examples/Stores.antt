-- ===== src/Examples/Stores.antt =====
-- The store and the idempotency checker: examples.
use landc_go.Model.{ExecutionStatus}
use landc_go.Store.Memory.{MemoryStore, version_conflict, update_execution}
use landc_go.Store.Versions.{
  creates_task, removes_dead, run, HasVersion, run-HasVersion, update_execution-conflict,
}
use landc_go.Examples.Samples.{execution, store, task}
use landc_go.Prelude.{
  In, [], arith, err, if◌then◌else◌, inl, leb, length, lookup, ok, pos, refl, some, suc, true,
  values, ℕ, ◌++◌, ◌+◌, ◌<◌, ◌==◌, ◌↔◌, ◌∷◌, ◌≡◌, ◌≤◌, List, apart,
}

abbrev before : MemoryStore
before = store (execution ExecutionStatus.running 2)

abbrev behind : MemoryStore
behind = store (execution ExecutionStatus.completed 3)

updates :
    update_execution before (execution ExecutionStatus.completed 2)
    ≡ ok (behind, execution ExecutionStatus.completed 3)
unfolding update_execution landc_go.Prelude.lookup landc_go.Prelude.insert
updates = refl

there : HasVersion before "x" 2
unfolding landc_go.Prelude.lookup
there = (execution ExecutionStatus.running 2, refl, omega arith)

run-HasVersion_example : HasVersion (run before (creates_task task ∷ removes_dead 9 3 ∷ [])) "x" 2
run-HasVersion_example =
    run-HasVersion before (creates_task task ∷ removes_dead 9 3 ∷ []) "x" 2 there

update_execution-conflict_example :
    (v : ℕ) × (update_execution
        (run behind (creates_task task ∷ []))
        (execution ExecutionStatus.cancelled 2)
      ≡ err (version_conflict "x" v 2))
    × (2 < v)
update_execution-conflict_example =
    update_execution-conflict before behind (execution ExecutionStatus.completed 2)
      (execution ExecutionStatus.completed 3) (execution ExecutionStatus.cancelled 2)
      (creates_task task ∷ []) updates refl refl
