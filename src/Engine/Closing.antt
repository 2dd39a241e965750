-- ===== src/Engine/Closing.antt =====
-- workflow/pkg/engine/engine.go, `executeWorkflow`, `failExecution`: what the end of a run stores.
use landc_go.Model.{Workflow, Execution, Task, ExecutionStatus, task_status_eq, TaskStatus}
use landc_go.Store.Memory.{MemoryStore, update_execution}
use landc_go.Engine.Node.{
  Run, canceled, deadline_exceeded, context_error, execution_failed, no_executor, error_text,
}
use landc_go.Engine.Loop.{DagEnd, finished, failed, paused_early, out_of_fuel}
use landc_go.Engine.Api.{Engine}
use landc_go.Engine.Execute.{
  drop_running, save_or_ignore, fail_execution, reload, all_done, settle, close_run,
}
use landc_go.Prelude.{
  List, String, [], arith, eq_refl, if◌then◌else◌, insert, lookup, lookup-delete, lookup-insert,
  mark, false, none, ok, refl, some, ℕ, ◌+◌, ◌||◌, ◌∷◌, ◌≡◌, All, All→all, marked, true, Bool-cases,
  Flags, inl, inr, all,
}

abbrev pub raised : Execution → Execution
raised x = record x { version = x.version + 1 }

-- The store holds this execution at the version that the caller has.
abbrev pub Current : MemoryStore → Execution → Type 0
Current s x = (b : Execution) × (lookup x.id s.executions ≡ some b) × (b.version ≡ x.version)

abbrev pub with_execution : MemoryStore → Execution → MemoryStore
with_execution s x = record s { executions = insert x.id x s.executions }

pub update_execution-accepts :
    (s : MemoryStore) (x : Execution)
    → Current s x
    → update_execution s x ≡ ok (with_execution s (raised x), raised x)
unfolding update_execution
update_execution-accepts s x (b, q, v) = ground (arith, q, v)

pub holds_inserted :
    (s : MemoryStore) (x : Execution) → lookup x.id (with_execution s x).executions ≡ some x
holds_inserted s x = ground (arith, lookup-insert x.id x.id x s.executions, eq_refl x.id)

save_or_ignore-store :
    (e : Engine) (x : Execution)
    → Current e.store x
    → (save_or_ignore e x).store ≡ with_execution e.store (raised x)
save_or_ignore-store e x h = rw (save_or_ignore, update_execution-accepts e.store x h) refl

-- What the end of a run leaves: this execution in the store, and no entry of it in `running`.
abbrev pub Ends : Engine → Execution → Type 0
Ends e x = (lookup x.id e.store.executions ≡ some x) × (lookup x.id e.running ≡ none)

drop_running-Ends :
    (e : Engine) (x : Execution)
    → Current e.store x
    → Ends (drop_running x.id (save_or_ignore e x)) (raised x)
drop_running-Ends e x h = (
  rw (save_or_ignore-store e x h) (holds_inserted e.store (raised x)),
  ground (arith, lookup-delete x.id x.id (save_or_ignore e x).running, eq_refl x.id),
)

pub fail_execution-Ends :
    (now : ℕ) (e : Engine) (x : Execution) (text : String)
    → Current e.store x
    → Ends (fail_execution now e x text) (record x {
      finished_at = some now;
      status = ExecutionStatus.failed;
      error = text;
      version = x.version + 1;
    })
unfolding fail_execution
fail_execution-Ends now e x text h =
    drop_running-Ends e
      (record x { finished_at = some now; status = ExecutionStatus.failed; error = text }) h

-- `reload` touches neither the store nor the waiting errors.
pub reload-Kept :
    (ts : List Task) (r : Run) → ((reload ts r).store ≡ r.store) × ((reload ts r).errors ≡ r.errors)
unfolding reload
reload-Kept [] r = (refl, refl)
reload-Kept (t ∷ ts) r = reload-Kept ts (record r {
  task_map = insert t.node_id t r.task_map;
  completed =
      if task_status_eq t.status TaskStatus.completed || task_status_eq t.status TaskStatus.skipped
      then mark t.node_id r.completed
      else r.completed;
})

abbrev pub completion : ℕ → Execution → Execution
completion now x = record x { finished_at = some now; status = ExecutionStatus.completed }

pub close_run-completed :
    (now : ℕ) (e : Engine) (x : Execution) (w : Workflow) (r : Run)
    → Current r.store x
    → All (λ n. marked n.id r.completed ≡ true) w.nodes
    → Ends (close_run now e x w r finished) (raised (completion now x))
unfolding close_run settle all_done
close_run-completed now e x w r h done =
    let all_marked : all_done w.nodes r.completed ≡ true =
      All→all (λ n. marked n.id r.completed) w.nodes done in
    rw (all_marked, if◌then◌else◌)
      (drop_running-Ends (record e { store = r.store }) (completion now x) h)

-- The status with which a run that ends like this is stored.
abbrev pub closed_status : Workflow → Run → DagEnd → ExecutionStatus
closed_status w r (failed (context_error canceled)) = ExecutionStatus.running
closed_status w r (failed (context_error deadline_exceeded)) = ExecutionStatus.failed
closed_status w r (failed (no_executor type)) = ExecutionStatus.failed
closed_status w r (failed (execution_failed true message)) = ExecutionStatus.running
closed_status w r (failed (execution_failed false message)) = ExecutionStatus.failed
closed_status w r end =
    if all (λ n. marked n.id r.completed) w.nodes
    then ExecutionStatus.completed
    else ExecutionStatus.running

-- The store holds the execution with this status.
abbrev pub HasStatus : Engine → String → ExecutionStatus → Type 0
HasStatus e id status =
    (y : Execution) × (lookup id e.store.executions ≡ some y) × (y.status ≡ status)

settle-HasStatus :
    (now : ℕ) (e : Engine) (x : Execution) (w : Workflow) (flags : Flags)
    → (b : Execution) → lookup x.id e.store.executions ≡ some b
    → b.version ≡ x.version
    → b.status ≡ ExecutionStatus.running
    → HasStatus (settle now e x w flags) x.id (
        if all (λ n. marked n.id flags) w.nodes
        then ExecutionStatus.completed
        else ExecutionStatus.running)
unfolding settle all_done
settle-HasStatus now e x w flags b found same running =
    elim (Bool-cases (all (λ n. marked n.id flags) w.nodes)) [
      | inl q ↦
          rw (settle, all_done, q, if◌then◌else◌)
            (
              raised (completion now x),
              (drop_running-Ends e (completion now x) (b, found, same)).0,
              refl,
            )
      | inr q ↦ rw (settle, all_done, q, if◌then◌else◌) (b, found, running)
    ]

pub close_run-HasStatus :
    (now : ℕ) (e : Engine) (x : Execution) (w : Workflow) (r : Run) (end : DagEnd)
    → x.status ≡ ExecutionStatus.running
    → (b : Execution) → lookup x.id r.store.executions ≡ some b
    → b.version ≡ x.version
    → b.status ≡ ExecutionStatus.running
    → HasStatus (close_run now e x w r end) x.id (closed_status w r end)
unfolding close_run
close_run-HasStatus now e x w r (failed (context_error canceled)) mine b found same running =
    (b, found, running)
close_run-HasStatus now e x w r (failed (context_error deadline_exceeded)) mine b found same
      running =
    (
      _,
      (fail_execution-Ends now (record e { store = r.store }) x "context deadline exceeded"
          (b, found, same)).0,
      refl,
    )
close_run-HasStatus now e x w r (failed (no_executor type)) mine b found same running = (
  _,
  (fail_execution-Ends now (record e { store = r.store }) x (error_text (no_executor type))
      (b, found, same)).0,
  refl,
)
close_run-HasStatus now e x w r (failed (execution_failed true text)) mine b found same running =
    (b, found, running)
close_run-HasStatus now e x w r (failed (execution_failed false text)) mine b found same running =
    (_, (fail_execution-Ends now (record e { store = r.store }) x text (b, found, same)).0, refl)
close_run-HasStatus now e x w r paused_early mine b found same running =
    let seen : Execution = record x { current_node_id = "" } in
    rw (close_run, update_execution-accepts r.store seen (b, found, same))
      (settle-HasStatus now (record e { store = with_execution r.store (raised seen) })
        (raised seen) w r.completed (raised seen) (holds_inserted r.store (raised seen)) refl mine)
close_run-HasStatus now e x w r finished mine b found same running =
    settle-HasStatus now (record e { store = r.store }) x w r.completed b found same running
close_run-HasStatus now e x w r out_of_fuel mine b found same running =
    settle-HasStatus now (record e { store = r.store }) x w r.completed b found same running
