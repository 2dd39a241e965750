-- ===== src/Engine/Execute.antt =====
-- workflow/pkg/engine/engine.go: `executeWorkflow`, which a started run goes through, and
-- `failExecution`.
use landc_go.Model.{Workflow, Execution, Task, Node, ExecutionStatus, TaskStatus, task_status_eq}
use landc_go.Store.Memory.{MemoryStore, update_execution, list_tasks}
use landc_go.Dag.Graph.{new_dag_graph, DagGraph}
use landc_go.Engine.Node.{Run, canceled, context_error, execution_failed, error_text}
use landc_go.Engine.Loop.{Signals, DagEnd, failed, paused_early, execute_dag}
use landc_go.Prelude.{
  Bool, true, Flags, List, String, [], all, delete, err, if◌then◌else◌, insert, mark, marked, ok,
  some, ℕ, ◌||◌, ◌∷◌,
}
use landc_go.Engine.Api.{Engine, Context, save, init_pause_signal}

abbrev pub drop_running : String → Engine → Engine
drop_running id e = record e { running = delete id e.running }

-- An update whose error Go ignores.
abbrev pub save_or_ignore : Engine → Execution → Engine
save_or_ignore e x = elim (update_execution e.store x) [
  | err z ↦ e
  | ok (s, y) ↦ record e { store = s }
]

unfoldable pub fail_execution : ℕ → Engine → Execution → String → Engine
unfolding update_execution
fail_execution now e x text = drop_running x.id (
    save_or_ignore e
      (record x { finished_at = some now; status = ExecutionStatus.failed; error = text }))

-- The loop over the tasks that the store already has: `taskMap` and `completedNodes`.
unfoldable pub reload : List Task → Run → Run
reload [] r = r
reload (t ∷ ts) r = reload ts (record r {
  task_map = insert t.node_id t r.task_map;
  completed =
      if task_status_eq t.status TaskStatus.completed || task_status_eq t.status TaskStatus.skipped
      then mark t.node_id r.completed
      else r.completed;
})

abbrev pub first_run : MemoryStore → Run
first_run s = record { store = s; completed = []; task_map = []; variables = []; errors = [] }

unfoldable pub all_done : List Node → Flags → Bool
all_done ns completed = all (λ n. marked n.id completed) ns

-- The end of `executeWorkflow`: the run is completed if every node is.
unfoldable pub settle : ℕ → Engine → Execution → Workflow → Flags → Engine
unfolding all_done update_execution
settle now e x w completed = drop_running x.id (
    if all_done w.nodes completed
    then save_or_ignore e (record x { finished_at = some now; status = ExecutionStatus.completed })
    else e)

-- Behind `executeDAG`, with the update that it makes itself when it is paused: a pause ends the run
-- without an error, as the end of the rounds does. The timer of `PauseTimeout`, which later cancels
-- the execution, is left out.
unfoldable pub close_run : ℕ → Engine → Execution → Workflow → Run → DagEnd → Engine
unfolding fail_execution settle update_execution
close_run now e x w r (failed (context_error canceled)) = record e { store = r.store }
close_run now e x w r (failed (execution_failed true message)) = record e { store = r.store }
close_run now e x w r (failed z) =
    fail_execution now (record e { store = r.store }) x (error_text z)
close_run now e x w r paused_early =
    let seen : Execution = record x { current_node_id = "" } in
    elim (update_execution r.store seen) [
      | err z ↦ settle now (record e { store = r.store }) seen w r.completed
      | ok (s, y) ↦ settle now (record e { store = s }) y w r.completed
    ]
close_run now e x w r end = settle now (record e { store = r.store }) x w r.completed

-- The tasks of an earlier run are loaded, the graph is run, and the run is closed.
unfoldable pub run_graph : Context → Signals → Engine → Execution → Workflow → DagGraph → Engine
unfolding list_tasks reload execute_dag close_run init_pause_signal
run_graph c sig e x w g =
    let r = reload (list_tasks e.store x.id) (first_run e.store) in
    let (t, end) = execute_dag c.env sig g x r in
    close_run c.env.now (init_pause_signal x.id e) x w t end

-- The execution is stored as RUNNING; where that fails, Go returns at once.
unfoldable pub begin_run : Context → Signals → Engine → Execution → Workflow → DagGraph → Engine
unfolding update_execution run_graph
begin_run c sig e x w g =
    elim (save e (record x { status = ExecutionStatus.running; started_at = some c.env.now })) [
      | err z ↦ e
      | ok (e', y) ↦ run_graph c sig e' y w g
    ]

unfoldable pub execute_workflow : Context → Signals → Engine → Execution → Workflow → Engine
unfolding new_dag_graph begin_run fail_execution
execute_workflow c sig e x w = elim (new_dag_graph w) [
  | err z ↦ fail_execution c.env.now e x (c.dag_error_text z)
  | ok g ↦ begin_run c sig e x w g
]
