-- ===== src/Engine/Outcome.antt =====
-- workflow/pkg/engine/engine.go, `executeWorkflow`: what the store holds when the goroutine ends.
use landc_go.Model.{Workflow, Execution, ExecutionStatus, can_transition}
use landc_go.Store.Memory.{list_tasks}
use landc_go.Dag.Graph.{DagGraph, DagError, new_dag_graph}
use landc_go.Dag.Progress.{SourcesKnown}
use landc_go.Engine.Node.{Run}
use landc_go.Engine.Loop.{DagEnd, Signals, execute_dag}
use landc_go.Engine.Smooth.{IsQuiet, IsSmooth, execute_dag-completes}
use landc_go.Engine.Keeps.{execute_dag-Same}
use landc_go.Engine.Api.{Engine, Context, init_pause_signal}
use landc_go.Engine.Execute.{reload, first_run, execute_workflow, begin_run, run_graph}
use landc_go.Prelude.{arith, lookup, ok, refl, some, ℕ, ◌+◌, ◌≡◌, All, err, false}
use landc_go.Engine.Closing.{
  Current, Ends, HasStatus, closed_status, raised, with_execution, update_execution-accepts,
  holds_inserted, fail_execution-Ends, reload-Kept, completion, close_run-completed,
  close_run-HasStatus,
}

module _ (c : Context) (sig : Signals) (quiet : IsQuiet sig) (w : Workflow) (g : DagGraph)
    (built : new_dag_graph w ≡ ok g) (known : SourcesKnown w)
    (smooth : All (IsSmooth c.env) w.nodes) where
  run_graph-completed :
      (e : Engine) (x : Execution)
      → Current e.store x
      → Ends (run_graph c sig e x w g) (raised (completion c.env.now x))
  unfolding run_graph
  run_graph-completed e x (b, found, same) =
      let r = reload (list_tasks e.store x.id) (first_run e.store) in
      let t = (execute_dag c.env sig g x r).0 in
      let (kept, calm) = reload-Kept (list_tasks e.store x.id) (first_run e.store) in
      let (end, all_marked) =
        execute_dag-completes c.env sig w g x r built known quiet smooth calm in
      let still : lookup x.id t.store.executions ≡ some b =
        rw (execute_dag-Same c.env sig g x r, kept) found in
      rw end
        (close_run-completed c.env.now (init_pause_signal x.id e) x w t (b, still, same) all_marked)

-- The execution as `executeWorkflow` first stores it.
abbrev pub begun : ℕ → Execution → Execution
begun now x = raised (record x { status = ExecutionStatus.running; started_at = some now })

abbrev started : Engine → ℕ → Execution → Engine
started e now x = record e { store = with_execution e.store (begun now x) }

begin_run-started :
    (c : Context) (sig : Signals) (e : Engine) (x : Execution) (w : Workflow) (g : DagGraph)
    → Current e.store x
    → begin_run c sig e x w g ≡ run_graph c sig (started e c.env.now x) (begun c.env.now x) w g
unfolding begin_run
begin_run-started c sig e x w g h =
    let next : Execution = record x {
      status = ExecutionStatus.running;
      started_at = some c.env.now;
    } in
    rw (begin_run, update_execution-accepts e.store next h) refl

started-Current :
    (e : Engine) (now : ℕ) (x : Execution) → Current (started e now x).store (begun now x)
started-Current e now x = (begun now x, holds_inserted e.store (begun now x), refl)

execute_workflow-started :
    (c : Context) (sig : Signals) (e : Engine) (x : Execution) (w : Workflow) (g : DagGraph)
    → new_dag_graph w ≡ ok g
    → Current e.store x
    → execute_workflow c sig e x w ≡ run_graph c sig (started e c.env.now x) (begun c.env.now x) w g
unfolding execute_workflow
execute_workflow-started c sig e x w g built h =
    rw (execute_workflow, built) (begin_run-started c sig e x w g h)

-- If nobody else has changed the execution meanwhile, each edge that is not internal starts at a
-- node, every node has an executor that succeeds or whose failures are skipped, and nobody cancels
-- or pauses, then `executeWorkflow` on an accepted workflow ends with the execution stored as
-- COMPLETED, finished, and two versions up, and with its entry in `running` gone.
pub execute_workflow-completes :
    (c : Context) (sig : Signals) (e : Engine) (x : Execution) (w : Workflow) (g : DagGraph)
    → new_dag_graph w ≡ ok g
    → SourcesKnown w
    → IsQuiet sig
    → All (IsSmooth c.env) w.nodes
    → Current e.store x
    → Ends (execute_workflow c sig e x w) (raised (completion c.env.now (begun c.env.now x)))
execute_workflow-completes c sig e x w g built known quiet smooth h =
    rw (execute_workflow-started c sig e x w g built h) (
      run_graph-completed c sig quiet w g built known smooth (started e c.env.now x)
        (begun c.env.now x) (started-Current e c.env.now x))

-- The execution of a workflow that `NewDAGGraph` refuses goes from PENDING to FAILED, with the text of
-- the refusal, finished, and one version up, if nobody else has changed it meanwhile, and its
-- entry in `running` is gone; `CanTransition` does not permit this change of status.
pub execute_workflow-refused :
    (c : Context) (sig : Signals) (e : Engine) (x : Execution) (w : Workflow) (z : DagError)
    → new_dag_graph w ≡ err z
    → x.status ≡ ExecutionStatus.pending
    → Current e.store x
    → Ends (execute_workflow c sig e x w) (record x {
      finished_at = some c.env.now;
      status = ExecutionStatus.failed;
      error = c.dag_error_text z;
      version = x.version + 1;
    })
      × (can_transition x ExecutionStatus.failed ≡ false)
unfolding execute_workflow can_transition
execute_workflow-refused c sig e x w z refused pending h = (
  rw (execute_workflow, refused) (fail_execution-Ends c.env.now e x (c.dag_error_text z) h),
  ground (arith, pending),
)

-- The rounds of a run of `executeWorkflow`, from the tasks that the store has, and how they end.
abbrev pub rounds_of : Context → Signals → Engine → Execution → DagGraph → Run × DagEnd
rounds_of c sig e x g =
    let s = with_execution e.store (begun c.env.now x) in
    execute_dag c.env sig g (begun c.env.now x) (reload (list_tasks s x.id) (first_run s))

-- Whatever the executors answer, and whenever the run is cancelled or paused: if nobody else changes
-- the execution meanwhile, `executeWorkflow` on an accepted workflow leaves it stored as FAILED
-- if the rounds of the run end with an error that is no cancellation, the deadline of the context
-- among these, as RUNNING if they end with a cancellation, and else as COMPLETED if they have
-- completed every node and as RUNNING if not.
pub execute_workflow-HasStatus :
    (c : Context) (sig : Signals) (e : Engine) (x : Execution) (w : Workflow) (g : DagGraph)
    → new_dag_graph w ≡ ok g
    → Current e.store x
    → HasStatus
        (execute_workflow c sig e x w)
        x.id
        (closed_status w (rounds_of c sig e x g).0 (rounds_of c sig e x g).1)
unfolding run_graph
execute_workflow-HasStatus c sig e x w g built h =
    let e' = started e c.env.now x in
    let y = begun c.env.now x in
    let r = reload (list_tasks e'.store y.id) (first_run e'.store) in
    let (t, end) = execute_dag c.env sig g y r in
    let (kept, _) = reload-Kept (list_tasks e'.store y.id) (first_run e'.store) in
    let still : lookup y.id t.store.executions ≡ some y =
      rw (execute_dag-Same c.env sig g y r, kept) (holds_inserted e.store y) in
    rw (execute_workflow-started c sig e x w g built h)
      (close_run-HasStatus c.env.now (init_pause_signal y.id e') y w t end refl y still refl refl)
