-- ===== src/Examples/Runs.antt =====
-- The run of a workflow and the calls of the engine: examples.
use landc_go.Model.{Workflow, Edge, Execution, ExecutionStatus, TriggerType}
use landc_go.Dag.Graph.{new_dag_graph}
use mathlib.Core.Bool.{false≢true}
use landc_go.Dag.Progress.{SourcesKnown}
use landc_go.Store.Memory.{get_execution, get_workflow}
use landc_go.Store.Versions.{creates_task, run}
use landc_go.Engine.Loop.{finished, execute_dag}
use landc_go.Engine.Steps.{Steps, DepsClosed, execute_dag-Steps, execute_dag-DepsClosed}
use landc_go.Engine.Complete.{execute_dag-finished}
use landc_go.Engine.Smooth.{IsQuiet, IsSmooth, execute_dag-completes}
use landc_go.Engine.Api.{Engine, Context, pause_workflow, cancel_workflow, start_workflow}
use landc_go.Engine.Pausing.{Holds, Refused, pause_workflow-kept}
use landc_go.Engine.Once.{start_workflow-once}
use landc_go.Examples.Samples.{node, chain, chain_graph, execution, env, quiet, fresh, store, task}
use landc_go.Prelude.{
  All, String, [], ap, arith, false, inl, inr, marked, none, ok, pos, refl, some, sym, true, ℕ, ◌∷◌,
  ◌≡◌, apart, ◌∙◌, unmarked-nil, In, values,
}

pub built : new_dag_graph chain ≡ ok chain_graph
unfolding new_dag_graph landc_go.Dag.Cycle.color_of landc_go.Prelude.insert
built = refl

pub chain_known : SourcesKnown chain
chain_known e (inl q) h = inl (ap (λ (x : Edge). x.source_id) q)
chain_known e (inr i) h = absurd i

pub quiet-IsQuiet : IsQuiet quiet
quiet-IsQuiet = record {
  uncancelled = λ k. refl;
  unpaused = λ k. refl;
  nodes_uncancelled = λ k n. refl;
}

pub smooth : (id : String) → IsSmooth env (node id)
smooth id = record { known = refl; passes = λ t. inl tt }

execute_dag-completes_example :
    ((execute_dag env quiet chain_graph (execution ExecutionStatus.running 2) fresh).1 ≡ finished)
    × All
        (λ n.
          marked n.id
            (execute_dag env quiet chain_graph
              (execution ExecutionStatus.running 2)
              fresh).0.completed
          ≡ true)
        chain.nodes
execute_dag-completes_example =
    execute_dag-completes env quiet chain chain_graph (execution ExecutionStatus.running 2) fresh
      built chain_known quiet-IsQuiet (smooth "a", (smooth "b", tt)) refl

nothing-DepsClosed : DepsClosed chain_graph.workflow []
nothing-DepsClosed k h = absurd (false≢true (sym (unmarked-nil k) ∙ h))

execute_dag-DepsClosed_example :
    DepsClosed chain_graph.workflow
      (execute_dag env quiet chain_graph (execution ExecutionStatus.running 2) fresh).0.completed
execute_dag-DepsClosed_example =
    execute_dag-DepsClosed env quiet chain chain_graph (execution ExecutionStatus.running 2) fresh
      built nothing-DepsClosed

execute_dag-Steps_example :
    Steps env chain_graph.workflow
      (execution ExecutionStatus.running 2)
      fresh
      (execute_dag env quiet chain_graph (execution ExecutionStatus.running 2) fresh).0
execute_dag-Steps_example =
    execute_dag-Steps env quiet chain chain_graph (execution ExecutionStatus.running 2) fresh built

execute_dag-finished_example :
    marked "b"
      (execute_dag env quiet chain_graph (execution ExecutionStatus.running 2) fresh).0.completed
    ≡ true
execute_dag-finished_example =
    execute_dag-finished env quiet chain chain_graph (execution ExecutionStatus.running 2) fresh
      (node "b") built chain_known execute_dag-completes_example.0 (inr (inl refl))

abbrev pub engine : ExecutionStatus → ℕ → Engine
engine status version = record {
  store = store (execution status version);
  checker = record { seen = []; ttl = 100 };
  running = [];
}

pauses :
    pause_workflow (engine ExecutionStatus.running 2) "x"
    ≡ ok (engine ExecutionStatus.paused 3, execution ExecutionStatus.paused 3)
unfolding pause_workflow landc_go.Prelude.lookup landc_go.Prelude.insert
pauses = refl

reads :
    get_execution (store (execution ExecutionStatus.running 2)) "x"
    ≡ ok (execution ExecutionStatus.running 2)
unfolding get_execution landc_go.Prelude.lookup
reads = refl

pause_workflow-kept_example :
    Holds (engine ExecutionStatus.paused 3).store "x" ExecutionStatus.paused
    × Refused
        (run (engine ExecutionStatus.paused 3).store (creates_task task ∷ []))
        (execution ExecutionStatus.completed 2)
pause_workflow-kept_example =
    pause_workflow-kept (engine ExecutionStatus.running 2) (engine ExecutionStatus.paused 3) "x"
      (execution ExecutionStatus.running 2) (execution ExecutionStatus.paused 3)
      (execution ExecutionStatus.completed 2) (creates_task task ∷ []) pauses reads refl refl

abbrev ended : Execution
ended = record (execution ExecutionStatus.cancelled 3) { finished_at = some 7 }

cancels :
    cancel_workflow 7 (engine ExecutionStatus.running 2) "x"
    ≡ ok (record (engine ExecutionStatus.running 2) { store = store ended }, ended)
unfolding cancel_workflow landc_go.Prelude.lookup landc_go.Prelude.insert
cancels = refl

abbrev pub context : ℕ → Context
context now = record {
  env = record env { now = now };
  execution_id = "y";
  key_of = λ w t. t;
  default_timeout = pos 0;
  idempotency_ttl = 0;
  dag_error_text = λ e. "";
}

abbrev launched : Execution
launched = record (execution ExecutionStatus.pending 1) {
  id = "y";
  trigger_type = TriggerType.event;
  trigger_id = "order-7";
}

abbrev after_start : Engine
after_start = record {
  store = record (store (execution ExecutionStatus.running 2)) {
    executions = ("x", execution ExecutionStatus.running 2) ∷ ("y", launched) ∷ [];
  };
  checker = record { seen = ("order-7", 110) ∷ []; ttl = 100 };
  running = ("y", record { cancelled = false; pause = none }) ∷ [];
}

starts :
    start_workflow
      (context 10)
      (engine ExecutionStatus.running 2)
      "w"
      none
      TriggerType.event
      "order-7"
    ≡ ok (after_start, record { id = "y"; run = some (launched, chain) })
unfolding start_workflow landc_go.Prelude.lookup landc_go.Prelude.insert landc_go.Prelude.delete
starts = refl

keyed :
    (w : Workflow)
    → get_workflow (store (execution ExecutionStatus.running 2)) "w" ≡ ok w
    → w.id ≡ "w"
unfolding get_workflow landc_go.Prelude.lookup
keyed w h = sym (ground arith)

start_workflow-once_example :
    (x : Execution) × (start_workflow (context 90) after_start "w" none TriggerType.event "order-7"
      ≡ ok (after_start, record { id = x.id; run = none }))
    × In x (values after_start.store.executions)
    × (x.workflow_id ≡ "w")
    × (x.trigger_id ≡ "order-7")
start_workflow-once_example =
    start_workflow-once (context 10) (context 90) (engine ExecutionStatus.running 2) after_start "w"
      none none TriggerType.event TriggerType.event "order-7"
      (record { id = "y"; run = some (launched, chain) }) starts (λ q. cc) (apart "order-7" "" refl)
      keyed refl (omega arith)
