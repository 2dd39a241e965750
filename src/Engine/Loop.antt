-- ===== src/Engine/Loop.antt =====
-- workflow/pkg/engine/engine.go, `executeDAG`. Go runs the nodes of a batch as goroutines; they
-- write under their own keys, and are run here one behind the other. The signals say, round by
-- round, what the context and the pause channel answer.
use landc_go.Model.{Node, Workflow, Execution}
use landc_go.Dag.Graph.{DagGraph, get_ready_nodes}
use landc_go.Engine.Node.{Env, Run, NodeError, context_error, execute_node}
use landc_go.Prelude.{Bool, List, [], if◌then◌else◌, length, marked, suc, zero, ℕ, ◌∷◌}

-- Round 0 is the batch of the root nodes.
pub record Signals : Type 0 where
  pub cancelled : ℕ → Bool
  pub paused : ℕ → Bool
  pub node_cancelled : ℕ → Node → Bool

pub data DagEnd : Type 0 where
  finished paused_early out_of_fuel : DagEnd
  failed : NodeError → DagEnd

-- A batch: each node that is not completed meanwhile.
unfoldable pub run_batch : Env → Signals → Workflow → Execution → ℕ → List Node → Run → Run
unfolding execute_node marked
run_batch env sig w x k [] r = r
run_batch env sig w x k (n ∷ ns) r =
    run_batch env sig w x k ns
      (if marked n.id r.completed then r else execute_node env w x (sig.node_cancelled k n) n r)

-- The loop of the batches. The error that leaves the channel is gone from it.
unfoldable pub run_rounds : ℕ → Env → Signals → DagGraph → Execution → ℕ → Run → Run × DagEnd
unfolding run_batch get_ready_nodes
run_rounds zero env sig g x k r = (r, out_of_fuel)
run_rounds (suc fuel) env sig g x k r =
    if sig.cancelled k
    then (r, failed (context_error env.ctx_err))
    else (if sig.paused k then (r, paused_early) else elim (get_ready_nodes g r.completed) [
      | [] ↦ (r, finished)
      | n ∷ ns ↦
          let r' = run_batch env sig g.workflow x k (n ∷ ns) r in
          elim r'.errors [
            | e ∷ es ↦ (record r' { errors = es }, failed e)
            | [] ↦ run_rounds fuel env sig g x (suc k) r'
          ]
    ])

-- One round more than there are nodes is enough: see Complete.
unfoldable pub execute_dag : Env → Signals → DagGraph → Execution → Run → Run × DagEnd
unfolding run_rounds run_batch
execute_dag env sig g x r =
    run_rounds (suc (suc (length g.workflow.nodes))) env sig g x 1
      (run_batch env sig g.workflow x 0 g.root_nodes r)
