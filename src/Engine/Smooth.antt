-- ===== src/Engine/Smooth.antt =====
-- A run that nothing disturbs: `executeDAG` finishes with every node completed.
use mathlib.Core.Bool.{false≢true}
use landc_go.Model.{Node, Workflow, Execution, Task, node_type_text, task_is_final}
use landc_go.Store.Memory.{create_task}
use landc_go.Dag.Graph.{DagGraph, new_dag_graph, get_ready_nodes}
use landc_go.Dag.Ready.{get_ready_nodes_iff}
use landc_go.Dag.Flow.{new_dag_graph-workflow}
use landc_go.Dag.Progress.{SourcesKnown}
use landc_go.Engine.Node.{
  Env, Run, Outcome, success, failure, put_task, complete, start_task, finish_task, run_task,
  new_task, execute_node,
}
use landc_go.Engine.Loop.{
  Signals, DagEnd, finished, out_of_fuel, run_batch, run_rounds, execute_dag,
}
use landc_go.Engine.Rounds.{Round, stops, ends, fails, goes_on, round, batch}
use landc_go.Engine.Complete.{execute_dag-ends, execute_dag-finished}
use landc_go.Engine.Steps.{Ready, root-Ready}
use landc_go.Prelude.{
  All, All-In, Bool-cases, In-All, List, Option-cases, [], false, if◌then◌else◌, inl, inr, insert,
  length, lookup, marked, ok, refl, suc, sym, true, zero, ℕ, ◌∙◌, ◌∷◌, ◌≡◌, ◌≢◌, ◌⊎◌,
}

abbrev Succeeds : Outcome → Type 0
Succeeds (success _) = Unit
Succeeds (failure _ _) = ⊥

-- The node has an executor, which succeeds on every task, or whose failures are skipped.
pub record IsSmooth (env : Env) (n : Node) : Type 0 where
  pub known : env.registered (node_type_text n.type) ≡ true
  pub passes : (t : Task) → Succeeds (env.outcome n t) ⊎ (n.skip_on_failure ≡ true)

-- Nobody cancels or pauses.
pub record IsQuiet (sig : Signals) : Type 0 where
  pub uncancelled : (k : ℕ) → sig.cancelled k ≡ false
  pub unpaused : (k : ℕ) → sig.paused k ≡ false
  pub nodes_uncancelled : (k : ℕ) (n : Node) → sig.node_cancelled k n ≡ false

module _ (env : Env) (n : Node) (smooth : IsSmooth env n) where
  finish_task-smooth :
      (t : Task) (o : Outcome) (r : Run)
      → Succeeds o ⊎ (n.skip_on_failure ≡ true)
      → (finish_task env n t o r).errors ≡ r.errors
  unfolding finish_task put_task complete
  finish_task-smooth t (success output) r h = refl
  finish_task-smooth t (failure is_canceled message) r (inl h) = absurd h
  finish_task-smooth t (failure is_canceled message) r (inr h) = rw (h, if◌then◌else◌)

  run_task-smooth : (t : Task) (r : Run) → (run_task env n t r).errors ≡ r.errors
  unfolding run_task put_task
  run_task-smooth t r =
      let started = start_task env t in
      rw (smooth.known, if◌then◌else◌)
        (finish_task-smooth started (env.outcome n started) (put_task n started r)
          (smooth.passes started))

  execute_node-smooth :
      (w : Workflow) (x : Execution) (r : Run) → (execute_node env w x false n r).errors ≡ r.errors
  unfolding execute_node complete create_task
  execute_node-smooth w x r = elim (Option-cases (lookup n.id r.task_map)) [
    | inl q ↦
        let t = new_task env w x n r in
        rw (q, execute_node)
          (run_task-smooth t
            (record r { store = create_task r.store t; task_map = insert n.id t r.task_map }))
    | inr (t, q) ↦ elim (Bool-cases (task_is_final t)) [
      | inl final ↦ rw (q, execute_node, final)
      | inr open_task ↦ rw (q, execute_node, open_task) (run_task-smooth t r)
    ]
  ]

module _ (env : Env) (sig : Signals) (quiet : IsQuiet sig) (w : Workflow) (x : Execution) where
  run_batch-smooth :
      (k : ℕ) (ns : List Node) (r : Run)
      → All (IsSmooth env) ns
      → (run_batch env sig w x k ns r).errors ≡ r.errors
  unfolding run_batch
  run_batch-smooth k [] r h = refl
  run_batch-smooth k (n ∷ ns) r h = elim (Bool-cases (marked n.id r.completed)) [
    | inl q ↦ rw (run_batch, q, if◌then◌else◌) (run_batch-smooth k ns r h.1)
    | inr q ↦
        rw (run_batch, q, if◌then◌else◌, quiet.nodes_uncancelled k n)
          (run_batch-smooth k ns (execute_node env w x false n r) h.1
            ∙ execute_node-smooth env n h.0 w x r)
  ]

module _ (env : Env) (sig : Signals) (quiet : IsQuiet sig) (g : DagGraph) (x : Execution)
    (smooth : All (IsSmooth env) g.workflow.nodes) where
  batch-smooth : (k : ℕ) (r : Run) → (batch env sig g x k r).errors ≡ r.errors
  batch-smooth k r =
      run_batch-smooth env sig quiet g.workflow x k (get_ready_nodes g r.completed) r (
        In-All (get_ready_nodes g r.completed) λ n i.
          All-In (IsSmooth env) g.workflow.nodes n smooth
            ((get_ready_nodes_iff g r.completed n).0 i).0)

  Round-smooth :
      (fuel k : ℕ) (r : Run) {p : Run × DagEnd}
      → Round env sig g x fuel k r p
      → r.errors ≡ []
      → ((t : Run)
          → t.errors ≡ []
          → (run_rounds fuel env sig g x (suc k) t).1 ≢ out_of_fuel
          → (run_rounds fuel env sig g x (suc k) t).1 ≡ finished)
      → p.1 ≢ out_of_fuel
      → p.1 ≡ finished
  Round-smooth fuel k r (stops e (inl c) _ _) q ih f =
      absurd (false≢true (sym (quiet.uncancelled k) ∙ c))
  Round-smooth fuel k r (stops e (inr c) _ _) q ih f =
      absurd (false≢true (sym (quiet.unpaused k) ∙ c))
  Round-smooth fuel k r (ends _) q ih f = refl
  Round-smooth fuel k r (fails e es h) q ih f = absurd (cc (sym h ∙ batch-smooth k r ∙ q))
  Round-smooth fuel k r (goes_on _ h) q ih f = ih (batch env sig g x k r) h f

  run_rounds-smooth :
      (fuel k : ℕ) (r : Run)
      → r.errors ≡ []
      → (run_rounds fuel env sig g x k r).1 ≢ out_of_fuel
      → (run_rounds fuel env sig g x k r).1 ≡ finished
  unfolding run_rounds
  run_rounds-smooth zero k r q f = absurd (f refl)
  run_rounds-smooth (suc fuel) k r q f =
      Round-smooth fuel k r (round env sig g x fuel k r) q (run_rounds-smooth fuel (suc k)) f

execute_dag-smooth :
    (env : Env) (sig : Signals) (w : Workflow) (g : DagGraph) (x : Execution) (r : Run)
    → new_dag_graph w ≡ ok g
    → IsQuiet sig
    → All (IsSmooth env) w.nodes
    → r.errors ≡ []
    → (execute_dag env sig g x r).1 ≡ finished
unfolding execute_dag
execute_dag-smooth env sig w g x r built quiet smooth calm =
    let g_w = new_dag_graph-workflow w g built in
    let smooth' : All (IsSmooth env) g.workflow.nodes = rw g_w smooth in
    let start = run_batch env sig g.workflow x 0 g.root_nodes r in
    let roots : All (IsSmooth env) g.root_nodes = In-All g.root_nodes (λ n i.
      All-In (IsSmooth env) g.workflow.nodes n smooth'
        (All-In (Ready env sig g.workflow x r.completed) g.root_nodes n
          (root-Ready env sig w g x r.completed built) i).0) in
    run_rounds-smooth env sig quiet g x smooth' (suc (suc (length g.workflow.nodes))) 1 start
      (run_batch-smooth env sig quiet g.workflow x 0 g.root_nodes r roots ∙ calm)
      (execute_dag-ends env sig g x r)

-- If each edge that is not internal starts at a node, every node has an executor that succeeds or
-- whose failures are skipped, no error waits, and nobody cancels or pauses, then the run of an
-- accepted workflow finishes, and every node is completed. That includes each branch behind a
-- condition or switch node and each node behind an edge with a condition expression: the code tests
-- neither, while the comments of `GetActivatedDownstream` (dag.go) and of `executeNode` (engine.go)
-- and workflow/README.md say that such a branch runs only if it is activated.
pub execute_dag-completes :
    (env : Env) (sig : Signals) (w : Workflow) (g : DagGraph) (x : Execution) (r : Run)
    → new_dag_graph w ≡ ok g
    → SourcesKnown w
    → IsQuiet sig
    → All (IsSmooth env) w.nodes
    → r.errors ≡ []
    → ((execute_dag env sig g x r).1 ≡ finished)
      × All (λ n. marked n.id (execute_dag env sig g x r).0.completed ≡ true) w.nodes
execute_dag-completes env sig w g x r built known quiet smooth calm =
    let end = execute_dag-smooth env sig w g x r built quiet smooth calm in
    (end, In-All w.nodes (λ n i. execute_dag-finished env sig w g x r n built known end i))
