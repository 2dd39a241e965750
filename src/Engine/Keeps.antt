-- ===== src/Engine/Keeps.antt =====
-- A run writes tasks only: the executions of the store stay as they are.
use landc_go.Model.{Node, Workflow, Execution, Task, task_is_final, node_type_text, TaskStatus}
use landc_go.Store.Memory.{create_task, update_task}
use landc_go.Dag.Graph.{DagGraph, get_ready_nodes}
use landc_go.Engine.Node.{
  Env, Run, NodeError, Outcome, success, failure, put_task, complete, send_error,
  handle_node_failure, start_task, finish_task, run_task, new_task, execute_node, execution_failed,
  error_text, no_executor,
}
use landc_go.Engine.Loop.{Signals, DagEnd, run_batch, run_rounds, execute_dag}
use landc_go.Engine.Rounds.{Round, stops, ends, fails, goes_on, round, batch}
use landc_go.Prelude.{
  Bool, Bool-cases, List, Option-cases, [], arith, false, if◌then◌else◌, inl, inr, insert, length,
  lookup, marked, refl, some, suc, true, zero, ℕ, ◌∙◌, ◌∷◌, ◌≡◌,
}

-- The two stores hold the same executions.
abbrev pub Same : Run → Run → Type 0
Same r t = t.store.executions ≡ r.store.executions

put_task-Same : (n : Node) (t : Task) (r : Run) → Same r (put_task n t r)
unfolding put_task update_task
put_task-Same n t r = ground arith

handle_node_failure-Same :
    (n : Node) (t : Task) (x : NodeError) (r : Run) → Same r (handle_node_failure n t x r)
unfolding handle_node_failure send_error
handle_node_failure-Same n t x r =
    put_task-Same n (record t { status = TaskStatus.failed; error = error_text x }) r

module _ (env : Env) (n : Node) where
  finish_task-Same : (t : Task) (o : Outcome) (r : Run) → Same r (finish_task env n t o r)
  unfolding finish_task complete
  finish_task-Same t (success output) r =
      put_task-Same n
        (record t { status = TaskStatus.completed; output = output; finished_at = some env.now })
        (record r { variables = insert n.id output r.variables })
  finish_task-Same t (failure is_canceled message) r = elim (Bool-cases n.skip_on_failure) [
    | inl q ↦
        rw (q, if◌then◌else◌)
          (put_task-Same n
            (record t { status = TaskStatus.skipped; error = message; finished_at = some env.now })
            (record r { variables = insert n.id (some (env.skipped_output message)) r.variables }))
    | inr q ↦
        rw (q, if◌then◌else◌)
          (handle_node_failure-Same n (record t { finished_at = some env.now })
            (execution_failed is_canceled message) r)
  ]

  run_task-Same : (t : Task) (r : Run) → Same r (run_task env n t r)
  unfolding run_task
  run_task-Same t r =
      let started = start_task env t in
      let r' = put_task n started r in
      elim (Bool-cases (env.registered (node_type_text n.type))) [
        | inl q ↦
            rw (q, if◌then◌else◌)
              (finish_task-Same started (env.outcome n started) r' ∙ put_task-Same n started r)
        | inr q ↦
            rw (q, if◌then◌else◌)
              (handle_node_failure-Same n started (no_executor (node_type_text n.type)) r'
                ∙ put_task-Same n started r)
      ]

  execute_node-Same :
      (w : Workflow) (x : Execution) (ctx_done : Bool) (r : Run)
      → Same r (execute_node env w x ctx_done n r)
  unfolding execute_node complete send_error create_task
  execute_node-Same w x true r = refl
  execute_node-Same w x false r = elim (Option-cases (lookup n.id r.task_map)) [
    | inl q ↦
        let t = new_task env w x n r in
        rw (q, execute_node)
          (run_task-Same t
            (record r { store = create_task r.store t; task_map = insert n.id t r.task_map }))
    | inr (t, q) ↦ elim (Bool-cases (task_is_final t)) [
      | inl final ↦ rw (q, execute_node, final) refl
      | inr open_task ↦ rw (q, execute_node, open_task) (run_task-Same t r)
    ]
  ]

module _ (env : Env) (sig : Signals) (w : Workflow) (x : Execution) where
  run_batch-Same : (k : ℕ) (ns : List Node) (r : Run) → Same r (run_batch env sig w x k ns r)
  unfolding run_batch
  run_batch-Same k [] r = refl
  run_batch-Same k (n ∷ ns) r = elim (Bool-cases (marked n.id r.completed)) [
    | inl q ↦ rw (run_batch, q, if◌then◌else◌) (run_batch-Same k ns r)
    | inr q ↦
        rw (run_batch, q, if◌then◌else◌)
          (run_batch-Same k ns (execute_node env w x (sig.node_cancelled k n) n r)
            ∙ execute_node-Same env n w x (sig.node_cancelled k n) r)
  ]

module _ (env : Env) (sig : Signals) (g : DagGraph) (x : Execution) where
  Round-Same :
      (fuel k : ℕ) (r : Run) {p : Run × DagEnd}
      → Round env sig g x fuel k r p
      → ((t : Run) → Same t (run_rounds fuel env sig g x (suc k) t).0)
      → Same r p.0
  Round-Same fuel k r (stops e _ _ _) ih = refl
  Round-Same fuel k r (ends _) ih = refl
  Round-Same fuel k r (fails e es q) ih =
      run_batch-Same env sig g.workflow x k (get_ready_nodes g r.completed) r
  Round-Same fuel k r (goes_on _ _) ih =
      ih (batch env sig g x k r)
      ∙ run_batch-Same env sig g.workflow x k (get_ready_nodes g r.completed) r

  run_rounds-Same : (fuel k : ℕ) (r : Run) → Same r (run_rounds fuel env sig g x k r).0
  unfolding run_rounds
  run_rounds-Same zero k r = refl
  run_rounds-Same (suc fuel) k r =
      Round-Same fuel k r (round env sig g x fuel k r) (run_rounds-Same fuel (suc k))

  -- Whatever happens in a run, it leaves every execution in the store as it was.
  pub execute_dag-Same : (r : Run) → Same r (execute_dag env sig g x r).0
  unfolding execute_dag
  execute_dag-Same r =
      run_rounds-Same (suc (suc (length g.workflow.nodes))) 1
        (run_batch env sig g.workflow x 0 g.root_nodes r)
      ∙ run_batch-Same env sig g.workflow x 0 g.root_nodes r
