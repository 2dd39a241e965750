-- ===== src/Engine/Effect.antt =====
-- What the execution of a node does to the set of completed nodes and to the waiting errors.
use landc_go.Model.{Node, Workflow, Execution, Task, node_type_text, task_is_final}
use landc_go.Store.Memory.{create_task}
use landc_go.Engine.Node.{
  Env, Run, NodeError, Outcome, success, failure, put_task, complete, send_error,
  handle_node_failure, finish_task, run_task, new_task, start_task, execute_node,
}
use landc_go.Prelude.{
  Bool, Bool-cases, Option-cases, [], false, if◌then◌else◌, inl, inr, lookup, mark, refl, true,
  ◌++◌, ◌∷◌, ◌≡◌, ◌⊎◌, insert,
}

-- Either the node counts as completed and no error is sent, or one error is sent and the set of
-- completed nodes stays as it was.
abbrev pub Effect : Node → Run → Run → Type 0
Effect n r t =
    ((t.completed ≡ mark n.id r.completed) × (t.errors ≡ r.errors))
    ⊎ ((t.completed ≡ r.completed) × ((x : NodeError) × (t.errors ≡ r.errors ++ x ∷ [])))

module _ (env : Env) (n : Node) where
  finish_task-Effect : (t : Task) (o : Outcome) (r : Run) → Effect n r (finish_task env n t o r)
  unfolding finish_task put_task complete handle_node_failure send_error
  finish_task-Effect t (success output) r = inl (refl, refl)
  finish_task-Effect t (failure is_canceled message) r = elim (Bool-cases n.skip_on_failure) [
    | inl q ↦ rw (q, if◌then◌else◌) (inl (refl, refl))
    | inr q ↦ rw (q, if◌then◌else◌) (inr (refl, (_, refl)))
  ]

  run_task-Effect : (t : Task) (r : Run) → Effect n r (run_task env n t r)
  unfolding run_task put_task handle_node_failure send_error
  run_task-Effect t r = elim (Bool-cases (env.registered (node_type_text n.type))) [
    | inl q ↦
        let started = start_task env t in
        rw (q, if◌then◌else◌)
          (finish_task-Effect started (env.outcome n started) (put_task n started r))
    | inr q ↦ rw (q, if◌then◌else◌) (inr (refl, (_, refl)))
  ]

  -- In every case the execution of a node has one of the two effects.
  pub execute_node-Effect :
      (w : Workflow) (x : Execution) (ctx_done : Bool) (r : Run)
      → Effect n r (execute_node env w x ctx_done n r)
  unfolding execute_node send_error complete create_task
  execute_node-Effect w x true r = inr (refl, (_, refl))
  execute_node-Effect w x false r = elim (Option-cases (lookup n.id r.task_map)) [
    | inl q ↦
        let t = new_task env w x n r in
        rw (q, execute_node)
          (run_task-Effect t
            (record r { store = create_task r.store t; task_map = insert n.id t r.task_map }))
    | inr (t, q) ↦ elim (Bool-cases (task_is_final t)) [
      | inl final ↦ rw (q, execute_node, final) (inl (refl, refl))
      | inr open_task ↦ rw (q, execute_node, open_task) (run_task-Effect t r)
    ]
  ]
