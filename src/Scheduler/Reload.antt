-- ===== src/Scheduler/Reload.antt =====
-- The skipped tasks, loaded again by a run of the engine.
use landc_go.Model.{Task, Node, TaskStatus, task_status_eq}
use landc_go.Store.Memory.{MemoryStore, list_tasks, get_pending_tasks, by_created_at}
use landc_go.Engine.Execute.{reload, first_run}
use landc_go.Engine.Node.{Run}
use landc_go.Dag.Ready.{get_ready_nodes_iff}
use landc_go.Dag.Graph.{DagGraph, get_ready_nodes}
use landc_go.Scheduler.{skipped_task, is_stopped, poll_and_dispatch, SchedulerConfig, List, String}
use landc_go.Prelude.{
  All, In, List, String, [], ap, arith, eq_iff, inl, inr, lookup, refl, some, sym, true, ◌==◌, ◌∙◌,
  ◌∷◌, ◌≡◌, ◌≢◌, if◌then◌else◌, marked, subst, values, ℕ, In-sort_slice, mark-marked, select-In,
  mark, mark_self, ◌||◌, Flags, lookup-In_values,
}
use landc_go.Scheduler.Dispatch.{poll_and_dispatch-skips}

reload-marked :
    (ts : List Task) (id : String) (r : Run)
    → marked id r.completed ≡ true
    → marked id (reload ts r).completed ≡ true
unfolding reload
reload-marked [] id r h = h
reload-marked (t ∷ ts) id r h =
    reload-marked ts id _ (ground (arith, mark-marked t.node_id id r.completed h))

-- A skipped task counts as done when its run is loaded again.
reload-skipped :
    (ts : List Task) (t : Task) (r : Run)
    → In t ts
    → t.status ≡ TaskStatus.skipped
    → marked t.node_id (reload ts r).completed ≡ true
unfolding reload
reload-skipped [] t r i h = absurd i
reload-skipped (u ∷ ts) t r (inl e) h =
    let test : u.status ≡ TaskStatus.skipped = ap (λ v. v.status) e ∙ h in
    reload-marked ts t.node_id _ (
      subst
        (λ v.
          marked v.node_id (
            if task_status_eq u.status TaskStatus.completed
              || task_status_eq u.status TaskStatus.skipped
            then mark u.node_id r.completed
            else r.completed)
          ≡ true)
        e (rw (test, if◌then◌else◌) (mark_self u.node_id r.completed)))
reload-skipped (u ∷ ts) t r (inr i) h = reload-skipped ts t _ i h

-- The completed nodes with which a run of the execution starts.
abbrev pub loaded : MemoryStore → String → Flags
loaded s id = (reload (list_tasks s id) (first_run s)).completed

-- A poll gets a due task whose execution has ended or is paused, and every task that it gets is
-- stored under its own id. Then a run of the execution that starts from the store behind the poll
-- does not have the task's node among the ready ones.
pub poll_and_dispatch-unready :
    (config : SchedulerConfig) (now : ℕ) (s : MemoryStore) (t : Task) (g : DagGraph) (n : Node)
    → All (λ u. lookup u.id s.tasks ≡ some u) (get_pending_tasks s now config.batch_size)
    → In t (get_pending_tasks s now config.batch_size)
    → is_stopped s t ≡ true
    → In n (get_ready_nodes g (loaded (poll_and_dispatch config now s) t.execution_id))
    → n.id ≢ t.node_id
unfolding list_tasks
poll_and_dispatch-unready config now s t g n own i h ready =
    let s' = poll_and_dispatch config now s in
    let found =
      lookup-In_values t.id s'.tasks (skipped_task t)
        (poll_and_dispatch-skips config now s t own i h) in
    let listed = (In-sort_slice by_created_at (skipped_task t) _).1 (
      select-In (λ u. u.execution_id == t.execution_id) (values s'.tasks) (skipped_task t) found
        ((eq_iff t.execution_id t.execution_id).1 refl)) in
    let done =
      reload-skipped (list_tasks s' t.execution_id) (skipped_task t) (first_run s') listed refl in
    let (_, fresh, _) = (get_ready_nodes_iff g _ n).0 ready in
    λ e. ground (arith, sym done ∙ ap (λ k. marked k (loaded s' t.execution_id)) (sym e) ∙ fresh)
