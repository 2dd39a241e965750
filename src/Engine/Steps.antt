-- ===== src/Engine/Steps.antt =====
-- `executeDAG` as a sequence of steps, each of which executes a node whose dependencies are done.
use mathlib.Core.Bool.{false≢true}
use landc_go.Model.{Node, Workflow, Execution}
use landc_go.Dag.Graph.{DagGraph, new_dag_graph, raw_graph, get_ready_nodes}
use landc_go.Dag.Ready.{DepsDone, get_ready_nodes_iff, root_nodes-ready}
use landc_go.Dag.Flow.{new_dag_graph-ok, new_dag_graph-workflow}
use landc_go.Engine.Node.{Env, Run, NodeError, execute_node}
use landc_go.Engine.Effect.{Effect, execute_node-Effect}
use landc_go.Engine.Rounds.{Round, stops, ends, fails, goes_on, round, batch}
use landc_go.Dag.Build.{workflow-raw_graph}
use landc_go.Engine.Loop.{Signals, DagEnd, run_batch, run_rounds, execute_dag}
use landc_go.Prelude.{
  All, Bool, Bool-cases, Flags, In, In-All, List, String, [], false, if◌then◌else◌, inl, inr,
  mark-marked, marked, suc, true, zero, ℕ, ◌∷◌, ◌≡◌, arith, eq_iff, length, mark, marked-mark, ok,
  subst, ◌==◌, sym, ◌∙◌, unmarked-nil,
}

abbrev pub Grows : Flags → Flags → Type 0
Grows a b = (k : String) → marked k a ≡ true → marked k b ≡ true

pub DepsDone-Grows :
    (w : Workflow) (a b : Flags) (id : String) → Grows a b → DepsDone w a id → DepsDone w b id
DepsDone-Grows w a b id grows deps e i outer target = grows e.source_id (deps e i outer target)

pub Effect-Grows : (n : Node) (r t : Run) → Effect n r t → Grows r.completed t.completed
Effect-Grows n r t (inl (q, _)) k h = rw q (mark-marked n.id k r.completed h)
Effect-Grows n r t (inr (q, _)) k h = rw q h

-- One step of the execution: a node of the workflow that is not completed, and whose dependencies
-- are, is executed; or an error leaves the channel.
pub data Step (env : Env) (w : Workflow) (x : Execution) : Run → Run → Type 0 where
  executes :
      (n : Node) (ctx_done : Bool) (r : Run)
      → In n w.nodes
      → marked n.id r.completed ≡ false
      → DepsDone w r.completed n.id
      → Step env w x r (execute_node env w x ctx_done n r)
  receives :
      (e : NodeError) (es : List NodeError) (r : Run)
      → r.errors ≡ e ∷ es
      → Step env w x r (record r { errors = es })

pub data Steps (env : Env) (w : Workflow) (x : Execution) : Run → Run → Type 0 where
  here : {r : Run} → Steps env w x r r
  next : {r s t : Run} → Step env w x r s → Steps env w x s t → Steps env w x r t

Steps-trans :
    {env : Env} {w : Workflow} {x : Execution} {r s t : Run}
    → Steps env w x r s
    → Steps env w x s t
    → Steps env w x r t
Steps-trans here b = b
Steps-trans (next st a) b = next st (Steps-trans a b)

module _ (env : Env) (sig : Signals) (w : Workflow) (x : Execution) where
  abbrev pub Ready : Flags → Node → Type 0
  Ready c n = In n w.nodes × DepsDone w c n.id

  Ready-Grows : (a b : Flags) (ns : List Node) → Grows a b → All (Ready a) ns → All (Ready b) ns
  Ready-Grows a b [] grows h = tt
  Ready-Grows a b (n ∷ ns) grows h =
      ((h.0.0, DepsDone-Grows w a b n.id grows h.0.1), Ready-Grows a b ns grows h.1)

  run_batch-Steps :
      (k : ℕ) (ns : List Node) (r : Run)
      → All (Ready r.completed) ns
      → Steps env w x r (run_batch env sig w x k ns r)
  unfolding run_batch
  run_batch-Steps k [] r h = here
  run_batch-Steps k (n ∷ ns) r h = elim (Bool-cases (marked n.id r.completed)) [
    | inl q ↦ rw (q, if◌then◌else◌) (run_batch-Steps k ns r h.1)
    | inr q ↦
        let r' = execute_node env w x (sig.node_cancelled k n) n r in
        let grows =
          Effect-Grows n r r' (execute_node-Effect env n w x (sig.node_cancelled k n) r) in
        rw (q, if◌then◌else◌)
          (next (executes n (sig.node_cancelled k n) r h.0.0 q h.0.1)
            (run_batch-Steps k ns r' (Ready-Grows r.completed r'.completed ns grows h.1)))
  ]

module _ (env : Env) (sig : Signals) (g : DagGraph) (x : Execution) where
  get_ready_nodes-Ready : (c : Flags) → All (Ready env sig g.workflow x c) (get_ready_nodes g c)
  get_ready_nodes-Ready c =
      In-All (get_ready_nodes g c)
        λ n i. let (there, _, deps) = (get_ready_nodes_iff g c n).0 i in (there, deps)

  whole : (k : ℕ) (r : Run) → Steps env g.workflow x r (batch env sig g x k r)
  whole k r =
      run_batch-Steps env sig g.workflow x k (get_ready_nodes g r.completed) r
        (get_ready_nodes-Ready r.completed)

  run_rounds-Steps :
      (fuel k : ℕ) (r : Run) → Steps env g.workflow x r (run_rounds fuel env sig g x k r).0
  unfolding run_rounds
  run_rounds-Steps zero k r = here
  run_rounds-Steps (suc fuel) k r =
      Round-completed fuel k r (round env sig g x fuel k r) (run_rounds-Steps fuel (suc k))
    where
      Round-completed :
          (fuel k : ℕ) (r : Run) {p : Run × DagEnd}
          → Round env sig g x fuel k r p
          → ((t : Run) → Steps env g.workflow x t (run_rounds fuel env sig g x (suc k) t).0)
          → Steps env g.workflow x r p.0
      Round-completed fuel k r (stops e _ _ _) ih = here
      Round-completed fuel k r (ends _) ih = here
      Round-completed fuel k r (fails e es q) ih =
          Steps-trans (whole k r) (next (receives e es (batch env sig g x k r) q) here)
      Round-completed fuel k r (goes_on _ _) ih =
          Steps-trans (whole k r) (ih (batch env sig g x k r))

pub root-Ready :
    (env : Env) (sig : Signals) (w : Workflow) (g : DagGraph) (x : Execution) (c : Flags)
    → new_dag_graph w ≡ ok g
    → All (Ready env sig g.workflow x c) g.root_nodes
root-Ready env sig w g x c built = In-All g.root_nodes λ n i.
    let (_, g_eq) = new_dag_graph-ok w g built in
    let root = rw g_eq at i in
    let (there, _, deps) =
      (get_ready_nodes_iff (raw_graph w) [] n).0 ((root_nodes-ready w n).0 root) in
    (
      rw (new_dag_graph-workflow w g built) (rw (workflow-raw_graph w) at there),
      λ e j outer target.
          let unmarked = unmarked-nil e.source_id in
          let marked_there =
            deps e (rw (workflow-raw_graph w) (rw (new_dag_graph-workflow w g built) at j)) outer
              target in
          absurd (false≢true (sym unmarked ∙ marked_there)),
    )

-- Whatever the executors answer, and whenever the context is cancelled or a pause is asked for, the
-- run of an accepted workflow is a sequence of steps, each of which executes a node of the workflow
-- that is not completed and whose dependencies all are, or receives an error.
pub execute_dag-Steps :
    (env : Env) (sig : Signals) (w : Workflow) (g : DagGraph) (x : Execution) (r : Run)
    → new_dag_graph w ≡ ok g
    → Steps env g.workflow x r (execute_dag env sig g x r).0
unfolding execute_dag
execute_dag-Steps env sig w g x r built =
    Steps-trans
      (run_batch-Steps env sig g.workflow x 0 g.root_nodes r
        (root-Ready env sig w g x r.completed built))
      (run_rounds-Steps env sig g x (suc (suc (length g.workflow.nodes))) 1
        (run_batch env sig g.workflow x 0 g.root_nodes r))

-- Every dependency of a completed node is completed.
abbrev pub DepsClosed : Workflow → Flags → Type 0
DepsClosed w c = (k : String) → marked k c ≡ true → DepsDone w c k

Step-DepsClosed :
    {env : Env} {w : Workflow} {x : Execution} {r s : Run}
    → Step env w x r s
    → DepsClosed w r.completed
    → DepsClosed w s.completed
Step-DepsClosed {env} {w} {x} (executes n ctx_done r there fresh deps) closed =
    mark_closed (execute_node env w x ctx_done n r) (execute_node-Effect env n w x ctx_done r)
  where
    mark_closed : (t : Run) → Effect n r t → DepsClosed w t.completed
    mark_closed t (inr (q, _)) = rw q closed
    mark_closed t (inl (q, _)) = rw q λ k h.
        DepsDone-Grows w r.completed (mark n.id r.completed) k (λ j. mark-marked n.id j r.completed)
          (elim (Bool-cases (n.id == k)) [
            | inl p ↦ subst (DepsDone w r.completed) ((eq_iff n.id k).0 p) deps
            | inr p ↦ closed k (ground (arith, marked-mark n.id k r.completed))
          ])
Step-DepsClosed (receives e es r q) closed = closed

Steps-DepsClosed :
    {env : Env} {w : Workflow} {x : Execution} {r s : Run}
    → Steps env w x r s
    → DepsClosed w r.completed
    → DepsClosed w s.completed
Steps-DepsClosed here closed = closed
Steps-DepsClosed (next st rest) closed = Steps-DepsClosed rest (Step-DepsClosed st closed)

-- If every dependency of a completed node is completed when the run of an accepted workflow starts,
-- then the same holds when it ends, is stopped, or fails.
pub execute_dag-DepsClosed :
    (env : Env) (sig : Signals) (w : Workflow) (g : DagGraph) (x : Execution) (r : Run)
    → new_dag_graph w ≡ ok g
    → DepsClosed g.workflow r.completed
    → DepsClosed g.workflow (execute_dag env sig g x r).0.completed
execute_dag-DepsClosed env sig w g x r built closed =
    Steps-DepsClosed (execute_dag-Steps env sig w g x r built) closed
