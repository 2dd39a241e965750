-- ===== src/Engine/Complete.antt =====
-- The rounds of `executeDAG` come to an end, and what is completed then.
use landc_go.Prelude.{
  All, Bool, Bool-cases, Flags, In, List, [], arith, false, if◌then◌else◌, inl, inr, length,
  mark_self, marked, not, select, sym, true, ℕ, ◌++◌, ◌<◌, ◌∙◌, ◌∷◌, ◌≡◌, ◌≢◌, ◌≤◌, All-In,
  length-select-le, ok, refl, suc, zero,
}
use landc_go.Model.{Node, Workflow, Execution}
use landc_go.Dag.Graph.{DagGraph, new_dag_graph, get_ready_nodes}
use landc_go.Dag.Ready.{get_ready_nodes_iff}
use landc_go.Dag.Progress.{SourcesKnown, get_ready_nodes-progress}
use landc_go.Engine.Node.{Env, Run, execute_node}
use landc_go.Engine.Effect.{Effect, execute_node-Effect}
use landc_go.Engine.Loop.{
  Signals, DagEnd, finished, out_of_fuel, run_batch, run_rounds, execute_dag,
}
use landc_go.Engine.Rounds.{Round, stops, ends, fails, goes_on, round, batch}
use landc_go.Engine.Steps.{Grows, Effect-Grows}

abbrev open_node : Flags → Node → Bool
open_node c n = not (marked n.id c)

todo : Flags → List Node → ℕ
todo c ns = length (select (open_node c) ns)

todo-le : (a b : Flags) (ns : List Node) → Grows a b → todo b ns ≤ todo a ns
unfolding todo
todo-le a b [] grows = omega arith
todo-le a b (n ∷ ns) grows = ground (arith, grows n.id, todo-le a b ns grows)

todo-lt :
    (a b : Flags) (ns : List Node) (n : Node)
    → Grows a b
    → In n ns
    → marked n.id a ≡ false
    → marked n.id b ≡ true
    → todo b ns < todo a ns
unfolding todo
todo-lt a b (m ∷ ns) n grows (inl q) old new =
    let old' : marked m.id a ≡ false = rw q old in
    let new' : marked m.id b ≡ true = rw q new in ground (arith, todo-le a b ns grows)
todo-lt a b (m ∷ ns) n grows (inr i) old new =
    ground (arith, grows m.id, todo-lt a b ns n grows i old new)
todo-lt a b [] n grows i old new = absurd i

snoc≢nil : {A : Type 0} (xs : List A) (x : A) → xs ++ x ∷ [] ≢ []
snoc≢nil [] x e = cc
snoc≢nil (y ∷ xs) x e = cc

module _ (env : Env) (sig : Signals) (w : Workflow) (x : Execution) where
  -- What a batch that leaves no error has done.
  record Batched (ns : List Node) (r t : Run) : Type 0 where
    quiet : r.errors ≡ []
    all_marked : All (λ n. marked n.id t.completed ≡ true) ns
    grows : Grows r.completed t.completed

  execute-quiet :
      (n : Node) (r t : Run)
      → Effect n r t
      → t.errors ≡ []
      → (r.errors ≡ []) × (marked n.id t.completed ≡ true)
  execute-quiet n r t (inl (c, e)) q = (sym e ∙ q, rw c (mark_self n.id r.completed))
  execute-quiet n r t (inr (c, (y, e))) q = absurd (snoc≢nil r.errors y (sym e ∙ q))

  run_batch-Batched :
      (k : ℕ) (ns : List Node) (r : Run)
      → (run_batch env sig w x k ns r).errors ≡ []
      → Batched ns r (run_batch env sig w x k ns r)
  unfolding run_batch
  run_batch-Batched k [] r q = record { quiet = q; all_marked = tt; grows = λ j h. h }
  run_batch-Batched k (n ∷ ns) r q = elim (Bool-cases (marked n.id r.completed)) [
    | inl done ↦
        let later = run_batch-Batched k ns r (rw (run_batch, done, if◌then◌else◌) at q) in
        rw (done, if◌then◌else◌)
          (record {
            quiet = later.quiet;
            all_marked = (later.grows n.id done, later.all_marked);
            grows = later.grows;
          })
    | inr fresh ↦
        let r' = execute_node env w x (sig.node_cancelled k n) n r in
        let effect = execute_node-Effect env n w x (sig.node_cancelled k n) r in
        let later = run_batch-Batched k ns r' (rw (run_batch, fresh, if◌then◌else◌) at q) in
        let (quiet_before, marked_now) = execute-quiet n r r' effect later.quiet in
        rw (fresh, if◌then◌else◌)
          (record {
            quiet = quiet_before;
            all_marked = (later.grows n.id marked_now, later.all_marked);
            grows = λ j h. later.grows j (Effect-Grows n r r' effect j h);
          })
  ]

module _ (env : Env) (sig : Signals) (g : DagGraph) (x : Execution) where
  -- A round that goes on completes at least one node.
  round-lt :
      (k : ℕ) (r : Run) (ns : List Node)
      → get_ready_nodes g r.completed ≡ ns
      → ns ≢ []
      → (batch env sig g x k r).errors ≡ []
      → todo (batch env sig g x k r).completed g.workflow.nodes < todo r.completed g.workflow.nodes
  round-lt k r [] q some_ready quiet = absurd (some_ready refl)
  round-lt k r (n ∷ ns) q some_ready quiet =
      let ready : In n (get_ready_nodes g r.completed) = rw q (inl refl) in
      let (there, fresh, _) = (get_ready_nodes_iff g r.completed n).0 ready in
      let done = run_batch-Batched env sig g.workflow x k (get_ready_nodes g r.completed) r quiet in
      todo-lt r.completed (batch env sig g x k r).completed g.workflow.nodes n done.grows there
        fresh
        (All-In (λ m. marked m.id (batch env sig g x k r).completed ≡ true)
          (get_ready_nodes g r.completed) n done.all_marked ready)

  Round-completed :
      (fuel k : ℕ) (r : Run) {p : Run × DagEnd}
      → Round env sig g x fuel k r p
      → todo r.completed g.workflow.nodes < suc fuel
      → ((t : Run)
          → todo t.completed g.workflow.nodes < fuel
          → (run_rounds fuel env sig g x (suc k) t).1 ≢ out_of_fuel)
      → p.1 ≢ out_of_fuel
  Round-completed fuel k r (stops e _ h _) l ih = h
  Round-completed fuel k r (ends _) l ih = λ e. cc
  Round-completed fuel k r (fails e es q) l ih = λ e. cc
  Round-completed fuel k r (goes_on some_ready quiet) l ih =
      ih (batch env sig g x k r)
        (omega (arith, round-lt k r (get_ready_nodes g r.completed) refl some_ready quiet))

  run_rounds-ends :
      (fuel k : ℕ) (r : Run)
      → todo r.completed g.workflow.nodes < fuel
      → (run_rounds fuel env sig g x k r).1 ≢ out_of_fuel
  run_rounds-ends zero k r l = absurd (omega arith)
  run_rounds-ends (suc fuel) k r l =
      Round-completed fuel k r (round env sig g x fuel k r) l (run_rounds-ends fuel (suc k))

  todo-length : (c : Flags) (ns : List Node) → todo c ns ≤ length ns
  unfolding todo
  todo-length c ns = length-select-le (open_node c) ns

  Round-finished :
      (fuel k : ℕ) (r : Run) {p : Run × DagEnd}
      → Round env sig g x fuel k r p
      → ((t : Run)
          → (run_rounds fuel env sig g x (suc k) t).1 ≡ finished
          → get_ready_nodes g (run_rounds fuel env sig g x (suc k) t).0.completed ≡ [])
      → p.1 ≡ finished
      → get_ready_nodes g p.0.completed ≡ []
  Round-finished fuel k r (stops e _ _ h) ih q = absurd (h q)
  Round-finished fuel k r (ends h) ih q = h
  Round-finished fuel k r (fails e es _) ih q = absurd (cc)
  Round-finished fuel k r (goes_on _ _) ih q = ih (batch env sig g x k r) q

  run_rounds-finished :
      (fuel k : ℕ) (r : Run)
      → (run_rounds fuel env sig g x k r).1 ≡ finished
      → get_ready_nodes g (run_rounds fuel env sig g x k r).0.completed ≡ []
  unfolding run_rounds
  run_rounds-finished zero k r q = absurd (cc)
  run_rounds-finished (suc fuel) k r q =
      Round-finished fuel k r (round env sig g x fuel k r) (run_rounds-finished fuel (suc k)) q

pub execute_dag-ends :
    (env : Env) (sig : Signals) (g : DagGraph) (x : Execution) (r : Run)
    → (execute_dag env sig g x r).1 ≢ out_of_fuel
unfolding execute_dag
execute_dag-ends env sig g x r =
    let start = run_batch env sig g.workflow x 0 g.root_nodes r in
    run_rounds-ends env sig g x (suc (suc (length g.workflow.nodes))) 1 start
      (omega (arith, todo-length env sig g x start.completed g.workflow.nodes))

-- If the run of an accepted workflow finishes, and each edge that is not internal starts at a node,
-- then every node is completed. That includes the nodes behind a condition or switch node and behind
-- an edge with a condition expression: the code tests neither, while the comments of
-- `GetActivatedDownstream` (dag.go) and of `executeNode` (engine.go) and workflow/README.md say that
-- such an edge is followed only if it is activated.
pub execute_dag-finished :
    (env : Env) (sig : Signals) (w : Workflow) (g : DagGraph) (x : Execution) (r : Run) (n : Node)
    → new_dag_graph w ≡ ok g
    → SourcesKnown w
    → (execute_dag env sig g x r).1 ≡ finished
    → In n w.nodes
    → marked n.id (execute_dag env sig g x r).0.completed ≡ true
unfolding execute_dag
execute_dag-finished env sig w g x r n built known q there =
    let start = run_batch env sig g.workflow x 0 g.root_nodes r in
    let fuel = suc (suc (length g.workflow.nodes)) in
    let last = (run_rounds fuel env sig g x 1 start).0 in
    let idle = run_rounds-finished env sig g x fuel 1 start q in
    elim (Bool-cases (marked n.id last.completed)) [
      | inl done ↦ done
      | inr fresh ↦
          absurd (get_ready_nodes-progress w g last.completed n built known there fresh idle)
    ]
