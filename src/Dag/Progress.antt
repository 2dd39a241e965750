-- ===== src/Dag/Progress.antt =====
-- In an accepted workflow the scheduling never gets stuck.
use landc_go.Model.{Node, Edge, Workflow}
use landc_go.Dag.Cycle.{color_of, black, initial_search}
use landc_go.Dag.Verdict.{Cleared, detect_cycle-Cleared, Arc-lt}
use landc_go.Dag.Graph.{DagGraph, DagError, raw_graph, new_dag_graph, get_ready_nodes}
use landc_go.Dag.Ready.{DepsDone, get_ready_nodes_iff}
use landc_go.Dag.Build.{enters}
use landc_go.Dag.Flow.{
  wire, Flow, direct, then_wire, node_ids, wire→arc, new_dag_graph-ok, new_dag_graph-workflow,
  new_dag_graph-acyclic, new_dag_graph-cycle,
}
use landc_go.Prelude.{
  All-In, Bool-cases, Flags, In, List, Result, String, [], ap, arith, eq_iff, err, false, inl, inr,
  map, marked, not, ok, refl, subst, suc, sym, true, zero, ℕ, ◌&&◌, ◌+◌, ◌↔◌, ◌∷◌, ◌≡◌, ◌≢◌, ◌≤◌,
  ◌⊎◌,
}

-- Every edge that takes part in the scheduling starts at a node of the workflow.
abbrev pub SourcesKnown : Workflow → Type 0
SourcesKnown w = (e : Edge) → In e w.edges → e.internal ≡ false → In e.source_id (node_ids w)

abbrev Waits : List Edge → Flags → String → Type 0
Waits es completed id =
    (e : Edge) × In e es
    × (e.internal ≡ false)
    × (e.target_id ≡ id)
    × (marked e.source_id completed ≡ false)

abbrev Settled : List Edge → Flags → String → Type 0
Settled es completed id =
    (e : Edge)
    → In e es
    → e.internal ≡ false
    → e.target_id ≡ id
    → marked e.source_id completed ≡ true

deps_cases :
    (es : List Edge) (completed : Flags) (id : String)
    → Settled es completed id ⊎ Waits es completed id
deps_cases [] completed id = inl (λ e i. absurd i)
deps_cases (x ∷ es) completed id = elim (deps_cases es completed id) [
  | inr (e, i, outer, target, waits) ↦ inr (e, inr i, outer, target, waits)
  | inl done ↦ elim (Bool-cases (enters id x && not (marked x.source_id completed))) [
    | inl q ↦ inr (x, inl refl, ground arith, ground (arith, eq_iff x.target_id id), ground arith)
    | inr q ↦ inl λ e. elim [
      | inl p ↦ λ outer target.
          rw (← p) (ground (arith, eq_iff x.target_id id, rw (← p) at outer, rw (← p) at target))
      | inr i ↦ done e i
    ]
  ]
]

pub node_of :
    (ns : List Node) (k : String) → In k (map (λ n. n.id) ns) → (n : Node) × In n ns × (n.id ≡ k)
node_of (n ∷ ns) k (inl q) = (n, inl refl, q)
node_of (n ∷ ns) k (inr i) = let (m, j, q) = node_of ns k i in (m, inr j, q)
node_of [] k i = absurd i

pub In-ids : (ns : List Node) (n : Node) → In n ns → In n.id (map (λ x. x.id) ns)
In-ids (x ∷ ns) n (inl q) = inl (ap (λ (y : Node). y.id) q)
In-ids (x ∷ ns) n (inr i) = inr (In-ids ns n i)
In-ids [] n i = absurd i

cons_of_In : (ns : List Node) (n : Node) → In n ns → ns ≢ []
cons_of_In (x ∷ ns) n i = λ q. cc
cons_of_In [] n i = absurd i

module _ (w : Workflow) (g : DagGraph) (built : new_dag_graph w ≡ ok g) (known : SourcesKnown w)
    (completed : Flags) where
  cleared : Cleared (raw_graph w).adj (node_ids w) (initial_search (node_ids w))
  cleared = detect_cycle-Cleared (raw_graph w).adj (node_ids w) (new_dag_graph-ok w g built).0

  abbrev rank : String → ℕ
  rank = cleared.ranked.rank

  node-black : (k : String) → In k (node_ids w) → color_of cleared.last k ≡ black
  node-black k i = All-In (λ x. color_of cleared.last x ≡ black) (node_ids w) k cleared.all_black i

  -- From a node that is not completed, back along the edges to one that is ready.
  climb :
      (k : ℕ) (n : Node)
      → In n w.nodes
      → marked n.id completed ≡ false
      → cleared.ranked.top ≤ k + rank n.id
      → get_ready_nodes g completed ≢ []
  climb zero n i fresh h =
      let l = cleared.ranked.below n.id (node-black n.id (In-ids w.nodes n i)) in
      absurd (omega (arith, l.under))
  climb (suc k) n i fresh h = elim (deps_cases w.edges completed n.id) [
    | inl done ↦
        let g_w = new_dag_graph-workflow w g built in
        cons_of_In (get_ready_nodes g completed) n (
          (get_ready_nodes_iff g completed n).1
            (rw g_w i, fresh, subst (λ v. DepsDone v completed n.id) (sym g_w) done))
    | inr (e, j, outer, target, waits) ↦
        let (m, j', q) = node_of w.nodes e.source_id (known e j outer) in
        let up =
          Arc-lt (raw_graph w).adj cleared.last cleared.ranked e.source_id n.id
            (wire→arc w e.source_id n.id (wire e j outer refl target))
            (node-black e.source_id (known e j outer)) in
        climb k m j' (rw q waits) (rw q (omega (arith, up.1)))
  ]

-- While a node of an accepted workflow is not completed, some node is ready, provided that every
-- edge which is not internal starts at a node of the workflow.
pub get_ready_nodes-progress :
    (w : Workflow) (g : DagGraph) (completed : Flags) (n : Node)
    → new_dag_graph w ≡ ok g
    → SourcesKnown w
    → In n w.nodes
    → marked n.id completed ≡ false
    → get_ready_nodes g completed ≢ []
get_ready_nodes-progress w g completed n built known i fresh =
    climb w g built known completed (cleared w g built known completed).ranked.top n i fresh
      (omega arith)

flow_start : (w : Workflow) {a b : String} → SourcesKnown w → Flow w a b → In a (node_ids w)
flow_start w known (direct (wire e i outer source target)) = rw (← source) (known e i outer)
flow_start w known (then_wire f x) = flow_start w known f

-- Where every edge that is not internal starts at a node, `NewDAGGraph` succeeds exactly on the
-- workflows whose edges that are not internal have no cycle.
pub new_dag_graph_iff :
    (w : Workflow)
    → SourcesKnown w
    → ((g : DagGraph) × (new_dag_graph w ≡ ok g)) ↔ ((b : String) → ¬ Flow w b b)
new_dag_graph_iff w known = (
  λ (g, built) b f. new_dag_graph-acyclic w g b b built (flow_start w known f) f f,
  λ acyclic. built_of acyclic (new_dag_graph w) refl,
)
  where
    built_of :
        ((b : String) → ¬ Flow w b b)
        → (r : Result DagError DagGraph) → new_dag_graph w ≡ r
        → (g : DagGraph) × (new_dag_graph w ≡ ok g)
    built_of acyclic (ok g) q = (g, q)
    built_of acyclic (err x) q = let (b, f) = new_dag_graph-cycle w x q in absurd (acyclic b f)
