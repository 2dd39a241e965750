-- ===== src/Dag/Linear.antt =====
-- workflow/pkg/engine/dag.go, `TopologicalSort` on the graph of an accepted workflow.
use mathlib.Core.List.{append-nil}
use landc_go.Model.{Node, Workflow}
use landc_go.Dag.Cycle.{edges_of}
use landc_go.Dag.Graph.{DagGraph, build_root_nodes, new_dag_graph, get_ready_nodes, edge_info}
use landc_go.Dag.Build.{leaves, edges_of-raw_graph}
use landc_go.Dag.Flow.{node_ids, new_dag_graph-ok, new_dag_graph-workflow}
use landc_go.Dag.Ready.{DepsDone, get_ready_nodes_iff}
use landc_go.Dag.Progress.{SourcesKnown, get_ready_nodes-progress, node_of, In-ids}
use landc_go.Dag.Topological.{topological_sort, topological_sort_fueled}
use landc_go.Dag.Remaining.{waiting, waiting-of_DepsDone, marks, InOrder, In-marks, marked-marks}
use landc_go.Dag.Settled.{Settled}
use landc_go.Dag.Kahn.{topological_sort_fueled-ends}
use landc_go.Dag.Sorted.{TargetsKnown, sort_loop-Standing}
use landc_go.Prelude.{
  Bool-cases, Distinct, In, List, String, [], inl, inr, map, select, subst, sym, ◌∷◌, ◌≡◌, ◌↔◌, Map,
  arith, lookup, marked, ok, refl, ℤ, Option, length, length-Distinct, some, ◌+◌, length-map,
  unmarked-nil,
}
use landc_go.Dag.Roots.{ids, start-Settled}

module _ (w : Workflow) (g : DagGraph) (built : new_dag_graph w ≡ ok g) (sources : SourcesKnown w)
    (targets : TargetsKnown w) (different : Distinct (node_ids w)) where
  arcs : (id : String) → edges_of g.adj id ≡ map edge_info (select (leaves id) w.edges)
  unfolding build_root_nodes
  arcs id = rw (new_dag_graph-ok w g built).1 (edges_of-raw_graph w id)

  -- Were a node left over, some node would be ready, and so have been reached.
  all_reached :
      (order : List String) (last : Map ℤ)
      → Settled (node_ids w) order (waiting w.edges (marks [] order)) last
      → (id : String) → In id (node_ids w)
      → In id order
  all_reached order last s id i = elim (Bool-cases (marked id (marks [] order))) [
    | inl q ↦ elim (marked-marks [] order id q) [
      | inl j ↦ j
      | inr m ↦ absurd (ground (arith, unmarked-nil id))
    ]
    | inr q ↦
        let (n, j, p) = node_of w.nodes id i in
        absurd (
          get_ready_nodes-progress w g (marks [] order) n built sources j (rw p q)
            (no_ready (get_ready_nodes g (marks [] order)) refl))
  ]
    where
      no_ready :
          (ns : List Node)
          → get_ready_nodes g (marks [] order) ≡ ns
          → get_ready_nodes g (marks [] order) ≡ []
      no_ready [] q = q
      no_ready (n ∷ ns) q =
          let (there, fresh, deps) =
            (get_ready_nodes_iff g (marks [] order) n).0 (subst (λ l. In n l) (sym q) (inl refl)) in
          let same = new_dag_graph-workflow w g built in
          let known = In-ids w.nodes n (rw same at there) in
          let reached = s.found n.id known (
            waiting-of_DepsDone w (marks [] order) n.id
              (subst (λ v. DepsDone v (marks [] order) n.id) same deps)) in
          absurd (ground (arith, In-marks [] order n.id reached, fresh))

  loop_found :
      (found : List (Option Node))
      → topological_sort_fueled g ≡ some found
      → (order : List String) × (last : Map ℤ) × Settled
          (node_ids w)
          order
          (waiting w.edges (marks [] order))
          last
        × InOrder w [] order
        × (found ≡ map (λ id. lookup id g.node_map) order)
  unfolding topological_sort_fueled
  loop_found found q =
      let (order, last, (s, ordered), same) =
        sort_loop-Standing w g targets arcs (length g.in_degree + length g.root_nodes) []
          (ids g.root_nodes) g.in_degree [] found (from_start, tt) refl q in
      (order, last, rw (append-nil order) at s, ordered, same)
    where
      from_start : Settled (node_ids w) (ids g.root_nodes) (waiting w.edges []) g.in_degree
      from_start =
          subst
            (λ (h : DagGraph).
              Settled (node_ids w) (ids h.root_nodes) (waiting w.edges []) h.in_degree)
            (sym (new_dag_graph-ok w g built).1) (start-Settled w different)

  length-order :
      (order : List String)
      → Distinct order
      → Distinct (node_ids w)
      → ((id : String) → In id order ↔ In id (node_ids w))
      → length order ≡ length w.nodes
  length-order order d d' same = omega (
    arith,
    length-Distinct order (node_ids w) d (λ id i. (same id).0 i),
    length-Distinct (node_ids w) order d' (λ id i. (same id).1 i),
    length-map (λ n. n.id) w.nodes,
  )

-- The topological sort of an accepted workflow, whose node ids are pairwise different and whose
-- edges that are not internal start and end at nodes, succeeds. It hands back, by their ids, each
-- node once, and each behind the sources of all edges into it that are not internal.
pub topological_sort-orders :
    (w : Workflow) (g : DagGraph)
    → new_dag_graph w ≡ ok g
    → SourcesKnown w
    → TargetsKnown w
    → Distinct (node_ids w)
    → (order : List String) × (topological_sort g ≡ ok (map (λ id. lookup id g.node_map) order))
      × Distinct order
      × ((id : String) → In id order ↔ In id (node_ids w))
      × InOrder w [] order
unfolding topological_sort
topological_sort-orders w g built sources targets different =
    let (found, q) = topological_sort_fueled-ends g in
    let (order, last, s, ordered, same) = loop_found w g built sources targets different found q in
    let there : (id : String) → In id order ↔ In id (node_ids w) =
      λ id. (s.inside id, all_reached w g built sources targets different order last s id) in
    let long = length-order w g built sources targets different order s.different different there in
    (
      order,
      ground (
        arith,
        q,
        same,
        length-map (λ id. lookup id g.node_map) order,
        new_dag_graph-workflow w g built,
      ),
      s.different,
      there,
      ordered,
    )
