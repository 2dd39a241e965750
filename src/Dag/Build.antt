-- ===== src/Dag/Build.antt =====
-- What the two loops of `NewDAGGraph` leave in the adjacency map and in the in-degrees.
use mathlib.Core.List.{append-nil, append_assoc}
use landc_go.Model.{Node, Edge, Workflow}
use landc_go.Dag.Cycle.{EdgeInfo, Adjacency, edges_of}
use landc_go.Dag.Graph.{DagGraph, edge_info, add_nodes, add_edge, add_edges, empty_graph, raw_graph}
use landc_go.Prelude.{
  Bool, Bool-cases, List, String, [], arith, eq_iff, get_or, get_or-insert, if◌then◌else◌, inl, inr,
  insert, lookup, map, not, pos, refl, select, suc, suc_ℤ, sym, zero, ℕ, ℤ, ◌&&◌, ◌++◌, ◌==◌, ◌∷◌,
  ◌≡◌, ap, length, ◌+◌, ◌∙◌,
}

-- The edges that take part in the scheduling and leave `id`, in the order of the workflow.
abbrev pub leaves : String → Edge → Bool
leaves id e = not e.internal && (e.source_id == id)

abbrev pub enters : String → Edge → Bool
enters id e = not e.internal && (e.target_id == id)

abbrev pub in_degree_of : DagGraph → String → ℤ
in_degree_of g id = get_or id g.in_degree (pos 0)

abbrev add_times : ℤ → ℕ → ℤ
add_times z zero = z
add_times z (suc n) = add_times (suc_ℤ z) n

edges_of-insert :
    (k id : String) (es : List EdgeInfo) (adj : Adjacency)
    → edges_of (insert k es adj) id ≡ (if k == id then es else edges_of adj id)
unfolding edges_of
edges_of-insert k id es adj = get_or-insert k id es [] adj

-- No edge is known while the nodes are entered.
edges_of-add_nodes :
    (ns : List Node) (g : DagGraph) (id : String)
    → edges_of g.adj id ≡ []
    → edges_of (add_nodes ns g).adj id ≡ []
unfolding add_nodes
edges_of-add_nodes [] g id h = h
edges_of-add_nodes (n ∷ ns) g id h =
    edges_of-add_nodes ns _ id (ground (arith, edges_of-insert n.id id [] g.adj))

edges_of-add_edge :
    (e : Edge) (g : DagGraph) (id : String)
    → edges_of (add_edge e g).adj id
      ≡ (if leaves id e then edges_of g.adj id ++ edge_info e ∷ [] else edges_of g.adj id)
unfolding add_edge
edges_of-add_edge e g id = ground (
  arith,
  edges_of-insert e.source_id id (edges_of g.adj e.source_id ++ edge_info e ∷ []) g.adj,
  eq_iff e.source_id id,
)

edges_of-add_edges :
    (es : List Edge) (g : DagGraph) (id : String)
    → edges_of (add_edges es g).adj id ≡ edges_of g.adj id ++ map edge_info (select (leaves id) es)
unfolding add_edges
edges_of-add_edges [] g id = sym (append-nil (edges_of g.adj id))
edges_of-add_edges (e ∷ es) g id = elim (Bool-cases (leaves id e)) [
  | inl q ↦
      rw (edges_of-add_edges es (add_edge e g) id, edges_of-add_edge e g id, q)
        (append_assoc (edges_of g.adj id) (edge_info e ∷ []) _)
  | inr q ↦ rw (edges_of-add_edges es (add_edge e g) id, edges_of-add_edge e g id, q)
]

edges_of-nil : (id : String) → edges_of [] id ≡ []
unfolding edges_of get_or lookup
edges_of-nil id = refl

-- The adjacency list of an id holds exactly the workflow's edges that leave it and are not
-- internal, in the order of the workflow.
pub edges_of-raw_graph :
    (w : Workflow) (id : String)
    → edges_of (raw_graph w).adj id ≡ map edge_info (select (leaves id) w.edges)
unfolding raw_graph
edges_of-raw_graph w id = rw (
  edges_of-add_edges w.edges (add_nodes w.nodes (empty_graph w)) id,
  edges_of-add_nodes w.nodes (empty_graph w) id (edges_of-nil id),
)

in_degree-add_nodes :
    (ns : List Node) (g : DagGraph) (id : String)
    → in_degree_of g id ≡ pos 0
    → in_degree_of (add_nodes ns g) id ≡ pos 0
unfolding add_nodes
in_degree-add_nodes [] g id h = h
in_degree-add_nodes (n ∷ ns) g id h =
    in_degree-add_nodes ns _ id (ground (arith, get_or-insert n.id id (pos 0) (pos 0) g.in_degree))

in_degree-add_edges :
    (es : List Edge) (g : DagGraph) (id : String) (k : ℕ)
    → in_degree_of g id ≡ pos k
    → in_degree_of (add_edges es g) id ≡ pos (k + length (select (enters id) es))
unfolding add_edges add_edge
in_degree-add_edges [] g id k h = rw h (ap pos (omega arith))
in_degree-add_edges (e ∷ es) g id k h = elim (Bool-cases (enters id e)) [
  | inl q ↦
      in_degree-add_edges es (add_edge e g) id (suc k) (
        ground (
          arith,
          get_or-insert e.target_id id (suc_ℤ (in_degree_of g e.target_id)) (pos 0) g.in_degree,
          eq_iff e.target_id id,
        ))
      ∙ rw q (ap pos (omega arith))
  | inr q ↦
      in_degree-add_edges es (add_edge e g) id k (
        ground (
          arith,
          get_or-insert e.target_id id (suc_ℤ (in_degree_of g e.target_id)) (pos 0) g.in_degree,
        ))
      ∙ rw q
]

in_degree-nil : (id : String) → get_or id [] (pos 0) ≡ pos 0
unfolding get_or lookup
in_degree-nil id = refl

-- The in-degree of an id counts the edges that enter it and are not internal.
pub in_degree-raw_graph :
    (w : Workflow) (id : String)
    → in_degree_of (raw_graph w) id ≡ pos (length (select (enters id) w.edges))
unfolding raw_graph
in_degree-raw_graph w id =
    in_degree-add_edges w.edges (add_nodes w.nodes (empty_graph w)) id 0
      (in_degree-add_nodes w.nodes (empty_graph w) id (in_degree-nil id))
    ∙ ap pos (omega arith)

workflow-add_nodes : (ns : List Node) (g : DagGraph) → (add_nodes ns g).workflow ≡ g.workflow
unfolding add_nodes
workflow-add_nodes [] g = refl
workflow-add_nodes (n ∷ ns) g = workflow-add_nodes ns _

workflow-add_edges : (es : List Edge) (g : DagGraph) → (add_edges es g).workflow ≡ g.workflow
unfolding add_edges add_edge
workflow-add_edges [] g = refl
workflow-add_edges (e ∷ es) g = workflow-add_edges es (add_edge e g) ∙ ground arith

pub workflow-raw_graph : (w : Workflow) → (raw_graph w).workflow ≡ w
unfolding raw_graph
workflow-raw_graph w =
    workflow-add_edges w.edges (add_nodes w.nodes (empty_graph w))
    ∙ workflow-add_nodes w.nodes (empty_graph w)
