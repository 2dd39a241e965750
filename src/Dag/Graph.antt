-- ===== src/Dag/Graph.antt =====
-- workflow/pkg/engine/dag.go: the graph, its construction from a workflow, and its queries.
use landc_go.Prelude.{
  String, Bool, not, ◌&&◌, ◌||◌, List, [], ◌∷◌, ◌++◌, map, none, some, Map, lookup, insert, get_or,
  Flags, marked, ◌==◌, if◌then◌else◌, ℤ, pos, ltb_ℤ, suc_ℤ, is_zero_ℤ, all, Result, ok, err, select,
  sort_slice,
}
use landc_go.Model.{Node, Edge, Workflow, NodeType, node_type_eq}
use landc_go.Dag.Cycle.{EdgeInfo, Adjacency, edges_of, detect_cycle}

pub record DagGraph : Type 0 where
  pub workflow : Workflow
  pub adj : Adjacency
  pub in_degree : Map ℤ
  pub node_map : Map Node
  pub root_nodes : List Node

pub data DagError : Type 0 where
  has_cycle : List String → DagError

abbrev pub order_less : Node → Node → Bool
order_less m n = ltb_ℤ m.order_no n.order_no

-- The sort by `OrderNo`, for the root nodes and for the ready nodes.
unfoldable pub sort_by_order : List Node → List Node
unfolding sort_slice
sort_by_order ns = sort_slice order_less ns

abbrev pub edge_info : Edge → EdgeInfo
edge_info e = record {
  target_id = e.target_id;
  source_port = e.source_port;
  target_port = e.target_port;
  condition_expr = e.condition_expr;
  label = e.label;
}

-- The first loop of `NewDAGGraph`.
unfoldable pub add_nodes : List Node → DagGraph → DagGraph
add_nodes [] g = g
add_nodes (n ∷ ns) g = add_nodes ns (record g {
  node_map = insert n.id n g.node_map;
  in_degree = insert n.id (pos 0) g.in_degree;
  adj = insert n.id [] g.adj;
})

unfoldable pub add_edge : Edge → DagGraph → DagGraph
unfolding edges_of
add_edge e g = if e.internal then g else record g {
  adj = insert e.source_id (edges_of g.adj e.source_id ++ edge_info e ∷ []) g.adj;
  in_degree = insert e.target_id (suc_ℤ (get_or e.target_id g.in_degree (pos 0))) g.in_degree;
}

-- The second loop of `NewDAGGraph`.
unfoldable pub add_edges : List Edge → DagGraph → DagGraph
unfolding add_edge
add_edges [] g = g
add_edges (e ∷ es) g = add_edges es (add_edge e g)

abbrev pub empty_graph : Workflow → DagGraph
empty_graph w = record { workflow = w; adj = []; in_degree = []; node_map = []; root_nodes = [] }

-- `NewDAGGraph` up to the test for cycles.
unfoldable pub raw_graph : Workflow → DagGraph
unfolding add_nodes add_edges
raw_graph w = add_edges w.edges (add_nodes w.nodes (empty_graph w))

unfoldable pub build_root_nodes : DagGraph → DagGraph
unfolding sort_by_order
build_root_nodes g = record g {
  root_nodes =
      sort_by_order (select (λ n. is_zero_ℤ (get_or n.id g.in_degree (pos 0))) g.workflow.nodes);
}

unfoldable pub new_dag_graph : Workflow → Result DagError DagGraph
unfolding raw_graph build_root_nodes detect_cycle
new_dag_graph w =
    let g = raw_graph w in
    elim (detect_cycle g.adj (map (λ n. n.id) w.nodes)) [
      | none ↦ ok (build_root_nodes g)
      | some path ↦ err (has_cycle path)
    ]

unfoldable pub get_downstream : DagGraph → String → List EdgeInfo
get_downstream g id = edges_of g.adj id

-- The loop over the edges of a branching node: those whose port matches, and those of `default`.
unfoldable pub matching_port : String → List EdgeInfo → List EdgeInfo
matching_port output es = select (λ e. (e.source_port == output) || (e.source_port == "")) es

unfoldable pub default_port : String → List EdgeInfo → List EdgeInfo
default_port output es =
    select
      (λ e.
        not ((e.source_port == output) || (e.source_port == "")) && (e.source_port == "default"))
      es

abbrev pub is_branching : NodeType → Bool
is_branching t = node_type_eq t NodeType.condition || node_type_eq t NodeType.switch

unfoldable pub get_activated_downstream : DagGraph → String → String → List EdgeInfo
unfolding matching_port default_port edges_of
get_activated_downstream g id output = elim (lookup id g.node_map) [
  | none ↦ edges_of g.adj id
  | some n ↦
      if is_branching n.type
      then elim (matching_port output (edges_of g.adj id)) [
        | [] ↦ default_port output (edges_of g.adj id)
        | e ∷ es ↦ e ∷ es
      ]
      else edges_of g.adj id
]

unfoldable pub get_dep_nodes : DagGraph → String → List String
get_dep_nodes g id =
    map (λ e. e.source_id) (select (λ e. (e.target_id == id) && not e.internal) g.workflow.edges)

-- The test that `GetReadyNodes` makes of each node.
unfoldable pub is_ready : DagGraph → Flags → Node → Bool
unfolding get_dep_nodes
is_ready g completed n =
    not (marked n.id completed) && all (λ d. marked d completed) (get_dep_nodes g n.id)

unfoldable pub get_ready_nodes : DagGraph → Flags → List Node
unfolding is_ready sort_by_order
get_ready_nodes g completed = sort_by_order (select (is_ready g completed) g.workflow.nodes)
