-- ===== src/Dag/Topological.antt =====
-- workflow/pkg/engine/dag.go, `TopologicalSort`: the nodes whose counter has fallen to zero wait in a
-- queue. A nil entry of `nodeMap` is `none`.
use landc_go.Model.{Node}
use landc_go.Dag.Cycle.{EdgeInfo, edges_of}
use landc_go.Dag.Graph.{DagGraph}
use landc_go.Prelude.{
  List, Map, Option, Result, String, [], eqb, err, get_or, if◌then◌else◌, insert, is_zero_ℤ, length,
  lookup, map, none, ok, pos, pred_ℤ, some, suc, zero, ℕ, ℤ, ◌++◌, ◌+◌, ◌∷◌,
}

pub data SortError : Type 0 where
  incomplete_sort : SortError

pub record Kahn : Type 0 where
  pub in_degree : Map ℤ
  pub queue : List String
  pub result : List (Option Node)

-- What the loop over the edges that leave the node at hand does with an edge to this target.
unfoldable pub lower : String → Kahn → Kahn
unfolding get_or insert
lower target k =
    let d = pred_ℤ (get_or target k.in_degree (pos 0)) in
    record k {
      in_degree = insert target d k.in_degree;
      queue = if is_zero_ℤ d then k.queue ++ target ∷ [] else k.queue;
    }

unfoldable pub release : List EdgeInfo → Kahn → Kahn
unfolding lower
release [] k = k
release (e ∷ es) k = release es (lower e.target_id k)

-- What is done with the node that leaves the queue.
unfoldable pub visit : DagGraph → String → List String → Kahn → Kahn
unfolding release edges_of
visit g id rest k =
    release (edges_of g.adj id)
      (record k { queue = rest; result = k.result ++ lookup id g.node_map ∷ [] })

unfoldable pub sort_loop : ℕ → DagGraph → Kahn → Option (List (Option Node))
unfolding visit
sort_loop zero g k = elim k.queue [ [] ↦ some k.result | id ∷ rest ↦ none ]
sort_loop (suc fuel) g k = elim k.queue [
  | [] ↦ some k.result
  | id ∷ rest ↦ sort_loop fuel g (visit g id rest k)
]

abbrev pub initial_kahn : DagGraph → Kahn
initial_kahn g = record {
  in_degree = g.in_degree;
  queue = map (λ n. n.id) g.root_nodes;
  result = [];
}

-- Each counter puts its id into the queue once at most.
unfoldable pub topological_sort_fueled : DagGraph → Option (List (Option Node))
unfolding sort_loop
topological_sort_fueled g = sort_loop (length g.in_degree + length g.root_nodes) g (initial_kahn g)

unfoldable pub topological_sort : DagGraph → Result SortError (List (Option Node))
unfolding topological_sort_fueled
topological_sort g = elim (topological_sort_fueled g) [
  | none ↦ err incomplete_sort
  | some ns ↦ if eqb (length ns) (length g.workflow.nodes) then ok ns else err incomplete_sort
]
