-- ===== src/Examples/Graphs.antt =====
-- The graph of a workflow: examples.
use landc_go.Model.{Edge, can_transition, execution_status_eq, ExecutionStatus}
use landc_go.Model.Validity.{follow-ran, follow}
use landc_go.Dag.Cycle.{detect_cycle, edges_of, detect_cycle_fueled}
use landc_go.Dag.Graph.{new_dag_graph, raw_graph, get_ready_nodes, DagGraph, has_cycle}
use landc_go.Dag.Flow.{Flow, direct, wire, new_dag_graph-acyclic, wire→arc, node_ids}
use landc_go.Dag.Progress.{SourcesKnown, new_dag_graph_iff, get_ready_nodes-progress}
use landc_go.Dag.Ready.{get_ready_nodes_iff, DepsDone}
use landc_go.Dag.Sorted.{TargetsKnown}
use landc_go.Dag.Remaining.{InOrder}
use landc_go.Dag.Topological.{topological_sort}
use landc_go.Dag.Linear.{topological_sort-orders}
use landc_go.Dag.Walk.{Walk, one}
use landc_go.Examples.Samples.{node, edge, chain, ring, chain_graph, execution}
use landc_go.Prelude.{
  Distinct, ap, inl, inr, ok, refl, ◌≡◌, All, In, IsSorted, String, [], any, err, false, length,
  map, mark, marked, none, pos, select, some, true, ◌↔◌, ◌∷◌, ◌≢◌, List, apart, lookup,
}

chain-built : new_dag_graph chain ≡ ok chain_graph
unfolding new_dag_graph landc_go.Dag.Cycle.color_of landc_go.Prelude.insert
chain-built = refl

ring-refused : new_dag_graph ring ≡ err (has_cycle ("a" ∷ "b" ∷ "a" ∷ []))
unfolding new_dag_graph landc_go.Dag.Cycle.color_of landc_go.Prelude.insert
ring-refused = refl

chain-SourcesKnown : SourcesKnown chain
chain-SourcesKnown e (inl q) h = inl (ap (λ (x : Edge). x.source_id) q)
chain-SourcesKnown e (inr i) h = absurd i

a-b : Flow chain "a" "b"
a-b = direct (wire (edge "a" "b") (inl refl) refl refl refl)

new_dag_graph_iff_example :
    ((g : DagGraph) × (new_dag_graph chain ≡ ok g)) ↔ ((b : String) → ¬ Flow chain b b)
new_dag_graph_iff_example = new_dag_graph_iff chain chain-SourcesKnown

new_dag_graph-acyclic_example : ¬ Flow chain "b" "b"
new_dag_graph-acyclic_example =
    new_dag_graph-acyclic chain chain_graph "a" "b" chain-built (inl refl) a-b

get_ready_nodes-progress_example : get_ready_nodes chain_graph (mark "a" []) ≢ []
unfolding marked mark
get_ready_nodes-progress_example =
    get_ready_nodes-progress chain chain_graph (mark "a" []) (node "b") chain-built
      chain-SourcesKnown (inr (inl refl)) refl

get_ready_nodes_iff_example : In (node "b") (get_ready_nodes chain_graph (mark "a" [])) ↔ (
    In (node "b") chain_graph.workflow.nodes
    × (marked "b" (mark "a" []) ≡ false)
    × DepsDone chain_graph.workflow (mark "a" []) "b")
get_ready_nodes_iff_example = get_ready_nodes_iff chain_graph (mark "a" []) (node "b")

chain-cleared : detect_cycle (raw_graph chain).adj ("a" ∷ "b" ∷ []) ≡ none
unfolding detect_cycle raw_graph landc_go.Dag.Cycle.color_of landc_go.Prelude.insert
chain-cleared = refl

a-b-Walk : Walk (raw_graph chain).adj "a" "b"
a-b-Walk = one (wire→arc chain "a" "b" (wire (edge "a" "b") (inl refl) refl refl refl))

ring-found : detect_cycle (raw_graph ring).adj ("a" ∷ "b" ∷ []) ≡ some ("a" ∷ "b" ∷ "a" ∷ [])
unfolding detect_cycle raw_graph landc_go.Dag.Cycle.color_of landc_go.Prelude.insert
ring-found = refl

chain-TargetsKnown : TargetsKnown chain
chain-TargetsKnown e (inl q) h = inr (inl (ap (λ (x : Edge). x.target_id) q))
chain-TargetsKnown e (inr i) h = absurd i

chain-Distinct : Distinct (node_ids chain)
chain-Distinct = (b_is_not_a, (λ i. i, tt))
  where
    b_is_not_a : ¬ In {A = String} "a" ("b" ∷ [])
    b_is_not_a (inl q) = apart "b" "a" refl q
    b_is_not_a (inr i) = i

topological_sort-orders_example :
    (order : List String) × (topological_sort chain_graph
      ≡ ok (map (λ id. lookup id chain_graph.node_map) order))
    × Distinct order
    × ((id : String) → In id order ↔ In id (node_ids chain))
    × InOrder chain [] order
topological_sort-orders_example =
    topological_sort-orders chain chain_graph chain-built chain-SourcesKnown chain-TargetsKnown
      chain-Distinct

pausing :
    follow
      (execution ExecutionStatus.pending 1)
      (ExecutionStatus.running ∷ ExecutionStatus.paused ∷ [])
    ≡ some (execution ExecutionStatus.paused 1)
unfolding follow can_transition
pausing = refl

follow-ran_example :
    any
      (execution_status_eq ExecutionStatus.running)
      (ExecutionStatus.running ∷ ExecutionStatus.paused ∷ [])
    ≡ true
follow-ran_example =
    follow-ran (execution ExecutionStatus.pending 1) (execution ExecutionStatus.paused 1)
      (ExecutionStatus.running ∷ ExecutionStatus.paused ∷ []) tt pausing tt
