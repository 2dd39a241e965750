-- ===== src/Dag/Flow.antt =====
-- `NewDAGGraph` against the edges of the workflow: what it accepts and what it refuses.
use landc_go.Model.{Edge, Workflow}
use landc_go.Dag.Cycle.{EdgeInfo, detect_cycle}
use landc_go.Dag.Walk.{Arc, arc, Walk, one, more}
use landc_go.Dag.Verdict.{detect_cycle-none, detect_cycle-some, Closes-cycle}
use landc_go.Dag.Graph.{
  DagGraph, DagError, has_cycle, edge_info, raw_graph, build_root_nodes, new_dag_graph,
}
use landc_go.Dag.Build.{leaves, edges_of-raw_graph, workflow-raw_graph}
use landc_go.Prelude.{
  &&-eq-true, In, In-select, List, Option-cases, String, [], ap, arith, eq_iff, err, false, inl,
  inr, map, none, not, not-eq-true, ok, refl, select, select-In, some, ◌==◌, ◌∙◌, ◌∷◌, ◌≡◌,
}

-- An edge of the workflow that takes part in the scheduling.
pub data Wire (w : Workflow) (a b : String) : Type 0 where
  wire :
      (e : Edge)
      → In e w.edges
      → e.internal ≡ false
      → e.source_id ≡ a
      → e.target_id ≡ b
      → Wire w a b

-- One such edge or more, one behind the other.
pub data Flow (w : Workflow) (a : String) : String → Type 0 where
  direct : {b : String} → Wire w a b → Flow w a b
  then_wire : {b c : String} → Flow w a b → Wire w b c → Flow w a c

abbrev pub node_ids : Workflow → List String
node_ids w = map (λ n. n.id) w.nodes

pub map-edge_info :
    (es : List Edge) (x : EdgeInfo)
    → In x (map edge_info es)
    → (e : Edge) × In e es × (edge_info e ≡ x)
map-edge_info (e ∷ es) x (inl q) = (e, inl refl, q)
map-edge_info (e ∷ es) x (inr i) = let (f, j, q) = map-edge_info es x i in (f, inr j, q)
map-edge_info [] x i = absurd i

edge_info-map : (es : List Edge) (e : Edge) → In e es → In (edge_info e) (map edge_info es)
edge_info-map (x ∷ es) e (inl q) = inl (ap edge_info q)
edge_info-map (x ∷ es) e (inr i) = inr (edge_info-map es e i)
edge_info-map [] e i = absurd i

pub arc→wire : (w : Workflow) (a b : String) → Arc (raw_graph w).adj a b → Wire w a b
arc→wire w a b (arc x i q) =
    let (e, j, p) =
      map-edge_info (select (leaves a) w.edges) x (rw (edges_of-raw_graph w a) at i) in
    let (there, test) = In-select (leaves a) w.edges e j in
    let (outer, source) = &&-eq-true (not e.internal) (e.source_id == a) test in
    wire e there (not-eq-true e.internal outer) ((eq_iff e.source_id a).0 source)
      (ap (λ (y : EdgeInfo). y.target_id) p ∙ q)

pub wire→arc : (w : Workflow) (a b : String) → Wire w a b → Arc (raw_graph w).adj a b
wire→arc w a b (wire e i outer source target) =
    arc (edge_info e)
      (rw (edges_of-raw_graph w a) (
        edge_info-map (select (leaves a) w.edges) e
          (select-In (leaves a) w.edges e i (ground (arith, eq_iff e.source_id a)))))
      target

flow→walk : (w : Workflow) {a b : String} → Flow w a b → Walk (raw_graph w).adj a b
flow→walk w {a} {b} (direct x) = one (wire→arc w a b x)
flow→walk w {a} {b} (then_wire {b = m} f x) = more (flow→walk w f) (wire→arc w m b x)

walk→flow : (w : Workflow) {a b : String} → Walk (raw_graph w).adj a b → Flow w a b
walk→flow w {a} {b} (one x) = direct (arc→wire w a b x)
walk→flow w {a} {b} (more {b = m} f x) = then_wire (walk→flow w f) (arc→wire w m b x)

pub new_dag_graph-ok :
    (w : Workflow) (g : DagGraph)
    → new_dag_graph w ≡ ok g
    → (detect_cycle (raw_graph w).adj (node_ids w) ≡ none) × (g ≡ build_root_nodes (raw_graph w))
unfolding new_dag_graph
new_dag_graph-ok w g h = ground arith

new_dag_graph-err :
    (w : Workflow) (x : DagError)
    → new_dag_graph w ≡ err x
    → (p : List String) × (detect_cycle (raw_graph w).adj (node_ids w) ≡ some p) × (x ≡ has_cycle p)
unfolding new_dag_graph
new_dag_graph-err w x h = elim (Option-cases (detect_cycle (raw_graph w).adj (node_ids w))) [
  | inl q ↦ absurd (ground arith)
  | inr (p, q) ↦ (p, q, ground arith)
]

-- A graph is built only if no node of the workflow lies on a cycle of edges that are not internal,
-- or can reach such a cycle.
pub new_dag_graph-acyclic :
    (w : Workflow) (g : DagGraph) (a b : String)
    → new_dag_graph w ≡ ok g
    → In a (node_ids w)
    → Flow w a b
    → ¬ Flow w b b
new_dag_graph-acyclic w g a b h i f back =
    detect_cycle-none (raw_graph w).adj (node_ids w) (new_dag_graph-ok w g h).0 a b i
      (flow→walk w f) (flow→walk w back)

-- A workflow is refused only if its edges that are not internal have a cycle.
pub new_dag_graph-cycle :
    (w : Workflow) (x : DagError) → new_dag_graph w ≡ err x → (b : String) × Flow w b b
new_dag_graph-cycle w x h =
    let (p, q, _) = new_dag_graph-err w x h in
    let (b, back) =
      Closes-cycle (raw_graph w).adj p (detect_cycle-some (raw_graph w).adj (node_ids w) p q) in
    (b, walk→flow w back)

pub new_dag_graph-workflow : (w : Workflow) (g : DagGraph) → new_dag_graph w ≡ ok g → g.workflow ≡ w
unfolding build_root_nodes
new_dag_graph-workflow w g h =
    ap (λ (x : DagGraph). x.workflow) (new_dag_graph-ok w g h).1 ∙ workflow-raw_graph w
