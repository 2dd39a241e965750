-- ===== src/Dag/Ready.antt =====
-- `GetReadyNodes` and the root nodes, against the edges of the workflow.
use landc_go.Model.{Node, Edge, Workflow}
use landc_go.Dag.Order.{In-sort_by_order, sort_by_order-IsSorted}
use landc_go.Dag.Graph.{
  DagGraph, order_less, get_dep_nodes, is_ready, get_ready_nodes, build_root_nodes, raw_graph,
}
use landc_go.Dag.Build.{enters, in_degree-raw_graph, workflow-raw_graph, in_degree_of}
use landc_go.Prelude.{
  Flags, In, List, String, [], all, arith, eq_iff, false, inl, inr, map, marked, not, refl, select,
  true, ◌&&◌, ◌==◌, ◌∷◌, ◌≡◌, &&-eq-true, Bool, In-select, ap, is_zero_ℤ, length, not-eq-true,
  select-In, sym, ◌↔◌, ◌∙◌, IsSorted, unmarked-nil,
}

-- Each edge into the id that takes part in the scheduling starts at a marked node.
abbrev pub DepsDone : Workflow → Flags → String → Type 0
DepsDone w completed id =
    (e : Edge)
    → In e w.edges
    → e.internal ≡ false
    → e.target_id ≡ id
    → marked e.source_id completed ≡ true

deps_sound :
    (es : List Edge) (completed : Flags) (id : String)
    → all
        (λ d. marked d completed)
        (map (λ e. e.source_id) (select (λ e. (e.target_id == id) && not e.internal) es))
      ≡ true
    → (e : Edge) → In e es
    → e.internal ≡ false
    → e.target_id ≡ id
    → marked e.source_id completed ≡ true
deps_sound (x ∷ es) completed id h e (inl q) i t = ground (
  arith,
  eq_iff x.target_id id,
  ap (λ (z : Edge). z.internal) q,
  ap (λ (z : Edge). z.target_id) q,
  ap (λ (z : Edge). z.source_id) q,
)
deps_sound (x ∷ es) completed id h e (inr j) i t = deps_sound es completed id (ground arith) e j i t
deps_sound [] completed id h e j i t = absurd j

deps_complete :
    (es : List Edge) (completed : Flags) (id : String)
    → ((e : Edge)
        → In e es
        → e.internal ≡ false
        → e.target_id ≡ id
        → marked e.source_id completed ≡ true)
    → all
        (λ d. marked d completed)
        (map (λ e. e.source_id) (select (λ e. (e.target_id == id) && not e.internal) es))
      ≡ true
deps_complete [] completed id h = refl
deps_complete (x ∷ es) completed id h =
    let ih = deps_complete es completed id (λ e i. h e (inr i)) in
    ground (arith, ih, eq_iff x.target_id id, h x (inl refl))

-- A node is among the ready nodes exactly when it is a node of the workflow that is not completed,
-- and every edge into it, the internal ones left out, starts at a completed node.
pub get_ready_nodes_iff :
    (g : DagGraph) (completed : Flags) (n : Node)
    → In n (get_ready_nodes g completed) ↔ (
        In n g.workflow.nodes
        × (marked n.id completed ≡ false)
        × DepsDone g.workflow completed n.id)
unfolding get_ready_nodes is_ready get_dep_nodes
get_ready_nodes_iff g completed n = (
  λ i.
      let (there, test) =
        In-select (is_ready g completed) g.workflow.nodes n
          ((In-sort_by_order n (select (is_ready g completed) g.workflow.nodes)).0 i) in
      let (fresh, deps) = &&-eq-true (not (marked n.id completed)) _ test in
      (there, not-eq-true _ fresh, deps_sound g.workflow.edges completed n.id deps),
  λ (there, fresh, deps). (In-sort_by_order n (select (is_ready g completed) g.workflow.nodes)).1 (
      select-In (is_ready g completed) g.workflow.nodes n there
        (rw (fresh, deps_complete g.workflow.edges completed n.id deps))),
)

-- The ready nodes are arranged by their order numbers.
pub get_ready_nodes-IsSorted :
    (g : DagGraph) (completed : Flags) → IsSorted order_less (get_ready_nodes g completed)
unfolding get_ready_nodes
get_ready_nodes-IsSorted g completed =
    sort_by_order-IsSorted (select (is_ready g completed) g.workflow.nodes)

none_enters :
    (es : List Edge) (id : String)
    → length (select (enters id) es) ≡ 0
    → (e : Edge) → In e es
    → e.internal ≡ false
    → e.target_id ≡ id
    → ⊥
none_enters (x ∷ es) id h e (inl q) i t = ground (
  arith,
  eq_iff x.target_id id,
  ap (λ (z : Edge). z.internal) q,
  ap (λ (z : Edge). z.target_id) q,
)
none_enters (x ∷ es) id h e (inr j) i t = none_enters es id (ground arith) e j i t
none_enters [] id h e j i t = j

enters_none :
    (es : List Edge) (id : String)
    → ((e : Edge) → In e es → e.internal ≡ false → e.target_id ≡ id → ⊥)
    → length (select (enters id) es) ≡ 0
enters_none [] id h = refl
enters_none (x ∷ es) id h =
    ground (arith, eq_iff x.target_id id, h x (inl refl), enters_none es id (λ e i. h e (inr i)))

abbrev root_test : DagGraph → Node → Bool
root_test g n = is_zero_ℤ (in_degree_of g n.id)

-- The root nodes, which `buildRootNodes` finds by their in-degree, are the nodes that are ready
-- before any node is completed, which `GetReadyNodes` finds by their dependencies.
pub root_nodes-ready :
    (w : Workflow) (n : Node)
    → In n (build_root_nodes (raw_graph w)).root_nodes ↔ In n (get_ready_nodes (raw_graph w) [])
unfolding build_root_nodes
root_nodes-ready w n =
    let g = raw_graph w in
    let sorted = In-sort_by_order n (select (root_test g) g.workflow.nodes) in
    (
      λ i.
          let (there, test) = In-select (root_test g) g.workflow.nodes n (sorted.0 i) in
          (get_ready_nodes_iff g [] n).1 (
            there,
            unmarked-nil n.id,
            λ e j int t.
                absurd (
                  none_enters w.edges n.id (zero_of test) e (rw (workflow-raw_graph w) at j) int t),
          ),
      λ i.
          let (there, _, deps) = (get_ready_nodes_iff g [] n).0 i in
          sorted.1 (select-In (root_test g) g.workflow.nodes n there (root_of deps)),
    )
  where
    zero_of : root_test (raw_graph w) n ≡ true → length (select (enters n.id) w.edges) ≡ 0
    zero_of test = ground (arith, in_degree-raw_graph w n.id)

    root_of : DepsDone (raw_graph w).workflow [] n.id → root_test (raw_graph w) n ≡ true
    root_of deps =
        let none_in = enters_none w.edges n.id (λ e j int t.
          cc (
            sym (unmarked-nil e.source_id)
            ∙ deps e (rw (sym (workflow-raw_graph w)) at j) int t)) in
        ground (arith, in_degree-raw_graph w n.id, none_in)
