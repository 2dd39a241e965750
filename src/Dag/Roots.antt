-- ===== src/Dag/Roots.antt =====
-- workflow/pkg/engine/dag.go, `TopologicalSort`: the queue that it starts with.
use landc_go.Model.{Node, Workflow}
use landc_go.Dag.Graph.{DagGraph, raw_graph, build_root_nodes, order_less, sort_by_order}
use landc_go.Dag.Order.{In-sort_by_order}
use landc_go.Dag.Build.{in_degree-raw_graph, workflow-raw_graph}
use landc_go.Dag.Flow.{node_ids}
use landc_go.Dag.Ready.{DepsDone, get_ready_nodes_iff, root_nodes-ready}
use landc_go.Dag.Progress.{node_of, In-ids}
use landc_go.Dag.Remaining.{waiting, waiting-nil, waiting-of_DepsDone, DepsDone-of_waiting}
use landc_go.Dag.Settled.{Settled}
use landc_go.Prelude.{
  Bool, Bool-cases, Distinct, In, In-select, List, String, [], if◌then◌else◌, inl, inr,
  insert_slice, map, select, sort_slice, subst, sym, ◌∷◌, ◌≡◌, ◌⊎◌, ap, insert-In, pos, ◌↔◌, ◌∙◌,
  get_or, is_zero_ℤ, unmarked-nil,
}

abbrev pub ids : List Node → List String
ids ns = map (λ n. n.id) ns

In-ids-node : (ns : List Node) (k : String) → ((n : Node) × In n ns × (n.id ≡ k)) → In k (ids ns)
In-ids-node ns k (n, i, q) = subst (λ x. In x (ids ns)) q (In-ids ns n i)

ids-mono :
    (ns ms : List Node)
    → ((n : Node) → In n ns → In n ms)
    → (k : String) → In k (ids ns)
    → In k (ids ms)
ids-mono ns ms h k i = let (n, j, q) = node_of ns k i in In-ids-node ms k (n, h n j, q)

select-Distinct :
    (p : Node → Bool) (ns : List Node) → Distinct (ids ns) → Distinct (ids (select p ns))
select-Distinct p [] d = tt
select-Distinct p (n ∷ ns) d = elim (Bool-cases (p n)) [
  | inl q ↦
      rw (q, if◌then◌else◌)
        (
          λ i. d.0 (ids-mono (select p ns) ns (λ m j. (In-select p ns m j).0) n.id i),
          select-Distinct p ns d.1,
        )
  | inr q ↦ rw (q, if◌then◌else◌) (select-Distinct p ns d.1)
]

insert-ids :
    (n : Node) (ns : List Node) (k : String)
    → In k (ids (insert_slice order_less n ns))
    → (n.id ≡ k) ⊎ In k (ids ns)
insert-ids n ns k i =
    let (m, j, q) = node_of (insert_slice order_less n ns) k i in
    elim (insert-In order_less m n ns j) [
      | inl same ↦ inl (ap (λ (x : Node). x.id) same ∙ q)
      | inr old ↦ inr (In-ids-node ns k (m, old, q))
    ]

insert-Distinct :
    (n : Node) (ns : List Node)
    → ¬ In n.id (ids ns)
    → Distinct (ids ns)
    → Distinct (ids (insert_slice order_less n ns))
unfolding insert_slice
insert-Distinct n [] fresh d = (fresh, tt)
insert-Distinct n (m ∷ ms) fresh d = elim (Bool-cases (order_less m n)) [
  | inl q ↦
      rw (q, if◌then◌else◌)
        (
          λ i. elim (insert-ids n ms m.id i) [ inl same ↦ fresh (inl (sym same)) | inr j ↦ d.0 j ],
          insert-Distinct n ms (λ i. fresh (inr i)) d.1,
        )
  | inr q ↦ rw (q, if◌then◌else◌) (fresh, d)
]

sort-Distinct : (ns : List Node) → Distinct (ids ns) → Distinct (ids (sort_by_order ns))
unfolding sort_by_order sort_slice
sort-Distinct [] d = tt
sort-Distinct (n ∷ ns) d =
    insert-Distinct n (sort_by_order ns)
      (λ i. d.0 (ids-mono (sort_by_order ns) ns (λ m j. (In-sort_by_order m ns).0 j) n.id i))
      (sort-Distinct ns d.1)

module _ (w : Workflow) (different : Distinct (node_ids w)) where
  abbrev pub start : DagGraph
  start = build_root_nodes (raw_graph w)

  ready_root : (n : Node) → In n start.root_nodes ↔ (In n w.nodes × DepsDone w [] n.id)
  ready_root n = (
    λ i.
        let (there, _, deps) =
          (get_ready_nodes_iff (raw_graph w) [] n).0 ((root_nodes-ready w n).0 i) in
        (
          rw (workflow-raw_graph w) at there,
          subst (λ v. DepsDone v [] n.id) (workflow-raw_graph w) deps,
        ),
    λ (there, deps). (root_nodes-ready w n).1 (
        (get_ready_nodes_iff (raw_graph w) [] n).1 (
          rw (workflow-raw_graph w) there,
          unmarked-nil n.id,
          subst (λ v. DepsDone v [] n.id) (sym (workflow-raw_graph w)) deps,
        )),
  )

  roots-Distinct : Distinct (ids start.root_nodes)
  unfolding build_root_nodes
  roots-Distinct = sort-Distinct _ (
      select-Distinct (λ x. is_zero_ℤ (get_or x.id (raw_graph w).in_degree (pos 0)))
        (raw_graph w).workflow.nodes (rw (workflow-raw_graph w) different))

  pub start-Settled :
      Settled (node_ids w) (ids start.root_nodes) (waiting w.edges []) start.in_degree
  unfolding build_root_nodes
  start-Settled = record {
    counts = λ id. in_degree-raw_graph w id ∙ ap pos (sym (waiting-nil w.edges id));
    different = roots-Distinct;
    idle = λ id i.
        let (n, j, q) = node_of start.root_nodes id i in
        subst (λ x. waiting w.edges [] x ≡ 0) q
          (waiting-of_DepsDone w [] n.id ((ready_root n).0 j).1);
    found = λ id i z.
        let (n, j, q) = node_of w.nodes id i in
        In-ids-node start.root_nodes id (
          n,
          (ready_root n).1
              (j, subst (λ x. DepsDone w [] x) (sym q) (DepsDone-of_waiting w [] id z)),
          q,
        );
    inside = λ id i. ids-mono start.root_nodes w.nodes (λ n j. ((ready_root n).0 j).0) id i;
  }
