-- ===== src/Dag/Sorted.antt =====
-- workflow/pkg/engine/dag.go, `TopologicalSort`: what the loop leaves.
use mathlib.Core.List.{append_assoc}
use landc_go.Model.{Node, Edge, Workflow}
use landc_go.Dag.Cycle.{EdgeInfo, edges_of}
use landc_go.Dag.Graph.{DagGraph, edge_info}
use landc_go.Dag.Build.{leaves}
use landc_go.Dag.Flow.{node_ids, map-edge_info}
use landc_go.Dag.Topological.{Kahn, visit, sort_loop}
use landc_go.Dag.Remaining.{
  waiting, waiting-mark, DepsDone-of_waiting, marks, marks-snoc, InOrder, InOrder-snoc,
  marked-marks,
}
use landc_go.Dag.Settled.{Settled, Settled-same, release-Settled, result-release}
use landc_go.Prelude.{
  Bool-cases, Distinct, In, In-append_right, In-select, List, Map, Option, String, [], arith, false,
  inl, inr, lookup, map, mark, marked, refl, select, some, subst, suc, sym, zero, ℕ, ℤ, ◌++◌, ◌∙◌,
  ◌∷◌, ◌≡◌, unmarked-nil,
}

-- Every edge that takes part in the scheduling ends at a node of the workflow.
abbrev pub TargetsKnown : Workflow → Type 0
TargetsKnown w = (e : Edge) → In e w.edges → e.internal ≡ false → In e.target_id (node_ids w)

Distinct-apart : (xs ys : List String) (a : String) → Distinct (xs ++ ys) → In a xs → In a ys → ⊥
Distinct-apart (x ∷ xs) ys a d (inl q) j =
    d.0 (subst (λ b. In b (xs ++ ys)) (sym q) (In-append_right a xs ys j))
Distinct-apart (x ∷ xs) ys a d (inr i) j = Distinct-apart xs ys a d.1 i j
Distinct-apart [] ys a d i j = i

map-snoc {ℓ} :
    {A : Type ℓ} (f : String → A) (xs : List String) (u : String)
    → map f (xs ++ u ∷ []) ≡ map f xs ++ f u ∷ []
map-snoc f [] u = refl
map-snoc f (x ∷ xs) u = rw (map-snoc f xs u)

target_known :
    (w : Workflow) (u : String)
    → TargetsKnown w
    → (e : EdgeInfo) → In e (map edge_info (select (leaves u) w.edges))
    → In e.target_id (node_ids w)
target_known w u known e i =
    let (x, j, q) = map-edge_info (select (leaves u) w.edges) e i in
    let (there, leaving) = In-select (leaves u) w.edges x j in
    subst (λ (y : EdgeInfo). In y.target_id (node_ids w)) q (known x there (ground arith))

result-visit :
    (g : DagGraph) (u : String) (rest : List String) (k : Kahn) (done : List String)
    → k.result ≡ map (λ id. lookup id g.node_map) done
    → (visit g u rest k).result ≡ map (λ id. lookup id g.node_map) (done ++ u ∷ [])
unfolding visit
result-visit g u rest k done q =
    result-release (edges_of g.adj u) _ ∙ rw q (sym (map-snoc (λ id. lookup id g.node_map) done u))

module _ (w : Workflow) (g : DagGraph) (known : TargetsKnown w)
    (edges : (id : String) → edges_of g.adj id ≡ map edge_info (select (leaves id) w.edges)) where
  -- The ids in `done` have left the queue, those in `queue` stand in it.
  abbrev pub Standing : List String → List String → Map ℤ → Type 0
  Standing done queue m =
      Settled (node_ids w) (done ++ queue) (waiting w.edges (marks [] done)) m × InOrder w [] done

  unmarked :
      (done rest : List String) (u : String)
      → Distinct (done ++ u ∷ rest)
      → marked u (marks [] done) ≡ false
  unmarked done rest u d = elim (Bool-cases (marked u (marks [] done))) [
    | inr q ↦ q
    | inl q ↦ elim (marked-marks [] done u q) [
      | inl i ↦ absurd (Distinct-apart done (u ∷ rest) u d i (inl refl))
      | inr m ↦ absurd (ground (arith, unmarked-nil u))
    ]
  ]

  visit-Standing :
      (done rest : List String) (u : String) (m : Map ℤ) (ns : List (Option Node))
      → Standing done (u ∷ rest) m
      → let k = visit g u rest (record { in_degree = m; queue = u ∷ rest; result = ns }) in
        Standing (done ++ u ∷ []) k.queue k.in_degree
  unfolding visit
  visit-Standing done rest u m ns (s, ordered) = (
    rw (marks-snoc [] done u) (
        release-Settled (node_ids w) (done ++ u ∷ []) (waiting w.edges (mark u (marks [] done)))
          (edges_of g.adj u) _ (λ e i. target_known w u known e (rw (edges u) at i))
          (Settled-same
            (λ id.
              waiting-mark w.edges (marks [] done) u id (unmarked done rest u s.different)
              ∙ rw (edges u))
            (rw (append_assoc done (u ∷ []) rest) s))),
    InOrder-snoc w [] done u ordered (
        DepsDone-of_waiting w (marks [] done) u
          (s.idle u (In-append_right u done (u ∷ rest) (inl refl)))),
  )

  -- The loop hands back the nodes of an order in which nothing is left to be taken.
  pub sort_loop-Standing :
      (fuel : ℕ) (done queue : List String) (m : Map ℤ) (ns found : List (Option Node))
      → Standing done queue m
      → ns ≡ map (λ id. lookup id g.node_map) done
      → sort_loop fuel g (record { in_degree = m; queue = queue; result = ns }) ≡ some found
      → (order : List String) × (last : Map ℤ) × Standing order [] last
        × (found ≡ map (λ id. lookup id g.node_map) order)
  unfolding sort_loop
  sort_loop-Standing zero done [] m ns found s q h = (done, m, s, ground arith)
  sort_loop-Standing zero done (u ∷ rest) m ns found s q h = absurd (ground arith)
  sort_loop-Standing (suc fuel) done [] m ns found s q h = (done, m, s, ground arith)
  sort_loop-Standing (suc fuel) done (u ∷ rest) m ns found s q h =
      let k = visit g u rest (record { in_degree = m; queue = u ∷ rest; result = ns }) in
      sort_loop-Standing fuel (done ++ u ∷ []) k.queue k.in_degree k.result found
        (visit-Standing done rest u m ns s)
        (result-visit g u rest (record { in_degree = m; queue = u ∷ rest; result = ns }) done q) h
