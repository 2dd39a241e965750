-- ===== src/Dag/Kahn.antt =====
-- workflow/pkg/engine/dag.go, `TopologicalSort`: the loop ends, since each id enters the queue once
-- at most for each counter above zero.
use landc_go.Model.{Node}
use landc_go.Dag.Cycle.{EdgeInfo, edges_of}
use landc_go.Dag.Graph.{DagGraph}
use landc_go.Dag.Topological.{Kahn, release, visit, sort_loop, topological_sort_fueled, lower}
use landc_go.Prelude.{
  Bool-cases, List, Map, Option, String, [], arith, get_or, if◌then◌else◌, inl, inr, insert,
  is_zero_ℤ, length, length-append, lookup, negsuc, pos, pred_ℤ, some, suc, zero, ℕ, ℤ, ◌+◌, ◌==◌,
  ◌∷◌, ◌≡◌, ◌≤◌, false, map, refl, true, sym, ◌∙◌, length-map,
}

abbrev positive : ℤ → ℕ
positive (pos zero) = 0
positive (pos (suc n)) = 1
positive (negsuc n) = 0

-- How many counters stand above zero.
abbrev positives : Map ℤ → ℕ
positives [] = 0
positives ((name, z) ∷ rest) = positive z + positives rest

abbrev if_zero : ℤ → ℕ
if_zero z = if is_zero_ℤ z then 1 else 0

positive-pred : (z : ℤ) → positive (pred_ℤ z) + if_zero (pred_ℤ z) ≤ positive z
positive-pred (pos zero) = omega arith
positive-pred (pos (suc zero)) = omega arith
positive-pred (pos (suc (suc n))) = omega arith
positive-pred (negsuc n) = omega arith

get_or-nil : (k : String) → get_or k [] (pos 0) ≡ pos 0
unfolding get_or lookup
get_or-nil k = refl

get_or-here :
    (k name : String) (z : ℤ) (rest : Map ℤ)
    → (name == k) ≡ true
    → get_or k ((name, z) ∷ rest) (pos 0) ≡ z
unfolding get_or lookup
get_or-here k name z rest q = rw (get_or, lookup, q, if◌then◌else◌) refl

get_or-behind :
    (k name : String) (z : ℤ) (rest : Map ℤ)
    → (name == k) ≡ false
    → get_or k ((name, z) ∷ rest) (pos 0) ≡ get_or k rest (pos 0)
unfolding get_or lookup
get_or-behind k name z rest q = rw (get_or, lookup, q, if◌then◌else◌) refl

-- A counter taken down to zero is one counter above zero less.
positives-insert :
    (k : String) (m : Map ℤ) (d : ℤ)
    → get_or k m (pos 0) ≡ d
    → positives (insert k (pred_ℤ d) m) + if_zero (pred_ℤ d) ≤ positives m
unfolding insert
positives-insert k [] d h = rw (sym h, get_or-nil k) (omega arith)
positives-insert k ((name, z) ∷ rest) d h = elim (Bool-cases (name == k)) [
  | inl q ↦
      rw (q, if◌then◌else◌, sym h, get_or-here k name z rest q) (omega (arith, positive-pred z))
  | inr q ↦
      rw (q, if◌then◌else◌)
        (omega (arith, positives-insert k rest d (sym (get_or-behind k name z rest q) ∙ h)))
]

abbrev open_work : Kahn → ℕ
open_work k = positives k.in_degree + length k.queue

open_work-lower : (target : String) (k : Kahn) → open_work (lower target k) ≤ open_work k
unfolding lower
open_work-lower target k = ground (
  arith,
  positives-insert target k.in_degree (get_or target k.in_degree (pos 0)) refl,
  length-append k.queue (target ∷ []),
)

open_work-release : (es : List EdgeInfo) (k : Kahn) → open_work (release es k) ≤ open_work k
unfolding release
open_work-release [] k = omega arith
open_work-release (e ∷ es) k =
    omega (arith, open_work-lower e.target_id k, open_work-release es (lower e.target_id k))

positives-le : (m : Map ℤ) → positives m ≤ length m
positives-le [] = omega arith
positives-le ((name, pos zero) ∷ rest) = omega (arith, positives-le rest)
positives-le ((name, pos (suc n)) ∷ rest) = omega (arith, positives-le rest)
positives-le ((name, negsuc n) ∷ rest) = omega (arith, positives-le rest)

-- Takes the fields of the state apart, so that the queue can be split.
sort_loop-ends :
    (fuel : ℕ) (g : DagGraph) (m : Map ℤ) (queue : List String) (ns : List (Option Node))
    → positives m + length queue ≤ fuel
    → (found : List (Option Node)) × (sort_loop fuel g
          (record { in_degree = m; queue = queue; result = ns })
        ≡ some found)
unfolding sort_loop visit
sort_loop-ends zero g m [] ns h = (ns, refl)
sort_loop-ends zero g m (id ∷ rest) ns h = absurd (omega arith)
sort_loop-ends (suc fuel) g m [] ns h = (ns, refl)
sort_loop-ends (suc fuel) g m (id ∷ rest) ns h =
    let k = visit g id rest (record { in_degree = m; queue = id ∷ rest; result = ns }) in
    sort_loop-ends fuel g k.in_degree k.queue k.result (omega (arith, bound))
  where
    bound :
        open_work (visit g id rest (record { in_degree = m; queue = id ∷ rest; result = ns }))
        ≤ positives m + length rest
    bound = open_work-release (edges_of g.adj id) _

-- The fuel is enough: the loop of `TopologicalSort` ends on every graph.
pub topological_sort_fueled-ends :
    (g : DagGraph) → (ns : List (Option Node)) × (topological_sort_fueled g ≡ some ns)
unfolding topological_sort_fueled
topological_sort_fueled-ends g =
    sort_loop-ends (length g.in_degree + length g.root_nodes) g g.in_degree
      (map (λ n. n.id) g.root_nodes) []
      (omega (arith, positives-le g.in_degree, length-map (λ n. n.id) g.root_nodes))
