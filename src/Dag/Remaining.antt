-- ===== src/Dag/Remaining.antt =====
-- How many of the edges into an id still wait for their source, and lists in topological order.
use landc_go.Model.{Edge, Workflow}
use landc_go.Dag.Cycle.{EdgeInfo}
use landc_go.Dag.Graph.{edge_info}
use landc_go.Dag.Build.{leaves, enters}
use landc_go.Dag.Ready.{DepsDone}
use landc_go.Prelude.{
  Bool, Bool-cases, Flags, In, List, String, [], arith, eq_iff, false, get_or, inl, inr, length,
  lookup, map, mark, mark-marked, mark_self, marked, marked-mark, not, refl, select, true, ℕ, ◌&&◌,
  ◌++◌, ◌+◌, ◌==◌, ◌∷◌, ◌≡◌, ◌⊎◌,
}

-- An edge into the id whose source is not marked.
abbrev pub awaits : Flags → String → Edge → Bool
awaits c id e = enters id e && not (marked e.source_id c)

abbrev pub waiting : List Edge → Flags → String → ℕ
waiting es c id = length (select (awaits c id) es)

-- The edges of an adjacency list that end at the id.
abbrev pub hits : String → List EdgeInfo → ℕ
hits id es = length (select (λ e. e.target_id == id) es)

-- Marking the source `u` of some edges takes just those edges off the count.
pub waiting-mark :
    (es : List Edge) (c : Flags) (u id : String)
    → marked u c ≡ false
    → waiting es c id ≡ waiting es (mark u c) id + hits id (map edge_info (select (leaves u) es))
waiting-mark [] c u id fresh = omega arith
waiting-mark (e ∷ es) c u id fresh = ground (
  arith,
  waiting-mark es c u id fresh,
  marked-mark u e.source_id c,
  eq_iff u e.source_id,
  eq_iff e.source_id u,
  eq_iff e.target_id id,
)

pub waiting-nil : (es : List Edge) (id : String) → waiting es [] id ≡ length (select (enters id) es)
unfolding marked get_or lookup
waiting-nil [] id = refl
waiting-nil (e ∷ es) id = ground (arith, waiting-nil es id)

none_waiting :
    (es : List Edge) (c : Flags) (id : String)
    → waiting es c id ≡ 0
    → (e : Edge) → In e es
    → e.internal ≡ false
    → e.target_id ≡ id
    → marked e.source_id c ≡ true
none_waiting (x ∷ es) c id h e (inl q) outer target =
    ground (arith, q, outer, target, eq_iff e.target_id id)
none_waiting (x ∷ es) c id h e (inr i) outer target =
    none_waiting es c id (ground (arith, h)) e i outer target
none_waiting [] c id h e i outer target = absurd i

pub DepsDone-of_waiting :
    (w : Workflow) (c : Flags) (id : String) → waiting w.edges c id ≡ 0 → DepsDone w c id
DepsDone-of_waiting w c id h = none_waiting w.edges c id h

none_left :
    (es : List Edge) (c : Flags) (id : String)
    → ((e : Edge) → In e es → e.internal ≡ false → e.target_id ≡ id → marked e.source_id c ≡ true)
    → waiting es c id ≡ 0
none_left [] c id h = refl
none_left (x ∷ es) c id h =
    ground (arith, eq_iff x.target_id id, h x (inl refl), none_left es c id (λ e i. h e (inr i)))

pub waiting-of_DepsDone :
    (w : Workflow) (c : Flags) (id : String) → DepsDone w c id → waiting w.edges c id ≡ 0
waiting-of_DepsDone w c id h = none_left w.edges c id h

-- The marks of the ids of a list, on top of those given.
abbrev pub marks : Flags → List String → Flags
marks c [] = c
marks c (u ∷ us) = marks (mark u c) us

-- Each id of the list comes behind the sources of all edges into it.
abbrev pub InOrder : Workflow → Flags → List String → Type 0
InOrder w c [] = Unit
InOrder w c (u ∷ us) = DepsDone w c u × InOrder w (mark u c) us

pub marks-snoc :
    (c : Flags) (us : List String) (u : String) → marks c (us ++ u ∷ []) ≡ mark u (marks c us)
marks-snoc c [] u = refl
marks-snoc c (v ∷ us) u = marks-snoc (mark v c) us u

pub InOrder-snoc :
    (w : Workflow) (c : Flags) (us : List String) (u : String)
    → InOrder w c us
    → DepsDone w (marks c us) u
    → InOrder w c (us ++ u ∷ [])
InOrder-snoc w c [] u h deps = (deps, tt)
InOrder-snoc w c (v ∷ us) u (first, rest) deps = (first, InOrder-snoc w (mark v c) us u rest deps)

pub marked-marks :
    (c : Flags) (us : List String) (k : String)
    → marked k (marks c us) ≡ true
    → In k us ⊎ (marked k c ≡ true)
marked-marks c [] k h = inr h
marked-marks c (u ∷ us) k h = elim (marked-marks (mark u c) us k h) [
  | inl i ↦ inl (inr i)
  | inr m ↦ elim (Bool-cases (u == k)) [
    | inl q ↦ inl (inl ((eq_iff u k).0 q))
    | inr q ↦ inr (ground (arith, m, q, marked-mark u k c))
  ]
]

pub marks-marked :
    (c : Flags) (us : List String) (k : String) → marked k c ≡ true → marked k (marks c us) ≡ true
marks-marked c [] k h = h
marks-marked c (u ∷ us) k h = marks-marked (mark u c) us k (mark-marked u k c h)

pub In-marks : (c : Flags) (us : List String) (k : String) → In k us → marked k (marks c us) ≡ true
In-marks c (u ∷ us) k (inl q) = marks-marked (mark u c) us k (ground (arith, q, mark_self u c))
In-marks c (u ∷ us) k (inr i) = In-marks (mark u c) us k i
In-marks c [] k i = absurd i
