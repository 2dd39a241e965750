-- ===== src/Dag/Cycle.antt =====
-- workflow/pkg/engine/dag.go, `detectCycle`: depth-first search with three colours.
use landc_go.Prelude.{
  ℕ, zero, suc, String, Bool, true, false, List, [], ◌∷◌, ◌++◌, map, Option, none, some, Map,
  insert, get_or, length,
}

pub record EdgeInfo : Type 0 where
  pub target_id : String
  pub source_port : String
  pub target_port : String
  pub condition_expr : String
  pub label : String

abbrev pub Adjacency : Type 0
Adjacency = Map (List EdgeInfo)

-- `g.adj[id]`; a missing key reads as nil.
unfoldable pub edges_of : Adjacency → String → List EdgeInfo
unfolding get_or
edges_of adj id = get_or id adj []

pub data Color : Type 0 where
  white gray black : Color

-- The variables that the closure `dfs` captures.
pub record Search : Type 0 where
  pub color : Map Color
  pub path : List String

-- A missing colour reads as 0, which is `white`.
unfoldable pub color_of : Search → String → Color
unfolding get_or
color_of s id = get_or id s.color white

-- `path[:len(path)-1]`
unfoldable pub drop_last : List String → List String
drop_last [] = []
drop_last (x ∷ []) = []
drop_last (x ∷ y ∷ xs) = x ∷ drop_last (y ∷ xs)

unfoldable pub enter : String → Search → Search
enter id s = record { color = insert id gray s.color; path = s.path ++ id ∷ [] }

unfoldable pub leave : String → Search → Search
leave id s = record { color = insert id black s.color; path = drop_last s.path }

abbrev pub Visit : Type 0
Visit = String → Search → Option (Bool × Search)

-- The loop over the edges of a node. `none` means that the fuel of `visit` ran out.
unfoldable pub scan : Visit → List EdgeInfo → Search → Option (Bool × Search)
scan visit [] s = some (false, s)
scan visit (e ∷ es) s = elim (color_of s e.target_id) [
  | gray ↦ some (true, record s { path = s.path ++ e.target_id ∷ [] })
  | white ↦ elim (visit e.target_id s) [
    | none ↦ none
    | some (true, s') ↦ some (true, s')
    | some (false, s') ↦ scan visit es s'
  ]
  | black ↦ scan visit es s
]

unfoldable pub dfs : ℕ → Adjacency → Visit
unfolding scan enter leave
dfs zero adj id s = none
dfs (suc fuel) adj id s = elim (scan (dfs fuel adj) (edges_of adj id) (enter id s)) [
  | none ↦ none
  | some (true, s') ↦ some (true, s')
  | some (false, s') ↦ some (false, leave id s')
]

-- The loop over the nodes: the path of the first cycle, if there is one.
unfoldable pub search_from : Visit → List String → Search → Option (Option (List String))
search_from visit [] s = some none
search_from visit (id ∷ ids) s = elim (color_of s id) [
  | white ↦ elim (visit id (record s { path = [] })) [
    | none ↦ none
    | some (true, s') ↦ some (some s'.path)
    | some (false, s') ↦ search_from visit ids s'
  ]
  | gray ↦ search_from visit ids s
  | black ↦ search_from visit ids s
]

-- Every id that the search can meet: the nodes, and the targets of the edges.
unfoldable pub targets_of : Adjacency → List String
targets_of [] = []
targets_of ((id, es) ∷ adj) = map (λ e. e.target_id) es ++ targets_of adj

unfoldable pub graph_ids : Adjacency → List String → List String
unfolding targets_of
graph_ids adj ids = ids ++ targets_of adj

unfoldable pub initial_search : List String → Search
initial_search [] = record { color = []; path = [] }
initial_search (id ∷ ids) =
    let s = initial_search ids in record s { color = insert id white s.color }

-- Each call enters a white id and colours it, so more fuel than ids is enough: see `Fuel`.
unfoldable pub detect_cycle_fueled : Adjacency → List String → Option (Option (List String))
unfolding dfs search_from graph_ids initial_search
detect_cycle_fueled adj ids =
    search_from (dfs (suc (length (graph_ids adj ids))) adj) ids (initial_search ids)

-- `none` for "no cycle", else the path that Go reports.
unfoldable pub detect_cycle : Adjacency → List String → Option (List String)
unfolding detect_cycle_fueled
detect_cycle adj ids = elim (detect_cycle_fueled adj ids) [ none ↦ none | some r ↦ r ]
