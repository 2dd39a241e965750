-- ===== src/Dag/Fuel.antt =====
-- The fuel of `detect_cycle` is enough: every call of `dfs` turns a white id gray for good.
use landc_go.Dag.Cycle.{
  Adjacency, EdgeInfo, edges_of, Search, white, gray, black, color_of, enter, leave, Visit, scan,
  dfs, search_from, targets_of, graph_ids, initial_search, detect_cycle_fueled,
}
use landc_go.Dag.Colors.{
  color_of-enter, color_of-leave, Color-cases, scan-gray, scan-black, scan-white_true,
  scan-white_false, search-seen, search-white_true, search-white_false,
}
use landc_go.Prelude.{
  List, Option, String, All, Bool, In, arith, ℕ, ◌≡◌, ◌≤◌, false, some, suc, true, ◌∷◌,
  if◌then◌else◌, inl, eq_iff, inr, [], refl, zero, Bool-cases, length, none, ◌∙◌, ◌≢◌, All-In,
  In-All, In-append_right, get_or, lookup, map, ◌==◌, In-append_left, ◌++◌,
}

abbrev is_white : Search → String → Bool
is_white s u = elim (color_of s u) [ white ↦ true | gray ↦ false | black ↦ false ]

white→is_white : (u : String) (s : Search) → color_of s u ≡ white → is_white s u ≡ true
white→is_white u s c = rw (c, is_white)

whites : Search → List String → ℕ
whites s [] = 0
whites s (u ∷ us) = if is_white s u then suc (whites s us) else whites s us

-- No id turns white.
abbrev Shrinks : Search → Search → Type 0
Shrinks s t = (u : String) → is_white t u ≡ true → is_white s u ≡ true

whites_mono : (s t : Search) (us : List String) → Shrinks s t → whites t us ≤ whites s us
unfolding whites
whites_mono s t [] h = omega arith
whites_mono s t (u ∷ us) h = ground (arith, h u, whites_mono s t us h)

Shrinks-enter : (id : String) (s : Search) → Shrinks s (enter id s)
Shrinks-enter id s u h = ground (arith, color_of-enter id u s)

Shrinks-leave : (id : String) (s : Search) → Shrinks s (leave id s)
Shrinks-leave id s u h = ground (arith, color_of-leave id u s)

whites-enter :
    (id : String) (s : Search) (us : List String)
    → In id us
    → is_white s id ≡ true
    → suc (whites (enter id s) us) ≤ whites s us
unfolding whites
whites-enter id s (u ∷ us) (inl e) w =
    ground (
      arith,
      eq_iff id u,
      color_of-enter id u s,
      whites_mono s (enter id s) us (Shrinks-enter id s),
    )
whites-enter id s (u ∷ us) (inr i) w =
    ground (arith, color_of-enter id u s, whites-enter id s us i w)
whites-enter id s [] i w = absurd i

-- The search ended, and turned no id white.
abbrev Ends : Option (Bool × Search) → Search → Type 0
Ends r s = (b : Bool) × (t : Search) × (r ≡ some (b, t)) × Shrinks s t

module _ (adj : Adjacency) (us : List String)
    (closed : (id : String) → All (λ e. In e.target_id us) (edges_of adj id)) where
  abbrev Visits : ℕ → Visit → Type 0
  Visits fuel visit =
      (id : String) (s : Search)
      → In id us
      → color_of s id ≡ white
      → whites s us ≤ fuel
      → Ends (visit id s) s

  scan-Ends :
      (fuel : ℕ) (visit : Visit)
      → Visits fuel visit
      → (es : List EdgeInfo) (s : Search) → All (λ e. In e.target_id us) es
      → whites s us ≤ fuel
      → Ends (scan visit es s) s
  unfolding scan color_of
  scan-Ends fuel visit v [] s h w = (false, s, refl, λ u q. q)
  scan-Ends fuel visit v (e ∷ es) s h w = elim (Color-cases (color_of s e.target_id)) [
    | inl c ↦
        let (b, t, r, sh) = v e.target_id s h.0 c w in
        elim (Bool-cases b) [
          | inl q ↦ (true, t, scan-white_true visit e es s t c (rw q at r), sh)
          | inr q ↦
              let (b', t', r', sh') =
                scan-Ends fuel visit v es t h.1 (omega (arith, whites_mono s t us sh)) in
              (b', t', scan-white_false visit e es s t c (rw q at r) ∙ r', λ u d. sh u (sh' u d))
        ]
    | inr (inl c) ↦ (true, _, scan-gray visit e es s c, λ u d. d)
    | inr (inr c) ↦
        let (b, t, r, sh) = scan-Ends fuel visit v es s h.1 w in
        (b, t, scan-black visit e es s c ∙ r, sh)
  ]

  dfs_ends : (fuel : ℕ) → Visits fuel (dfs fuel adj)
  unfolding dfs
  dfs_ends zero id s i w h = absurd (omega (arith, whites-enter id s us i (white→is_white id s w)))
  dfs_ends (suc fuel) id s i w h =
      let (b, t, r, sh) =
        scan-Ends fuel (dfs fuel adj) (dfs_ends fuel) (edges_of adj id) (enter id s) (closed id)
          (omega (arith, whites-enter id s us i (white→is_white id s w))) in
      let down = λ (u : String) (d : is_white t u ≡ true). Shrinks-enter id s u (sh u d) in
      elim (Bool-cases b) [
        | inl q ↦ (true, t, rw (r, dfs, q), down)
        | inr q ↦ (false, leave id t, rw (r, dfs, q), λ u d. down u (Shrinks-leave id t u d))
      ]

  Shrinks-path : (s : Search) → Shrinks s (record s { path = [] })
  unfolding color_of
  Shrinks-path s u d = d

  search_ends :
      (fuel : ℕ) (ids : List String) (s : Search)
      → All (λ id. In id us) ids
      → whites s us ≤ fuel
      → search_from (dfs fuel adj) ids s ≢ none
  unfolding search_from color_of
  search_ends fuel [] s h w = λ e. cc
  search_ends fuel (id ∷ ids) s h w = elim (Color-cases (color_of s id)) [
    | inl c ↦
        let fresh = Shrinks-path s in
        let (b, t, r, sh) =
          dfs_ends fuel id (record s { path = [] }) h.0 c
            (omega (arith, w, whites_mono s (record s { path = [] }) us fresh)) in
        elim (Bool-cases b) [
          | inl q ↦ λ e. let found = search-white_true (dfs fuel adj) id ids s t c (rw q at r) in cc
          | inr q ↦ rw (search-white_false (dfs fuel adj) id ids s t c (rw q at r)) (
              search_ends fuel ids t h.1 (
                omega (
                  arith,
                  whites_mono (record s { path = [] }) t us sh,
                  whites_mono s (record s { path = [] }) us fresh,
                )))
        ]
    | inr c ↦
        let seen : color_of s id ≢ white = elim c [
          | inl g ↦ rw g (λ e. cc)
          | inr b ↦ rw b (λ e. cc)
        ] in
        rw (search-seen (dfs fuel adj) id ids s seen) (search_ends fuel ids s h.1 w)
  ]

length-whites : (s : Search) (us : List String) → whites s us ≤ length us
unfolding whites
length-whites s [] = omega arith
length-whites s (u ∷ us) = ground (arith, length-whites s us)

abbrev targets : List EdgeInfo → List String → List String
targets es ts = map (λ e. e.target_id) es ++ ts

targets_In : (es : List EdgeInfo) (ts : List String) → All (λ e. In e.target_id (targets es ts)) es
targets_In [] ts = tt
targets_In (e ∷ es) ts = (
  inl refl,
  In-All es (λ x i. inr (All-In (λ y. In y.target_id (targets es ts)) es x (targets_In es ts) i)),
)

targets_of-nil : (id : String) → All (λ e. In e.target_id (targets_of [])) (edges_of [] id)
unfolding edges_of get_or lookup
targets_of-nil id = tt

edges_of-cons :
    (k : String) (es : List EdgeInfo) (adj : Adjacency) (id : String)
    → edges_of ((k, es) ∷ adj) id ≡ (if k == id then es else edges_of adj id)
unfolding edges_of get_or lookup
edges_of-cons k es adj id = ground arith

targets_of-edges :
    (adj : Adjacency) (id : String) → All (λ e. In e.target_id (targets_of adj)) (edges_of adj id)
unfolding targets_of
targets_of-edges [] id = targets_of-nil id
targets_of-edges ((k, es) ∷ adj) id = elim (Bool-cases (k == id)) [
  | inl q ↦ rw (edges_of-cons k es adj id, q) (targets_In es (targets_of adj))
  | inr q ↦
      rw (edges_of-cons k es adj id, q)
        (In-All (edges_of adj id) (λ e i.
          In-append_right e.target_id (map (λ x. x.target_id) es) (targets_of adj) (
            All-In (λ x. In x.target_id (targets_of adj)) (edges_of adj id) e
              (targets_of-edges adj id) i)))
]

graph_ids-closed :
    (adj : Adjacency) (ids : List String) (id : String)
    → All (λ e. In e.target_id (graph_ids adj ids)) (edges_of adj id)
unfolding graph_ids
graph_ids-closed adj ids id = In-All (edges_of adj id) (λ e i.
    In-append_right e.target_id ids (targets_of adj) (
      All-In (λ x. In x.target_id (targets_of adj)) (edges_of adj id) e (targets_of-edges adj id)
        i))

graph_ids-nodes : (adj : Adjacency) (ids : List String) → All (λ id. In id (graph_ids adj ids)) ids
unfolding graph_ids
graph_ids-nodes adj ids = In-All ids (λ id i. In-append_left id ids (targets_of adj) i)

-- `detectCycle` always answers: the recursion of its `dfs` is never deeper than the number of ids.
pub detect_cycle_fueled-ends :
    (adj : Adjacency) (ids : List String) → detect_cycle_fueled adj ids ≢ none
unfolding detect_cycle_fueled
detect_cycle_fueled-ends adj ids =
    let us = graph_ids adj ids in
    search_ends adj us (graph_ids-closed adj ids) (suc (length us)) ids (initial_search ids)
      (graph_ids-nodes adj ids) (omega (arith, length-whites (initial_search ids) us))
