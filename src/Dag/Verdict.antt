-- ===== src/Dag/Verdict.antt =====
-- The two answers of `detectCycle`, and what they mean for the walks of the graph.
use landc_go.Dag.Cycle.{
  Adjacency, edges_of, Search, white, black, color_of, dfs, search_from, initial_search,
  detect_cycle_fueled, detect_cycle, graph_ids,
}
use landc_go.Dag.Colors.{
  Color-cases, search-seen, color_of-initial_search, white≢gray, Keeps, Keeps-trans, black≢white,
}
use landc_go.Dag.Fuel.{detect_cycle_fueled-ends}
use landc_go.Dag.Walk.{Arc, arc, Walk, one, more}
use landc_go.Dag.Acyclic.{Ranked, dfs-Clears}
use landc_go.Dag.Found.{Closes, NoGray, dfs-Restores, dfs-Reports, search_found, Linked}
use landc_go.Prelude.{
  All, List, String, [], arith, inl, inr, none, refl, some, subst, sym, ℕ, ◌∙◌, ◌∷◌, ◌≡◌, All-In,
  In, ◌<◌, Option, ◌++◌, length, suc,
}

pub record Cleared (adj : Adjacency) (ids : List String) (s : Search) : Type 0 where
  pub last : Search
  pub ranked : Ranked adj last
  pub all_black : All (λ id. color_of last id ≡ black) ids
  pub kept : Keeps s last

module _ (adj : Adjacency) where
  search-Closes :
      (fuel : ℕ) (ids : List String) (s : Search) (p : List String)
      → NoGray s
      → search_from (dfs fuel adj) ids s ≡ some (some p)
      → Closes adj p
  unfolding search_from color_of
  search-Closes fuel [] s p n h = absurd (ground arith)
  search-Closes fuel (id ∷ ids) s p n h = elim (Color-cases (color_of s id)) [
    | inl c ↦ elim (search_found adj (dfs fuel adj) id ids s (some p) c _ refl h) [
      | inl (t, v, q) ↦
          let same : t.path ≡ p = ground arith in
          subst (Closes adj) same
            (dfs-Reports adj fuel id (record s { path = [] }) t v tt (λ u g. absurd (n u g)))
      | inr (t, v, h') ↦
          search-Closes fuel ids t p
            (λ u g. n u ((dfs-Restores adj fuel id (record s { path = [] }) t v).1 u g)) h'
    ]
    | inr (inl c) ↦ absurd (n id c)
    | inr (inr c) ↦
        search-Closes fuel ids s p n
          (sym (search-seen (dfs fuel adj) id ids s (λ e. black≢white (sym c ∙ e))) ∙ h)
  ]

  Ranked-path : (s : Search) → Ranked adj s → Ranked adj (record s { path = [] })
  unfolding color_of
  Ranked-path s r = record {
    rank = r.rank;
    top = r.top;
    below =
        λ u b. let l = r.below u b in record { under = l.under; done = l.done; above = l.above };
  }

  stays_black :
      (s t : Search) (id : String) → Keeps s t → color_of s id ≡ black → color_of t id ≡ black
  stays_black s t id k b = k id (λ e. black≢white (sym b ∙ e)) ∙ b

  search_clears :
      (fuel : ℕ) (ids : List String) (s : Search)
      → NoGray s
      → Ranked adj s
      → search_from (dfs fuel adj) ids s ≡ some none
      → Cleared adj ids s
  unfolding search_from color_of
  search_clears fuel [] s n r h = record {
    last = s;
    ranked = r;
    all_black = tt;
    kept = λ u d. refl;
  }
  search_clears fuel (id ∷ ids) s n r h = elim (Color-cases (color_of s id)) [
    | inl c ↦ elim (search_found adj (dfs fuel adj) id ids s none c _ refl h) [
      | inl (t, v, q) ↦ absurd (cc)
      | inr (t, v, h') ↦
          let s0 : Search = record s { path = [] } in
          let (r1, k1, b1) = dfs-Clears adj fuel id s0 t c v (Ranked-path s r) in
          let rest =
            search_clears fuel ids t (λ u g. n u ((dfs-Restores adj fuel id s0 t v).1 u g)) r1 h' in
          record {
            last = rest.last;
            ranked = rest.ranked;
            all_black = (stays_black t rest.last id rest.kept b1, rest.all_black);
            kept = Keeps-trans s t rest.last k1 rest.kept;
          }
    ]
    | inr (inl c) ↦ absurd (n id c)
    | inr (inr c) ↦
        let seen = λ (e : color_of s id ≡ white). black≢white (sym c ∙ e) in
        let rest =
          search_clears fuel ids s n r (sym (search-seen (dfs fuel adj) id ids s seen) ∙ h) in
        record {
          last = rest.last;
          ranked = rest.ranked;
          all_black = (stays_black s rest.last id rest.kept c, rest.all_black);
          kept = rest.kept;
        }
  ]

  pub Arc-lt :
      (s : Search) (r : Ranked adj s) (a b : String)
      → Arc adj a b
      → color_of s a ≡ black
      → (color_of s b ≡ black) × (r.rank b < r.rank a)
  Arc-lt s r a b (arc e i q) c =
      let l = r.below a c in
      rw (← q) (
        All-In (λ x. color_of s x.target_id ≡ black) (edges_of adj a) e l.done i,
        All-In (λ x. r.rank x.target_id < r.rank a) (edges_of adj a) e l.above i,
      )

  Walk-lt :
      (s : Search) (r : Ranked adj s) {a b : String}
      → color_of s a ≡ black
      → Walk adj a b
      → (color_of s b ≡ black) × (r.rank b < r.rank a)
  Walk-lt s r {a} {b} c (one x) = Arc-lt s r a b x c
  Walk-lt s r {a} {b} c (more {b = m} w x) =
      let (c1, l1) = Walk-lt s r c w in let (c2, l2) = Arc-lt s r m b x c1 in (c2, omega arith)

initial-NoGray : (ids : List String) → NoGray (initial_search ids)
initial-NoGray ids u g = white≢gray (sym (color_of-initial_search ids u) ∙ g)

initial-Ranked : (adj : Adjacency) (ids : List String) → Ranked adj (initial_search ids)
initial-Ranked adj ids = record {
  rank = λ u. 0;
  top = 0;
  below = λ u b. absurd (black≢white (sym b ∙ color_of-initial_search ids u));
}

answered :
    (adj : Adjacency) (ids : List String) (o : Option (Option (List String)))
    → detect_cycle_fueled adj ids ≡ o
    → detect_cycle_fueled adj ids ≡ some (detect_cycle adj ids)
unfolding detect_cycle
answered adj ids none q = absurd (detect_cycle_fueled-ends adj ids q)
answered adj ids (some r) q = rw (q, detect_cycle)

pub detect_cycle-Cleared :
    (adj : Adjacency) (ids : List String)
    → detect_cycle adj ids ≡ none
    → Cleared adj ids (initial_search ids)
unfolding detect_cycle_fueled
detect_cycle-Cleared adj ids h =
    search_clears adj (suc (length (graph_ids adj ids))) ids (initial_search ids)
      (initial-NoGray ids) (initial-Ranked adj ids) (rw h at (answered adj ids _ refl))

-- If no cycle is reported, then no node lies on a cycle, and none can reach one.
pub detect_cycle-none :
    (adj : Adjacency) (ids : List String)
    → detect_cycle adj ids ≡ none
    → (a b : String) → In a ids
    → Walk adj a b
    → ¬ Walk adj b b
detect_cycle-none adj ids h a b i w back =
    let end = detect_cycle-Cleared adj ids h in
    let start = All-In (λ x. color_of end.last x ≡ black) ids a end.all_black i in
    let there = Walk-lt adj end.last end.ranked start w in
    let again = Walk-lt adj end.last end.ranked there.0 back in absurd (omega (arith, again.1))

-- If a path is reported, then each id in it has an edge to the next, and the last id stands in it
-- twice.
pub detect_cycle-some :
    (adj : Adjacency) (ids p : List String) → detect_cycle adj ids ≡ some p → Closes adj p
unfolding detect_cycle_fueled
detect_cycle-some adj ids p h =
    search-Closes adj (suc (length (graph_ids adj ids))) ids (initial_search ids) p
      (initial-NoGray ids) (rw h at (answered adj ids _ refl))

Linked-tail : (adj : Adjacency) (x : String) (p : List String) → Linked adj (x ∷ p) → Linked adj p
Linked-tail adj x [] l = tt
Linked-tail adj x (y ∷ p) l = l.1

Walk-first :
    (adj : Adjacency) (x b : String) (p : List String) → Linked adj (x ∷ p ++ b ∷ []) → Walk adj x b
Walk-first adj x b [] l = one l.0
Walk-first adj x b (y ∷ p) l = walk_from_arc (l.0) (Walk-first adj y b p l.1)
  where
    walk_from_arc : {c : String} → Arc adj x y → Walk adj y c → Walk adj x c
    walk_from_arc a (one z) = more (one a) z
    walk_from_arc a (more w z) = more (walk_from_arc a w) z

Walk-again :
    (adj : Adjacency) (t : String) (front : List String)
    → In t front
    → Linked adj (front ++ t ∷ [])
    → Walk adj t t
Walk-again adj t (x ∷ front) (inl e) l = rw (← e) (Walk-first adj x x front (rw (← e) at l))
Walk-again adj t (x ∷ front) (inr i) l =
    Walk-again adj t front i (Linked-tail adj x (front ++ t ∷ []) l)
Walk-again adj t [] i l = absurd i

pub Closes-cycle : (adj : Adjacency) (p : List String) → Closes adj p → (b : String) × Walk adj b b
Closes-cycle adj p c = (c.again, Walk-again adj c.again c.front c.seen (rw c.split at c.linked))
