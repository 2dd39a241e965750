-- ===== src/Dag/Found.antt =====
-- When `detectCycle` reports a path, the path ends in a cycle of the graph.
use landc_go.Dag.Cycle.{
  Adjacency, EdgeInfo, edges_of, Search, gray, color_of, drop_last, enter, leave, Visit, scan, dfs,
  white, search_from,
}
use landc_go.Dag.Colors.{
  color_of-enter, color_of-leave, Color-cases, scan-gray, scan-black, black≢gray, search-white_true,
  search-white_false,
}
use landc_go.Dag.Walk.{Arc, arc}
use landc_go.Dag.Acyclic.{dfs_scanned, scan_clears-visit}
use landc_go.Prelude.{
  Bool-cases, In, In-append_left, In-append_right, List, String, [], ap, arith, eq_iff, false, inl,
  inr, refl, some, suc, sym, true, zero, ℕ, ◌++◌, ◌==◌, ◌∙◌, ◌∷◌, ◌≡◌, Bool, Option, none, ◌≢◌, ◌⊎◌,
}

drop_last-append : (p : List String) (x : String) → drop_last (p ++ x ∷ []) ≡ p
unfolding drop_last
drop_last-append [] x = refl
drop_last-append (y ∷ []) x = refl
drop_last-append (y ∷ z ∷ p) x = ap (◌∷◌ y) (drop_last-append (z ∷ p) x)

leave-path : (id : String) (s m : Search) → m.path ≡ (enter id s).path → (leave id m).path ≡ s.path
unfolding enter leave
leave-path id s m h = rw h (drop_last-append s.path id)

-- A visit that finds nothing leaves the path as it was, and no new gray id.
abbrev pub Restored : Search → Search → Type 0
Restored s t = (t.path ≡ s.path) × ((u : String) → color_of t u ≡ gray → color_of s u ≡ gray)

module _ (adj : Adjacency) where
  abbrev pub Restores : Visit → Type 0
  Restores visit = (id : String) (s t : Search) → visit id s ≡ some (false, t) → Restored s t

  scan-Restores :
      (visit : Visit)
      → Restores visit
      → (es : List EdgeInfo) (s t : Search) → scan visit es s ≡ some (false, t)
      → Restored s t
  unfolding scan
  scan-Restores visit v [] s t h = let same : s ≡ t = ground arith in rw same (refl, λ u g. g)
  scan-Restores visit v (e ∷ es) s t h = elim (Color-cases (color_of s e.target_id)) [
    | inl c ↦
        let (m, v', h') = scan_clears-visit adj visit e es s t c (visit e.target_id s) refl h in
        let (p1, g1) = v e.target_id s m v' in
        let (p2, g2) = scan-Restores visit v es m t h' in (p2 ∙ p1, λ u g. g1 u (g2 u g))
    | inr (inl c) ↦ absurd (ground (arith, scan-gray visit e es s c))
    | inr (inr c) ↦ scan-Restores visit v es s t (sym (scan-black visit e es s c) ∙ h)
  ]

  pub dfs-Restores : (fuel : ℕ) → Restores (dfs fuel adj)
  unfolding dfs
  dfs-Restores zero id s t h = absurd (ground arith)
  dfs-Restores (suc fuel) id s t h =
      let (m, h', q) = dfs_scanned adj fuel id s t h in
      let (p1, g1) =
        scan-Restores (dfs fuel adj) (dfs-Restores fuel) (edges_of adj id) (enter id s) m h' in
      rw q (
        leave-path id s m p1,
        λ u g.
            let g' : color_of m u ≡ gray = ground (arith, color_of-leave id u m, black≢gray) in
            let other : (id == u) ≡ false = ground (arith, color_of-leave id u m) in
            ground (arith, g1 u g', color_of-enter id u s),
      )

abbrev pub NoGray : Search → Type 0
NoGray s = (u : String) → color_of s u ≢ gray

-- Each id of the list has an edge to the next.
abbrev pub Linked : Adjacency → List String → Type 0
Linked adj [] = Unit
Linked adj (x ∷ []) = Unit
Linked adj (x ∷ y ∷ p) = Arc adj x y × Linked adj (y ∷ p)

-- The path closes: its last id stands in it before.
pub record Closes (adj : Adjacency) (p : List String) : Type 0 where
  pub front : List String
  pub again : String
  pub split : p ≡ front ++ again ∷ []
  pub seen : In again front
  pub linked : Linked adj p

module _ (adj : Adjacency) where
  Linked-snoc :
      (p : List String) (x y : String)
      → Linked adj (p ++ x ∷ [])
      → Arc adj x y
      → Linked adj ((p ++ x ∷ []) ++ y ∷ [])
  Linked-snoc [] x y l a = (a, tt)
  Linked-snoc (z ∷ []) x y l a = (l.0, (a, tt))
  Linked-snoc (z ∷ w ∷ p) x y l a = (l.0, Linked-snoc (w ∷ p) x y l.1 a)

  abbrev pub GrayOnPath : Search → Type 0
  GrayOnPath s = (u : String) → color_of s u ≡ gray → In u s.path

  abbrev pub Reports : Visit → Type 0
  Reports visit =
      (id : String) (s t : Search)
      → visit id s ≡ some (true, t)
      → Linked adj (s.path ++ id ∷ [])
      → GrayOnPath s
      → Closes adj t.path

  enter-GrayOnPath : (id : String) (s : Search) → GrayOnPath s → GrayOnPath (enter id s)
  unfolding enter
  enter-GrayOnPath id s h u g = elim (Bool-cases (id == u)) [
    | inl q ↦ In-append_right u s.path (id ∷ []) (inl ((eq_iff id u).0 q))
    | inr q ↦ In-append_left u s.path (id ∷ []) (h u (ground (arith, color_of-enter id u s)))
  ]

  -- The edges still to be scanned belong to the last id of the path.
  record AtEnd (id : String) (es : List EdgeInfo) (s : Search) : Type 0 where
    before : List String
    ends : s.path ≡ before ++ id ∷ []
    linked : Linked adj s.path
    grays : GrayOnPath s
    own : (e : EdgeInfo) → In e es → In e (edges_of adj id)

  AtEnd-step :
      (id : String) (e : EdgeInfo) (es : List EdgeInfo) (s m : Search)
      → AtEnd id (e ∷ es) s
      → Restored s m
      → AtEnd id es m
  AtEnd-step id e es s m a (p, g) = record {
    before = a.before;
    ends = p ∙ a.ends;
    linked = rw p a.linked;
    grays = λ u c. rw p (a.grays u (g u c));
    own = λ x i. a.own x (inr i);
  }

  AtEnd-Linked :
      (id : String) (e : EdgeInfo) (es : List EdgeInfo) (s : Search)
      → AtEnd id (e ∷ es) s
      → Linked adj (s.path ++ e.target_id ∷ [])
  AtEnd-Linked id e es s a = rw a.ends (
      Linked-snoc a.before id e.target_id (rw a.ends at a.linked) (arc e (a.own e (inl refl)) refl))

  scan_reports_white :
      (visit : Visit) (e : EdgeInfo) (es : List EdgeInfo) (s t : Search)
      → color_of s e.target_id ≡ white
      → (o : Option (Bool × Search)) → visit e.target_id s ≡ o
      → scan visit (e ∷ es) s ≡ some (true, t)
      → (o ≡ some (true, t))
        ⊎ ((m : Search) × (o ≡ some (false, m)) × (scan visit es m ≡ some (true, t)))
  unfolding scan
  scan_reports_white visit e es s t c none v h = absurd (ground arith)
  scan_reports_white visit e es s t c (some (true, m)) v h = inl (ground arith)
  scan_reports_white visit e es s t c (some (false, m)) v h = inr (m, refl, ground arith)

  scan-Reports :
      (visit : Visit)
      → Reports visit
      → Restores adj visit
      → (id : String) (es : List EdgeInfo) (s t : Search) → AtEnd id es s
      → scan visit es s ≡ some (true, t)
      → Closes adj t.path
  unfolding scan
  scan-Reports visit v k id [] s t a h = absurd (ground arith)
  scan-Reports visit v k id (e ∷ es) s t a h = elim (Color-cases (color_of s e.target_id)) [
    | inl c ↦ elim (scan_reports_white visit e es s t c (visit e.target_id s) refl h) [
      | inl found ↦ v e.target_id s t found (AtEnd-Linked id e es s a) a.grays
      | inr (m, v', h') ↦
          scan-Reports visit v k id es m t (AtEnd-step id e es s m a (k e.target_id s m v')) h'
    ]
    | inr (inl c) ↦
        let path_t : t.path ≡ s.path ++ e.target_id ∷ [] =
          (ground (arith, scan-gray visit e es s c)) in
        record {
          front = s.path;
          again = e.target_id;
          split = path_t;
          seen = a.grays e.target_id c;
          linked = rw path_t (AtEnd-Linked id e es s a);
        }
    | inr (inr c) ↦
        scan-Reports visit v k id es s t (AtEnd-step id e es s s a (refl, λ u g. g))
          (sym (scan-black visit e es s c) ∙ h)
  ]

  dfs_found :
      (fuel : ℕ) (id : String) (s t : Search) (o : Option (Bool × Search))
      → scan (dfs fuel adj) (edges_of adj id) (enter id s) ≡ o
      → dfs (suc fuel) adj id s ≡ some (true, t)
      → o ≡ some (true, t)
  unfolding dfs
  dfs_found fuel id s t none q h = absurd (cc (rw (q, dfs) at h))
  dfs_found fuel id s t (some (true, m)) q h = ground arith
  dfs_found fuel id s t (some (false, m)) q h = absurd (ground arith)

  enter-path : (id : String) (s : Search) → (enter id s).path ≡ s.path ++ id ∷ []
  unfolding enter
  enter-path id s = refl

  pub dfs-Reports : (fuel : ℕ) → Reports (dfs fuel adj)
  unfolding dfs
  dfs-Reports zero id s t h l g = absurd (ground arith)
  dfs-Reports (suc fuel) id s t h l g =
      scan-Reports (dfs fuel adj) (dfs-Reports fuel) (dfs-Restores adj fuel) id (edges_of adj id)
        (enter id s) t
        (record {
          before = s.path;
          ends = enter-path id s;
          linked = rw (enter-path id s) l;
          grays = enter-GrayOnPath id s g;
          own = λ e i. i;
        })
        (dfs_found fuel id s t _ refl h)

  pub search_found :
      (visit : Visit) (id : String) (ids : List String) (s : Search) (r : Option (List String))
      → color_of s id ≡ white
      → (o : Option (Bool × Search)) → visit id (record s { path = [] }) ≡ o
      → search_from visit (id ∷ ids) s ≡ some r
      → ((t : Search) × (o ≡ some (true, t)) × (r ≡ some t.path))
        ⊎ ((t : Search) × (o ≡ some (false, t)) × (search_from visit ids t ≡ some r))
  unfolding search_from
  search_found visit id ids s r c none v h = absurd (ground arith)
  search_found visit id ids s r c (some (true, t)) v h =
      inl (t, refl, ground (arith, search-white_true visit id ids s t c v))
  search_found visit id ids s r c (some (false, t)) v h =
      inr (t, refl, ground (arith, search-white_false visit id ids s t c v))
