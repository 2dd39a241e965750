-- ===== src/Dag/Acyclic.antt =====
-- When `detectCycle` reports nothing, the edges reachable from the nodes have no cycle.
use landc_go.Dag.Cycle.{
  Adjacency, EdgeInfo, edges_of, Search, white, gray, black, color_of, enter, leave, Visit, scan,
  dfs,
}
use landc_go.Dag.Colors.{
  color_of-enter, color_of-leave, Color-cases, scan-gray, scan-black, Keeps, Keeps-trans,
  Keeps-visit, black≢white, white≢gray,
}
use landc_go.Prelude.{
  All, All-In, Bool-cases, In-All, List, String, [], arith, eq_iff, false, if◌then◌else◌, inl, inr,
  some, suc, zero, ℕ, ◌<◌, ◌==◌, ◌∷◌, ◌≡◌, In, eq_refl, refl, subst, sym, ◌∙◌, Bool, Option, none,
  true,
}

-- A black id lies above the targets of its edges, which are black too.
pub record Below (adj : Adjacency) (s : Search) (rank : String → ℕ) (top : ℕ) (u : String)
    : Type 0 where
  pub under : rank u < top
  pub done : All (λ e. color_of s e.target_id ≡ black) (edges_of adj u)
  pub above : All (λ e. rank e.target_id < rank u) (edges_of adj u)

pub record Ranked (adj : Adjacency) (s : Search) : Type 0 where
  pub rank : String → ℕ
  pub top : ℕ
  pub below : (u : String) → color_of s u ≡ black → Below adj s rank top u

module _ (adj : Adjacency) where
  enter-Ranked :
      (id : String) (s : Search) → color_of s id ≡ white → Ranked adj s → Ranked adj (enter id s)
  enter-Ranked id s w r = record {
    rank = r.rank;
    top = r.top;
    below = λ u b.
        let b' : color_of s u ≡ black = ground (arith, color_of-enter id u s, w) in
        let l = r.below u b' in
        record {
          under = l.under;
          done = In-All (edges_of adj u) λ e i. ground (
            arith,
            color_of-enter id e.target_id s,
            eq_iff id e.target_id,
            w,
            All-In (λ x. color_of s x.target_id ≡ black) (edges_of adj u) e l.done i,
          );
          above = l.above;
        };
  }

  module _ (id : String) (s : Search) (g : color_of s id ≡ gray)
      (all_black : All (λ e. color_of s e.target_id ≡ black) (edges_of adj id))
      (r : Ranked adj s) where
    -- `id` is put above everything that was black before.
    abbrev raised : String → ℕ
    raised u = if id == u then r.top else r.rank u

    black-leave : (u : String) → color_of s u ≡ black → color_of (leave id s) u ≡ black
    black-leave u b = ground (arith, color_of-leave id u s, b)

    raised_of_black : (u : String) → color_of s u ≡ black → raised u ≡ r.rank u
    raised_of_black u b = ground (arith, eq_iff id u, g, b)

    leave-Below_self : Below adj (leave id s) raised (suc r.top) id
    leave-Below_self = record {
      under = ground (arith, eq_refl id);
      done = In-All (edges_of adj id) λ e i. black-leave e.target_id (black_at e i);
      above = In-All (edges_of adj id) λ e i.
          let l = r.below e.target_id (black_at e i) in
          ground (arith, eq_refl id, raised_of_black e.target_id (black_at e i), l.under);
    }
      where
        black_at : (e : EdgeInfo) → In e (edges_of adj id) → color_of s e.target_id ≡ black
        black_at e i = All-In (λ x. color_of s x.target_id ≡ black) (edges_of adj id) e all_black i

    leave-Below_other :
        (u : String) → color_of s u ≡ black → Below adj (leave id s) raised (suc r.top) u
    leave-Below_other u b = record {
      under = omega (arith, raised_of_black u b, l.under);
      done = In-All (edges_of adj u) λ e i. black-leave e.target_id (black_at e i);
      above = In-All (edges_of adj u) λ e i. omega (
        arith,
        raised_of_black u b,
        raised_of_black e.target_id (black_at e i),
        All-In (λ x. r.rank x.target_id < r.rank u) (edges_of adj u) e l.above i,
      );
    }
      where
        l : Below adj s r.rank r.top u
        l = r.below u b

        black_at : (e : EdgeInfo) → In e (edges_of adj u) → color_of s e.target_id ≡ black
        black_at e i = All-In (λ x. color_of s x.target_id ≡ black) (edges_of adj u) e l.done i

    leave-Ranked : Ranked adj (leave id s)
    leave-Ranked = record {
      rank = raised;
      top = suc r.top;
      below = λ u b. elim (Bool-cases (id == u)) [
        | inl q ↦
            subst (λ v. Below adj (leave id s) raised (suc r.top) v) ((eq_iff id u).0 q)
              leave-Below_self
        | inr q ↦ leave-Below_other u (ground (arith, color_of-leave id u s, q))
      ];
    }

  abbrev pub Clears : Visit → Type 0
  Clears visit =
      (id : String) (s t : Search)
      → color_of s id ≡ white
      → visit id s ≡ some (false, t)
      → Ranked adj s
      → Ranked adj t × Keeps s t × (color_of t id ≡ black)

  pub scan_clears-visit :
      (visit : Visit) (e : EdgeInfo) (es : List EdgeInfo) (s t : Search)
      → color_of s e.target_id ≡ white
      → (o : Option (Bool × Search)) → visit e.target_id s ≡ o
      → scan visit (e ∷ es) s ≡ some (false, t)
      → (m : Search) × (o ≡ some (false, m)) × (scan visit es m ≡ some (false, t))
  unfolding scan
  scan_clears-visit visit e es s t c none v h = absurd (ground arith)
  scan_clears-visit visit e es s t c (some (true, m)) v h = absurd (ground arith)
  scan_clears-visit visit e es s t c (some (false, m)) v h = (m, refl, ground arith)

  scan-Clears :
      (visit : Visit)
      → Clears visit
      → (es : List EdgeInfo) (s t : Search) → scan visit es s ≡ some (false, t)
      → Ranked adj s
      → Ranked adj t × Keeps s t × All (λ e. color_of t e.target_id ≡ black) es
  unfolding scan
  scan-Clears visit v [] s t h r =
      let same : s ≡ t = ground arith in (subst (Ranked adj) same r, rw same (λ u d. refl), tt)
  scan-Clears visit v (e ∷ es) s t h r = elim (Color-cases (color_of s e.target_id)) [
    | inl c ↦
        let (m, v', h') = scan_clears-visit visit e es s t c (visit e.target_id s) refl h in
        let (r1, k1, b1) = v e.target_id s m c v' r in
        let (r2, k2, b2) = scan-Clears visit v es m t h' r1 in
        (r2, Keeps-trans s m t k1 k2, (k2 e.target_id (λ q. black≢white (sym b1 ∙ q)) ∙ b1, b2))
    | inr (inl c) ↦ absurd (ground (arith, scan-gray visit e es s c))
    | inr (inr c) ↦
        let (r2, k2, b2) = scan-Clears visit v es s t (sym (scan-black visit e es s c) ∙ h) r in
        (r2, k2, (k2 e.target_id (λ q. black≢white (sym c ∙ q)) ∙ c, b2))
  ]

  dfs_scanned_at :
      (fuel : ℕ) (id : String) (s t : Search) (o : Option (Bool × Search))
      → scan (dfs fuel adj) (edges_of adj id) (enter id s) ≡ o
      → dfs (suc fuel) adj id s ≡ some (false, t)
      → (m : Search) × (o ≡ some (false, m)) × (t ≡ leave id m)
  unfolding dfs
  dfs_scanned_at fuel id s t none q h = absurd (cc (rw (q, dfs) at h))
  dfs_scanned_at fuel id s t (some (true, m)) q h = absurd (ground arith)
  dfs_scanned_at fuel id s t (some (false, m)) q h = (m, refl, ground arith)

  pub dfs_scanned :
      (fuel : ℕ) (id : String) (s t : Search)
      → dfs (suc fuel) adj id s ≡ some (false, t)
      → (m : Search) × (scan (dfs fuel adj) (edges_of adj id) (enter id s) ≡ some (false, m))
        × (t ≡ leave id m)
  dfs_scanned fuel id s t h = dfs_scanned_at fuel id s t _ refl h

  pub dfs-Clears : (fuel : ℕ) → Clears (dfs fuel adj)
  unfolding dfs
  dfs-Clears zero id s t w h r = absurd (ground arith)
  dfs-Clears (suc fuel) id s t w h r =
      let (m, h', q) = dfs_scanned fuel id s t h in
      let (r1, k1, b1) =
        scan-Clears (dfs fuel adj) (dfs-Clears fuel) (edges_of adj id) (enter id s) m h'
          (enter-Ranked id s w r) in
      let entered : color_of (enter id s) id ≡ gray =
        ground (arith, color_of-enter id id s, eq_refl id) in
      let still = k1 id (λ e. white≢gray (sym e ∙ entered)) ∙ entered in
      rw q (
        leave-Ranked id m still b1 r1,
        Keeps-visit id s m w k1,
        ground (arith, color_of-leave id id m, eq_refl id),
      )
