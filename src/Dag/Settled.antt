-- ===== src/Dag/Settled.antt =====
-- workflow/pkg/engine/dag.go, `TopologicalSort`: what holds of the counters and of the queue while
-- the edges that leave one node are taken.
use mathlib.Core.List.{append_assoc}
use landc_go.Dag.Topological.{Kahn, lower, release}
use landc_go.Dag.Cycle.{EdgeInfo}
use landc_go.Dag.Remaining.{hits}
use landc_go.Prelude.{
  Distinct, In, In-append, List, Map, String, [], arith, eq_iff, get_or, get_or-insert,
  if◌then◌else◌, inl, inr, insert, pos, pred_ℤ, sym, ℕ, ℤ, ◌++◌, ◌-◌, ◌<◌, ◌==◌, ◌∷◌, ◌≡◌,
  Bool-cases, In-append_left, In-append_right, ap, is_zero_ℤ, refl, subst, ◌+◌, ◌∙◌, ◌≢◌,
}

pub Distinct-snoc :
    (xs : List String) (t : String) → Distinct xs → ¬ In t xs → Distinct (xs ++ t ∷ [])
Distinct-snoc [] t d fresh = (λ i. i, tt)
Distinct-snoc (x ∷ xs) t d fresh = (
  λ i. elim (In-append x xs (t ∷ []) i) [
    | inl j ↦ d.0 j
    | inr (inl q) ↦ fresh (inl (sym q))
    | inr (inr j) ↦ j
  ],
  Distinct-snoc xs t d.1 (λ i. fresh (inr i)),
)

-- `ids` are the nodes, `reached` those that have stood in the queue, in order, and `owed` counts the
-- edges into each id that are still to be taken.
pub record Settled (ids reached : List String) (owed : String → ℕ) (counters : Map ℤ) : Type 0 where
  pub counts : (id : String) → get_or id counters (pos 0) ≡ pos (owed id)
  pub different : Distinct reached
  pub idle : (id : String) → In id reached → owed id ≡ 0
  pub found : (id : String) → In id ids → owed id ≡ 0 → In id reached
  pub inside : (id : String) → In id reached → In id ids

-- One edge into `t` is taken.
abbrev less_one : (String → ℕ) → String → String → ℕ
less_one owed t id = if t == id then owed id - 1 else owed id

module _ (ids reached : List String) (owed : String → ℕ) (m : Map ℤ) (t : String)
    (here : Settled ids reached owed m) (more : 0 < owed t) where
  counts-lower :
      (id : String)
      → get_or id (insert t (pred_ℤ (get_or t m (pos 0))) m) (pos 0) ≡ pos (less_one owed t id)
  counts-lower id = ground (
    arith,
    get_or-insert t id (pred_ℤ (get_or t m (pos 0))) (pos 0) m,
    here.counts t,
    here.counts id,
    eq_iff t id,
  )

  fresh : ¬ In t reached
  fresh i = absurd (omega (arith, here.idle t i))

  -- The last edge into `t`: it enters the queue.
  last_one :
      owed t ≡ 1
      → In t ids
      → Settled ids (reached ++ t ∷ []) (less_one owed t) (insert t (pred_ℤ (get_or t m (pos 0))) m)
  last_one one there = record {
    counts = counts-lower;
    different = Distinct-snoc reached t here.different fresh;
    idle = λ id i. elim (In-append id reached (t ∷ []) i) [
      | inl j ↦ ground (arith, here.idle id j)
      | inr (inl q) ↦ ground (arith, q, one, eq_iff t id)
      | inr (inr j) ↦ absurd j
    ];
    found = λ id i none_owed. elim (Bool-cases (t == id)) [
      | inl q ↦ In-append_right id reached (t ∷ []) (inl ((eq_iff t id).0 q))
      | inr q ↦
          In-append_left id reached (t ∷ []) (here.found id i (rw (q, if◌then◌else◌) at none_owed))
    ];
    inside = λ id i. elim (In-append id reached (t ∷ []) i) [
      | inl j ↦ here.inside id j
      | inr (inl q) ↦ subst (λ k. In k ids) q there
      | inr (inr j) ↦ absurd j
    ];
  }

  not_last :
      owed t ≢ 1 → Settled ids reached (less_one owed t) (insert t (pred_ℤ (get_or t m (pos 0))) m)
  not_last several = record {
    counts = counts-lower;
    different = here.different;
    idle = λ id i. ground (arith, here.idle id i);
    found = λ id i none_owed. elim (Bool-cases (t == id)) [
      | inl q ↦ absurd (ground (arith, eq_iff t id))
      | inr q ↦ here.found id i (rw (q, if◌then◌else◌) at none_owed)
    ];
    inside = here.inside;
  }

pub Settled-same :
    {ids reached : List String} {owed owed' : String → ℕ} {m : Map ℤ}
    → ((id : String) → owed id ≡ owed' id)
    → Settled ids reached owed m
    → Settled ids reached owed' m
Settled-same same s = record {
  counts = λ id. s.counts id ∙ ap pos (same id);
  different = s.different;
  idle = λ id i. sym (same id) ∙ s.idle id i;
  found = λ id i z. s.found id i (same id ∙ z);
  inside = s.inside;
}

-- `done` are the ids that have left the queue.
lower-Settled :
    (ids done : List String) (owed : String → ℕ) (t : String) (k : Kahn)
    → Settled ids (done ++ k.queue) owed k.in_degree
    → 0 < owed t
    → In t ids
    → Settled ids (done ++ (lower t k).queue) (less_one owed t) (lower t k).in_degree
unfolding lower
lower-Settled ids done owed t k s more there = elim (Bool-cases (is_zero_ℤ (pos (owed t - 1)))) [
  | inl q ↦
      rw (down, q, if◌then◌else◌, ← append_assoc done k.queue (t ∷ []), ← down)
        (last_one ids (done ++ k.queue) owed k.in_degree t s more (ground arith) there)
  | inr q ↦
      rw (down, q, if◌then◌else◌, ← down)
        (not_last ids (done ++ k.queue) owed k.in_degree t s more (ground arith))
]
  where
    down : pred_ℤ (get_or t k.in_degree (pos 0)) ≡ pos (owed t - 1)
    down = ground (arith, s.counts t)

pub release-Settled :
    (ids done : List String) (base : String → ℕ) (es : List EdgeInfo) (k : Kahn)
    → ((e : EdgeInfo) → In e es → In e.target_id ids)
    → Settled ids (done ++ k.queue) (λ id. base id + hits id es) k.in_degree
    → Settled ids (done ++ (release es k).queue) base (release es k).in_degree
unfolding release
release-Settled ids done base [] k known s = Settled-same (λ id. omega arith) s
release-Settled ids done base (e ∷ es) k known s =
    release-Settled ids done base es (lower e.target_id k) (λ x i. known x (inr i))
      (Settled-same (λ id. ground arith)
        (lower-Settled ids done (λ id. base id + hits id (e ∷ es)) e.target_id k s
          (ground (arith, eq_iff e.target_id e.target_id)) (known e (inl refl))))

pub result-release : (es : List EdgeInfo) (k : Kahn) → (release es k).result ≡ k.result
unfolding release lower
result-release [] k = refl
result-release (e ∷ es) k = result-release es _
