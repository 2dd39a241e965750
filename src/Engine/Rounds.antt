-- ===== src/Engine/Rounds.antt =====
-- The ways in which one round of `executeDAG` can go.
use landc_go.Model.{Node, Execution}
use landc_go.Dag.Graph.{DagGraph, get_ready_nodes}
use landc_go.Engine.Node.{Env, Run, NodeError}
use landc_go.Engine.Loop.{Signals, DagEnd, finished, out_of_fuel, failed, run_batch, run_rounds}
use landc_go.Prelude.{
  Bool-cases, List, [], if◌then◌else◌, inl, inr, suc, true, ℕ, ◌∷◌, ◌≡◌, ◌≢◌, ◌⊎◌, ap, refl, sym,
  ◌∙◌,
}

module _ (env : Env) (sig : Signals) (g : DagGraph) (x : Execution) where
  -- The run behind the batch of this round.
  abbrev pub batch : ℕ → Run → Run
  batch k r = run_batch env sig g.workflow x k (get_ready_nodes g r.completed) r

  pub data Round (fuel k : ℕ) (r : Run) : Run × DagEnd → Type 0 where
    stops :
        (e : DagEnd)
        → (sig.cancelled k ≡ true) ⊎ (sig.paused k ≡ true)
        → e ≢ out_of_fuel
        → e ≢ finished
        → Round fuel k r (r, e)
    ends : get_ready_nodes g r.completed ≡ [] → Round fuel k r (r, finished)
    fails :
        (e : NodeError) (es : List NodeError)
        → (batch k r).errors ≡ e ∷ es
        → Round fuel k r (record (batch k r) { errors = es }, failed e)
    goes_on :
        get_ready_nodes g r.completed ≢ []
        → (batch k r).errors ≡ []
        → Round fuel k r (run_rounds fuel env sig g x (suc k) (batch k r))

  abbrev with_errors : ℕ → ℕ → Run → List NodeError → Run × DagEnd
  with_errors fuel k r' es = elim es [
    | e ∷ es' ↦ (record r' { errors = es' }, failed e)
    | [] ↦ run_rounds fuel env sig g x (suc k) r'
  ]

  abbrev with_ready : ℕ → ℕ → Run → List Node → Run × DagEnd
  with_ready fuel k r ns = elim ns [
    | [] ↦ (r, finished)
    | n ∷ ns' ↦
        let r' = run_batch env sig g.workflow x k (n ∷ ns') r in with_errors fuel k r' r'.errors
  ]

  Round-errors :
      (fuel k : ℕ) (r r' : Run) (es : List NodeError)
      → get_ready_nodes g r.completed ≢ []
      → batch k r ≡ r'
      → r'.errors ≡ es
      → Round fuel k r (with_errors fuel k r' es)
  Round-errors fuel k r r' [] some_ready b q = rw (← b) (goes_on some_ready (rw (← b) at q))
  Round-errors fuel k r r' (e ∷ es) some_ready b q = rw (← b) (fails e es (rw (← b) at q))

  Round-ready :
      (fuel k : ℕ) (r : Run) (ns : List Node)
      → get_ready_nodes g r.completed ≡ ns
      → Round fuel k r (with_ready fuel k r ns)
  Round-ready fuel k r [] q = ends q
  Round-ready fuel k r (n ∷ ns) q =
      Round-errors fuel k r (run_batch env sig g.workflow x k (n ∷ ns) r) _ (λ e. cc (sym q ∙ e))
        (ap (λ ms. run_batch env sig g.workflow x k ms r) q) refl

  pub round : (fuel k : ℕ) (r : Run) → Round fuel k r (run_rounds (suc fuel) env sig g x k r)
  unfolding run_rounds
  round fuel k r = elim (Bool-cases (sig.cancelled k)) [
    | inl q ↦ rw (q, if◌then◌else◌) (stops _ (inl q) (λ e. cc) (λ e. cc))
    | inr q ↦ elim (Bool-cases (sig.paused k)) [
      | inl p ↦ rw (q, if◌then◌else◌, p) (stops _ (inr p) (λ e. cc) (λ e. cc))
      | inr p ↦ rw (q, if◌then◌else◌, p) (Round-ready fuel k r (get_ready_nodes g r.completed) refl)
    ]
  ]
