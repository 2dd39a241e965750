-- ===== src/Engine/Once.antt =====
-- workflow/pkg/engine/engine.go, `StartWorkflow`: a trigger that has started a workflow starts it
-- once for as long as the idempotency key is kept.
use landc_go.Model.{Workflow, Execution, TriggerType, WorkflowStatus, workflow_status_eq}
use landc_go.Store.Memory.{
  MemoryStore, create_execution, get_workflow, first_match, get_execution_by_trigger_id,
}
use landc_go.Idempotent.{Checker, is_processed, mark_processed}
use landc_go.Idempotent.Keys.{kept, is_processed-mark_processed}
use landc_go.Engine.Api.{
  Engine, Context, ApiError, Started, start_workflow, already_started, launch, new_execution,
}
use landc_go.Prelude.{
  Bool, Bool-cases, In, List, Map, String, [], ap, arith, if◌then◌else◌, inl, inr, insert, refl,
  some, true, values, ◌∷◌, ◌≡◌, Option, Option-cases, false, lookup, ok, ◌==◌, none, ◌≢◌, not,
  subst, sym, Result-cases, &&-eq-true, eq_iff, eq_refl, ◌&&◌, ◌+◌, ◌∙◌, ◌≤◌, ℕ, Result,
}

first_match-found :
    {A : Type 0} (p : A → Bool) (xs : List A) (x : A)
    → In x xs
    → p x ≡ true
    → (y : A) × (first_match p xs ≡ some y) × In y xs × (p y ≡ true)
unfolding first_match
first_match-found p [] x i h = absurd i
first_match-found p (y ∷ xs) x i h = elim (Bool-cases (p y)) [
  | inl q ↦ (y, rw (q, if◌then◌else◌) refl, inl refl, q)
  | inr q ↦ elim i [
    | inl same ↦ absurd (ground (arith, ap p same))
    | inr j ↦
        let (z, found, k, fits) = first_match-found p xs x j h in
        (z, rw (first_match, q, if◌then◌else◌) found, inr k, fits)
  ]
]

In-values-insert : {V : Type 0} (k : String) (v : V) (m : Map V) → In v (values (insert k v m))
unfolding insert
In-values-insert k v [] = inl refl
In-values-insert k v ((j, w) ∷ m) = ground (arith, In-values-insert k v m)

-- What a call that launches a run has done.
record Launched (c : Context) (e e' : Engine) (workflow_id trigger_id : String) : Type 0 where
  execution : Execution
  workflow : Workflow
  loaded : get_workflow e.store workflow_id ≡ ok workflow
  in_workflow : execution.workflow_id ≡ workflow.id
  triggered : execution.trigger_id ≡ trigger_id
  stored : In execution (values e'.store.executions)
  checker : Checker
  same_ttl : checker.ttl ≡ e.checker.ttl
  marked_key :
      e'.checker
      ≡ mark_processed c.env.now (c.key_of workflow_id trigger_id) c.idempotency_ttl checker

launch-stored :
    (c : Context) (e e' : Engine) (workflow_id : String) (w : Workflow) (input : Option String)
    (trigger_type : TriggerType) (trigger_id : String) (s : Started)
    → launch c e workflow_id w input trigger_type trigger_id ≡ ok (e', s)
    → (trigger_id == "") ≡ false
    → In (new_execution c w input trigger_type trigger_id) (values e'.store.executions)
      × (e'.checker
          ≡ mark_processed c.env.now (c.key_of workflow_id trigger_id) c.idempotency_ttl e.checker)
unfolding launch create_execution
launch-stored c e e' workflow_id w input trigger_type trigger_id s h named =
    let x = new_execution c w input trigger_type trigger_id in
    elim (Bool-cases (workflow_status_eq w.status WorkflowStatus.active)) [
      | inr p ↦ absurd (cc (rw (launch, p) at h))
      | inl p ↦ elim (Option-cases (lookup x.id e.store.executions)) [
        | inr (y, q) ↦ absurd (cc (rw (launch, p, create_execution, q) at h))
        | inl q ↦
            let there = In-values-insert x.id x e.store.executions in
            let h' = rw (launch, p, create_execution, q, named, not, if◌then◌else◌) at h in
            let same : insert x.id x e.store.executions ≡ e'.store.executions = ground arith in
            (subst (λ m. In x (values m)) same there, sym (ground arith))
      ]
    ]

already_started-none :
    (c : Context) (e : Engine) (workflow_id trigger_id : String)
    → (trigger_id == "") ≡ false
    → ((already_started c e workflow_id trigger_id).0.store ≡ e.store)
      × ((already_started c e workflow_id trigger_id).0.checker.ttl ≡ e.checker.ttl)
unfolding already_started is_processed
already_started-none c e workflow_id trigger_id named =
    rw (already_started, named, if◌then◌else◌) (refl, ground arith)

start_workflow-Launched :
    (c : Context) (e e' : Engine) (workflow_id : String) (input : Option String)
    (trigger_type : TriggerType) (trigger_id : String) (s : Started)
    → start_workflow c e workflow_id input trigger_type trigger_id ≡ ok (e', s)
    → s.run ≢ none
    → (trigger_id == "") ≡ false
    → Launched c e e' workflow_id trigger_id
unfolding start_workflow new_execution
start_workflow-Launched c e e' workflow_id input trigger_type trigger_id s h runs named =
    let (e1, found) = already_started c e workflow_id trigger_id in
    elim (Option-cases found) [
      | inr (x, q) ↦ absurd (runs (ground arith))
      | inl q ↦ elim (Result-cases (get_workflow e1.store workflow_id)) [
        | inl (z, p) ↦ absurd (cc (rw (start_workflow, q, p) at h))
        | inr (w, p) ↦
            let (there, made) =
              launch-stored c e1 e' workflow_id w input trigger_type trigger_id s
                (rw (start_workflow, q, p) at h) named in
            let (same, kept_ttl) = already_started-none c e workflow_id trigger_id named in
            record {
              execution = new_execution c w input trigger_type trigger_id;
              workflow = w;
              loaded = ap (λ (z : MemoryStore). get_workflow z workflow_id) (sym same) ∙ p;
              in_workflow = refl;
              triggered = refl;
              stored = there;
              checker = e1.checker;
              same_ttl = kept_ttl;
              marked_key = made;
            }
      ]
    ]

-- The test that `GetExecutionByTriggerID` makes.
abbrev of_trigger : String → String → Execution → Bool
of_trigger workflow_id trigger_id x = (x.workflow_id == workflow_id) && (x.trigger_id == trigger_id)

is_processed-true :
    (now : ℕ) (key : String) (k : Checker)
    → (is_processed now key k).1 ≡ true
    → is_processed now key k ≡ (k, true)
unfolding is_processed
is_processed-true now key k h = ground arith

already_started-hit :
    (c : Context) (e : Engine) (workflow_id trigger_id : String) (x : Execution)
    → (trigger_id == "") ≡ false
    → (is_processed c.env.now (c.key_of workflow_id trigger_id) e.checker).1 ≡ true
    → get_execution_by_trigger_id e.store workflow_id trigger_id ≡ some x
    → already_started c e workflow_id trigger_id ≡ (e, some x)
unfolding already_started
already_started-hit c e workflow_id trigger_id x named processed found =
    rw
      (
        already_started,
        named,
        if◌then◌else◌,
        is_processed-true c.env.now (c.key_of workflow_id trigger_id) e.checker processed,
        found,
      )
      refl

start_workflow-hit :
    (c : Context) (e : Engine) (workflow_id : String) (input : Option String)
    (trigger_type : TriggerType) (trigger_id : String) (x : Execution)
    → already_started c e workflow_id trigger_id ≡ (e, some x)
    → start_workflow c e workflow_id input trigger_type trigger_id
      ≡ ok (e, record { id = x.id; run = none })
unfolding start_workflow
start_workflow-hit c e workflow_id input trigger_type trigger_id x h =
    let here : Started = record { id = x.id; run = none } in
    let answer : Engine × Option Execution → Result ApiError (Engine × Started) =
      λ p. ok (p.0, here) in
    rw (start_workflow, ap (λ (p : Engine × Option Execution). p.1) h) (ap answer h)

-- A call that has started a run for a trigger, on a store that keeps the workflow under its own id,
-- is answered once: until the time for which the key is kept has run out, a second call for the
-- trigger changes nothing, starts no run, and hands back the id of an execution that the store holds
-- and that is of this workflow and this trigger.
pub start_workflow-once :
    (c c' : Context) (e e' : Engine) (workflow_id : String) (input input' : Option String)
    (trigger_type trigger_type' : TriggerType) (trigger_id : String) (s : Started)
    → start_workflow c e workflow_id input trigger_type trigger_id ≡ ok (e', s)
    → s.run ≢ none
    → trigger_id ≢ ""
    → ((w : Workflow) → get_workflow e.store workflow_id ≡ ok w → w.id ≡ workflow_id)
    → c'.key_of workflow_id trigger_id ≡ c.key_of workflow_id trigger_id
    → c'.env.now ≤ c.env.now + kept c.idempotency_ttl e.checker
    → (x : Execution) × (start_workflow c' e' workflow_id input' trigger_type' trigger_id
        ≡ ok (e', record { id = x.id; run = none }))
      × In x (values e'.store.executions)
      × (x.workflow_id ≡ workflow_id)
      × (x.trigger_id ≡ trigger_id)
unfolding get_execution_by_trigger_id
start_workflow-once c c' e e' workflow_id input input' tt tt' trigger_id s h runs named keyed
      same_key soon =
    let unnamed : (trigger_id == "") ≡ false = ground (arith, eq_iff trigger_id "") in
    let l = start_workflow-Launched c e e' workflow_id input tt trigger_id s h runs unnamed in
    let here : l.execution.workflow_id ≡ workflow_id = l.in_workflow ∙ keyed l.workflow l.loaded in
    let matches : of_trigger workflow_id trigger_id l.execution ≡ true =
      rw (here, l.triggered, eq_refl workflow_id, eq_refl trigger_id) refl in
    let (x, found, there, fits) =
      first_match-found (of_trigger workflow_id trigger_id) (values e'.store.executions) l.execution
        l.stored matches in
    let (in_it, by_it) =
      &&-eq-true (x.workflow_id == workflow_id) (x.trigger_id == trigger_id) fits in
    let key = c.key_of workflow_id trigger_id in
    let processed : (is_processed c'.env.now key e'.checker).1 ≡ true = rw l.marked_key (
      is_processed-mark_processed c.env.now c'.env.now c.idempotency_ttl key l.checker
      ∙ ground (arith, l.same_ttl, soon)) in
    (
      x,
      start_workflow-hit c' e' workflow_id input' tt' trigger_id x (
          already_started-hit c' e' workflow_id trigger_id x unnamed (rw same_key processed) found),
      there,
      (eq_iff x.workflow_id workflow_id).0 in_it,
      (eq_iff x.trigger_id trigger_id).0 by_it,
    )
