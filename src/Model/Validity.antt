-- ===== src/Model/Validity.antt =====
-- What `Workflow.IsValid` accepts, and the state machine of `Execution.CanTransition`.
use landc_go.Prelude.{
  Distinct, String, true, false, List, [], ◌∷◌, map, ◌≡◌, refl, ◌≢◌, ◌↔◌, inl, inr, arith, Flags,
  marked, mark, eq_iff, In, All, Option, mark-unmarked, some, unmarked-mark, any, subst, sym,
  if◌then◌else◌, none, ◌⊎◌, apart,
}
use landc_go.Model.{
  Node, Workflow, Execution, ids_valid, is_valid, can_transition, execution_is_final,
}
use landc_go.Model.Status.{ExecutionStatus, execution_status_eq}

abbrev pub ids : List Node → List String
ids ns = map (λ n. n.id) ns

pub ids_valid_sound :
    (seen : Flags) (ns : List Node)
    → ids_valid seen ns ≡ true
    → All (λ k. k ≢ "") (ids ns)
      × Distinct (ids ns)
      × ((k : String) → In k (ids ns) → marked k seen ≡ false)
unfolding ids_valid
ids_valid_sound seen [] h = (tt, tt, λ k i. absurd i)
ids_valid_sound seen (n ∷ ns) h =
    let later = ids_valid_sound (mark n.id seen) ns (ground arith) in
    let apart = λ (k : String) (i : In k (ids ns)). mark-unmarked n.id k seen (later.2 k i) in
    (
      (ground (arith, eq_iff n.id ""), later.0),
      (λ i. (apart n.id i).0 refl, later.1),
      λ k. elim [ inl e ↦ rw (← e) (ground arith) | inr i ↦ (apart k i).1 ],
    )

pub ids_valid_complete :
    (seen : Flags) (ns : List Node)
    → All (λ k. k ≢ "") (ids ns)
    → Distinct (ids ns)
    → ((k : String) → In k (ids ns) → marked k seen ≡ false)
    → ids_valid seen ns ≡ true
unfolding ids_valid
ids_valid_complete seen [] named apart fresh = refl
ids_valid_complete seen (n ∷ ns) named apart fresh =
    let rest : ids_valid (mark n.id seen) ns ≡ true =
      (ids_valid_complete (mark n.id seen) ns named.1 apart.1 λ k i.
        unmarked-mark n.id k seen (λ e. apart.0 (subst (λ x. In x (ids ns)) (sym e) i))
          (fresh k (inr i))) in
    ground (arith, eq_iff n.id "", fresh n.id (inl refl))

is_valid_sound :
    (w : Workflow) (ns : List Node)
    → w.nodes ≡ ns
    → is_valid w ≡ true
    → (w.name ≢ "") × (w.nodes ≢ []) × All (λ k. k ≢ "") (ids w.nodes) × Distinct (ids w.nodes)
unfolding is_valid
is_valid_sound w [] e h = ground arith
is_valid_sound w (n ∷ ns) e h =
    let walked : ids_valid [] (n ∷ ns) ≡ true = ground arith in
    let (named, apart, _) = ids_valid_sound [] (n ∷ ns) walked in
    (ground (arith, eq_iff w.name ""), rw e (λ q. cc), rw e named, rw e apart)

is_valid_complete :
    (w : Workflow) (ns : List Node)
    → w.nodes ≡ ns
    → (w.name ≢ "") × (w.nodes ≢ []) × All (λ k. k ≢ "") (ids w.nodes) × Distinct (ids w.nodes)
    → is_valid w ≡ true
unfolding is_valid marked
is_valid_complete w [] e h = absurd (h.1 e)
is_valid_complete w (n ∷ ns) e h =
    let walked = ids_valid_complete [] (n ∷ ns) (rw e at h.2) (rw e at h.3) (λ k i. refl) in
    ground (arith, eq_iff w.name "", walked)

-- `IsValid` accepts exactly the workflows that have a name and at least one node, and whose node
-- ids are non-empty and pairwise different.
pub is_valid_iff :
    (w : Workflow)
    → (is_valid w ≡ true)
      ↔ ((w.name ≢ "") × (w.nodes ≢ []) × All (λ k. k ≢ "") (ids w.nodes) × Distinct (ids w.nodes))
is_valid_iff w = (is_valid_sound w w.nodes refl, is_valid_complete w w.nodes refl)

-- The execution after the requested changes of status, each through the test of `CanTransition`.
unfoldable pub follow : Execution → List ExecutionStatus → Option Execution
follow e [] = some e
follow e (t ∷ ts) =
    let rest = follow (record e { status = t }) ts in if can_transition e t then rest else none

-- The outcomes that only a run can have.
abbrev pub IsRunOutcome : ExecutionStatus → Type 0
IsRunOutcome ExecutionStatus.completed = Unit
IsRunOutcome ExecutionStatus.failed = Unit
IsRunOutcome ExecutionStatus.timed_out = Unit
IsRunOutcome ExecutionStatus.paused = Unit
IsRunOutcome _ = ⊥

abbrev pub IsIdle : ExecutionStatus → Type 0
IsIdle ExecutionStatus.pending = Unit
IsIdle ExecutionStatus.cancelled = Unit
IsIdle _ = ⊥

leave-IsIdle :
    (s : ExecutionStatus) (e : Execution) (t : ExecutionStatus)
    → e.status ≡ s
    → IsIdle s
    → can_transition e t ≡ true
    → IsIdle t ⊎ (t ≡ ExecutionStatus.running)
unfolding can_transition
leave-IsIdle s e ExecutionStatus.pending q idle h = inl tt
leave-IsIdle s e ExecutionStatus.cancelled q idle h = inl tt
leave-IsIdle s e ExecutionStatus.running q idle h = inr refl
leave-IsIdle ExecutionStatus.pending e t q idle h = absurd (ground arith)
leave-IsIdle ExecutionStatus.cancelled e t q idle h = absurd (ground arith)
leave-IsIdle s e t q idle h = absurd idle

follow-cons :
    (e e' : Execution) (t : ExecutionStatus) (ts : List ExecutionStatus)
    → follow e (t ∷ ts) ≡ some e'
    → (can_transition e t ≡ true) × (follow (record e { status = t }) ts ≡ some e')
unfolding follow
follow-cons e e' t ts h = ground arith

no_outcome : (s : ExecutionStatus) → IsIdle s → IsRunOutcome s → ⊥
no_outcome ExecutionStatus.pending idle out = out
no_outcome ExecutionStatus.cancelled idle out = out
no_outcome s idle out = idle

-- Whatever sequence of permitted status changes an execution goes through from PENDING (or from
-- CANCELLED), it is completed, failed, timed out or paused only if it was RUNNING on the way.
pub follow-ran :
    (e e' : Execution) (ts : List ExecutionStatus)
    → IsIdle e.status
    → follow e ts ≡ some e'
    → IsRunOutcome e'.status
    → any (execution_status_eq ExecutionStatus.running) ts ≡ true
unfolding follow
follow-ran e e' [] idle h out =
    let same : e.status ≡ e'.status = ground arith in
    absurd (no_outcome e'.status (subst IsIdle same idle) out)
follow-ran e e' (t ∷ ts) idle h out =
    let (allowed, rest) = follow-cons e e' t ts h in
    elim (leave-IsIdle e.status e t refl idle allowed) [
      | inl still ↦ ground (arith, follow-ran (record e { status = t }) e' ts still rest out)
      | inr ran ↦ rw ran refl
    ]

-- Once an execution is in a final state no change of status is permitted.
pub follow-final :
    (e e' : Execution) (ts : List ExecutionStatus)
    → execution_is_final e ≡ true
    → follow e ts ≡ some e'
    → ts ≡ []
unfolding can_transition
follow-final e e' [] final h = refl
follow-final e e' (t ∷ ts) final h = absurd (ground (arith, follow-cons e e' t ts h))
