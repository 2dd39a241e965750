-- ===== src/Engine/Pausing.antt =====
-- workflow/pkg/engine/engine.go: what `PauseWorkflow`, `ResumeWorkflow` and `CancelWorkflow` do to an
-- execution, and what the goroutine that runs it can still do afterwards.
use landc_go.Model.{Execution, ExecutionStatus, can_transition, execution_is_final}
use landc_go.Store.Memory.{MemoryStore, version_conflict, get_execution, update_execution}
use landc_go.Store.Versions.{
  Call, run, update_execution-conflict, update_execution-stores, update_execution-raised,
}
use landc_go.Engine.Api.{Engine, save, pause_workflow, cancel_workflow, signal_pause, cancel_run}
use landc_go.Prelude.{
  String, ok, some, ◌≡◌, Bool-cases, Option-cases, arith, err, inl, inr, refl, sym, List, ap,
  eq_refl, if◌then◌else◌, lookup, ℕ, ◌<◌, ◌∙◌, Result-cases,
}

-- What a call that saves a new status has read and written.
record Saved (e e' : Engine) (id : String) (status : ExecutionStatus) (y : Execution) : Type 0 where
  before : Execution
  next : Execution
  read : get_execution e.store id ≡ ok before
  status_set : next.status ≡ status
  same_id : next.id ≡ before.id
  same_version : next.version ≡ before.version
  written : update_execution e.store next ≡ ok (e'.store, y)

save-written :
    (e e' : Engine) (x y : Execution)
    → save e x ≡ ok (e', y)
    → update_execution e.store x ≡ ok (e'.store, y)
save-written e e' x y h = ground arith

signal_pause-store :
    (id : String) (e e' : Engine) → signal_pause id e ≡ some e' → e'.store ≡ e.store
unfolding signal_pause
signal_pause-store id e e' h = ground arith

cancel_run-store : (id : String) (e : Engine) → (cancel_run id e).store ≡ e.store
cancel_run-store id e = ground arith

pause_workflow-Saved :
    (e e' : Engine) (id : String) (y : Execution)
    → pause_workflow e id ≡ ok (e', y)
    → Saved e e' id ExecutionStatus.paused y
unfolding pause_workflow
pause_workflow-Saved e e' id y h = elim (Result-cases (get_execution e.store id)) [
  | inl (z, q) ↦ absurd (cc (rw (pause_workflow, q) at h))
  | inr (x, q) ↦ elim (Bool-cases (can_transition x ExecutionStatus.paused)) [
    | inr p ↦ absurd (cc (rw (pause_workflow, q, p) at h))
    | inl p ↦ elim (Option-cases (signal_pause id e)) [
      | inl s ↦ absurd (cc (rw (pause_workflow, q, p, if◌then◌else◌, s) at h))
      | inr (e1, s) ↦
          let same = signal_pause-store id e e1 s in
          let next : Execution = record x { status = ExecutionStatus.paused } in
          let w = save-written e1 e' next y (rw (pause_workflow, q, p, if◌then◌else◌, s) at h) in
          record {
            before = x;
            next = next;
            read = q;
            status_set = refl;
            same_id = refl;
            same_version = refl;
            written = rw (sym same) w;
          }
    ]
  ]
]

cancel_workflow-Saved :
    (now : ℕ) (e e' : Engine) (id : String) (y : Execution)
    → cancel_workflow now e id ≡ ok (e', y)
    → Saved e e' id ExecutionStatus.cancelled y
unfolding cancel_workflow
cancel_workflow-Saved now e e' id y h = elim (Result-cases (get_execution e.store id)) [
  | inl (z, q) ↦ absurd (cc (rw (cancel_workflow, q) at h))
  | inr (x, q) ↦ elim (Bool-cases (execution_is_final x)) [
    | inl p ↦ absurd (cc (rw (cancel_workflow, q, p) at h))
    | inr p ↦
        let next : Execution = record x {
          status = ExecutionStatus.cancelled;
          finished_at = some now;
        } in
        let w =
          save-written (cancel_run id e) e' next y
            (rw (cancel_workflow, q, p, if◌then◌else◌) at h) in
        record {
          before = x;
          next = next;
          read = q;
          status_set = refl;
          same_id = refl;
          same_version = refl;
          written = rw (sym (cancel_run-store id e)) w;
        }
  ]
]

-- The status that the store holds for an execution.
abbrev pub Holds : MemoryStore → String → ExecutionStatus → Type 0
Holds s id status = (x : Execution) × (lookup id s.executions ≡ some x) × (x.status ≡ status)

Saved-Holds :
    (e e' : Engine) (id : String) (status : ExecutionStatus) (y : Execution)
    → Saved e e' id status y
    → Holds e'.store y.id status
Saved-Holds e e' id status y s =
    let raised = update_execution-raised e.store e'.store s.next y s.written in
    let (_, stores) = update_execution-stores e.store e'.store s.next y s.next.id s.written in
    let same : y.id ≡ s.next.id = ap (λ (x : Execution). x.id) raised in
    (
      y,
      rw same (ground (arith, eq_refl s.next.id)),
      ap (λ (x : Execution). x.status) raised ∙ s.status_set,
    )

-- An update of this execution is refused, for a later version is stored.
abbrev pub Refused : MemoryStore → Execution → Type 0
Refused s z =
    (v : ℕ) × (update_execution s z ≡ err (version_conflict z.id v z.version)) × (z.version < v)

Saved-conflict :
    (e e' : Engine) (id : String) (status : ExecutionStatus) (x y z : Execution) (cs : List Call)
    → Saved e e' id status y
    → get_execution e.store id ≡ ok x
    → z.id ≡ x.id
    → z.version ≡ x.version
    → Refused (run e'.store cs) z
Saved-conflict e e' id status x y z cs s q i l =
    let same : x ≡ s.before = cc (q, s.read) in
    update_execution-conflict e.store e'.store s.next y z cs s.written
      (i ∙ ap (λ (w : Execution). w.id) same ∙ sym s.same_id)
      (l ∙ ap (λ (w : Execution). w.version) same ∙ sym s.same_version)

-- A pause that succeeds leaves the execution stored as PAUSED, and whatever calls on the store
-- follow, the run that still holds the execution as it was before can save nothing over it: its
-- update is refused as a conflict with a later version.
pub pause_workflow-kept :
    (e e' : Engine) (id : String) (x y z : Execution) (cs : List Call)
    → pause_workflow e id ≡ ok (e', y)
    → get_execution e.store id ≡ ok x
    → z.id ≡ x.id
    → z.version ≡ x.version
    → Holds e'.store y.id ExecutionStatus.paused × Refused (run e'.store cs) z
pause_workflow-kept e e' id x y z cs h q i l =
    let s = pause_workflow-Saved e e' id y h in
    (
      Saved-Holds e e' id ExecutionStatus.paused y s,
      Saved-conflict e e' id ExecutionStatus.paused x y z cs s q i l,
    )

-- A cancellation that succeeds leaves the execution stored as CANCELLED, and whatever calls on the
-- store follow, an update by the run that still holds the execution as it was before is refused as
-- a conflict with a later version.
pub cancel_workflow-kept :
    (now : ℕ) (e e' : Engine) (id : String) (x y z : Execution) (cs : List Call)
    → cancel_workflow now e id ≡ ok (e', y)
    → get_execution e.store id ≡ ok x
    → z.id ≡ x.id
    → z.version ≡ x.version
    → Holds e'.store y.id ExecutionStatus.cancelled × Refused (run e'.store cs) z
cancel_workflow-kept now e e' id x y z cs h q i l =
    let s = cancel_workflow-Saved now e e' id y h in
    (
      Saved-Holds e e' id ExecutionStatus.cancelled y s,
      Saved-conflict e e' id ExecutionStatus.cancelled x y z cs s q i l,
    )
