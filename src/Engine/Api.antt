-- ===== src/Engine/Api.antt =====
-- workflow/pkg/engine/engine.go: the calls on the engine and `executeWorkflow`, over the store in
-- memory and the idempotency checker in memory. A call that starts a goroutine hands back what the
-- goroutine then runs. Left out: the observers, the log, the trace spans and the event channels.
use landc_go.Model.{
  Workflow, Execution, WorkflowStatus, ExecutionStatus, TriggerType, workflow_status_eq,
  execution_status_eq, can_transition, execution_is_final,
}
use landc_go.Store.Memory.{
  MemoryStore, StoreError, get_workflow, get_execution, create_execution, update_execution,
  get_execution_by_trigger_id,
}
use landc_go.Dag.Graph.{DagError}
use landc_go.Engine.Node.{Env}
use landc_go.Engine.Loop.{}
use landc_go.Idempotent.{Checker, is_processed, mark_processed}
use landc_go.Prelude.{
  Bool, Map, Option, Result, String, err, false, if◌then◌else◌, insert, lookup, ltb_ℤ, none, not,
  ok, pos, some, to_ℕ, true, ℕ, ℤ, ◌&&◌, ◌+◌, ◌==◌,
}

-- An entry of `running`: whether its context is cancelled, and its pause channel, which is nil until
-- `executeDAG` makes it, and then open (`some false`) or closed (`some true`).
pub record Running : Type 0 where
  pub cancelled : Bool
  pub pause : Option Bool

pub record Engine : Type 0 where
  pub store : MemoryStore
  pub checker : Checker
  pub running : Map Running

-- What the calls take from outside: the clock, the ids of `generate.UUID`, the digest of the
-- idempotency key, the two settings, and the text of a construction error.
pub record Context : Type 0 where
  pub env : Env
  pub execution_id : String
  pub key_of : String → String → String
  pub default_timeout : ℤ
  pub idempotency_ttl : ℕ
  pub dag_error_text : DagError → String

pub data ApiError : Type 0 where
  from_store : StoreError → ApiError
  not_active : WorkflowStatus → ApiError
  bad_transition not_paused already_final : ExecutionStatus → ApiError
  closes_nil_channel : ApiError

-- The run that a goroutine is started on, if any, and the id that the caller gets.
pub record Started : Type 0 where
  pub id : String
  pub run : Option (Execution × Workflow)

unfoldable pub signal_pause : String → Engine → Option Engine
signal_pause id e = elim (lookup id e.running) [
  | none ↦ some e
  | some r ↦ elim r.pause [
    | none ↦ none
    | some _ ↦ some (record e { running = insert id (record r { pause = some true }) e.running })
  ]
]

unfoldable pub signal_resume : String → Engine → Engine
signal_resume id e = elim (lookup id e.running) [
  | none ↦ e
  | some r ↦ record e { running = insert id (record r { pause = some false }) e.running }
]

unfoldable pub init_pause_signal : String → Engine → Engine
init_pause_signal id e = elim (lookup id e.running) [
  | none ↦ e
  | some r ↦ elim r.pause [
    | none ↦ record e { running = insert id (record r { pause = some false }) e.running }
    | some _ ↦ e
  ]
]

abbrev pub with_default : ℤ → ℤ → ℤ
with_default default timeout =
    if not (ltb_ℤ (pos 0) timeout) && ltb_ℤ (pos 0) default then default else timeout

unfoldable pub new_execution : Context → Workflow → Option String → TriggerType → String → Execution
new_execution c w input trigger_type trigger_id =
    let timeout = with_default c.default_timeout w.timeout in
    record {
      id = c.execution_id;
      workflow_id = w.id;
      workflow_name = w.name;
      workflow_ver = w.version;
      trigger_type = trigger_type;
      trigger_id = trigger_id;
      status = ExecutionStatus.pending;
      input = input;
      output = none;
      current_node_id = "";
      error = "";
      timeout = timeout;
      expires_at = if ltb_ℤ (pos 0) timeout then some (c.env.now + to_ℕ timeout) else none;
      version = 1;
      started_at = none;
      finished_at = none;
      created_at = 0;
    }

-- The idempotency test in front of `StartWorkflow`: the execution that the trigger already has.
unfoldable pub already_started : Context → Engine → String → String → Engine × Option Execution
unfolding is_processed get_execution_by_trigger_id
already_started c e workflow_id trigger_id =
    if trigger_id == ""
    then (e, none)
    else let (checker, processed) =
        is_processed c.env.now (c.key_of workflow_id trigger_id) e.checker in
      (
        record e { checker = checker },
        if processed then get_execution_by_trigger_id e.store workflow_id trigger_id else none,
      )

unfoldable pub launch :
    Context
    → Engine
    → String
    → Workflow
    → Option String
    → TriggerType
    → String
    → Result ApiError (Engine × Started)
unfolding create_execution new_execution mark_processed
launch c e workflow_id w input trigger_type trigger_id =
    if not (workflow_status_eq w.status WorkflowStatus.active)
    then err (not_active w.status)
    else let x = new_execution c w input trigger_type trigger_id in
      elim (create_execution e.store x) [
        | err z ↦ err (from_store z)
        | ok s ↦ ok (
          record {
            store = s;
            checker =
                if trigger_id == ""
                then e.checker
                else mark_processed c.env.now (c.key_of workflow_id trigger_id) c.idempotency_ttl
                    e.checker;
            running = insert x.id (record { cancelled = false; pause = none }) e.running;
          },
          record { id = x.id; run = some (x, w) },
        )
      ]

unfoldable pub start_workflow :
    Context
    → Engine
    → String
    → Option String
    → TriggerType
    → String
    → Result ApiError (Engine × Started)
unfolding already_started get_workflow launch
start_workflow c e workflow_id input trigger_type trigger_id =
    let (e', found) = already_started c e workflow_id trigger_id in
    elim found [
      | some x ↦ ok (e', record { id = x.id; run = none })
      | none ↦ elim (get_workflow e'.store workflow_id) [
        | err z ↦ err (from_store z)
        | ok w ↦ launch c e' workflow_id w input trigger_type trigger_id
      ]
    ]

-- `UpdateExecution` of a changed copy.
abbrev pub save : Engine → Execution → Result ApiError (Engine × Execution)
save e x = elim (update_execution e.store x) [
  | err z ↦ err (from_store z)
  | ok (s, y) ↦ ok (record e { store = s }, y)
]

unfoldable pub pause_workflow : Engine → String → Result ApiError (Engine × Execution)
unfolding get_execution can_transition signal_pause update_execution
pause_workflow e id = elim (get_execution e.store id) [
  | err z ↦ err (from_store z)
  | ok x ↦
      if can_transition x ExecutionStatus.paused
      then elim (signal_pause id e) [
        | none ↦ err closes_nil_channel
        | some e' ↦ save e' (record x { status = ExecutionStatus.paused })
      ]
      else err (bad_transition x.status)
]

unfoldable pub resume_workflow : Engine → String → Result ApiError (Engine × Started)
unfolding get_execution get_workflow signal_resume update_execution
resume_workflow e id = elim (get_execution e.store id) [
  | err z ↦ err (from_store z)
  | ok x ↦
      if execution_status_eq x.status ExecutionStatus.paused
      then elim (get_workflow e.store x.workflow_id) [
        | err z ↦ err (from_store z)
        | ok w ↦ elim (save (signal_resume id e) (record x { status = ExecutionStatus.running })) [
          | err z ↦ err z
          | ok (e', y) ↦ ok (
            record e' {
              running = insert y.id (record { cancelled = false; pause = some false }) e'.running;
            },
            record { id = y.id; run = some (y, w) },
          )
        ]
      ]
      else err (not_paused x.status)
]

abbrev pub cancel_run : String → Engine → Engine
cancel_run id e = elim (lookup id e.running) [
  | none ↦ e
  | some r ↦ record e { running = insert id (record r { cancelled = true }) e.running }
]

unfoldable pub cancel_workflow : ℕ → Engine → String → Result ApiError (Engine × Execution)
unfolding get_execution execution_is_final update_execution
cancel_workflow now e id = elim (get_execution e.store id) [
  | err z ↦ err (from_store z)
  | ok x ↦
      if execution_is_final x
      then err (already_final x.status)
      else save (cancel_run id e)
          (record x { status = ExecutionStatus.cancelled; finished_at = some now })
]
