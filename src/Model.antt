-- ===== src/Model.antt =====
-- workflow/pkg/model/model.go and status.go: the records and status enumerations that the engine,
-- the store and the scheduler share. Texts are `String`, JSON blobs are their raw text, instants are
-- numbers of ticks, and a nil pointer is `none`.
pub mod Status
pub mod Validity
pub use Status.*
use landc_go.Prelude.{
  ℕ, String, Bool, true, false, List, [], ◌∷◌, Option, Flags, marked, mark, ◌==◌, ◌||◌,
  if◌then◌else◌, ℤ,
}

pub record Node : Type 0 where
  pub id : String
  pub workflow_id : String
  pub name : String
  pub type : NodeType
  pub timeout : ℤ
  pub max_retries : ℤ
  pub retry_delay : ℤ
  pub retry_mode : String
  pub retry_max_delay : ℤ
  pub skip_on_failure : Bool
  pub config : String
  pub input_mapping : String
  pub output_mapping : String
  pub condition_expr : String
  pub order_no : ℤ

pub record Edge : Type 0 where
  pub id : String
  pub source_id : String
  pub target_id : String
  pub source_port : String
  pub target_port : String
  pub condition_expr : String
  pub label : String
  pub internal : Bool
  pub order_no : ℤ

pub record Workflow : Type 0 where
  pub id : String
  pub name : String
  pub description : String
  pub version : ℕ
  pub status : WorkflowStatus
  pub timeout : ℤ
  pub max_retries : ℤ
  pub nodes : List Node
  pub edges : List Edge

pub record Execution : Type 0 where
  pub id : String
  pub workflow_id : String
  pub workflow_name : String
  pub workflow_ver : ℕ
  pub trigger_type : TriggerType
  pub trigger_id : String
  pub status : ExecutionStatus
  pub input : Option String
  pub output : Option String
  pub current_node_id : String
  pub error : String
  pub timeout : ℤ
  pub expires_at : Option ℕ
  pub version : ℕ
  pub started_at : Option ℕ
  pub finished_at : Option ℕ
  pub created_at : ℕ

pub record Task : Type 0 where
  pub id : String
  pub execution_id : String
  pub node_id : String
  pub node_name : String
  pub node_type : NodeType
  pub status : TaskStatus
  pub input : Option String
  pub output : Option String
  pub error : String
  pub retry_count : ℕ
  pub max_retries : ℤ
  pub attempt_id : String
  pub worker_id : String
  pub scheduled_at : Option ℕ
  pub started_at : Option ℕ
  pub finished_at : Option ℕ
  pub created_at : ℕ

pub record Worker : Type 0 where
  pub id : String
  pub address : String
  pub group : String
  pub status : String
  pub heartbeat : ℕ
  pub started_at : ℕ

-- The loop of `Workflow.IsValid` over the nodes, with the map `seen`.
unfoldable pub ids_valid : Flags → List Node → Bool
ids_valid seen [] = true
ids_valid seen (n ∷ ns) =
    let rest = ids_valid (mark n.id seen) ns in
    if n.id == "" || marked n.id seen then false else rest

unfoldable pub is_valid : Workflow → Bool
unfolding ids_valid
is_valid w = elim w.nodes [
  | [] ↦ false
  | n ∷ ns ↦ if w.name == "" then false else ids_valid [] (n ∷ ns)
]

unfoldable pub execution_is_final : Execution → Bool
execution_is_final e = elim e.status [
  | ExecutionStatus.completed ↦ true
  | ExecutionStatus.failed ↦ true
  | ExecutionStatus.cancelled ↦ true
  | ExecutionStatus.timed_out ↦ true
  | _ ↦ false
]

unfoldable pub can_transition : Execution → ExecutionStatus → Bool
unfolding execution_is_final
can_transition e target = if execution_is_final e then false else elim e.status [
  | ExecutionStatus.pending ↦
      execution_status_eq target ExecutionStatus.running
      || execution_status_eq target ExecutionStatus.cancelled
  | ExecutionStatus.running ↦
      execution_status_eq target ExecutionStatus.completed
      || execution_status_eq target ExecutionStatus.failed
      || execution_status_eq target ExecutionStatus.paused
      || execution_status_eq target ExecutionStatus.cancelled
      || execution_status_eq target ExecutionStatus.timed_out
  | ExecutionStatus.paused ↦
      execution_status_eq target ExecutionStatus.running
      || execution_status_eq target ExecutionStatus.cancelled
  | _ ↦ false
]

unfoldable pub task_is_final : Task → Bool
task_is_final t = elim t.status [
  | TaskStatus.completed ↦ true
  | TaskStatus.failed ↦ true
  | TaskStatus.skipped ↦ true
  | TaskStatus.cancelled ↦ true
  | _ ↦ false
]
