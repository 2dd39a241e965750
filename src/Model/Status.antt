-- ===== src/Model/Status.antt =====
-- workflow/pkg/model/status.go: the enumerations, with the texts that Go gives their constants.
-- Go compares these types as texts, and so do the tests here.
use landc_go.Prelude.{String, Bool, ◌==◌}

pub data WorkflowStatus : Type 0 where
  active paused archived : WorkflowStatus

pub data ExecutionStatus : Type 0 where
  pending running paused completed failed cancelled timed_out : ExecutionStatus

pub data TaskStatus : Type 0 where
  pending running paused completed failed skipped cancelled retrying : TaskStatus

-- A workflow may name a type of its own, for an executor registered under that text: `other`.
pub data NodeType : Type 0 where
  http grpc script sub_workflow condition parallel switch delay callback custom : NodeType
  input output human_input : NodeType
  other : String → NodeType

pub data TriggerType : Type 0 where
  manual schedule event api sub_workflow : TriggerType

abbrev pub workflow_status_text : WorkflowStatus → String
workflow_status_text WorkflowStatus.active = "ACTIVE"
workflow_status_text WorkflowStatus.paused = "PAUSED"
workflow_status_text WorkflowStatus.archived = "ARCHIVED"

abbrev pub execution_status_text : ExecutionStatus → String
execution_status_text ExecutionStatus.pending = "PENDING"
execution_status_text ExecutionStatus.running = "RUNNING"
execution_status_text ExecutionStatus.paused = "PAUSED"
execution_status_text ExecutionStatus.completed = "COMPLETED"
execution_status_text ExecutionStatus.failed = "FAILED"
execution_status_text ExecutionStatus.cancelled = "CANCELLED"
execution_status_text ExecutionStatus.timed_out = "TIMEOUT"

abbrev pub task_status_text : TaskStatus → String
task_status_text TaskStatus.pending = "PENDING"
task_status_text TaskStatus.running = "RUNNING"
task_status_text TaskStatus.paused = "PAUSED"
task_status_text TaskStatus.completed = "COMPLETED"
task_status_text TaskStatus.failed = "FAILED"
task_status_text TaskStatus.skipped = "SKIPPED"
task_status_text TaskStatus.cancelled = "CANCELLED"
task_status_text TaskStatus.retrying = "RETRYING"

abbrev pub node_type_text : NodeType → String
node_type_text NodeType.http = "HTTP"
node_type_text NodeType.grpc = "GRPC"
node_type_text NodeType.script = "SCRIPT"
node_type_text NodeType.sub_workflow = "SUB_WORKFLOW"
node_type_text NodeType.condition = "CONDITION"
node_type_text NodeType.parallel = "PARALLEL"
node_type_text NodeType.switch = "SWITCH"
node_type_text NodeType.delay = "DELAY"
node_type_text NodeType.callback = "CALLBACK"
node_type_text NodeType.custom = "CUSTOM"
node_type_text NodeType.input = "INPUT"
node_type_text NodeType.output = "OUTPUT"
node_type_text NodeType.human_input = "HUMAN_INPUT"
node_type_text (NodeType.other s) = s

abbrev pub workflow_status_eq : WorkflowStatus → WorkflowStatus → Bool
workflow_status_eq s t = workflow_status_text s == workflow_status_text t

abbrev pub execution_status_eq : ExecutionStatus → ExecutionStatus → Bool
execution_status_eq s t = execution_status_text s == execution_status_text t

abbrev pub task_status_eq : TaskStatus → TaskStatus → Bool
task_status_eq s t = task_status_text s == task_status_text t

abbrev pub node_type_eq : NodeType → NodeType → Bool
node_type_eq s t = node_type_text s == node_type_text t
