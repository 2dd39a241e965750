-- ===== src/Examples/Samples.antt =====
-- The data of the examples: a workflow of two nodes and an edge, one with a cycle, and a run.
use landc_go.Model.{
  Node, Edge, Workflow, Execution, Task, NodeType, WorkflowStatus, ExecutionStatus, TaskStatus,
  TriggerType,
}
use landc_go.Dag.Graph.{DagGraph, build_root_nodes, raw_graph}
use landc_go.Store.Memory.{MemoryStore}
use landc_go.Engine.Node.{Env, Run, canceled, success}
use landc_go.Engine.Loop.{Signals}
use landc_go.Prelude.{List, String, [], false, none, pos, some, true, ℕ, ◌∷◌}

abbrev pub node : String → Node
node id = record {
  id = id;
  workflow_id = "w";
  name = id;
  type = NodeType.script;
  timeout = pos 0;
  max_retries = pos 0;
  retry_delay = pos 0;
  retry_mode = "";
  retry_max_delay = pos 0;
  skip_on_failure = false;
  config = "";
  input_mapping = "";
  output_mapping = "";
  condition_expr = "";
  order_no = pos 0;
}

abbrev pub edge : String → String → Edge
edge a b = record {
  id = a;
  source_id = a;
  target_id = b;
  source_port = "";
  target_port = "";
  condition_expr = "";
  label = "";
  internal = false;
  order_no = pos 0;
}

abbrev pub workflow : List Edge → Workflow
workflow es = record {
  id = "w";
  name = "orders";
  description = "";
  version = 1;
  status = WorkflowStatus.active;
  timeout = pos 0;
  max_retries = pos 0;
  nodes = node "a" ∷ node "b" ∷ [];
  edges = es;
}

abbrev pub chain : Workflow
chain = workflow (edge "a" "b" ∷ [])

abbrev pub ring : Workflow
ring = workflow (edge "a" "b" ∷ edge "b" "a" ∷ [])

abbrev pub chain_graph : DagGraph
chain_graph = build_root_nodes (raw_graph chain)

abbrev pub execution : ExecutionStatus → ℕ → Execution
execution status version = record {
  id = "x";
  workflow_id = "w";
  workflow_name = "orders";
  workflow_ver = 1;
  trigger_type = TriggerType.manual;
  trigger_id = "";
  status = status;
  input = none;
  output = none;
  current_node_id = "";
  error = "";
  timeout = pos 0;
  expires_at = none;
  version = version;
  started_at = none;
  finished_at = none;
  created_at = 0;
}

abbrev pub task : Task
task = record {
  id = "t";
  execution_id = "x";
  node_id = "a";
  node_name = "a";
  node_type = NodeType.script;
  status = TaskStatus.pending;
  input = none;
  output = none;
  error = "";
  retry_count = 0;
  max_retries = pos 0;
  attempt_id = "";
  worker_id = "";
  scheduled_at = some 5;
  started_at = none;
  finished_at = none;
  created_at = 0;
}

-- Every node has an executor, which succeeds.
abbrev pub env : Env
env = record {
  ctx_err = canceled;
  registered = λ type. true;
  outcome = λ n t. success (some "done");
  task_id = λ n. n.id;
  attempt_id = λ n. n.id;
  now = 10;
  mapping_keys = λ s. none;
  marshal = λ m. "";
  skipped_output = λ s. s;
}

abbrev pub quiet : Signals
quiet = record { cancelled = λ k. false; paused = λ k. false; node_cancelled = λ k n. false }

abbrev pub fresh : Run
fresh = record {
  store = record { workflows = []; executions = []; tasks = []; workers = [] };
  completed = [];
  task_map = [];
  variables = [];
  errors = [];
}

abbrev pub store : Execution → MemoryStore
store x = record {
  workflows = ("w", chain) ∷ [];
  executions = ("x", x) ∷ [];
  tasks = ("t", task) ∷ [];
  workers = [];
}
