-- ===== src/Engine/Node.antt =====
-- workflow/pkg/engine/engine.go, `executeNode` and `handleNodeFailure`, with `GetInput` and
-- `SetNodeOutput` of context.go. Left out, since they change nothing that is decided here: the
-- observers, the log, the trace spans, the debug breakpoints and the event channels.
use landc_go.Model.{Node, Workflow, Execution, Task, TaskStatus, node_type_text, task_is_final}
use landc_go.Store.Memory.{MemoryStore, StoreError, create_task, update_task}
use landc_go.Prelude.{
  Bool, Flags, List, Map, Option, Result, String, [], err, if◌then◌else◌, insert, lookup, map, mark,
  none, not, ok, select, some, ℕ, ◌&&◌, ◌++◌, ◌==◌, ◌∷◌, append_text,
}

-- The answer of a node's executor behind its retries: a response with `Success`, or an error, which
-- may be or wrap `context.Canceled`, as `errors.Is` tells.
pub data Outcome : Type 0 where
  success : (output : Option String) → Outcome
  failure : (is_canceled : Bool) (message : String) → Outcome

-- What `ctx.Err()` answers once the context is done.
pub data ContextError : Type 0 where
  canceled deadline_exceeded : ContextError

pub data NodeError : Type 0 where
  context_error : ContextError → NodeError
  no_executor : (type : String) → NodeError
  execution_failed : (is_canceled : Bool) (message : String) → NodeError

-- What the engine takes from outside: why the context is done if it is, the registry of executors
-- and their answers, the ids that
-- `generate.UUID` draws for the task of a node, the clock, and the JSON library.
pub record Env : Type 0 where
  pub ctx_err : ContextError
  pub registered : String → Bool
  pub outcome : Node → Task → Outcome
  pub task_id : Node → String
  pub attempt_id : Node → String
  pub now : ℕ
  pub mapping_keys : String → Option (List String)
  pub marshal : Map String → String
  pub skipped_output : String → String

-- What the executions of the nodes share: the store, `completedNodes`, `taskMap`, the outputs
-- (`Variables`) and the errors waiting in `errCh`, the oldest first.
pub record Run : Type 0 where
  pub store : MemoryStore
  pub completed : Flags
  pub task_map : Map Task
  pub variables : Map (Option String)
  pub errors : List NodeError

-- The entries of `Variables` for these ids; a nil output is written as an empty text.
unfoldable pub outputs_of : Map (Option String) → List String → Map String
unfolding lookup insert
outputs_of vars [] = []
outputs_of vars (k ∷ ks) = elim (lookup k vars) [
  | none ↦ outputs_of vars ks
  | some none ↦ insert k "" (outputs_of vars ks)
  | some (some v) ↦ insert k v (outputs_of vars ks)
]

abbrev pub upstream_ids : Workflow → String → List String
upstream_ids w id =
    map (λ e. e.source_id) (select (λ e. (e.target_id == id) && not e.internal) w.edges)

-- The default branch of `GetInput`.
unfoldable pub upstream_input :
    Env → Workflow → Execution → Map (Option String) → Node → Option String
unfolding outputs_of
upstream_input env w x vars n = elim (outputs_of vars (upstream_ids w n.id)) [
  | [] ↦ x.input
  | o ∷ os ↦ some (env.marshal (o ∷ os))
]

unfoldable pub get_input : Env → Workflow → Execution → Map (Option String) → Node → Option String
unfolding upstream_input outputs_of
get_input env w x vars n =
    if n.input_mapping == ""
    then upstream_input env w x vars n
    else elim (env.mapping_keys n.input_mapping) [
      | none ↦ upstream_input env w x vars n
      | some ks ↦ some (env.marshal (outputs_of vars ks))
    ]

abbrev pub stored : MemoryStore → Result StoreError MemoryStore → MemoryStore
stored s (ok t) = t
stored s (err x) = s

-- `UpdateTask`, whose error Go drops. The task is shared with `taskMap`.
unfoldable pub put_task : Node → Task → Run → Run
put_task n t r = record r {
  store = stored r.store (update_task r.store t);
  task_map = insert n.id t r.task_map;
}

unfoldable pub complete : Node → Run → Run
complete n r = record r { completed = mark n.id r.completed }

unfoldable pub send_error : NodeError → Run → Run
send_error x r = record r { errors = r.errors ++ x ∷ [] }

abbrev pub error_text : NodeError → String
error_text (context_error canceled) = "context canceled"
error_text (context_error deadline_exceeded) = "context deadline exceeded"
error_text (no_executor type) = append_text "no executor for type: " type
error_text (execution_failed is_canceled message) = message

unfoldable pub handle_node_failure : Node → Task → NodeError → Run → Run
unfolding put_task send_error
handle_node_failure n t x r =
    send_error x (put_task n (record t { status = TaskStatus.failed; error = error_text x }) r)

-- Behind the executor's answer: `SkipOnFailure`, failure, success.
unfoldable pub finish_task : Env → Node → Task → Outcome → Run → Run
unfolding put_task complete handle_node_failure
finish_task env n t (failure is_canceled message) r =
    if n.skip_on_failure
    then complete n (
        put_task n
          (record t { status = TaskStatus.skipped; error = message; finished_at = some env.now })
          (record r { variables = insert n.id (some (env.skipped_output message)) r.variables }))
    else handle_node_failure n (record t { finished_at = some env.now })
        (execution_failed is_canceled message) r
finish_task env n t (success output) r = complete n (
    put_task n
      (record t { status = TaskStatus.completed; output = output; finished_at = some env.now })
      (record r { variables = insert n.id output r.variables }))

abbrev pub start_task : Env → Task → Task
start_task env t = record t {
  status = TaskStatus.running;
  started_at = some env.now;
  worker_id = "local";
}

unfoldable pub run_task : Env → Node → Task → Run → Run
unfolding put_task finish_task handle_node_failure
run_task env n t r =
    let started = start_task env t in
    let r' = put_task n started r in
    if env.registered (node_type_text n.type)
    then finish_task env n started (env.outcome n started) r'
    else handle_node_failure n started (no_executor (node_type_text n.type)) r'

abbrev pub new_task : Env → Workflow → Execution → Node → Run → Task
new_task env w x n r = record {
  id = env.task_id n;
  execution_id = x.id;
  node_id = n.id;
  node_name = n.name;
  node_type = n.type;
  status = TaskStatus.pending;
  input = get_input env w x r.variables n;
  output = none;
  error = "";
  retry_count = 0;
  max_retries = n.max_retries;
  attempt_id = env.attempt_id n;
  worker_id = "";
  scheduled_at = none;
  started_at = none;
  finished_at = none;
  created_at = env.now;
}

-- `ctx_done`: whether the context is done when the node starts.
unfoldable pub execute_node : Env → Workflow → Execution → Bool → Node → Run → Run
unfolding run_task complete send_error create_task get_input
execute_node env w x ctx_done n r =
    if ctx_done then send_error (context_error env.ctx_err) r else elim (lookup n.id r.task_map) [
      | some t ↦ if task_is_final t then complete n r else run_task env n t r
      | none ↦
          let t = new_task env w x n r in
          run_task env n t
            (record r { store = create_task r.store t; task_map = insert n.id t r.task_map })
    ]
