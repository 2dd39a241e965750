-- ===== src/Scheduler.antt =====
-- workflow/pkg/scheduler/scheduler.go: the worker that polls the store for due tasks. The service
-- registry of etcd is a parameter with a state `R`; the store is the one in memory. A goroutine of a
-- loop is a flag, and a tick of its timer is a call.
pub mod Beats
pub mod Dispatch
pub mod Reload
use landc_go.Registry.{ServiceInstance, Registry}
use landc_go.Model.{
  Task, Worker, ExecutionStatus, TaskStatus, execution_is_final, execution_status_eq,
}
use landc_go.Store.Memory.{
  MemoryStore, register_worker, update_worker_heartbeat, remove_dead_workers, get_pending_tasks,
  get_execution, update_task,
}
use landc_go.Prelude.{
  Bool, List, Map, Option, String, [], err, false, if◌then◌else◌, none, ok, pos, some, true, ℕ, ℤ,
  ◌==◌, ◌||◌, ◌∷◌,
}

-- Durations are in seconds.
pub record SchedulerConfig : Type 0 where
  pub poll_interval : ℕ
  pub batch_size : ℤ
  pub heartbeat_interval : ℕ
  pub dead_worker_timeout : ℕ
  pub task_lock_ttl : ℕ
  pub enable_auto_remove : Bool
  pub service_name : String
  pub service_port : ℤ

unfoldable pub default_scheduler_config : SchedulerConfig
default_scheduler_config = record {
  poll_interval = 2;
  batch_size = pos 20;
  heartbeat_interval = 10;
  dead_worker_timeout = 30;
  task_lock_ttl = 60;
  enable_auto_remove = true;
  service_name = "workflow-worker";
  service_port = pos 0;
}

pub record Scheduler (R : Type 0) : Type 0 where
  pub etcd_reg : Option (Registry R)
  pub worker_id : String
  pub worker_grp : String
  pub address : String
  pub running : Bool
  pub heartbeating : Bool
  pub polling : Bool
  pub cleaning : Bool
  pub config : SchedulerConfig

pub data StartError : Type 0 where
  already_running : StartError
  register_failed : (cause : String) → StartError

module _ {R : Type 0} where
  -- `fresh` is the identifier that Go makes of the clock where none is given.
  unfoldable pub new_scheduler :
      String
      → Option (Registry R)
      → (worker_id group address : String) → SchedulerConfig
      → Scheduler R
  new_scheduler fresh reg worker_id group address config = record {
    etcd_reg = reg;
    worker_id = if worker_id == "" then fresh else worker_id;
    worker_grp = group;
    address = address;
    running = false;
    heartbeating = false;
    polling = false;
    cleaning = false;
    config = config;
  }

  abbrev pub instance_of : Scheduler R → ServiceInstance
  instance_of s = record {
    id = s.worker_id;
    name = s.config.service_name;
    version = "";
    address = s.address;
    port = s.config.service_port;
    metadata = ("group", s.worker_grp) ∷ ("type", "workflow-worker") ∷ [];
    weight = pos 1;
  }

  abbrev pub worker_of : ℕ → Scheduler R → Worker
  worker_of now s = record {
    id = s.worker_id;
    address = s.address;
    group = s.worker_grp;
    status = "ACTIVE";
    heartbeat = now;
    started_at = now;
  }

  abbrev pub loops_started : Scheduler R → Scheduler R
  loops_started s = record s {
    running = true;
    polling = true;
    cleaning = s.config.enable_auto_remove;
  }

  unfoldable pub start :
      ℕ → Scheduler R → R → MemoryStore → Scheduler R × R × MemoryStore × Option StartError
  unfolding register_worker
  start now s reg store =
      if s.running then (s, reg, store, some already_running) else elim s.etcd_reg [
        | some etcd ↦
            let (reg', failure) = etcd.register (instance_of s) reg in
            elim failure [
              | some e ↦ (record s { running = false }, reg', store, some (register_failed e))
              | none ↦ (loops_started s, reg', store, none)
            ]
        | none ↦ (
          loops_started (record s { heartbeating = true }),
          reg,
          register_worker store (worker_of now s),
          none,
        )
      ]

  -- The loops end before `Stop` goes on; a failure of the registry is only logged.
  unfoldable pub stop : Scheduler R → R → Scheduler R × R
  stop s reg =
      let ended : Scheduler R = record s {
        running = false;
        heartbeating = false;
        polling = false;
        cleaning = false;
      } in
      if s.running
      then (elim s.etcd_reg [
        | none ↦ (ended, reg)
        | some etcd ↦
            let instance' : ServiceInstance = record {
              id = s.worker_id;
              name = s.config.service_name;
              version = "";
              address = s.address;
              port = pos 0;
              metadata = [];
              weight = pos 0;
            } in
            (ended, (etcd.deregister instance' reg).0)
      ])
      else (s, reg)

-- A tick of the heartbeat loop; Go ignores the error.
unfoldable pub beat : String → ℕ → MemoryStore → MemoryStore
unfolding update_worker_heartbeat
beat id now store = elim (update_worker_heartbeat now store id) [ err _ ↦ store | ok s ↦ s ]

unfoldable pub cleanup : SchedulerConfig → ℕ → MemoryStore → MemoryStore
unfolding remove_dead_workers
cleanup config now store = remove_dead_workers now store config.dead_worker_timeout

abbrev pub skipped_task : Task → Task
skipped_task t = record t { status = TaskStatus.skipped }

-- What the dispatch of a task finds: its execution has ended or is paused.
unfoldable pub is_stopped : MemoryStore → Task → Bool
unfolding get_execution execution_is_final
is_stopped store t = elim (get_execution store t.execution_id) [
  | err _ ↦ false
  | ok e ↦ execution_is_final e || execution_status_eq e.status ExecutionStatus.paused
]

unfoldable pub dispatch_task : MemoryStore → Task → MemoryStore
unfolding is_stopped update_task
dispatch_task store t =
    if is_stopped store t
    then (elim (update_task store (skipped_task t)) [ err _ ↦ store | ok s ↦ s ])
    else store

-- The dispatches of a poll, in the order in which they run. Each runs in a goroutine of its own; what
-- it reads, the executions, none of them writes, so it is one step.
unfoldable pub dispatch_all : MemoryStore → List Task → MemoryStore
unfolding dispatch_task
dispatch_all store [] = store
dispatch_all store (t ∷ ts) = dispatch_all (dispatch_task store t) ts

unfoldable pub poll_and_dispatch : SchedulerConfig → ℕ → MemoryStore → MemoryStore
unfolding get_pending_tasks dispatch_all
poll_and_dispatch config now store =
    dispatch_all store (get_pending_tasks store now config.batch_size)
