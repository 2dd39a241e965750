-- ===== src/Examples/Schedules.antt =====
-- The scheduler: examples.
use landc_go.Model.{Worker, ExecutionStatus}
use landc_go.Store.Memory.{MemoryStore, get_pending_tasks, list_active_workers}
use landc_go.Scheduler.{SchedulerConfig, Scheduler, start, is_stopped, worker_of, poll_and_dispatch}
use landc_go.Scheduler.Beats.{Tick, beats, cleans, polls, starts, Steady, run_ticks, start-stays}
use landc_go.Scheduler.Reload.{loaded, poll_and_dispatch-unready}
use landc_go.Dag.Graph.{get_ready_nodes}
use landc_go.Examples.Samples.{execution, store, task, node, chain_graph}
use landc_go.Prelude.{
  All, In, List, [], arith, false, inl, lookup, none, pos, refl, some, true, ℕ, ◌∷◌, ◌≡◌, ◌≢◌,
  apart,
}

abbrev config : SchedulerConfig
config = record {
  poll_interval = 2;
  batch_size = pos 20;
  heartbeat_interval = 10;
  dead_worker_timeout = 30;
  task_lock_ttl = 60;
  enable_auto_remove = true;
  service_name = "workflow-worker";
  service_port = pos 0;
}

abbrev paused : MemoryStore
paused = store (execution ExecutionStatus.paused 2)

due : get_pending_tasks paused 6 (pos 20) ≡ task ∷ []
unfolding get_pending_tasks
due = refl

held : All (λ u. lookup u.id paused.tasks ≡ some u) (get_pending_tasks paused 6 config.batch_size)
unfolding landc_go.Prelude.lookup
held = rw due (refl, tt)

task_stopped : is_stopped paused task ≡ true
unfolding is_stopped landc_go.Prelude.lookup
task_stopped = refl

ready : In (node "b") (get_ready_nodes chain_graph (loaded (poll_and_dispatch config 6 paused) "x"))
unfolding poll_and_dispatch get_ready_nodes landc_go.Dag.Graph.build_root_nodes
    landc_go.Dag.Graph.raw_graph landc_go.Prelude.marked landc_go.Engine.Execute.reload
    landc_go.Store.Memory.list_tasks landc_go.Prelude.insert landc_go.Prelude.mark
ready = inl refl

poll_and_dispatch-unready_example : (node "b").id ≢ task.node_id
poll_and_dispatch-unready_example =
    poll_and_dispatch-unready config 6 paused task chain_graph (node "b") held (rw due (inl refl))
      task_stopped ready

abbrev scheduler : Scheduler Unit
scheduler = record {
  etcd_reg = none;
  worker_id = "one";
  worker_grp = "g";
  address = "host";
  running = false;
  heartbeating = false;
  polling = false;
  cleaning = false;
  config = config;
}

abbrev other : Worker
other = record (worker_of 15 scheduler) { id = "two"; group = "h" }

abbrev ticks : List Tick
ticks = starts other ∷ beats "two" 18 ∷ beats "one" 20 ∷ polls config 30 ∷ cleans config 45 ∷ []

steady : Steady "one" 10 ticks
steady = (apart "two" "one" refl, (omega arith, tt))

start-stays_example :
    (last : ℕ) × In
      (record (worker_of 10 scheduler) { heartbeat = last })
      (list_active_workers (run_ticks ticks (start 10 scheduler tt paused).2) "g")
start-stays_example = start-stays scheduler 10 tt paused ticks refl refl steady
