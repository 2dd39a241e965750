-- ===== src/Store/Memory.antt =====
-- workflow/pkg/store/memory_store.go: the four maps and every operation on them. Go locks the store
-- for each operation, so an operation is one step; it copies what it takes in and hands out, so
-- values are enough. The instant of a call (`time.Now()`) is an argument, in seconds.
use landc_go.Model.{Workflow, Execution, Task, Worker, TaskStatus, task_status_eq}
use landc_go.Prelude.{
  keys, Bool, List, Map, Option, Result, String, [], any, drop, eqb, err, if◌then◌else◌, insert,
  length, lookup, ltb, ltb_ℤ, none, not, ok, pos, select, some, sort_slice, take, to_ℕ, true,
  values, ℕ, ℤ, ◌&&◌, ◌+◌, ◌-◌, ◌==◌, ◌||◌, ◌∷◌, text_less,
}

pub record MemoryStore : Type 0 where
  pub workflows : Map Workflow
  pub executions : Map Execution
  pub tasks : Map Task
  pub workers : Map Worker

-- workflow/pkg/store/store.go
pub data StoreError : Type 0 where
  not_found : (id type : String) → StoreError
  version_conflict : (id : String) (current expect : ℕ) → StoreError
  duplicate_trigger_id : (workflow_id trigger_id : String) → StoreError

unfoldable pub new_memory_store : MemoryStore
new_memory_store = record { workflows = []; executions = []; tasks = []; workers = [] }

unfoldable pub create_workflow : MemoryStore → Workflow → Result StoreError MemoryStore
create_workflow s w = elim (lookup w.id s.workflows) [
  | some _ ↦ err (duplicate_trigger_id w.id "")
  | none ↦ ok (record s { workflows = insert w.id w s.workflows })
]

unfoldable pub update_workflow : MemoryStore → Workflow → Result StoreError MemoryStore
update_workflow s w = elim (lookup w.id s.workflows) [
  | none ↦ err (not_found w.id "workflow")
  | some _ ↦ ok (record s { workflows = insert w.id w s.workflows })
]

unfoldable pub get_workflow : MemoryStore → String → Result StoreError Workflow
get_workflow s id = elim (lookup id s.workflows) [
  | none ↦ err (not_found id "workflow")
  | some w ↦ ok w
]

-- The window `list[offset:end]` of the listings: a limit that is not positive means no limit. A
-- negative offset, at which Go panics, is left out.
unfoldable pub window {ℓ} : {A : Type ℓ} → ℕ → ℤ → List A → List A
window offset limit xs =
    let start = if ltb (length xs) offset then length xs else offset in
    let stop =
      if ltb_ℤ (pos 0) limit
      then (if ltb (length xs) (start + to_ℕ limit) then length xs else start + to_ℕ limit)
      else length xs in
    take (stop - start) (drop start xs)

-- The workflows of a list of ids.
unfoldable pub fetch : Map Workflow → List String → List Workflow
unfolding lookup
fetch m [] = []
fetch m (k ∷ ks) = elim (lookup k m) [ none ↦ fetch m ks | some w ↦ w ∷ fetch m ks ]

unfoldable pub list_workflows : MemoryStore → ℕ → ℤ → List Workflow × ℕ
unfolding window fetch sort_slice
list_workflows s offset limit =
    let ids = sort_slice text_less (keys s.workflows) in
    (fetch s.workflows (window offset limit ids), length ids)

unfoldable pub create_execution : MemoryStore → Execution → Result StoreError MemoryStore
create_execution s e = elim (lookup e.id s.executions) [
  | some _ ↦ err (duplicate_trigger_id e.workflow_id e.trigger_id)
  | none ↦ ok (record s { executions = insert e.id e s.executions })
]

-- The optimistic lock. The second component is the caller's execution, whose version Go raises.
unfoldable pub update_execution :
    MemoryStore → Execution → Result StoreError (MemoryStore × Execution)
update_execution s e = elim (lookup e.id s.executions) [
  | none ↦ err (not_found e.id "execution")
  | some existing ↦
      let next : Execution = record e { version = e.version + 1 } in
      if eqb existing.version e.version
      then ok (record s { executions = insert e.id next s.executions }, next)
      else err (version_conflict e.id existing.version e.version)
]

unfoldable pub get_execution : MemoryStore → String → Result StoreError Execution
get_execution s id = elim (lookup id s.executions) [
  | none ↦ err (not_found id "execution")
  | some e ↦ ok e
]

unfoldable pub list_executions : MemoryStore → String → ℕ → ℤ → List Execution × ℕ
unfolding window sort_slice
list_executions s workflow_id offset limit =
    let found =
      sort_slice (λ (a b : Execution). ltb b.created_at a.created_at)
        (select (λ e. (workflow_id == "") || (e.workflow_id == workflow_id))
          (values s.executions)) in
    (window offset limit found, length found)

unfoldable pub first_match {ℓ} : {A : Type ℓ} → (A → Bool) → List A → Option A
first_match p [] = none
first_match p (x ∷ xs) = if p x then some x else first_match p xs

unfoldable pub get_execution_by_trigger_id : MemoryStore → String → String → Option Execution
unfolding first_match
get_execution_by_trigger_id s workflow_id trigger_id =
    first_match (λ e. (e.workflow_id == workflow_id) && (e.trigger_id == trigger_id))
      (values s.executions)

unfoldable pub create_task : MemoryStore → Task → MemoryStore
create_task s t = record s { tasks = insert t.id t s.tasks }

unfoldable pub update_task : MemoryStore → Task → Result StoreError MemoryStore
update_task s t = elim (lookup t.id s.tasks) [
  | none ↦ err (not_found t.id "task")
  | some _ ↦ ok (record s { tasks = insert t.id t s.tasks })
]

unfoldable pub get_task : MemoryStore → String → Result StoreError Task
get_task s id = elim (lookup id s.tasks) [ none ↦ err (not_found id "task") | some t ↦ ok t ]

abbrev pub by_created_at : Task → Task → Bool
by_created_at a b = ltb a.created_at b.created_at

unfoldable pub list_tasks : MemoryStore → String → List Task
unfolding sort_slice
list_tasks s exec_id =
    sort_slice by_created_at (select (λ t. t.execution_id == exec_id) (values s.tasks))

-- `if limit > 0 && len(list) > limit { list = list[:limit] }`
unfoldable pub truncate {ℓ} : {A : Type ℓ} → ℤ → List A → List A
truncate limit xs =
    if ltb_ℤ (pos 0) limit && ltb (to_ℕ limit) (length xs) then take (to_ℕ limit) xs else xs

unfoldable pub list_tasks_by_status : MemoryStore → TaskStatus → ℤ → List Task
unfolding truncate sort_slice
list_tasks_by_status s status limit =
    truncate limit
      (sort_slice by_created_at (select (λ t. task_status_eq t.status status) (values s.tasks)))

unfoldable pub is_due : ℕ → Task → Bool
is_due now t =
    task_status_eq t.status TaskStatus.pending
    && (elim t.scheduled_at [ none ↦ true | some at ↦ ltb at now || eqb at now ])

unfoldable pub get_pending_tasks : MemoryStore → ℕ → ℤ → List Task
unfolding truncate sort_slice is_due
get_pending_tasks s now limit =
    truncate limit (sort_slice by_created_at (select (is_due now) (values s.tasks)))

unfoldable pub is_open_dependency : String → List String → Task → Bool
is_open_dependency exec_id deps t =
    (t.execution_id == exec_id)
    && any (λ d. t.node_id == d) deps
    && not (task_status_eq t.status TaskStatus.completed)
    && not (task_status_eq t.status TaskStatus.skipped)

unfoldable pub count_pending_dependencies : MemoryStore → String → List String → ℕ
unfolding is_open_dependency
count_pending_dependencies s exec_id [] = 0
count_pending_dependencies s exec_id (d ∷ deps) =
    length (select (is_open_dependency exec_id (d ∷ deps)) (values s.tasks))

unfoldable pub register_worker : MemoryStore → Worker → MemoryStore
register_worker s w = record s { workers = insert w.id w s.workers }

unfoldable pub update_worker_heartbeat : ℕ → MemoryStore → String → Result StoreError MemoryStore
update_worker_heartbeat now s id = elim (lookup id s.workers) [
  | none ↦ err (not_found id "worker")
  | some w ↦ ok (record s { workers = insert id (record w { heartbeat = now }) s.workers })
]

unfoldable pub list_active_workers : MemoryStore → String → List Worker
list_active_workers s group =
    select (λ w. (w.status == "ACTIVE") && ((group == "") || (w.group == group))) (values s.workers)

-- The loop that deletes while it ranges over the map: `Heartbeat.Before(now - timeout)`.
unfoldable pub drop_dead : ℕ → ℕ → Map Worker → Map Worker
drop_dead now timeout [] = []
drop_dead now timeout ((k, w) ∷ m) =
    if ltb (w.heartbeat + timeout) now
    then drop_dead now timeout m
    else (k, w) ∷ drop_dead now timeout m

unfoldable pub remove_dead_workers : ℕ → MemoryStore → ℕ → MemoryStore
unfolding drop_dead
remove_dead_workers now s timeout = record s { workers = drop_dead now timeout s.workers }
