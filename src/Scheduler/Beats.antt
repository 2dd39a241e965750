-- ===== src/Scheduler/Beats.antt =====
-- The workers that share a store: their heartbeats and the removal of the dead ones.
use mathlib.Core.Option.{some-injective, none-ne-some}
use landc_go.Model.{Worker, Task}
use landc_go.Store.Memory.{
  MemoryStore, list_active_workers, register_worker, update_worker_heartbeat, remove_dead_workers,
  drop_dead, update_task, get_pending_tasks,
}
use landc_go.Scheduler.{
  poll_and_dispatch, dispatch_task, dispatch_all, is_stopped, Scheduler, SchedulerConfig, start,
  beat, cleanup, worker_of, String, List, ℕ,
}
use landc_go.Prelude.{
  In, List, Map, String, [], false, if◌then◌else◌, lookup, none, some, ℕ, ◌+◌, ◌==◌, ◌∷◌, ◌≡◌, ◌≤◌,
  Option-cases, arith, inl, inr, Bool-cases, ap, eq_iff, lookup-In_values, lookup-insert, refl,
  select-In, subst, sym, values, ◌&&◌, ◌||◌, ◌∙◌, Option, ◌≢◌,
}

-- What the workers that share a store do: a heartbeat of one, a cleanup, a poll, a start without etcd.
pub data Tick : Type 0 where
  beats : (id : String) (now : ℕ) → Tick
  cleans polls : (config : SchedulerConfig) (now : ℕ) → Tick
  starts : (worker : Worker) → Tick

unfoldable pub run_ticks : List Tick → MemoryStore → MemoryStore
unfolding beat cleanup poll_and_dispatch register_worker
run_ticks [] s = s
run_ticks (beats id now ∷ ts) s = run_ticks ts (beat id now s)
run_ticks (cleans config now ∷ ts) s = run_ticks ts (cleanup config now s)
run_ticks (polls config now ∷ ts) s = run_ticks ts (poll_and_dispatch config now s)
run_ticks (starts worker ∷ ts) s = run_ticks ts (register_worker s worker)

-- No cleanup comes later than its timeout behind the last heartbeat of this worker, and no other
-- worker starts under its id.
abbrev pub Steady : String → ℕ → List Tick → Type 0
Steady id last [] = Unit
Steady id last (beats who now ∷ ts) = Steady id (if who == id then now else last) ts
Steady id last (cleans config now ∷ ts) =
    (now ≤ last + config.dead_worker_timeout) × Steady id last ts
Steady id last (polls config now ∷ ts) = Steady id last ts
Steady id last (starts worker ∷ ts) = (worker.id ≢ id) × Steady id last ts

-- The store holds this worker, but for the instant of its heartbeat.
abbrev pub Beating : MemoryStore → ℕ → Worker → Type 0
Beating s last w = lookup w.id s.workers ≡ some (record w { heartbeat = last })

abbrev renewed : ℕ → Worker → Option Worker
renewed now v = some (record v { heartbeat = now })

beat-Beating :
    (s : MemoryStore) (last : ℕ) (w : Worker) (id : String) (now : ℕ)
    → Beating s last w
    → Beating (beat id now s) (if id == w.id then now else last) w
unfolding beat update_worker_heartbeat
beat-Beating s last w id now h = elim (Option-cases (lookup id s.workers)) [
  | inl q ↦
      rw (beat, update_worker_heartbeat, q)
        (elim (Bool-cases (id == w.id)) [
          | inl e ↦
              absurd
                (none-ne-some _ (sym q ∙ ap (λ k. lookup k s.workers) ((eq_iff id w.id).0 e) ∙ h))
          | inr e ↦ rw (e, if◌then◌else◌) h
        ])
  | inr (u, q) ↦
      rw (beat, update_worker_heartbeat, q)
        (lookup-insert id w.id (record u { heartbeat = now }) s.workers
          ∙ elim (Bool-cases (id == w.id)) [
            | inl e ↦
                let same : u ≡ record w { heartbeat = last } =
                  some-injective u _
                    (sym q ∙ ap (λ k. lookup k s.workers) ((eq_iff id w.id).0 e) ∙ h) in
                rw (e, if◌then◌else◌) (ap (renewed now) same)
            | inr e ↦ rw (e, if◌then◌else◌) h
          ])
]

lookup-drop_dead :
    (now timeout : ℕ) (k : String) (m : Map Worker) (w : Worker)
    → lookup k m ≡ some w
    → now ≤ w.heartbeat + timeout
    → lookup k (drop_dead now timeout m) ≡ some w
unfolding lookup drop_dead
lookup-drop_dead now timeout k [] w h fresh = h
lookup-drop_dead now timeout k ((name, u) ∷ m) w h fresh =
    ground (arith, lookup-drop_dead now timeout k m w)

dispatch_task-workers : (s : MemoryStore) (t : Task) → (dispatch_task s t).workers ≡ s.workers
unfolding dispatch_task update_task
dispatch_task-workers s t = elim (Bool-cases (is_stopped s t)) [
  | inr h ↦ rw (dispatch_task, h) refl
  | inl h ↦ elim (Option-cases (lookup t.id s.tasks)) [
    | inl q ↦ rw (dispatch_task, h, q) refl
    | inr (x, q) ↦ rw (dispatch_task, h, q) refl
  ]
]

dispatch_all-workers : (ts : List Task) (s : MemoryStore) → (dispatch_all s ts).workers ≡ s.workers
unfolding dispatch_all
dispatch_all-workers [] s = refl
dispatch_all-workers (t ∷ ts) s =
    dispatch_all-workers ts (dispatch_task s t) ∙ dispatch_task-workers s t

run_ticks-Beating :
    (ts : List Tick) (s : MemoryStore) (last : ℕ) (w : Worker)
    → Steady w.id last ts
    → Beating s last w
    → (now : ℕ) × Beating (run_ticks ts s) now w
unfolding run_ticks cleanup remove_dead_workers poll_and_dispatch register_worker
run_ticks-Beating [] s last w steady h = (last, h)
run_ticks-Beating (beats id now ∷ ts) s last w steady h =
    run_ticks-Beating ts (beat id now s) _ w steady (beat-Beating s last w id now h)
run_ticks-Beating (cleans config now ∷ ts) s last w (fresh, steady) h =
    let kept : Beating (cleanup config now s) last w =
      lookup-drop_dead now config.dead_worker_timeout w.id s.workers _ h fresh in
    run_ticks-Beating ts (cleanup config now s) last w steady kept
run_ticks-Beating (polls config now ∷ ts) s last w steady h =
    let same = dispatch_all-workers (get_pending_tasks s now config.batch_size) s in
    run_ticks-Beating ts (poll_and_dispatch config now s) last w steady (ap (lookup w.id) same ∙ h)
run_ticks-Beating (starts u ∷ ts) s last w (other, steady) h =
    let kept : Beating (register_worker s u) last w =
      lookup-insert u.id w.id u s.workers ∙ ground (arith, eq_iff u.id w.id, other, h) in
    run_ticks-Beating ts (register_worker s u) last w steady kept

-- A worker that is started while it is not running, without etcd, stays among the active workers of
-- its group through any heartbeats, cleanups, polls and starts of the workers that share the store
-- without etcd, if no cleanup comes later than its timeout behind the last of this worker's
-- heartbeats, the start being the first, and no other worker starts under its id.
pub start-stays :
    {R : Type 0} (s : Scheduler R) (now : ℕ) (reg : R) (store : MemoryStore) (ts : List Tick)
    → s.running ≡ false
    → s.etcd_reg ≡ none
    → Steady s.worker_id now ts
    → (last : ℕ) × In
        (record (worker_of now s) { heartbeat = last })
        (list_active_workers (run_ticks ts (start now s reg store).2) s.worker_grp)
unfolding start list_active_workers
start-stays s now reg store ts idle no_etcd steady =
    let w = worker_of now s in
    let begun : (start now s reg store).2 ≡ register_worker store w =
      rw (start, idle, no_etcd) refl in
    let first : Beating (start now s reg store).2 now w =
      subst (λ r. Beating r now w) (sym begun)
        (ground (arith, lookup-insert w.id w.id w store.workers, eq_iff w.id w.id)) in
    let (last, kept) = run_ticks-Beating ts (start now s reg store).2 now w steady first in
    (
      last,
      select-In (λ v. (v.status == "ACTIVE") && ((s.worker_grp == "") || (v.group == s.worker_grp)))
          (values (run_ticks ts (start now s reg store).2).workers) _
          (lookup-In_values w.id _ _ kept) (ground (arith, eq_iff s.worker_grp s.worker_grp)),
    )
