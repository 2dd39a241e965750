-- ===== src/Scheduler/Dispatch.antt =====
-- The tasks that a poll skips.
use mathlib.Core.Option.{some-injective}
use landc_go.Model.{Task}
use landc_go.Store.Memory.{MemoryStore, get_pending_tasks, update_task, get_execution}
use landc_go.Scheduler.{
  skipped_task, is_stopped, dispatch_task, dispatch_all, poll_and_dispatch, SchedulerConfig, List,
  String,
}
use landc_go.Prelude.{
  All, Bool-cases, In, List, String, [], ap, arith, eq_iff, false, inl, inr, insert, lookup,
  lookup-insert, refl, some, sym, true, ◌==◌, ◌∙◌, ◌∷◌, ◌≡◌, ◌≢◌, subst, ℕ,
}

-- The store holds this task, but for a status that a dispatch may have set.
abbrev pub Held : MemoryStore → Task → Type 0
Held s t = (x : Task) × (lookup t.id s.tasks ≡ some x) × (skipped_task x ≡ skipped_task t)

is_stopped-executions :
    (s r : MemoryStore) (t : Task) → r.executions ≡ s.executions → is_stopped r t ≡ is_stopped s t
unfolding is_stopped get_execution
is_stopped-executions s r t q = rw q refl

module _ (s : MemoryStore) (u : Task) where
  dispatch_task-running : is_stopped s u ≡ false → dispatch_task s u ≡ s
  unfolding dispatch_task
  dispatch_task-running h = rw (dispatch_task, h) refl

  dispatch_task-is_stopped :
      Held s u
      → is_stopped s u ≡ true
      → dispatch_task s u ≡ record s { tasks = insert u.id (skipped_task u) s.tasks }
  unfolding dispatch_task update_task
  dispatch_task-is_stopped (x, q, _) h = rw (dispatch_task, h, q) refl

  dispatch_task-executions : Held s u → (dispatch_task s u).executions ≡ s.executions
  dispatch_task-executions held = elim (Bool-cases (is_stopped s u)) [
    | inl h ↦ rw (dispatch_task-is_stopped held h) refl
    | inr h ↦ rw (dispatch_task-running h) refl
  ]

  dispatch_task-skips :
      Held s u
      → is_stopped s u ≡ true
      → lookup u.id (dispatch_task s u).tasks ≡ some (skipped_task u)
  dispatch_task-skips held h =
      rw (dispatch_task-is_stopped held h)
        (ground (arith, lookup-insert u.id u.id (skipped_task u) s.tasks, eq_iff u.id u.id))

  dispatch_task-other :
      (k : String)
      → Held s u
      → ((is_stopped s u ≡ true) → u.id ≢ k)
      → lookup k (dispatch_task s u).tasks ≡ lookup k s.tasks
  dispatch_task-other k held differs = elim (Bool-cases (is_stopped s u)) [
    | inl h ↦
        rw (dispatch_task-is_stopped held h)
          (ground (arith, lookup-insert u.id k (skipped_task u) s.tasks, eq_iff u.id k, differs h))
    | inr h ↦ rw (dispatch_task-running h) refl
  ]

  -- A dispatch of `u` leaves `t` held.
  dispatch_task-Held : (t : Task) → Held s u → Held s t → Held (dispatch_task s u) t
  dispatch_task-Held t held (x, q, same) = elim (Bool-cases (is_stopped s u)) [
    | inl h ↦ elim (Bool-cases (u.id == t.id)) [
      | inl e ↦
          let name = (eq_iff u.id t.id).0 e in
          let (y, r, like) = held in
          let one : x ≡ y =
            some-injective x y (sym q ∙ ap (λ k. lookup k s.tasks) (sym name) ∙ r) in
          (
            skipped_task u,
            ap (λ k. lookup k (dispatch_task s u).tasks) (sym name) ∙ dispatch_task-skips held h,
            sym like ∙ ap skipped_task (sym one) ∙ same,
          )
      | inr e ↦ (
        x,
        dispatch_task-other t.id held (λ _ c. absurd (ground (arith, e, eq_iff u.id t.id))) ∙ q,
        same,
      )
    ]
    | inr h ↦ (x, rw (dispatch_task-running h) q, same)
  ]

Held-after :
    (s : MemoryStore) (u : Task) (ts : List Task)
    → Held s u
    → All (Held s) ts
    → All (Held (dispatch_task s u)) ts
Held-after s u [] held_u held = tt
Held-after s u (t ∷ ts) held_u (held_t, held) =
    (dispatch_task-Held s u t held_u held_t, Held-after s u ts held_u held)

dispatch_task-kept :
    (s : MemoryStore) (u t : Task)
    → Held s u
    → Held s t
    → lookup t.id s.tasks ≡ some (skipped_task t)
    → lookup t.id (dispatch_task s u).tasks ≡ some (skipped_task t)
dispatch_task-kept s u t held_u held_t q = elim (Bool-cases (is_stopped s u)) [
  | inl h ↦ elim (Bool-cases (u.id == t.id)) [
    | inl e ↦
        let name = (eq_iff u.id t.id).0 e in
        let (y, r, like) = held_u in
        let one : skipped_task t ≡ y =
          some-injective (skipped_task t) y (sym q ∙ ap (λ k. lookup k s.tasks) (sym name) ∙ r) in
        ap (λ k. lookup k (dispatch_task s u).tasks) (sym name)
        ∙ dispatch_task-skips s u held_u h
        ∙ ap some (sym like ∙ ap skipped_task (sym one))
    | inr e ↦
        dispatch_task-other s u t.id held_u (λ _ c. absurd (ground (arith, e, eq_iff u.id t.id)))
        ∙ q
  ]
  | inr h ↦ rw (dispatch_task-running s u h) q
]

-- What was skipped stays skipped.
dispatch_all-skipped :
    (ts : List Task) (s : MemoryStore) (t : Task)
    → All (Held s) ts
    → Held s t
    → lookup t.id s.tasks ≡ some (skipped_task t)
    → lookup t.id (dispatch_all s ts).tasks ≡ some (skipped_task t)
unfolding dispatch_all
dispatch_all-skipped [] s t all_held held q = q
dispatch_all-skipped (u ∷ ts) s t (held_u, all_held) held q =
    dispatch_all-skipped ts (dispatch_task s u) t (Held-after s u ts held_u all_held)
      (dispatch_task-Held s u t held_u held) (dispatch_task-kept s u t held_u held q)

-- Whatever the order of the dispatches: the tasks whose execution has ended or is paused are
-- stored as skipped, and no other task changes.
pub dispatch_all-Skips :
    (ts : List Task) (s : MemoryStore)
    → All (Held s) ts
    → ((t : Task)
        → In t ts
        → is_stopped s t ≡ true
        → lookup t.id (dispatch_all s ts).tasks ≡ some (skipped_task t))
      × ((k : String)
          → ((t : Task) → In t ts → is_stopped s t ≡ true → t.id ≢ k)
          → lookup k (dispatch_all s ts).tasks ≡ lookup k s.tasks)
unfolding dispatch_all
dispatch_all-Skips [] s held = (λ t i h. absurd i, λ k differs. refl)
dispatch_all-Skips (u ∷ ts) s (held_u, held) =
    let next = dispatch_task s u in
    let after = Held-after s u ts held_u held in
    let (skips, keeps) = dispatch_all-Skips ts next after in
    let same : (t : Task) → is_stopped next t ≡ is_stopped s t =
      λ t. is_stopped-executions s next t (dispatch_task-executions s u held_u) in
    (
      λ t i h. elim i [
        | inl e ↦
            subst (λ v. lookup v.id (dispatch_all next ts).tasks ≡ some (skipped_task v)) e
              (dispatch_all-skipped ts next u after (dispatch_task-Held s u u held_u held_u)
                (dispatch_task-skips s u held_u (ap (is_stopped s) e ∙ h)))
        | inr j ↦ skips t j (same t ∙ h)
      ],
      λ k differs.
          keeps k (λ t j h. differs t (inr j) (sym (same t) ∙ h))
          ∙ dispatch_task-other s u k held_u (λ h. differs u (inl refl) h),
    )

-- A poll skips the due tasks that it gets, as far as their execution has ended or is paused.
pub poll_and_dispatch-skips :
    (config : SchedulerConfig) (now : ℕ) (s : MemoryStore) (t : Task)
    → All (λ u. lookup u.id s.tasks ≡ some u) (get_pending_tasks s now config.batch_size)
    → In t (get_pending_tasks s now config.batch_size)
    → is_stopped s t ≡ true
    → lookup t.id (poll_and_dispatch config now s).tasks ≡ some (skipped_task t)
unfolding poll_and_dispatch
poll_and_dispatch-skips config now s t own i h =
    let ts = get_pending_tasks s now config.batch_size in
    (dispatch_all-Skips ts s (held_of ts own)).0 t i h
  where
    held_of : (ts : List Task) → All (λ u. lookup u.id s.tasks ≡ some u) ts → All (Held s) ts
    held_of [] own = tt
    held_of (u ∷ us) (q, own) = ((u, q, refl), held_of us own)
