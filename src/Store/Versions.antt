-- ===== src/Store/Versions.antt =====
-- The optimistic lock on executions, over single calls and over histories of calls.
use landc_go.Model.{Workflow, Execution, Task, Worker}
use landc_go.Store.Memory.{
  MemoryStore, StoreError, version_conflict, create_workflow, update_workflow, create_execution,
  update_execution, create_task, update_task, register_worker, update_worker_heartbeat,
  remove_dead_workers,
}
use landc_go.Prelude.{
  Bool-cases, List, Option-cases, Result, String, [], arith, eq_iff, eqb, err, if◌then◌else◌, inl,
  inr, lookup, lookup-insert, ok, some, ℕ, ◌+◌, ◌<◌, ◌==◌, ◌∷◌, ◌≡◌, ◌≤◌, ap, eq_refl, eqb→eq,
  insert, refl, sym, ◌⊎◌,
}

-- The calls that change the store.
pub data Call : Type 0 where
  creates_workflow updates_workflow : Workflow → Call
  creates_execution updates_execution : Execution → Call
  creates_task updates_task : Task → Call
  registers_worker : Worker → Call
  beats : (now : ℕ) (id : String) → Call
  removes_dead : (now timeout : ℕ) → Call

-- A call that fails leaves the store as it was.
abbrev pub after : MemoryStore → Result StoreError MemoryStore → MemoryStore
after s (ok t) = t
after s (err x) = s

abbrev pub after_update : MemoryStore → Result StoreError (MemoryStore × Execution) → MemoryStore
after_update s (ok (t, e)) = t
after_update s (err x) = s

pub step : MemoryStore → Call → MemoryStore
step s (creates_workflow w) = after s (create_workflow s w)
step s (updates_workflow w) = after s (update_workflow s w)
step s (creates_execution e) = after s (create_execution s e)
step s (updates_execution e) = after_update s (update_execution s e)
step s (creates_task t) = create_task s t
step s (updates_task t) = after s (update_task s t)
step s (registers_worker w) = register_worker s w
step s (beats now id) = after s (update_worker_heartbeat now s id)
step s (removes_dead now timeout) = remove_dead_workers now s timeout

pub run : MemoryStore → List Call → MemoryStore
run s [] = s
run s (c ∷ cs) = run (step s c) cs

-- The store holds the execution at this version or a later one.
abbrev pub HasVersion : MemoryStore → String → ℕ → Type 0
HasVersion s id v = (e : Execution) × (lookup id s.executions ≡ some e) × (v ≤ e.version)

create-HasVersion :
    (s : MemoryStore) (x : Execution) (id : String) (v : ℕ)
    → HasVersion s id v
    → HasVersion (after s (create_execution s x)) id v
unfolding create_execution
create-HasVersion s x id v (e, h, l) = elim (Option-cases (lookup x.id s.executions)) [
  | inl q ↦
      rw (q, create_execution)
        (e, ground (arith, lookup-insert x.id id x s.executions, eq_iff x.id id), l)
  | inr (y, q) ↦ rw (q, create_execution) (e, h, l)
]

abbrev next_version : Execution → Execution
next_version x = record x { version = x.version + 1 }

-- What a successful update has met and done.
record Updated (s t : MemoryStore) (x y : Execution) : Type 0 where
  before : Execution
  met : lookup x.id s.executions ≡ some before
  matched : before.version ≡ x.version
  raised : y ≡ next_version x
  stored : t ≡ record s { executions = insert x.id (next_version x) s.executions }

update_execution-Updated :
    (s t : MemoryStore) (x y : Execution) → update_execution s x ≡ ok (t, y) → Updated s t x y
unfolding update_execution
update_execution-Updated s t x y h = elim (Option-cases (lookup x.id s.executions)) [
  | inl q ↦ absurd (cc (rw (q, update_execution) at h))
  | inr (e, q) ↦ elim (Bool-cases (eqb e.version x.version)) [
    | inl same ↦
        let h' = rw (q, update_execution, same) at h in
        record {
          before = e;
          met = q;
          matched = eqb→eq e.version x.version same;
          raised = sym (ground arith);
          stored = sym (ground arith);
        }
    | inr other ↦ absurd (cc (rw (q, update_execution, other) at h))
  ]
]

Result-cases :
    (r : Result StoreError (MemoryStore × Execution))
    → ((t : MemoryStore) × (y : Execution) × (r ≡ ok (t, y))) ⊎ ((x : StoreError) × (r ≡ err x))
Result-cases (ok (t, y)) = inl (t, y, refl)
Result-cases (err x) = inr (x, refl)

Updated-HasVersion :
    (s t : MemoryStore) (x y : Execution) (id : String) (v : ℕ)
    → Updated s t x y
    → HasVersion s id v
    → HasVersion t id v
Updated-HasVersion s t x y id v u (e, h, l) = elim (Bool-cases (x.id == id)) [
  | inl p ↦
      let here : x.id ≡ id = (eq_iff x.id id).0 p in
      let same : e ≡ u.before = ground arith in
      rw u.stored (
        next_version x,
        rw (lookup-insert x.id id (next_version x) s.executions, p),
        omega (arith, l, u.matched, ap (λ (z : Execution). z.version) same),
      )
  | inr p ↦ rw u.stored (e, rw (lookup-insert x.id id (next_version x) s.executions, p) h, l)
]

update-HasVersion :
    (s : MemoryStore) (x : Execution) (id : String) (v : ℕ)
    → HasVersion s id v
    → HasVersion (after_update s (update_execution s x)) id v
update-HasVersion s x id v h = elim (Result-cases (update_execution s x)) [
  | inl (t, y, q) ↦ rw q (Updated-HasVersion s t x y id v (update_execution-Updated s t x y q) h)
  | inr (z, q) ↦ rw q h
]

step-HasVersion :
    (s : MemoryStore) (c : Call) (id : String) (v : ℕ)
    → HasVersion s id v
    → HasVersion (step s c) id v
unfolding step create_workflow update_workflow create_task update_task register_worker
    update_worker_heartbeat remove_dead_workers
step-HasVersion s (creates_execution x) id v h = create-HasVersion s x id v h
step-HasVersion s (updates_execution x) id v h = update-HasVersion s x id v h
step-HasVersion s (creates_workflow w) id v (e, h, l) = (e, ground arith, l)
step-HasVersion s (updates_workflow w) id v (e, h, l) = (e, ground arith, l)
step-HasVersion s (creates_task t) id v h = h
step-HasVersion s (updates_task t) id v (e, h, l) = (e, ground arith, l)
step-HasVersion s (registers_worker w) id v h = h
step-HasVersion s (beats now k) id v (e, h, l) = (e, ground arith, l)
step-HasVersion s (removes_dead now timeout) id v h = h

-- Whatever calls follow, a stored execution stays in the store, and its version never falls.
pub run-HasVersion :
    (s : MemoryStore) (cs : List Call) (id : String) (v : ℕ)
    → HasVersion s id v
    → HasVersion (run s cs) id v
unfolding run
run-HasVersion s [] id v h = h
run-HasVersion s (c ∷ cs) id v h = run-HasVersion (step s c) cs id v (step-HasVersion s c id v h)

pub update_execution-raised :
    (s t : MemoryStore) (x y : Execution)
    → update_execution s x ≡ ok (t, y)
    → y ≡ record x { version = x.version + 1 }
update_execution-raised s t x y h = (update_execution-Updated s t x y h).raised

-- A successful update stores the execution that it hands back, one version up, and leaves every
-- other execution as it was.
pub update_execution-stores :
    (s t : MemoryStore) (x y : Execution) (id : String)
    → update_execution s x ≡ ok (t, y)
    → (y.version ≡ x.version + 1)
      × (lookup id t.executions ≡ (if x.id == id then some y else lookup id s.executions))
update_execution-stores s t x y id h =
    let u = update_execution-Updated s t x y h in
    (
      ap (λ (z : Execution). z.version) u.raised,
      rw (u.stored, u.raised) (lookup-insert x.id id (next_version x) s.executions),
    )

conflicts :
    (s : MemoryStore) (z e : Execution)
    → lookup z.id s.executions ≡ some e
    → z.version < e.version
    → update_execution s z ≡ err (version_conflict z.id e.version z.version)
unfolding update_execution
conflicts s z e h l = ground arith

-- No lost update: once some update of an execution has succeeded, then whatever calls follow, an
-- update that carries the version from before it is refused as a conflict with a later version.
pub update_execution-conflict :
    (s t : MemoryStore) (x y z : Execution) (cs : List Call)
    → update_execution s x ≡ ok (t, y)
    → z.id ≡ x.id
    → z.version ≡ x.version
    → (v : ℕ) × (update_execution (run t cs) z ≡ err (version_conflict z.id v z.version))
      × (z.version < v)
update_execution-conflict s t x y z cs h i q =
    let u = update_execution-Updated s t x y h in
    let (raised, stores) = update_execution-stores s t x y x.id h in
    let present : lookup x.id t.executions ≡ some y = ground (arith, eq_refl x.id) in
    let (e, now, l) = run-HasVersion t cs x.id y.version (y, present, omega arith) in
    (
      e.version,
      conflicts (run t cs) z e (rw i now) (omega (arith, raised, l, q)),
      omega (arith, raised, l, q),
    )
