-- ===== src/Store/Listing.antt =====
-- What the listings of the store return.
use landc_go.Model.{Task, TaskStatus, task_status_eq}
use landc_go.Store.Memory.{MemoryStore, window, truncate, is_due, by_created_at, get_pending_tasks}
use landc_go.Prelude.{
  Bool-cases, List, arith, drop, drop-drop, if◌then◌else◌, inl, inr, length, length-drop, ltb, pos,
  suc, take, take-append-drop, take_of_length-le, ℕ, ◌++◌, ◌+◌, ◌-◌, ◌≡◌, In, ap, drop_of_length-le,
  ltb→lt, sym, take-nil, true, values, ◌<◌, ◌∙◌, ◌≤◌, In-select, In-sort_slice, In-take, Option,
  length-take-le, ltb_ℤ, lt→ltb, none, refl, select, select-In, some, sort_slice, to_ℕ, ℤ, ◌&&◌,
  ◌↔◌, &&-eq-true,
}

module _ {ℓ} {A : Type ℓ} where
  window-past :
      (n m offset : ℕ) (xs : List A)
      → length xs < offset
      → take n (drop (length xs) xs) ≡ take m (drop offset xs)
  window-past n m offset xs h = rw (
    drop_of_length-le (length xs) xs (omega arith),
    drop_of_length-le offset xs (omega arith),
    take-nil {A = A} n,
    take-nil {A = A} m,
  )

  window-all : (offset : ℕ) (xs : List A) → window offset (pos 0) xs ≡ drop offset xs
  unfolding window
  window-all offset xs = elim (Bool-cases (ltb (length xs) offset)) [
    | inl q ↦
        rw (q, if◌then◌else◌)
          (window-past (length xs - length xs) (length xs) offset xs (ltb→lt _ _ q)
            ∙ take_of_length-le (length xs) (drop offset xs) (omega (arith, length-drop offset xs)))
    | inr q ↦
        rw (q, if◌then◌else◌)
          (take_of_length-le (length xs - offset) (drop offset xs)
            (omega (arith, length-drop offset xs)))
  ]

  window-some :
      (offset l : ℕ) (xs : List A) → window offset (pos (suc l)) xs ≡ take (suc l) (drop offset xs)
  unfolding window
  window-some offset l xs =
      let positive = lt→ltb 0 (suc l) (omega arith) in
      elim (Bool-cases (ltb (length xs) offset)) [
        | inl q ↦
            rw (q, if◌then◌else◌)
              (window-past
                ((if ltb 0 (suc l)
                    then (if ltb (length xs) (length xs + suc l)
                        then length xs
                        else length xs + suc l)
                    else length xs)
                  - length xs)
                (suc l) offset xs (ltb→lt _ _ q))
        | inr q ↦ elim (Bool-cases (ltb (length xs) (offset + suc l))) [
          | inl p ↦
              rw (q, if◌then◌else◌, positive, p)
                (take_of_length-le (length xs - offset) (drop offset xs)
                    (omega (arith, length-drop offset xs))
                  ∙ sym (
                      take_of_length-le (suc l) (drop offset xs) (
                        omega
                          (arith, length-drop offset xs, ltb→lt (length xs) (offset + suc l) p))))
          | inr p ↦
              rw (q, if◌then◌else◌, positive, p)
                (let e : (offset + suc l) - offset ≡ suc l = omega arith in
                  ap (λ n. take n (drop offset xs)) e)
        ]
      ]

  -- A page followed by everything behind it is everything from the start of the page: pages of a
  -- positive limit neither repeat nor skip an entry.
  pub window-tiles :
      (offset l : ℕ) (xs : List A)
      → window offset (pos (suc l)) xs ++ window (offset + suc l) (pos 0) xs
        ≡ window offset (pos 0) xs
  window-tiles offset l xs =
      rw
        (
          window-some offset l xs,
          window-all (offset + suc l) xs,
          window-all offset xs,
          ← drop-drop (suc l) offset xs,
        )
        (take-append-drop (suc l) (drop offset xs))

module _ {A : Type 0} where
  In-truncate : (limit : ℤ) (xs : List A) (a : A) → In a (truncate limit xs) → In a xs
  unfolding truncate
  In-truncate limit xs a i =
      elim (Bool-cases (ltb_ℤ (pos 0) limit && ltb (to_ℕ limit) (length xs))) [
        | inl q ↦ In-take (to_ℕ limit) xs a (rw (q, if◌then◌else◌) at i)
        | inr q ↦ rw (q, if◌then◌else◌) at i
      ]

  length-truncate-le : (l : ℕ) (xs : List A) → length (truncate (pos (suc l)) xs) ≤ suc l
  unfolding truncate
  length-truncate-le l xs = ground (arith, length-take-le (suc l) xs)

  truncate-all : (xs : List A) → truncate (pos 0) xs ≡ xs
  unfolding truncate
  truncate-all xs = refl

-- A task is handed to the scheduler only if it is stored, pending, and not scheduled for later; at a
-- positive limit no more tasks than that are handed out.
pub get_pending_tasks-due :
    (s : MemoryStore) (now l : ℕ) (t : Task)
    → In t (get_pending_tasks s now (pos (suc l)))
    → In t (values s.tasks)
      × (is_due now t ≡ true)
      × (length (get_pending_tasks s now (pos (suc l))) ≤ suc l)
unfolding get_pending_tasks
get_pending_tasks-due s now l t i =
    let found = select (is_due now) (values s.tasks) in
    let listed = In-truncate (pos (suc l)) (sort_slice by_created_at found) t i in
    let (there, due) =
      In-select (is_due now) (values s.tasks) t ((In-sort_slice by_created_at t found).0 listed) in
    (there, due, length-truncate-le l (sort_slice by_created_at found))

eq_pending :
    (st : TaskStatus) → task_status_eq st TaskStatus.pending ≡ true → st ≡ TaskStatus.pending
eq_pending TaskStatus.pending h = refl
eq_pending st h = absurd (cc h)

due-pending : (t : Task) (now : ℕ) → is_due now t ≡ true → t.status ≡ TaskStatus.pending
unfolding is_due
due-pending t now h =
    eq_pending t.status (&&-eq-true (task_status_eq t.status TaskStatus.pending) _ h).0

due-time :
    (o : Option ℕ) (t : Task) (now : ℕ)
    → t.scheduled_at ≡ o
    → is_due now t ≡ true
    → (at : ℕ) → t.scheduled_at ≡ some at
    → at ≤ now
unfolding is_due
due-time none t now e h at q = absurd (cc)
due-time (some x) t now e h at q = ground arith

due_of :
    (o : Option ℕ) (t : Task) (now : ℕ)
    → t.scheduled_at ≡ o
    → t.status ≡ TaskStatus.pending
    → ((at : ℕ) → t.scheduled_at ≡ some at → at ≤ now)
    → is_due now t ≡ true
unfolding is_due
due_of none t now e p h = rw (p, e) refl
due_of (some x) t now e p h = rw (p, e) (ground (arith, h x e))

-- With no limit the scheduler gets exactly the stored tasks that are pending and due.
pub get_pending_tasks_iff :
    (s : MemoryStore) (now : ℕ) (t : Task)
    → In t (get_pending_tasks s now (pos 0)) ↔ (
        In t (values s.tasks)
        × (t.status ≡ TaskStatus.pending)
        × ((at : ℕ) → t.scheduled_at ≡ some at → at ≤ now))
unfolding get_pending_tasks is_due
get_pending_tasks_iff s now t =
    let found = select (is_due now) (values s.tasks) in
    let sorted = In-sort_slice by_created_at t found in
    rw (truncate-all (sort_slice by_created_at found)) (
      λ i.
          let (there, due) = In-select (is_due now) (values s.tasks) t (sorted.0 i) in
          (there, due-pending t now due, due-time t.scheduled_at t now refl due),
      λ (there, status, time). sorted.1 (
          select-In (is_due now) (values s.tasks) t there
            (due_of t.scheduled_at t now refl status time)),
    )
