-- ===== src/Retry/Attempts.antt =====
-- What the answer of a retrying executor says about its attempts.
use native.Mathlib.Nat.{add-zero, add-suc, suc-add}
use landc_go.Retry.{
  World, Reply, succeeded, refused, broken, RetryEnd, done, all_failed, context_done, RetryStrategy,
  attempts_from, attempt_limit, execute_retrying, error_of,
}
use landc_go.Prelude.{
  &&-eq-true, Bool-cases, Option, String, all, arith, if◌then◌else◌, inl, inr, ltb, none, refl,
  some, suc, to_ℕ, true, zero, ℕ, ℤ, ◌&&◌, ◌+◌, ◌-◌, ◌<◌, ◌≡◌, ◌⊎◌,
}

abbrev pub Fails : Reply → Type 0
Fails (succeeded output) = ⊥
Fails (refused message) = Unit
Fails (broken message) = Unit

-- What an answer says of the attempts `first`, …, `first + left - 1`: the output is the reply to one
-- of them, and those in front of it failed; or all of them failed; or the context was done at one.
abbrev pub Explains : World → (first left : ℕ) → RetryEnd → Type 0
Explains env first left (done output) =
    (k : ℕ) × (k < left)
    × (env.reply (first + k) ≡ succeeded output)
    × ((i : ℕ) → i < k → Fails (env.reply (first + i)))
Explains env first left (all_failed total last) = (i : ℕ) → i < left → Fails (env.reply (first + i))
Explains env first left context_done =
    (k : ℕ) × (k < left)
    × ((env.done_before (first + k) ≡ true) ⊎ (env.done_waiting (first + k) ≡ true))

module _ (env : World) where
  Fails-behind :
      (first left : ℕ)
      → Fails (env.reply first)
      → ((i : ℕ) → i < left → Fails (env.reply (suc first + i)))
      → (i : ℕ) → i < suc left
      → Fails (env.reply (first + i))
  Fails-behind first left h all zero l = rw (add-zero first) h
  Fails-behind first left h all (suc i) l =
      rw (add-suc first i, ← suc-add first i) (all i (omega (arith, l)))

  shift :
      (first left : ℕ) (end : RetryEnd)
      → Fails (env.reply first)
      → Explains env (suc first) left end
      → Explains env first (suc left) end
  shift first left (done output) h (k, l, q, before) = (
    suc k,
    omega (arith, l),
    rw (add-suc first k, ← suc-add first k) q,
    Fails-behind first k h before,
  )
  shift first left (all_failed total last) h all = Fails-behind first left h all
  shift first left context_done h (k, l, q) =
      (suc k, omega (arith, l), rw (add-suc first k, ← suc-add first k) q)

  attempts_from-Explains :
      (total : ℤ) (left attempt : ℕ) (last : Option String)
      → Explains env attempt left (attempts_from env total left attempt last)
  unfolding attempts_from
  attempts_from-Explains total zero attempt last = λ i l. absurd (omega (arith, l))
  attempts_from-Explains total (suc left) attempt last =
      elim (Bool-cases (env.done_before attempt)) [
        | inl q ↦
            rw (attempts_from, q, if◌then◌else◌) (0, omega arith, inl (rw (add-zero attempt) q))
        | inr q ↦ elim (Bool-cases (ltb 1 attempt && env.done_waiting attempt)) [
          | inl p ↦
              rw (attempts_from, q, if◌then◌else◌, p)
                (
                  0,
                  omega arith,
                  inr (
                      rw (add-zero attempt)
                        (&&-eq-true (ltb 1 attempt) (env.done_waiting attempt) p).1),
                )
          | inr p ↦
              rw (attempts_from, q, if◌then◌else◌, p)
                (by_reply total left attempt (env.reply attempt) refl
                  (λ (l : Option String). attempts_from-Explains total left (suc attempt) l))
        ]
      ]
    where
      by_reply :
          (total : ℤ) (left attempt : ℕ) (r : Reply)
          → env.reply attempt ≡ r
          → ((l : Option String)
              → Explains env (suc attempt) left (attempts_from env total left (suc attempt) l))
          → Explains env attempt (suc left) (elim r [
            | succeeded output ↦ done output
            | r' ↦ attempts_from env total left (suc attempt) (error_of r')
          ])
      by_reply total left attempt (succeeded output) q ih =
          (0, omega arith, rw (add-zero attempt) q, λ i l. absurd (omega (arith, l)))
      by_reply total left attempt (refused message) q ih =
          shift attempt left (attempts_from env total left (suc attempt) (some message)) (rw q tt)
            (ih (some message))
      by_reply total left attempt (broken message) q ih =
          shift attempt left (attempts_from env total left (suc attempt) (some message)) (rw q tt)
            (ih (some message))

  -- `Execute` makes at most the attempts from `RetryCount + 1` up to the limit. It returns a success
  -- only as the reply to one of them, behind failed ones; it reports that all attempts failed only
  -- if every one of them did; and it returns the context's error only if the context was done at one
  -- of them.
  pub execute_retrying-Explains :
      (s : RetryStrategy) (retry_count : ℕ)
      → Explains env
          (suc retry_count)
          (to_ℕ (attempt_limit s) - retry_count)
          (execute_retrying env s retry_count)
  unfolding execute_retrying
  execute_retrying-Explains s retry_count =
      attempts_from-Explains (attempt_limit s) (to_ℕ (attempt_limit s) - retry_count)
        (suc retry_count) none
