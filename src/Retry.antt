-- ===== src/Retry.antt =====
-- workflow/pkg/executor/executor.go: the retry strategies and `RetryableExecutor`. A duration is a
-- number of nanoseconds, with its sign.
pub mod Attempts
use landc_go.Prelude.{
  Bool, Option, String, if◌then◌else◌, is_zero_ℤ, ltb, ltb_ℤ, negsuc, none, pos, some, suc, suc_ℤ,
  to_ℕ, zero, ℕ, ℤ, ◌&&◌, ◌*◌, ◌-◌, ◌==◌,
}

pub data RetryStrategy : Type 0 where
  linear_retry exponential_retry : (max_retries delay max_delay : ℤ) → RetryStrategy

abbrev pub second : ℕ
second = 1000000000

abbrev pub seconds : ℤ → ℤ
seconds (pos n) = pos (n * second)
seconds (negsuc n) = negsuc (suc n * second - 1)

-- `delaySec <= 0` means one second.
unfoldable pub new_retry_strategy :
    String → (max_retries delay_sec max_delay_sec : ℤ) → RetryStrategy
new_retry_strategy mode max_retries delay_sec max_delay_sec =
    let delay = if ltb_ℤ (pos 0) delay_sec then delay_sec else pos 1 in
    if mode == "EXPONENTIAL"
    then exponential_retry max_retries (seconds delay) (seconds max_delay_sec)
    else linear_retry max_retries (seconds delay) (seconds max_delay_sec)

unfoldable pub max_attempts : RetryStrategy → ℤ
max_attempts (linear_retry n _ _) = suc_ℤ n
max_attempts (exponential_retry n _ _) = suc_ℤ n

-- `MaxDelay`, where 0 means five minutes.
abbrev pub longest_delay : ℤ → ℤ
longest_delay max_delay = if is_zero_ℤ max_delay then pos (300 * second) else max_delay

-- The arithmetic on float64 is a parameter: `backoff base attempt` for the delay with its jitter,
-- converted to a duration.
unfoldable pub next_delay :
    (backoff : (base : ℤ) → (attempt : ℕ) → ℤ)
    → RetryStrategy
    → (attempt : ℕ) → (base_delay : ℤ) → ℤ
next_delay backoff (linear_retry _ delay _) attempt base_delay = delay
next_delay backoff (exponential_retry _ base max_delay) attempt base_delay =
    let start = if ltb_ℤ (pos 0) base then base else base_delay in
    let total = backoff start attempt in
    if ltb_ℤ (longest_delay max_delay) total then longest_delay max_delay else total

-- What one call of the inner executor gives: a response with `Success`, a response without, with its
-- text, or an error.
pub data Reply : Type 0 where
  succeeded : (output : Option String) → Reply
  refused broken : (message : String) → Reply

-- What `Execute` returns: a response with `Success`; or one without, after all attempts, with the
-- last error (`none` where no attempt was made); or the error of a context that is done.
pub data RetryEnd : Type 0 where
  done : (output : Option String) → RetryEnd
  all_failed : (attempts : ℤ) → (last : Option String) → RetryEnd
  context_done : RetryEnd

-- What the loop meets: whether the context is done before an attempt and during the wait in front of
-- it, and the inner executor's reply to each attempt.
pub record World : Type 0 where
  pub done_before : ℕ → Bool
  pub done_waiting : ℕ → Bool
  pub reply : ℕ → Reply

abbrev pub error_of : Reply → Option String
error_of (succeeded output) = none
error_of (refused message) = some message
error_of (broken message) = some message

-- The loop, from an attempt on, with the number of attempts that are left.
unfoldable pub attempts_from :
    World → (total : ℤ) → (left attempt : ℕ) → (last : Option String) → RetryEnd
attempts_from env total zero attempt last = all_failed total last
attempts_from env total (suc left) attempt last =
    if env.done_before attempt
    then context_done
    else (if ltb 1 attempt && env.done_waiting attempt
        then context_done
        else elim (env.reply attempt) [
          | succeeded output ↦ done output
          | r ↦ attempts_from env total left (suc attempt) (error_of r)
        ])

-- `maxAttempts`, at least 1.
abbrev pub attempt_limit : RetryStrategy → ℤ
attempt_limit s = if ltb_ℤ (pos 0) (max_attempts s) then max_attempts s else pos 1

-- The first attempt is `req.RetryCount + 1`.
unfoldable pub execute_retrying : World → RetryStrategy → (retry_count : ℕ) → RetryEnd
unfolding attempts_from max_attempts
execute_retrying env s retry_count =
    attempts_from env (attempt_limit s) (to_ℕ (attempt_limit s) - retry_count) (suc retry_count)
      none
