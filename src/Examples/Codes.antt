-- ===== src/Examples/Codes.antt =====
-- Limiters, verification codes and retries: examples.
use landc_go.Cache.Lru.{LruCache, unstarted}
use landc_go.Cache.Local.{tools_cache, tools_cache-IsCache}
use landc_go.VerifyCode.{Manager, generate, verify}
use landc_go.VerifyCode.OneTime.{verify-generate}
use landc_go.Retry.{World, succeeded, refused, linear_retry, attempt_limit, execute_retrying}
use landc_go.Retry.Attempts.{Explains, execute_retrying-Explains}
use landc_go.Examples.Caches.{codec}
use landc_go.Prelude.{
  [], apart, arith, false, if◌then◌else◌, leb, ok, pos, refl, some, to_ℕ, true, ◌-◌, ◌≡◌,
}

abbrev empty_cache : LruCache
empty_cache = record { lru_list = []; capacity = 4; cleaner = unstarted }

abbrev manager : Manager
manager = record { code_length = 2; ttl = 300; send_interval = 60; daily_limit = pos 10 }

-- The cache behind a code for the key "u".
abbrev sent : LruCache
sent = (generate (tools_cache codec) manager 10 (λ n. some 7) "u" empty_cache).0

generates : generate (tools_cache codec) manager 10 (λ n. some 7) "u" empty_cache ≡ (sent, ok "77")
unfolding generate tools_cache landc_go.Prelude.lookup landc_go.Prelude.insert
    landc_go.Prelude.delete
generates = refl

verify-generate_example :
    ((verify (tools_cache codec) manager 20 "u" "77" sent).1 ≡ true)
    × ((verify
          (tools_cache codec)
          manager
          21
          "u"
          "77"
          (verify (tools_cache codec) manager 20 "u" "77" sent).0).1
        ≡ false)
verify-generate_example =
    verify-generate (tools_cache codec) manager (tools_cache-IsCache codec) 10 20 21 (λ n. some 7)
      "u" "77" "77" empty_cache sent generates (apart "77" "" refl) (omega arith) (omega arith)

-- Its first attempt is refused.
abbrev flaky : World
flaky = record {
  done_before = λ n. false;
  done_waiting = λ n. false;
  reply = λ n. if leb n 1 then refused "busy" else succeeded (some "done");
}

execute_retrying-Explains_example :
    Explains flaky 1
      (to_ℕ (attempt_limit (linear_retry (pos 3) (pos 1) (pos 0))) - 0)
      (execute_retrying flaky (linear_retry (pos 3) (pos 1) (pos 0)) 0)
execute_retrying-Explains_example =
    execute_retrying-Explains flaky (linear_retry (pos 3) (pos 1) (pos 0)) 0
