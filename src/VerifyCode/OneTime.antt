-- ===== src/VerifyCode/OneTime.antt =====
-- A verification code is good once, and until its time has run out.
use landc_go.RateLimit.{CacheOps, IsCache}
use landc_go.VerifyCode.{
  Manager, CodeError, random_code, issue, pass_interval, pass_daily, generate, verify,
}
use landc_go.Prelude.{
  Bool-cases, Option, Option-cases, Result, String, ap, append_text, if◌then◌else◌, inl, inr, ok, ℕ,
  ◌≡◌, Bool, arith, eq_iff, eq_refl, false, none, not, refl, some, sym, true, ◌+◌, ◌<◌, ◌==◌, ◌∙◌,
  ◌≢◌, ◌≤◌,
}

abbrev code_key : String → String
code_key key = append_text "vc:code:" key

module _ {S : Type 0} (ops : CacheOps S) (m : Manager) where
  -- A call of `Generate` that hands out a code has stored it last.
  pub record Issued (now : ℕ) (key code : String) (t : S) : Type 0 where
    before : S
    stored : t ≡ (ops.store now (code_key key) code m.ttl before).0

  issue-Issued :
      (now : ℕ) (draw : ℕ → Option ℕ) (key code : String) (s t : S)
      → issue ops m now draw key s ≡ (t, ok code)
      → Issued now key code t
  unfolding issue
  issue-Issued now draw key code s t h = elim (Option-cases (random_code draw m.code_length)) [
    | inl q ↦ absurd (cc (ap (λ (p : S × Result CodeError String). p.1) (rw (issue, q) at h)))
    | inr (drawn, q) ↦ elim (Bool-cases (ops.store now (code_key key) drawn m.ttl s).1) [
      | inr p ↦ absurd (
          cc (ap (λ (p : S × Result CodeError String). p.1) (rw (issue, q, p, if◌then◌else◌) at h)))
      | inl p ↦
          let h' = rw (issue, q, p, if◌then◌else◌) at h in
          let left = ap (λ (p : S × Result CodeError String). p.0) h' in
          let same : drawn ≡ code = cc (ap (λ (p : S × Result CodeError String). p.1) h') in
          record {
            before = s;
            stored =
                sym left ∙ ap (λ k. (ops.store now (append_text "vc:code:" key) k m.ttl s).0) same;
          }
    ]
  ]

  generate-Issued :
      (now : ℕ) (draw : ℕ → Option ℕ) (key code : String) (s t : S)
      → generate ops m now draw key s ≡ (t, ok code)
      → Issued now key code t
  unfolding generate
  generate-Issued now draw key code s t h =
      let s1 = (pass_interval ops m now key s).0 in
      elim (Bool-cases (pass_interval ops m now key s).1) [
        | inr q ↦ absurd (
            cc (
              ap (λ (p : S × Result CodeError String). p.1)
                (rw (generate, q, not, if◌then◌else◌) at h)))
        | inl q ↦ elim (Bool-cases (pass_daily ops m now key s1).1) [
          | inr p ↦ absurd (
              cc (
                ap (λ (p : S × Result CodeError String). p.1)
                  (rw (generate, q, not, if◌then◌else◌, p) at h)))
          | inl p ↦
              issue-Issued now draw key code (pass_daily ops m now key s1).0 t
                (rw (generate, q, not, if◌then◌else◌, p) at h)
        ]
      ]

  verify-right :
      (now : ℕ) (key code : String) (s : S)
      → (ops.fetch now (code_key key) s).1 ≡ some code
      → code ≢ ""
      → verify ops m now key code s
        ≡ ((ops.drop_key now (code_key key) (ops.fetch now (code_key key) s).0).0, true)
  unfolding verify
  verify-right now key code s q some_code =
      let named : (code == "") ≡ false = ground (arith, eq_iff code "") in
      rw (verify, q, named, eq_refl code) refl

  verify-absent :
      (now : ℕ) (key input : String) (s : S)
      → (ops.fetch now (code_key key) s).1 ≡ none
      → (verify ops m now key input s).1 ≡ false
  unfolding verify
  verify-absent now key input s q = rw (verify, q) refl

  -- Over a cache that keeps what it stores: a code that `Generate` hands out is accepted within its
  -- time to live, if nothing else touches the cache meanwhile, and is then used up: a second call
  -- of `Verify` for the key is refused, whatever its input and its instant.
  pub verify-generate :
      (lawful : IsCache ops) (now later again : ℕ) (draw : ℕ → Option ℕ) (key code input : String)
      (s t : S)
      → generate ops m now draw key s ≡ (t, ok code)
      → code ≢ ""
      → 0 < m.ttl
      → later ≤ now + m.ttl
      → ((verify ops m later key code t).1 ≡ true)
        × ((verify ops m again key input (verify ops m later key code t).0).1 ≡ false)
  verify-generate lawful now later again draw key code input s t h some_code positive soon =
      let issued = generate-Issued now draw key code s t h in
      let found : (ops.fetch later (code_key key) t).1 ≡ some code =
        rw issued.stored
          (lawful.finds now later (code_key key) code m.ttl issued.before positive soon) in
      let accepted = verify-right later key code t found some_code in
      (
        ap (λ (p : S × Bool). p.1) accepted,
        rw (ap (λ (p : S × Bool). p.0) accepted) (
            verify-absent again key input
              (ops.drop_key later (code_key key) (ops.fetch later (code_key key) t).0).0
              (lawful.forgets later again (code_key key) (ops.fetch later (code_key key) t).0)),
      )
