-- ===== src/VerifyCode.antt =====
-- tools/verifycode/manager.go: verification codes over a cache.
pub mod OneTime
use Prim.Native.String.{slice}
use landc_go.RateLimit.{CacheOps, interval_allow, count_allow}
use landc_go.Prelude.{
  Bool, List, Option, String, [], append_text, if◌then◌else◌, ltb_ℤ, none, pos, some, suc, to_ℕ,
  zero, ℕ, ℤ, ◌*◌, ◌∷◌, Result, err, false, ltb, not, ok, true, ◌+◌, ◌==◌, ◌||◌,
}

pub data CodeError : Type 0 where
  interval_limited daily_limited no_randomness not_stored : CodeError

-- The settings of `Manager`. Durations are in nanoseconds.
pub record Manager : Type 0 where
  pub code_length : ℕ
  pub ttl : ℕ
  pub send_interval : ℕ
  pub daily_limit : ℤ

-- The `Option`s, over settings that are not negative where Go tests so.
pub data Setting : Type 0 where
  with_code_length with_daily_limit : ℤ → Setting
  with_ttl with_send_interval : ℤ → Setting

abbrev pub is_negative : ℤ → Bool
is_negative n = ltb_ℤ n (pos 0)

unfoldable pub apply_setting : Setting → Manager → Manager
apply_setting (with_code_length n) m =
    if ltb_ℤ (pos 0) n then record m { code_length = to_ℕ n } else m
apply_setting (with_ttl d) m = if ltb_ℤ (pos 0) d then record m { ttl = to_ℕ d } else m
apply_setting (with_send_interval d) m =
    if is_negative d then m else record m { send_interval = to_ℕ d }
apply_setting (with_daily_limit n) m = if is_negative n then m else record m { daily_limit = n }

abbrev pub second : ℕ
second = 1000000000

unfoldable pub apply_settings : List Setting → Manager → Manager
unfolding apply_setting
apply_settings [] m = m
apply_settings (o ∷ os) m = apply_settings os (apply_setting o m)

unfoldable pub new_manager : List Setting → Manager
unfolding apply_settings
new_manager os = apply_settings os (record {
  code_length = 6;
  ttl = 300 * second;
  send_interval = 60 * second;
  daily_limit = pos 10;
})

-- The digit of a number below 10, `byte('0' + n)`.
abbrev pub digit_text : ℕ → String
digit_text d = slice "0123456789" d (d + 1)

-- `randomCode`: the draws of `rand.Int` below 10, `none` for an error.
unfoldable pub random_code : (draw : ℕ → Option ℕ) → ℕ → Option String
random_code draw zero = some ""
random_code draw (suc n) = elim (draw n) [
  | none ↦ none
  | some d ↦ elim (random_code draw n) [
    | none ↦ none
    | some rest ↦ some (append_text rest (digit_text d))
  ]
]

module _ {S : Type 0} (ops : CacheOps S) (m : Manager) where
  -- Behind the two limits.
  unfoldable pub issue :
      (now : ℕ) → (draw : ℕ → Option ℕ) → String → S → S × Result CodeError String
  unfolding random_code
  issue now draw key s = elim (random_code draw m.code_length) [
    | none ↦ (s, err no_randomness)
    | some code ↦
        let (s', stored) = ops.store now (append_text "vc:code:" key) code m.ttl s in
        if stored then (s', ok code) else (s', err not_stored)
  ]

  unfoldable pub pass_interval : (now : ℕ) → String → S → S × Bool
  unfolding interval_allow
  pass_interval now key s =
      if ltb 0 m.send_interval
      then interval_allow ops now (append_text "vc:interval:" key) m.send_interval s
      else (s, true)

  unfoldable pub pass_daily : (now : ℕ) → String → S → S × Bool
  unfolding count_allow
  pass_daily now key s =
      if ltb_ℤ (pos 0) m.daily_limit
      then count_allow ops now (append_text "vc:daily:" key) m.daily_limit (86400 * second) s
      else (s, true)

  unfoldable pub generate :
      (now : ℕ) → (draw : ℕ → Option ℕ) → String → S → S × Result CodeError String
  unfolding issue pass_interval pass_daily
  generate now draw key s =
      let (s1, spaced) = pass_interval now key s in
      if not spaced
      then (s1, err interval_limited)
      else (if not (pass_daily now key s1).1
          then ((pass_daily now key s1).0, err daily_limited)
          else issue now draw key (pass_daily now key s1).0)

  unfoldable pub verify : (now : ℕ) → (key input : String) → S → S × Bool
  verify now key input s =
      let (s', found) = ops.fetch now (append_text "vc:code:" key) s in
      elim found [
        | none ↦ (s', false)
        | some stored ↦
            if (stored == "") || not (stored == input)
            then (s', false)
            else ((ops.drop_key now (append_text "vc:code:" key) s').0, true)
      ]
