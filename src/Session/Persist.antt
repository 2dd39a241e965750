-- ===== src/Session/Persist.antt =====
-- A session from one request to the next.
use landc_go.Session.{
  Cookie, Answer, set_cookie, session_cookie, loaded_entries, Config, with_defaults, Session,
  StoreOps, IsStore, begin_session, end_session, Handler, middleware, Option, ℕ,
}
use landc_go.Prelude.{
  Option, String, to_ℕ, true, ℕ, ◌+◌, ◌||◌, ◌≡◌, ◌≢◌, ◌≤◌, Bool, ap, arith, eq_iff, false,
  if◌then◌else◌, refl, ◌==◌, ◌∙◌, Bool-cases, [], inl, inr, ◌++◌, ◌∷◌,
}

set_cookie-cookies :
    (cookie : Cookie) (answer : Answer)
    → (set_cookie cookie answer).cookies
      ≡ (if answer.sent then answer.cookies else answer.cookies ++ (cookie ∷ []))
unfolding set_cookie
set_cookie-cookies cookie answer = elim (Bool-cases answer.sent) [
  | inl q ↦ rw (set_cookie, q, if◌then◌else◌) refl
  | inr q ↦ rw (set_cookie, q, if◌then◌else◌) refl
]

module _ {V S : Type 0} (ops : StoreOps V S) (lawful : IsStore ops) where
  -- What the handler leaves of the session.
  abbrev pub left_session :
      (now : ℕ) → (cookie fresh_id : String) → Handler ops → S → Answer → Session V
  left_session now cookie fresh_id handler s answer =
      let (s1, sess, is_new) = begin_session ops now cookie fresh_id s in (handler sess s1 answer).1

  -- And of the answer.
  abbrev pub left_answer :
      (now : ℕ) → (cookie fresh_id : String) → Handler ops → S → Answer → Answer
  left_answer now cookie fresh_id handler s answer =
      let (s1, sess, is_new) = begin_session ops now cookie fresh_id s in (handler sess s1 answer).2

  end_session-saved :
      (config : Config) (now : ℕ) (id : String) (sess : Session V) (is_new : Bool) (s : S)
      (answer : Answer)
      → (sess.modified || is_new) ≡ true
      → end_session ops config now id sess is_new s answer ≡ (
        (ops.save now id sess.entries (to_ℕ config.max_age) s).0,
        set_cookie (session_cookie config id) answer,
      )
  unfolding end_session
  end_session-saved config now id sess is_new s answer dirty =
      rw (end_session, dirty, if◌then◌else◌) refl

  begin_session-loads :
      (now : ℕ) (id other : String) (s : S)
      → id ≢ ""
      → (begin_session ops now id other s).1.entries ≡ loaded_entries ops (ops.load now id s).1
  unfolding begin_session
  begin_session-loads now id other s named =
      let some_cookie : (id == "") ≡ false = ground (arith, eq_iff id "") in
      rw (begin_session, some_cookie, if◌then◌else◌) refl

  -- The id under which a request's session is kept.
  abbrev pub session_id : (now : ℕ) → (cookie fresh_id : String) → S → String
  session_id now cookie fresh_id s = (begin_session ops now cookie fresh_id s).1.id

  -- Over a store that keeps what is saved: whatever the handler of a request does, with the session,
  -- with the store and with the answer, a call of `Destroy` included, if it leaves the session
  -- modified or the session is new, and the session's id is not empty, then a request with that id as
  -- its cookie, at an instant within the longest age, begins with the entries that the handler left.
  -- The answer sets that cookie behind the handler's own ones, unless the handler has already sent
  -- the header: then it does not.
  pub begin_session-middleware :
      (config : Option Config) (now later again : ℕ) (cookie fresh_id other : String)
      (handler : Handler ops) (s : S) (answer : Answer)
      → ((left_session now cookie fresh_id handler s answer).modified
          || (begin_session ops now cookie fresh_id s).2)
        ≡ true
      → session_id now cookie fresh_id s ≢ ""
      → again ≤ later + to_ℕ (with_defaults config).max_age
      → ((middleware ops config now later cookie fresh_id handler s answer).1.cookies ≡ (
          if (left_answer now cookie fresh_id handler s answer).sent
          then (left_answer now cookie fresh_id handler s answer).cookies
          else (left_answer now cookie fresh_id handler s answer).cookies
            ++ (session_cookie (with_defaults config) (session_id now cookie fresh_id s) ∷ [])))
        × ((begin_session ops again
              (session_id now cookie fresh_id s)
              other
              (middleware ops config now later cookie fresh_id handler s answer).0).1.entries
            ≡ (left_session now cookie fresh_id handler s answer).entries)
  unfolding middleware
  begin_session-middleware config now later again cookie fresh_id other handler s answer dirty named
        soon =
      let first = begin_session ops now cookie fresh_id s in
      let left = left_session now cookie fresh_id handler s answer in
      let after = left_answer now cookie fresh_id handler s answer in
      let t = (handler first.1 first.0 answer).0 in
      let c = with_defaults config in
      let saved = end_session-saved c later first.1.id left first.2 t after dirty in
      (
        ap (λ (p : S × Answer). p.1.cookies) saved
            ∙ set_cookie-cookies (session_cookie c first.1.id) after,
        begin_session-loads again first.1.id other
              (middleware ops config now later cookie fresh_id handler s answer).0 named
            ∙ ap (λ (p : S × Answer). loaded_entries ops (ops.load again first.1.id p.0).1) saved
            ∙ ap (loaded_entries ops)
                (lawful.loads later again first.1.id left.entries (to_ℕ c.max_age) t soon),
      )
