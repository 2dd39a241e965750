-- ===== src/Examples/Sessions.antt =====
-- Sessions: examples.
use landc_go.Session.{
  StoreOps, Answer, destroy_session, set_cookie, removed_cookie, default_config, session_cookie,
  with_defaults, Handler, IsStore, begin_session, middleware, set_value,
}
use landc_go.Session.Memory.{Entry, memory_store, memory_store-IsStore}
use landc_go.Session.Persist.{left_session, session_id, begin_session-middleware}
use landc_go.Prelude.{
  String, [], apart, arith, none, refl, to_ℕ, true, ◌+◌, ◌||◌, ◌≡◌, ◌≢◌, ◌≤◌, false, ◌∷◌, Map,
}

memory_store-IsStore_example : IsStore (memory_store {V = String})
memory_store-IsStore_example = memory_store-IsStore

abbrev store : StoreOps String (Map (Entry String))
store = memory_store {V = String}

-- Sets a value, and destroys the session.
abbrev logout : Handler store
logout sess s answer =
    let (s', answer', done) = destroy_session store none 10 sess s answer in
    (s', set_value "user" "nobody" sess, answer')

abbrev empty_answer : Answer
empty_answer = record { sent = false; cookies = [] }

first_id : session_id store memory_store-IsStore 10 "" "s1" [] ≢ ""
unfolding begin_session
first_id = apart "s1" "" refl

first_dirty :
    ((left_session store memory_store-IsStore 10 "" "s1" logout [] empty_answer).modified
      || (begin_session store 10 "" "s1" []).2)
    ≡ true
unfolding begin_session set_value
first_dirty = refl

first_soon : 20 ≤ 12 + to_ℕ (with_defaults none).max_age
unfolding with_defaults
first_soon = omega arith

begin_session-middleware_example :
    ((middleware store none 10 12 "" "s1" logout [] empty_answer).1.cookies
      ≡ removed_cookie default_config
        ∷ session_cookie (with_defaults none) (session_id store memory_store-IsStore 10 "" "s1" [])
        ∷ [])
    × ((begin_session store 20
          (session_id store memory_store-IsStore 10 "" "s1" [])
          ""
          (middleware store none 10 12 "" "s1" logout [] empty_answer).0).1.entries
        ≡ (left_session store memory_store-IsStore 10 "" "s1" logout [] empty_answer).entries)
unfolding destroy_session set_cookie memory_store
begin_session-middleware_example =
    begin_session-middleware memory_store memory_store-IsStore none 10 12 20 "" "s1" "" logout []
      empty_answer first_dirty first_id first_soon
