-- ===== src/Session.antt =====
-- frame/pkg/session/session.go: sessions, the middleware that loads and saves them, and their store
-- in memory. `V` is the type of the values, in Go `interface{}`.
pub mod Memory
pub mod Persist
use Prim.Native.Nat.{◌/◌}
use landc_go.Prelude.{
  Bool, Map, Option, Result, String, [], delete, err, false, if◌then◌else◌, insert, lookup, ltb_ℤ,
  none, ok, pos, some, to_ℕ, true, ℕ, ℤ, ◌*◌, ◌+◌, ◌==◌, ◌||◌, ◌≡◌, ◌≤◌, List, negsuc, ◌++◌, ◌∷◌,
}

-- The settings that decide something here; the others only pass into the cookie. A negative age counts
-- as the default, so `max_age` behind `with_defaults` is positive.
pub record Config : Type 0 where
  pub cookie_name : String
  pub max_age : ℤ
  pub path : String

-- In nanoseconds.
abbrev pub day : ℕ
day = 86400 * 1000000000

abbrev pub default_config : Config
default_config = record { cookie_name = "landc_session"; max_age = pos day; path = "/" }

-- What `Middleware` makes of its configuration, which may be nil.
unfoldable pub with_defaults : Option Config → Config
with_defaults none = default_config
with_defaults (some config) = record {
  cookie_name = if config.cookie_name == "" then "landc_session" else config.cookie_name;
  max_age = if ltb_ℤ (pos 0) config.max_age then config.max_age else pos day;
  path = if config.path == "" then "/" else config.path;
}

-- The cookie, with its age in seconds. Domain, Secure, HttpOnly and SameSite only pass through.
pub record Cookie : Type 0 where
  pub name : String
  pub value : String
  pub max_age : ℤ
  pub path : String

abbrev pub session_cookie : Config → String → Cookie
session_cookie config id = record {
  name = config.cookie_name;
  value = id;
  max_age = pos (to_ℕ config.max_age / 1000000000);
  path = config.path;
}

abbrev pub removed_cookie : Config → Cookie
removed_cookie config = record {
  name = config.cookie_name;
  value = "";
  max_age = negsuc 0;
  path = config.path;
}

-- The answer of a request: whether its header is out, as it is once a body has been written, and the
-- cookies in the header.
pub record Answer : Type 0 where
  pub sent : Bool
  pub cookies : List Cookie

-- gin's `SetCookie` adds to the header, which does nothing once that is out.
unfoldable pub set_cookie : Cookie → Answer → Answer
set_cookie cookie answer =
    if answer.sent then answer else record answer { cookies = answer.cookies ++ (cookie ∷ []) }

pub record Session (V : Type 0) : Type 0 where
  pub id : String
  pub entries : Map V
  pub modified : Bool

module _ {V : Type 0} where
  unfoldable pub get_value : String → Session V → Option V
  unfolding lookup
  get_value key sess = lookup key sess.entries

  unfoldable pub set_value : String → V → Session V → Session V
  unfolding insert
  set_value key value sess = record sess {
    entries = insert key value sess.entries;
    modified = true;
  }

  unfoldable pub delete_value : String → Session V → Session V
  unfolding delete
  delete_value key sess = record sess { entries = delete key sess.entries; modified = true }

  unfoldable pub clear_values : Session V → Session V
  clear_values sess = record sess { entries = []; modified = true }

pub data SessionError : Type 0 where
  session_error : String → SessionError

-- The interface `Store`, at the instant of the call. `ok none` is a nil map; `false` stands for an
-- error of the other calls.
pub record StoreOps (V S : Type 0) : Type 0 where
  pub load : (now : ℕ) → String → S → S × Result SessionError (Option (Map V))
  pub save : (now : ℕ) → String → Map V → (max_age : ℕ) → S → S × Bool
  pub destroy : (now : ℕ) → String → S → S × Bool

-- What the middleware relies on: a saved session is loaded until its time has run out, a deleted one
-- is not there.
pub record IsStore {V S : Type 0} (ops : StoreOps V S) : Type 0 where
  pub loads :
      (now later : ℕ) (id : String) (entries : Map V) (max_age : ℕ) (s : S)
      → later ≤ now + max_age
      → (ops.load later id (ops.save now id entries max_age s).0).1 ≡ ok (some entries)
  pub forgets :
      (now later : ℕ) (id : String) (s : S)
      → (ops.load later id (ops.destroy now id s).0).1 ≡ ok none

module _ {V S : Type 0} (ops : StoreOps V S) where
  abbrev pub loaded_entries : Result SessionError (Option (Map V)) → Map V
  loaded_entries (ok (some entries)) = entries
  loaded_entries (ok none) = []
  loaded_entries (err e) = []

  -- The session in front of the handler, and whether it is new: the cookie's value may be empty.
  unfoldable pub begin_session : (now : ℕ) → (cookie fresh_id : String) → S → S × Session V × Bool
  begin_session now cookie fresh_id s =
      if cookie == ""
      then (s, record { id = fresh_id; entries = []; modified = false }, true)
      else (let (s', found) = ops.load now cookie s in
          (s', record { id = cookie; entries = loaded_entries found; modified = false }, false))

  -- Behind the handler. An error of the store is noted only.
  unfoldable pub end_session :
      Config → (now : ℕ) → (id : String) → Session V → (is_new : Bool) → S → Answer → S × Answer
  unfolding set_cookie
  end_session config now id sess is_new s answer =
      if sess.modified || is_new
      then (
        (ops.save now id sess.entries (to_ℕ config.max_age) s).0,
        set_cookie (session_cookie config id) answer,
      )
      else (s, answer)

  -- The handlers behind the middleware: they have the session, the store, which `Destroy` takes, and
  -- the answer, which they may send.
  abbrev pub Handler : Type 0
  Handler = Session V → S → Answer → S × Session V × Answer

  unfoldable pub middleware :
      Option Config
      → (now later : ℕ) → (cookie fresh_id : String) → Handler
      → S
      → Answer
      → S × Answer
  unfolding begin_session end_session with_defaults
  middleware config now later cookie fresh_id handler s answer =
      let (s1, sess, is_new) = begin_session now cookie fresh_id s in
      let (s2, sess', answer') = handler sess s1 answer in
      end_session (with_defaults config) later sess.id sess' is_new s2 answer'

  -- `Destroy`, behind the middleware: the session leaves the store, not the request, and the answer
  -- takes the cookie back. `false` stands for the store's error.
  unfoldable pub destroy_session :
      Option Config → (now : ℕ) → Session V → S → Answer → S × Answer × Bool
  unfolding set_cookie
  destroy_session config now sess s answer =
      let c : Config = elim config [ none ↦ default_config | some given ↦ given ] in
      let (s', done) = ops.destroy now sess.id s in
      if done then (s', set_cookie (removed_cookie c) answer, true) else (s', answer, false)
