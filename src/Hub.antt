-- ===== src/Hub.antt =====
-- frame/pkg/websocket/websocket.go: the hub, its connections and its rooms. A set of ids or of room
-- names, in Go the keys of a map, is a list; `heap` has the `Conn` objects by their ids.
pub mod Members
pub mod Rooms
use landc_go.Prelude.{
  Bool, List, Map, Option, Result, String, [], any, delete, err, false, get_or, if◌then◌else◌,
  insert, length, lookup, ltb, none, ok, some, true, without, ℕ, ◌++◌, ◌==◌, ◌∷◌,
}

pub record Conn : Type 0 where
  pub rooms : List String
  pub send : List String
  pub buffer : ℕ
  pub closed : Bool

pub record Hub : Type 0 where
  pub heap : Map Conn
  pub connections : List String
  pub rooms : Map (List String)
  pub send_buffer_size : ℕ

abbrev pub new_hub : Hub
new_hub = record { heap = []; connections = []; rooms = []; send_buffer_size = 256 }

abbrev pub has : String → List String → Bool
has k xs = any (λ x. x == k) xs

abbrev pub add : String → List String → List String
add k xs = k ∷ without k xs

-- `Handler` makes the connection of a new id.
unfoldable pub accept : String → Hub → Hub
unfolding insert
accept id h = record h {
  heap =
      insert id (record { rooms = []; send = []; buffer = h.send_buffer_size; closed = false })
        h.heap;
}

unfoldable pub change_conn : (Conn → Conn) → String → Map Conn → Map Conn
unfolding lookup insert
change_conn f id heap = elim (lookup id heap) [ none ↦ heap | some c ↦ insert id (f c) heap ]

-- The cases of `run`: a registration, ...
unfoldable pub register : String → Hub → Hub
register id h = record h { connections = add id h.connections }

unfoldable pub conn_rooms : String → Map Conn → List String
unfolding lookup
conn_rooms id heap = elim (lookup id heap) [ none ↦ [] | some c ↦ c.rooms ]

unfoldable pub keep_room : String → List String → Map (List String) → Map (List String)
unfolding insert delete
keep_room room [] rooms = delete room rooms
keep_room room (m ∷ ms) rooms = insert room (m ∷ ms) rooms

-- The id leaves the members of a room; a room without members goes.
unfoldable pub drop_member : String → String → Map (List String) → Map (List String)
unfolding lookup keep_room
drop_member id room rooms = elim (lookup room rooms) [
  | none ↦ rooms
  | some members ↦ keep_room room (without id members) rooms
]

unfoldable pub drop_from : String → List String → Map (List String) → Map (List String)
unfolding drop_member
drop_from id [] rooms = rooms
drop_from id (room ∷ more) rooms = drop_from id more (drop_member id room rooms)

-- ... the end of one, ...
unfoldable pub unregister : String → Hub → Hub
unfolding drop_from conn_rooms
unregister id h =
    if has id h.connections
    then record h {
      connections = without id h.connections;
      rooms = drop_from id (conn_rooms id h.heap) h.rooms;
    }
    else h

unfoldable pub members_of : String → Map (List String) → List String
unfolding get_or
members_of room rooms = get_or room rooms []

-- ... an entry into a room, ...
unfoldable pub join_room : String → String → Hub → Hub
unfolding members_of insert change_conn
join_room id room h = record h {
  rooms = insert room (add id (members_of room h.rooms)) h.rooms;
  heap = change_conn (λ c. record c { rooms = add room c.rooms }) id h.heap;
}

-- ... a leave, ...
unfoldable pub leave_room : String → String → Hub → Hub
unfolding drop_member change_conn
leave_room id room h = record h {
  rooms = drop_member id room h.rooms;
  heap = change_conn (λ c. record c { rooms = without room c.rooms }) id h.heap;
}

-- A message offered to the channel of a connection: it is dropped where the buffer is full, and
-- `none` stands for the panic of a send on a closed channel.
abbrev pub offer : String → Conn → Option Conn
offer message c =
    if c.closed
    then none
    else some
        (if ltb (length c.send) c.buffer then record c { send = c.send ++ message ∷ [] } else c)

unfoldable pub deliver : String → String → List String → Map Conn → Option (Map Conn)
unfolding lookup insert
deliver message exclude [] heap = some heap
deliver message exclude (id ∷ ids) heap =
    if id == exclude then deliver message exclude ids heap else elim (lookup id heap) [
      | none ↦ deliver message exclude ids heap
      | some c ↦ elim (offer message c) [
        | none ↦ none
        | some c' ↦ deliver message exclude ids (insert id c' heap)
      ]
    ]

-- ... and a broadcast, to all connections where the room has no name.
unfoldable pub broadcast : String → String → String → Hub → Option Hub
unfolding deliver members_of
broadcast message room exclude h =
    let targets = if room == "" then h.connections else members_of room h.rooms in
    elim (deliver message exclude targets h.heap) [
      | none ↦ none
      | some heap ↦ some (record h { heap = heap })
    ]

-- `Conn.Close`, whose last part is to ask the hub to unregister.
unfoldable pub close_conn : String → Hub → Hub
unfolding change_conn
close_conn id h = record h { heap = change_conn (λ c. record c { closed = true }) id h.heap }

abbrev pub drop_first : List String → List String
drop_first [] = []
drop_first (x ∷ xs) = xs

-- `writePump` takes a message from the channel.
unfoldable pub drain : String → Hub → Hub
unfolding change_conn
drain id h = record h { heap = change_conn (λ c. record c { send = drop_first c.send }) id h.heap }

pub data SendError : Type 0 where
  conn_not_found conn_closed buffer_full : SendError

-- `Conn.Send`
unfoldable pub send : String → Conn → Result SendError Conn
send message c =
    if c.closed
    then err conn_closed
    else (if ltb (length c.send) c.buffer
        then ok (record c { send = c.send ++ message ∷ [] })
        else err buffer_full)

unfoldable pub send_to : String → String → Hub → Result SendError Hub
unfolding send lookup insert
send_to id message h =
    if has id h.connections
    then elim (lookup id h.heap) [
      | none ↦ err conn_not_found
      | some c ↦ elim (send message c) [
        | err e ↦ err e
        | ok c' ↦ ok (record h { heap = insert id c' h.heap })
      ]
    ]
    else err conn_not_found

unfoldable pub conn_count : Hub → ℕ
conn_count h = length h.connections

unfoldable pub room_count : String → Hub → ℕ
unfolding members_of
room_count room h = length (members_of room h.rooms)
