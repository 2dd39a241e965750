-- ===== src/Hub/Rooms.antt =====
-- What the hub reaches: its members against the rooms that the connections know.
use landc_go.Hub.{
  Conn, Hub, new_hub, accept, register, unregister, join_room, leave_room, broadcast, send_to,
  close_conn, drain, members_of, conn_rooms, has, add, drop_first, change_conn, send, deliver, true,
  get_or, String, List,
}
use landc_go.Hub.Members.{
  In-drop_from, drop_member-In, change_conn-In, conn_rooms-insert, conn_rooms-new, deliver-rooms,
  members_of-insert, conn_rooms-changed,
}
use landc_go.Prelude.{
  Bool-cases, In, String, apart, get_or, if◌then◌else◌, inl, inr, lookup, none, not_In-without, ok,
  refl, some, true, without, without-In, ◌≡◌, In-without, List, Option-cases, Result-cases, arith,
  eq_iff, insert, subst, ◌==◌,
}

-- What happens to the hub and its connections, in any order. `Handler` draws a new id; whoever asks
-- to enter or to leave a room has a connection.
pub data Step : Hub → Hub → Type 0 where
  accepts : {h : Hub} (id : String) → lookup id h.heap ≡ none → Step h (accept id h)
  registers : {h : Hub} (id : String) → Step h (register id h)
  unregisters : {h : Hub} (id : String) → Step h (unregister id h)
  closes : {h : Hub} (id : String) → Step h (close_conn id h)
  drains : {h : Hub} (id : String) → Step h (drain id h)
  joins :
      {h : Hub} (id room : String) (c : Conn)
      → lookup id h.heap ≡ some c
      → Step h (join_room id room h)
  leaves : {h : Hub} (id room : String) → Step h (leave_room id room h)
  broadcasts :
      {h h' : Hub} (message room exclude : String)
      → broadcast message room exclude h ≡ some h'
      → Step h h'
  sends : {h h' : Hub} (id message : String) → send_to id message h ≡ ok h' → Step h h'

pub data Reachable : Hub → Type 0 where
  begins : Reachable new_hub
  goes_on : {h h' : Hub} → Reachable h → Step h h' → Reachable h'

-- Each member of a room has the room on its own list.
abbrev Mutual : Hub → Type 0
Mutual h = (x room : String) → In x (members_of room h.rooms) → In room (conn_rooms x h.heap)

In-add : (k x : String) (xs : List String) → In x xs → In x (add k xs)
In-add k x xs i = elim (Bool-cases (k == x)) [
  | inl q ↦ inl ((eq_iff k x).0 q)
  | inr q ↦ inr (without-In k x xs i (apart k x q))
]

join-Mutual :
    (id room : String) (h : Hub) (c : Conn)
    → lookup id h.heap ≡ some c
    → Mutual h
    → Mutual (join_room id room h)
unfolding join_room
join-Mutual id room h c q m x asked i = elim (Bool-cases (room == asked)) [
  | inr p ↦ kept (
      rw (members_of-insert asked room (add id (members_of room h.rooms)) h.rooms, p, if◌then◌else◌)
        at i)
  | inl p ↦
      elim (rw
        (members_of-insert asked room (add id (members_of room h.rooms)) h.rooms, p, if◌then◌else◌)
        at i) [
          | inl same ↦
              subst
                (λ y. In asked (
                  conn_rooms y
                    (change_conn (λ c. record c { rooms = add room c.rooms }) id h.heap)))
                same
                (rw (conn_rooms-changed (λ c. record c { rooms = add room c.rooms }) id h.heap c q)
                  (inl ((eq_iff room asked).0 p)))
          | inr j ↦ kept (
              subst (λ r. In x (members_of r h.rooms)) ((eq_iff room asked).0 p)
                (In-without id x (members_of room h.rooms) j))
        ]
]
  where
    kept :
        In x (members_of asked h.rooms)
        → In asked
            (conn_rooms x (change_conn (λ c. record c { rooms = add room c.rooms }) id h.heap))
    kept j =
        change_conn-In (λ c. record c { rooms = add room c.rooms }) id x asked h.heap
          (λ c same k. In-add room asked c.rooms k) (m x asked j)

leave-Mutual : (id room : String) (h : Hub) → Mutual h → Mutual (leave_room id room h)
unfolding leave_room
leave-Mutual id room h m x asked i =
    let (there, apart) = drop_member-In asked id x room h.rooms i in
    change_conn-In (λ c. record c { rooms = without room c.rooms }) id x asked h.heap
      (λ c same j. without-In room asked c.rooms j (λ r. apart r same)) (m x asked there)

unregister-Mutual : (id : String) (h : Hub) → Mutual h → Mutual (unregister id h)
unfolding unregister
unregister-Mutual id h m = elim (Bool-cases (has id h.connections)) [
  | inl q ↦
      rw (unregister, q, if◌then◌else◌)
        (λ x room i. m x room (In-drop_from room id x (conn_rooms id h.heap) h.rooms i).0)
  | inr q ↦ rw (unregister, q, if◌then◌else◌) m
]

broadcast-Mutual :
    (message room exclude : String) (h h' : Hub)
    → broadcast message room exclude h ≡ some h'
    → Mutual h
    → Mutual h'
unfolding broadcast
broadcast-Mutual message room exclude h h' q m =
    let targets = if room == "" then h.connections else members_of room h.rooms in
    elim (Option-cases (deliver message exclude targets h.heap)) [
      | inl p ↦ absurd (ground (arith, p, q))
      | inr (heap, p) ↦
          let same : record h { heap = heap } ≡ h' = ground (arith, p, q) in
          subst Mutual same
            (λ x r i. rw (deliver-rooms message exclude x targets h.heap heap p) (m x r i))
    ]

send_to-Mutual :
    (id message : String) (h h' : Hub) → send_to id message h ≡ ok h' → Mutual h → Mutual h'
unfolding send_to send
send_to-Mutual id message h h' q m = elim (Option-cases (lookup id h.heap)) [
  | inl p ↦ absurd (ground (arith, p, q))
  | inr (c, p) ↦ elim (Result-cases (send message c)) [
    | inl (e, o) ↦ absurd (ground (arith, p, o, q))
    | inr (c', o) ↦
        let same : record h { heap = insert id c' h.heap } ≡ h' = ground (arith, p, o, q) in
        let rooms_kept : c'.rooms ≡ c.rooms = ground (arith, o) in
        subst Mutual same (λ x r i. rw (conn_rooms-insert id x c c' h.heap p rooms_kept) (m x r i))
  ]
]

step-Mutual : {h h' : Hub} → Step h h' → Mutual h → Mutual h'
unfolding accept register close_conn drain
step-Mutual {h} (accepts id fresh) m =
    λ x room i. conn_rooms-new id x room _ h.heap fresh (m x room i)
step-Mutual (registers id) m = m
step-Mutual {h} (unregisters id) m = unregister-Mutual id h m
step-Mutual {h} (closes id) m = λ x room i.
    change_conn-In (λ c. record c { closed = true }) id x room h.heap (λ c same j. j) (m x room i)
step-Mutual {h} (drains id) m = λ x room i.
    change_conn-In (λ c. record c { send = drop_first c.send }) id x room h.heap (λ c same j. j)
      (m x room i)
step-Mutual {h} (joins id room c q) m = join-Mutual id room h c q m
step-Mutual {h} (leaves id room) m = leave-Mutual id room h m
step-Mutual {h} {h'} (broadcasts message room exclude q) m =
    broadcast-Mutual message room exclude h h' q m
step-Mutual {h} {h'} (sends id message q) m = send_to-Mutual id message h h' q m

Reachable-Mutual : {h : Hub} → Reachable h → Mutual h
unfolding members_of get_or lookup
Reachable-Mutual begins = λ x room i. absurd i
Reachable-Mutual (goes_on r s) = step-Mutual s (Reachable-Mutual r)

-- Whatever has happened before: the end of a registered connection takes it out of the hub's
-- connections and out of every room.
pub unregister-leaves :
    (h : Hub) (id : String)
    → Reachable h
    → has id h.connections ≡ true
    → (¬ In id (unregister id h).connections)
      × ((room : String) → ¬ In id (members_of room (unregister id h).rooms))
unfolding unregister
unregister-leaves h id r here =
    rw (unregister, here, if◌then◌else◌)
      (
        not_In-without id h.connections,
        λ room i.
            let (there, away) = In-drop_from room id id (conn_rooms id h.heap) h.rooms i in
            away (Reachable-Mutual r id room there) refl,
      )
