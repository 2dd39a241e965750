-- ===== src/Examples/Rooms.antt =====
-- The hub: examples.
use landc_go.Hub.{Conn, Hub, new_hub, accept, register, unregister, join_room, has, members_of}
use landc_go.Hub.Rooms.{Reachable, begins, goes_on, accepts, registers, joins, unregister-leaves}
use landc_go.Prelude.{In, String, [], false, lookup, refl, some, true, ◌≡◌}

-- A registered connection that has entered a room.
abbrev busy : Hub
busy = join_room "a" "lobby" (register "a" (accept "a" new_hub))

abbrev fresh_conn : Conn
fresh_conn = record { rooms = []; send = []; buffer = 256; closed = false }

accepted : lookup "a" (register "a" (accept "a" new_hub)).heap ≡ some fresh_conn
unfolding register accept landc_go.Prelude.lookup landc_go.Prelude.insert
accepted = refl

busy-Reachable : Reachable busy
unfolding landc_go.Prelude.lookup
busy-Reachable =
    goes_on (goes_on (goes_on begins (accepts "a" refl)) (registers "a"))
      (joins "a" "lobby" fresh_conn accepted)

busy_has : has "a" busy.connections ≡ true
unfolding join_room register
busy_has = refl

unregister-leaves_example :
    (¬ In "a" (unregister "a" busy).connections)
    × ((room : String) → ¬ In "a" (members_of room (unregister "a" busy).rooms))
unregister-leaves_example = unregister-leaves busy "a" busy-Reachable busy_has
