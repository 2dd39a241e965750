-- ===== src/Hub/Members.antt =====
-- The members of the rooms, and the rooms of the connections.
use landc_go.Hub.{
  Conn, keep_room, drop_member, drop_from, members_of, conn_rooms, change_conn, some, none, insert,
  deliver, offer,
}
use landc_go.Prelude.{
  In, List, Map, String, [], arith, get_or, if◌then◌else◌, lookup-delete, lookup-insert, without,
  ◌==◌, ◌∷◌, ◌≡◌, ◌≢◌, Bool-cases, In-without, Option-cases, apart, eq_iff, inl, inr, lookup,
  not_In-without, refl, subst, sym, ◌∙◌, none, some, insert, eq_refl, get_or-insert,
}

members_of-keep_room :
    (asked room : String) (ms : List String) (rooms : Map (List String))
    → members_of asked (keep_room room ms rooms)
      ≡ (if room == asked then ms else members_of asked rooms)
unfolding members_of keep_room get_or
members_of-keep_room asked room [] rooms = ground (arith, lookup-delete room asked rooms)
members_of-keep_room asked room (m ∷ ms) rooms =
    ground (arith, lookup-insert room asked (m ∷ ms) rooms)

pub members_of-insert :
    (asked room : String) (ms : List String) (rooms : Map (List String))
    → members_of asked (insert room ms rooms)
      ≡ (if room == asked then ms else members_of asked rooms)
unfolding members_of
members_of-insert asked room ms rooms = get_or-insert room asked ms [] rooms

members_of-none :
    (room : String) (rooms : Map (List String))
    → lookup room rooms ≡ none
    → members_of room rooms ≡ []
unfolding members_of get_or
members_of-none room rooms q = rw (members_of, get_or, q) refl

members_of-some :
    (room : String) (rooms : Map (List String)) (ms : List String)
    → lookup room rooms ≡ some ms
    → members_of room rooms ≡ ms
unfolding members_of get_or
members_of-some room rooms ms q = rw (members_of, get_or, q) refl

members_of-drop_member :
    (asked id room : String) (rooms : Map (List String))
    → members_of asked (drop_member id room rooms)
      ≡ (if room == asked then without id (members_of asked rooms) else members_of asked rooms)
unfolding drop_member
members_of-drop_member asked id room rooms = elim (Option-cases (lookup room rooms)) [
  | inl q ↦ elim (Bool-cases (room == asked)) [
    | inl p ↦
        let none_here = rw ((eq_iff room asked).0 p) at q in
        rw (drop_member, q, p, if◌then◌else◌, members_of-none asked rooms none_here) refl
    | inr p ↦ rw (drop_member, q, p, if◌then◌else◌) refl
  ]
  | inr (ms, q) ↦ elim (Bool-cases (room == asked)) [
    | inl p ↦
        let found = rw ((eq_iff room asked).0 p) at q in
        rw (drop_member, q, members_of-keep_room asked room (without id ms) rooms, p, if◌then◌else◌)
          (rw (members_of-some asked rooms ms found) refl)
    | inr p ↦
        rw (drop_member, q, members_of-keep_room asked room (without id ms) rooms, p, if◌then◌else◌)
          refl
  ]
]

pub drop_member-In :
    (asked id x room : String) (rooms : Map (List String))
    → In x (members_of asked (drop_member id room rooms))
    → In x (members_of asked rooms) × (room ≡ asked → id ≢ x)
drop_member-In asked id x room rooms i = elim (Bool-cases (room == asked)) [
  | inl q ↦
      let j = rw (members_of-drop_member asked id room rooms, q, if◌then◌else◌) at i in
      (
        In-without id x (members_of asked rooms) j,
        λ _ same.
            not_In-without id (members_of asked rooms)
              (subst (λ y. In y (without id (members_of asked rooms))) (sym same) j),
      )
  | inr q ↦ (
    rw (members_of-drop_member asked id room rooms, q, if◌then◌else◌) at i,
    λ same. absurd (ground (arith, eq_iff room asked)),
  )
]

pub In-drop_from :
    (asked id x : String) (left : List String) (rooms : Map (List String))
    → In x (members_of asked (drop_from id left rooms))
    → In x (members_of asked rooms) × (In asked left → id ≢ x)
unfolding drop_from
In-drop_from asked id x [] rooms i = (i, λ j. absurd j)
In-drop_from asked id x (room ∷ more) rooms i =
    let (j, away) = In-drop_from asked id x more (drop_member id room rooms) i in
    let (there, apart) = drop_member-In asked id x room rooms j in
    (there, λ k. elim k [ inl q ↦ apart q | inr l ↦ away l ])

lookup-change_conn :
    (f : Conn → Conn) (id x : String) (heap : Map Conn) (c : Conn)
    → lookup x heap ≡ some c
    → lookup x (change_conn f id heap) ≡ some (if id == x then f c else c)
unfolding change_conn
lookup-change_conn f id x heap c q = elim (Option-cases (lookup id heap)) [
  | inl none_here ↦ ground (arith, q, none_here, eq_iff id x)
  | inr (d, found) ↦ ground (arith, q, found, lookup-insert id x (f d) heap, eq_iff id x)
]

pub conn_rooms-some :
    (x : String) (heap : Map Conn) (c : Conn) → lookup x heap ≡ some c → conn_rooms x heap ≡ c.rooms
unfolding conn_rooms
conn_rooms-some x heap c q = rw (conn_rooms, q) refl

pub conn_rooms-none : (x : String) (heap : Map Conn) → lookup x heap ≡ none → conn_rooms x heap ≡ []
unfolding conn_rooms
conn_rooms-none x heap q = rw (conn_rooms, q) refl

-- A change that keeps a room on the list of the connection it is made to.
pub change_conn-In :
    (f : Conn → Conn) (id x r : String) (heap : Map Conn)
    → ((c : Conn) → id ≡ x → In r c.rooms → In r (f c).rooms)
    → In r (conn_rooms x heap)
    → In r (conn_rooms x (change_conn f id heap))
change_conn-In f id x r heap keeps i = elim (Option-cases (lookup x heap)) [
  | inl q ↦ absurd (rw (conn_rooms-none x heap q) at i)
  | inr (c, q) ↦
      let j = rw (conn_rooms-some x heap c q) at i in
      rw (conn_rooms-some x (change_conn f id heap) _ (lookup-change_conn f id x heap c q))
        (elim (Bool-cases (id == x)) [
          | inl p ↦ rw (p, if◌then◌else◌) (keeps c ((eq_iff id x).0 p) j)
          | inr p ↦ rw (p, if◌then◌else◌) j
        ])
]

pub conn_rooms-changed :
    (f : Conn → Conn) (id : String) (heap : Map Conn) (c : Conn)
    → lookup id heap ≡ some c
    → conn_rooms id (change_conn f id heap) ≡ (f c).rooms
unfolding conn_rooms
conn_rooms-changed f id heap c q = ground (arith, lookup-change_conn f id id heap c q, eq_refl id)

-- A connection put back with the rooms that it had.
pub conn_rooms-insert :
    (id x : String) (c c' : Conn) (heap : Map Conn)
    → lookup id heap ≡ some c
    → c'.rooms ≡ c.rooms
    → conn_rooms x (insert id c' heap) ≡ conn_rooms x heap
unfolding conn_rooms
conn_rooms-insert id x c c' heap q same =
    ground (arith, q, same, lookup-insert id x c' heap, eq_iff id x)

pub conn_rooms-new :
    (id x r : String) (c : Conn) (heap : Map Conn)
    → lookup id heap ≡ none
    → In r (conn_rooms x heap)
    → In r (conn_rooms x (insert id c heap))
unfolding conn_rooms
conn_rooms-new id x r c heap fresh i = elim (Bool-cases (id == x)) [
  | inl q ↦ absurd (rw (conn_rooms-none x heap (rw ((eq_iff id x).0 q) at fresh)) at i)
  | inr q ↦ rw (conn_rooms, lookup-insert id x c heap, q, if◌then◌else◌) i
]

offer-rooms : (message : String) (c c' : Conn) → offer message c ≡ some c' → c'.rooms ≡ c.rooms
offer-rooms message c c' h = ground arith

pub deliver-rooms :
    (message exclude x : String) (ids : List String) (heap heap' : Map Conn)
    → deliver message exclude ids heap ≡ some heap'
    → conn_rooms x heap' ≡ conn_rooms x heap
unfolding deliver
deliver-rooms message exclude x [] heap heap' h = ground arith
deliver-rooms message exclude x (id ∷ ids) heap heap' h = elim (Bool-cases (id == exclude)) [
  | inl q ↦ deliver-rooms message exclude x ids heap heap' (rw (deliver, q, if◌then◌else◌) at h)
  | inr q ↦ elim (Option-cases (lookup id heap)) [
    | inl p ↦
        deliver-rooms message exclude x ids heap heap' (rw (deliver, q, if◌then◌else◌, p) at h)
    | inr (c, p) ↦ elim (Option-cases (offer message c)) [
      | inl o ↦ absurd (ground (arith, (rw (deliver, q, if◌then◌else◌, p, o) at h)))
      | inr (c', o) ↦
          deliver-rooms message exclude x ids (insert id c' heap) heap'
            (rw (deliver, q, if◌then◌else◌, p, o) at h)
          ∙ conn_rooms-insert id x c c' heap p (offer-rooms message c c' o)
    ]
  ]
]
