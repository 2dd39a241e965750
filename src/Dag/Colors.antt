-- ===== src/Dag/Colors.antt =====
-- What entering and leaving an id does to the colours of `detectCycle`, and how they may change.
use landc_go.Dag.Cycle.{
  Search, white, gray, black, color_of, enter, leave, initial_search, Visit, Color, search_from,
  scan, EdgeInfo,
}
use landc_go.Prelude.{
  List, String, sym, ◌∙◌, ◌≡◌, ◌≢◌, arith, if◌then◌else◌, ◌∷◌, eq_iff, get_or-insert, ◌==◌, [],
  refl, false, inl, inr, none, some, true, ◌++◌, ◌⊎◌,
}

pub color_of-enter :
    (id u : String) (s : Search)
    → color_of (enter id s) u ≡ (if id == u then gray else color_of s u)
unfolding color_of enter
color_of-enter id u s = get_or-insert id u gray white s.color

pub color_of-leave :
    (id u : String) (s : Search)
    → color_of (leave id s) u ≡ (if id == u then black else color_of s u)
unfolding color_of leave
color_of-leave id u s = get_or-insert id u black white s.color

pub color_of-path :
    (p : List String) (u : String) (s : Search) → color_of (record s { path = p }) u ≡ color_of s u
unfolding color_of
color_of-path p u s = refl

pub color_of-initial_search :
    (ids : List String) (u : String) → color_of (initial_search ids) u ≡ white
unfolding color_of initial_search
color_of-initial_search [] u = refl
color_of-initial_search (id ∷ ids) u = ground (
  arith,
  get_or-insert id u white white (initial_search ids).color,
  color_of-initial_search ids u,
)

pub white≢gray : white ≢ gray
white≢gray h = cc

pub black≢white : black ≢ white
black≢white h = cc

-- Ids that are no longer white keep their colour.
abbrev pub Keeps : Search → Search → Type 0
Keeps s t = (u : String) → color_of s u ≢ white → color_of t u ≡ color_of s u

pub Keeps-trans : (s t r : Search) → Keeps s t → Keeps t r → Keeps s r
Keeps-trans s t r h k u d = k u (λ e. d (sym (h u d) ∙ e)) ∙ h u d

-- A visit that starts at a white id and ends by leaving it keeps every other colour.
pub Keeps-visit :
    (id : String) (s t : Search)
    → color_of s id ≡ white
    → Keeps (enter id s) t
    → Keeps s (leave id t)
Keeps-visit id s t w h u d =
    ground (arith, color_of-enter id u s, color_of-leave id u t, eq_iff id u, h u)

pub Color-cases : (c : Color) → (c ≡ white) ⊎ (c ≡ gray) ⊎ (c ≡ black)
Color-cases white = inl refl
Color-cases gray = inr (inl refl)
Color-cases black = inr (inr refl)

-- One round of `scan`, by the colour of the edge's target and the answer of the visit.
module _ (visit : Visit) (e : EdgeInfo) (es : List EdgeInfo) (s : Search) where
  pub scan-gray :
      color_of s e.target_id ≡ gray
      → scan visit (e ∷ es) s ≡ some (true, record s { path = s.path ++ e.target_id ∷ [] })
  unfolding scan
  scan-gray c = rw (c, scan)

  pub scan-black : color_of s e.target_id ≡ black → scan visit (e ∷ es) s ≡ scan visit es s
  unfolding scan
  scan-black c = rw (c, scan)

  pub scan-white_true :
      (t : Search)
      → color_of s e.target_id ≡ white
      → visit e.target_id s ≡ some (true, t)
      → scan visit (e ∷ es) s ≡ some (true, t)
  unfolding scan
  scan-white_true t c v = rw (c, scan, v)

  pub scan-white_false :
      (t : Search)
      → color_of s e.target_id ≡ white
      → visit e.target_id s ≡ some (false, t)
      → scan visit (e ∷ es) s ≡ scan visit es t
  unfolding scan
  scan-white_false t c v = rw (c, scan, v)

  pub scan-white_none :
      color_of s e.target_id ≡ white → visit e.target_id s ≡ none → scan visit (e ∷ es) s ≡ none
  unfolding scan
  scan-white_none c v = rw (c, scan, v)

-- One round of `search_from`, in the same way.
module _ (visit : Visit) (id : String) (ids : List String) (s : Search) where
  pub search-seen : color_of s id ≢ white → search_from visit (id ∷ ids) s ≡ search_from visit ids s
  unfolding search_from
  search-seen d = elim (Color-cases (color_of s id)) [
    | inl c ↦ absurd (d c)
    | inr (inl c) ↦ rw (c, search_from)
    | inr (inr c) ↦ rw (c, search_from)
  ]

  pub search-white_true :
      (t : Search)
      → color_of s id ≡ white
      → visit id (record s { path = [] }) ≡ some (true, t)
      → search_from visit (id ∷ ids) s ≡ some (some t.path)
  unfolding search_from
  search-white_true t c v = rw (c, search_from, v)

  pub search-white_false :
      (t : Search)
      → color_of s id ≡ white
      → visit id (record s { path = [] }) ≡ some (false, t)
      → search_from visit (id ∷ ids) s ≡ search_from visit ids t
  unfolding search_from
  search-white_false t c v = rw (c, search_from, v)

pub black≢gray : black ≢ gray
black≢gray h = cc
