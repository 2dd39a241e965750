-- ===== src/Parser.antt =====
-- frame/pkg/cmd/parser.go: the parser of a command line. Texts are read by their characters, which
-- are Go's bytes where the text is ASCII.
pub mod Printing
use Prim.Native.Char.{Char, code}
use landc_go.Prelude.{
  Bool, List, Map, Option, String, [], eqb, false, get_or, if◌then◌else◌, insert, lookup, none, not,
  some, true, ◌&&◌, ◌++◌, ◌==◌, ◌∷◌, drop, ltb_ℤ, pos, to_ℕ, ℤ,
}

-- What the code tells of an argument from its prefix and its length. `short` has one character.
pub data Shape : Type 0 where
  plain ignored : Shape
  long short : (text : String) → Shape

abbrev pub is_dash : Char → Bool
is_dash c = eqb (code c) b'-'

abbrev pub has_dash : String → Bool
has_dash String.[] = false
has_dash (String.◌∷◌ c s) = is_dash c

abbrev pub behind_dash : String → Shape
behind_dash String.[] = ignored
behind_dash (String.◌∷◌ c String.[]) =
    if is_dash c then long String.[] else short (String.◌∷◌ c String.[])
behind_dash (String.◌∷◌ c (String.◌∷◌ d s)) = if is_dash c then long (String.◌∷◌ d s) else ignored

unfoldable pub shape : String → Shape
shape String.[] = plain
shape (String.◌∷◌ c s) = if is_dash c then behind_dash s else plain

-- `strings.SplitN(text, "=", 2)`.
unfoldable pub split_assignment : String → String × Option String
split_assignment String.[] = (String.[], none)
split_assignment (String.◌∷◌ c s) =
    let (name, value) = split_assignment s in
    if eqb (code c) b'=' then (String.[], some s) else (String.◌∷◌ c name, value)

pub record Parser : Type 0 where
  pub options : Map String
  pub arguments : List String
  pub supported_options : Map Bool
  pub option_aliases : Map String
  pub strict : Bool

unfoldable pub new_parser : Parser
new_parser = record {
  options = [];
  arguments = [];
  supported_options = [];
  option_aliases = [];
  strict = false;
}

-- The loop over the aliases of an option.
unfoldable pub set_aliases : (name value : String) → Map String → Map String → Map String
unfolding insert
set_aliases name value [] options = options
set_aliases name value ((alias, main) ∷ rest) options =
    set_aliases name value rest (if main == name then insert alias value options else options)

unfoldable pub set_option_value : (name value : String) → Parser → Parser
unfolding lookup insert set_aliases
set_option_value name value p = record p {
  options = elim (lookup name p.option_aliases) [
    | some main ↦ insert name value (insert main value p.options)
    | none ↦ set_aliases name value p.option_aliases (insert name value p.options)
  ];
}

abbrev pub is_some {ℓ} : {A : Type ℓ} → Option A → Bool
is_some none = false
is_some (some a) = true

abbrev pub is_empty {ℓ} : {A : Type ℓ} → List A → Bool
is_empty [] = true
is_empty (x ∷ xs) = false

-- The test at which strict mode gives up.
unfoldable pub is_refused : String → Parser → Bool
unfolding lookup
is_refused name p =
    not (is_empty p.supported_options)
    && not (is_some (lookup name p.supported_options))
    && not (is_some (lookup name p.option_aliases))
    && p.strict

-- One round of the loop: it ends the loop, goes on, or goes on behind the next argument.
pub data Move : Type 0 where
  gives_up : Move
  goes_on skips_next : (p : Parser) → Move

-- An option whose value may be the next argument, which `next` is if it is no option.
abbrev pub with_next : (has_value : Bool) (next : Option String) (name : String) → Parser → Move
with_next true (some value) name p = skips_next (set_option_value name value p)
with_next true none name p = goes_on (set_option_value name "" p)
with_next false next name p = goes_on (set_option_value name "" p)

abbrev pub long_option : (next : Option String) → String × Option String → Parser → Move
long_option next (name, some value) p =
    if is_refused name p then gives_up else goes_on (set_option_value name value p)
long_option next (name, none) p =
    if is_refused name p
    then gives_up
    else with_next (get_or name p.supported_options false) next name p

unfoldable pub read_shape : String → (next : Option String) → Parser → Shape → Move
unfolding split_assignment is_refused set_option_value get_or
read_shape arg next p plain = goes_on (record p { arguments = p.arguments ++ (arg ∷ []) })
read_shape arg next p ignored = goes_on p
read_shape arg next p (long text) = long_option next (split_assignment text) p
read_shape arg next p (short name) =
    if is_refused name p
    then gives_up
    else with_next (get_or name p.supported_options (is_empty p.supported_options)) next name p

unfoldable pub move : String → (next : Option String) → Parser → Move
unfolding shape read_shape
move arg next p = read_shape arg next p (shape arg)

abbrev pub value_of : String → Option String
value_of next = if has_dash next then none else some next

-- The loop of `parse`.
unfoldable pub parse_from : List String → Parser → Parser
unfolding move
parse_from [] p = p
parse_from (arg ∷ []) p = elim (move arg none p) [
  | gives_up ↦ p
  | goes_on p' ↦ p'
  | skips_next p' ↦ p'
]
parse_from (arg ∷ next ∷ rest) p = elim (move arg (value_of next) p) [
  | gives_up ↦ p
  | goes_on p' ↦ parse_from (next ∷ rest) p'
  | skips_next p' ↦ parse_from rest p'
]

-- The first argument is the name of the program.
unfoldable pub parse : List String → Parser → Parser
unfolding parse_from
parse [] p = p
parse (program ∷ args) p = parse_from args p

unfoldable pub get_opt : String → Parser → String
unfolding get_or
get_opt name p = get_or name p.options ""

unfoldable pub has_opt : String → Parser → Bool
unfolding lookup
has_opt name p = is_some (lookup name p.options)

unfoldable pub get_arg : ℤ → Parser → String
get_arg index p = if ltb_ℤ index (pos 0) then "" else first_of (drop (to_ℕ index) p.arguments)
  where
    first_of : List String → String
    first_of [] = ""
    first_of (x ∷ xs) = x

abbrev pub to_first : Char → List String → List String
to_first c [] = (String.◌∷◌ c String.[]) ∷ []
to_first c (x ∷ xs) = (String.◌∷◌ c x) ∷ xs

-- `strings.Split(text, ",")`.
unfoldable pub split_names : String → List String
split_names String.[] = String.[] ∷ []
split_names (String.◌∷◌ c s) =
    let rest = split_names s in if eqb (code c) b',' then String.[] ∷ rest else to_first c rest

unfoldable pub add_aliases : (main : String) → (has_value : Bool) → List String → Parser → Parser
unfolding insert
add_aliases main has_value [] p = p
add_aliases main has_value (alias ∷ rest) p = add_aliases main has_value rest (record p {
  option_aliases = insert alias main p.option_aliases;
  supported_options = insert alias has_value p.supported_options;
})

abbrev pub add_supported : List String → (has_value : Bool) → Parser → Parser
add_supported [] has_value p = p
add_supported (main ∷ aliases) has_value p =
    add_aliases main has_value aliases
      (record p { supported_options = insert main has_value p.supported_options })

-- The loop over the supported options, in the order in which Go ranges over the map.
unfoldable pub support : Map Bool → Parser → Parser
unfolding split_names add_aliases
support [] p = p
support ((names, has_value) ∷ rest) p = support rest (add_supported (split_names names) has_value p)

unfoldable pub parse_with_args : List String → Map Bool → (strict : Bool) → Parser
unfolding support parse new_parser
parse_with_args args supported strict =
    parse args (support supported (record new_parser { strict = strict }))
