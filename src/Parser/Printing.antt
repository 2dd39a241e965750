-- ===== src/Parser/Printing.antt =====
-- What the parser reads from a command line that is printed from its options and arguments.
use Prim.Native.Char.{code}
use mathlib.Core.List.{append_assoc, append-nil}
use text.Mathlib.Text.{◌==◌}
use landc_go.Parser.{
  read_shape, Parser, new_parser, parse, parse_from, move, shape, long, split_assignment,
  is_refused, has_dash, behind_dash, set_option_value, set_aliases, get_opt, goes_on, long_option,
  value_of, String, List, Option, some, Bool, eqb, get_or, none,
}
use landc_go.Prelude.{
  List, Option, String, [], false, refl, ◌++◌, ◌∷◌, ◌≡◌, Bool, if◌then◌else◌, some, eqb, arith,
  ◌||◌, ap, ◌∙◌, All, get_or, none, sym, map, get_or-insert,
}

pub data Item : Type 0 where
  option : (name value : String) → Item
  argument : (text : String) → Item

-- The text with another one behind it.
abbrev pub text_append : String → String → String
text_append String.[] t = t
text_append (String.◌∷◌ c s) t = String.◌∷◌ c (text_append s t)

abbrev pub print : Item → String
print (option name value) = text_append "--" (text_append name (text_append "=" value))
print (argument text) = text

abbrev pub has_assignment : String → Bool
has_assignment String.[] = false
has_assignment (String.◌∷◌ c s) = eqb (code c) b'=' || has_assignment s

-- The name of an option has no `=`, and an argument does not begin like an option.
abbrev pub Printable : Item → Type 0
Printable (option name value) = has_assignment name ≡ false
Printable (argument text) = has_dash text ≡ false

abbrev pub texts : List Item → List String
texts [] = []
texts (option name value ∷ rest) = texts rest
texts (argument text ∷ rest) = text ∷ texts rest

-- The last value that an option is given.
abbrev pub last_value : String → List Item → String → String
last_value asked [] value = value
last_value asked (option name new ∷ rest) value =
    last_value asked rest (if name == asked then new else value)
last_value asked (argument text ∷ rest) value = last_value asked rest value

split_assignment-print :
    (name value : String)
    → has_assignment name ≡ false
    → split_assignment (text_append name (text_append "=" value)) ≡ (name, some value)
unfolding split_assignment
split_assignment-print String.[] value h = refl
split_assignment-print (String.◌∷◌ c s) value h =
    let here : eqb (code c) b'=' ≡ false = ground (arith, h) in
    let rest = split_assignment-print s value (ground (arith, h)) in
    rw (split_assignment, rest, here) refl

behind_dash-dash : (s : String) → behind_dash (text_append "-" s) ≡ long s
behind_dash-dash String.[] = refl
behind_dash-dash (String.◌∷◌ c s) = refl

abbrev apply : Item → Parser → Parser
apply (option name value) p = set_option_value name value p
apply (argument text) p = record p { arguments = p.arguments ++ (text ∷ []) }

move-print :
    (item : Item) (next : Option String) (p : Parser)
    → p.strict ≡ false
    → Printable item
    → move (print item) next p ≡ goes_on (apply item p)
unfolding move shape read_shape is_refused
move-print (option name value) next p lax h =
    let accepted : is_refused name p ≡ false = ground (arith, lax) in
    (ap (λ form. read_shape (print (option name value)) next p form)
        (behind_dash-dash (text_append name (text_append "=" value)))
      ∙ ap (λ parts. long_option next parts p) (split_assignment-print name value h)
      ∙ rw accepted refl)
move-print (argument String.[]) next p lax h = refl
move-print (argument (String.◌∷◌ c s)) next p lax h = rw h refl

parse_from-goes_on :
    (arg : String) (rest : List String) (p p' : Parser)
    → ((next : Option String) → move arg next p ≡ goes_on p')
    → parse_from (arg ∷ rest) p ≡ parse_from rest p'
unfolding parse_from
parse_from-goes_on arg [] p p' moves = rw (parse_from, moves none) refl
parse_from-goes_on arg (next ∷ rest) p p' moves = rw (parse_from, moves (value_of next)) refl

abbrev apply_all : List Item → Parser → Parser
apply_all [] p = p
apply_all (item ∷ rest) p = apply_all rest (apply item p)

apply-strict : (item : Item) (p : Parser) → (apply item p).strict ≡ p.strict
unfolding set_option_value
apply-strict (option name value) p = refl
apply-strict (argument text) p = refl

parse_from-print :
    (items : List Item) (p : Parser)
    → p.strict ≡ false
    → All Printable items
    → parse_from (map print items) p ≡ apply_all items p
unfolding parse_from
parse_from-print [] p lax h = refl
parse_from-print (item ∷ rest) p lax (h, hs) =
    parse_from-goes_on (print item) (map print rest) p (apply item p)
      (λ next. move-print item next p lax h)
    ∙ parse_from-print rest (apply item p) (apply-strict item p ∙ lax) hs

apply_all-arguments :
    (items : List Item) (p : Parser) → (apply_all items p).arguments ≡ p.arguments ++ texts items
unfolding set_option_value
apply_all-arguments [] p = sym (append-nil p.arguments)
apply_all-arguments (option name value ∷ rest) p =
    apply_all-arguments rest (set_option_value name value p)
apply_all-arguments (argument text ∷ rest) p =
    apply_all-arguments rest (apply (argument text) p)
    ∙ append_assoc p.arguments (text ∷ []) (texts rest)

set_option_value-get_opt :
    (name value asked : String) (p : Parser)
    → p.option_aliases ≡ []
    → get_opt asked (set_option_value name value p)
      ≡ (if name == asked then value else get_opt asked p)
unfolding set_option_value set_aliases get_opt landc_go.Prelude.lookup
set_option_value-get_opt name value asked p bare =
    rw (set_option_value, bare, bare) (get_or-insert name asked value "" p.options)

-- Without aliases, an option has its last value.
apply_all-options :
    (items : List Item) (p : Parser) (asked : String)
    → p.option_aliases ≡ []
    → get_opt asked (apply_all items p) ≡ last_value asked items (get_opt asked p)
unfolding get_opt set_option_value
apply_all-options [] p asked bare = refl
apply_all-options (argument text ∷ rest) p asked bare =
    apply_all-options rest (apply (argument text) p) asked bare
apply_all-options (option name value ∷ rest) p asked bare =
    apply_all-options rest (set_option_value name value p) asked bare
    ∙ ap (last_value asked rest) (set_option_value-get_opt name value asked p bare)

-- A command line that is printed from options `--name=value` and arguments, in any order, is read
-- back by `NewParser`: the arguments in their order, and for each option its last value, or the empty
-- text where it does not occur. No name has an `=` in it, and no argument begins with a dash.
pub parse-print :
    (program : String) (items : List Item)
    → All Printable items
    → ((parse (program ∷ map print items) new_parser).arguments ≡ texts items)
      × ((asked : String)
          → get_opt asked (parse (program ∷ map print items) new_parser)
            ≡ last_value asked items "")
unfolding parse new_parser get_opt get_or
parse-print program items h =
    let read = parse_from-print items new_parser refl h in
    (
      ap (λ p. p.arguments) read ∙ apply_all-arguments items new_parser,
      λ asked. ap (get_opt asked) read ∙ apply_all-options items new_parser asked refl,
    )
