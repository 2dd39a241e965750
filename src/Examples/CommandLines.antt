-- ===== src/Examples/CommandLines.antt =====
-- The parser of command lines: an example.
use landc_go.Parser.{new_parser, parse, get_opt}
use landc_go.Parser.Printing.{Item, option, argument, print, texts, last_value, parse-print}
use landc_go.Prelude.{List, String, [], map, refl, ◌∷◌, ◌≡◌}

abbrev items : List Item
items = option "port" "80" ∷ argument "serve" ∷ option "port" "81" ∷ argument "all" ∷ []

parse-print_example :
    ((parse ("landc" ∷ map print items) new_parser).arguments ≡ texts items)
    × ((asked : String)
        → get_opt asked (parse ("landc" ∷ map print items) new_parser) ≡ last_value asked items "")
parse-print_example = parse-print "landc" items (refl, (refl, (refl, (refl, tt))))
