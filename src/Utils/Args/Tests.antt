-- ===== src/Utils/Args/Tests.antt =====
-- The theorems on command line arguments at concrete ones.
use swdev_proj.Prelude.{ℕ, ◌≡◌, refl, List, [], ◌∷◌, true, ok, arith, Returns}
use swdev_proj.Utils.Args.{
  new, parse, set_option, same_text, try_parse_size, scan_size, scan_digits, pseudo_name,
  index_name,
}
use swdev_proj.Utils.Decimal.{to_string}
use swdev_proj.Utils.Args.Laws.{scan_size-to_string}
use swdev_proj.Utils.Args.Settings.{
  Setting, pseudo, option, named_index, named_port, words_of, Given, parse-Given,
}

-- "-pseudo -i 7"
abbrev words : List (List ℕ)
words = pseudo_name ∷ index_name ∷ (b'7' ∷ []) ∷ []

parsed : parse words new ≡ ok (record new { use_pseudo_net = true; index = 7 })
unfolding parse set_option same_text try_parse_size scan_size scan_digits new
parsed = refl

-- "-pseudo -i 7 -port 12", the numbers as std::to_string prints them
abbrev line : List Setting
line = pseudo ∷ option named_index (to_string 7) ∷ option named_port (to_string 12) ∷ []

parse-Given_example : Returns (parse (words_of line) new) (Given new line)
parse-Given_example = parse-Given line new (
  tt,
  ((7, scan_size-to_string 7 (omega arith)), ((12, scan_size-to_string 12 (omega arith)), tt)),
)
