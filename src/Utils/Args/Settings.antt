-- ===== src/Utils/Args/Settings.antt =====
-- What the constructor of the class Arguments (utils/args.h) makes of a command line: parse.
use swdev_proj.Prelude.{
  ℕ, ◌≡◌, refl, sym, ap, subst, arith, ◌∙◌, List, [], ◌∷◌, Option, none, some, Bool, true, false,
  ◌||◌, All, if◌then◌else◌, ok, ◌>>=◌, Returns,
}
use swdev_proj.Utils.Args.{
  Arguments, parse, same_text, set_option, try_parse_size, scan_size, pseudo_name, app_option,
  num_nodes_name, index_name, ip_name, port_name, server_idx_name, server_ip_name, server_port_name,
  block_size_name,
}

-- The options that have a value.
pub data Name : Type 0 where
  named_app : Name
  named_nodes : Name
  named_index : Name
  named_ip : Name
  named_port : Name
  named_server_idx : Name
  named_server_ip : Name
  named_server_port : Name
  named_block_size : Name

abbrev pub spelled : Name → List ℕ
spelled named_app = app_option
spelled named_nodes = num_nodes_name
spelled named_index = index_name
spelled named_ip = ip_name
spelled named_port = port_name
spelled named_server_idx = server_idx_name
spelled named_server_ip = server_ip_name
spelled named_server_port = server_port_name
spelled named_block_size = block_size_name

abbrev pub is_text : Name → Bool
is_text named_app = true
is_text named_ip = true
is_text named_server_ip = true
is_text _ = false

pub data Setting : Type 0 where
  pseudo : Setting
  option : Name → List ℕ → Setting

-- The words of a command line.
abbrev pub words_of : List Setting → List (List ℕ)
words_of [] = []
words_of (pseudo ∷ ss) = pseudo_name ∷ words_of ss
words_of (option n v ∷ ss) = spelled n ∷ v ∷ words_of ss

-- A value is a text, or a number that sscanf reads.
abbrev pub IsReadable : Setting → Type 0
IsReadable pseudo = Unit
IsReadable (option n v) = if is_text n then Unit else ((k : ℕ) × (scan_size v ≡ some k))

-- The value that a setting gives to an option.
unfoldable pub value_for : Name → Setting → Option (List ℕ)
unfolding same_text
value_for n pseudo = none
value_for n (option m v) = if same_text (spelled n) (spelled m) then some v else none

unfoldable pub later : Option (List ℕ) → Option (List ℕ) → Option (List ℕ)
later none old = old
later (some v) old = some v

-- The last value that a command line gives to an option.
unfoldable pub last_value : Name → List Setting → Option (List ℕ)
unfolding value_for later
last_value n [] = none
last_value n (s ∷ ss) = later (last_value n ss) (value_for n s)

-- A command line asks for the pseudo network.
unfoldable pub asks_pseudo : List Setting → Bool
asks_pseudo [] = false
asks_pseudo (pseudo ∷ ss) = true
asks_pseudo (option n v ∷ ss) = asks_pseudo ss

-- The number that sscanf reads.
unfoldable pub number_of : List ℕ → ℕ
number_of v = elim (scan_size v) [ none ↦ 0 | some k ↦ k ]

-- The number given, or what stood there before.
unfoldable pub size_or : Option (List ℕ) → ℕ → ℕ
unfolding number_of
size_or none old = old
size_or (some v) old = number_of v

-- Every field has the last value given for its option, and the fields of other options stay.
pub record Given (a : Arguments) (ss : List Setting) (r : Arguments) : Type 0 where
  pub app_name : r.app_name ≡ later (last_value named_app ss) a.app_name
  pub num_nodes : r.num_nodes ≡ size_or (last_value named_nodes ss) a.num_nodes
  pub index : r.index ≡ size_or (last_value named_index ss) a.index
  pub ip : r.ip ≡ later (last_value named_ip ss) a.ip
  pub port : r.port ≡ size_or (last_value named_port ss) a.port
  pub server_ip : r.server_ip ≡ later (last_value named_server_ip ss) a.server_ip
  pub server_port : r.server_port ≡ size_or (last_value named_server_port ss) a.server_port
  pub server_index : r.server_index ≡ size_or (last_value named_server_idx ss) a.server_index
  pub use_pseudo_net : r.use_pseudo_net ≡ (asks_pseudo ss || a.use_pseudo_net)
  pub block_size : r.block_size ≡ size_or (last_value named_block_size ss) a.block_size

abbrev assign : Setting → Arguments → Arguments
assign s a = record {
  app_name = later (value_for named_app s) a.app_name;
  num_nodes = size_or (value_for named_nodes s) a.num_nodes;
  index = size_or (value_for named_index s) a.index;
  ip = later (value_for named_ip s) a.ip;
  port = size_or (value_for named_port s) a.port;
  server_ip = later (value_for named_server_ip s) a.server_ip;
  server_port = size_or (value_for named_server_port s) a.server_port;
  server_index = size_or (value_for named_server_idx s) a.server_index;
  use_pseudo_net = asks_pseudo (s ∷ []) || a.use_pseudo_net;
  block_size = size_or (value_for named_block_size s) a.block_size;
}

read_number : (v : List ℕ) (k old : ℕ) → scan_size v ≡ some k → k ≡ size_or (some v) old
unfolding size_or number_of
read_number v k old h = subst (λ (o : Option ℕ). k ≡ elim o [ none ↦ 0 | some i ↦ i ]) (sym h) refl

set_option-assign :
    (n : Name) (v : List ℕ) (a : Arguments)
    → IsReadable (option n v)
    → set_option (spelled n) v a ≡ ok (assign (option n v) a)
unfolding set_option same_text value_for later size_or asks_pseudo try_parse_size
set_option-assign named_app v a h = refl
set_option-assign named_nodes v a (k, h) =
    rw (h, ◌>>=◌) (ap (λ i. ok (record a { num_nodes = i })) (read_number v k a.num_nodes h))
set_option-assign named_index v a (k, h) =
    rw (h, ◌>>=◌) (ap (λ i. ok (record a { index = i })) (read_number v k a.index h))
set_option-assign named_ip v a h = refl
set_option-assign named_port v a (k, h) =
    rw (h, ◌>>=◌) (ap (λ i. ok (record a { port = i })) (read_number v k a.port h))
set_option-assign named_server_idx v a (k, h) =
    rw (h, ◌>>=◌) (ap (λ i. ok (record a { server_index = i })) (read_number v k a.server_index h))
set_option-assign named_server_ip v a h = refl
set_option-assign named_server_port v a (k, h) =
    rw (h, ◌>>=◌) (ap (λ i. ok (record a { server_port = i })) (read_number v k a.server_port h))
set_option-assign named_block_size v a (k, h) =
    rw (h, ◌>>=◌) (ap (λ i. ok (record a { block_size = i })) (read_number v k a.block_size h))

named_option : (n : Name) → same_text (spelled n) pseudo_name ≡ false
unfolding same_text
named_option named_app = refl
named_option named_nodes = refl
named_option named_index = refl
named_option named_ip = refl
named_option named_port = refl
named_option named_server_idx = refl
named_option named_server_ip = refl
named_option named_server_port = refl
named_option named_block_size = refl

-- A later value takes the place of an earlier one.
text_later : (o x old : Option (List ℕ)) → later o (later x old) ≡ later (later o x) old
unfolding later
text_later none x old = refl
text_later (some v) x old = refl

size_later : (o x : Option (List ℕ)) (old : ℕ) → size_or o (size_or x old) ≡ size_or (later o x) old
unfolding later size_or
size_later none x old = refl
size_later (some v) x old = refl

pseudo_later :
    (s : Setting) (ss : List Setting) (b : Bool)
    → (asks_pseudo ss || (asks_pseudo (s ∷ []) || b)) ≡ (asks_pseudo (s ∷ ss) || b)
unfolding asks_pseudo
pseudo_later pseudo ss b = ground arith
pseudo_later (option n v) ss b = refl

Given-cons :
    (s : Setting) (ss : List Setting) (a r : Arguments)
    → Given (assign s a) ss r
    → Given a (s ∷ ss) r
unfolding last_value
Given-cons s ss a r g = record {
  app_name = g.app_name ∙ text_later (last_value named_app ss) _ _;
  num_nodes = g.num_nodes ∙ size_later (last_value named_nodes ss) _ _;
  index = g.index ∙ size_later (last_value named_index ss) _ _;
  ip = g.ip ∙ text_later (last_value named_ip ss) _ _;
  port = g.port ∙ size_later (last_value named_port ss) _ _;
  server_ip = g.server_ip ∙ text_later (last_value named_server_ip ss) _ _;
  server_port = g.server_port ∙ size_later (last_value named_server_port ss) _ _;
  server_index = g.server_index ∙ size_later (last_value named_server_idx ss) _ _;
  use_pseudo_net = g.use_pseudo_net ∙ pseudo_later s ss a.use_pseudo_net;
  block_size = g.block_size ∙ size_later (last_value named_block_size ss) _ _;
}

flag_first :
    (ys : List (List ℕ)) (a : Arguments) → parse (pseudo_name ∷ ys) a ≡ parse ys (assign pseudo a)
unfolding parse same_text asks_pseudo value_for later size_or
flag_first [] a = refl
flag_first (v ∷ rest) a = refl

option_first :
    (n : Name) (v : List ℕ) (ys : List (List ℕ)) (a : Arguments)
    → IsReadable (option n v)
    → parse (spelled n ∷ v ∷ ys) a ≡ parse ys (assign (option n v) a)
unfolding parse
option_first n v ys a h = rw (named_option n, set_option-assign n v a h, ◌>>=◌) refl

-- parse of a command line of the options that args.h names, each followed by its value, and of
-- flags -pseudo, in any order and number, where every value of an option for a number is one that
-- sscanf reads, returns: each field has the last value given for its option, or what it had before
-- if there is none, and use_pseudo_net is true exactly if -pseudo was given or if it was true.
pub parse-Given :
    (ss : List Setting) (a : Arguments)
    → All IsReadable ss
    → Returns (parse (words_of ss) a) (Given a ss)
unfolding parse last_value later size_or asks_pseudo
parse-Given [] a h = (
  a,
  refl,
  record {
    app_name = refl;
    num_nodes = refl;
    index = refl;
    ip = refl;
    port = refl;
    server_ip = refl;
    server_port = refl;
    server_index = refl;
    use_pseudo_net = refl;
    block_size = refl;
  },
)
parse-Given (pseudo ∷ ss) a h =
    let (r, run, g) = parse-Given ss (assign pseudo a) h.1 in
    (r, flag_first (words_of ss) a ∙ run, Given-cons pseudo ss a r g)
parse-Given (option n v ∷ ss) a h =
    let (r, run, g) = parse-Given ss (assign (option n v) a) h.1 in
    (r, option_first n v (words_of ss) a h.0 ∙ run, Given-cons (option n v) ss a r g)
