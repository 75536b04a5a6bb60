-- ===== src/Utils/Args.antt =====
-- The class Arguments of utils/args.h. A C string is the list of its characters, without the null
-- byte; `argv` is without the name of the program.
pub mod Laws
pub mod Settings
mod Tests
use swdev_proj.Prelude.{
  ℕ, zero, suc, ◌+◌, ◌-◌, ◌*◌, ◌%◌, List, [], ◌∷◌, Option, none, some, Bool, true, false, ◌&&◌, ltb,
  leb, ◌==◌, if◌then◌else◌, Run, ok, fault, exits, ◌>>=◌,
}
use swdev_proj.Sorer.Fields.{isspace}
use swdev_proj.Sorer.Writer.{digits_value}

pub record Arguments : Type 0 where
  pub app_name : Option (List ℕ)
  pub num_nodes : ℕ
  pub index : ℕ
  pub ip : Option (List ℕ)
  pub port : ℕ
  pub server_ip : Option (List ℕ)
  pub server_port : ℕ
  pub server_index : ℕ
  pub use_pseudo_net : Bool
  pub block_size : ℕ

-- Arguments()
unfoldable pub new : Arguments
new = record {
  app_name = none;
  num_nodes = 1;
  index = 0;
  ip = none;
  port = 8080;
  server_ip = none;
  server_port = 8080;
  server_index = 0;
  use_pseudo_net = false;
  block_size = 1024;
}

-- strcmp(s, t) == 0
unfoldable pub same_text : List ℕ → List ℕ → Bool
same_text [] [] = true
same_text [] (d ∷ ds) = false
same_text (c ∷ cs) [] = false
same_text (c ∷ cs) (d ∷ ds) = c == d && same_text cs ds

-- the number that sscanf(s, "%zu") reads from the digits behind a sign: it stays at the greatest
-- size_t when it is too large, and a minus sign negates it modulo 2 ^ 64
unfoldable pub scan_digits : Bool → List ℕ → Option ℕ
unfolding digits_value
scan_digits minus [] = none
scan_digits minus (c ∷ cs) =
    let n = digits_value 0 (c ∷ cs) in
    if leb b'0' c && leb c b'9'
    then some (
        if ltb n 0x1_0000_0000_0000_0000
        then (if minus then (0x1_0000_0000_0000_0000 - n) % 0x1_0000_0000_0000_0000 else n)
        else 0xffff_ffff_ffff_ffff)
    else none

-- sscanf(s, "%zu", &val)
unfoldable pub scan_size : List ℕ → Option ℕ
unfolding isspace scan_digits
scan_size [] = none
scan_size (c ∷ cs) =
    let after = scan_size cs in
    if isspace c
    then after
    else if c == b'-'
    then scan_digits true cs
    else scan_digits false (if c == b'+' then cs else c ∷ cs)

-- tryParseSizeT_
unfoldable pub try_parse_size : List ℕ → Run ℕ
unfolding scan_size
try_parse_size arg = elim (scan_size arg) [ none ↦ fault exits | some n ↦ ok n ]

-- the names of the options
abbrev pub pseudo_name : List ℕ
pseudo_name = 45 ∷ 112 ∷ 115 ∷ 101 ∷ 117 ∷ 100 ∷ 111 ∷ []

abbrev pub app_option : List ℕ
app_option = 45 ∷ 97 ∷ 112 ∷ 112 ∷ []

abbrev pub num_nodes_name : List ℕ
num_nodes_name = 45 ∷ 110 ∷ 117 ∷ 109 ∷ 95 ∷ 110 ∷ 111 ∷ 100 ∷ 101 ∷ 115 ∷ []

abbrev pub index_name : List ℕ
index_name = 45 ∷ 105 ∷ []

abbrev pub ip_name : List ℕ
ip_name = 45 ∷ 105 ∷ 112 ∷ []

abbrev pub port_name : List ℕ
port_name = 45 ∷ 112 ∷ 111 ∷ 114 ∷ 116 ∷ []

abbrev pub server_idx_name : List ℕ
server_idx_name = 45 ∷ 115 ∷ 101 ∷ 114 ∷ 118 ∷ 101 ∷ 114 ∷ 73 ∷ 100 ∷ 120 ∷ []

abbrev pub server_ip_name : List ℕ
server_ip_name = 45 ∷ 115 ∷ 101 ∷ 114 ∷ 118 ∷ 101 ∷ 114 ∷ 73 ∷ 112 ∷ []

abbrev pub server_port_name : List ℕ
server_port_name = 45 ∷ 115 ∷ 101 ∷ 114 ∷ 118 ∷ 101 ∷ 114 ∷ 80 ∷ 111 ∷ 114 ∷ 116 ∷ []

abbrev pub block_size_name : List ℕ
block_size_name = 45 ∷ 98 ∷ 108 ∷ 111 ∷ 99 ∷ 107 ∷ 83 ∷ 105 ∷ 122 ∷ 101 ∷ []

-- what the loop of parse does with the option `arg` that has the value `v`
unfoldable pub set_option : List ℕ → List ℕ → Arguments → Run Arguments
unfolding same_text try_parse_size
set_option arg v a =
    if same_text arg app_option
    then ok (record a { app_name = some v })
    else if same_text arg num_nodes_name
    then (try_parse_size v >>= λ n. ok (record a { num_nodes = n }))
    else if same_text arg index_name
    then (try_parse_size v >>= λ n. ok (record a { index = n }))
    else if same_text arg ip_name
    then ok (record a { ip = some v })
    else if same_text arg port_name
    then (try_parse_size v >>= λ n. ok (record a { port = n }))
    else if same_text arg server_idx_name
    then (try_parse_size v >>= λ n. ok (record a { server_index = n }))
    else if same_text arg server_ip_name
    then ok (record a { server_ip = some v })
    else if same_text arg server_port_name
    then (try_parse_size v >>= λ n. ok (record a { server_port = n }))
    else if same_text arg block_size_name
    then (try_parse_size v >>= λ n. ok (record a { block_size = n }))
    else fault exits

-- parse, from an argument on
unfoldable pub parse : List (List ℕ) → Arguments → Run Arguments
unfolding set_option same_text
parse [] a = ok a
parse (arg ∷ []) a =
    if same_text arg pseudo_name then ok (record a { use_pseudo_net = true }) else fault exits
parse (arg ∷ v ∷ rest) a =
    let flag = parse (v ∷ rest) (record a { use_pseudo_net = true }) in
    let option = (set_option arg v a >>= λ b. parse rest b) in
    if same_text arg pseudo_name then flag else option
