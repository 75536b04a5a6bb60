-- ===== src/Utils/Str.antt =====
-- The class String of utils/string.h: a size and a character array with its terminator.
pub mod Equality
pub mod Wire
use swdev_proj.Prelude.{
  ℕ, zero, suc, ◌+◌, ◌-◌, ◌*◌, ◌%◌, ◌<◌, List, [], ◌∷◌, ◌++◌, Option, none, some, Bool, true, false,
  ltb, leb, ◌==◌, if◌then◌else◌, length, take, get_elem?, Run, ok, fault, undefined, asserts, ◌>>=◌,
  ◌≡◌,
}
use swdev_proj.Serial.{Serializer, strlen, write_size, write_cstr, read_size, read_string}
use swdev_proj.Serial.Wire.Text.{IsCstr}

pub record Str : Type 0 where
  pub size : ℕ
  pub cstr : List ℕ

-- String(cstr, len): len + 1 bytes are copied and the last is overwritten
unfoldable pub of_cstr_len : List ℕ → ℕ → Run Str
of_cstr_len mem len =
    if leb (len + 1) (length mem)
    then ok (record { size = len; cstr = take len mem ++ 0 ∷ [] })
    else fault undefined

-- String(cstr)
unfoldable pub of_cstr : List ℕ → Run Str
of_cstr mem = elim (strlen mem) [ none ↦ fault undefined | some n ↦ of_cstr_len mem n ]

-- String(steal, cstr, len)
unfoldable pub of_stolen : Bool → List ℕ → ℕ → Run Str
of_stolen steal mem len = elim (get_elem? mem len) [
  | none ↦ fault undefined
  | some c ↦
      if steal
      then (if c == 0 then ok (record { size = len; cstr = mem }) else fault asserts)
      else fault asserts
]

-- String(String&), clone
unfoldable pub clone : Str → Run Str
clone s =
    if leb (s.size + 1) (length s.cstr)
    then ok (record { size = s.size; cstr = take (s.size + 1) s.cstr })
    else fault undefined

unfoldable pub at : Str → ℕ → Run ℕ
at s index =
    if ltb index s.size
    then elim (get_elem? s.cstr index) [ none ↦ fault undefined | some c ↦ ok c ]
    else fault asserts

-- strncmp(a, b, n) == 0
unfoldable pub strncmp_eq : ℕ → List ℕ → List ℕ → Bool
strncmp_eq zero a b = true
strncmp_eq (suc n) [] [] = true
strncmp_eq (suc n) [] (y ∷ b) = false
strncmp_eq (suc n) (x ∷ a) [] = false
strncmp_eq (suc n) (x ∷ a) (y ∷ b) =
    let rest = strncmp_eq n a b in if x == y then (if x == 0 then true else rest) else false

unfoldable pub equals : Str → Str → Bool
unfolding strncmp_eq
equals s x = if s.size == x.size then strncmp_eq s.size s.cstr x.cstr else false

abbrev pub size_mod : ℕ
size_mod = 0x1_0000_0000_0000_0000

-- char is signed: the conversion to size_t extends the sign
unfoldable pub extend_char : ℕ → ℕ
extend_char c = if ltb c 128 then c else c + (size_mod - 256)

-- hash = c + (hash << 6) + (hash << 16) - hash in 64 bits
unfoldable pub hash_step : ℕ → ℕ → ℕ
unfolding extend_char
hash_step hash c =
    (extend_char c + hash * 64 % size_mod + hash * 65536 % size_mod + (size_mod - hash)) % size_mod

unfoldable pub hash_from : ℕ → List ℕ → ℕ
unfolding hash_step
hash_from hash [] = hash
hash_from hash (c ∷ cs) = hash_from (hash_step hash c) cs

unfoldable pub hash_me : Str → ℕ
unfolding hash_from
hash_me s = hash_from 0 (take s.size s.cstr)

unfoldable pub serialize : Str → Serializer → Run Serializer
serialize s r = do t ← write_size s.size r; write_cstr s.cstr t

unfoldable pub deserialize : Serializer → Run (Str × Serializer)
deserialize r = do
  (n, t) ← read_size r
  (mem, u) ← read_string t
  ok (record { size = n; cstr = mem }, u)

-- What the constructors establish for a text without null characters.
pub record IsWell (s : Str) : Type 0 where
  pub cstring : IsCstr s.cstr
  pub sized : s.size ≡ length cstring.chars
