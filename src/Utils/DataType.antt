-- ===== src/Utils/DataType.antt =====
-- The enumeration of utils/datatype.h, and the conversions of utils/datatypeutils.h.
use swdev_proj.Prelude.{
  ℕ, ◌<◌, ◌≡◌, refl, sym, ap, ◌∙◌, ==_iff, Bool, true, ◌==◌, ◌||◌, if◌then◌else◌, Run, ok, fault,
  exits, arith,
}

pub data DataType : Type 0 where
  field boolean integer double str : DataType

-- The values of the enumeration, by which types are compared.
unfoldable pub rank : DataType → ℕ
rank field = 0
rank boolean = 1
rank integer = 2
rank double = 3
rank str = 4

unfoldable pub char_to_type : ℕ → Run DataType
char_to_type c =
    if c == b'I' || c == b'i'
    then ok integer
    else if c == b'S' || c == b's'
    then ok str
    else if c == b'B' || c == b'b'
    then ok boolean
    else if c == b'D' || c == b'd'
    then ok double
    else fault exits

unfoldable pub type_to_char : DataType → Run ℕ
type_to_char integer = ok b'I'
type_to_char str = ok b'S'
type_to_char boolean = ok b'B'
type_to_char double = ok b'D'
type_to_char field = fault exits

-- x == y on types
unfoldable pub same_type : DataType → DataType → Bool
unfolding rank
same_type x y = rank x == rank y

-- The types that a column can have, with their letters.
abbrev pub letter : DataType → ℕ
letter field = 0
letter boolean = b'B'
letter integer = b'I'
letter double = b'D'
letter str = b'S'

abbrev pub IsColumnType : DataType → Type 0
IsColumnType field = ⊥
IsColumnType boolean = Unit
IsColumnType integer = Unit
IsColumnType double = Unit
IsColumnType str = Unit

pub letter_small : (t : DataType) → letter t < 256
letter_small field = omega arith
letter_small boolean = omega arith
letter_small integer = omega arith
letter_small double = omega arith
letter_small str = omega arith

pub type_to_char-letter : (t : DataType) → IsColumnType t → type_to_char t ≡ ok (letter t)
unfolding type_to_char
type_to_char-letter field h = elim h [ ]
type_to_char-letter boolean h = refl
type_to_char-letter integer h = refl
type_to_char-letter double h = refl
type_to_char-letter str h = refl

pub char_to_type-letter : (t : DataType) → IsColumnType t → char_to_type (letter t) ≡ ok t
unfolding char_to_type
char_to_type-letter field h = elim h [ ]
char_to_type-letter boolean h = refl
char_to_type-letter integer h = refl
char_to_type-letter double h = refl
char_to_type-letter str h = refl

-- The type of a rank.
of_rank : ℕ → DataType
of_rank n =
    if n == 0
    then field
    else if n == 1
    then boolean
    else if n == 2
    then integer
    else if n == 3
    then double
    else str

of_rank-rank : (t : DataType) → of_rank (rank t) ≡ t
unfolding of_rank rank
of_rank-rank field = refl
of_rank-rank boolean = refl
of_rank-rank integer = refl
of_rank-rank double = refl
of_rank-rank str = refl

pub same_type-eq : (x y : DataType) → same_type x y ≡ true → x ≡ y
unfolding same_type
same_type-eq x y h =
    sym (of_rank-rank x) ∙ (ap of_rank ((==_iff (rank x) (rank y)).0 h) ∙ of_rank-rank y)

pub same_type_refl : (x : DataType) → same_type x x ≡ true
unfolding same_type
same_type_refl x = ground arith

of_letter : ℕ → DataType
of_letter c =
    if c == b'B'
    then boolean
    else if c == b'I'
    then integer
    else if c == b'D'
    then double
    else if c == b'S'
    then str
    else field

of_letter-letter : (t : DataType) → of_letter (letter t) ≡ t
unfolding of_letter
of_letter-letter field = refl
of_letter-letter boolean = refl
of_letter-letter integer = refl
of_letter-letter double = refl
of_letter-letter str = refl

pub letter_injective : (t u : DataType) → letter t ≡ letter u → t ≡ u
letter_injective t u e = sym (of_letter-letter t) ∙ (ap of_letter e ∙ of_letter-letter u)
