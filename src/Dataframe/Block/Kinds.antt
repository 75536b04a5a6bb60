-- ===== src/Dataframe/Block/Kinds.antt =====
-- What is special to each class of src/dataframe/block: intblock.h, doubleblock.h, boolblock.h and
-- stringblock.h.
use swdev_proj.Prelude.{
  ℕ, ◌/◌, refl, List, [], ◌++◌, Option, none, some, Bool, true, false, ◌==◌, Run, ok, fault,
  undefined, ◌>>=◌, Returns,
}
use swdev_proj.Prelude.Int.{ℤ, pos, negsuc}
use swdev_proj.Serial.{
  Serializer, write_int, read_int, write_double, read_double, write_bool, read_bool,
}
use swdev_proj.Serial.Room.{IsReady}
use swdev_proj.Serial.Write.{Appends}
use swdev_proj.Serial.Read.{Ahead, Took}
use swdev_proj.Serial.Wire
use swdev_proj.Serial.Wire.{Took-seq}
use swdev_proj.Utils.Str
use swdev_proj.Utils.Str.{Str}
use swdev_proj.Utils.Str.Wire.{str_wire}

-- A class of blocks over items `A`: the cell that memset makes, how an item is written, read and
-- compared, and how many cells the memset of clear covers.
pub record Kind (A : Type 0) : Type 0 where
  pub initial : A
  pub put : A → Serializer → Run Serializer
  pub take_one : Serializer → Run (A × Serializer)
  pub same : A → A → Run Bool
  pub wiped : ℕ → ℕ

abbrev same_int : ℤ → ℤ → Bool
same_int (pos m) (pos n) = m == n
same_int (pos m) (negsuc n) = false
same_int (negsuc m) (pos n) = false
same_int (negsuc m) (negsuc n) = m == n

abbrev same_bool : Bool → Bool → Bool
same_bool true b = b
same_bool false true = false
same_bool false false = true

unfoldable pub int_block : Kind ℤ
int_block = record {
  initial = pos 0;
  put = write_int;
  take_one = read_int;
  same = λ x y. ok (same_int x y);
  wiped = λ c. c;
}

-- `near` says whether two doubles differ by no more than the tolerance.
unfoldable pub double_block : (ℕ → ℕ → Bool) → Kind ℕ
double_block near = record {
  initial = 0;
  put = write_double;
  take_one = read_double;
  same = λ x y. ok (near x y);
  wiped = λ c. c;
}

unfoldable pub bool_block : Kind Bool
bool_block = record {
  initial = false;
  put = write_bool;
  take_one = read_bool;
  same = λ x y. ok (same_bool x y);
  wiped = λ c. c;
}

-- A cell of a StringBlock is a pointer, null at first; a method of a null pointer is undefined.
unfoldable pub put_string : Option Str → Serializer → Run Serializer
put_string none s = fault undefined
put_string (some str) s = Str.serialize str s

unfoldable pub take_string : Serializer → Run (Option Str × Serializer)
take_string s = do (str, t) ← Str.deserialize s; ok (some str, t)

-- vals_[i]->equals(other) is false for a null argument
unfoldable pub same_string : Option Str → Option Str → Run Bool
same_string none o = fault undefined
same_string (some a) none = ok false
same_string (some a) (some b) = ok (Str.equals a b)

-- The memset of clear counts ints, half as wide as pointers.
unfoldable pub string_block : Kind (Option Str)
unfolding put_string take_string same_string
string_block = record {
  initial = none;
  put = put_string;
  take_one = take_string;
  same = same_string;
  wiped = λ c. c / 2;
}

abbrev pub Sendable : Option Str → Type 0
Sendable none = ⊥
Sendable (some str) = Str.Wire.Sendable str

bytes : Option Str → List ℕ
bytes none = []
bytes (some str) = str_wire.bytes str

string_puts :
    (o : Option Str) (s : Serializer)
    → Sendable o
    → IsReady s
    → Returns (put_string o s) (Appends (bytes o) s)
unfolding put_string bytes
string_puts none s v r = absurd v
string_puts (some str) s v r = str_wire.puts str s v r

string_gets :
    (o : Option Str) (rest : List ℕ) (s : Serializer)
    → Sendable o
    → Ahead (bytes o ++ rest) s
    → Returns (take_string s) (Took o rest)
unfolding take_string bytes
string_gets none rest s v h = absurd v
string_gets (some str) rest s v h =
    Took-seq (Str.deserialize s) _ (str_wire.gets str rest s v h)
      λ t left. ((some str, t), refl, record { value = refl; left = left })

-- A cell that points to a string that can be sent.
pub string_cell_wire : Wire.Wire put_string take_string Sendable
string_cell_wire = record { bytes = bytes; puts = string_puts; gets = string_gets }
