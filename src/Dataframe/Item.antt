-- ===== src/Dataframe/Item.antt =====
-- A value of a column: an int, a double (its bit pattern), a bool or a String of the four types of
-- utils/datatype.h. The four classes of blocks and
-- the four overloads of the columns' operations are told apart by these types.
use swdev_proj.Prelude.{
  ℕ, ◌/◌, ◌≡◌, refl, ap, subst, List, [], ◌++◌, Option, none, some, Bool, true, false, Run, ok,
  fault, undefined, exits, ◌>>=◌, leb, ◌+◌, length, length-append, take_all, ◌∷◌, arith, Returns,
}
use swdev_proj.Prelude.Int.{ℤ, pos, InRange}
use swdev_proj.Serial.{
  Serializer, write_int, read_int, write_double, read_double, write_bool, read_bool,
}
use swdev_proj.Serial.Room.{IsReady}
use swdev_proj.Serial.Write.{Appends}
use swdev_proj.Serial.Read.{Ahead, Took}
use swdev_proj.Serial.Wire
use swdev_proj.Serial.Wire.{Took-seq}
use swdev_proj.Serial.Wire.Scalars.{SizeT, int_wire, double_wire, bool_wire}
use swdev_proj.Utils.Str
use swdev_proj.Utils.Str.{Str}
use swdev_proj.Utils.DataType.{DataType, field, boolean, integer, double, str}
use swdev_proj.Dataframe.Block.Kinds.{put_string, take_string, string_cell_wire}
use swdev_proj.Dataframe.Block.Kinds

pub data Item : Type 0 where
  int_item : ℤ → Item
  double_item : ℕ → Item
  bool_item : Bool → Item
  string_item : Option Str → Item

-- What a new block of the type is filled with.
unfoldable pub initial : DataType → Item
initial integer = int_item (pos 0)
initial double = double_item 0
initial boolean = bool_item false
initial str = string_item none
initial field = string_item none

unfoldable pub put : Item → Serializer → Run Serializer
put (int_item z) s = write_int z s
put (double_item d) s = write_double d s
put (bool_item b) s = write_bool b s
put (string_item o) s = put_string o s

unfoldable pub take_one : DataType → Serializer → Run (Item × Serializer)
take_one integer s = do (z, t) ← read_int s; ok (int_item z, t)
take_one double s = do (d, t) ← read_double s; ok (double_item d, t)
take_one boolean s = do (b, t) ← read_bool s; ok (bool_item b, t)
take_one str s = do (o, t) ← take_string s; ok (string_item o, t)
take_one field s = fault exits

-- The cells that clear wipes in a block of the type.
unfoldable pub wiped : DataType → ℕ → ℕ
wiped integer c = c
wiped double c = c
wiped boolean c = c
wiped str c = c / 2
wiped field c = c

-- add_all copies numbers, and clones strings through their pointers.
unfoldable pub copy : Item → Run Item
copy (int_item z) = ok (int_item z)
copy (double_item d) = ok (double_item d)
copy (bool_item b) = ok (bool_item b)
copy (string_item none) = fault undefined
copy (string_item (some s)) = do t ← Str.clone s; ok (string_item (some t))

-- The type of an item, and the items that can be sent.
unfoldable pub type_of : Item → DataType
type_of (int_item z) = integer
type_of (double_item d) = double
type_of (bool_item b) = boolean
type_of (string_item o) = str

abbrev pub CanSend : Item → Type 0
CanSend (int_item z) = InRange 0x8000_0000 z
CanSend (double_item d) = SizeT d
CanSend (bool_item b) = Unit
CanSend (string_item o) = Kinds.Sendable o

pub record IsItem (t : DataType) (a : Item) : Type 0 where
  pub typed : type_of a ≡ t
  pub sendable : CanSend a

-- A wire of one type's values, read as a wire of items.
module _ {A : Type 0} {put_a : A → Serializer → Run Serializer}
    {take_a : Serializer → Run (A × Serializer)} {Valid : A → Type 0}
    (wire : Wire.Wire put_a take_a Valid) (f : A → Item) where
  item_gets :
      (a : A) (rest : List ℕ) (s : Serializer)
      → Valid a
      → Ahead (wire.bytes a ++ rest) s
      → Returns (take_a s >>= λ p. ok (f p.0, p.1)) (Took (f a) rest)
  item_gets a rest s v h =
      Took-seq (take_a s) _ (wire.gets a rest s v h)
        λ t left. ((f a, t), refl, record { value = refl; left = left })

bytes : Item → List ℕ
bytes (int_item z) = int_wire.bytes z
bytes (double_item d) = double_wire.bytes d
bytes (bool_item b) = bool_wire.bytes b
bytes (string_item o) = string_cell_wire.bytes o

item_puts :
    (a : Item) (s : Serializer) → CanSend a → IsReady s → Returns (put a s) (Appends (bytes a) s)
unfolding put bytes
item_puts (int_item z) s v r = int_wire.puts z s v r
item_puts (double_item d) s v r = double_wire.puts d s v r
item_puts (bool_item b) s v r = bool_wire.puts b s tt r
item_puts (string_item o) s v r = string_cell_wire.puts o s v r

take_own :
    (a : Item) (rest : List ℕ) (s : Serializer)
    → CanSend a
    → Ahead (bytes a ++ rest) s
    → Returns (take_one (type_of a) s) (Took a rest)
unfolding take_one bytes type_of
take_own (int_item z) rest s v h = item_gets int_wire int_item z rest s v h
take_own (double_item d) rest s v h = item_gets double_wire double_item d rest s v h
take_own (bool_item b) rest s v h = item_gets bool_wire bool_item b rest s tt h
take_own (string_item o) rest s v h = item_gets string_cell_wire string_item o rest s v h

-- An item of a type survives its put and the take_one of the type.
pub item_wire : (t : DataType) → Wire.Wire put (take_one t) (IsItem t)
item_wire t = record {
  bytes = bytes;
  puts = λ a s v r. item_puts a s v.sendable r;
  gets = λ a rest s v h.
      subst (λ (u : DataType). Returns (take_one u s) (Took a rest)) v.typed
        (take_own a rest s v.sendable h);
}

pub copy-same : (a : Item) → CanSend a → copy a ≡ ok a
unfolding copy Str.clone
copy-same (int_item z) v = refl
copy-same (double_item d) v = refl
copy-same (bool_item b) v = refl
copy-same (string_item none) v = absurd v
copy-same (string_item (some s)) v =
    let c = v.well.cstring in
    let enough : length s.cstr ≡ s.size + 1 =
      omega (arith, ap length c.spelt, length-append c.chars (0 ∷ []), v.well.sized) in
    let readable : leb (s.size + 1) (length s.cstr) ≡ true = ground arith in
    rw (readable, take_all (s.size + 1) s.cstr (omega arith)) refl
