-- ===== src/Dataframe/Row/Tests.antt =====
-- The theorems on rows at a concrete row.
use swdev_proj.Prelude.{◌≡◌, refl, [], ◌∷◌, ◌⊎◌, ok, fault, exits, arith, Returns}
use swdev_proj.Prelude.Int.{pos}
use swdev_proj.Utils.DataType.{boolean, integer}
use swdev_proj.Dataframe.Schema.{Schema}
use swdev_proj.Dataframe.Schema.Laws.{Describes}
use swdev_proj.Dataframe.Item.{int_item, type_of}
use swdev_proj.Dataframe.Row.{new, set, get}
use swdev_proj.Dataframe.Row.Laws.{IsRow, set-IsRow, get-typed}
use swdev_proj.Dataframe.Row.Start.{new-IsRow}

-- A row of an int and a bool.
abbrev scm : Schema
scm = record { types = integer ∷ boolean ∷ []; num_cols = 2; cap_cols = 2; num_rows = 0 }

scm-Describes : Describes scm (integer ∷ boolean ∷ [])
scm-Describes = record { spare = []; shape = refl; counted = refl; sized = refl }

empty_row : Returns (new scm) (λ r. IsRow r (integer ∷ boolean ∷ []))
empty_row = new-IsRow scm (integer ∷ boolean ∷ []) scm-Describes (tt, (tt, tt))

int_typed : type_of (int_item (pos 5)) ≡ integer
unfolding type_of
int_typed = refl

set-IsRow_example : Returns (set 0 (int_item (pos 5)) empty_row.0) (λ q.
    IsRow q (integer ∷ boolean ∷ [])
    × (get integer 0 q ≡ ok (int_item (pos 5)))
    × (get boolean 1 q ≡ get boolean 1 empty_row.0))
set-IsRow_example =
    set-IsRow empty_row.0 (integer ∷ boolean ∷ []) empty_row.2 0 integer refl (int_item (pos 5)) 1
      boolean int_typed (omega arith) (omega arith)

get-typed_example :
    (get boolean 0 empty_row.0 ≡ fault exits)
    ⊎ Returns (get boolean 0 empty_row.0) (λ v. type_of v ≡ boolean)
get-typed_example =
    get-typed empty_row.0 (integer ∷ boolean ∷ []) empty_row.2 0 integer refl boolean
