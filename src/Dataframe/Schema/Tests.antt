-- ===== src/Dataframe/Schema/Tests.antt =====
-- The theorems on schemas at a concrete schema.
use swdev_proj.Prelude.{◌<◌, ◌≡◌, ◌↔◌, false, refl, [], ◌∷◌, true, false, ok, arith, Returns}
use swdev_proj.Utils.DataType.{boolean, integer, double}
use swdev_proj.Dataframe.Schema.{Schema, add_column, copy, equals}
use swdev_proj.Dataframe.Schema.Laws.{Describes, Added, add_column-Added}
use swdev_proj.Dataframe.Schema.Copy.{copy-Describes}
use swdev_proj.Dataframe.Schema.Equality.{Agree, equals-false}

-- An int and a bool column, at the capacity, and three rows.
abbrev scm : Schema
scm = record { types = integer ∷ boolean ∷ []; num_cols = 2; cap_cols = 2; num_rows = 3 }

scm-Describes : Describes scm (integer ∷ boolean ∷ [])
scm-Describes = record { spare = []; shape = refl; counted = refl; sized = refl }

add_column-Added_example :
    Returns (add_column double scm) (Added scm (integer ∷ boolean ∷ []) double)
add_column-Added_example =
    add_column-Added double scm (integer ∷ boolean ∷ []) scm-Describes (omega arith)

copy-Describes_example :
    Returns
      (copy true scm)
      (λ r. Describes r (integer ∷ boolean ∷ []) × (r.num_rows ≡ 0) × (0 < r.cap_cols))
copy-Describes_example = copy-Describes true scm (integer ∷ boolean ∷ []) scm-Describes

-- The same with a double column.
abbrev wider : Schema
wider = record { types = integer ∷ boolean ∷ double ∷ []; num_cols = 3; cap_cols = 3; num_rows = 3 }

wider-Describes : Describes wider (integer ∷ boolean ∷ double ∷ [])
wider-Describes = record { spare = []; shape = refl; counted = refl; sized = refl }

equals-false_example :
    (equals scm wider ≡ ok false)
    ↔ ¬ Agree scm wider (integer ∷ boolean ∷ []) (integer ∷ boolean ∷ double ∷ [])
equals-false_example =
    equals-false scm wider (integer ∷ boolean ∷ []) (integer ∷ boolean ∷ double ∷ []) scm-Describes
      wider-Describes
