-- ===== src/Dataframe/Row/Start.antt =====
-- A Row of dataframe/row/row.h without entries: a new one, and one that was cleared.
use swdev_proj.Prelude.{
  ℕ, zero, suc, ◌≡◌, refl, subst, ◌∙◌, List, All, some, true, length-replicate, get_elem?,
  replicate, Returns,
}
use swdev_proj.Utils.DataType.{DataType, IsColumnType}
use swdev_proj.Dataframe.Schema.{Schema}
use swdev_proj.Dataframe.Schema.Laws.{Describes}
use swdev_proj.Dataframe.Schema.Copy.{copy-Describes}
use swdev_proj.Dataframe.Row.{Row, RowElement, new_element, new, clear}
use swdev_proj.Dataframe.Row.Laws.{Fits, IsRow}

get_elem?-replicate : (n i : ℕ) (a e : RowElement) → get_elem? (replicate n a) i ≡ some e → a ≡ e
get_elem?-replicate zero i a e h = cc
get_elem?-replicate (suc n) zero a e h = cc
get_elem?-replicate (suc n) (suc i) a e h = get_elem?-replicate n i a e h

empty_typed :
    (n i : ℕ) (t : DataType) (e : RowElement)
    → get_elem? (replicate n new_element) i ≡ some e
    → Fits t e
unfolding new_element
empty_typed n i t e h =
    let same = get_elem?-replicate n i new_element e h in
    subst (λ (x : RowElement). Fits t x) same (λ unset. cc)

-- A new row of a schema of column types has its columns, and nothing is set.
pub new-IsRow :
    (scm : Schema) (ts : List DataType)
    → Describes scm ts
    → All IsColumnType ts
    → Returns (new scm) (λ r. IsRow r ts)
unfolding new
new-IsRow scm ts d v =
    let (s, run, (e, rows, cap)) = copy-Describes true scm ts d in
    (
      record {
        scm = s;
        entries = replicate scm.num_cols new_element;
        len = scm.num_cols;
        row_idx = 0;
      },
      rw run refl,
      record {
        described = e;
        columns = v;
        wide = d.counted;
        sized = length-replicate scm.num_cols new_element ∙ d.counted;
        typed = λ i t x at there. empty_typed scm.num_cols i t x there;
      },
    )

-- clear forgets the entries and keeps the columns.
pub clear-IsRow : (r : Row) (ts : List DataType) → IsRow r ts → IsRow (clear r) ts
unfolding clear
clear-IsRow r ts h = record {
  described = h.described;
  columns = h.columns;
  wide = h.described.counted;
  sized = length-replicate r.scm.num_cols new_element ∙ h.described.counted;
  typed = λ i t x at there. empty_typed r.scm.num_cols i t x there;
}
