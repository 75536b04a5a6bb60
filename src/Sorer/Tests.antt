-- ===== src/Sorer/Tests.antt =====
-- The theorems on the reader of SoR files at concrete memories.
use swdev_proj.Prelude.{ℕ, ◌≡◌, refl, List, [], ◌∷◌, arith, ok, fault, diverges, ◌>>=◌, Returns}
use swdev_proj.Dataframe.Block.{load}
use swdev_proj.Dataframe.Schema
use swdev_proj.Sorer.FieldArray
use swdev_proj.Sorer.FieldArray.{FieldArray, push_back}
use swdev_proj.Sorer.Fields.{triml, trimr}
use swdev_proj.Sorer.Fields.Trim.{Trimmed, trim_both}
use swdev_proj.Sorer.Parse.{parse_row_schema, parse_row_fields}
use swdev_proj.Sorer.Parse.Halts.{Halts, parse_row-Halts}
use swdev_proj.Utils.DataType.{boolean, integer, str}
use swdev_proj.Dataframe.Schema.{Schema}
use swdev_proj.Sorer.Parse.{is_valid_row}
use swdev_proj.Sorer.Parse.Valid.{at_most, is_valid_row-at_most}
use swdev_proj.Sorer.Columnar.{columnar_from, columnar_from-blank_line}

-- "< 5 >", a line break and the end of the memory
abbrev line : List ℕ
line = b'<' ∷ b' ' ∷ b'5' ∷ b' ' ∷ b'>' ∷ 10 ∷ 0 ∷ []

abbrev no_double : List ℕ → ℕ
no_double cs = 0

-- The field "< 5 >" ends at byte 4.
trim_both_example :
    Returns {T = ℕ × ℕ}
      (triml line 0 4 >>= λ s. trimr line s 4 >>= λ e. ok (s, e))
      (λ r. Trimmed line 0 4 r.0 r.1)
trim_both_example = trim_both line 0 4 (omega arith) (omega arith)

parse_row-Halts_example :
    Halts (parse_row_schema no_double line 0 Schema.new)
    × Halts (parse_row_fields line 0 FieldArray.new)
parse_row-Halts_example = parse_row-Halts no_double line 0 Schema.new FieldArray.new

-- a memory that begins with a line break
abbrev blank : List ℕ
blank = 10 ∷ 0 ∷ []

blank_first : load 0 blank ≡ ok 10
unfolding load
blank_first = refl

columnar_from-blank_line_example :
    columnar_from no_double blank Schema.new 100 0 2 [] ≡ fault diverges
columnar_from-blank_line_example =
    columnar_from-blank_line no_double blank Schema.new 100 0 2 [] (omega arith) blank_first

-- A row of a bool and a string, for columns of an int and a string.
abbrev row_types : Schema
row_types = record { types = boolean ∷ str ∷ []; num_cols = 2; cap_cols = 2; num_rows = 0 }

abbrev file_types : Schema
file_types = record { types = integer ∷ str ∷ []; num_cols = 2; cap_cols = 2; num_rows = 0 }

is_valid_row-at_most_example :
    is_valid_row row_types file_types ≡ ok (at_most (boolean ∷ str ∷ []) (integer ∷ str ∷ []))
is_valid_row-at_most_example =
    is_valid_row-at_most row_types file_types (boolean ∷ str ∷ []) (integer ∷ str ∷ [])
      (record { spare = []; shape = refl; counted = refl; sized = refl })
      (record { spare = []; shape = refl; counted = refl; sized = refl })
