-- ===== src/Dataframe/Visit/Tests.antt =====
-- The theorem on map and local_map at a concrete frame.
use swdev_proj.Prelude.{ℕ, ◌≡◌, refl, ◌+◌, [], ◌∷◌, true, arith, Run, ok, ◌>>=◌}
use swdev_proj.Dataframe.ColumnArray
use swdev_proj.Dataframe.DataFrame.{DataFrame}
use swdev_proj.Dataframe.Row
use swdev_proj.Dataframe.Row.{Row}
use swdev_proj.Dataframe.Visit.{map_rows, local_map}
use swdev_proj.Dataframe.Visit.Local.{rows_from, visits, mine, local_map-visits}
use swdev_proj.Samples.{near, store}

-- A frame of five rows without columns, and a reader that counts rows.
abbrev frame : DataFrame
frame = record {
  columns = ColumnArray.new near;
  schema = record { types = []; num_cols = 0; cap_cols = 0; num_rows = 5 };
  key = near;
}

abbrev count : Row → ℕ → Run ℕ
count row n = ok (n + 1)

local_map-visits_example :
    (local_map 2 2 count frame store 0 ≡ (
      Row.new frame.schema >>= λ row.
      visits 2 2 count
        (rows_from (mine 2 2 count store.store_id) frame.schema.num_rows 0)
        (record { row = row; frame = frame; kv = store; reader = 0 })))
    × (map_rows 2 2 count 0 frame.schema.num_rows frame store 0 ≡ (
        Row.new frame.schema >>= λ row.
        visits 2 2 count
          (rows_from (λ _. true) frame.schema.num_rows 0)
          (record { row = row; frame = frame; kv = store; reader = 0 })))
local_map-visits_example = local_map-visits 2 2 count frame store 0 (omega arith) (omega arith)

-- Of the blocks of two rows on two nodes, node 0 has the rows 0, 1 and 4.
rows_of_first : rows_from (mine 2 2 count 0) 5 0 ≡ 0 ∷ 1 ∷ 4 ∷ []
unfolding rows_from
rows_of_first = refl
