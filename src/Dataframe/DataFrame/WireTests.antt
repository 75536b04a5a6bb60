-- ===== src/Dataframe/DataFrame/WireTests.antt =====
-- The theorem on the bytes of frames at a concrete frame.
use swdev_proj.Prelude.{◌≡◌, refl, List, [], ◌∷◌, none, some, arith, ◌>>=◌, Returns}
use swdev_proj.Prelude.Int.{pos}
use swdev_proj.Serial.{new, of_buffer}
use swdev_proj.Utils.Str.{Str, IsWell}
use swdev_proj.Utils.Map.Buckets.{new-view}
use swdev_proj.Utils.DataType.{integer}
use swdev_proj.Store.Key.{Key, key_hashed}
use swdev_proj.Store.Key.Wire.{Sendable}
use swdev_proj.Store.KvStore
use swdev_proj.Store.KvStore.{KvStore}
use swdev_proj.Store.KvStore.Invariant.{new-IsSound}
use swdev_proj.Dataframe.Block.{Block}
use swdev_proj.Dataframe.Cache.Laws.{empty, empty-IsCache}
use swdev_proj.Dataframe.Item.{Item, int_item}
use swdev_proj.Dataframe.Column.{Column}
use swdev_proj.Dataframe.Column.Holds.{IsColumn}
use swdev_proj.Dataframe.Column.GenKey.{block_key}
use swdev_proj.Dataframe.Column.Wire.{CanTravel}
use swdev_proj.Dataframe.ColumnArray.Wire.{Sent}
use swdev_proj.Dataframe.DataFrame
use swdev_proj.Dataframe.DataFrame.{DataFrame, serialize, deserialize}
use swdev_proj.Dataframe.DataFrame.Wire.{IsSendable, Same, frame_round_trip}
use swdev_proj.Samples.{near, far}

-- "a-0-0", the key of the first block
abbrev block_text : Str
block_text = record { size = 5; cstr = b'a' ∷ b'-' ∷ b'0' ∷ b'-' ∷ b'0' ∷ 0 ∷ [] }

abbrev first_block : Key
first_block = record { k_str = block_text; home_node = 0 }

block-Sendable : Sendable first_block
block-Sendable = record {
  str = record {
    well = record {
      cstring = record {
        chars = b'a' ∷ b'-' ∷ b'0' ∷ b'-' ∷ b'0' ∷ [];
        spelt = refl;
        nonzero = (omega arith, (omega arith, (omega arith, (omega arith, (omega arith, tt)))));
      };
      sized = refl;
    };
    small = omega arith;
  };
  small = omega arith;
}

abbrev near_well : IsWell near.k_str
near_well = record {
  cstring = record { chars = b'a' ∷ []; spelt = refl; nonzero = (omega arith, tt) };
  sized = refl;
}

near-Sendable : Sendable near
near-Sendable = record {
  str = record { well = near_well; small = omega arith };
  small = omega arith;
}

-- One int, in a block that lives on node 0; this is node 1 of two.
abbrev column : Column
column = record {
  size = 1;
  blocks = record {
    keys = record {
      key_list = record { obj_list = some first_block ∷ none ∷ []; capacity = 2; len = 1 };
    };
    cache = empty 15;
  };
  type_ = integer;
  base_key = near;
}

abbrev one_int : List Item
one_int = int_item (pos 5) ∷ []

second-id : (KvStore.new 1).store_id ≡ 1
unfolding KvStore.new
second-id = refl

abbrev column-IsColumn : IsColumn 2 4 0 column (KvStore.new 1) one_int
column-IsColumn = record {
  blocks = record {
    base = near_well;
    sound = new-IsSound 1;
    keys = first_block ∷ [];
    rep = record { spare = none ∷ []; shape = refl; counted = refl; sized = refl };
    room = omega arith;
    enough = omega arith;
    cached_keys = [];
    cache = empty-IsCache 15 (omega arith);
    stored = λ n l here. absurd (let first : n ≡ 0 = omega arith in ground (arith, second-id));
    cached = λ n b s there. cc (new-view {V = Block Item} 4 (block_key 2 (b'a' ∷ []) 0 n));
  };
  counted = refl;
}

column-CanTravel : CanTravel column (first_block ∷ [])
column-CanTravel = record {
  kind = tt;
  small = omega arith;
  few = omega arith;
  keys = (block-Sendable, tt);
  base = near-Sendable;
}

abbrev frame : DataFrame
frame = record {
  columns = record {
    col_list = record { obj_list = some column ∷ none ∷ []; capacity = 2; len = 1 };
    df_key = near;
  };
  schema = record { types = integer ∷ []; num_cols = 1; cap_cols = 1; num_rows = 1 };
  key = near;
}

frame-IsSendable : IsSendable frame (column ∷ []) (integer ∷ [])
frame-IsSendable = record {
  columns = record { spare = none ∷ []; shape = refl; counted = refl; sized = refl };
  few = omega arith;
  types = record { spare = []; shape = refl; counted = refl; sized = refl };
  kinds = (tt, tt);
  small = omega arith;
  rows = omega arith;
  base = near-Sendable;
  name = near-Sendable;
}

abbrev columns-Sent : Sent 2 4 (KvStore.new 1) 0 (column ∷ []) (one_int ∷ [])
columns-Sent = ((column-IsColumn, column-CanTravel), tt)

frame_round_trip_example :
    Returns
      (serialize frame new >>= λ s.
        of_buffer s.num_bytes_written s.buffer >>= deserialize (DataFrame.new far))
      (Same 2 4
        (KvStore.new 1)
        frame
        (column ∷ [])
        (integer ∷ [])
        (one_int ∷ [])
        frame-IsSendable
        columns-Sent)
frame_round_trip_example =
    frame_round_trip 2 4 (KvStore.new 1) frame (column ∷ []) (integer ∷ []) (one_int ∷ [])
      frame-IsSendable columns-Sent far
