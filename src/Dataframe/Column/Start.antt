-- ===== src/Dataframe/Column/Start.antt =====
-- A new Column of dataframe/column/column.h holds nothing.
use swdev_proj.Prelude.{ℕ, ◌≡◌, refl, [], arith, ok}
use swdev_proj.Utils.Str.{IsWell}
use swdev_proj.Utils.Array
use swdev_proj.Utils.Array.Laws.{new-Represents}
use swdev_proj.Utils.Map.Buckets.{new-view}
use swdev_proj.Utils.DataType.{DataType}
use swdev_proj.Store.Key.{Key, key_hashed}
use swdev_proj.Store.KvStore.{KvStore}
use swdev_proj.Store.KvStore.Invariant.{IsSound}
use swdev_proj.Dataframe.KeyArr
use swdev_proj.Dataframe.Block.{Block}
use swdev_proj.Dataframe.Cache
use swdev_proj.Dataframe.Cache.Laws.{empty, empty-IsCache}
use swdev_proj.Dataframe.Distributed
use swdev_proj.Dataframe.Item.{Item}
use swdev_proj.Dataframe.Column.{Column, new}
use swdev_proj.Dataframe.Column.GenKey.{block_key}
use swdev_proj.Dataframe.Column.Holds.{IsColumn}

abbrev pub fresh : Key → DataType → Column
fresh base t = record {
  size = 0;
  blocks = record { keys = record { key_list = Array.new 2 }; cache = empty 15 };
  type_ = t;
  base_key = base;
}

pub new-fresh : (base : Key) (t : DataType) → new base t ≡ ok (fresh base t)
unfolding new Distributed.new Cache.new KeyArr.new
new-fresh base t = refl

-- A new column with a well-formed key holds no items, on every sound store.
pub fresh-IsColumn :
    (nodes size col : ℕ) (base : Key) (t : DataType) (st : KvStore)
    → IsWell base.k_str
    → IsSound st
    → IsColumn nodes size col (fresh base t) st []
unfolding Array.new
fresh-IsColumn nodes size col base t st w sound = record {
  blocks = record {
    base = w;
    sound = sound;
    keys = [];
    rep = new-Represents 2;
    room = omega arith;
    enough = omega arith;
    cached_keys = [];
    cache = empty-IsCache 15 (omega arith);
    stored = λ n l here. absurd (omega arith);
    cached =
        λ n b s there. cc (new-view {V = Block Item} 4 (block_key nodes w.cstring.chars col n));
  };
  counted = refl;
}
