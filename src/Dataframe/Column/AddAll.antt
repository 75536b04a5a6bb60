-- ===== src/Dataframe/Column/AddAll.antt =====
-- add_all of dataframe/column/column.h: the loop over the blocks.
use swdev_proj.Prelude.{
  ℕ, suc, ◌+◌, ◌*◌, ◌<◌, ◌≡◌, refl, subst, List, [], ◌++◌, arith, length, length-append, All, ◌>>=◌,
  Returns,
}
use swdev_proj.Serial.Wire.Scalars.{SizeT}
use swdev_proj.Utils.DataType.{same_type_refl}
use swdev_proj.Store.KvStore.{KvStore}
use swdev_proj.Dataframe.KeyArr
use swdev_proj.Dataframe.Distributed
use swdev_proj.Dataframe.Block
use swdev_proj.Dataframe.Block.{Block}
use swdev_proj.Dataframe.Block.Laws.{new-Holds}
use swdev_proj.Dataframe.Item
use swdev_proj.Dataframe.Item.{Item, IsItem}
use swdev_proj.Dataframe.Column.{Column, add_all}
use swdev_proj.Dataframe.Column.Holds.{IsColumn}
use swdev_proj.Dataframe.Column.Mail.{Mailed}
use swdev_proj.Dataframe.Column.Rounds.{grow}

-- add_all of items of the column's type that can be sent, to a column that holds `xs` in full
-- blocks, on a sound store, returns; let there be nodes, let the block size be positive and, with the
-- number of the column and with that of the old blocks and the new items, fit a size_t. The column
-- then holds the new items behind the old ones: each block of this node stands in its store; each
-- new block of another node is among the messages that add_all has sent, behind those sent before,
-- in a put of its bytes, under its key, to the home of the key; and there is no block more than the
-- items need.
pub add_all-IsColumn :
    (nodes size col : ℕ) (c : Column) (st : KvStore) (xs vals : List Item)
    → 0 < nodes
    → 0 < size
    → SizeT size
    → SizeT col
    → IsColumn nodes size col c st xs
    → length xs ≡ KeyArr.length c.blocks.keys * size
    → SizeT (KeyArr.length c.blocks.keys + length vals)
    → All (IsItem c.type_) vals
    → Returns (add_all nodes size c.type_ (length vals) vals col c st) (λ r.
      IsColumn nodes size col r.0 r.1 (xs ++ vals)
      × (KeyArr.length r.0.blocks.keys * size < length (xs ++ vals) + size)
      × (r.0.type_ ≡ c.type_)
      × (r.1.store_id ≡ st.store_id)
      × Mailed nodes size col c st
          (xs ++ vals)
          (KeyArr.length c.blocks.keys)
          (KeyArr.length r.0.blocks.keys)
          r.1)
unfolding add_all Distributed.length KeyArr.length
add_all-IsColumn nodes size col c st xs vals pos some_size small few h full count v =
    let (q, run, g) =
      grow nodes size col pos some_size small few c.type_ vals (length vals)
        (KeyArr.length c.blocks.keys) refl (suc (length vals)) 0 0 [] vals xs
        (Block.new (Item.initial c.type_) size) c st h.blocks
        (subst (λ (n : ℕ). length xs ≡ n * size) h.blocks.rep.counted full)
        (omega (arith, h.blocks.rep.counted)) (omega arith) (omega (arith, h.blocks.rep.counted))
        (new-Holds (Item.initial c.type_) size) (unfold Block.new in refl) refl refl refl v
        (omega arith) in
    (
      (record q.1 { size = q.1.size + q.0 }, q.2),
      rw (same_type_refl c.type_, run, ◌>>=◌) refl,
      (
        record {
          blocks = record {
            base = g.blocks.base;
            sound = g.blocks.sound;
            keys = g.blocks.keys;
            rep = g.blocks.rep;
            room = g.blocks.room;
            enough = g.blocks.enough;
            cached_keys = g.blocks.cached_keys;
            cache = g.blocks.cache;
            stored = g.blocks.stored;
            cached = g.blocks.cached;
          };
          counted = omega (arith, g.same_size, g.total, h.counted, length-append xs vals);
        },
        omega (arith, g.tight, length-append xs vals),
        g.same_type,
        g.same_id,
        g.mailed,
      ),
    )
