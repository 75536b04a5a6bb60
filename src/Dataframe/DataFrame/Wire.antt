-- ===== src/Dataframe/DataFrame/Wire.antt =====
-- serialize and deserialize of dataframe/dataframe.h.
use swdev_proj.Prelude.{
  ℕ, ◌≤◌, ◌≡◌, refl, ap, List, [], ◌++◌, arith, length, length-append, All, ok, ◌>>=◌, Returns,
}
use swdev_proj.Serial.{Serializer, new, of_buffer}
use swdev_proj.Serial.Room.{IsReady}
use swdev_proj.Serial.Write.{Appends}
use swdev_proj.Serial.Read.{Ahead}
use swdev_proj.Serial.Wire.{Appends-seq, Took-then, Ahead-assoc, new-IsReady, reread}
use swdev_proj.Serial.Wire.Scalars.{SizeT}
use swdev_proj.Utils.Array
use swdev_proj.Utils.Array.Laws.{Represents, new-Represents}
use swdev_proj.Utils.DataType.{DataType, IsColumnType}
use swdev_proj.Store.Key
use swdev_proj.Store.Key.{Key}
use swdev_proj.Store.Key.Wire.{Sendable, key_wire}
use swdev_proj.Store.KvStore.{KvStore}
use swdev_proj.Dataframe.Schema
use swdev_proj.Dataframe.Schema.Laws.{Describes}
use swdev_proj.Dataframe.Schema.Wire.{loaded, loaded-Describes}
use swdev_proj.Dataframe.Item.{Item}
use swdev_proj.Dataframe.Column.{Column}
use swdev_proj.Dataframe.ColumnArray
use swdev_proj.Dataframe.ColumnArray.Wire.{Sent, Held}
use swdev_proj.Dataframe.DataFrame
use swdev_proj.Dataframe.DataFrame.{DataFrame, serialize, deserialize}

-- A frame of the columns `cs` and the types `ts` that can be sent.
pub record IsSendable (d : DataFrame) (cs : List Column) (ts : List DataType) : Type 0 where
  pub columns : Represents d.columns.col_list cs
  pub few : SizeT (length cs)
  pub types : Describes d.schema ts
  pub kinds : All IsColumnType ts
  pub small : SizeT d.schema.cap_cols
  pub rows : SizeT d.schema.num_rows
  pub base : Sendable d.columns.df_key
  pub name : Sendable d.key

module _ (nodes size : ℕ) (st : KvStore) (d : DataFrame) (cs : List Column) (ts : List DataType)
    (xss : List (List Item)) (f : IsSendable d cs ts) (v : Sent nodes size st 0 cs xss) where
  narrow : length ts ≤ d.schema.cap_cols
  narrow = omega (
    arith,
    ap length f.types.shape,
    length-append ts f.types.spare,
    f.types.counted,
    f.types.sized,
  )

  table : List ℕ
  table = ColumnArray.Wire.bytes nodes size st cs xss v d.columns.df_key

  types : List ℕ
  types = Schema.Wire.bytes d.schema.cap_cols d.schema.num_rows ts

  bytes : List ℕ
  bytes = table ++ (types ++ key_wire.bytes d.key)

  frame-Appends : (s : Serializer) → IsReady s → Returns (serialize d s) (Appends bytes s)
  unfolding serialize bytes table types
  frame-Appends s r =
      Appends-seq (ColumnArray.serialize d.columns s) _ _
        (ColumnArray.Wire.serialize-Appends nodes size st d.columns cs xss s f.columns f.few v
          f.base r)
        λ t k.
          Appends-seq (Schema.serialize d.schema t) _ _
            (Schema.Wire.serialize-Appends d.schema ts t f.types f.small f.rows
              (omega (arith, narrow, f.small)) f.kinds k)
            λ u l. key_wire.puts d.key u f.name l

  -- The frame that is read.
  pub record Same (p : DataFrame × Serializer) : Type 0 where
    pub columns : List Column
    pub rep : Represents p.0.columns.col_list columns
    pub held : Held nodes size st 0 columns cs xss
    pub described : Describes p.0.schema ts
    pub same_rows : p.0.schema.num_rows ≡ d.schema.num_rows
    pub same_key : p.0.key ≡ d.key

  frame-Same :
      (k : Key) (s : Serializer)
      → Ahead (bytes ++ []) s
      → Returns (deserialize (DataFrame.new k) s) Same
  unfolding deserialize bytes table types DataFrame.new ColumnArray.new Array.new Array.clear loaded
  frame-Same k s h =
      let name = key_wire.bytes d.key in
      let (a, run, b) =
        ColumnArray.Wire.deserialize-Back nodes size st (ColumnArray.new k) cs xss d.columns.df_key
          ((types ++ name) ++ []) s (new-Represents 2) (omega arith) f.few v f.base
          (Ahead-assoc table (types ++ name) [] s h) in
      let (q, run', same) =
        Took-then (Schema.deserialize a.1)
          (λ z. Key.deserialize z.1 >>= λ y.
            ok (record { columns = record a.0 { df_key = y.0 }; schema = z.0; key = y.0 }, y.1))
          Same
          (Schema.Wire.deserialize-Took d.schema.cap_cols d.schema.num_rows ts (name ++ []) a.1
            narrow f.small f.rows f.kinds (Ahead-assoc types name [] a.1 b.left))
          λ t x. Took-then (Key.deserialize t) _ Same (key_wire.gets d.key [] t f.name x) λ u y. (
            (
              record {
                columns = record a.0 { df_key = d.key };
                schema = loaded d.schema.cap_cols d.schema.num_rows ts;
                key = d.key;
              },
              u,
            ),
            refl,
            record {
              columns = b.columns;
              rep = b.rep;
              held = b.held;
              described = loaded-Describes d.schema.cap_cols d.schema.num_rows ts narrow;
              same_rows = refl;
              same_key = refl;
            },
          ) in
      (q, rw (run, ◌>>=◌) run', same)

  -- A frame whose keys and counts can be sent, and whose columns hold the items `xss`, survives
  -- serialize and deserialize: from a Serializer over the bytes that a new one got, deserialize into
  -- a new frame makes a frame of the same key, types and rows, whose columns, with the same store,
  -- hold the same items.
  pub frame_round_trip :
      (k : Key)
      → Returns
          (serialize d new >>= λ s.
            of_buffer s.num_bytes_written s.buffer >>= deserialize (DataFrame.new k))
          Same
  frame_round_trip k =
      let (u, run, a) = frame-Appends new new-IsReady in
      let (t, run', ahead) = reread bytes u a in
      let (p, run'', q) = frame-Same k t ahead in (p, rw (run, ◌>>=◌, run') run'', q)
