-- ===== src/Dataframe/Column/Wire.antt =====
-- serialize and deserialize of dataframe/column/column.h.
use swdev_proj.Prelude.{ℕ, ◌<◌, ◌≡◌, refl, List, [], ◌++◌, arith, length, All, ok, ◌>>=◌, Returns}
use swdev_proj.Serial.{Serializer, new, of_buffer, write_size, read_size, write_char, read_char}
use swdev_proj.Serial.Room.{IsReady}
use swdev_proj.Serial.Write.{Appends}
use swdev_proj.Serial.Read.{Ahead}
use swdev_proj.Serial.Wire.{Appends-seq, Took-then, Ahead-assoc, new-IsReady, reread}
use swdev_proj.Serial.Wire.Scalars.{SizeT, size_wire, Char-wire}
use swdev_proj.Utils.Array.Laws.{Represents}
use swdev_proj.Utils.Map.Buckets.{new-view}
use swdev_proj.Utils.DataType.{
  IsColumnType, letter, char_to_type, type_to_char-letter, char_to_type-letter, letter_small,
}
use swdev_proj.Store.Key
use swdev_proj.Store.Key.{Key, key_hashed}
use swdev_proj.Store.Key.Wire.{Sendable, key_wire}
use swdev_proj.Store.KvStore.{KvStore}
use swdev_proj.Dataframe.Block.{Block}
use swdev_proj.Dataframe.KeyArr
use swdev_proj.Dataframe.KeyArr.Wire.{Loaded, serialize-Appends, deserialize-Loaded}
use swdev_proj.Dataframe.Cache
use swdev_proj.Dataframe.Cache.Laws.{empty, empty-IsCache}
use swdev_proj.Dataframe.Distributed
use swdev_proj.Dataframe.Item.{Item}
use swdev_proj.Dataframe.Column.{Column, serialize, deserialize}
use swdev_proj.Dataframe.Column.GenKey.{block_key}
use swdev_proj.Dataframe.Column.Holds.{IsColumn}

-- A column over the blocks `ks` that can be sent.
pub record CanTravel (c : Column) (ks : List Key) : Type 0 where
  pub kind : IsColumnType c.type_
  pub small : SizeT c.size
  pub few : SizeT (length ks)
  pub keys : All Sendable ks
  pub base : Sendable c.base_key

pub bytes : Column → List Key → List ℕ
bytes c ks =
    size_wire.bytes c.size
    ++ (KeyArr.Wire.bytes ks ++ (Char-wire.bytes (letter c.type_) ++ key_wire.bytes c.base_key))

module _ (nodes size col : ℕ) (c : Column) (st : KvStore) (xs : List Item)
    (h : IsColumn nodes size col c st xs) (v : CanTravel c h.blocks.keys) where
  pub column-Appends :
      (s : Serializer) → IsReady s → Returns (serialize c s) (Appends (bytes c h.blocks.keys) s)
  unfolding serialize bytes
  column-Appends s r =
      Appends-seq (write_size c.size s) _ _ (size_wire.puts c.size s v.small r) λ t k.
        Appends-seq (KeyArr.serialize c.blocks.keys t) _ _
          (serialize-Appends c.blocks.keys h.blocks.keys t h.blocks.rep v.few v.keys k)
          λ u l.
            rw (type_to_char-letter c.type_ v.kind, ◌>>=◌)
              (Appends-seq (write_char (letter c.type_) u) _ _
                (Char-wire.puts (letter c.type_) u (letter_small c.type_) l)
                λ w m. key_wire.puts c.base_key w v.base m)

  -- The column over what was read.
  abbrev pub Back : List ℕ → Column × Serializer → Type 0
  Back rest p = IsColumn nodes size col p.0 st xs × (p.0.type_ ≡ c.type_) × Ahead rest p.1

  -- The column with its own key list, read back, and nothing in the cache.
  back : KeyArr.KeyArr → Column
  back keys = record c { blocks = record { keys = keys; cache = empty 15 } }

  back-IsColumn :
      (keys : KeyArr.KeyArr)
      → Represents keys.key_list h.blocks.keys
      → 0 < keys.key_list.capacity
      → IsColumn nodes size col (back keys) st xs
  unfolding back
  back-IsColumn keys rep room = record {
    blocks = record {
      base = h.blocks.base;
      sound = h.blocks.sound;
      keys = h.blocks.keys;
      rep = rep;
      room = room;
      enough = h.blocks.enough;
      cached_keys = [];
      cache = empty-IsCache 15 (omega arith);
      stored = h.blocks.stored;
      cached = λ n b s there.
          cc (new-view {V = Block Item} 4 (block_key nodes h.blocks.base.cstring.chars col n));
    };
    counted = h.counted;
  }

  pub column-Took :
      (rest : List ℕ) (s : Serializer)
      → Ahead (bytes c h.blocks.keys ++ rest) s
      → Returns (deserialize s) (Back rest)
  unfolding deserialize bytes back Distributed.new Cache.new
  column-Took rest s ahead =
      let ks = h.blocks.keys in
      let d = key_wire.bytes c.base_key in
      let e = Char-wire.bytes (letter c.type_) in
      let b = KeyArr.Wire.bytes ks in
      Took-then (read_size s) _ (Back rest)
        (size_wire.gets c.size ((b ++ (e ++ d)) ++ rest) s v.small
          (Ahead-assoc (size_wire.bytes c.size) (b ++ (e ++ d)) rest s ahead))
        λ t x.
          let (p, run, q) =
            deserialize-Loaded ks ((e ++ d) ++ rest) t v.few v.keys
              (Ahead-assoc b (e ++ d) rest t x) in
          let first = letter c.type_ in
          let (w, run', result) =
            Took-then (read_char p.1)
              (λ r. char_to_type r.0 >>= λ y. Key.deserialize r.1 >>= λ k.
                ok (record (back p.0) { type_ = y; base_key = k.0 }, k.1))
              (Back rest)
              (Char-wire.gets first (d ++ rest) p.1 (letter_small c.type_)
                (Ahead-assoc e d rest p.1 q.left))
              λ u y.
                rw (char_to_type-letter c.type_ v.kind, ◌>>=◌)
                  (Took-then (Key.deserialize u) _ (Back rest)
                    (key_wire.gets c.base_key rest u v.base y)
                    λ o z. ((back p.0, o), refl, (back-IsColumn p.0 q.rep q.room, refl, z))) in
          (w, rw (run, ◌>>=◌) run', result)

-- A column that travels to a node with the same store holds the same items there.
pub column_round_trip :
    (nodes size col : ℕ) (c : Column) (st : KvStore) (xs : List Item)
    (h : IsColumn nodes size col c st xs)
    → CanTravel c h.blocks.keys
    → Returns
        (serialize c new >>= λ s. of_buffer s.num_bytes_written s.buffer >>= deserialize)
        (λ p. IsColumn nodes size col p.0 st xs × (p.0.type_ ≡ c.type_))
column_round_trip nodes size col c st xs h v =
    let (u, run, a) = column-Appends nodes size col c st xs h v new new-IsReady in
    let (t, run', ahead) = reread (bytes c h.blocks.keys) u a in
    let (p, run'', q) = column-Took nodes size col c st xs h v [] t ahead in
    (p, rw (run, ◌>>=◌, run') run'', (q.0, q.1))
