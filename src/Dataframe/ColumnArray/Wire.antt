-- ===== src/Dataframe/ColumnArray/Wire.antt =====
-- serialize and deserialize of dataframe/column/columnarray.h.
use swdev_proj.Prelude.{
  ℕ, zero, suc, ◌+◌, ◌<◌, ◌≡◌, refl, sym, subst, ◌∙◌, List, [], ◌∷◌, ◌++◌, append_assoc, append-nil,
  arith, length, length-append, ok, ◌>>=◌, Returns,
}
use swdev_proj.Serial.{Serializer, write_size, read_size}
use swdev_proj.Serial.Room.{IsReady}
use swdev_proj.Serial.Write.{Appends}
use swdev_proj.Serial.Read.{Ahead}
use swdev_proj.Serial.Wire.{Appends-seq, Took-then, Ahead-assoc}
use swdev_proj.Serial.Wire.Scalars.{SizeT, size_wire}
use swdev_proj.Utils.Array
use swdev_proj.Utils.Array.{Array}
use swdev_proj.Utils.Array.Laws.{Represents, get-Represents}
use swdev_proj.Utils.Array.Change.{add-Represents}
use swdev_proj.Store.Key
use swdev_proj.Store.Key.{Key}
use swdev_proj.Store.Key.Wire.{Sendable, key_wire}
use swdev_proj.Store.KvStore.{KvStore}
use swdev_proj.Dataframe.Item.{Item}
use swdev_proj.Dataframe.Column
use swdev_proj.Dataframe.Column.{Column}
use swdev_proj.Dataframe.Column.Holds.{IsColumn}
use swdev_proj.Dataframe.Column.Wire.{CanTravel, column-Appends, column-Took}
use swdev_proj.Dataframe.ColumnArray
use swdev_proj.Dataframe.ColumnArray.{ColumnArray, put_from, serialize, add_columns, deserialize}

module _ (nodes size : ℕ) (st : KvStore) where
  -- The columns from number `i` on hold these items, and can be sent.
  abbrev pub Sent : ℕ → List Column → List (List Item) → Type 0
  Sent i [] [] = Unit
  Sent i [] (xs ∷ xss) = ⊥
  Sent i (c ∷ cs) [] = ⊥
  Sent i (c ∷ cs) (xs ∷ xss) =
      ((h : IsColumn nodes size i c st xs) × CanTravel c h.blocks.keys) × Sent (i + 1) cs xss

  -- The columns `ds` hold these items, and have the types of the columns `cs`.
  abbrev pub Held : ℕ → List Column → List Column → List (List Item) → Type 0
  Held i [] [] [] = Unit
  Held i [] [] (xs ∷ xss) = ⊥
  Held i [] (c ∷ cs) xss = ⊥
  Held i (d ∷ ds) [] xss = ⊥
  Held i (d ∷ ds) (c ∷ cs) [] = ⊥
  Held i (d ∷ ds) (c ∷ cs) (xs ∷ xss) =
      IsColumn nodes size i d st xs × (d.type_ ≡ c.type_) × Held (i + 1) ds cs xss

  unfoldable sent_bytes :
      (i : ℕ) (cs : List Column) (xss : List (List Item)) → Sent i cs xss → List ℕ
  sent_bytes i [] [] v = []
  sent_bytes i [] (xs ∷ xss) v = []
  sent_bytes i (c ∷ cs) [] v = []
  sent_bytes i (c ∷ cs) (xs ∷ xss) v =
      Column.Wire.bytes c v.0.0.blocks.keys ++ sent_bytes (i + 1) cs xss v.1

  put_from-Appends :
      (cs pre all : List Column) (xss : List (List Item)) (a : ColumnArray) (n i : ℕ)
      (s : Serializer)
      → Represents a.col_list all
      → all ≡ pre ++ cs
      → i ≡ length pre
      → n ≡ length cs
      → (v : Sent i cs xss) → IsReady s
      → Returns (put_from n i a s) (Appends (sent_bytes i cs xss v) s)
  unfolding put_from sent_bytes ColumnArray.get
  put_from-Appends [] pre all [] a zero i s r e h l v ready = (
    s,
    refl,
    record {
      ready = ready;
      appended = sym (append-nil _);
      counted = omega arith;
      same_read = refl;
    },
  )
  put_from-Appends [] pre all [] a (suc n) i s r e h l v ready = absurd (omega arith)
  put_from-Appends [] pre all (xs ∷ xss) a n i s r e h l v ready = absurd v
  put_from-Appends (c ∷ cs) pre all [] a n i s r e h l v ready = absurd v
  put_from-Appends (c ∷ cs) pre all (xs ∷ xss) a zero i s r e h l v ready = absurd (omega arith)
  put_from-Appends (c ∷ cs) pre all (xs ∷ xss) a (suc n) i s r e h l v ready =
      rw (get-Represents a.col_list r pre cs c i e h, ◌>>=◌)
        (Appends-seq (Column.serialize c s) _ _
          (column-Appends nodes size i c st xs v.0.0 v.0.1 s ready)
          λ t k.
            put_from-Appends cs (pre ++ c ∷ []) all xss a n (i + 1) t r
              (e ∙ sym (append_assoc pre (c ∷ []) cs)) (omega (arith, length-append pre (c ∷ [])))
              (omega arith) v.1 k)

  -- What was read behind the columns `us`.
  pub record Loaded (us : List Column) (i : ℕ) (cs : List Column) (xss : List (List Item))
      (rest : List ℕ) (p : Array Column × Serializer) : Type 0 where
    pub columns : List Column
    pub rep : Represents p.0 (us ++ columns)
    pub room : 0 < p.0.capacity
    pub held : Held i columns cs xss
    pub left : Ahead rest p.1

  add_columns-Loaded :
      (cs us : List Column) (xss : List (List Item)) (l : Array Column) (n i : ℕ) (rest : List ℕ)
      (s : Serializer)
      → Represents l us
      → 0 < l.capacity
      → n ≡ length cs
      → (v : Sent i cs xss) → Ahead (sent_bytes i cs xss v ++ rest) s
      → Returns (add_columns n l s) (Loaded us i cs xss rest)
  unfolding add_columns sent_bytes
  add_columns-Loaded [] us [] l zero i rest s r room e v h = (
    (l, s),
    refl,
    record {
      columns = [];
      rep = subst (λ (w : List Column). Represents l w) (sym (append-nil us)) r;
      room = room;
      held = tt;
      left = h;
    },
  )
  add_columns-Loaded [] us [] l (suc n) i rest s r room e v h = absurd (omega arith)
  add_columns-Loaded [] us (xs ∷ xss) l n i rest s r room e v h = absurd v
  add_columns-Loaded (c ∷ cs) us [] l n i rest s r room e v h = absurd v
  add_columns-Loaded (c ∷ cs) us (xs ∷ xss) l zero i rest s r room e v h = absurd (omega arith)
  add_columns-Loaded (c ∷ cs) us (xs ∷ xss) l (suc n) i rest s r room e v h =
      let here = Column.Wire.bytes c v.0.0.blocks.keys in
      let later = sent_bytes (i + 1) cs xss v.1 in
      let (p, run, (column, kind, ahead)) =
        column-Took nodes size i c st xs v.0.0 v.0.1 (later ++ rest) s
          (Ahead-assoc here later rest s h) in
      let (m, run', (r', room')) = add-Represents l p.0 r room in
      let (q, run'', g) =
        add_columns-Loaded cs (us ++ p.0 ∷ []) xss m n (i + 1) rest p.1 r' room' (omega arith) v.1
          ahead in
      (
        q,
        rw (run, ◌>>=◌, run') run'',
        record {
          columns = p.0 ∷ g.columns;
          rep =
              subst (λ (w : List Column). Represents q.0 w) (append_assoc us (p.0 ∷ []) g.columns)
                g.rep;
          room = g.room;
          held = (column, kind, g.held);
          left = g.left;
        },
      )

  pub bytes : (cs : List Column) (xss : List (List Item)) → Sent 0 cs xss → Key → List ℕ
  bytes cs xss v k = size_wire.bytes (length cs) ++ (sent_bytes 0 cs xss v ++ key_wire.bytes k)

  pub serialize-Appends :
      (a : ColumnArray) (cs : List Column) (xss : List (List Item)) (s : Serializer)
      → Represents a.col_list cs
      → SizeT (length cs)
      → (v : Sent 0 cs xss) → Sendable a.df_key
      → IsReady s
      → Returns (serialize a s) (Appends (bytes cs xss v a.df_key) s)
  unfolding serialize bytes ColumnArray.length
  serialize-Appends a cs xss s r small v k ready =
      subst
        (λ m.
          Returns (write_size m s >>= λ t. put_from m 0 a t >>= λ u. Key.serialize a.df_key u)
            (Appends (bytes cs xss v a.df_key) s))
        (sym r.counted)
        (Appends-seq (write_size (length cs) s) _ _ (size_wire.puts (length cs) s small ready)
          λ t h.
            Appends-seq (put_from (length cs) 0 a t) _ _
              (put_from-Appends cs [] cs xss a (length cs) 0 t r refl refl refl v h)
              λ u l. key_wire.puts a.df_key u k l)

  -- An array of columns over what was read.
  pub record Back (cs : List Column) (xss : List (List Item)) (rest : List ℕ)
      (p : ColumnArray × Serializer) : Type 0 where
    pub columns : List Column
    pub rep : Represents p.0.col_list columns
    pub held : Held 0 columns cs xss
    pub left : Ahead rest p.1

  pub deserialize-Back :
      (e : ColumnArray) (cs : List Column) (xss : List (List Item)) (k : Key) (rest : List ℕ)
      (s : Serializer)
      → Represents (Array.clear e.col_list) []
      → 0 < (Array.clear e.col_list).capacity
      → SizeT (length cs)
      → (v : Sent 0 cs xss) → Sendable k
      → Ahead (bytes cs xss v k ++ rest) s
      → Returns (deserialize e s) (Back cs xss rest)
  unfolding deserialize bytes
  deserialize-Back e cs xss k rest s r room small v sent h =
      let items = sent_bytes 0 cs xss v in
      let d = key_wire.bytes k in
      Took-then (read_size s) _ (Back cs xss rest)
        (size_wire.gets (length cs) ((items ++ d) ++ rest) s small
          (Ahead-assoc (size_wire.bytes (length cs)) (items ++ d) rest s h))
        λ t x.
          let (p, run, g) =
            add_columns-Loaded cs [] xss (Array.clear e.col_list) (length cs) 0 (d ++ rest) t r room
              refl v (Ahead-assoc items d rest t x) in
          let (q, run', b) =
            Took-then (Key.deserialize p.1) (λ z. ok (record { col_list = p.0; df_key = z.0 }, z.1))
              (Back cs xss rest) (key_wire.gets k rest p.1 sent g.left)
              λ u y. (
                (record { col_list = p.0; df_key = k }, u),
                refl,
                record { columns = g.columns; rep = g.rep; held = g.held; left = y },
              ) in
          (q, rw (run, ◌>>=◌) run', b)
