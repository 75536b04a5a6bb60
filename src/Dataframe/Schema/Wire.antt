-- ===== src/Dataframe/Schema/Wire.antt =====
-- serialize and deserialize of dataframe/schema.h.
use swdev_proj.Prelude.{
  ℕ, ◌+◌, ◌-◌, ◌≤◌, ◌≡◌, refl, sym, ap, subst, ◌∙◌, List, [], ◌++◌, arith, length, length-append,
  length-replicate, replicate, All, ◌>>=◌, Returns,
}
use swdev_proj.Serial.{Serializer, new, of_buffer, write_size, read_size}
use swdev_proj.Serial.Room.{IsReady}
use swdev_proj.Serial.Write.{Appends}
use swdev_proj.Serial.Read.{Ahead, Took}
use swdev_proj.Serial.Wire
use swdev_proj.Serial.Wire.{reread, new-IsReady, Appends-seq, Took-seq, Ahead-assoc}
use swdev_proj.Serial.Wire.Scalars.{SizeT, size_wire, Char, Char-wire}
use swdev_proj.Serial.Wire.Many.{bytes_all}
use swdev_proj.Utils.DataType.{
  DataType, field, boolean, integer, double, str, letter, IsColumnType, type_to_char-letter,
  char_to_type-letter,
}
use swdev_proj.Dataframe.Block.{put_from, get_into}
use swdev_proj.Dataframe.Block.Wire.{put_from-Appends, get_into-Took, replicate-append}
use swdev_proj.Dataframe.Schema.{Schema, put_type, take_type, serialize, deserialize}
use swdev_proj.Dataframe.Schema.Laws.{Describes}

letter-lt : (t : DataType) → Char (letter t)
letter-lt field = omega arith
letter-lt boolean = omega arith
letter-lt integer = omega arith
letter-lt double = omega arith
letter-lt str = omega arith

pub type_wire : Wire.Wire put_type take_type IsColumnType
unfolding put_type take_type
type_wire = record {
  bytes = λ t. Char-wire.bytes (letter t);
  puts = λ t s v r.
      let (u, run, a) = Char-wire.puts (letter t) s (letter-lt t) r in
      (u, rw (type_to_char-letter t v, ◌>>=◌) run, a);
  gets = λ t rest s v h.
      let (p, run, took) = Char-wire.gets (letter t) rest s (letter-lt t) h in
      (
        (t, p.1),
        rw (run, ◌>>=◌, took.value, char_to_type-letter t v) refl,
        record { value = refl; left = took.left },
      );
}

-- The bytes of a schema: its capacity, its width, its rows, and the letters of its types.
pub bytes : ℕ → ℕ → List DataType → List ℕ
bytes cap rows ts =
    size_wire.bytes cap
    ++ (size_wire.bytes (length ts) ++ (size_wire.bytes rows ++ bytes_all type_wire ts))

-- The schema that deserialize makes.
unfoldable pub loaded : ℕ → ℕ → List DataType → Schema
loaded cap rows ts = record {
  types = ts ++ replicate (cap - length ts) field;
  num_cols = length ts;
  cap_cols = cap;
  num_rows = rows;
}

pub loaded-Describes :
    (cap rows : ℕ) (ts : List DataType) → length ts ≤ cap → Describes (loaded cap rows ts) ts
unfolding loaded
loaded-Describes cap rows ts l = record {
  spare = replicate (cap - length ts) field;
  shape = refl;
  counted = refl;
  sized = omega (
    arith,
    length-append ts (replicate (cap - length ts) field),
    length-replicate (cap - length ts) field,
  );
}

pub serialize-Appends :
    (c : Schema) (ts : List DataType) (s : Serializer)
    → Describes c ts
    → SizeT c.cap_cols
    → SizeT c.num_rows
    → SizeT (length ts)
    → All IsColumnType ts
    → IsReady s
    → Returns (serialize c s) (Appends (bytes c.cap_cols c.num_rows ts) s)
unfolding serialize bytes
serialize-Appends c ts s d small rows cols v r =
    Appends-seq (write_size c.cap_cols s) _ _ (size_wire.puts c.cap_cols s small r) λ t k.
      subst
        (λ m.
          Returns
            (write_size m t >>= λ u. write_size c.num_rows u >>= put_from put_type m 0 c.types)
            (Appends
              (size_wire.bytes (length ts)
                ++ (size_wire.bytes c.num_rows ++ bytes_all type_wire ts))
              t))
        (sym d.counted)
        (Appends-seq (write_size (length ts) t) _ _ (size_wire.puts (length ts) t cols k) λ u l.
          Appends-seq (write_size c.num_rows u) _ _ (size_wire.puts c.num_rows u rows l) λ w m.
            put_from-Appends type_wire ts [] d.spare c.types (length ts) 0 w d.shape refl refl v m)

pub deserialize-Took :
    (cap rows : ℕ) (ts : List DataType) (rest : List ℕ) (s : Serializer)
    → length ts ≤ cap
    → SizeT cap
    → SizeT rows
    → All IsColumnType ts
    → Ahead (bytes cap rows ts ++ rest) s
    → Returns (deserialize s) (Took (loaded cap rows ts) rest)
unfolding deserialize bytes loaded
deserialize-Took cap rows ts rest s l small few v h =
    let a = size_wire.bytes cap in
    let b = size_wire.bytes (length ts) in
    let c = size_wire.bytes rows in
    let d = bytes_all type_wire ts in
    let n = length ts in
    let cells : replicate cap field ≡ replicate n field ++ replicate (cap - n) field =
      (let e : cap ≡ n + (cap - n) = omega arith in ap (λ k. replicate k field) e)
      ∙ replicate-append type_wire field n (cap - n) in
    Took-seq (read_size s) _
      (size_wire.gets cap ((b ++ (c ++ d)) ++ rest) s small
        (Ahead-assoc a (b ++ (c ++ d)) rest s h))
      λ t x.
        Took-seq (read_size t) _
          (size_wire.gets n ((c ++ d) ++ rest) t (omega arith) (Ahead-assoc b (c ++ d) rest t x))
          λ u y.
            Took-seq (read_size u) _
              (size_wire.gets rows (d ++ rest) u few (Ahead-assoc c d rest u y))
              λ w z.
                Took-seq (get_into take_type n 0 (replicate cap field) w) _
                  (rw cells (
                    get_into-Took type_wire ts [] (replicate n field) rest n 0 w
                      (length-replicate n field) (replicate (cap - n) field) refl refl v z))
                  λ q left. ((loaded cap rows ts, q), refl, record { value = refl; left = left })

-- A schema of column types survives serialize and deserialize: from a Serializer over the bytes
-- that a new one got, deserialize makes a schema of the same types, rows and capacity.
pub schema_round_trip :
    (c : Schema) (ts : List DataType)
    → Describes c ts
    → SizeT c.cap_cols
    → SizeT c.num_rows
    → All IsColumnType ts
    → Returns
        (serialize c new >>= λ s. of_buffer s.num_bytes_written s.buffer >>= deserialize)
        (λ p. Describes p.0 ts × (p.0.num_rows ≡ c.num_rows) × (p.0.cap_cols ≡ c.cap_cols))
schema_round_trip c ts d small rows v =
    let few : length ts ≤ c.cap_cols =
      omega (arith, ap length d.shape, length-append ts d.spare, d.counted, d.sized) in
    let (u, run, a) = serialize-Appends c ts new d small rows (omega arith) v new-IsReady in
    let (t, run', start) = reread (bytes c.cap_cols c.num_rows ts) u a in
    let (q, run'', took) = deserialize-Took c.cap_cols c.num_rows ts [] t few small rows v start in
    (
      q,
      rw (run, ◌>>=◌, run') run'',
      subst (λ (r : Schema). Describes r ts × (r.num_rows ≡ c.num_rows) × (r.cap_cols ≡ c.cap_cols))
          (sym took.value)
          (
            loaded-Describes c.cap_cols c.num_rows ts few,
            unfold loaded in refl,
            unfold loaded in refl,
          ),
    )
