-- ===== src/Dataframe/KeyArr/Wire.antt =====
-- serialize and deserialize of dataframe/column/keyarr.h.
use swdev_proj.Prelude.{
  ℕ, zero, suc, ◌+◌, ◌<◌, ◌≡◌, refl, sym, ap, subst, ◌∙◌, List, [], ◌∷◌, ◌++◌, append_assoc,
  append-nil, arith, length, length-append, All, ◌>>=◌, Returns,
}
use mathlib.Core.Path.{fun_ext}
use swdev_proj.Serial.{Serializer, write_size, read_size}
use swdev_proj.Serial.Room.{IsReady}
use swdev_proj.Serial.Write.{Appends}
use swdev_proj.Serial.Read.{Ahead}
use swdev_proj.Serial.Wire.{Appends-seq, Took-then, Ahead-assoc}
use swdev_proj.Serial.Wire.Scalars.{SizeT, size_wire}
use swdev_proj.Serial.Wire.Many.{put_all, put_all-Appends, bytes_all}
use swdev_proj.Utils.Array
use swdev_proj.Utils.Array.{Array}
use swdev_proj.Utils.Array.Laws.{Represents, get-Represents, new-Represents}
use swdev_proj.Utils.Array.Change.{add-Represents}
use swdev_proj.Store.Key
use swdev_proj.Store.Key.{Key}
use swdev_proj.Store.Key.Wire.{Sendable, key_wire}
use swdev_proj.Dataframe.KeyArr
use swdev_proj.Dataframe.KeyArr.{KeyArr, put_from, serialize, add_keys, deserialize}

pub bytes : List Key → List ℕ
bytes ks = size_wire.bytes (length ks) ++ bytes_all key_wire ks

put_from-all :
    (xs pre ks : List Key) (a : KeyArr) (n i : ℕ) (s : Serializer)
    → Represents a.key_list ks
    → ks ≡ pre ++ xs
    → i ≡ length pre
    → n ≡ length xs
    → put_from n i a s ≡ put_all Key.serialize xs s
unfolding put_from put_all
put_from-all [] pre ks a zero i s r e h l = refl
put_from-all [] pre ks a (suc n) i s r e h l = absurd (omega arith)
put_from-all (x ∷ xs) pre ks a zero i s r e h l = absurd (omega arith)
put_from-all (x ∷ xs) pre ks a (suc n) i s r e h l =
    rw (get-Represents a.key_list r pre xs x i e h, ◌>>=◌)
      (ap (λ next. Key.serialize x s >>= next)
        (fun_ext λ t.
          put_from-all xs (pre ++ x ∷ []) ks a n (i + 1) t r
            (e ∙ sym (append_assoc pre (x ∷ []) xs)) (omega (arith, length-append pre (x ∷ [])))
            (omega arith)))

-- serialize appends the number of keys, and the keys.
pub serialize-Appends :
    (a : KeyArr) (ks : List Key) (s : Serializer)
    → Represents a.key_list ks
    → SizeT (length ks)
    → All Sendable ks
    → IsReady s
    → Returns (serialize a s) (Appends (bytes ks) s)
unfolding serialize bytes
serialize-Appends a ks s r small v ready =
    subst (λ m. Returns (write_size m s >>= put_from m 0 a) (Appends (bytes ks) s)) (sym r.counted)
      (Appends-seq (write_size (length ks) s) _ _ (size_wire.puts (length ks) s small ready) λ t h.
        let (u, run, p) = put_all-Appends key_wire ks t v h in
        (u, put_from-all ks [] ks a (length ks) 0 t r refl refl refl ∙ run, p))

-- What was read: an array of these keys that can take more.
pub record Loaded (ks : List Key) (rest : List ℕ) (p : KeyArr × Serializer) : Type 0 where
  pub rep : Represents p.0.key_list ks
  pub room : 0 < p.0.key_list.capacity
  pub left : Ahead rest p.1

add_keys-Loaded :
    (xs pre : List Key) (a : KeyArr) (n : ℕ) (rest : List ℕ) (s : Serializer)
    → Represents a.key_list pre
    → 0 < a.key_list.capacity
    → n ≡ length xs
    → All Sendable xs
    → Ahead (bytes_all key_wire xs ++ rest) s
    → Returns (add_keys n a s) (Loaded (pre ++ xs) rest)
unfolding add_keys bytes_all KeyArr.add
add_keys-Loaded [] pre a zero rest s r room e v h = (
  (a, s),
  refl,
  record {
    rep = subst (λ (l : List Key). Represents a.key_list l) (sym (append-nil pre)) r;
    room = room;
    left = h;
  },
)
add_keys-Loaded [] pre a (suc n) rest s r room e v h = absurd (omega arith)
add_keys-Loaded (x ∷ xs) pre a zero rest s r room e v h = absurd (omega arith)
add_keys-Loaded (x ∷ xs) pre a (suc n) rest s r room e v h =
    Took-then (Key.deserialize s) _ (Loaded (pre ++ x ∷ xs) rest)
      (key_wire.gets x (bytes_all key_wire xs ++ rest) s v.0
        (Ahead-assoc (key_wire.bytes x) (bytes_all key_wire xs) rest s h))
      λ t ahead.
        let (l, run, (r', room')) = add-Represents a.key_list x r room in
        let (p, run', q) =
          add_keys-Loaded xs (pre ++ x ∷ []) (record { key_list = l }) n rest t r' room'
            (omega arith) v.1 ahead in
        (
          p,
          rw (run, ◌>>=◌) run',
          subst (λ (w : List Key). Loaded w rest p) (append_assoc pre (x ∷ []) xs) q,
        )

-- deserialize takes what serialize appended.
pub deserialize-Loaded :
    (ks : List Key) (rest : List ℕ) (s : Serializer)
    → SizeT (length ks)
    → All Sendable ks
    → Ahead (bytes ks ++ rest) s
    → Returns (deserialize s) (Loaded ks rest)
unfolding deserialize bytes KeyArr.new Array.new
deserialize-Loaded ks rest s small v h =
    Took-then (read_size s) _ (Loaded ks rest)
      (size_wire.gets (length ks) (bytes_all key_wire ks ++ rest) s small
        (Ahead-assoc (size_wire.bytes (length ks)) (bytes_all key_wire ks) rest s h))
      λ t ahead.
        add_keys-Loaded ks [] KeyArr.new (length ks) rest t (new-Represents 2) (omega arith) refl v
          ahead
