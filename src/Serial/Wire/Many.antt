-- ===== src/Serial/Wire/Many.antt =====
-- A counted sequence of items, written by a loop and read back by a loop.
use swdev_proj.Prelude.{
  ℕ, zero, suc, ◌≡◌, refl, sym, List, [], ◌∷◌, ◌++◌, append-nil, arith, length, All, Run, ok, ◌>>=◌,
  Returns,
}
use swdev_proj.Serial.{Serializer}
use swdev_proj.Serial.Room.{IsReady}
use swdev_proj.Serial.Write.{Appends}
use swdev_proj.Serial.Read.{Ahead, Took}
use swdev_proj.Serial.Wire.{Wire, Appends-seq, Took-seq, Ahead-assoc}

module _ {A : Type 0} where
  -- for each item: item.serialize(s)
  unfoldable pub put_all : (A → Serializer → Run Serializer) → List A → Serializer → Run Serializer
  put_all put [] s = ok s
  put_all put (x ∷ xs) s = put x s >>= put_all put xs

  -- for (i = 0; i < n; i++) item.deserialize(s)
  unfoldable pub get_many :
      (Serializer → Run (A × Serializer)) → ℕ → Serializer → Run (List A × Serializer)
  get_many get zero s = ok ([], s)
  get_many get (suc n) s = get s >>= λ p. get_many get n p.1 >>= λ q. ok (p.0 ∷ q.0, q.1)

module _ {A : Type 0} {put : A → Serializer → Run Serializer}
    {get : Serializer → Run (A × Serializer)} {Valid : A → Type 0} (wire : Wire put get Valid) where
  unfoldable pub bytes_all : List A → List ℕ
  bytes_all [] = []
  bytes_all (x ∷ xs) = wire.bytes x ++ bytes_all xs

  pub put_all-Appends :
      (xs : List A) (s : Serializer)
      → All Valid xs
      → IsReady s
      → Returns (put_all put xs s) (Appends (bytes_all xs) s)
  unfolding put_all bytes_all
  put_all-Appends [] s v r = (
    s,
    refl,
    record { ready = r; appended = sym (append-nil _); counted = omega arith; same_read = refl },
  )
  put_all-Appends (x ∷ xs) s v r =
      Appends-seq (put x s) (put_all put xs) (bytes_all xs) (wire.puts x s v.0 r)
        (λ t h. put_all-Appends xs t v.1 h)

  pub get_many-Took :
      (xs : List A) (n : ℕ) (rest : List ℕ) (s : Serializer)
      → n ≡ length xs
      → All Valid xs
      → Ahead (bytes_all xs ++ rest) s
      → Returns (get_many get n s) (Took xs rest)
  unfolding get_many bytes_all
  get_many-Took [] zero rest s e v h = (_, refl, record { value = refl; left = h })
  get_many-Took [] (suc n) rest s e v h = absurd (omega arith)
  get_many-Took (x ∷ xs) zero rest s e v h = absurd (omega arith)
  get_many-Took (x ∷ xs) (suc n) rest s e v h =
      Took-seq (get s) _
        (wire.gets x (bytes_all xs ++ rest) s v.0
          (Ahead-assoc (wire.bytes x) (bytes_all xs) rest s h))
        λ r ahead.
          let (t, run, q) = get_many-Took xs n rest r (omega arith) v.1 ahead in
          ((x ∷ xs, t.1), rw (run, ◌>>=◌, q.value) refl, record { value = refl; left = q.left })
