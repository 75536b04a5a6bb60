-- ===== src/Dataframe/Block/Wire.antt =====
-- serialize and deserialize of the blocks in src/dataframe/block.
use swdev_proj.Prelude.{
  ℕ, zero, suc, ◌+◌, ◌-◌, ◌≤◌, ◌≡◌, refl, sym, ap, subst, ◌∙◌, List, [], ◌∷◌, ◌++◌, append_assoc,
  append-nil, arith, length, length-append, length-replicate, replicate, All, Run, ok, ◌>>=◌,
  Returns,
}
use swdev_proj.Serial.{Serializer, new, of_buffer, write_size, read_size}
use swdev_proj.Serial.Room.{IsReady}
use swdev_proj.Serial.Write.{Appends}
use swdev_proj.Serial.Read.{Ahead, Took}
use swdev_proj.Serial.Wire
use swdev_proj.Serial.Wire.{reread, new-IsReady, Appends-seq, Took-seq, Ahead-assoc}
use swdev_proj.Serial.Wire.Scalars.{SizeT, size_wire}
use swdev_proj.Serial.Wire.Many.{bytes_all}
use swdev_proj.Dataframe.Block.{Block, load, put_from, serialize, get_into, deserialize}
use swdev_proj.Dataframe.Block.Laws.{Holds, fits, load-append, store-append}

module _ {A : Type 0} {put : A → Serializer → Run Serializer}
    {take_one : Serializer → Run (A × Serializer)} {Valid : A → Type 0}
    (wire : Wire.Wire put take_one Valid) where
  -- The bytes of a block: its capacity, its size, and its items.
  pub bytes : ℕ → List A → List ℕ
  bytes c xs = size_wire.bytes c ++ (size_wire.bytes (length xs) ++ bytes_all wire xs)

  pub put_from-Appends :
      (xs pre us vals : List A) (n i : ℕ) (s : Serializer)
      → vals ≡ pre ++ (xs ++ us)
      → i ≡ length pre
      → n ≡ length xs
      → All Valid xs
      → IsReady s
      → Returns (put_from put n i vals s) (Appends (bytes_all wire xs) s)
  unfolding put_from bytes_all
  put_from-Appends [] pre us vals zero i s e a l v r = (
    s,
    refl,
    record { ready = r; appended = sym (append-nil _); counted = omega arith; same_read = refl },
  )
  put_from-Appends [] pre us vals (suc n) i s e a l v r = absurd (omega arith)
  put_from-Appends (x ∷ xs) pre us vals zero i s e a l v r = absurd (omega arith)
  put_from-Appends (x ∷ xs) pre us vals (suc n) i s e a l v r =
      let here : load i vals ≡ ok x = rw e (load-append pre (xs ++ us) x i a) in
      let (t, run, p) =
        Appends-seq (put x s) (put_from put n (i + 1) vals) (bytes_all wire xs)
          (wire.puts x s v.0 r)
          λ t h.
            put_from-Appends xs (pre ++ x ∷ []) us vals n (i + 1) t
              (e ∙ sym (append_assoc pre (x ∷ []) (xs ++ us)))
              (omega (arith, length-append pre (x ∷ []))) (omega arith) v.1 h in
      (t, rw (here, ◌>>=◌) run, p)

  -- serialize reads no cell behind the items and appends exactly the bytes of the block.
  pub serialize-Appends :
      (b : Block A) (xs : List A) (s : Serializer)
      → Holds b xs
      → SizeT b.capacity
      → SizeT (length xs)
      → All Valid xs
      → IsReady s
      → Returns (serialize put b s) (Appends (bytes b.capacity xs) s)
  unfolding serialize bytes
  serialize-Appends b xs s h c n v r =
      Appends-seq (write_size b.capacity s) _ _ (size_wire.puts b.capacity s c r) λ t k.
        subst
          (λ m.
            Returns (write_size m t >>= put_from put m 0 b.vals)
              (Appends (size_wire.bytes (length xs) ++ bytes_all wire xs) t))
          (sym h.counted)
          (Appends-seq (write_size (length xs) t) _ _ (size_wire.puts (length xs) t n k)
            λ u l. put_from-Appends xs [] h.spare b.vals (length xs) 0 u h.shape refl refl v l)

  pub get_into-Took :
      (xs pre us : List A) (rest : List ℕ) (n i : ℕ) (s : Serializer)
      → length us ≡ length xs
      → (later : List A) → i ≡ length pre
      → n ≡ length xs
      → All Valid xs
      → Ahead (bytes_all wire xs ++ rest) s
      → Returns (get_into take_one n i (pre ++ (us ++ later)) s) (Took (pre ++ (xs ++ later)) rest)
  unfolding get_into bytes_all
  get_into-Took [] pre [] rest zero i s l later a e v h =
      ((pre ++ later, s), refl, record { value = refl; left = h })
  get_into-Took [] pre (u ∷ us) rest n i s l later a e v h = absurd (omega arith)
  get_into-Took [] pre [] rest (suc n) i s l later a e v h = absurd (omega arith)
  get_into-Took (x ∷ xs) pre [] rest n i s l later a e v h = absurd (omega arith)
  get_into-Took (x ∷ xs) pre (u ∷ us) rest zero i s l later a e v h = absurd (omega arith)
  get_into-Took (x ∷ xs) pre (u ∷ us) rest (suc n) i s l later a e v h =
      Took-seq (take_one s) _
        (wire.gets x (bytes_all wire xs ++ rest) s v.0
          (Ahead-assoc (wire.bytes x) (bytes_all wire xs) rest s h))
        λ t ahead.
          let next =
            get_into-Took xs (pre ++ x ∷ []) us rest n (i + 1) t (omega arith) later
              (omega (arith, length-append pre (x ∷ []))) (omega arith) v.1 ahead in
          rw (store-append pre (us ++ later) u x i a, ◌>>=◌)
            (subst
              (λ p.
                Returns (get_into take_one n (i + 1) p t) (Took (pre ++ x ∷ (xs ++ later)) rest))
              (append_assoc pre (x ∷ []) (us ++ later))
              (subst
                (λ p.
                  Returns (get_into take_one n (i + 1) ((pre ++ x ∷ []) ++ (us ++ later)) t)
                    (Took p rest))
                (append_assoc pre (x ∷ []) (xs ++ later)) next))

  pub replicate-append :
      (initial : A) (m n : ℕ)
      → replicate (m + n) initial ≡ replicate m initial ++ replicate n initial
  replicate-append initial zero n =
      let e : 0 + n ≡ n = omega arith in ap (λ k. replicate k initial) e
  replicate-append initial (suc m) n =
      let e : suc m + n ≡ suc (m + n) = omega arith in
      ap (λ k. replicate k initial) e ∙ ap (λ r. initial ∷ r) (replicate-append initial m n)

  -- The block that deserialize makes.
  pub loaded : A → ℕ → List A → Block A
  loaded initial c xs = record {
    capacity = c;
    size = length xs;
    vals = xs ++ replicate (c - length xs) initial;
  }

  pub loaded-Holds :
      (initial : A) (c : ℕ) (xs : List A) → length xs ≤ c → Holds (loaded initial c xs) xs
  unfolding loaded
  loaded-Holds initial c xs l = record {
    spare = replicate (c - length xs) initial;
    shape = refl;
    counted = refl;
    sized = omega (
      arith,
      length-append xs (replicate (c - length xs) initial),
      length-replicate (c - length xs) initial,
    );
  }

  pub deserialize-Took :
      (initial : A) (c : ℕ) (xs : List A) (rest : List ℕ) (s : Serializer)
      → length xs ≤ c
      → SizeT c
      → All Valid xs
      → Ahead (bytes c xs ++ rest) s
      → Returns (deserialize take_one initial s) (Took (loaded initial c xs) rest)
  unfolding deserialize bytes loaded
  deserialize-Took initial c xs rest s l cs v h =
      let a = size_wire.bytes c in
      let b = size_wire.bytes (length xs) in
      let d = bytes_all wire xs in
      let n = length xs in
      let cells : replicate c initial ≡ replicate n initial ++ replicate (c - n) initial =
        (let e : c ≡ n + (c - n) = omega arith in ap (λ k. replicate k initial) e)
        ∙ replicate-append initial n (c - n) in
      Took-seq (read_size s) _
        (size_wire.gets c ((b ++ d) ++ rest) s cs (Ahead-assoc a (b ++ d) rest s h))
        λ t x.
          Took-seq (read_size t) _
            (size_wire.gets n (d ++ rest) t (omega arith) (Ahead-assoc b d rest t x))
            λ u y.
              Took-seq (get_into take_one n 0 (replicate c initial) u) _
                (rw cells (
                  get_into-Took xs [] (replicate n initial) rest n 0 u (length-replicate n initial)
                    (replicate (c - n) initial) refl refl v y))
                λ w left. (
                  (record { capacity = c; size = n; vals = xs ++ replicate (c - n) initial }, w),
                  refl,
                  record { value = refl; left = left },
                )

  -- A block that holds items that can be sent survives serialize and deserialize: from a
  -- Serializer over the bytes that a new one got, deserialize makes a block of the same capacity
  -- that holds the same items.
  pub block_round_trip :
      (initial : A) (b : Block A) (xs : List A)
      → Holds b xs
      → SizeT b.capacity
      → All Valid xs
      → Returns
          (serialize put b new >>= λ s.
            of_buffer s.num_bytes_written s.buffer >>= deserialize take_one initial)
          (λ q. Holds q.0 xs × (q.0.capacity ≡ b.capacity))
  block_round_trip initial b xs h c v =
      let few : length xs ≤ b.capacity = omega (arith, fits b h, h.counted) in
      let (u, run, a) = serialize-Appends b xs new h c (omega arith) v new-IsReady in
      let (t, run', start) = reread (bytes b.capacity xs) u a in
      let (q, run'', took) = deserialize-Took initial b.capacity xs [] t few c v start in
      let made = loaded-Holds initial b.capacity xs few in
      (
        q,
        rw (run, ◌>>=◌, run') run'',
        subst (λ (r : Block A). Holds r xs × (r.capacity ≡ b.capacity)) (sym took.value)
            (made, unfold loaded in refl),
      )
