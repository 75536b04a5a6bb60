-- ===== src/Utils/Map/Laws.antt =====
-- The public methods of Map in utils/map.h: they return, keep the invariant, and act on the
-- abstract map as a put, a lookup and a removal.
use swdev_proj.Prelude.{
  ℕ, ◌+◌, ◌%◌, ◌≤◌, ◌<◌, ◌≡◌, refl, sym, ap, ◌∙◌, [], Option, none, some, true, false, arith,
  if◌then◌else◌, length, set, length-set, ok, fault, asserts, ◌>>=◌, Returns, prev_size,
}
use swdev_proj.Utils.Hashed.{Hashed, ◌=ᵏ◌}
use swdev_proj.Utils.Map.{
  Map, Chain, put, get, contains_key, remove, counted_in, insert_chain, get_chain,
}
use swdev_proj.Utils.Map.Chain.{
  count, is_some, contains-get, insert_returns, length-insert, get-insert, count-insert,
  count-get_none, without, remove_returns, remove_missing, length-without, count-without,
  get-without,
}
use swdev_proj.Utils.Map.Buckets.{
  total-set, get_or-set, chain_at, home, view, IsValid, home-lt, slot-ok, bucket-ok,
}

counted_in_length :
    {V : Type 0} (o : Option V) (n m k : ℕ) → k ≡ counted_in o n → counted_in o m + n ≡ m + k
counted_in_length none n m k h = omega arith
counted_in_length (some x) n m k h = omega arith

prev_size-pos : (n : ℕ) → 0 < n → prev_size n + 1 ≡ n
prev_size-pos n h = ground arith

module _ {K V : Type 0} ⦃hashed : Hashed K⦄ where
  -- `r` is the map `m` with `val` under the key, and what was there before.
  pub record Writes (m : Map K V) (key : K) (val : Option V) (r : Option V × Map K V) : Type 0 where
    pub returns : r.0 ≡ view m key
    pub valid : IsValid r.1
    pub reads : (q : K) → hashed.Good q → view r.1 q ≡ (if key =ᵏ q then val else view m q)
    pub same_capacity : r.1.capacity ≡ m.capacity

  -- get never faults on a valid map and reads the abstract map.
  pub get-view : (m : Map K V) (key : K) → IsValid m → get (some key) m ≡ ok (view m key)
  unfolding get view
  get-view m key v = rw (slot-ok m key v, ◌>>=◌, bucket-ok m (home m key) (home-lt m key v)) refl

  pub contains-view :
      (m : Map K V) (key : K) → IsValid m → contains_key (some key) m ≡ ok (is_some (view m key))
  unfolding contains_key view
  contains-view m key v =
      rw
        (
          slot-ok m key v,
          ◌>>=◌,
          bucket-ok m (home m key) (home-lt m key v),
          contains-get key (chain_at m (home m key)),
        )
        refl

  -- A write of chain `c` at the home bucket of `key`.
  module _ (m : Map K V) (key : K) (v : IsValid m) (good : hashed.Good key) (c : Chain K V)
      (n : ℕ) where
    abbrev replaced : Map K V
    replaced = record m { buckets = set m.buckets (home m key) c; size = n }

    home_eq : (q : K) → hashed.Good q → (key =ᵏ q) ≡ true → home m key ≡ home m q
    home_eq q g e = ap (λ (h : ℕ). h % m.capacity) (hashed.hash-equals key q good g e)

    replaced-IsValid :
        n + length (chain_at m (home m key)) ≡ m.size + length c
        → ((q : K) → count q c ≤ 1)
        → ((q : K) → (key =ᵏ q) ≡ false → count q c ≤ count q (chain_at m (home m key)))
        → IsValid replaced
    replaced-IsValid size one few = record {
      positive = v.positive;
      sized = length-set m.buckets (home m key) c ∙ v.sized;
      counted = omega (arith, total-set m.buckets (home m key) c (home-lt m key v), v.counted);
      single = λ q i.
          rw (get_or-set m.buckets (home m key) i c [] (home-lt m key v))
            (ground (arith, one q, v.single q i));
      placed = λ q i g ne.
          rw (get_or-set m.buckets (home m key) i c [] (home-lt m key v))
            (ground (arith, few q, v.placed q i g ne, home_eq q g));
    }

    replaced-view :
        (val : Option V)
        → ((q : K)
            → get_chain q c ≡ (if key =ᵏ q then val else get_chain q (chain_at m (home m key))))
        → (q : K) → hashed.Good q
        → view replaced q ≡ (if key =ᵏ q then val else view m q)
    unfolding view
    replaced-view val reads q g =
        rw (get_or-set m.buckets (home m key) (home m q) c [] (home-lt m key v))
          (ground (arith, reads q, home_eq q g))

  module _ (m : Map K V) (key : K) (v : IsValid m) (good : hashed.Good key) where
    abbrev chain : Chain K V
    chain = chain_at m (home m key)

    insert_single : (val : V) (q : K) → count q (insert_chain key val chain).1 ≤ 1
    insert_single val q =
        ground
          (arith, count-insert key q val chain, v.single q (home m key), count-get_none key q chain)

    insert_few :
        (val : V) (q : K)
        → (key =ᵏ q) ≡ false
        → count q (insert_chain key val chain).1 ≤ count q chain
    insert_few val q e = ground (arith, count-insert key q val chain)

    -- On a valid map, put of a key and a value that are not null returns the old value, keeps the
    -- invariant, the capacity and every other key, and stores the new value.
    pub put-Writes : (val : V) → Returns (put (some key) (some val) m) (Writes m key (some val))
    unfolding put
    put-Writes val =
        let r = insert_chain key val chain in
        let n = counted_in r.0 m.size in
        let i = home m key in
        (
          (r.0, record m { buckets = set m.buckets i r.1; size = n }),
          rw (slot-ok m key v, ◌>>=◌, bucket-ok m i (home-lt m key v)) refl,
          record {
            returns = insert_returns key val chain ∙ (unfold view in refl);
            valid =
                replaced-IsValid m key v good r.1 n
                  (counted_in_length r.0 (length chain) m.size (length r.1)
                    (length-insert key val chain))
                  (insert_single val) (insert_few val);
            reads = replaced-view m key v good r.1 n (some val) (λ q. get-insert key q val chain);
            same_capacity = refl;
          },
        )

    pub put-size :
        (val : V) (r : Option V × Map K V)
        → put (some key) (some val) m ≡ ok r
        → r.1.size ≡ counted_in (view m key) m.size
    unfolding put view
    put-size val r e =
        let w = insert_chain key val chain in
        let made : Option V × Map K V = (
          w.0,
          record m { buckets = set m.buckets (home m key) w.1; size = counted_in w.0 m.size },
        ) in
        let run : put (some key) (some val) m ≡ ok made =
          rw (slot-ok m key v, ◌>>=◌, bucket-ok m (home m key) (home-lt m key v)) refl in
        let same : made ≡ r = cc in
        ap (λ (x : Option V × Map K V). x.1.size) (sym same)
        ∙ ap (λ (o : Option V). counted_in o m.size) (insert_returns key val chain)

    -- On a valid map, remove of a key that is there returns its value, forgets it, keeps every
    -- other key and the invariant, and counts one entry less.
    pub remove-Writes :
        (old : V)
        → view m key ≡ some old
        → Returns
            (remove (some key) m)
            (λ r. (r.0 ≡ some old) × Writes m key none r × (r.1.size + 1 ≡ m.size))
    unfolding remove view
    remove-Writes old e =
        let c = without key chain in
        let i = home m key in
        let shorter = length-without key chain old e in
        let filled : 0 < m.size =
          omega (arith, total-set m.buckets i [] (home-lt m key v), v.counted) in
        let counts = prev_size-pos m.size filled in
        (
          (some old, record m { buckets = set m.buckets i c; size = prev_size m.size }),
          rw
              (
                slot-ok m key v,
                ◌>>=◌,
                bucket-ok m i (home-lt m key v),
                remove_returns key chain old e,
              )
              refl,
          (
            refl,
            record {
              returns = sym e;
              valid =
                  replaced-IsValid m key v good c (prev_size m.size) (omega arith)
                    (λ q. omega (arith, count-without key q chain, v.single q i))
                    (λ q _. count-without key q chain);
              reads =
                  replaced-view m key v good c (prev_size m.size) none
                    (λ q. get-without key q chain (v.single q i));
              same_capacity = refl;
            },
            counts,
          ),
        )

    -- remove of a key that is not there fails its assertion.
    pub remove_absent : view m key ≡ none → remove (some key) m ≡ fault asserts
    unfolding remove view
    remove_absent e =
        rw
          (
            slot-ok m key v,
            ◌>>=◌,
            bucket-ok m (home m key) (home-lt m key v),
            remove_missing key chain e,
          )
          refl
