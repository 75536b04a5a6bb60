-- ===== src/Dataframe/Cache/Laws.antt =====
-- Cache of dataframe/column/cache.h holds the blocks of a list of keys; what its steps do to the list.
use swdev_proj.Prelude.{
  ℕ, ◌+◌, ◌≤◌, ◌<◌, ◌≡◌, refl, sym, ap, ◌∙◌, inl, inr, Bool-cases, List, [], ◌∷◌, ◌++◌, Option,
  none, some, Bool, true, false, ◌==◌, if◌then◌else◌, arith, map, length-map, map-snoc, length,
  length-append, ◌>>=◌, Returns,
}
use swdev_proj.Utils.Hashed.{◌=ᵏ◌, =ᵏ_congr}
use swdev_proj.Utils.Map
use swdev_proj.Utils.Map.Chain.{is_some}
use swdev_proj.Utils.Map.Buckets.{view, IsValid, new-IsValid, new-view}
use swdev_proj.Utils.Map.Laws.{put-Writes, put-size, remove-Writes}
use swdev_proj.Utils.Queue
use swdev_proj.Utils.Queue.Laws.{IsQueue, new-IsQueue, push-IsQueue, pop-IsQueue}
use swdev_proj.Store.Key.{Key, key_hashed, key_refl, key_symm}
use swdev_proj.Dataframe.Cache.{Cache, new, remove_first_added_element, remove_popped, add_block}

-- Some key of the list equals `q`.
abbrev pub member : Key → List Key → Bool
member q [] = false
member q (k ∷ ks) = if k =ᵏ q then true else member q ks

abbrev pub Distinct : List Key → Type 0
Distinct [] = Unit
Distinct (k ∷ ks) = (member k ks ≡ false) × Distinct ks

member-snoc :
    (q k : Key) (ks : List Key) → member q (ks ++ k ∷ []) ≡ (if k =ᵏ q then true else member q ks)
member-snoc q k [] = refl
member-snoc q k (x ∷ ks) = ground (arith, member-snoc q k ks)

pub member_congr : (a b : Key) (ks : List Key) → (a =ᵏ b) ≡ true → member a ks ≡ member b ks
member_congr a b [] e = refl
member_congr a b (k ∷ ks) e =
    ground (arith, member_congr a b ks e, key_symm k a, key_symm k b, =ᵏ_congr a b k e)

Distinct-snoc :
    (k : Key) (ks : List Key) → Distinct ks → member k ks ≡ false → Distinct (ks ++ k ∷ [])
Distinct-snoc k [] d e = (refl, tt)
Distinct-snoc k (x ∷ ks) d e =
    let other : (x =ᵏ k) ≡ false = ground arith in
    let rest : member k ks ≡ false = ground arith in
    (member-snoc x k ks ∙ ground (arith, key_symm x k, d.0), Distinct-snoc k ks d.1 rest)

module _ {B : Type 0} where
  -- The cache holds blocks under exactly these keys, the oldest first, and no more than it may.
  pub record IsCache (c : Cache B) (ks : List Key) : Type 0 where
    pub valid : IsValid c.blocks
    pub order : IsQueue c.key_order (map some ks)
    pub counted : c.blocks.size ≡ length ks
    pub holds : (q : Key) → is_some (view c.blocks q) ≡ member q ks
    pub distinct : Distinct ks
    pub positive : 0 < c.max_size
    pub bounded : length ks ≤ c.max_size

  abbrev pub empty : ℕ → Cache B
  empty max = record { max_size = max; blocks = Map.new 4; key_order = Queue.new }

  pub empty-IsCache : (max : ℕ) → 0 < max → IsCache (empty max) []
  empty-IsCache max h = record {
    valid = new-IsValid 4 (omega arith);
    order = new-IsQueue;
    counted = unfold Map.new in refl;
    holds = λ q. ap is_some (new-view {V = B} 4 q);
    distinct = tt;
    positive = h;
    bounded = omega arith;
  }

  -- The constructor makes an empty cache of any positive size.
  new-IsCache : (max : ℕ) → 0 < max → Returns (new {B = B} max) (λ c. IsCache c [])
  unfolding new
  new-IsCache max h =
      let some_room : max == 0 ≡ false = ground arith in
      (empty max, rw some_room refl, empty-IsCache max h)

  pub some_there : (o : Option B) → is_some o ≡ true → (b : B) × (o ≡ some b)
  some_there none e = cc
  some_there (some b) e = (b, refl)

  pub none_there : (o : Option B) → is_some o ≡ false → o ≡ none
  none_there none e = refl
  none_there (some b) e = cc

  -- What removing the oldest key leaves.
  pub record Evicted (c : Cache B) (k : Key) (ks : List Key) (r : Option Key × Cache B)
      : Type 0 where
    pub returned : r.0 ≡ some k
    pub cache : IsCache r.1 ks
    pub reads : (q : Key) → view r.1.blocks q ≡ (if k =ᵏ q then none else view c.blocks q)
    pub same_max : r.1.max_size ≡ c.max_size

  pub evict_first :
      (c : Cache B) (k : Key) (ks : List Key)
      → IsCache c (k ∷ ks)
      → Returns (remove_first_added_element c) (Evicted c k ks)
  unfolding remove_first_added_element remove_popped
  evict_first c k ks v =
      let (b, there) = some_there (view c.blocks k) (v.holds k ∙ rw (key_refl k) refl) in
      let ((o, q), run, (is_k, order)) = pop-IsQueue c.key_order (some k) (map some ks) v.order in
      let ((old, m), run', (was, w, size)) = remove-Writes c.blocks k v.valid tt b there in
      let fits : m.size == q.len ≡ true =
        ground (arith, order.counted, size, v.counted, length-map some ks) in
      (
        (some k, record c { blocks = m; key_order = q }),
        rw (run, ◌>>=◌, is_k, remove_popped, run') (rw (◌>>=◌, fits) refl),
        record {
          returned = refl;
          cache = record {
            valid = w.valid;
            order = order;
            counted = omega (arith, size, v.counted);
            holds = λ q. elim (Bool-cases (k =ᵏ q)) [
              | inl e ↦ rw (w.reads q tt, e) (sym (v.distinct.0) ∙ member_congr k q ks e)
              | inr e ↦ rw (w.reads q tt, e) (v.holds q ∙ rw e refl)
            ];
            distinct = v.distinct.1;
            positive = v.positive;
            bounded = omega (arith, v.bounded);
          };
          reads = λ q. w.reads q tt;
          same_max = refl;
        },
      )

  -- What adding a key leaves.
  pub record Added (c : Cache B) (k : Key) (val : B) (ks : List Key) (r : Cache B) : Type 0 where
    pub cache : IsCache r (ks ++ k ∷ [])
    pub reads : (q : Key) → view r.blocks q ≡ (if k =ᵏ q then some val else view c.blocks q)
    pub same_max : r.max_size ≡ c.max_size

  pub add_new :
      (c : Cache B) (k : Key) (val : B) (ks : List Key)
      → IsCache c ks
      → member k ks ≡ false
      → length ks < c.max_size
      → Returns (add_block k val c) (Added c k val ks)
  unfolding add_block
  add_new c k val ks v e l =
      let absent = none_there (view c.blocks k) (v.holds k ∙ e) in
      let ((old, m), run, w) = put-Writes c.blocks k v.valid tt val in
      let size : m.size ≡ c.blocks.size + 1 =
        put-size c.blocks k v.valid tt val (old, m) run ∙ rw absent refl in
      let (q, run', order) = push-IsQueue c.key_order (some k) (map some ks) v.order in
      let total = length-append (map some ks) (some k ∷ []) in
      let fits : m.size == q.len ≡ true =
        ground (arith, order.counted, size, v.counted, length-map some ks, total) in
      (
        record c { blocks = m; key_order = q },
        rw (run, ◌>>=◌, run') (rw (◌>>=◌, fits) refl),
        record {
          cache = record {
            valid = w.valid;
            order = rw (map-snoc some ks k) order;
            counted = omega (arith, size, v.counted, length-append ks (k ∷ []));
            holds = λ q. rw (w.reads q tt, member-snoc q k ks) (ground (arith, v.holds q));
            distinct = Distinct-snoc k ks v.distinct e;
            positive = v.positive;
            bounded = omega (arith, length-append ks (k ∷ []));
          };
          reads = λ q. w.reads q tt;
          same_max = refl;
        },
      )
