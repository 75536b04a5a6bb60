-- ===== src/Store/Key/Build.antt =====
-- The keys that addIndex of store/key.h makes.
use swdev_proj.Prelude.{
  ℕ, ◌+◌, ◌<◌, ◌≡◌, refl, sym, ap, subst, ◌∙◌, List, [], ◌∷◌, ◌++◌, append_assoc, true, leb, arith,
  length, length-append, take, take-append, All, ok, ◌>>=◌, Returns,
}
use swdev_proj.Utils.Decimal.{to_string, to_string-IsDigit}
use swdev_proj.Utils.Str
use swdev_proj.Utils.Str.{Str, IsWell}
use swdev_proj.Utils.StrBuff
use swdev_proj.Utils.StrBuff.{StrBuff}
use swdev_proj.Utils.StrBuff.Laws.{new-Holds, c-Holds, c_string-Holds, c_size-Holds, digits_nonzero}
use swdev_proj.Utils.StrBuff.Take.{Taken, get-Taken}
use swdev_proj.Store.Key.{Key, new, c_index, add_index}

-- The string of a text.
abbrev pub spell : List ℕ → Str
spell cs = record { size = length cs; cstr = cs ++ 0 ∷ [] }

pub spell-IsWell : (cs : List ℕ) → All (λ c. 0 < c) cs → IsWell (spell cs)
spell-IsWell cs n = record {
  cstring = record { chars = cs; spelt = refl; nonzero = n };
  sized = refl;
}

-- A hyphen and a number, as addIndex and genKey_ append them.
abbrev pub suffix : ℕ → List ℕ
suffix n = b'-' ∷ to_string n

pub suffix_nonzero : (n : ℕ) → All (λ c. 0 < c) (suffix n)
suffix_nonzero n = (omega arith, digits_nonzero (to_string n) (to_string-IsDigit n))

pub All-append : (P : ℕ → Type 0) (xs ys : List ℕ) → All P xs → All P ys → All P (xs ++ ys)
All-append P [] ys h k = k
All-append P (x ∷ xs) ys h k = (h.0, All-append P xs ys h.1 k)

-- What appending a hyphen and a number does to a buffer.
pub c_index-Holds :
    (n : ℕ) (cs : List ℕ) (b : StrBuff)
    → StrBuff.Laws.Holds b cs
    → Returns (c_index n b) (λ r. StrBuff.Laws.Holds r (cs ++ suffix n))
unfolding c_index
c_index-Holds n cs b h =
    let (d, run, k) = c-Holds (b'-' ∷ []) [] cs b (omega arith, tt) h in
    let (r, run', q) = c_size-Holds n (cs ++ b'-' ∷ []) d k in
    (
      r,
      rw (run, ◌>>=◌) run',
      subst (λ (t : List ℕ). StrBuff.Laws.Holds r t) (append_assoc cs (b'-' ∷ []) (to_string n)) q,
    )

-- A key made of what a buffer gave.
pub new-Taken :
    (cs : List ℕ) (p : Str × StrBuff) (node : ℕ)
    → Taken cs p
    → new p.0 node ≡ ok (record { k_str = spell cs; home_node = node })
unfolding new Str.clone
new-Taken cs p node t =
    let readable : leb (p.0.size + 1) (length p.0.cstr) ≡ true =
      ground (arith, t.size, ap length t.text, length-append cs (0 ∷ t.behind)) in
    let whole : p.0.cstr ≡ (cs ++ 0 ∷ []) ++ t.behind =
      t.text ∙ sym (append_assoc cs (0 ∷ []) t.behind) in
    let cut : take (p.0.size + 1) p.0.cstr ≡ cs ++ 0 ∷ [] =
      ap (λ (d : List ℕ). take (p.0.size + 1) d) whole
      ∙ take-append (cs ++ 0 ∷ []) t.behind (p.0.size + 1)
          (omega (arith, t.size, length-append cs (0 ∷ []))) in
    let s : Str = record { size = p.0.size; cstr = take (p.0.size + 1) p.0.cstr } in
    let same : s ≡ spell cs = λ i. record { size = t.size i; cstr = cut i } in
    rw readable (ap (λ (q : Str). ok (record { k_str = q; home_node = node })) same)

-- addIndex of a key with a well-formed string returns the key of the same node whose text has a
-- hyphen and the decimal digits of the index behind it.
pub add_index-eq :
    (idx : ℕ) (k : Key) (w : IsWell k.k_str)
    → add_index idx k
      ≡ ok (record { k_str = spell (w.cstring.chars ++ suffix idx); home_node = k.home_node })
unfolding add_index
add_index-eq idx k w =
    let (a, run, h) = c_string-Holds k.k_str [] StrBuff.new w new-Holds in
    let (b, run', g) = c_index-Holds idx w.cstring.chars a h in
    let (p, run'', t) = get-Taken b (w.cstring.chars ++ suffix idx) g in
    rw (run, ◌>>=◌, run', run'') (new-Taken (w.cstring.chars ++ suffix idx) p k.home_node t)
