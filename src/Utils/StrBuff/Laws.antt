-- ===== src/Utils/StrBuff/Laws.antt =====
-- A StrBuff of utils/string.h holds the characters that were put into it, in order.
use swdev_proj.Prelude.{
  ℕ, ◌+◌, ◌-◌, ◌*◌, ◌<◌, ◌≡◌, refl, sym, ap, ◌∙◌, List, [], ◌∷◌, ◌++◌, append_assoc, true, ltb, leb,
  arith, length, length-append, length-take, length-drop, length-replicate, take, drop, take-append,
  replicate, All, Bool-cases, inl, inr, Returns,
}
use swdev_proj.Serial.Wire.Text.{strlen-append}
use swdev_proj.Utils.Decimal.{to_string, to_string-IsDigit, IsDigit}
use swdev_proj.Utils.Str.{Str, IsWell}
use swdev_proj.Utils.StrBuff.{
  StrBuff, new, enlarge, grow_by, copy_in, c_len, c, c_string, c_size, of_string,
}

-- The buffer's characters are `cs`, and there is room for a terminator.
pub record Holds (b : StrBuff) (cs : List ℕ) : Type 0 where
  pub spare : List ℕ
  pub shape : b.val ≡ cs ++ spare
  pub sized : b.size ≡ length cs
  pub room : length b.val ≡ b.capacity
  pub more : b.size < b.capacity

pub new-Holds : Holds new []
unfolding new
new-Holds = record {
  spare = replicate 10 0;
  shape = refl;
  sized = refl;
  room = refl;
  more = omega arith;
}

enlarge-Holds :
    (b : StrBuff) (cs : List ℕ) (n : ℕ) → Holds b cs → b.size < n → Holds (enlarge n b) cs
unfolding enlarge
enlarge-Holds b cs n h l = record {
  spare = replicate (n - b.size) 0;
  shape = rw (h.shape, take-append cs h.spare b.size h.sized) refl;
  sized = h.sized;
  room = omega (
    arith,
    length-append (take b.size b.val) (replicate (n - b.size) 0),
    length-take b.size b.val,
    length-replicate {A = ℕ} (n - b.size) 0,
    h.room,
    h.more,
  );
  more = l;
}

-- grow_by_ keeps the text and makes room for `step` characters and a terminator.
pub grow_by-Holds :
    (step : ℕ) (b : StrBuff) (cs : List ℕ)
    → Holds b cs
    → Holds (grow_by step b) cs × (step + (grow_by step b).size < (grow_by step b).capacity)
unfolding grow_by
grow_by-Holds step b cs h = elim (Bool-cases (ltb (step + b.size) b.capacity)) [
  | inl fits ↦ rw fits (h, ground arith)
  | inr short ↦ rw short (elim (Bool-cases (leb (b.capacity * 2) (step + b.size))) [
    | inl still ↦ rw still (
      enlarge-Holds b cs (b.capacity * 2 + step) h (omega (arith, h.more)),
      unfold enlarge in omega (arith, h.more),
    )
    | inr enough ↦ rw enough (
      enlarge-Holds b cs (b.capacity * 2) h (omega (arith, h.more)),
      unfold enlarge in ground (arith, h.more),
    )
  ])
]

copy_in-Holds :
    (text rest cs : List ℕ) (b : StrBuff)
    → Holds b cs
    → length text + b.size < b.capacity
    → Returns (copy_in (text ++ rest) (length text) b) (λ r. Holds r (cs ++ text))
unfolding copy_in
copy_in-Holds text rest cs b h l =
    let readable : leb (length text) (length (text ++ rest)) ≡ true =
      ground (arith, length-append text rest) in
    let inside : leb (b.size + length text) (length b.val) ≡ true = ground (arith, h.room) in
    let new_val =
      take b.size b.val
      ++ (take (length text) (text ++ rest) ++ drop (b.size + length text) b.val) in
    let whole : new_val ≡ cs ++ (text ++ drop (b.size + length text) b.val) =
      ap
        (λ (d : List ℕ).
          d ++ (take (length text) (text ++ rest) ++ drop (b.size + length text) b.val))
        (ap (λ (d : List ℕ). take b.size d) h.shape ∙ take-append cs h.spare b.size h.sized)
      ∙ ap (λ (d : List ℕ). cs ++ (d ++ drop (b.size + length text) b.val))
          (take-append text rest (length text) refl) in
    (
      record b { val = new_val; size = b.size + length text },
      rw (readable, inside) refl,
      record {
        spare = drop (b.size + length text) b.val;
        shape = whole ∙ sym (append_assoc cs text (drop (b.size + length text) b.val));
        sized = omega (arith, h.sized, length-append cs text);
        room = omega (
          arith,
          ap length whole,
          length-append cs (text ++ drop (b.size + length text) b.val),
          length-append text (drop (b.size + length text) b.val),
          length-drop (b.size + length text) b.val,
          h.room,
          h.sized,
        );
        more = omega arith;
      },
    )

-- c appends the text before the terminator, whatever stands behind it.
pub c-Holds :
    (text rest cs : List ℕ) (b : StrBuff)
    → All (λ x. 0 < x) text
    → Holds b cs
    → Returns (c (text ++ 0 ∷ rest) b) (λ r. Holds r (cs ++ text))
unfolding c c_len
c-Holds text rest cs b n h =
    let (grown, room) = grow_by-Holds (length text) b cs h in
    let (r, run, q) = copy_in-Holds text (0 ∷ rest) cs (grow_by (length text) b) grown room in
    (r, rw (strlen-append text rest n, c) run, q)

pub c_string-Holds :
    (s : Str) (cs : List ℕ) (b : StrBuff) (w : IsWell s)
    → Holds b cs
    → Returns (c_string s b) (λ r. Holds r (cs ++ w.cstring.chars))
unfolding c_string
c_string-Holds s cs b w h = rw w.cstring.spelt (c-Holds w.cstring.chars [] cs b w.cstring.nonzero h)

pub digits_nonzero : (ds : List ℕ) → All IsDigit ds → All (λ c. 0 < c) ds
digits_nonzero [] h = tt
digits_nonzero (d ∷ ds) h = (omega (arith, h.0.0), digits_nonzero ds h.1)

pub c_size-Holds :
    (v : ℕ) (cs : List ℕ) (b : StrBuff)
    → Holds b cs
    → Returns (c_size v b) (λ r. Holds r (cs ++ to_string v))
unfolding c_size
c_size-Holds v cs b h =
    c-Holds (to_string v) [] cs b (digits_nonzero (to_string v) (to_string-IsDigit v)) h

-- StrBuff(String*) holds the string's text.
pub of_string-Holds :
    (s : Str) (w : IsWell s) → Returns (of_string s) (λ r. Holds r w.cstring.chars)
unfolding of_string
of_string-Holds s w = c_string-Holds s [] _ w (record {
  spare = replicate (s.size + 1) 0;
  shape = refl;
  sized = refl;
  room = length-replicate (s.size + 1) 0;
  more = omega arith;
})
