-- ===== src/Utils/StrBuff/Take.antt =====
-- get of the StrBuff of utils/string.h, and the buffer that it leaves.
use swdev_proj.Prelude.{
  ℕ, ◌+◌, ◌<◌, ◌≡◌, refl, sym, ap, ◌∙◌, List, [], ◌∷◌, ◌++◌, true, ltb, leb, arith, length,
  length-append, take, drop, take-append, drop-append, set, set-append, get_elem?, All,
  get_elem?-append_at, if◌then◌else◌, ok, fault, undefined, ◌>>=◌, Returns,
}
use swdev_proj.Serial.Wire.Text.{strlen-append}
use swdev_proj.Utils.Str
use swdev_proj.Utils.Str.{Str, IsWell}
use swdev_proj.Utils.StrBuff.{StrBuff, grow_by, copy_in, c_len, c, get}
use swdev_proj.Utils.StrBuff.Laws.{Holds, grow_by-Holds}

-- What get gives: the string of the text, and the buffer on the same allocation from its start.
pub record Taken (cs : List ℕ) (p : Str × StrBuff) : Type 0 where
  pub size : p.0.size ≡ length cs
  pub behind : List ℕ
  pub text : p.0.cstr ≡ cs ++ 0 ∷ behind
  pub shared : p.1.val ≡ p.0.cstr
  pub reset : p.1.size ≡ 0
  pub room : length p.1.val ≡ p.1.capacity
  pub more : length cs < p.1.capacity

get_from :
    (g : StrBuff) (cs spare : List ℕ)
    → g.val ≡ cs ++ spare
    → g.size ≡ length cs
    → length g.val ≡ g.capacity
    → 1 + g.size < g.capacity
    → Returns
        (if ltb g.size (length g.val)
          then (do
            s ← Str.of_stolen true (set g.val g.size 0) g.size
            ok (s, record g { val = set g.val g.size 0; size = 0 }))
          else fault undefined)
        (Taken cs)
unfolding Str.of_stolen
get_from g cs [] e z r l = absurd (omega (arith, ap length e, length-append {0} cs []))
get_from g cs (x ∷ sp) e z r l =
    let inside : ltb g.size (length g.val) ≡ true = ground (arith, r) in
    let cut : set g.val g.size 0 ≡ cs ++ 0 ∷ sp =
      ap (λ (d : List ℕ). set d g.size 0) e ∙ set-append cs sp x 0 g.size z in
    (
      (
        record { size = g.size; cstr = set g.val g.size 0 },
        record g { val = set g.val g.size 0; size = 0 },
      ),
      rw
          (
            inside,
            Str.of_stolen,
            ap (λ (d : List ℕ). get_elem? d g.size) cut ∙ get_elem?-append_at cs sp 0 g.size z,
          )
          refl,
      record {
        size = z;
        behind = sp;
        text = cut;
        shared = refl;
        reset = refl;
        room = omega (
          arith,
          ap length cut,
          ap length e,
          length-append cs (0 ∷ sp),
          length-append cs (x ∷ sp),
          r,
        );
        more = omega arith;
      },
    )

pub get-Taken : (b : StrBuff) (cs : List ℕ) → Holds b cs → Returns (get b) (Taken cs)
unfolding get
get-Taken b cs h =
    let (grown, room) = grow_by-Holds 1 b cs h in
    get_from (grow_by 1 b) cs grown.spare grown.shape grown.sized grown.room room

-- c at the start of an allocation that begins with the same text changes the size only.
pub c-same :
    (text rest : List ℕ) (b : StrBuff)
    → All (λ x. 0 < x) text
    → b.size ≡ 0
    → b.val ≡ text ++ rest
    → length b.val ≡ b.capacity
    → length text < b.capacity
    → c (text ++ 0 ∷ []) b ≡ ok (record b { size = length text })
unfolding c c_len grow_by copy_in
c-same text rest b n z e r l =
    let fits : ltb (length text + b.size) b.capacity ≡ true = ground arith in
    let readable : leb (length text) (length (text ++ 0 ∷ [])) ≡ true =
      ground (arith, length-append text (0 ∷ [])) in
    let inside : leb (b.size + length text) (length b.val) ≡ true = ground (arith, r) in
    let sum : b.size + length text ≡ length text = omega arith in
    let cells : take b.size b.val
          ++ (take (length text) (text ++ 0 ∷ []) ++ drop (b.size + length text) b.val)
        ≡ b.val =
      ap
        (λ (m : ℕ).
          take m b.val
          ++ (take (length text) (text ++ 0 ∷ []) ++ drop (b.size + length text) b.val))
        z
      ∙ (ap (λ (d : List ℕ). d ++ drop (b.size + length text) b.val)
            (take-append text (0 ∷ []) (length text) refl)
          ∙ (ap (λ (m : List ℕ). text ++ drop (b.size + length text) m) e
              ∙ (ap (λ (m : List ℕ). text ++ m) (drop-append text rest (b.size + length text) sum)
                  ∙ sym e))) in
    let made : StrBuff = record b {
      val =
          take b.size b.val
          ++ (take (length text) (text ++ 0 ∷ []) ++ drop (b.size + length text) b.val);
      size = b.size + length text;
    } in
    let same : made ≡ record b { size = length text } =
      λ i. record { val = cells i; capacity = b.capacity; size = sum i } in
    rw (strlen-append text [] n, c, fits, readable, inside) (ap ok same)
