-- ===== src/Store/KeyBuff/Laws.antt =====
-- KeyBuff of store/keybuff.h spells a key, and starts again from the key it was made from.
use swdev_proj.Prelude.{
  ℕ, ◌+◌, ◌<◌, ◌≡◌, refl, ap, ◌∙◌, List, [], ◌∷◌, ◌++◌, append_assoc, true, ltb, leb, arith, length,
  length-append, take, take_all, take-append, All, ok, ◌>>=◌, Returns,
}
use swdev_proj.Serial.Wire.Text.{strlen-append}
use swdev_proj.Utils.Str
use swdev_proj.Utils.Str.{Str, IsWell}
use swdev_proj.Utils.StrBuff.{StrBuff}
use swdev_proj.Utils.StrBuff.Laws.{Holds}
use swdev_proj.Utils.StrBuff.Take.{get-Taken, c-same}
use swdev_proj.Store.Key
use swdev_proj.Store.Key.{Key}
use swdev_proj.Store.Key.Build.{spell, All-append}
use swdev_proj.Store.KeyBuff.{KeyBuff, kept_place, get}

of_cstr-append :
    (cs rest : List ℕ) → All (λ c. 0 < c) cs → Str.of_cstr (cs ++ 0 ∷ rest) ≡ ok (spell cs)
unfolding Str.of_cstr Str.of_cstr_len
of_cstr-append cs rest n =
    let inside : leb (length cs + 1) (length (cs ++ 0 ∷ rest)) ≡ true =
      ground (arith, length-append cs (0 ∷ rest)) in
    rw (strlen-append cs rest n, Str.of_cstr, inside, take-append cs (0 ∷ rest) (length cs) refl)
      refl

new-spell :
    (cs : List ℕ) (node : ℕ)
    → Key.new (spell cs) node ≡ ok (record { k_str = spell cs; home_node = node })
unfolding Key.new Str.clone
new-spell cs node =
    let readable : leb (length cs + 1) (length (cs ++ 0 ∷ [])) ≡ true =
      ground (arith, length-append cs (0 ∷ [])) in
    let whole : take (length cs + 1) (cs ++ 0 ∷ []) ≡ cs ++ 0 ∷ [] =
      take_all (length cs + 1) (cs ++ 0 ∷ []) (omega (arith, length-append cs (0 ∷ []))) in
    rw (readable, whole) refl

kept_place-ok :
    (text : List ℕ) (b : StrBuff)
    → All (λ c. 0 < c) text
    → b.size ≡ 0
    → length text < b.capacity
    → kept_place (text ++ 0 ∷ []) b ≡ ok tt
unfolding kept_place
kept_place-ok text b n z l =
    let fits : ltb (length text + b.size) b.capacity ≡ true = ground arith in
    rw (strlen-append text [] n, kept_place, fits) refl

-- get gives the key of the original's node with all the text that was appended to the original's,
-- although the buffer is filled again before the key copies the shared allocation, and leaves a
-- buffer that holds the original's text again, ready for the next key.
pub get-key :
    (kb : KeyBuff) (w : IsWell kb.orig.k_str) (more : List ℕ)
    → All (λ c. 0 < c) more
    → Holds kb.buf (w.cstring.chars ++ more)
    → Returns (get kb) (λ r.
      (r.0 ≡ record { k_str = spell (w.cstring.chars ++ more); home_node = kb.orig.home_node })
      × Holds r.1.buf w.cstring.chars
      × (r.1.orig ≡ kb.orig))
unfolding get
get-key kb w more n h =
    let text = w.cstring.chars in
    let cs = text ++ more in
    let (p, run, t) = get-Taken kb.buf cs h in
    let small : length text < p.1.capacity = omega (arith, t.more, length-append text more) in
    let whole : p.1.val ≡ text ++ (more ++ 0 ∷ t.behind) =
      t.shared ∙ (t.text ∙ append_assoc text more (0 ∷ t.behind)) in
    let filled =
      c-same text (more ++ 0 ∷ t.behind) p.1 w.cstring.nonzero t.reset whole t.room small in
    let place = kept_place-ok text p.1 w.cstring.nonzero t.reset small in
    let read : Str.of_cstr p.1.val ≡ ok (spell cs) =
      ap Str.of_cstr (t.shared ∙ t.text)
      ∙ of_cstr-append cs t.behind (All-append (λ c. 0 < c) text more w.cstring.nonzero n) in
    (
      (
        record { k_str = spell cs; home_node = kb.orig.home_node },
        record kb { buf = record p.1 { size = length text } },
      ),
      rw (run, ◌>>=◌, w.cstring.spelt, place, filled, read, new-spell cs kb.orig.home_node) refl,
      (
        refl,
        record {
          spare = more ++ 0 ∷ t.behind;
          shape = whole;
          sized = refl;
          room = t.room;
          more = small;
        },
        refl,
      ),
    )
