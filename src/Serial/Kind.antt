-- ===== src/Serial/Kind.antt =====
-- network/msgkind.h, and how serial/serial.h writes a message kind: a digit and a null byte.
use swdev_proj.Prelude.{
  ℕ, ◌≡◌, refl, List, [], ◌∷◌, ◌++◌, Run, ok, ◌>>=◌, Returns, if◌then◌else◌, ◌==◌, ◌&&◌, Bool,
  get_or,
}
use swdev_proj.Serial.{Serializer, add, read_mem}
use swdev_proj.Serial.Write.{add-Appends}
use swdev_proj.Serial.Read.{Ahead, Took, read_mem-Took}
use swdev_proj.Serial.Wire.{Wire}

pub data MsgKind : Type 0 where
  get_data put reply_data wait_and_get register dir done teardown : MsgKind

-- the byte of out[0]
unfoldable pub kind_code : MsgKind → ℕ
kind_code get_data = b'0'
kind_code put = b'1'
kind_code reply_data = b'2'
kind_code wait_and_get = b'3'
kind_code register = b'4'
kind_code dir = b'5'
kind_code done = b'6'
kind_code teardown = b'7'

-- write(MsgKind)
unfoldable pub write_kind : MsgKind → Serializer → Run Serializer
write_kind k = add (kind_code k ∷ 0 ∷ [])

-- strcmp(sMsgKind, "c") == 0 for a string of the one character `c`
abbrev spells : ℕ → List ℕ → Bool
spells c m = get_or m 0 0 == c && get_or m 1 1 == 0

-- the ladder of readMsgKind; what is no digit of a kind counts as GetData
unfoldable pub kind_of : List ℕ → MsgKind
kind_of m =
    if spells b'0' m
    then get_data
    else if spells b'1' m
    then put
    else if spells b'2' m
    then reply_data
    else if spells b'3' m
    then wait_and_get
    else if spells b'4' m
    then register
    else if spells b'5' m
    then dir
    else if spells b'6' m
    then done
    else if spells b'7' m
    then teardown
    else get_data

unfoldable pub read_kind : Serializer → Run (MsgKind × Serializer)
read_kind s = do (d, r) ← read_mem 2 s; ok (kind_of d, r)

pub kind_of-kind_code : (k : MsgKind) → kind_of (kind_code k ∷ 0 ∷ []) ≡ k
unfolding kind_of kind_code
kind_of-kind_code get_data = refl
kind_of-kind_code put = refl
kind_of-kind_code reply_data = refl
kind_of-kind_code wait_and_get = refl
kind_of-kind_code register = refl
kind_of-kind_code dir = refl
kind_of-kind_code done = refl
kind_of-kind_code teardown = refl

kind_gets :
    (k : MsgKind) (rest : List ℕ) (s : Serializer)
    → Ahead ((kind_code k ∷ 0 ∷ []) ++ rest) s
    → Returns (read_kind s) (Took k rest)
unfolding read_kind
kind_gets k rest s h =
    let (r, run, t) = read_mem-Took 2 (kind_code k ∷ 0 ∷ []) rest s refl h in
    (
      (k, r.1),
      rw (run, ◌>>=◌, t.value, kind_of-kind_code k) refl,
      record { value = refl; left = t.left },
    )

pub kind_wire : Wire write_kind read_kind (λ _. Unit {0})
unfolding write_kind
kind_wire = record {
  bytes = λ k. kind_code k ∷ 0 ∷ [];
  puts = λ k s _. add-Appends (kind_code k ∷ 0 ∷ []) s;
  gets = λ k rest s _. kind_gets k rest s;
}
