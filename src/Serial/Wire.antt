-- ===== src/Serial/Wire.antt =====
-- What a pair of serialize and deserialize promises: the one appends bytes, the other takes the
-- same bytes back. The components' own pairs are instances, put together by the rules here.
pub mod Scalars
pub mod Text
pub mod Many
use swdev_proj.Prelude.{
  ℕ, zero, suc, ◌+◌, ◌≤◌, ◌<◌, ◌≡◌, refl, sym, ap, subst, ◌∙◌, List, [], ◌∷◌, ◌++◌, append_assoc,
  append-nil, arith, length, take, take_all, length-take, Run, ok, ◌>>=◌, Returns,
}
use swdev_proj.Serial.{Serializer, new, of_buffer}
use swdev_proj.Serial.Room.{written, unread, IsReady}
use swdev_proj.Serial.Write.{Appends, Appends-trans}
use swdev_proj.Serial.Read.{Ahead, Took}

pub record Wire {A : Type 0} (put : A → Serializer → Run Serializer)
    (get : Serializer → Run (A × Serializer)) (Valid : A → Type 0) : Type 0 where
  pub bytes : A → List ℕ
  pub puts :
      (a : A) (s : Serializer) → Valid a → IsReady s → Returns (put a s) (Appends (bytes a) s)
  pub gets :
      (a : A) (rest : List ℕ) (s : Serializer)
      → Valid a
      → Ahead (bytes a ++ rest) s
      → Returns (get s) (Took a rest)

-- One write after another.
pub Appends-seq :
    (m : Run Serializer) (k : Serializer → Run Serializer) {d : List ℕ} (e : List ℕ)
    {s : Serializer}
    → Returns m (Appends d s)
    → ((r : Serializer) → IsReady r → Returns (k r) (Appends e r))
    → Returns (m >>= k) (Appends (d ++ e) s)
Appends-seq m k {d} e {s} (r, run, p) next =
    let (t, run', q) = next r p.ready in (t, rw run run', Appends-trans d e s r t p q)

-- One read after another.
pub Took-then {κ} :
    {A : Type 0} {B : Type 0} (m : Run (A × Serializer)) (k : A × Serializer → Run B)
    (Q : B → Type κ) {a : A} {rest : List ℕ}
    → Returns m (Took a rest)
    → ((r : Serializer) → Ahead rest r → Returns (k (a, r)) Q)
    → Returns (m >>= k) Q
Took-then m k Q {a} (r, run, t) next =
    let (u, run', v) = next r.1 t.left in
    (u, rw run (subst (λ x. k (x, r.1) ≡ ok u) (sym t.value) run'), v)

pub Took-seq :
    {A B : Type 0} (m : Run (A × Serializer)) (k : A × Serializer → Run (B × Serializer)) {a : A}
    {b : B} {rest later : List ℕ}
    → Returns m (Took a rest)
    → ((r : Serializer) → Ahead rest r → Returns (k (a, r)) (Took b later))
    → Returns (m >>= k) (Took b later)
Took-seq m k {b = b} {later = later} took next = Took-then m k (Took b later) took next

pub Ahead-assoc :
    (d e rest : List ℕ) (s : Serializer) → Ahead ((d ++ e) ++ rest) s → Ahead (d ++ (e ++ rest)) s
Ahead-assoc d e rest s h = record { bytes = h.bytes ∙ append_assoc d e rest; inside = h.inside }

pub new-IsReady : IsReady new
unfolding new
new-IsReady = record { has_room = omega arith; initialised = omega arith; within = omega arith }

written-new : (d : List ℕ) → written new ++ d ≡ d
unfolding new
written-new d = refl

of_buffer-Ahead :
    (s : Serializer)
    → IsReady s
    → Returns (of_buffer s.num_bytes_written s.buffer) (Ahead (written s))
unfolding of_buffer
of_buffer-Ahead s v = (
  record {
    buffer = written s;
    capacity = s.num_bytes_written;
    num_bytes_written = s.num_bytes_written;
    num_bytes_read = 0;
  },
  ground arith,
  record { bytes = refl; inside = omega arith },
)

-- A Serializer over a copy of what was written into a new one has it ahead.
pub reread :
    (d : List ℕ) (s : Serializer)
    → Appends d new s
    → Returns (of_buffer s.num_bytes_written s.buffer) (Ahead (d ++ []))
reread d s p =
    let (t, run, h) = of_buffer-Ahead s p.ready in
    (
      t,
      run,
      record {
        bytes = h.bytes ∙ (p.appended ∙ (written-new d ∙ sym (append-nil d)));
        inside = h.inside;
      },
    )
