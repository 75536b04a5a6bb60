-- ===== src/Serial/Room.antt =====
-- The loop of add_ in src/serial/serial.h: when it ends, and what it leaves alone.
use swdev_proj.Prelude.{
  ℕ, zero, suc, ◌+◌, ◌≤◌, ◌<◌, ◌≡◌, refl, ◌∙◌, List, inl, inr, arith, ltb, Bool-cases, length, take,
  drop, length-take, take_all, fault, diverges, Returns,
}
use swdev_proj.Serial.{Serializer, grow, make_room}

-- What has been written, and what is left to read.
abbrev pub written : Serializer → List ℕ
written s = take s.num_bytes_written s.buffer

abbrev pub unread : Serializer → List ℕ
unread s = drop s.num_bytes_read s.buffer

-- The buffer has room to double, and the counters stay inside what is initialised.
pub record IsReady (s : Serializer) : Type 0 where
  pub has_room : 0 < s.capacity
  pub initialised : s.num_bytes_written ≤ length s.buffer
  pub within : length s.buffer ≤ s.capacity

-- `r` is `s` with enough room for `n` more bytes.
pub record Grown (n : ℕ) (s r : Serializer) : Type 0 where
  pub ready : IsReady r
  pub same_written : written r ≡ written s
  pub same_count : r.num_bytes_written ≡ s.num_bytes_written
  pub same_read : r.num_bytes_read ≡ s.num_bytes_read
  pub fits : r.num_bytes_written + n ≤ r.capacity

grow-IsReady : (s : Serializer) → IsReady s → IsReady (grow s)
unfolding grow
grow-IsReady s v = record {
  has_room = omega arith;
  initialised = omega (arith, length-take s.num_bytes_written s.buffer);
  within = omega (arith, length-take s.num_bytes_written s.buffer);
}

grow-written : (s : Serializer) → IsReady s → written (grow s) ≡ written s
unfolding grow
grow-written s v =
    take_all s.num_bytes_written (take s.num_bytes_written s.buffer)
      (omega (arith, length-take s.num_bytes_written s.buffer))

Grown-grow : (n : ℕ) (s r : Serializer) → IsReady s → Grown n (grow s) r → Grown n s r
Grown-grow n s r v g = record {
  ready = g.ready;
  same_written = g.same_written ∙ grow-written s v;
  same_count = g.same_count ∙ (unfold grow in refl);
  same_read = g.same_read ∙ (unfold grow in refl);
  fits = g.fits;
}

grow_progress :
    (s : Serializer) (n fuel : ℕ)
    → IsReady s
    → s.num_bytes_written + n ≤ s.capacity + suc fuel
    → (grow s).num_bytes_written + n ≤ (grow s).capacity + fuel
unfolding grow
grow_progress s n fuel v h = omega arith

Grown-self :
    (n : ℕ) (s : Serializer) → IsReady s → s.num_bytes_written + n ≤ s.capacity → Grown n s s
Grown-self n s v h = record {
  ready = v;
  same_written = refl;
  same_count = refl;
  same_read = refl;
  fits = h;
}

-- The capacity more than grows by one in each round, so the bytes needed are fuel enough.
pub make_room-Grown :
    (fuel n : ℕ) (s : Serializer)
    → IsReady s
    → s.num_bytes_written + n ≤ s.capacity + fuel
    → Returns (make_room (suc fuel) n s) (Grown n s)
unfolding make_room
make_room-Grown zero n s v h = (s, ground arith, Grown-self n s v (omega arith))
make_room-Grown (suc fuel) n s v h = elim (Bool-cases (ltb s.capacity (s.num_bytes_written + n))) [
  | inl more ↦
      let (r, run, g) =
        make_room-Grown fuel n (grow s) (grow-IsReady s v) (grow_progress s n fuel v h) in
      (r, rw more run, Grown-grow n s r v g)
  | inr enough ↦ (s, rw enough refl, Grown-self n s v (ground arith))
]

grow-capacity_zero : (s : Serializer) → s.capacity ≡ 0 → (grow s).capacity ≡ 0
unfolding grow
grow-capacity_zero s h = omega arith

-- With no capacity at all the loop doubles zero for ever: no number of rounds ends it.
pub make_room-diverges :
    (fuel n : ℕ) (s : Serializer) → s.capacity ≡ 0 → 0 < n → make_room fuel n s ≡ fault diverges
unfolding make_room
make_room-diverges zero n s e h = refl
make_room-diverges (suc fuel) n s e h =
    ground (arith, make_room-diverges fuel n (grow s) (grow-capacity_zero s e) h)
