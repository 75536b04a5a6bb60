-- ===== src/Network/Net.antt =====
-- sendMsg and receiveMsg of network/network.h between the serializer and the socket. What the
-- sockets do, send, accept and read, is outside: the bytes that go out are the bytes that come in.
use swdev_proj.Prelude.{
  ℕ, ◌≡◌, refl, sym, ap, ◌∙◌, List, ◌++◌, append_assoc, length, take, drop, take-append-drop,
  drop-append, length-replicate, arith, Run, ok, ◌>>=◌, >>=-assoc, Returns,
}
use swdev_proj.Serial.{Serializer, write_mem, clear}
use swdev_proj.Serial.Kind.{write_kind, read_kind, kind_wire}
use swdev_proj.Serial.Room.{written, IsReady}
use swdev_proj.Serial.Write.{Appends, length-written}
use swdev_proj.Serial.Read.{Ahead, Took}
use swdev_proj.Serial.Wire.{Appends-seq, Took-seq, Ahead-assoc}
use swdev_proj.Serial.Wire.Text.{write_mem-Appends}
use swdev_proj.Network.Message.{Message, serialize, deserialize}
use swdev_proj.Network.Message.Wire.{Sendable, message_wire}

-- sendMsg: the bytes for the socket, and the serializer afterwards
unfoldable pub send_msg : Message → Serializer → Run (List ℕ × Serializer)
send_msg m s = do
  t ← write_kind m.kind (clear s)
  u ← serialize m t
  ok (take u.num_bytes_written u.buffer, clear u)

-- receiveMsg, from the string of all bytes that were read
unfoldable pub receive_msg : List ℕ → Serializer → Run (Message × Serializer)
receive_msg bytes s = do
  t ← write_mem (length bytes) bytes s
  (kind, u) ← read_kind t
  deserialize kind u

clear-IsReady : (s : Serializer) → IsReady s → IsReady (clear s)
unfolding clear
clear-IsReady s r = record {
  has_room = r.has_room;
  initialised = omega arith;
  within = omega (arith, length-replicate {A = ℕ} s.capacity 0);
}

-- A serializer that has been read to the end of what was written.
pub record IsSpent (s : Serializer) : Type 0 where
  pub ready : IsReady s
  pub spent : s.num_bytes_read ≡ s.num_bytes_written

appended-Ahead :
    (d : List ℕ) (s t : Serializer)
    → IsSpent s
    → Appends d s t
    → Ahead (d ++ drop t.num_bytes_written t.buffer) t
appended-Ahead d s t p a =
    let rest = drop t.num_bytes_written t.buffer in
    let n = length-written s p.ready in
    let start : t.num_bytes_read ≡ length (written s) = omega (arith, a.same_read, p.spent, n) in
    record {
      bytes =
          ap (drop t.num_bytes_read) (sym (take-append-drop t.num_bytes_written t.buffer))
          ∙ (ap (λ (w : List ℕ). drop t.num_bytes_read (w ++ rest)) a.appended
              ∙ (ap (drop t.num_bytes_read) (append_assoc (written s) d rest)
                  ∙ drop-append (written s) (d ++ rest) t.num_bytes_read start));
      inside = omega (arith, a.ready.initialised, a.counted, a.same_read, p.spent);
    }

wire_bytes : Message → List ℕ
wire_bytes m = kind_wire.bytes m.kind ++ (message_wire m.kind).bytes m

all_written :
    (d : List ℕ) (s t : Serializer) → Appends d (clear s) t → take t.num_bytes_written t.buffer ≡ d
unfolding clear
all_written d s t a = a.appended

send_bytes :
    (m : Message) (s : Serializer)
    → Sendable m
    → IsReady s
    → (s' : Serializer) × (send_msg m s ≡ ok (wire_bytes m, s'))
unfolding send_msg wire_bytes
send_bytes m s v r =
    let (t, run, a) =
      Appends-seq (write_kind m.kind (clear s)) (serialize m) ((message_wire m.kind).bytes m)
        (kind_wire.puts m.kind (clear s) tt (clear-IsReady s r))
        λ t h. (message_wire m.kind).puts m t (refl, v) h in
    let finish : Serializer → Run (List ℕ × Serializer) =
      λ u. ok (take u.num_bytes_written u.buffer, clear u) in
    (
      clear t,
      >>=-assoc (write_kind m.kind (clear s)) (serialize m) finish
          ∙ (ap (λ (r : Run Serializer). r >>= finish) run
              ∙ ap (λ (d : List ℕ). ok (d, clear t)) (all_written (wire_bytes m) s t a)),
    )

read_back :
    (m : Message) (rest : List ℕ) (t : Serializer)
    → Sendable m
    → Ahead (wire_bytes m ++ rest) t
    → Returns (read_kind t >>= λ p. deserialize p.0 p.1) (Took m rest)
unfolding wire_bytes
read_back m rest t v h =
    let d = (message_wire m.kind).bytes m in
    Took-seq (read_kind t) _
      (kind_wire.gets m.kind (d ++ rest) t tt (Ahead-assoc (kind_wire.bytes m.kind) d rest t h))
      λ u left. (message_wire m.kind).gets m rest u (refl, v) left

-- What one node sends, any other receives as the same message: for every message that a
-- constructor makes of parts that can be sent, but a DirectoryMsg, whatever the two serializers
-- held before, as long as the receiver's was read to its end.
pub receive-send :
    (m : Message) (s t : Serializer)
    → Sendable m
    → IsReady s
    → IsSpent t
    → (bytes : List ℕ) × (s' t' : Serializer) × (send_msg m s ≡ ok (bytes, s'))
      × (receive_msg bytes t ≡ ok (m, t'))
unfolding send_msg receive_msg
receive-send m s t v r p =
    let (s', sent) = send_bytes m s v r in
    let (u, run, a) = write_mem-Appends (wire_bytes m) (length (wire_bytes m)) t refl p.ready in
    let (r', run', q) =
      read_back m (drop u.num_bytes_written u.buffer) u v (appended-Ahead (wire_bytes m) t u p a) in
    (wire_bytes m, s', r'.1, sent, rw run (run' ∙ ap (λ (n : Message). ok (n, r'.1)) q.value))
