-- ===== src/Network/Message/Wire.antt =====
-- The messages of network/message.h survive serialize and deserialize.
use swdev_proj.Prelude.{
  ℕ, ◌≡◌, refl, List, [], ◌++◌, append-nil, sym, subst, ok, ◌>>=◌, Returns, arith,
}
use swdev_proj.Serial.{Serializer, write_size, read_size}
use swdev_proj.Serial.Room.{IsReady}
use swdev_proj.Serial.Write.{Appends}
use swdev_proj.Serial.Read.{Ahead, Took}
use swdev_proj.Serial.Kind.{MsgKind, write_kind, read_kind, kind_wire}
use swdev_proj.Serial.Wire
use swdev_proj.Serial.Wire.{Appends-seq, Took-seq, Ahead-assoc}
use swdev_proj.Serial.Wire.Scalars.{SizeT, size_wire}
use swdev_proj.Store.Key
use swdev_proj.Store.Key.{Key}
use swdev_proj.Store.Key.Wire.{key_wire}
use swdev_proj.Store.Value
use swdev_proj.Store.Value.{Value}
use swdev_proj.Store.Value.Wire.{value_wire}
use swdev_proj.Network.NodeInfo
use swdev_proj.Network.NodeInfo.Wire.{node_info_wire, Fits}
use swdev_proj.Network.Message.{
  Body, Message, get_data_body, wait_and_get_body, put_body, reply_data_body, register_body,
  directory_body, done_body, teardown_body, serialize_body, serialize, deserialize_body,
  deserialize,
}

-- The kind that a constructor gives to its class.
abbrev pub kind_of_body : Body → MsgKind
kind_of_body (get_data_body k) = MsgKind.get_data
kind_of_body (wait_and_get_body k) = MsgKind.wait_and_get
kind_of_body (put_body k v) = MsgKind.put
kind_of_body (reply_data_body k v) = MsgKind.reply_data
kind_of_body (register_body n) = MsgKind.register
kind_of_body (directory_body d) = MsgKind.dir
kind_of_body done_body = MsgKind.done
kind_of_body teardown_body = MsgKind.teardown

abbrev pub BodySendable : Body → Type 0
BodySendable (get_data_body k) = Key.Wire.Sendable k
BodySendable (wait_and_get_body k) = Key.Wire.Sendable k
BodySendable (put_body k v) = Key.Wire.Sendable k × Value.Wire.Sendable v
BodySendable (reply_data_body k v) = Key.Wire.Sendable k × Value.Wire.Sendable v
BodySendable (register_body n) = Fits n
BodySendable (directory_body d) = ⊥
BodySendable done_body = Unit
BodySendable teardown_body = Unit

-- A message as its constructor builds it, of any class but DirectoryMsg.
pub record Sendable (m : Message) : Type 0 where
  pub kind : m.kind ≡ kind_of_body m.body
  pub sender : SizeT m.sender
  pub target : SizeT m.target
  pub body : BodySendable m.body

body_bytes : Body → List ℕ
body_bytes (get_data_body k) = key_wire.bytes k
body_bytes (wait_and_get_body k) = key_wire.bytes k
body_bytes (put_body k v) = key_wire.bytes k ++ value_wire.bytes v
body_bytes (reply_data_body k v) = key_wire.bytes k ++ value_wire.bytes v
body_bytes (register_body n) = node_info_wire.bytes n
body_bytes (directory_body d) = []
body_bytes done_body = []
body_bytes teardown_body = []

pair_puts :
    (k : Key) (v : Value) (s : Serializer)
    → Key.Wire.Sendable k
    → Value.Wire.Sendable v
    → IsReady s
    → Returns
        (Key.serialize k s >>= Value.serialize v)
        (Appends (key_wire.bytes k ++ value_wire.bytes v) s)
pair_puts k v s kv vv r =
    Appends-seq (Key.serialize k s) (Value.serialize v) (value_wire.bytes v)
      (key_wire.puts k s kv r) λ t h. value_wire.puts v t vv h

nothing_puts : (s : Serializer) → IsReady s → Returns (ok s) (Appends [] s)
nothing_puts s r = (
  s,
  refl,
  record { ready = r; appended = sym (append-nil _); counted = omega arith; same_read = refl },
)

body_puts :
    (b : Body) (s : Serializer)
    → BodySendable b
    → IsReady s
    → Returns (serialize_body b s) (Appends (body_bytes b) s)
unfolding serialize_body body_bytes
body_puts (get_data_body k) s v r = key_wire.puts k s v r
body_puts (wait_and_get_body k) s v r = key_wire.puts k s v r
body_puts (put_body k x) s v r = pair_puts k x s v.0 v.1 r
body_puts (reply_data_body k x) s v r = pair_puts k x s v.0 v.1 r
body_puts (register_body n) s v r = node_info_wire.puts n s v r
body_puts (directory_body d) s v r = absurd v
body_puts done_body s v r = nothing_puts s r
body_puts teardown_body s v r = nothing_puts s r

module _ (make : Key → Body) where
  key_gets :
      (k : Key) (rest : List ℕ) (s : Serializer)
      → Key.Wire.Sendable k
      → Ahead (key_wire.bytes k ++ rest) s
      → Returns (Key.deserialize s >>= λ p. ok (make p.0, p.1)) (Took (make k) rest)
  key_gets k rest s v h =
      Took-seq (Key.deserialize s) _ (key_wire.gets k rest s v h)
        λ t left. ((make k, t), refl, record { value = refl; left = left })

module _ (make : Key → Value → Body) where
  pair_gets :
      (k : Key) (x : Value) (rest : List ℕ) (s : Serializer)
      → Key.Wire.Sendable k
      → Value.Wire.Sendable x
      → Ahead ((key_wire.bytes k ++ value_wire.bytes x) ++ rest) s
      → Returns
          (Key.deserialize s >>= λ p. Value.deserialize p.1 >>= λ q. ok (make p.0 q.0, q.1))
          (Took (make k x) rest)
  pair_gets k x rest s v w h =
      Took-seq (Key.deserialize s) _
        (key_wire.gets k (value_wire.bytes x ++ rest) s v
          (Ahead-assoc (key_wire.bytes k) (value_wire.bytes x) rest s h))
        λ t ahead.
          Took-seq (Value.deserialize t) _ (value_wire.gets x rest t w ahead)
            λ u left. ((make k x, u), refl, record { value = refl; left = left })

body_gets :
    (b : Body) (rest : List ℕ) (s : Serializer)
    → BodySendable b
    → Ahead (body_bytes b ++ rest) s
    → Returns (deserialize_body (kind_of_body b) s) (Took b rest)
unfolding deserialize_body body_bytes
body_gets (get_data_body k) rest s v h = key_gets get_data_body k rest s v h
body_gets (wait_and_get_body k) rest s v h = key_gets wait_and_get_body k rest s v h
body_gets (put_body k x) rest s v h = pair_gets put_body k x rest s v.0 v.1 h
body_gets (reply_data_body k x) rest s v h = pair_gets reply_data_body k x rest s v.0 v.1 h
body_gets (register_body n) rest s v h =
    Took-seq (NodeInfo.deserialize s) _ (node_info_wire.gets n rest s v h)
      λ t left. ((register_body n, t), refl, record { value = refl; left = left })
body_gets (directory_body d) rest s v h = absurd v
body_gets done_body rest s v h = ((done_body, s), refl, record { value = refl; left = h })
body_gets teardown_body rest s v h = ((teardown_body, s), refl, record { value = refl; left = h })

bytes : Message → List ℕ
bytes m =
    kind_wire.bytes m.kind
    ++ (size_wire.bytes m.sender ++ (size_wire.bytes m.target ++ body_bytes m.body))

puts :
    (m : Message) (s : Serializer)
    → Sendable m
    → IsReady s
    → Returns (serialize m s) (Appends (bytes m) s)
unfolding serialize bytes
puts m s v r = Appends-seq (write_kind m.kind s) _ _ (kind_wire.puts m.kind s tt r) λ t h.
    Appends-seq (write_size m.sender t) _ _ (size_wire.puts m.sender t v.sender h) λ u k.
      Appends-seq (write_size m.target u) _ _ (size_wire.puts m.target u v.target k)
        λ w l. body_puts m.body w v.body l

gets :
    (m : Message) (rest : List ℕ) (s : Serializer)
    → Sendable m
    → Ahead (bytes m ++ rest) s
    → Returns (deserialize m.kind s) (Took m rest)
unfolding deserialize bytes
gets m rest s v h =
    let a = kind_wire.bytes m.kind in
    let b = size_wire.bytes m.sender in
    let c = size_wire.bytes m.target in
    let d = body_bytes m.body in
    Took-seq (read_kind s) _
      (kind_wire.gets m.kind ((b ++ (c ++ d)) ++ rest) s tt
        (Ahead-assoc a (b ++ (c ++ d)) rest s h))
      λ t x.
        Took-seq (read_size t) _
          (size_wire.gets m.sender ((c ++ d) ++ rest) t v.sender (Ahead-assoc b (c ++ d) rest t x))
          λ u y.
            Took-seq (read_size u) _
              (size_wire.gets m.target (d ++ rest) u v.target (Ahead-assoc c d rest u y))
              λ w z.
                Took-seq (deserialize_body m.kind w) _
                  (subst (λ k. Returns (deserialize_body k w) (Took m.body rest)) (sym v.kind)
                    (body_gets m.body rest w v.body z))
                  λ e left. ((m, e), refl, record { value = refl; left = left })

-- For each kind, the messages of its class.
pub message_wire :
    (k : MsgKind) → Wire.Wire serialize (deserialize k) (λ m. (m.kind ≡ k) × Sendable m)
message_wire k = record {
  bytes = bytes;
  puts = λ m s v r. puts m s v.1 r;
  gets = λ m rest s v h.
      subst (λ k. Returns (deserialize k s) (Took m rest)) v.0 (gets m rest s v.1 h);
}
