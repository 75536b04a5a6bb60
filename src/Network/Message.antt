-- ===== src/Network/Message.antt =====
-- The class Message of network/message.h and its subclasses. The class of an object is its body;
-- kind_ is a field, which deserialize overwrites.
pub mod Wire
use swdev_proj.Prelude.{ℕ, Run, ok, ◌>>=◌}
use swdev_proj.Serial.{Serializer, write_size, read_size}
use swdev_proj.Serial.Kind.{MsgKind, write_kind, read_kind}
use swdev_proj.Store.Key
use swdev_proj.Store.Key.{Key}
use swdev_proj.Store.Value
use swdev_proj.Store.Value.{Value}
use swdev_proj.Network.NodeInfo
use swdev_proj.Network.NodeInfo.{NodeInfo}
use swdev_proj.Network.Directory
use swdev_proj.Network.Directory.{Directory}

pub data Body : Type 0 where
  get_data_body wait_and_get_body : Key → Body
  put_body reply_data_body : Key → Value → Body
  register_body : NodeInfo → Body
  directory_body : Directory → Body
  done_body teardown_body : Body

pub record Message : Type 0 where
  pub kind : MsgKind
  pub sender : ℕ
  pub target : ℕ
  pub body : Body

-- The constructors; a key, a value or a directory is cloned into the message.
abbrev pub get_data_msg : Key → ℕ → ℕ → Message
get_data_msg k s t = record {
  kind = MsgKind.get_data;
  sender = s;
  target = t;
  body = get_data_body k;
}

abbrev pub wait_and_get_msg : Key → ℕ → ℕ → Message
wait_and_get_msg k s t = record {
  kind = MsgKind.wait_and_get;
  sender = s;
  target = t;
  body = wait_and_get_body k;
}

abbrev pub put_msg : Key → Value → ℕ → ℕ → Message
put_msg k v s t = record { kind = MsgKind.put; sender = s; target = t; body = put_body k v }

abbrev pub reply_data_msg : Key → Value → ℕ → ℕ → Message
reply_data_msg k v s t = record {
  kind = MsgKind.reply_data;
  sender = s;
  target = t;
  body = reply_data_body k v;
}

abbrev pub register_msg : NodeInfo → ℕ → ℕ → Message
register_msg n s t = record {
  kind = MsgKind.register;
  sender = s;
  target = t;
  body = register_body n;
}

abbrev pub directory_msg : Directory → ℕ → ℕ → Message
directory_msg d s t = record { kind = MsgKind.dir; sender = s; target = t; body = directory_body d }

abbrev pub done_msg : ℕ → ℕ → Message
done_msg s t = record { kind = MsgKind.done; sender = s; target = t; body = done_body }

abbrev pub teardown_msg : ℕ → ℕ → Message
teardown_msg s t = record { kind = MsgKind.teardown; sender = s; target = t; body = teardown_body }

-- what a subclass writes behind Message::serialize
unfoldable pub serialize_body : Body → Serializer → Run Serializer
serialize_body (get_data_body k) s = Key.serialize k s
serialize_body (wait_and_get_body k) s = Key.serialize k s
serialize_body (put_body k v) s = do t ← Key.serialize k s; Value.serialize v t
serialize_body (reply_data_body k v) s = do t ← Key.serialize k s; Value.serialize v t
serialize_body (register_body n) s = NodeInfo.serialize n s
serialize_body (directory_body d) s = Directory.serialize d s
serialize_body done_body s = ok s
serialize_body teardown_body s = ok s

-- Message::serialize, then the subclass
unfoldable pub serialize : Message → Serializer → Run Serializer
unfolding serialize_body
serialize m s = do
  t ← write_kind m.kind s
  u ← write_size m.sender t
  v ← write_size m.target u
  serialize_body m.body v

-- the body that the class of a kind reads
unfoldable pub deserialize_body : MsgKind → Serializer → Run (Body × Serializer)
deserialize_body MsgKind.get_data s = do (k, t) ← Key.deserialize s; ok (get_data_body k, t)
deserialize_body MsgKind.wait_and_get s = do (k, t) ← Key.deserialize s; ok (wait_and_get_body k, t)
deserialize_body MsgKind.put s = do
  (k, t) ← Key.deserialize s
  (v, u) ← Value.deserialize t
  ok (put_body k v, u)
deserialize_body MsgKind.reply_data s = do
  (k, t) ← Key.deserialize s
  (v, u) ← Value.deserialize t
  ok (reply_data_body k v, u)
deserialize_body MsgKind.register s = do (n, t) ← NodeInfo.deserialize s; ok (register_body n, t)
deserialize_body MsgKind.dir s = do (d, t) ← Directory.deserialize s; ok (directory_body d, t)
deserialize_body MsgKind.done s = ok (done_body, s)
deserialize_body MsgKind.teardown s = ok (teardown_body, s)

-- deserialize on an object of the class that belongs to the first argument
unfoldable pub deserialize : MsgKind → Serializer → Run (Message × Serializer)
unfolding deserialize_body
deserialize made s = do
  (kind, t) ← read_kind s
  (sender, u) ← read_size t
  (target, v) ← read_size u
  (body, w) ← deserialize_body made v
  ok (record { kind = kind; sender = sender; target = target; body = body }, w)
