-- ===== src/Network/Directory.antt =====
-- The class Directory of network/directory.h: a Map from node numbers to NodeInfo.
use swdev_proj.Prelude.{
  ℕ, zero, suc, List, [], ◌∷◌, Option, none, some, ◌==◌, if◌then◌else◌, Run, ok, fault, asserts,
  undefined, ◌>>=◌,
}
use swdev_proj.Serial.{Serializer, write_size, read_size}
use swdev_proj.Utils.Map
use swdev_proj.Utils.Map.{Map}
use swdev_proj.Network.SizeTWrapper
use swdev_proj.Network.SizeTWrapper.{SizeTWrapper, wrapper_hashed}
use swdev_proj.Network.NodeInfo
use swdev_proj.Network.NodeInfo.{NodeInfo}

pub record Directory : Type 0 where
  pub ips : Map SizeTWrapper NodeInfo

-- Directory()
unfoldable pub new : Directory
new = record { ips = Map.new 4 }

-- addInfo(nodeId, newInfo); the old value is lost
unfoldable pub add_info : ℕ → NodeInfo → Directory → Run Directory
add_info node_id info d = do
  (old, m) ← Map.put (some (record { val = node_id })) (some info) d.ips
  ok (record { ips = m })

abbrev pub assert_info : Option NodeInfo → Run NodeInfo
assert_info none = fault asserts
assert_info (some info) = ok info

unfoldable pub get_info : ℕ → Directory → Run NodeInfo
get_info node_id d = do found ← Map.get (some (record { val = node_id })) d.ips; assert_info found

-- getNodes: the clones of the keys
unfoldable pub get_nodes : Directory → Run (List SizeTWrapper)
get_nodes d = Map.get_keys d.ips

unfoldable pub size : Directory → ℕ
size d = d.ips.size

-- the loop of mergeIn
unfoldable pub merge_nodes : List SizeTWrapper → Directory → Directory → Run Directory
merge_nodes [] other d = ok d
merge_nodes (w ∷ ws) other d = do
  info ← get_info w.val other
  (prev, m) ← Map.put (some w) (some info) d.ips
  merge_nodes ws other (record { ips = m })

unfoldable pub merge_in : Directory → Directory → Run Directory
unfolding size get_nodes merge_nodes
merge_in other d =
    if size other == 0 then ok d else do nodes ← get_nodes other; merge_nodes nodes other d

unfoldable pub clone : Directory → Run Directory
unfolding merge_in new
clone d = merge_in d new

-- the loop of serialize over the keys
unfoldable pub put_entries : List SizeTWrapper → Directory → Serializer → Run Serializer
put_entries [] d s = ok s
put_entries (w ∷ ws) d s = do
  found ← Map.get (some w) d.ips
  t ← SizeTWrapper.serialize w s
  info ← elim found [ none ↦ fault undefined | some n ↦ ok n ]
  u ← NodeInfo.serialize info t
  put_entries ws d u

unfoldable pub serialize : Directory → Serializer → Run Serializer
unfolding put_entries
serialize d s = do
  t ← write_size d.ips.size s
  u ← write_size d.ips.capacity t
  keys ← Map.get_keys d.ips
  put_entries keys d u

-- the loop of deserialize, with `n` rounds left
unfoldable pub get_entries :
    ℕ → Map SizeTWrapper NodeInfo → Serializer → Run (Directory × Serializer)
get_entries zero m s = ok (record { ips = m }, s)
get_entries (suc n) m s = do
  (w, t) ← SizeTWrapper.deserialize s
  (info, u) ← NodeInfo.deserialize t
  (prev, next) ← Map.put (some w) (some info) m
  get_entries n next u

unfoldable pub deserialize : Serializer → Run (Directory × Serializer)
unfolding get_entries
deserialize s = do
  (n, t) ← read_size s
  (capacity, u) ← read_size t
  get_entries n (Map.new capacity) u
