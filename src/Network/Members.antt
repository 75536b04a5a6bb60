-- ===== src/Network/Members.antt =====
-- What the two networks, network/network.h and network/pseudo/pseudonetwork.h, do with the
-- messages about nodes that come and go; network/inetwork.h is the interface they share.
pub mod Laws
use swdev_proj.Prelude.{
  ℕ, zero, suc, ◌+◌, List, [], ◌∷◌, ◌++◌, Bool, true, false, ◌&&◌, ltb, leb, ◌==◌, if◌then◌else◌,
  length, set, replicate, Run, ok, fault, asserts, undefined, guard, ◌>>=◌, ◌>>◌,
}
use swdev_proj.Network.Directory
use swdev_proj.Network.Directory.{Directory}
use swdev_proj.Network.NodeInfo.{NodeInfo}
use swdev_proj.Network.Message.{
  Message, Body, register_body, directory_body, done_body, teardown_msg, directory_msg,
}

-- The handlers of INetwork; a handler gives the messages that it sends.
pub record INetwork (N : Type 0) : Type 0 where
  pub handle_register : Message → N → Run (List Message × N)
  pub handle_directory : Message → N → Run (List Message × N)
  pub handle_done : Message → N → Run (List Message × N)

-- isNodeDone_[node] = true
unfoldable pub mark : ℕ → List Bool → Run (List Bool)
mark node flags = if ltb node (length flags) then ok (set flags node true) else fault undefined

-- the loop of handleDoneMsg
unfoldable pub all_done : List Bool → Bool
all_done [] = true
all_done (b ∷ bs) = if b then all_done bs else false

-- sendTeardownMsgs_ of the node `index`, from node `i` on
unfoldable pub teardown_msgs : ℕ → ℕ → ℕ → List Message
teardown_msgs index zero i = []
teardown_msgs index (suc n) i = teardown_msg index i ∷ teardown_msgs index n (i + 1)

-- The isNodeDone_ part that both networks have.
unfoldable pub count_done : ℕ → Message → List Bool → Run (List Message × List Bool)
unfolding mark all_done teardown_msgs
count_done index m flags = do
  next ← mark m.sender flags
  ok (if all_done next then teardown_msgs index (length next) 0 else [], next)

pub record PseudoNetwork : Type 0 where
  pub node_id : ℕ
  pub is_node_done : List Bool

-- PseudoNetwork(mqa, ourNode)
unfoldable pub new_pseudo : ℕ → ℕ → PseudoNetwork
new_pseudo num_nodes our_node = record {
  node_id = our_node;
  is_node_done = replicate num_nodes false;
}

unfoldable pub pseudo_done : Message → PseudoNetwork → Run (List Message × PseudoNetwork)
unfolding count_done
pseudo_done m p = do
  guard (p.node_id == 0) asserts
  (out, flags) ← count_done p.node_id m p.is_node_done
  ok (out, record p { is_node_done = flags })

unfoldable pub pseudo_network : INetwork PseudoNetwork
unfolding pseudo_done
pseudo_network = record {
  handle_register = λ m p. ok ([], p);
  handle_directory = λ m p. ok ([], p);
  handle_done = pseudo_done;
}

-- Network, less its sockets and its serializer.
pub record Network : Type 0 where
  pub index : ℕ
  pub server_index : ℕ
  pub dir : Directory
  pub is_node_done : List Bool

-- Network(), with the server's address from the arguments
unfoldable pub new_network : ℕ → ℕ → ℕ → NodeInfo → Run Network
new_network index server_index num_nodes server = do
  d ← Directory.add_info server_index server Directory.new
  ok (record {
    index = index;
    server_index = server_index;
    dir = d;
    is_node_done = replicate num_nodes false;
  })

abbrev info_of : Body → Run NodeInfo
info_of (register_body info) = ok info
info_of _ = fault asserts

abbrev directory_of : Body → Run Directory
directory_of (directory_body d) = ok d
directory_of _ = fault undefined

unfoldable pub handle_register_msg : Message → Network → Run (List Message × Network)
handle_register_msg m n = do
  info ← info_of m.body
  d ← Directory.add_info m.sender info n.dir
  guard (Directory.size d == Directory.size n.dir + 1) asserts
  ok ([], record n { dir = d })

unfoldable pub handle_directory_msg : Message → Network → Run (List Message × Network)
handle_directory_msg m n = do
  other ← directory_of m.body
  d ← Directory.merge_in other n.dir
  ok ([], record n { dir = d })

unfoldable pub handle_done_msg : Message → Network → Run (List Message × Network)
unfolding count_done
handle_done_msg m n = do
  guard (n.index == n.server_index) asserts
  (out, flags) ← count_done n.index m n.is_node_done
  ok (out, record n { is_node_done = flags })

unfoldable pub network : INetwork Network
unfolding handle_register_msg handle_directory_msg handle_done_msg
network = record {
  handle_register = handle_register_msg;
  handle_directory = handle_directory_msg;
  handle_done = handle_done_msg;
}

-- the directory messages of server_init, from node `i` on
unfoldable pub directory_msgs : ℕ → ℕ → Network → List Message
directory_msgs zero i n = []
directory_msgs (suc k) i n =
    let rest = directory_msgs k (i + 1) n in
    if i == n.server_index then rest else directory_msg n.dir n.index i ∷ rest

-- the registrations that server_init waits for, in the order they come
unfoldable pub registrations : List Message → Network → Run Network
unfolding handle_register_msg
registrations [] n = ok n
registrations (m ∷ ms) n = handle_register_msg m n >>= λ r. registrations ms r.1
