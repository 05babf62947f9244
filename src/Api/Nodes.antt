-- ===== src/Api/Nodes.antt =====
-- internal/api/handlers_cluster.go: the handlers of the cluster. The server's cluster manager is none
-- where it has none.
pub mod Targets
use elnssm.Common.{
  ℕ, ℤ, pos, String, str_eq, List, [], ◌∷◌, Option, none, some, Bool, true, false, not, is_some,
  ◌&&◌, if◌then◌else◌,
}
use Prim.Native.String.{◌++◌}
use elnssm.Cluster.Defs.{
  Net, Heartbeat, SlaveNode, ClusterManager, role, is_master, register_heartbeat, list_slaves,
  get_slave, Answer, Proxied, proxy_request,
}

pub data NodeReply : Type 0 where
  not_master invalid_payload missing_name registered node_not_found : NodeReply
  nodes : List SlaveNode → NodeReply
  status : String → Option (List SlaveNode) → NodeReply
  proxied : Proxied → NodeReply

abbrev pub is_cluster_master : Option ClusterManager → Bool
is_cluster_master none = false
is_cluster_master (some m) = is_master m

-- handleClusterNodes
unfoldable pub handle_cluster_nodes : ℕ → Option ClusterManager → NodeReply
unfolding is_master list_slaves
handle_cluster_nodes now none = not_master
handle_cluster_nodes now (some m) =
    if not (is_master m) then not_master else nodes (list_slaves now m.slaves)

-- What follows the check of the role; the payload is none where the body cannot be decoded.
unfoldable pub hear :
    Net → ℕ → String → Option Heartbeat → ClusterManager → ClusterManager × NodeReply
unfolding register_heartbeat
hear net now peer_ip none m = (m, invalid_payload)
hear net now peer_ip (some h) m =
    if str_eq h.name ""
    then (m, missing_name)
    else (register_heartbeat net now h.name peer_ip h.listen_port h.version m, registered)

abbrev some_manager : ClusterManager × NodeReply → Option ClusterManager × NodeReply
some_manager (m, reply) = (some m, reply)

-- handleClusterHeartbeat, with extractIP's answer
unfoldable pub handle_cluster_heartbeat :
    Net → ℕ → String → Option Heartbeat → Option ClusterManager → Option ClusterManager × NodeReply
unfolding is_master hear
handle_cluster_heartbeat net now peer_ip payload none = (none, not_master)
handle_cluster_heartbeat net now peer_ip payload (some m) =
    if not (is_master m)
    then (some m, not_master)
    else some_manager (hear net now peer_ip payload m)

-- handleClusterStatus
unfoldable pub handle_cluster_status : ℕ → Option ClusterManager → NodeReply
unfolding role is_master list_slaves
handle_cluster_status now none = status "standalone" none
handle_cluster_status now (some m) =
    status (role m) (if is_master m then some (list_slaves now m.slaves) else none)

-- The path of the route, up to which the code adds a slash.
abbrev pub proxy_path : String → String
proxy_path rest = "/" ++ (if str_eq rest "" then "/" else rest)

-- handleClusterProxy: the node, the method and the rest of the path
unfoldable pub handle_cluster_proxy :
    Net → Answer → String → String → String → Option ClusterManager → NodeReply
unfolding is_master get_slave proxy_request
handle_cluster_proxy net answer node method rest none = not_master
handle_cluster_proxy net answer node method rest (some m) =
    if not (is_master m)
    then not_master
    else if not (is_some (get_slave node m))
    then node_not_found
    else proxied (proxy_request net answer node method (proxy_path rest) m)
