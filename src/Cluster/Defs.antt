-- ===== src/Cluster/Defs.antt =====
-- internal/cluster/cluster.go. Times are in seconds, and net/http is a parameter: a request that is
-- sent is part of the result.
use elnssm.Common.{
  ℕ, ◌-◌, ltb, ℤ, pos, ltb_ℤ, leb_ℤ, String, str_eq, List, [], ◌∷◌, Option, none, some, Bool, true,
  false, not, ◌&&◌, Dict, lookup, insert, is_some, if◌then◌else◌,
}
use Prim.Native.String.{◌++◌}
use elnssm.Config.Global.{ClusterConfig}

-- net.JoinHostPort with strconv.Itoa, net.SplitHostPort and strconv.Atoi.
pub record Net : Type 0 where
  pub join_host_port : String → ℤ → String
  pub split_host_port : String → Option (String × String)
  pub atoi : String → Option ℤ

pub record Heartbeat : Type 0 where
  pub name : String
  pub version : String
  pub listen_port : ℤ

pub data NodeStatus : Type 0 where
  connected disconnected : NodeStatus

pub record SlaveNode : Type 0 where
  pub name : String
  pub address : String
  pub status : NodeStatus
  pub last_seen : ℕ
  pub version : String

-- `beating`: the heartbeat loop runs, and cancel is set.
pub record ClusterManager : Type 0 where
  pub cfg : ClusterConfig
  pub listen_port : ℤ
  pub slaves : Dict SlaveNode
  pub beating : Bool

abbrev or_none : Net → Option (String × String) → ℤ
or_none net none = pos 0
or_none net (some (host, port)) = elim (net.atoi port) [ none ↦ pos 0 | some p ↦ p ]

unfoldable pub new_cluster : Net → ClusterConfig → String → ClusterManager
new_cluster net cfg listen_addr = record {
  cfg = cfg;
  listen_port = or_none net (net.split_host_port listen_addr);
  slaves = [];
  beating = false;
}

unfoldable pub role : ClusterManager → String
role m = if str_eq m.cfg.role "" then "standalone" else m.cfg.role

unfoldable pub is_master : ClusterManager → Bool
is_master m = str_eq m.cfg.role "master"

unfoldable pub is_slave : ClusterManager → Bool
is_slave m = str_eq m.cfg.role "slave"

unfoldable pub start_cluster : ClusterManager → ClusterManager
unfolding is_slave
start_cluster m =
    if is_slave m && not (str_eq m.cfg.master_addr "") then record m { beating = true } else m

unfoldable pub stop_cluster : ClusterManager → ClusterManager
stop_cluster m = record m { beating = false }

abbrev pub is_port : ℤ → Bool
is_port p = ltb_ℤ (pos 0) p && leb_ℤ p (pos 65535)

unfoldable pub address_of : Net → String → ℤ → String
address_of net peer_ip listen_port =
    if is_port listen_port then net.join_host_port peer_ip listen_port else ""

unfoldable pub register_heartbeat :
    Net → ℕ → String → String → ℤ → String → ClusterManager → ClusterManager
register_heartbeat net now name peer_ip listen_port version m = record m {
  slaves =
      insert name
        (record {
          name = name;
          address = address_of net peer_ip listen_port;
          status = connected;
          last_seen = now;
          version = version;
        })
        m.slaves;
}

unfoldable pub listed : ℕ → SlaveNode → SlaveNode
listed now n = if ltb 120 (now - n.last_seen) then record n { status = disconnected } else n

unfoldable pub list_slaves : ℕ → Dict SlaveNode → List SlaveNode
list_slaves now [] = []
list_slaves now ((name, n) ∷ slaves) = listed now n ∷ list_slaves now slaves

unfoldable pub get_slave : String → ClusterManager → Option SlaveNode
get_slave name m = lookup name m.slaves

pub record Request : Type 0 where
  pub method : String
  pub url : String
  pub authorization : Option String

-- Whether http.NewRequest accepts the URL, and what comes back: none if the request fails, else the
-- status and the body, if it can be read.
pub record Answer : Type 0 where
  pub valid : Bool
  pub response : Option (ℤ × Option String)

-- The request that is sent, the status, and the body; an error has no body.
pub record Proxied : Type 0 where
  pub sent : Option Request
  pub status : ℤ
  pub body : Option String

abbrev pub bearer : String → Option String
bearer token = if str_eq token "" then none else some ("Bearer " ++ token)

abbrev pub refused : ℤ → Proxied
refused status = record { sent = none; status = status; body = none }

abbrev pub answered : Request → Option (ℤ × Option String) → Proxied
answered request none = record { sent = some request; status = pos 0; body = none }
answered request (some (status, body)) = record {
  sent = some request;
  status = status;
  body = body;
}

abbrev pub forward : Net → Answer → String → String → ClusterManager → Option SlaveNode → Proxied
forward net answer method path m none = refused (pos 404)
forward net answer method path m (some node) =
    if str_eq node.address ""
    then refused (pos 503)
    else if not (is_some (net.split_host_port node.address))
    then refused (pos 503)
    else if not answer.valid
    then refused (pos 0)
    else answered
        (record {
          method = method;
          url = "http://" ++ node.address ++ "/api/v1" ++ path;
          authorization = bearer m.cfg.slave_token;
        })
        answer.response

unfoldable pub proxy_request : Net → Answer → String → String → String → ClusterManager → Proxied
proxy_request net answer name method path m =
    forward net answer method path m (lookup name m.slaves)

-- The interval is 30 s where the configured one is missing or no duration (in nanoseconds).
unfoldable pub heartbeat_interval : (String → Option ℤ) → ClusterConfig → ℤ
heartbeat_interval parse_duration cfg =
    if str_eq cfg.heartbeat_interval ""
    then pos 30000000000
    else elim (parse_duration cfg.heartbeat_interval) [ none ↦ pos 30000000000 | some d ↦ d ]

-- The heartbeat's body and its request.
unfoldable pub send_heartbeat : String → ClusterManager → Heartbeat × Request
send_heartbeat build_version m = (
  record { name = m.cfg.node_name; version = build_version; listen_port = m.listen_port },
  record {
    method = "POST";
    url = "http://" ++ m.cfg.master_addr ++ "/api/v1/cluster/heartbeat";
    authorization = bearer m.cfg.master_token;
  },
)
