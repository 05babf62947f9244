-- ===== src/Examples/Nodes.antt =====
-- A master that has heard of two nodes.
use elnssm.Common.{pos, List, [], ◌∷◌, none, some, true, lookup, insert, ◌≡◌, refl}
use Prim.Native.String.{◌++◌}
use elnssm.Cluster.Defs.{
  Net, ClusterManager, Request, Answer, new_cluster, register_heartbeat, address_of, proxy_request,
  is_master, get_slave,
}
use elnssm.Cluster.Targets.{Seen, IsTarget}
use elnssm.Api.Nodes.{handle_cluster_proxy, handle_cluster_heartbeat, hear, proxy_path}
use elnssm.Api.Nodes.Targets.{Post, after_posts, accepted, sent_by, handle_cluster_proxy-IsTarget}
use elnssm.Config.Global.{default_config}
use elnssm.Examples.Data.{zero_float}

abbrev net : Net
net = record {
  join_host_port = λ host port. host ++ ":9100";
  split_host_port = λ address. some (address, "9100");
  atoi = λ s. some (pos 9100);
}

abbrev fresh_master : ClusterManager
fresh_master =
    new_cluster net (record (default_config "" zero_float).cluster { role = "master" })
      "0.0.0.0:9100"

abbrev answer : Answer
answer = record { valid = true; response = some (pos 200, some "ok") }

abbrev request : Request
request = record {
  method = "GET";
  url = "http://10.0.0.9:9100/api/v1/services";
  authorization = none;
}

no_slaves : fresh_master.slaves ≡ []
unfolding new_cluster
no_slaves = refl

-- The same heartbeats as posts, and one without a name.
abbrev posts : List Post
posts =
    record {
      at = 40;
      peer_ip = "10.0.0.7";
      payload = some (record { name = ""; version = "1"; listen_port = pos 9100 });
    }
    ∷ record {
      at = 30;
      peer_ip = "10.0.0.9";
      payload = some (record { name = "a"; version = "1"; listen_port = pos 9100 });
    }
    ∷ record { at = 20; peer_ip = "10.0.0.3"; payload = none }
    ∷ record {
      at = 10;
      peer_ip = "10.0.0.2";
      payload = some (record { name = "a"; version = "1"; listen_port = pos 9100 });
    }
    ∷ []

is_a_master : is_master fresh_master ≡ true
unfolding is_master new_cluster default_config
is_a_master = refl

sent :
    sent_by (
      handle_cluster_proxy net answer "a" "GET" "services"
        (after_posts net (some fresh_master) posts))
    ≡ some request
unfolding handle_cluster_proxy after_posts handle_cluster_heartbeat hear register_heartbeat
    is_master get_slave proxy_request address_of new_cluster lookup insert default_config
sent = refl

handle_cluster_proxy-IsTarget_example :
    (h : Seen) × IsTarget net fresh_master no_slaves
      (accepted posts)
      "a"
      (proxy_path "services")
      request
      h
handle_cluster_proxy-IsTarget_example =
    handle_cluster_proxy-IsTarget net fresh_master no_slaves is_a_master answer "a" "GET" "services"
      posts request sent
