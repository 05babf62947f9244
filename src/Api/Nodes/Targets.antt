-- ===== src/Api/Nodes/Targets.antt =====
-- Where the requests go that the handlers of internal/api/handlers_cluster.go pass on.
use elnssm.Common.{
  ℕ, String, str_eq, List, [], ◌∷◌, Option, none, some, true, ◌≡◌, refl, ap, subst, ◌∙◌, arith,
  if◌then◌else◌,
}
use elnssm.Config.Global.{ClusterConfig}
use elnssm.Cluster.Defs.{Net, Heartbeat, ClusterManager, is_master, Request, Answer, proxy_request}
use elnssm.Cluster.Targets.{
  Seen, after_heartbeats, cfg-after_heartbeats, IsTarget, proxy_request-IsTarget,
}
use elnssm.Api.Nodes.{
  NodeReply, proxied, handle_cluster_heartbeat, hear, handle_cluster_proxy, proxy_path,
}

-- A request to handleClusterHeartbeat: its time, the IP of its peer, and its body if it is decoded.
pub record Post : Type 0 where
  pub at : ℕ
  pub peer_ip : String
  pub payload : Option Heartbeat

-- The posts that reach a server, the newest first.
unfoldable pub after_posts : Net → Option ClusterManager → List Post → Option ClusterManager
unfolding handle_cluster_heartbeat
after_posts net cluster [] = cluster
after_posts net cluster (p ∷ posts) =
    (handle_cluster_heartbeat net p.at p.peer_ip p.payload (after_posts net cluster posts)).0

abbrev seen : Post → Heartbeat → Seen
seen p h = record {
  at = p.at;
  name = h.name;
  peer_ip = p.peer_ip;
  port = h.listen_port;
  version = h.version;
}

abbrev with_payload : Post → Option Heartbeat → List Seen → List Seen
with_payload p none rest = rest
with_payload p (some h) rest = if str_eq h.name "" then rest else seen p h ∷ rest

-- The posts that name a node.
unfoldable pub accepted : List Post → List Seen
accepted [] = []
accepted (p ∷ posts) = with_payload p p.payload (accepted posts)

hear-after_heartbeats :
    (net : Net) (m : ClusterManager) (p : Post) (o : Option Heartbeat) (hs : List Seen)
    → (hear net p.at p.peer_ip o (after_heartbeats net m hs)).0
      ≡ after_heartbeats net m (with_payload p o hs)
unfolding hear after_heartbeats
hear-after_heartbeats net m p none hs = refl
hear-after_heartbeats net m p (some h) hs = ground arith

abbrev pub sent_by : NodeReply → Option Request
sent_by (proxied p) = p.sent
sent_by _ = none

module _ (net : Net) (m : ClusterManager) (none_yet : m.slaves ≡ [])
    (master : is_master m ≡ true) where
  master-after_heartbeats : (hs : List Seen) → is_master (after_heartbeats net m hs) ≡ true
  unfolding is_master
  master-after_heartbeats hs =
      ap (λ (q : ClusterConfig). str_eq q.role "master") (cfg-after_heartbeats net m none_yet hs)
      ∙ master

  -- The handler has the manager hear what it accepts, and nothing else.
  handled :
      (p : Post) (hs : List Seen)
      → (handle_cluster_heartbeat net p.at p.peer_ip p.payload (some (after_heartbeats net m hs))).0
        ≡ some (after_heartbeats net m (with_payload p p.payload hs))
  unfolding handle_cluster_heartbeat
  handled p hs =
      rw (master-after_heartbeats hs) (ap some (hear-after_heartbeats net m p p.payload hs))

  after_posts-accepted :
      (posts : List Post)
      → after_posts net (some m) posts ≡ some (after_heartbeats net m (accepted posts))
  unfolding after_posts accepted after_heartbeats
  after_posts-accepted [] = refl
  after_posts-accepted (p ∷ posts) =
      ap (λ o. (handle_cluster_heartbeat net p.at p.peer_ip p.payload o).0)
        (after_posts-accepted posts)
      ∙ handled p (accepted posts)

  proxied_sent :
      (answer : Answer) (node method rest : String) (c : ClusterManager) (request : Request)
      → sent_by (handle_cluster_proxy net answer node method rest (some c)) ≡ some request
      → (proxy_request net answer node method (proxy_path rest) c).sent ≡ some request
  unfolding handle_cluster_proxy
  proxied_sent answer node method rest c request e = ground (arith, e)

  -- A request that the API of a master passes on to a node goes to the IP from which the latest
  -- heartbeat came that was accepted under that name, and to the port it reported, which is in the
  -- range of ports; it carries the token of the slaves. The master started without nodes, and any
  -- posts to the handler of the heartbeats came before.
  pub handle_cluster_proxy-IsTarget :
      (answer : Answer) (node method rest : String) (posts : List Post) (request : Request)
      → sent_by (handle_cluster_proxy net answer node method rest (after_posts net (some m) posts))
        ≡ some request
      → (h : Seen) × IsTarget net m none_yet (accepted posts) node (proxy_path rest) request h
  handle_cluster_proxy-IsTarget answer node method rest posts request e =
      let c = after_heartbeats net m (accepted posts) in
      let at_c =
        subst (λ o. sent_by (handle_cluster_proxy net answer node method rest o) ≡ some request)
          (after_posts-accepted posts) e in
      proxy_request-IsTarget net m none_yet answer node method (proxy_path rest) (accepted posts)
        request (proxied_sent answer node method rest c request at_c)
