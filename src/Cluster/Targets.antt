-- ===== src/Cluster/Targets.antt =====
-- internal/cluster/cluster.go: where ProxyRequest can send a request.
use elnssm.Common.{
  ℕ, ℤ, pos, ◌<ℤ◌, ◌≤ℤ◌, String, str_eq, str_eq_iff, List, [], ◌∷◌, Option, none, some, Bool, true,
  false, Dict, lookup, lookup-insert, is_some, ◌≡◌, ◌≢◌, refl, ap, sym, ◌∙◌, arith, Bool-cases, inl,
  inr, if◌then◌else◌,
}
use Prim.Native.String.{◌++◌}
use elnssm.Config.Global.{ClusterConfig}
use elnssm.Cluster.Defs.{
  Net, SlaveNode, ClusterManager, connected, is_port, address_of, register_heartbeat, Request,
  Answer, bearer, answered, forward, proxy_request,
}

-- A heartbeat as the API hands it over: its time, name, the IP of its peer, port and version.
pub record Seen : Type 0 where
  pub at : ℕ
  pub name : String
  pub peer_ip : String
  pub port : ℤ
  pub version : String

-- The heartbeats that reach the master, the newest first.
unfoldable pub after_heartbeats : Net → ClusterManager → List Seen → ClusterManager
after_heartbeats net m [] = m
after_heartbeats net m (h ∷ hs) =
    register_heartbeat net h.at h.name h.peer_ip h.port h.version (after_heartbeats net m hs)

abbrev pub latest_of : String → List Seen → Option Seen
latest_of name [] = none
latest_of name (h ∷ hs) =
    let rest = latest_of name hs in if str_eq h.name name then some h else rest

abbrev pub node_of : Net → Option Seen → Option SlaveNode
node_of net none = none
node_of net (some h) = some (record {
  name = h.name;
  address = address_of net h.peer_ip h.port;
  status = connected;
  last_seen = h.at;
  version = h.version;
})

none-some : {A : Type 0} {x : A} → ◌≡◌ {A = Option A} none (some x) → ⊥
none-some e = cc

true-false : true ≡ false → ⊥
true-false e = cc

injected : {A : Type 0} {x y : A} → ◌≡◌ {A = Option A} (some x) (some y) → x ≡ y
injected e = cc

one_more :
    (net : Net) {found : Option SlaveNode} (here : Bool) (h : Seen) (rest : Option Seen)
    → found ≡ node_of net rest
    → (if here then node_of net (some h) else found) ≡ node_of net (if here then some h else rest)
one_more net true h rest e = refl
one_more net false h rest e = e

module _ (net : Net) (m : ClusterManager) (none_yet : m.slaves ≡ []) where
  lookup-after_heartbeats :
      (hs : List Seen) (name : String)
      → lookup name (after_heartbeats net m hs).slaves ≡ node_of net (latest_of name hs)
  unfolding after_heartbeats register_heartbeat lookup
  lookup-after_heartbeats [] name = ap (λ (d : Dict SlaveNode). lookup name d) none_yet
  lookup-after_heartbeats (h ∷ hs) name =
      let node : SlaveNode = record {
        name = h.name;
        address = address_of net h.peer_ip h.port;
        status = connected;
        last_seen = h.at;
        version = h.version;
      } in
      lookup-insert h.name name node (after_heartbeats net m hs).slaves
      ∙ one_more net (str_eq h.name name) h (latest_of name hs) (lookup-after_heartbeats hs name)

  pub cfg-after_heartbeats : (hs : List Seen) → (after_heartbeats net m hs).cfg ≡ m.cfg
  unfolding after_heartbeats register_heartbeat
  cfg-after_heartbeats [] = refl
  cfg-after_heartbeats (h ∷ hs) = cfg-after_heartbeats hs

  -- What a request that is sent must come from.
  abbrev pub IsTarget : List Seen → String → String → Request → Seen → Type 0
  IsTarget hs name path request h =
      (latest_of name hs ≡ some h)
      × (pos 0 <ℤ h.port)
      × (h.port ≤ℤ pos 65535)
      × (request.url ≡ "http://" ++ net.join_host_port h.peer_ip h.port ++ "/api/v1" ++ path)
      × (request.authorization ≡ bearer m.cfg.slave_token)

  answered_sent : (r : Request) (o : Option (ℤ × Option String)) → (answered r o).sent ≡ some r
  answered_sent r none = refl
  answered_sent r (some (status, body)) = refl

  forward_sent :
      (answer : Answer) (method path : String) (c : ClusterManager) (node : SlaveNode)
      (request : Request)
      → (forward net answer method path c (some node)).sent ≡ some request
      → (node.address ≢ "")
        × (request.url ≡ "http://" ++ node.address ++ "/api/v1" ++ path)
        × (request.authorization ≡ bearer c.cfg.slave_token)
  forward_sent answer method path c node request e =
      let url = "http://" ++ node.address ++ "/api/v1" ++ path in
      let token = bearer c.cfg.slave_token in
      elim (Bool-cases (str_eq node.address "")) [
        | inl a ↦ absurd (none-some (sym (rw a refl) ∙ e))
        | inr a ↦ elim (Bool-cases (is_some (net.split_host_port node.address))) [
          | inr b ↦ absurd (none-some (sym (rw (a, b) refl) ∙ e))
          | inl b ↦ elim (Bool-cases answer.valid) [
            | inr v ↦ absurd (none-some (sym (rw (a, b, v) refl) ∙ e))
            | inl v ↦
                let r : Request = record { method = method; url = url; authorization = token } in
                let same : r ≡ request =
                  injected (sym (rw (a, b, v) (answered_sent r answer.response)) ∙ e) in
                (
                  λ z. true-false (sym ((str_eq_iff node.address "").1 z) ∙ a),
                  sym (ap (λ (q : Request). q.url) same),
                  sym (ap (λ (q : Request). q.authorization) same),
                )
          ]
        ]
      ]

  address_port :
      (peer_ip : String) (port : ℤ)
      → address_of net peer_ip port ≢ ""
      → (pos 0 <ℤ port)
        × (port ≤ℤ pos 65535)
        × (address_of net peer_ip port ≡ net.join_host_port peer_ip port)
  unfolding address_of
  address_port peer_ip port n = elim (Bool-cases (is_port port)) [
    | inr e ↦ absurd (n (rw e refl))
    | inl e ↦ (ground (arith, e), ground (arith, e), rw e refl)
  ]

  forward-IsTarget :
      (answer : Answer) (name method path : String) (hs : List Seen) (request : Request)
      (found : Option Seen)
      → latest_of name hs ≡ found
      → (forward net answer method path (after_heartbeats net m hs) (node_of net found)).sent
        ≡ some request
      → (h : Seen) × IsTarget hs name path request h
  forward-IsTarget answer name method path hs request none l e = absurd (none-some e)
  forward-IsTarget answer name method path hs request (some h) l e =
      let c = after_heartbeats net m hs in
      let node : SlaveNode = record {
        name = h.name;
        address = address_of net h.peer_ip h.port;
        status = connected;
        last_seen = h.at;
        version = h.version;
      } in
      let sent = forward_sent answer method path c node request e in
      let address = address_port h.peer_ip h.port sent.0 in
      (
        h,
        (
          l,
          address.0,
          address.1,
          sent.1 ∙ ap (λ a. "http://" ++ a ++ "/api/v1" ++ path) address.2,
          sent.2 ∙ ap (λ (q : ClusterConfig). bearer q.slave_token) (cfg-after_heartbeats hs),
        ),
      )

  -- A request that ProxyRequest sends goes to the IP from which the latest heartbeat under that name
  -- came and the port that it reported, which is in the range of ports; it carries the token of the
  -- slaves. Nothing else that a caller sends has a part in the address.
  pub proxy_request-IsTarget :
      (answer : Answer) (name method path : String) (hs : List Seen) (request : Request)
      → (proxy_request net answer name method path (after_heartbeats net m hs)).sent ≡ some request
      → (h : Seen) × IsTarget hs name path request h
  unfolding proxy_request
  proxy_request-IsTarget answer name method path hs request e =
      forward-IsTarget answer name method path hs request (latest_of name hs) refl (
        sym (
          ap (λ o. (forward net answer method path (after_heartbeats net m hs) o).sent)
            (lookup-after_heartbeats hs name))
        ∙ e)
