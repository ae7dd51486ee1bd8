-- ===== src/Discovery.antt =====
-- pkg/discovery/discovery.go: the service that PD's pods ask for their first peers, and that the
-- stores and proxies ask for the addresses of PD.
pub mod Peers
pub mod Registers
pub mod Handlers
use Prim.Native.Char.{Char}
use Prim.Native.String.{◌++◌ as concat}
use Prim.Native.String
use elasticell_operator.Base.{
  ℕ, String, Bool, true, false, Option, none, some, List, [], ◌∷◌, Dict, ℤ, pos, eqb_ℤ, insert,
  length, ◌==◌, if◌then◌else◌,
}
use elasticell_operator.Api.Cluster.{CellCluster}
use elasticell_operator.Util.Texts.{split}
use elasticell_operator.Effects.{
  Error, failure, peer_url_empty, peer_url_malformed, wrong_namespace, waiting_for_peers,
  peer_rpc_empty, Result, ok, err,
}

-- The API server, the environment variables, the order in which Go visits a map, and the JSON
-- text of a proxy's configuration with the addresses of PD and of the pod.
pub record Server : Type 0 where
  pub get_cc : String → String → Result CellCluster
  pub update_cc : CellCluster → Option Error
  pub pod_namespace : String
  pub cluster_name : String
  pub range : Dict String → Dict String
  pub encode_proxy_cfg : List String → String → Result String

-- `currentCluster`: the peers by pod name. Its resource version is never read.
abbrev pub State : Type 0
State = Option (Dict String)

abbrev pub peers_of : State → Dict String
peers_of none = []
peers_of (some peers) = peers

unfoldable pub trim_suffix : String → String → String
trim_suffix suffix String.[] = String.[]
trim_suffix suffix (String.◌∷◌ c s) =
    let rest = trim_suffix suffix s in
    if String.◌∷◌ c s == suffix then String.[] else String.◌∷◌ c rest

-- `s[:len(s)-1]`.
unfoldable pub drop_last : String → String
drop_last String.[] = String.[]
drop_last (String.◌∷◌ c String.[]) = String.[]
drop_last (String.◌∷◌ c (String.◌∷◌ d s)) = String.◌∷◌ c (drop_last (String.◌∷◌ d s))

abbrev pub peer_entry : String × String → String
peer_entry (pod_name, url) = concat pod_name (concat "=http://" (concat url ":2380"))

abbrev pub rpc_entry : String × String → String
rpc_entry (pod_name, url) = concat url ":20800"

-- The entries, each with a comma after it.
unfoldable pub listed : (String × String → String) → Dict String → String
listed entry [] = ""
listed entry (p ∷ peers) = concat (entry p) (concat "," (listed entry peers))

abbrev pub with_peers : String → String → CellCluster → CellCluster
with_peers url rpc cc = record cc {
  spec = record (cc.spec) { pd_peer_url = url; pd_peer_rpc = rpc };
}

abbrev pub updated : Option Error → String → Result String
updated none url = ok url
updated (some e) url = err e

module _ (server : Server) where
  -- The cluster as it is written when the last awaited peer has come.
  abbrev pub completed : Dict String → CellCluster → CellCluster
  completed peers cc =
      let order = server.range peers in
      with_peers (drop_last (listed peer_entry order)) (drop_last (listed rpc_entry order)) cc

  -- The answer, the new state, and the cluster that the API server was asked to store.
  abbrev pub answer : Dict String → CellCluster → Result String × State × Option CellCluster
  answer peers cc =
      if cc.spec.pd_peer_url == ""
      then if eqb_ℤ (pos (length peers)) cc.spec.pd.replicas
        then (
          updated (server.update_cc (completed peers cc)) (completed peers cc).spec.pd_peer_url,
          some peers,
          some (completed peers cc),
        )
        else (err (failure waiting_for_peers), some peers, none)
      else (ok cc.spec.pd_peer_url, some peers, none)

  abbrev pub registered :
      String → String → State → Result CellCluster → Result String × State × Option CellCluster
  registered pod_name url s (err e) = (err e, s, none)
  registered pod_name url s (ok cc) = answer (insert pod_name url (peers_of s)) cc

  abbrev pub from_parts : String → State → List String → Result String × State × Option CellCluster
  from_parts url s (pod_name ∷ service ∷ ns ∷ last ∷ []) =
      if ns == server.pod_namespace
      then registered pod_name url s (server.get_cc ns (trim_suffix "-pd-peer" service))
      else (err (failure wrong_namespace), s, none)
  from_parts url s _ = (err (failure peer_url_malformed), s, none)

  unfoldable pub discover : String → State → Result String × State × Option CellCluster
  discover url s =
      if url == ""
      then (err (failure peer_url_empty), s, none)
      else from_parts url s (split b'.' url)

  abbrev pub peer_rpc : Result CellCluster → Result String
  peer_rpc (err e) = err e
  peer_rpc (ok cc) =
      if cc.spec.pd_peer_rpc == "" then err (failure peer_rpc_empty) else ok cc.spec.pd_peer_rpc

  unfoldable pub get_store_config : Result String
  get_store_config = peer_rpc (server.get_cc server.pod_namespace server.cluster_name)

  abbrev pub proxy_cfg : String → Result String → Result String
  proxy_cfg pod_ip (err e) = err e
  proxy_cfg pod_ip (ok rpc) = server.encode_proxy_cfg (split b',' rpc) (concat pod_ip ":9998")

  unfoldable pub get_proxy_config : String → Result String
  get_proxy_config pod_ip =
      proxy_cfg pod_ip (peer_rpc (server.get_cc server.pod_namespace server.cluster_name))
