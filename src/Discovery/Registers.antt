-- ===== src/Discovery/Registers.antt =====
-- A peer that asks discovery: it is registered, and the last one completes the list.
use Prim.Native.String.{◌++◌ as concat}
use elasticell_operator.Base.{
  Option, eqb_ℤ, insert, if◌then◌else◌, pos, length, ◌⊎◌, ◌≢◌, String, false, ◌≡◌, none, some, [],
  ◌∷◌, map, Dict,
}
use elasticell_operator.Util.Texts.{split}
use elasticell_operator.Api.Cluster.{CellCluster}
use elasticell_operator.Effects.{Error, failure, waiting_for_peers, Result, ok, err}
use elasticell_operator.Discovery.{completed, updated, trim_suffix, Server, State, peers_of}
use elasticell_operator.Discovery.Peers.{has_code}

-- What is written of a peer, by pod name and address.
abbrev pub bootstrap_entry : String × String → String
bootstrap_entry q = concat q.0 (concat "=http://" (concat q.1 ":2380"))

abbrev pub address_entry : String × String → String
address_entry q = concat q.1 ":20800"

abbrev pub Clean : String × String → Type 0
Clean q = (has_code b',' q.0 ≡ false) × (has_code b',' q.1 ≡ false)

-- A peer that asks, under an address of four parts whose third is the own namespace, about a cluster
-- without bootstrap URLs.
pub record Asks (server : Server) (url : String) (s : State) (cc : CellCluster) : Type 0 where
  pub pod_name : String
  pub service : String
  pub last : String
  pub not_empty_url : url ≢ ""
  pub parts : split b'.' url ≡ pod_name ∷ service ∷ server.pod_namespace ∷ last ∷ []
  pub found : server.get_cc server.pod_namespace (trim_suffix "-pd-peer" service) ≡ ok cc
  pub no_url : cc.spec.pd_peer_url ≡ ""

module _ (server : Server) (url : String) (s : State) (cc : CellCluster)
    (a : Asks server url s cc) where
  -- The peers with the one that asks.
  abbrev pub peers_then : Dict String
  peers_then = insert a.pod_name url (peers_of s)

  -- What is stored lists the peers in the order `order`.
  abbrev pub SpellsOut : CellCluster → Dict String → Type 0
  SpellsOut stored order =
      (split b',' stored.spec.pd_peer_url ≡ map bootstrap_entry order)
      × (split b',' stored.spec.pd_peer_rpc ≡ map address_entry order)

  abbrev pub Answered : CellCluster → Result String → Type 0
  Answered stored r =
      ((server.update_cc stored ≡ none) × (r ≡ ok stored.spec.pd_peer_url))
      ⊎ ((e : Error) × (server.update_cc stored ≡ some e) × (r ≡ err e))

  abbrev counted : Result String × State × Option CellCluster
  counted =
      let stored = completed server peers_then cc in
      if eqb_ℤ (pos (length peers_then)) cc.spec.pd.replicas
      then (updated (server.update_cc stored) stored.spec.pd_peer_url, some peers_then, some stored)
      else (err (failure waiting_for_peers), some peers_then, none)
