-- ===== src/Discovery/Peers.antt =====
-- The list of peers that discovery writes, and how it is read back.
use Prim.Native.Char.{Char, code}
use Prim.Native.String.{◌++◌ as concat}
use Prim.Native.String.append
use elasticell_operator.Member.Update.Asked.{eqb_ℤ→eq}
use elasticell_operator.Base.{
  Bool-cases, inl, inr, eq_iff, pos, length, ◌⊎◌, ◌≢◌, ◌==◌, ℕ, String, Bool, true, false, ◌≡◌,
  refl, sym, ap, ◌∙◌, ◌||◌, none, some, [], ◌∷◌, map, Dict, All, nat_eq, arith,
}
use elasticell_operator.Util.Texts.{split}
use text.Mathlib.TextLemmas.{append-nil}
use elasticell_operator.Api.Cluster.{CellCluster}
use elasticell_operator.Effects.{Result, ok}
use elasticell_operator.Discovery.{
  Server, State, peers_of, peer_entry, rpc_entry, drop_last, listed, discover, get_proxy_config,
}

abbrev comma : Char
comma = ","

-- The text has a character of the code.
abbrev pub has_code : ℕ → String → Bool
has_code n String.[] = false
has_code n (String.◌∷◌ c s) = nat_eq (code c) n || has_code n s

split-none : (n : ℕ) (s : String) → has_code n s ≡ false → split n s ≡ s ∷ []
unfolding split
split-none n String.[] h = refl
split-none n (String.◌∷◌ c s) h = ground (arith, split-none n s)

concat-comma : (t : String) → concat "," t ≡ String.◌∷◌ comma t
concat-comma t = append.cons comma "" t ∙ ap (λ v. String.◌∷◌ comma v) (append.nil t)

-- A part without commas stands alone in front of a comma.
split-concat :
    (s t : String)
    → has_code b',' s ≡ false
    → split b',' (concat s (String.◌∷◌ comma t)) ≡ s ∷ split b',' t
unfolding split
split-concat String.[] t h = ap (split b',') (append.nil (String.◌∷◌ comma t))
split-concat (String.◌∷◌ c s) t h =
    ap (split b',') (append.cons c s (String.◌∷◌ comma t)) ∙ ground (arith, split-concat s t)

abbrev not_empty : String → Bool
not_empty String.[] = false
not_empty (String.◌∷◌ c s) = true

drop_last-cons :
    (c : Char) (t : String)
    → not_empty t ≡ true
    → drop_last (String.◌∷◌ c t) ≡ String.◌∷◌ c (drop_last t)
unfolding drop_last
drop_last-cons c String.[] h = ground arith
drop_last-cons c (String.◌∷◌ d t) h = refl

concat-not_empty : (s t : String) → not_empty t ≡ true → not_empty (concat s t) ≡ true
concat-not_empty String.[] t h = ap not_empty (append.nil t) ∙ h
concat-not_empty (String.◌∷◌ c s) t h = ap not_empty (append.cons c s t)

drop_last-concat :
    (s t : String) → not_empty t ≡ true → drop_last (concat s t) ≡ concat s (drop_last t)
drop_last-concat String.[] t h = ap drop_last (append.nil t) ∙ sym (append.nil (drop_last t))
drop_last-concat (String.◌∷◌ c s) t h =
    ap drop_last (append.cons c s t)
    ∙ drop_last-cons c (concat s t) (concat-not_empty s t h)
    ∙ ap (λ v. String.◌∷◌ c v) (drop_last-concat s t h)
    ∙ sym (append.cons c s (drop_last t))

concat-not_empty_left : (s t : String) → not_empty s ≡ true → not_empty (concat s t) ≡ true
concat-not_empty_left String.[] t h = ground arith
concat-not_empty_left (String.◌∷◌ c s) t h = ap not_empty (append.cons c s t)

pub has_code-concat :
    (n : ℕ) (s t : String) → has_code n (concat s t) ≡ (has_code n s || has_code n t)
has_code-concat n String.[] t = ap (has_code n) (append.nil t)
has_code-concat n (String.◌∷◌ c s) t =
    ap (has_code n) (append.cons c s t) ∙ ground (arith, has_code-concat n s t)

module _ (entry : String × String → String) where
  abbrev pub NoComma : String × String → Type 0
  NoComma p = has_code b',' (entry p) ≡ false

  listed-cons :
      (p : String × String) (ps : Dict String)
      → listed entry (p ∷ ps) ≡ concat (entry p) (String.◌∷◌ comma (listed entry ps))
  unfolding listed
  listed-cons p ps = ap (concat (entry p)) (concat-comma (listed entry ps))

  drop_last-listed :
      (p : String × String) (ps : Dict String)
      → drop_last (listed entry (p ∷ ps))
        ≡ concat (entry p) (drop_last (String.◌∷◌ comma (listed entry ps)))
  drop_last-listed p ps = ap drop_last (listed-cons p ps) ∙ drop_last-concat (entry p) _ refl

  -- The parts of the list without its last comma are the entries.
  pub split-listed :
      (p : String × String) (ps : Dict String)
      → All NoComma (p ∷ ps)
      → split b',' (drop_last (listed entry (p ∷ ps))) ≡ map entry (p ∷ ps)
  unfolding drop_last listed
  split-listed p [] h =
      ap (split b',') (drop_last-listed p [] ∙ append-nil (entry p)) ∙ split-none b',' (entry p) h.0
  split-listed p (q ∷ qs) h =
      ap (split b',') (
        drop_last-listed p (q ∷ qs)
        ∙ ap (concat (entry p)) (
            drop_last-cons comma (listed entry (q ∷ qs)) (
              ap not_empty (listed-cons q qs)
              ∙ concat-not_empty (entry q) (String.◌∷◌ comma (listed entry qs)) refl)))
      ∙ split-concat (entry p) (drop_last (listed entry (q ∷ qs))) h.0
      ∙ ap (λ rest. entry p ∷ rest) (split-listed q qs h.1)

-- When discovery asks the API server to store a cluster, as many peers are known as PD has
-- replicas, the stored cluster lists the bootstrap URLs and the addresses of exactly these peers,
-- and the pod that asked is answered with these URLs, unless the API server refuses.
pub discover_completes :
    (server : Server) (url : String) (s s' : State) (r : Result String) (cc : CellCluster)
    → discover server url s ≡ (r, s', some cc)
    → (pos (length (peers_of s')) ≡ cc.spec.pd.replicas)
      × (cc.spec.pd_peer_url ≡ drop_last (listed peer_entry (server.range (peers_of s'))))
      × (cc.spec.pd_peer_rpc ≡ drop_last (listed rpc_entry (server.range (peers_of s'))))
      × (((server.update_cc cc ≡ none) × (r ≡ ok cc.spec.pd_peer_url))
          ⊎ (server.update_cc cc ≢ none))
unfolding discover
discover_completes server url s s' r cc h =
    ground (arith, eqb_ℤ→eq (pos (length (peers_of s'))) cc.spec.pd.replicas)

pub rpc_entry-NoComma :
    (peers : Dict String)
    → All (λ q. has_code b',' q.1 ≡ false) peers
    → All (NoComma rpc_entry) peers
rpc_entry-NoComma [] h = tt
rpc_entry-NoComma (q ∷ qs) h =
    (ground (arith, h.0, has_code-concat b',' q.1 ":20800"), rpc_entry-NoComma qs h.1)

not_empty-eq : (s : String) → not_empty s ≡ true → (s == "") ≡ false
not_empty-eq s h = elim (Bool-cases (s == "")) [
  | inl e ↦ absurd (ground (arith, ap not_empty ((eq_iff s "").0 e)))
  | inr e ↦ e
]

listed-not_empty :
    (p : String × String) (ps : Dict String)
    → not_empty (drop_last (listed rpc_entry (p ∷ ps))) ≡ true
listed-not_empty p ps =
    ap not_empty (drop_last-listed rpc_entry p ps)
    ∙ concat-not_empty_left (rpc_entry p) _ (concat-not_empty p.1 ":20800" refl)

-- A proxy that asks for its configuration from the cluster that discovery stored is given the
-- address of every peer that discovery knew then, and no other, if no address has a comma in it.
pub proxy_config_lists_peers :
    (server later : Server) (url pod_ip : String) (s s' : State) (r : Result String)
    (cc : CellCluster) (p : String × String) (ps : Dict String)
    → discover server url s ≡ (r, s', some cc)
    → server.range (peers_of s') ≡ p ∷ ps
    → All (λ q. has_code b',' q.1 ≡ false) (p ∷ ps)
    → later.get_cc later.pod_namespace later.cluster_name ≡ ok cc
    → get_proxy_config later pod_ip
      ≡ later.encode_proxy_cfg (map rpc_entry (p ∷ ps)) (concat pod_ip ":9998")
unfolding get_proxy_config
proxy_config_lists_peers server later url pod_ip s s' r cc p ps h order clean stored = ground (
  arith,
  discover_completes server url s s' r cc h,
  split-listed rpc_entry p ps (rpc_entry-NoComma (p ∷ ps) clean),
  not_empty-eq (drop_last (listed rpc_entry (p ∷ ps))) (listed-not_empty p ps),
)
