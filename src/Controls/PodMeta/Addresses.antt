-- ===== src/Controls/PodMeta/Addresses.antt =====
-- Pods of stores that no store's address names (pod_control.go).
use elasticell_operator.Base.{
  Bool-cases, inl, inr, insert, ◌≡◌, refl, true, false, String, List, [], ◌∷◌, All, ◌==◌, eq_iff,
  ap, arith,
}
use elasticell_operator.Api.Objects.{Pod}
use elasticell_operator.Base.Maps.{lookup-insert}
use elasticell_operator.Label
use elasticell_operator.Label.{
  cluster_id_label_key, member_id_label_key, store_id_label_key, component_label_key,
  store_label_val,
}
use elasticell_operator.Util.Helpers.{set_if_not_empty}
use elasticell_operator.Effects.{Call, update_pod, ok, StoreInfo, World, Env, request}
use elasticell_operator.Discovery.Peers.{has_code}
use elasticell_operator.Controls.PodMeta.{
  host, store_id_of, with_ids, wanted_store_id, write_ids, update_meta_info,
}

-- The label that the newest request gives to a pod.
abbrev pub new_store_id : List Call → String
new_store_id (update_pod pod ∷ calls) = Label.get store_id_label_key pod.labels
new_store_id _ = ""

-- The host has a dot in it.
abbrev pub Domain : StoreInfo → Type 0
Domain info = has_code b'.' (host info) ≡ true

host-name :
    (info : StoreInfo) (name : String)
    → Domain info
    → has_code b'.' name ≡ false
    → (host info == name) ≡ false
host-name info name d n = elim (Bool-cases (host info == name)) [
  | inl e ↦
      let same = ap (has_code b'.') ((eq_iff (host info) name).0 e) in absurd (ground (arith, same))
  | inr e ↦ e
]

store_id_of-Domain :
    (name old : String) (infos : List StoreInfo)
    → All Domain infos
    → has_code b'.' name ≡ false
    → store_id_of name old infos ≡ old
unfolding store_id_of
store_id_of-Domain name old [] h n = refl
store_id_of-Domain name old (info ∷ infos) h n =
    ground (arith, host-name info name h.0 n, store_id_of-Domain name old infos h.1 n)

with_ids-store_id :
    (c m : String) (labels : Label.Label)
    → Label.get store_id_label_key (with_ids c m "" labels) ≡ Label.get store_id_label_key labels
unfolding set_if_not_empty
with_ids-store_id c m labels = ground (
  arith,
  lookup-insert cluster_id_label_key store_id_label_key c labels,
  lookup-insert member_id_label_key store_id_label_key m labels,
  lookup-insert member_id_label_key store_id_label_key m (insert cluster_id_label_key c labels),
)

write_ids-store_id :
    (env : Env) (pod : Pod) (c m : String) (w : World)
    → Label.get store_id_label_key pod.labels ≡ ""
    → w.calls ≡ []
    → new_store_id (write_ids env pod c m "" w).1.calls ≡ ""
unfolding write_ids request
write_ids-store_id env pod c m w unlabelled start = ground (arith, with_ids-store_id c m pod.labels)

wanted-Domain :
    (env : Env) (pod : Pod) (infos : List StoreInfo)
    → env.get_stores ≡ ok infos
    → All Domain infos
    → has_code b'.' pod.name ≡ false
    → Label.get store_id_label_key pod.labels ≡ ""
    → wanted_store_id env pod ≡ ok ""
unfolding wanted_store_id
wanted-Domain env pod infos stores domains n unlabelled =
    ground
      (arith, store_id_of-Domain pod.name (Label.get store_id_label_key pod.labels) infos domains n)

-- If every store gives PD an address with a domain name, a pod without the label of
-- its store's id is never given it: its name has no dot, and is compared with the whole host.
pub store_id_never_found :
    (env : Env) (pod : Pod) (infos : List StoreInfo) (w : World)
    → env.get_stores ≡ ok infos
    → All Domain infos
    → has_code b'.' pod.name ≡ false
    → Label.get store_id_label_key pod.labels ≡ ""
    → w.calls ≡ []
    → new_store_id (update_meta_info env pod w).1.calls ≡ ""
unfolding update_meta_info
store_id_never_found env pod infos w stores domains n unlabelled start =
    grind (arith, wanted-Domain env pod infos stores domains n unlabelled, write_ids-store_id)
