-- ===== src/Member/StoreLabels.antt =====
-- `setStoreLabelsForStore` of pkg/manager/member/store_member_manager.go: the labels of the nodes
-- that the stores run on are given to PD. Its only call is commented out.
use elasticell_operator.Base.{
  ℕ, suc, ◌+◌, String, Bool, true, false, ◌&&◌, Option, none, some, List, [], ◌∷◌, ◌++◌, ◌==◌, ◌≡◌,
  refl, eq_iff, length, Dict, lookup, insert, has_key, if◌then◌else◌, arith,
}
use elasticell_operator.Base.Maps.{lookup-insert}
use elasticell_operator.Api.Objects.{Pod, Node}
use elasticell_operator.Api.Cluster.{KvStore}
use elasticell_operator.Effects.{
  Error, failure, labels_not_found, Result, ok, err, StoreInfo, Env, pod_at,
}
use elasticell_operator.Member.StoreManager.{get_kv_store}

-- A label under another key, if the node has it.
abbrev copy_label : String → String → Dict String → Dict String → Dict String
copy_label key as_key labels copied = put (lookup key labels)
  where
    put : Option String → Dict String
    put none = copied
    put (some v) = insert as_key v copied

abbrev picked : Option (Dict String) → Result (Dict String)
picked none = err (failure labels_not_found)
picked (some ls) = ok (
    copy_label "kubernetes.io/hostname" "host" ls (
      copy_label "rack" "rack" ls
        (copy_label "zone" "zone" ls (copy_label "region" "region" ls []))))

abbrev labels_of : Result Node → Result (Dict String)
labels_of (err e) = err e
labels_of (ok node) = picked node.labels

unfoldable pub get_node_labels : (String → Result Node) → String → Result (Dict String)
get_node_labels get_node name = labels_of (get_node name)

-- PD's labels of a store under the keys that its node has; the last of a key counts.
unfoldable pub kept : Dict String → List (String × String) → Dict String → Dict String
kept node_labels [] ls = ls
kept node_labels ((key, val) ∷ labels) ls =
    kept node_labels labels (if has_key key node_labels then insert key val ls else ls)

abbrev same_text : Option String → Option String → Bool
same_text none none = true
same_text (some a) (some b) = a == b
same_text _ _ = false

-- `reflect.DeepEqual` of two maps: they agree on the keys of both.
abbrev agree_on : List (String × String) → Dict String → Dict String → Bool
agree_on [] a b = true
agree_on ((key, val) ∷ keys) a b = same_text (lookup key a) (lookup key b) && agree_on keys a b

unfoldable pub store_labels_equal_node_labels : List (String × String) → Dict String → Bool
store_labels_equal_node_labels store_labels node_labels =
    let ls = kept node_labels store_labels [] in agree_on (ls ++ node_labels) ls node_labels

abbrev Sent : Type 0
Sent = List (ℕ × Dict String)

-- What PD answered to the new labels of a store: only a set that it confirms counts.
abbrev counted : Result Bool → ℕ → ℕ
counted (ok true) count = suc count
counted (ok false) count = count
counted (err e) count = count

module _ (get_node : String → Result Node) (set_store_labels : ℕ → Dict String → Result Bool) where
  abbrev set_labels : StoreInfo → Result (Dict String) → ℕ → Sent → ℕ × Sent
  set_labels store (err e) count sent = (count, sent)
  set_labels store (ok ls) count sent = elim (store_labels_equal_node_labels store.meta.labels ls) [
    | true ↦ (count, sent)
    | false ↦ (counted (set_store_labels store.meta.id ls) count, (store.meta.id, ls) ∷ sent)
  ]

  abbrev pod_of : Env → String → List Pod → Option KvStore → Option (Result Pod)
  pod_of env ns pods none = none
  pod_of env ns pods (some status) = some (pod_at env ns status.pod_name pods)

  -- The loop: a pod that cannot be read ends it, a node that cannot be read is passed over.
  unfoldable pub set_for_stores :
      Env → String → List Pod → List StoreInfo → ℕ → Sent → ℕ × Option Error × Sent
  set_for_stores env ns pods [] count sent = (count, none, sent)
  set_for_stores env ns pods (store ∷ stores) count sent =
      elim (pod_of env ns pods (get_kv_store store)) [
        | none ↦ set_for_stores env ns pods stores count sent
        | some (err e) ↦ (count, some e, sent)
        | some (ok pod) ↦
            let (count', sent') =
              set_labels store (get_node_labels get_node pod.node_name) count sent in
            set_for_stores env ns pods stores count' sent'
      ]

  abbrev from_stores : Env → String → List Pod → Result (List StoreInfo) → ℕ × Option Error × Sent
  from_stores env ns pods (err e) = (0, some e, [])
  from_stores env ns pods (ok stores) = set_for_stores env ns pods stores 0 []

  unfoldable pub set_store_labels_for_store : Env → String → List Pod → ℕ × Option Error × Sent
  set_store_labels_for_store env ns pods = from_stores env ns pods env.get_stores

-- The last label of a key in a list, or else what was there.
abbrev last_label : String → List (String × String) → Option String → Option String
last_label key [] found = found
last_label key ((k, v) ∷ labels) found = last_label key labels (if k == key then some v else found)

-- What is kept of a store's labels: under a key of the node the last one, and nothing else.
pub lookup-kept :
    (node_labels : Dict String) (labels : List (String × String)) (ls : Dict String) (key : String)
    → lookup key (kept node_labels labels ls)
      ≡ (if has_key key node_labels then last_label key labels (lookup key ls) else lookup key ls)
unfolding kept
lookup-kept node_labels [] ls key = ground arith
lookup-kept node_labels ((k, v) ∷ labels) ls key = ground (
  arith,
  eq_iff k key,
  lookup-insert k key v ls,
  lookup-kept node_labels labels (if has_key k node_labels then insert k v ls else ls) key,
)

module _ (get_node : String → Result Node) where
  -- As the client of PD answers, every set is confirmed.
  abbrev confirm : ℕ → Dict String → Result Bool
  confirm id ls = ok true

  -- The count and the number of sets go together.
  abbrev InStep : ℕ → Sent → ℕ × Option Error × Sent → Type 0
  InStep count sent (count', e, sent') = count' + length sent ≡ count + length sent'

  one_store-InStep :
      (env : Env) (ns : String) (pods : List Pod) (store : StoreInfo) (stores : List StoreInfo)
      (count : ℕ) (sent : Sent) (o : Option (Result Pod))
      → pod_of get_node confirm env ns pods (get_kv_store store) ≡ o
      → ((n : ℕ) (s : Sent) → InStep n s (set_for_stores get_node confirm env ns pods stores n s))
      → InStep count sent (set_for_stores get_node confirm env ns pods (store ∷ stores) count sent)
  unfolding set_for_stores
  one_store-InStep env ns pods store stores count sent none h rest =
      let r = rest count sent in grind (arith, h)
  one_store-InStep env ns pods store stores count sent (some (err e)) h rest = grind (arith, h)
  one_store-InStep env ns pods store stores count sent (some (ok pod)) h rest =
      let ls = get_node_labels get_node pod.node_name in
      let next = set_labels get_node confirm store ls count sent in
      let step : next.0 + length sent ≡ count + length next.1 = ground arith in
      let r = rest next.0 next.1 in grind (arith, h)

  -- With a PD that confirms every set, the count is the number of sets that were sent.
  pub set_for_stores-InStep :
      (env : Env) (ns : String) (pods : List Pod) (stores : List StoreInfo) (count : ℕ)
      (sent : Sent)
      → InStep count sent (set_for_stores get_node confirm env ns pods stores count sent)
  unfolding set_for_stores
  set_for_stores-InStep env ns pods [] count sent = refl
  set_for_stores-InStep env ns pods (store ∷ stores) count sent =
      one_store-InStep env ns pods store stores count sent
        (pod_of get_node confirm env ns pods (get_kv_store store)) refl
        (set_for_stores-InStep env ns pods stores)
