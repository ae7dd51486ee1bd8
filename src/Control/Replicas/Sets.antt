-- ===== src/Control/Replicas/Sets.antt =====
-- What the three managers do before they update their StatefulSet, and what the update itself does
-- to the cached StatefulSets and to the cluster.
use elasticell_operator.Base.{
  ℕ, zero, suc, ◌≡◌, ◌≢◌, refl, String, ◌&&◌, ◌==◌, Option, some, List, [], ◌∷◌, arith, eq_iff,
}
use elasticell_operator.Api.Objects.{StatefulSet}
use elasticell_operator.Api.Cluster.{CellCluster}
use elasticell_operator.Effects.{World, Env, request, ok, set_at, find}
use elasticell_operator.Member.Update.Asked.{Same}
use elasticell_operator.Member.Update.{cache_set, update_if_changed, update_stateful_set}
use elasticell_operator.Member.Revisions.{is_upgrading_by}
use elasticell_operator.Member.ProxyUpgrader
use elasticell_operator.Member.ProxyUpgrader.{proxy_loop, keep_applied, upgrade_proxy_pod}
use elasticell_operator.Member.ProxyManager

abbrev pub cached : String → String → List StatefulSet → Option StatefulSet
cached ns name sets = find (λ s. s.name == name && s.namespace == ns) sets

-- A write to the cached StatefulSet of another name.
cache_set-other :
    (ns name : String) (set : StatefulSet) (sets : List StatefulSet)
    → set.name ≢ name
    → cached ns name (cache_set set sets) ≡ cached ns name sets
cache_set-other ns name set [] d = refl
cache_set-other ns name set (s ∷ sets) d = ground (
  arith,
  eq_iff s.name name,
  eq_iff s.name set.name,
  eq_iff set.name name,
  cache_set-other ns name set sets d,
)

-- A write to the cached StatefulSet itself.
pub cache_set-same :
    (ns name : String) (set : StatefulSet) (sets : List StatefulSet) (old : StatefulSet)
    → set.name ≡ name
    → set.namespace ≡ ns
    → cached ns name sets ≡ some old
    → cached ns name (cache_set set sets) ≡ some set
cache_set-same ns name set [] old e f h = ground arith
cache_set-same ns name set (s ∷ sets) old e f h = ground (
  arith,
  eq_iff s.name name,
  eq_iff s.name set.name,
  eq_iff s.namespace ns,
  eq_iff s.namespace set.namespace,
  eq_iff set.name name,
  eq_iff set.namespace ns,
  cache_set-same ns name set sets old e f,
)

module _ (env : Env) where
  pub set_at-cached :
      (ns name : String) (before after : List StatefulSet)
      → cached ns name after ≡ cached ns name before
      → set_at env ns name after ≡ set_at env ns name before
  unfolding set_at
  set_at-cached ns name before after h = ground (arith, h)

  pub cached-set_at :
      (ns name : String) (sets : List StatefulSet) (s : StatefulSet)
      → set_at env ns name sets ≡ ok s
      → cached ns name sets ≡ some s
  unfolding set_at
  cached-set_at ns name sets s h = ground arith

  pub set_at-name :
      (ns name : String) (sets : List StatefulSet) (s : StatefulSet)
      → set_at env ns name sets ≡ ok s
      → s.name ≡ name
  unfolding set_at
  set_at-name ns name [] s h = ground arith
  set_at-name ns name (t ∷ sets) s h =
      ground (arith, eq_iff t.name name, set_at-name ns name sets s)

  pub set_at-namespace :
      (ns name : String) (sets : List StatefulSet) (s : StatefulSet)
      → set_at env ns name sets ≡ ok s
      → s.namespace ≡ ns
  unfolding set_at
  set_at-namespace ns name [] s h = ground arith
  set_at-namespace ns name (t ∷ sets) s h =
      ground (arith, eq_iff t.namespace ns, set_at-namespace ns name sets s)

  abbrev pub SameNames : World → World → Type 0
  SameNames w v = (v.cc.name ≡ w.cc.name) × (v.cc.namespace ≡ w.cc.namespace)

  pub update-SameNames :
      (old : StatefulSet) (w : World) → SameNames w (update_if_changed env old w).1
  unfolding update_if_changed update_stateful_set request
  update-SameNames old w = ground arith

  pub update-other :
      (ns name : String) (old : StatefulSet) (w : World)
      → old.name ≢ name
      → cached ns name (update_if_changed env old w).1.sets ≡ cached ns name w.sets
  unfolding update_if_changed update_stateful_set request
  update-other ns name old w d = grind (arith, cache_set-other ns name)

  module _ (old : StatefulSet) where
    pub proxy_status-Same : (w : World) → Same w (ProxyManager.sync_proxy_status env old w).1
    unfolding ProxyManager.sync_proxy_status is_upgrading_by
    proxy_status-Same w = ground arith

    proxy_loop-Same :
        (cluster : CellCluster) (rev : String) (n : ℕ) (w : World)
        → Same w (proxy_loop env cluster rev n w).1
    unfolding proxy_loop upgrade_proxy_pod
    proxy_loop-Same cluster rev zero w = ground arith
    proxy_loop-Same cluster rev (suc i) w = ground (arith, proxy_loop-Same cluster rev i w)

    pub proxy_upgrade-Same : (w : World) → Same w (ProxyManager.upgrade_if_needed env old w).1
    unfolding ProxyManager.upgrade_if_needed ProxyUpgrader.upgrade keep_applied
    proxy_upgrade-Same w = grind (arith, proxy_loop-Same)
