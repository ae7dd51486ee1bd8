-- ===== src/Control/Replicas.antt =====
-- The replicas that a whole sync asks for (cell_cluster_control.go and the three managers).
pub mod Frames
pub mod Sets
pub mod Stages
pub mod Chain
pub mod Runs
use elasticell_operator.Base.{
  ◌≡◌, ◌≢◌, refl, sym, ◌∙◌, subst, ap, ◌⊎◌, inl, inr, String, ℤ, add32, List, [], ◌∷◌, ◌++◌, arith,
}
use elasticell_operator.Api.Objects.{StatefulSet}
use elasticell_operator.Names.{pd_member_name, store_member_name, proxy_member_name}
use elasticell_operator.Names.Unique.{store-is_not-pd}
use elasticell_operator.Effects.{Error, Result, ok, err, World, Env, set_at, request}
use elasticell_operator.Member.Update.{update_if_changed, create_stateful_set}
use elasticell_operator.Member.Update.Asked.{Ask, asked, Same, update-asked}
use elasticell_operator.Member.PdManager
use elasticell_operator.Member.PdManager.NoScale.{update_pd_set_never_scales}
use elasticell_operator.Member.StoreManager
use elasticell_operator.Member.StoreManager.Replicas.{update_store_set_steps}
use elasticell_operator.Member.ProxyManager
use elasticell_operator.Meta.Reclaim
use elasticell_operator.Member.Orphans
use elasticell_operator.Member.ServiceSync.{
  sync_pd_service, sync_pd_headless_service, sync_store_headless_service,
}
use elasticell_operator.Control.{sync_pd, sync_store, sync_proxy, sync_cluster, update_cell_cluster}
use elasticell_operator.Member.Builders.PdSet.{get_new_pd_set}
use elasticell_operator.Member.Builders.StoreSet.{get_new_set}
use elasticell_operator.Member.Builders.ProxySet.{get_new_proxy_set}
use elasticell_operator.Control.Replicas.Stages.{
  Keeps, Steps, AtMostOne, Stage, Same-Stage, pd_found-Stage, store_found-Stage, proxy_found-Stage,
}
use elasticell_operator.Control.Replicas.Sets.{cached, set_at-cached, cached-set_at}
use elasticell_operator.Control.Replicas.Frames.{
  reclaim-Same, clean-Same, pd_service-Same, pd_headless-Same, store_headless-Same, meta-Same,
}
use elasticell_operator.Control.Replicas.Chain.{
  pd_found, store_found, PdAsks, StoreAsks, ProxyAsks, pd-Stage, sync-ends, store-Stage, proxy-asks,
}

module _ (env : Env) where
  -- A sync of a cluster, wherever it stops, asks the API server to update at most PD's StatefulSet,
  -- then the stores', then the proxies', each by its name in the cluster's namespace. PD's is asked
  -- for as many replicas as its cached one has, and the stores' for as many or for one more.
  pub sync_replicas :
      (w : World)
      → (p s x : List Ask) × (asked (update_cell_cluster env w).1.calls
          ≡ x ++ (s ++ (p ++ asked w.calls)))
        × PdAsks env w p
        × StoreAsks env w s
        × ProxyAsks env w x
  sync_replicas w =
      let a = pd-Stage env w in
      let w1 = (sync_pd env w).1 in
      let b = store-Stage env w1 in
      let w2 = (StoreManager.sync env w1).1 in
      let (x, c, last) = proxy-asks env w2 in
      let found : store_found env w1 ≡ store_found env w =
        (λ i. set_at env (a.names.1 i) (store_member_name (a.names.0 i)) w1.sets)
        ∙ set_at-cached env w.cc.namespace (store_member_name w.cc.name) w.sets w1.sets (
            a.others w.cc.namespace (store_member_name w.cc.name)
              (λ e. store-is_not-pd w.cc.name (sym e))) in
      let ns = a.names.1 in
      let stores : StoreAsks env w1 ≡ StoreAsks env w =
        λ i. Steps (ns i) (store_member_name (a.names.0 i)) (found i) in
      let proxies : ProxyAsks env w2 ≡ ProxyAsks env w =
        λ i. AtMostOne ((b.names.1 ∙ ns) i) (proxy_member_name ((b.names.0 ∙ a.names.0) i)) in
      let steps = subst (λ P. P b.asks) stores b.fits in
      let one = subst (λ P. P x) proxies last in
      let two : asked w2.calls ≡ b.asks ++ (a.asks ++ asked w.calls) =
        b.is_asked ∙ ap (λ l. b.asks ++ l) a.is_asked in
      elim (sync-ends env w) [
        | inl e ↦ (a.asks, [], [], e.3 ∙ a.is_asked, a.fits, inl refl, inl refl)
        | inr (inl e) ↦ (a.asks, b.asks, [], e.3 ∙ two, a.fits, steps, inl refl)
        | inr (inr e) ↦ (a.asks, b.asks, x, e.3 ∙ c ∙ ap (λ l. x ++ l) two, a.fits, steps, one)
      ]
