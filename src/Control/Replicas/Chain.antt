-- ===== src/Control/Replicas/Chain.antt =====
-- The stages of a sync one after another, with what stands between them.
use elasticell_operator.Base.{
  ◌≡◌, refl, sym, ◌∙◌, subst, ap, ◌⊎◌, inl, inr, String, List, [], ◌++◌, arith,
}
use elasticell_operator.Api.Objects.{StatefulSet}
use elasticell_operator.Names.{pd_member_name, store_member_name, proxy_member_name}
use elasticell_operator.Effects.{Error, Result, ok, err, World, Env, set_at, request}
use elasticell_operator.Member.Update.Asked.{Ask, asked, Same}
use elasticell_operator.Member.PdManager
use elasticell_operator.Member.StoreManager
use elasticell_operator.Member.ProxyManager
use elasticell_operator.Meta.Reclaim
use elasticell_operator.Member.Orphans
use elasticell_operator.Member.ServiceSync.{
  sync_pd_service, sync_pd_headless_service, sync_store_headless_service,
}
use elasticell_operator.Control.{sync_pd, sync_store, sync_proxy, sync_cluster, update_cell_cluster}
use elasticell_operator.Member.Builders.PdSet.{get_new_pd_set}
use elasticell_operator.Member.Builders.StoreSet.{get_new_set}
use elasticell_operator.Member.Builders.ProxySet.{get_new_proxy_set}
use elasticell_operator.Control.Replicas.Stages.{
  Keeps, Steps, AtMostOne, Stage, Same-Stage, pd_found-Stage, store_found-Stage, proxy_found-Stage,
}
use elasticell_operator.Control.Replicas.Sets.{cached}
use elasticell_operator.Control.Replicas.Frames.{
  reclaim-Same, clean-Same, pd_service-Same, pd_headless-Same, store_headless-Same, meta-Same,
}

module _ (env : Env) where
  abbrev pub pd_found : World → Result StatefulSet
  pd_found w = set_at env w.cc.namespace (pd_member_name w.cc.name) w.sets

  abbrev pub store_found : World → Result StatefulSet
  store_found w = set_at env w.cc.namespace (store_member_name w.cc.name) w.sets

  -- What may be asked of PD's StatefulSet, and of the stores'.
  abbrev pub PdAsks : World → List Ask → Type 0
  PdAsks w = Keeps w.cc.namespace (pd_member_name w.cc.name) (pd_found w)

  abbrev pub StoreAsks : World → List Ask → Type 0
  StoreAsks w = Steps w.cc.namespace (store_member_name w.cc.name) (store_found w)

  abbrev pub ProxyAsks : World → List Ask → Type 0
  ProxyAsks w = AtMostOne w.cc.namespace (proxy_member_name w.cc.name)

  drafted :
      (P : List Ask → Type 0) (name : String) (w v : World) (d : StatefulSet)
      → Stage env P name (record w { draft = d }) v
      → Stage env P name w v
  drafted P name w v d s = record {
    asks = s.asks;
    is_asked = s.is_asked;
    fits = s.fits;
    names = s.names;
    others = s.others;
  }

  Result-cases :
      (r : Result StatefulSet) → ((e : Error) × (r ≡ err e)) ⊎ ((s : StatefulSet) × (r ≡ ok s))
  Result-cases (err e) = inl (e, refl)
  Result-cases (ok s) = inr (s, refl)

  pub pd_set-ends :
      (w : World)
      → let v = (PdManager.sync_pd_stateful_set env w).1 in
        (v ≡ w)
        ⊎ ((new : StatefulSet) × (v
              ≡ (PdManager.sync_found env new (pd_found w) (record w { draft = new })).1))
  unfolding PdManager.sync_pd_stateful_set
  pd_set-ends w = elim (Result-cases (get_new_pd_set env w.cc)) [
    | inl (e, h) ↦ inl (ground arith)
    | inr (new, h) ↦ inr (new, ground arith)
  ]

  pd_set-Stage :
      (w : World)
      → Stage env (PdAsks w) (pd_member_name w.cc.name) w (PdManager.sync_pd_stateful_set env w).1
  pd_set-Stage w = elim (pd_set-ends w) [
    | inl e ↦ Same-Stage env (PdAsks w) _ w _ (inl refl) (ground (arith, e))
    | inr (new, e) ↦ subst (Stage env (PdAsks w) (pd_member_name w.cc.name) w) (sym e) (
        drafted (PdAsks w) _ w _ new (
          pd_found-Stage env w.cc.namespace (pd_member_name w.cc.name) new
            (record w { draft = new }) (pd_found w) refl))
  ]

  store_set-ends :
      (w : World)
      → let v = (StoreManager.sync_store_stateful_set env w).1 in
        (v ≡ w)
        ⊎ ((new : StatefulSet) × (v
              ≡ (StoreManager.sync_found env new (store_found w) (record w { draft = new })).1))
  unfolding StoreManager.sync_store_stateful_set
  store_set-ends w = elim (Result-cases (get_new_set env w.cc)) [
    | inl (e, h) ↦ inl (ground arith)
    | inr (new, h) ↦ inr (new, ground arith)
  ]

  store_set-Stage :
      (w : World)
      → Stage env
          (StoreAsks w)
          (store_member_name w.cc.name)
          w
          (StoreManager.sync_store_stateful_set env w).1
  store_set-Stage w = elim (store_set-ends w) [
    | inl e ↦ Same-Stage env (StoreAsks w) _ w _ (inl refl) (ground (arith, e))
    | inr (new, e) ↦ subst (Stage env (StoreAsks w) (store_member_name w.cc.name) w) (sym e) (
        drafted (StoreAsks w) _ w _ new (
          store_found-Stage env w.cc.namespace (store_member_name w.cc.name) new
            (record w { draft = new }) (store_found w) refl))
  ]

  pub proxy_set-Stage :
      (w : World)
      → Stage env
          (ProxyAsks w)
          (proxy_member_name w.cc.name)
          w
          (ProxyManager.sync_proxy_stateful_set env w).1
  unfolding ProxyManager.sync_proxy_stateful_set
  proxy_set-Stage w =
      let new = get_new_proxy_set env w.cc in
      let name = proxy_member_name w.cc.name in
      drafted (ProxyAsks w) name w _ new (
        proxy_found-Stage env w.cc.namespace name new (record w { draft = new })
          (set_at env w.cc.namespace name w.sets) refl)

  -- What leaves the StatefulSets alone may stand before a stage.
  Same-asks : (w v : World) → Same w v → (PdAsks v ≡ PdAsks w) × (StoreAsks v ≡ StoreAsks w)
  Same-asks w v same = (
    λ i.
        let name = pd_member_name (same.1 i) in
        Keeps (same.2 i) name (set_at env (same.2 i) name (same.0 i)),
    λ i.
        let name = store_member_name (same.1 i) in
        Steps (same.2 i) name (set_at env (same.2 i) name (same.0 i)),
  )

  pub before :
      (P : List Ask → Type 0) (name name' : String) (w v u : World)
      → Same w v
      → name' ≡ name
      → Stage env P name' v u
      → Stage env P name w u
  before P name name' w v u same e s = record {
    asks = s.asks;
    is_asked = s.is_asked ∙ ap (λ l. s.asks ++ l) same.3;
    fits = s.fits;
    names = (s.names.0 ∙ same.1, s.names.1 ∙ same.2);
    others = λ ns n d. s.others ns n (λ h. d (sym e ∙ h)) ∙ ap (cached ns n) same.0;
  }

  pub pd-ends :
      (w : World)
      → let v = (sync_pd env w).1 in
        Same w v ⊎ ((u : World) × Same w u × (v ≡ (PdManager.sync_pd_stateful_set env u).1))
  unfolding sync_pd PdManager.sync
  pd-ends w =
      let w1 = (Reclaim.sync env w).1 in
      let w2 = (Orphans.clean env w1).1 in
      let w3 = (sync_pd_service env w2).1 in
      let w4 = (sync_pd_headless_service env w3).1 in
      let ended : (Same w (sync_pd env w).1)
          ⊎ (Same w w4 × ((sync_pd env w).1 ≡ (PdManager.sync_pd_stateful_set env w4).1)) =
        ground (
          arith,
          reclaim-Same env w,
          clean-Same env w1,
          pd_service-Same env w2,
          pd_headless-Same env w3,
        ) in
      elim ended [ inl s ↦ inl s | inr (s, e) ↦ inr (w4, s, e) ]

  pub pd-Stage : (w : World) → Stage env (PdAsks w) (pd_member_name w.cc.name) w (sync_pd env w).1
  pd-Stage w = elim (pd-ends w) [
    | inl s ↦ Same-Stage env (PdAsks w) _ w _ (inl refl) s
    | inr (u, s, e) ↦ subst (Stage env (PdAsks w) (pd_member_name w.cc.name) w) (sym e) (
        before (PdAsks w) _ _ w u _ s (ap pd_member_name s.1) (
          subst
            (λ P. Stage env P (pd_member_name u.cc.name) u (PdManager.sync_pd_stateful_set env u).1)
            (Same-asks w u s).0 (pd_set-Stage u)))
  ]

  store-ends :
      (w : World)
      → let v = (StoreManager.sync env w).1 in
        Same w v ⊎ ((u : World) × Same w u × (v ≡ (StoreManager.sync_store_stateful_set env u).1))
  unfolding StoreManager.sync
  store-ends w =
      let u = (sync_store_headless_service env w).1 in
      let ended : (Same w (StoreManager.sync env w).1)
          ⊎ (Same w u
              × ((StoreManager.sync env w).1 ≡ (StoreManager.sync_store_stateful_set env u).1)) =
        ground (arith, store_headless-Same env w) in
      elim ended [ inl s ↦ inl s | inr (s, e) ↦ inr (u, s, e) ]

  pub store-Stage :
      (w : World)
      → Stage env (StoreAsks w) (store_member_name w.cc.name) w (StoreManager.sync env w).1
  store-Stage w = elim (store-ends w) [
    | inl s ↦ Same-Stage env (StoreAsks w) _ w _ (inl refl) s
    | inr (u, s, e) ↦ subst (Stage env (StoreAsks w) (store_member_name w.cc.name) w) (sym e) (
        before (StoreAsks w) _ _ w u _ s (ap store_member_name s.1) (
          subst
            (λ P.
              Stage env P (store_member_name u.cc.name) u
                (StoreManager.sync_store_stateful_set env u).1)
            (Same-asks w u s).1 (store_set-Stage u)))
  ]

  -- The proxies and, after them, the labels.
  pub proxy-asks :
      (w : World)
      → let v = (sync_proxy env w).1 in
        (x : List Ask) × (asked v.calls ≡ x ++ asked w.calls) × ProxyAsks w x
  unfolding sync_proxy ProxyManager.sync
  proxy-asks w =
      let s = proxy_set-Stage w in
      let u = (ProxyManager.sync_proxy_stateful_set env w).1 in
      let ended : (asked (sync_proxy env w).1.calls ≡ asked w.calls)
          ⊎ (asked (sync_proxy env w).1.calls ≡ asked u.calls) =
        ground (arith, meta-Same env w, meta-Same env u) in
      elim ended [ inl e ↦ ([], e, inl refl) | inr e ↦ (s.asks, e ∙ s.is_asked, s.fits) ]

  -- Where a sync stops.
  pub sync-ends :
      (w : World)
      → let w1 = (sync_pd env w).1 in
        let w2 = (StoreManager.sync env w1).1 in
        let v = (update_cell_cluster env w).1 in
        Same w1 v ⊎ Same w2 v ⊎ Same (sync_proxy env w2).1 v
  unfolding update_cell_cluster sync_cluster sync_store request asked
  sync-ends w = ground arith
