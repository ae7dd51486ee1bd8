-- ===== src/Control/Replicas/Stages.antt =====
-- The three stages of a sync that update a StatefulSet (the three managers).
use elasticell_operator.Base.{
  ◌≡◌, ◌≢◌, refl, sym, ◌∙◌, ap, ◌⊎◌, inl, inr, String, ℤ, add32, List, [], ◌∷◌, ◌++◌, arith,
}
use elasticell_operator.Api.Objects.{StatefulSet}
use elasticell_operator.Effects.{Error, Result, ok, err, World, Env, set_at, request}
use elasticell_operator.Member.Update.{create_stateful_set}
use elasticell_operator.Member.Update.Asked.{Ask, ask_for, asked, Same, update-asked}
use elasticell_operator.Member.PdManager
use elasticell_operator.Member.PdManager.NoScale.{
  update_pd_set_never_scales, pd_status-Same, pd_upgrade-Same,
}
use elasticell_operator.Member.StoreManager
use elasticell_operator.Member.StoreManager.Replicas.{
  update_store_set_steps, store_status-Same, store_upgrade-Same, clamp-Same,
}
use elasticell_operator.Member.ProxyManager
use elasticell_operator.Control.Replicas.Sets.{
  cached, SameNames, set_at-name, set_at-namespace, update-SameNames, update-other,
  proxy_status-Same, proxy_upgrade-Same,
}

-- No update, or one of the StatefulSet of the name, which is cached, to as many replicas.
abbrev pub Keeps : String → String → Result StatefulSet → List Ask → Type 0
Keeps ns name found p =
    (p ≡ []) ⊎ ((old : StatefulSet) × (found ≡ ok old) × (p ≡ (ns, name, old.spec.replicas) ∷ []))

-- No update, or one of the StatefulSet of the name, which is cached, to as many replicas or to one
-- more.
abbrev pub Steps : String → String → Result StatefulSet → List Ask → Type 0
Steps ns name found p =
    (p ≡ [])
    ⊎ ((old : StatefulSet) × (found ≡ ok old)
        × ((p ≡ (ns, name, old.spec.replicas) ∷ [])
            ⊎ (p ≡ (ns, name, add32 old.spec.replicas 1) ∷ [])))

-- No update, or one of the StatefulSet of the name.
abbrev pub AtMostOne : String → String → List Ask → Type 0
AtMostOne ns name p = (p ≡ []) ⊎ ((n : ℤ) × (p ≡ (ns, name, n) ∷ []))

module _ (env : Env) where
  -- A stage that updates the StatefulSet `name` at most, and asks for `p`.
  pub record Stage (P : List Ask → Type 0) (name : String) (w v : World) : Type 0 where
    pub asks : List Ask
    pub is_asked : asked v.calls ≡ asks ++ asked w.calls
    pub fits : P asks
    pub names : SameNames env w v
    pub others : (ns n : String) → name ≢ n → cached ns n v.sets ≡ cached ns n w.sets

  pd_update-names :
      (old : StatefulSet) (w : World) → SameNames env w (PdManager.update_pd_set env old w).1
  unfolding PdManager.update_pd_set PdManager.update_unless_scaled
  pd_update-names old w =
      let w1 = (PdManager.sync_pd_status env old w).1 in
      let w2 = (PdManager.upgrade_if_needed env old w1).1 in
      ground
        (arith, pd_status-Same env old w, pd_upgrade-Same env old w1, update-SameNames env old w2)

  pd_update-other :
      (ns n : String) (old : StatefulSet) (w : World)
      → old.name ≢ n
      → cached ns n (PdManager.update_pd_set env old w).1.sets ≡ cached ns n w.sets
  unfolding PdManager.update_pd_set PdManager.update_unless_scaled
  pd_update-other ns n old w d =
      let w1 = (PdManager.sync_pd_status env old w).1 in
      let w2 = (PdManager.upgrade_if_needed env old w1).1 in
      ground (
        arith,
        pd_status-Same env old w,
        pd_upgrade-Same env old w1,
        update-other env ns n old w2 d,
      )

  store_update-names :
      (old : StatefulSet) (w : World) → SameNames env w (StoreManager.update_store_set env old w).1
  unfolding StoreManager.update_store_set
  store_update-names old w =
      let w1 = (StoreManager.sync_store_status env old w).1 in
      let w2 = (StoreManager.upgrade_if_needed env old w1).1 in
      let w3 = (StoreManager.scale_out_if_more env old w2).1 in
      let w4 = (StoreManager.keep_if_less env old w3).1 in
      ground (
        arith,
        store_status-Same env old w,
        store_upgrade-Same env old w1,
        clamp-Same env old w2,
        clamp-Same env old w3,
        update-SameNames env old w4,
      )

  store_update-other :
      (ns n : String) (old : StatefulSet) (w : World)
      → old.name ≢ n
      → cached ns n (StoreManager.update_store_set env old w).1.sets ≡ cached ns n w.sets
  unfolding StoreManager.update_store_set
  store_update-other ns n old w d =
      let w1 = (StoreManager.sync_store_status env old w).1 in
      let w2 = (StoreManager.upgrade_if_needed env old w1).1 in
      let w3 = (StoreManager.scale_out_if_more env old w2).1 in
      let w4 = (StoreManager.keep_if_less env old w3).1 in
      ground (
        arith,
        store_status-Same env old w,
        store_upgrade-Same env old w1,
        clamp-Same env old w2,
        clamp-Same env old w3,
        update-other env ns n old w4 d,
      )

  proxy_update-asked :
      (old : StatefulSet) (w : World)
      → let w2 =
          (ProxyManager.upgrade_if_needed env old (ProxyManager.sync_proxy_status env old w).1).1 in
        let after = asked (ProxyManager.update_proxy_set env old w).1.calls in
        (after ≡ asked w.calls) ⊎ (after ≡ ask_for old w2.draft.spec.replicas ∷ asked w.calls)
  unfolding ProxyManager.update_proxy_set
  proxy_update-asked old w =
      let w1 = (ProxyManager.sync_proxy_status env old w).1 in
      let w2 = (ProxyManager.upgrade_if_needed env old w1).1 in
      ground
        (arith, proxy_status-Same env old w, proxy_upgrade-Same env old w1, update-asked env old w2)

  proxy_update-names :
      (old : StatefulSet) (w : World) → SameNames env w (ProxyManager.update_proxy_set env old w).1
  unfolding ProxyManager.update_proxy_set
  proxy_update-names old w =
      let w1 = (ProxyManager.sync_proxy_status env old w).1 in
      let w2 = (ProxyManager.upgrade_if_needed env old w1).1 in
      ground (
        arith,
        proxy_status-Same env old w,
        proxy_upgrade-Same env old w1,
        update-SameNames env old w2,
      )

  pub Same-Stage :
      (P : List Ask → Type 0) (name : String) (w v : World) → P [] → Same w v → Stage P name w v
  Same-Stage P name w v nothing same = record {
    asks = [];
    is_asked = same.3;
    fits = nothing;
    names = (same.1, same.2);
    others = λ ns n d. ap (cached ns n) same.0;
  }

  pd_created-Same : (new : StatefulSet) (w : World) → Same w (PdManager.create_pd_set env new w).1
  unfolding PdManager.create_pd_set create_stateful_set request asked
  pd_created-Same new w = ground arith

  store_created-Same :
      (new : StatefulSet) (w : World) → Same w (StoreManager.create_store_set env new w).1
  unfolding StoreManager.create_store_set create_stateful_set request asked
  store_created-Same new w = ground arith

  proxy_update-other :
      (ns n : String) (old : StatefulSet) (w : World)
      → old.name ≢ n
      → cached ns n (ProxyManager.update_proxy_set env old w).1.sets ≡ cached ns n w.sets
  unfolding ProxyManager.update_proxy_set
  proxy_update-other ns n old w d =
      let w1 = (ProxyManager.sync_proxy_status env old w).1 in
      let w2 = (ProxyManager.upgrade_if_needed env old w1).1 in
      ground (
        arith,
        proxy_status-Same env old w,
        proxy_upgrade-Same env old w1,
        update-other env ns n old w2 d,
      )

  proxy_created-Same :
      (new : StatefulSet) (w : World) → Same w (ProxyManager.create_proxy_set env new w).1
  unfolding ProxyManager.create_proxy_set create_stateful_set request asked
  proxy_created-Same new w = ground arith

  updated-Stage :
      (P : List Ask → Type 0) (name : String) (old : StatefulSet) (w v : World) (p : List Ask)
      → old.name ≡ name
      → asked v.calls ≡ p ++ asked w.calls
      → P p
      → SameNames env w v
      → ((ns n : String) → old.name ≢ n → cached ns n v.sets ≡ cached ns n w.sets)
      → Stage P name w v
  updated-Stage P name old w v p named is_asked fits names others = record {
    asks = p;
    is_asked = is_asked;
    fits = fits;
    names = names;
    others = λ ns n d. others ns n (λ e. d (sym named ∙ e));
  }

  module _ (ns name : String) (new : StatefulSet) (w : World) where
    -- The cached StatefulSet has the name it was looked up by.
    called :
        (old : StatefulSet)
        → set_at env ns name w.sets ≡ ok old
        → (n : ℤ) → (ask_for old n ∷ []) ≡ ((ns, name, n) ∷ [])
    called old found n i =
        (
          set_at-namespace env ns name w.sets old found i,
          set_at-name env ns name w.sets old found i,
          n,
        )
        ∷ []

    pub pd_missing-Same : (e : Error) → Same w (PdManager.sync_found env new (err e) w).1
    pd_missing-Same e = ground (arith, pd_created-Same new w)

    store_missing-Same : (e : Error) → Same w (StoreManager.sync_found env new (err e) w).1
    store_missing-Same e = ground (arith, store_created-Same new w)

    proxy_missing-Same : (e : Error) → Same w (ProxyManager.sync_found env new (err e) w).1
    proxy_missing-Same e = ground (arith, proxy_created-Same new w)

    pub pd_found-Stage :
        (r : Result StatefulSet)
        → set_at env ns name w.sets ≡ r
        → Stage (Keeps ns name r) name w (PdManager.sync_found env new r w).1
    pd_found-Stage (ok old) found =
        let v = (PdManager.update_pd_set env old w).1 in
        let done : (p : List Ask)
            → asked v.calls ≡ p ++ asked w.calls
            → Keeps ns name (ok old) p
            → Stage (Keeps ns name (ok old)) name w v =
          λ p e fit.
            updated-Stage (Keeps ns name (ok old)) name old w v p
              (set_at-name env ns name w.sets old found) e fit (pd_update-names old w)
              (λ ns n. pd_update-other ns n old w) in
        elim (update_pd_set_never_scales env old w) [
          | inl e ↦ done [] e (inl refl)
          | inr e ↦
              done (ask_for old old.spec.replicas ∷ []) e (inr (old, refl, called old found _))
        ]
    pd_found-Stage (err e) found =
        Same-Stage (Keeps ns name (err e)) name w _ (inl refl) (pd_missing-Same e)

    pub store_found-Stage :
        (r : Result StatefulSet)
        → set_at env ns name w.sets ≡ r
        → Stage (Steps ns name r) name w (StoreManager.sync_found env new r w).1
    store_found-Stage (ok old) found =
        let v = (StoreManager.update_store_set env old w).1 in
        let n = old.spec.replicas in
        let done : (p : List Ask)
            → asked v.calls ≡ p ++ asked w.calls
            → Steps ns name (ok old) p
            → Stage (Steps ns name (ok old)) name w v =
          λ p e fit.
            updated-Stage (Steps ns name (ok old)) name old w v p
              (set_at-name env ns name w.sets old found) e fit (store_update-names old w)
              (λ ns n. store_update-other ns n old w) in
        elim (update_store_set_steps env old w) [
          | inl e ↦ done [] e (inl refl)
          | inr (inl e) ↦ done (ask_for old n ∷ []) e (inr (old, refl, inl (called old found n)))
          | inr (inr e) ↦
              done (ask_for old (add32 n 1) ∷ []) e (inr (old, refl, inr (called old found _)))
        ]
    store_found-Stage (err e) found =
        Same-Stage (Steps ns name (err e)) name w _ (inl refl) (store_missing-Same e)

    pub proxy_found-Stage :
        (r : Result StatefulSet)
        → set_at env ns name w.sets ≡ r
        → Stage (AtMostOne ns name) name w (ProxyManager.sync_found env new r w).1
    proxy_found-Stage (ok old) found =
        let v = (ProxyManager.update_proxy_set env old w).1 in
        let done : (p : List Ask)
            → asked v.calls ≡ p ++ asked w.calls
            → AtMostOne ns name p
            → Stage (AtMostOne ns name) name w v =
          λ p e fit.
            updated-Stage (AtMostOne ns name) name old w v p
              (set_at-name env ns name w.sets old found) e fit (proxy_update-names old w)
              (λ ns n. proxy_update-other ns n old w) in
        elim (proxy_update-asked old w) [
          | inl e ↦ done [] e (inl refl)
          | inr e ↦ done (_ ∷ []) e (inr (_, called old found _))
        ]
    proxy_found-Stage (err e) found =
        Same-Stage (AtMostOne ns name) name w _ (inl refl) (proxy_missing-Same e)
