-- ===== src/Meta/Sync/Written.antt =====
-- What the syncs of labels write to claims and volumes, in the cache and in requests.
use elasticell_operator.Base.{
  String, Bool, true, false, ◌&&◌, ◌≡◌, ◌⊎◌, inl, inr, some, List, [], ◌∷◌, ◌==◌, eq_iff,
  Bool-cases, arith,
}
use elasticell_operator.Api.Objects.{Pod, Pvc, Pv}
use elasticell_operator.Effects.{
  update_pvc, update_pv_meta, World, Env, ok, find, pvc_at, pv_at, request,
}
use elasticell_operator.Member.StoreScaler.{edit_pvcs}
use elasticell_operator.Controls.PodMeta
use elasticell_operator.Controls.PodMeta.{write_ids}
use elasticell_operator.Controls.ClaimMeta
use elasticell_operator.Controls.ClaimMeta.{made}
use elasticell_operator.Controls.Volumes
use elasticell_operator.Controls.Volumes.{edit_pvs, relabel_volume}

find-holds : {A : Type 0} (p : A → Bool) (xs : List A) (a : A) → find p xs ≡ some a → p a ≡ true
find-holds p [] a h = ground arith
find-holds p (x ∷ xs) a h = elim (Bool-cases (p x)) [
  | inl t ↦ ground arith
  | inr f ↦ find-holds p xs a (ground arith)
]

-- The lister finds the new claim in the place of the old one.
find-edit_pvcs :
    (ns n : String) (old new : Pvc) (ps : List Pvc)
    → find (λ (p : Pvc). p.name == n && p.namespace == ns) ps ≡ some old
    → new.name ≡ old.name
    → new.namespace ≡ old.namespace
    → find (λ (p : Pvc). p.name == n && p.namespace == ns) (edit_pvcs old new ps) ≡ some new
find-edit_pvcs ns n old new [] f en es = ground arith
find-edit_pvcs ns n old new (p ∷ ps) f en es = ground (
  arith,
  eq_iff p.name n,
  eq_iff p.namespace ns,
  eq_iff p.name old.name,
  eq_iff p.namespace old.namespace,
  eq_iff new.name n,
  eq_iff new.namespace ns,
  eq_iff old.name n,
  eq_iff old.namespace ns,
  find-holds (λ (x : Pvc). x.name == n && x.namespace == ns) ps old,
  find-edit_pvcs ns n old new ps,
)

find-edit_pvs :
    (n : String) (old new : Pv) (vs : List Pv)
    → find (λ (v : Pv). v.name == n) vs ≡ some old
    → new.name ≡ old.name
    → find (λ (v : Pv). v.name == n) (edit_pvs old new vs) ≡ some new
find-edit_pvs n old new [] f e = ground arith
find-edit_pvs n old new (v ∷ vs) f e = ground (
  arith,
  eq_iff v.name n,
  eq_iff v.name old.name,
  eq_iff new.name n,
  eq_iff old.name n,
  find-holds (λ (x : Pv). x.name == n) vs old,
  find-edit_pvs n old new vs,
)

abbrev pub claim_after : Pvc → Pod → Pvc
claim_after pvc pod = elim (ClaimMeta.is_synced pvc pod) [
  | true ↦ record pvc { annotations = some (made pvc.annotations) }
  | false ↦ ClaimMeta.with_meta pvc pod
]

abbrev pub volume_after : String → Pvc → Pv → Pv
volume_after ns pvc pv = elim (Volumes.is_synced ns pvc pv) [
  | true ↦ pv
  | false ↦ Volumes.with_meta ns pvc pv
]

module _ (env : Env) where
  pub pod_step :
      (p : Pod) (w : World)
      → let w1 = (PodMeta.update_meta_info env p w).1 in
        (w1.pvcs ≡ w.pvcs) × (w1.pvs ≡ w.pvs) × (w1.cc ≡ w.cc)
  unfolding PodMeta.update_meta_info write_ids request
  pod_step p w = ground arith

  pub claim_step :
      (c : Pvc) (p : Pod) (w : World)
      → let w1 = (ClaimMeta.update_meta_info env c p w).1 in
        (w1.pvcs ≡ edit_pvcs c (claim_after c p) w.pvcs)
        × (w1.pvs ≡ w.pvs)
        × (w1.cc ≡ w.cc)
        × (((claim_after c p).labels ≡ c.labels) × (w1.calls ≡ w.calls)
            ⊎ (w1.calls ≡ update_pvc (claim_after c p) ∷ w.calls))
  unfolding ClaimMeta.update_meta_info request
  claim_step c p w = ground arith

  volume_found :
      (ns n : String) (c : Pvc) (pv : Pv) (vs : List Pv)
      → pv_at env n vs ≡ ok pv
      → pv_at env n (edit_pvs pv (Volumes.with_meta ns c pv) vs) ≡ ok (Volumes.with_meta ns c pv)
  unfolding pv_at Volumes.with_meta
  volume_found ns n c pv vs h = ground (arith, find-edit_pvs n pv (Volumes.with_meta ns c pv) vs)

  pub volume_step :
      (pv : Pv) (n name : String) (c : Pvc) (w : World)
      → pv.claim_ref ≡ some name
      → pvc_at env w.cc.namespace name w.pvcs ≡ ok c
      → pv_at env n w.pvs ≡ ok pv
      → let w1 = (relabel_volume env pv w).1 in
        let v = volume_after w.cc.namespace c pv in
        (w1.pvcs ≡ w.pvcs)
        × (pv_at env n w1.pvs ≡ ok v)
        × ((v ≡ pv) × (w1.calls ≡ w.calls) ⊎ (w1.calls ≡ update_pv_meta v ∷ w.calls))
  unfolding relabel_volume request
  volume_step pv n name c w ref found listed =
      ground (arith, volume_found w.cc.namespace n c pv w.pvs)

  pub claim_found :
      (ns n : String) (c : Pvc) (p : Pod) (ps : List Pvc)
      → pvc_at env ns n ps ≡ ok c
      → pvc_at env ns n (edit_pvcs c (claim_after c p) ps) ≡ ok (claim_after c p)
  unfolding pvc_at ClaimMeta.with_meta
  claim_found ns n c p ps h = ground (arith, find-edit_pvcs ns n c (claim_after c p) ps)
