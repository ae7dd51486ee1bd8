-- ===== src/Meta/Sync/Flows.antt =====
-- The ids of a pod reach its claim and its volume in one sync (meta_manager.go with the controls).
use elasticell_operator.Base.{
  String, true, ◌≡◌, ◌≢◌, ◌⊎◌, inl, inr, some, List, ◌∷◌, ◌==◌, eq_iff, Bool-cases, Any, refl,
  subst, ap, sym, ◌∙◌, arith,
}
use elasticell_operator.Api.Objects.{Pod, Pvc, Pv}
use elasticell_operator.Label
use elasticell_operator.Label.{cluster_id_label_key, member_id_label_key, store_id_label_key}
use elasticell_operator.Effects.{Call, update_pvc, update_pv_meta, World, Env, ok, pvc_at, pv_at}
use elasticell_operator.Controls.PodMeta
use elasticell_operator.Controls.PodMeta.{write_ids}
use elasticell_operator.Controls.ClaimMeta
use elasticell_operator.Controls.ClaimMeta.{made}
use elasticell_operator.Controls.Volumes
use elasticell_operator.Controls.Volumes.{edit_pvs, relabel_volume}
use elasticell_operator.Controls.ClaimMeta.Again.{cluster_again, member_again, store_again}
use elasticell_operator.Controls.Volumes.Again.{cluster_id_same, member_id_same, store_id_same}
use elasticell_operator.Meta.Sync.{
  claim_name, uses_volume, resolve_pvc, sync_volume, sync_pod, real, current,
}
use elasticell_operator.Meta.Sync.Written.{
  claim_after, volume_after, pod_step, claim_step, volume_step, claim_found,
}

-- Where the pod has an id, its claim then has it, and where the claim has one, its volume does.
abbrev pub Passed : String → Pod → Pvc → Pv → Type 0
Passed key p c v =
    (Label.get key p.labels ≡ "")
    ⊎ ((Label.get key c.labels ≡ Label.get key p.labels)
        × (Label.get key v.labels ≡ Label.get key p.labels))

module _ (ns : String) (c : Pvc) (p : Pod) (v : Pv) where
  claim_synced :
      ClaimMeta.is_synced c p ≡ true
      → (Label.get cluster_id_label_key c.labels ≡ Label.get cluster_id_label_key p.labels)
        × (Label.get member_id_label_key c.labels ≡ Label.get member_id_label_key p.labels)
        × (Label.get store_id_label_key c.labels ≡ Label.get store_id_label_key p.labels)
  unfolding ClaimMeta.is_synced
  claim_synced s = ground (
    arith,
    eq_iff (Label.get cluster_id_label_key c.labels) (Label.get cluster_id_label_key p.labels),
    eq_iff (Label.get member_id_label_key c.labels) (Label.get member_id_label_key p.labels),
    eq_iff (Label.get store_id_label_key c.labels) (Label.get store_id_label_key p.labels),
  )

  volume_synced :
      Volumes.is_synced ns c v ≡ true
      → (Label.get cluster_id_label_key v.labels ≡ Label.get cluster_id_label_key c.labels)
        × (Label.get member_id_label_key v.labels ≡ Label.get member_id_label_key c.labels)
        × (Label.get store_id_label_key v.labels ≡ Label.get store_id_label_key c.labels)
  unfolding Volumes.is_synced
  volume_synced s = ground (
    arith,
    eq_iff (Label.get cluster_id_label_key v.labels) (Label.get cluster_id_label_key c.labels),
    eq_iff (Label.get member_id_label_key v.labels) (Label.get member_id_label_key c.labels),
    eq_iff (Label.get store_id_label_key v.labels) (Label.get store_id_label_key c.labels),
  )

  claim_has :
      (key : String)
      → Label.get key (ClaimMeta.with_meta c p).labels ≡ Label.get key p.labels
      → (ClaimMeta.is_synced c p ≡ true → Label.get key c.labels ≡ Label.get key p.labels)
      → Label.get key (claim_after c p).labels ≡ Label.get key p.labels
  claim_has key new old = elim (Bool-cases (ClaimMeta.is_synced c p)) [
    | inl s ↦ let o = old s in ground arith
    | inr f ↦ ground arith
  ]

  volume_has :
      (key : String)
      → Label.get key (Volumes.with_meta ns c v).labels ≡ Label.get key c.labels
      → (Volumes.is_synced ns c v ≡ true → Label.get key v.labels ≡ Label.get key c.labels)
      → Label.get key (volume_after ns c v).labels ≡ Label.get key c.labels
  volume_has key new old = elim (Bool-cases (Volumes.is_synced ns c v)) [
    | inl s ↦ let o = old s in ground arith
    | inr f ↦ ground arith
  ]

-- The request was made.
abbrev pub Asked : Call → World → Type 0
Asked c w = Any (λ x. x ≡ c) w.calls

abbrev pub IdsPassed : Pod → Pvc → Pv → Type 0
IdsPassed p c v =
    Passed cluster_id_label_key p c v
    × Passed member_id_label_key p c v
    × Passed store_id_label_key p c v

-- An id that is there goes from the pod over the claim to the volume.
id_reaches :
    (key : String) (p : Pod) (c : Pvc) (v : Pv)
    → (Label.get key p.labels ≢ "" → Label.get key c.labels ≡ Label.get key p.labels)
    → (Label.get key c.labels ≢ "" → Label.get key v.labels ≡ Label.get key c.labels)
    → Passed key p c v
id_reaches key p c v first second = elim (Bool-cases (Label.get key p.labels == "")) [
  | inl e ↦ inl ((eq_iff (Label.get key p.labels) "").0 e)
  | inr f ↦
      let n : Label.get key p.labels ≢ "" =
        λ e. ground (arith, (eq_iff (Label.get key p.labels) "").1 e) in
      let one = first n in let two = second (λ e. n (sym one ∙ e)) in inr (one, two ∙ one)
]

ids_passed :
    (ns : String) (c : Pvc) (p : Pod) (v : Pv)
    → let after = claim_after c p in IdsPassed p after (volume_after ns after v)
ids_passed ns c p v =
    let after = claim_after c p in
    (
      id_reaches cluster_id_label_key p after (volume_after ns after v)
          (λ n.
            claim_has ns c p v cluster_id_label_key (cluster_again c p (inl n))
              (λ s. (claim_synced ns c p v s).0))
          (λ n.
            volume_has ns after p v cluster_id_label_key (cluster_id_same ns after v (inl n))
              (λ s. (volume_synced ns after p v s).0)),
      id_reaches member_id_label_key p after (volume_after ns after v)
          (λ n.
            claim_has ns c p v member_id_label_key (member_again c p (inl n))
              (λ s. (claim_synced ns c p v s).1))
          (λ n.
            volume_has ns after p v member_id_label_key (member_id_same ns after v (inl n))
              (λ s. (volume_synced ns after p v s).1)),
      id_reaches store_id_label_key p after (volume_after ns after v)
          (λ n.
            claim_has ns c p v store_id_label_key (store_again c p (inl n))
              (λ s. (claim_synced ns c p v s).2))
          (λ n.
            volume_has ns after p v store_id_label_key (store_id_same ns after v (inl n))
              (λ s. (volume_synced ns after p v s).2)),
    )

module _ (env : Env) (p : Pod) (w : World) where
  -- The pod as `UpdateMetaInfo` leaves it.
  abbrev pub labelled : Pod
  labelled = current p (PodMeta.update_meta_info env p w).1.pods

  abbrev pub claim_of : String
  claim_of = claim_name labelled.volumes ""

  world_after :
      (w' : World) (c : Pvc) (pv : Pv)
      → uses_volume labelled ≡ true
      → pvc_at env labelled.namespace claim_of w.pvcs ≡ ok c
      → c.volume_name ≢ ""
      → pv_at env c.volume_name w.pvs ≡ ok pv
      → sync_pod env (real env) p w ≡ (ok tt, w')
      → let w1 = (PodMeta.update_meta_info env p w).1 in
        let w2 = (ClaimMeta.update_meta_info env c labelled w1).1 in
        w' ≡ (relabel_volume env pv w2).1
  unfolding sync_pod resolve_pvc sync_volume
  world_after w' c pv uses found bound listed h =
      let w1 = (PodMeta.update_meta_info env p w).1 in
      ground (arith, pod_step env p w, claim_step env c labelled w1, eq_iff c.volume_name "")

  asked_first :
      (c' : Pvc) (v' : Pv) (c : Pvc) (v : Pv) (calls calls1 calls2 : List Call)
      → ((c'.labels ≡ c.labels) × (calls1 ≡ calls)) ⊎ (calls1 ≡ update_pvc c' ∷ calls)
      → ((v' ≡ v) × (calls2 ≡ calls1)) ⊎ (calls2 ≡ update_pv_meta v' ∷ calls1)
      → ((c'.labels ≡ c.labels) ⊎ Any (λ x. x ≡ update_pvc c') calls2)
        × ((v' ≡ v) ⊎ Any (λ x. x ≡ update_pv_meta v') calls2)
  asked_first c' v' c v calls calls1 calls2 (inl (same, e)) (inl (kept, f)) = (inl same, inl kept)
  asked_first c' v' c v calls calls1 calls2 (inl (same, e)) (inr f) =
      (inl same, inr (subst (Any (λ x. x ≡ update_pv_meta v')) (sym f) (inl refl)))
  asked_first c' v' c v calls calls1 calls2 (inr e) (inl (kept, f)) =
      (inr (subst (Any (λ x. x ≡ update_pvc c')) (sym (f ∙ e)) (inl refl)), inl kept)
  asked_first c' v' c v calls calls1 calls2 (inr e) (inr f) = (
    inr (
        subst (Any (λ x. x ≡ update_pvc c')) (sym (f ∙ ap (λ l. update_pv_meta v' ∷ l) e))
          (inr (inl refl))),
    inr (subst (Any (λ x. x ≡ update_pv_meta v')) (sym f) (inl refl)),
  )

  -- If the labels of a pod of PD or of a store are synced without an error, the pod is in the
  -- cluster's namespace, its claim exists and is bound to a volume that refers to the claim, then
  -- claim and volume have every id that the pod has then, also the ids that PD gave in this sync:
  -- in the cache, and unless they had these labels before, in an update that the API server was
  -- asked for.
  pub sync_pod_passes_ids :
      (w' : World) (c : Pvc) (pv : Pv)
      → uses_volume labelled ≡ true
      → labelled.namespace ≡ w.cc.namespace
      → pvc_at env labelled.namespace claim_of w.pvcs ≡ ok c
      → c.volume_name ≢ ""
      → pv_at env c.volume_name w.pvs ≡ ok pv
      → pv.claim_ref ≡ some claim_of
      → sync_pod env (real env) p w ≡ (ok tt, w')
      → (c' : Pvc) × (v' : Pv) × (pvc_at env labelled.namespace claim_of w'.pvcs ≡ ok c')
        × (pv_at env c.volume_name w'.pvs ≡ ok v')
        × IdsPassed labelled c' v'
        × ((c'.labels ≡ c.labels) ⊎ Asked (update_pvc c') w')
        × ((v' ≡ pv) ⊎ Asked (update_pv_meta v') w')
  sync_pod_passes_ids w' c pv uses ns found bound listed ref h =
      let w1 = (PodMeta.update_meta_info env p w).1 in
      let w2 = (ClaimMeta.update_meta_info env c labelled w1).1 in
      let c' = claim_after c labelled in
      let v' = volume_after w.cc.namespace c' pv in
      let one = pod_step env p w in
      let two = claim_step env c labelled w1 in
      let e = world_after w' c pv uses found bound listed h in
      let there : pvc_at env labelled.namespace claim_of w2.pvcs ≡ ok c' =
        ground (arith, claim_found env labelled.namespace claim_of c labelled w.pvcs found) in
      let three =
        volume_step env pv c.volume_name claim_of c' w2 ref (ground arith) (ground arith) in
      let w3 = (relabel_volume env pv w2).1 in
      let volume_same : volume_after w2.cc.namespace c' pv ≡ v' = ground arith in
      let volume_asked =
        subst (λ v. ((v ≡ pv) × (w3.calls ≡ w2.calls)) ⊎ (w3.calls ≡ update_pv_meta v ∷ w2.calls))
          volume_same three.2 in
      let (claim_sent, volume_sent) =
        asked_first c' v' c pv w1.calls w2.calls w3.calls two.3 volume_asked in
      (
        c',
        v',
        ground arith,
        ground arith,
        ids_passed w.cc.namespace c labelled pv,
        subst (λ z. (c'.labels ≡ c.labels) ⊎ Asked (update_pvc c') z) (sym e) claim_sent,
        subst (λ z. (v' ≡ pv) ⊎ Asked (update_pv_meta v') z) (sym e) volume_sent,
      )
