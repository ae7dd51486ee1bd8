-- ===== src/Control/Replicas/Runs.antt =====
-- The replicas of PD over any number of syncs.
use elasticell_operator.Names.Unique.{store-is_not-pd, proxy-is_not-pd}
use elasticell_operator.Member.StoreManager
use elasticell_operator.Member.ProxyManager
use elasticell_operator.Member.Update.Asked.{Same, Ask, asked}
use elasticell_operator.Control.Replicas.Frames.{meta-Same}
use elasticell_operator.Base.{
  ◌≢◌, List, [], ◌∷◌, ◌++◌, ◌≡◌, refl, ◌⊎◌, inl, inr, String, ℤ, Option, none, some, ap, sym, ◌∙◌,
  arith,
}
use elasticell_operator.Api.Objects.{StatefulSet}
use elasticell_operator.Names.{pd_member_name, store_member_name, proxy_member_name}
use elasticell_operator.Control.Replicas.{sync_replicas}
use elasticell_operator.Effects.{Result, ok, err, World, Env, set_at, request}
use elasticell_operator.Member.Update.{update_if_changed, update_stateful_set}
use elasticell_operator.Member.Update.Asked.{eqb_ℤ→eq}
use elasticell_operator.Member.PdManager
use elasticell_operator.Member.PdManager.NoScale.{pd_status-Same, pd_upgrade-Same}
use elasticell_operator.Control.Replicas.Sets.{
  SameNames, cached, cached-set_at, cache_set-same, set_at-name, set_at-namespace,
}
use elasticell_operator.Control.Replicas.Chain.{
  proxy_set-Stage, StoreAsks, ProxyAsks, sync-ends, pd_found, pd-ends, pd_set-ends, store-Stage,
}
use elasticell_operator.Control.Replicas.Stages.{Stage, pd_missing-Same, pd_found-Stage}
use elasticell_operator.Control.{sync_pd, sync_proxy, update_cell_cluster}

abbrev replicas_of : Option StatefulSet → Option ℤ
replicas_of none = none
replicas_of (some set) = some set.spec.replicas

module _ (env : Env) (ns name : String) (old : StatefulSet) where
  update-cached :
      (w : World)
      → old.name ≡ name
      → old.namespace ≡ ns
      → cached ns name w.sets ≡ some old
      → let after = replicas_of (cached ns name (update_if_changed env old w).1.sets) in
        (after ≡ some old.spec.replicas) ⊎ (after ≡ some w.draft.spec.replicas)
  unfolding update_if_changed update_stateful_set request
  update-cached w e f h = grind (arith, cache_set-same, h)

  unscaled-cached :
      (w : World)
      → old.name ≡ name
      → old.namespace ≡ ns
      → cached ns name w.sets ≡ some old
      → replicas_of (cached ns name (PdManager.update_unless_scaled env old w).1.sets)
        ≡ some old.spec.replicas
  unfolding PdManager.update_unless_scaled
  unscaled-cached w e f h =
      ground (arith, h, eqb_ℤ→eq w.draft.spec.replicas old.spec.replicas, update-cached w e f h)

  pd_update-cached :
      (w : World)
      → set_at env ns name w.sets ≡ ok old
      → replicas_of (cached ns name (PdManager.update_pd_set env old w).1.sets)
        ≡ some old.spec.replicas
  unfolding PdManager.update_pd_set
  pd_update-cached w found =
      let w1 = (PdManager.sync_pd_status env old w).1 in
      let w2 = (PdManager.upgrade_if_needed env old w1).1 in
      let h = cached-set_at env ns name w.sets old found in
      let same : w2.sets ≡ w.sets = (pd_upgrade-Same env old w1).0 ∙ (pd_status-Same env old w).0 in
      let h2 = ap (cached ns name) same ∙ h in
      let named = set_at-name env ns name w.sets old found in
      let spaced = set_at-namespace env ns name w.sets old found in
      let last = unscaled-cached w2 named spaced h2 in
      ground (arith, h, h2, last, pd_upgrade-Same env old w1, pd_status-Same env old w)

-- The replicas of the cached StatefulSet of PD.
abbrev pub pd_replicas : World → Option ℤ
pd_replicas w = replicas_of (cached w.cc.namespace (pd_member_name w.cc.name) w.sets)

module _ (env : Env) where
  pd_found-replicas :
      (new : StatefulSet) (r : Result StatefulSet) (ns name : String) (w : World)
      → set_at env ns name w.sets ≡ r
      → replicas_of (cached ns name (PdManager.sync_found env new r w).1.sets)
        ≡ replicas_of (cached ns name w.sets)
  pd_found-replicas new (ok old) ns name w found =
      pd_update-cached env ns name old w found
      ∙ sym (ap replicas_of (cached-set_at env ns name w.sets old found))
  pd_found-replicas new (err e) ns name w found =
      ap (λ l. replicas_of (cached ns name l)) (pd_missing-Same env ns name new w e).0

  at_names :
      (w v : World)
      → SameNames env w v
      → pd_replicas v ≡ replicas_of (cached w.cc.namespace (pd_member_name w.cc.name) v.sets)
  at_names w v names i = replicas_of (cached (names.1 i) (pd_member_name (names.0 i)) v.sets)

  Same-replicas : (w v : World) → Same w v → pd_replicas v ≡ pd_replicas w
  Same-replicas w v same i = replicas_of (cached (same.2 i) (pd_member_name (same.1 i)) (same.0 i))

  Stage-replicas :
      (P : List Ask → Type 0) (name : String) (w v : World)
      → Stage env P name w v
      → name ≢ pd_member_name w.cc.name
      → pd_replicas v ≡ pd_replicas w
  Stage-replicas P name w v s d =
      at_names w v s.names ∙ ap replicas_of (s.others w.cc.namespace (pd_member_name w.cc.name) d)

  pd_stage-replicas : (w : World) → pd_replicas (sync_pd env w).1 ≡ pd_replicas w
  pd_stage-replicas w = elim (pd-ends env w) [
    | inl s ↦ Same-replicas w (sync_pd env w).1 s
    | inr (u, s, e) ↦ elim (pd_set-ends env u) [
      | inl f ↦ ap pd_replicas (e ∙ f) ∙ Same-replicas w u s
      | inr (new, f) ↦
          let v = record u { draft = new } in
          let name = pd_member_name u.cc.name in
          let ns = u.cc.namespace in
          let stage = pd_found-Stage env ns name new v (pd_found env u) refl in
          ap pd_replicas (e ∙ f)
          ∙ at_names v (PdManager.sync_found env new (pd_found env u) v).1 stage.names
          ∙ pd_found-replicas new (pd_found env u) ns name v refl
          ∙ Same-replicas w u s
    ]
  ]

  proxy-ends :
      (w : World)
      → let v = (sync_proxy env w).1 in
        Same w v ⊎ Same (ProxyManager.sync_proxy_stateful_set env w).1 v
  unfolding sync_proxy ProxyManager.sync
  proxy-ends w =
      ground (arith, meta-Same env w, meta-Same env (ProxyManager.sync_proxy_stateful_set env w).1)

  proxy_stage-replicas : (w : World) → pd_replicas (sync_proxy env w).1 ≡ pd_replicas w
  proxy_stage-replicas w = elim (proxy-ends w) [
    | inl s ↦ Same-replicas w (sync_proxy env w).1 s
    | inr s ↦
        Same-replicas (ProxyManager.sync_proxy_stateful_set env w).1 (sync_proxy env w).1 s
        ∙ Stage-replicas (ProxyAsks env w) (proxy_member_name w.cc.name) w
            (ProxyManager.sync_proxy_stateful_set env w).1 (proxy_set-Stage env w)
            (proxy-is_not-pd w.cc.name)
  ]

  store_stage-replicas : (w : World) → pd_replicas (StoreManager.sync env w).1 ≡ pd_replicas w
  store_stage-replicas w =
      Stage-replicas (StoreAsks env w) (store_member_name w.cc.name) w (StoreManager.sync env w).1
        (store-Stage env w) (store-is_not-pd w.cc.name)

  -- A sync leaves the replicas of the cached StatefulSet of PD alone.
  sync-replicas : (w : World) → pd_replicas (update_cell_cluster env w).1 ≡ pd_replicas w
  sync-replicas w =
      let w1 = (sync_pd env w).1 in
      let w2 = (StoreManager.sync env w1).1 in
      let v = (update_cell_cluster env w).1 in
      let one = pd_stage-replicas w in
      let two = store_stage-replicas w1 ∙ one in
      elim (sync-ends env w) [
        | inl s ↦ Same-replicas w1 v s ∙ one
        | inr (inl s) ↦ Same-replicas w2 v s ∙ two
        | inr (inr s) ↦ Same-replicas (sync_proxy env w2).1 v s ∙ proxy_stage-replicas w2 ∙ two
      ]

-- A run: syncs, each with its own answers of others, and between them changes of anything but the
-- cluster's name and the replicas of PD's cached StatefulSet. The wanted number may change.
pub data Step (w : World) : World → Type 0 where
  synced : (env : Env) → Step w (update_cell_cluster env w).1
  changed : (v : World) → pd_replicas v ≡ pd_replicas w → Step w v

pub data Reach (w : World) : World → Type 0 where
  here : Reach w w
  next : {v u : World} → Reach w v → Step v u → Reach w u

Reach-replicas : {w v : World} → Reach w v → pd_replicas v ≡ pd_replicas w
Reach-replicas here = refl
Reach-replicas (next {v = v} r (synced env)) = sync-replicas env v ∙ Reach-replicas r
Reach-replicas (next r (changed v h)) = h ∙ Reach-replicas r

-- Over any run, a sync asks for at most one update of PD's StatefulSet, to the replicas that the
-- cached one had when the run began, whatever number is wanted by then; and for at most one of the
-- stores', to the replicas of the cached one or to one more; and for at most one of the proxies'.
-- Each is asked for by its name in the cluster's namespace, and nothing else is updated.
pub run_keeps_pd_replicas :
    (w v : World) (n : ℤ) (env : Env)
    → Reach w v
    → pd_replicas w ≡ some n
    → (p s x : List Ask) × (asked (update_cell_cluster env v).1.calls
        ≡ x ++ (s ++ (p ++ asked v.calls)))
      × ((p ≡ []) ⊎ (p ≡ (v.cc.namespace, pd_member_name v.cc.name, n) ∷ []))
      × StoreAsks env v s
      × ProxyAsks env v x
run_keeps_pd_replicas w v n env r start =
    let (p, s, x, e, keeps, steps, one) = sync_replicas env v in
    let held = Reach-replicas r ∙ start in
    (
      p,
      s,
      x,
      e,
      elim keeps [
        | inl none_asked ↦ inl none_asked
        | inr (old, found, e) ↦
            let c = cached-set_at env v.cc.namespace (pd_member_name v.cc.name) v.sets old found in
            inr (ground (arith, c, held, e))
      ],
      steps,
      one,
    )
