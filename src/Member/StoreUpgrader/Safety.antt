-- ===== src/Member/StoreUpgrader/Safety.antt =====
-- The rolling update of the stores goes one pod at a time, and a store gives up its leaders before
-- its pod is replaced (store_upgrader.go).
use elasticell_operator.Base.{
  ℕ, zero, suc, ◌≡◌, sym, subst, ◌∙◌, ◌⊎◌, inl, inr, ◌&&◌, String, Bool, true, false, Option, none,
  some, List, ℤ, pos, not, eqb_ℤ, arith, refl, ap, Bool-cases, ◌<◌, ◌+◌,
}
use elasticell_operator.Api.Objects.{Pod, StatefulSet, SetStatus}
use elasticell_operator.Api.Cluster.{CellCluster, KvStore, is_up, is_upgrade}
use elasticell_operator.Names.{store_pod_name}
use elasticell_operator.Effects.{Result, ok, err, World, Env, pod_at, request}
use elasticell_operator.Member.Rollout.{
  Rollout, complete, lower, hold, Rollout-suc, Rollout-map, ordinals, set_partition, is_updated,
  is_outdated,
}
use elasticell_operator.Member.Config.{
  annotation, set_upgrade_partition, partition_of, template_equal,
}
use elasticell_operator.Member.Update.Asked.{eqb_ℤ→eq}
use elasticell_operator.Member.StoreUpgrader.Pods.{view, view-edit}
use elasticell_operator.Member.StoreUpgrader.{
  get_store_by_ordinal, is_running, ready_to_upgrade, begin_evict, end_evict, upgrade_store_pod,
  store_loop, upgrade, set_store_phase, timed_out, evict_leader_begin_time,
}

abbrev pub pod_running : Result Pod → Bool
pod_running (err e) = false
pod_running (ok p) = is_running p

-- An ordinal that no store reports is passed over. Otherwise its pod runs the new revision, and
-- its store is up.
abbrev pub store_ready : String → Option KvStore → Result Pod → Bool
store_ready rev none r = true
store_ready rev (some s) r = is_updated rev r && pod_running r && is_up s.state

-- The pod is annotated with a time that was more than three minutes ago.
abbrev pub MarkedBefore : Env → Pod → Type 0
MarkedBefore env p =
    (text : String) × (begin : ℕ) × (annotation "evictLeaderBeginTime" p.annotations ≡ some text)
    × (env.parse_time text ≡ some begin)
    × (begin + 180000000000 < env.now)

-- The store has no leaders, or was asked to give them up more than three minutes ago.
abbrev pub Drained : Env → Option KvStore → Result Pod → Type 0
Drained env o r =
    (s : KvStore) × (p : Pod) × (o ≡ some s)
    × (r ≡ ok p)
    × ((s.leader_count ≡ pos 0) ⊎ MarkedBefore env p)

abbrev pub has_leaders : Option KvStore → Bool
has_leaders none = false
has_leaders (some s) = not (eqb_ℤ s.leader_count (pos 0))

module _ (env : Env) (cluster : CellCluster) (rev : String) (pods : List Pod) where
  abbrev pub pod : ℕ → Result Pod
  pod j = pod_at env cluster.namespace (store_pod_name cluster.name (pos j)) pods

  abbrev pub Ready : ℕ → Type 0
  Ready j = store_ready rev (get_store_by_ordinal cluster j) (pod j) ≡ true

  -- The eviction is read from the pods as they are in the end, `later`.
  abbrev pub Stale : List Pod → ℕ → Type 0
  Stale later j =
      (is_outdated rev (pod j) ≡ true)
      × Drained env (get_store_by_ordinal cluster j)
          (pod_at env cluster.namespace (store_pod_name cluster.name (pos j)) later)

  abbrev pub Waiting : ℕ → Type 0
  Waiting j =
      (is_outdated rev (pod j) ≡ true) × (has_leaders (get_store_by_ordinal cluster j) ≡ true)

-- What an eviction leaves alone.
pub record Unchanged (env : Env) (w w' : World) : Type 0 where
  pub draft_same : w'.draft ≡ w.draft
  pub cc_same : w'.cc ≡ w.cc
  pub pods_same :
      (ns name : String) → view (pod_at env ns name w'.pods) ≡ view (pod_at env ns name w.pods)

pub end_evict-Unchanged :
    (env : Env) (cluster : CellCluster) (i : ℕ) (w : World)
    → Unchanged env w (end_evict env cluster i w).1
unfolding end_evict request
end_evict-Unchanged env cluster i w = record {
  draft_same = ground arith;
  cc_same = ground arith;
  pods_same = λ ns name. grind (arith, view-edit);
}

store_step :
    (env : Env) (cluster : CellCluster) (rev : String) (i : ℕ) (w w' : World)
    → store_loop env cluster rev (suc i) w ≡ (ok tt, w')
    → ((get_store_by_ordinal cluster i ≡ none) × (store_loop env cluster rev i w ≡ (ok tt, w')))
      ⊎ (Ready env cluster rev w.pods i
          × (store_loop env cluster rev i (end_evict env cluster i w).1 ≡ (ok tt, w')))
      ⊎ ((is_outdated rev (pod env cluster rev w.pods i) ≡ true)
          × (upgrade_store_pod env cluster i w ≡ (ok tt, w')))
unfolding store_loop
store_step env cluster rev i w w' h = ground arith

timed_out-before :
    (env : Env) (p : Pod) (text : String) (o : Option ℕ)
    → annotation evict_leader_begin_time p.annotations ≡ some text
    → env.parse_time text ≡ o
    → timed_out env.now o ≡ true
    → MarkedBefore env p
timed_out-before env p text none a h t = ground arith
timed_out-before env p text (some begin) a h t = (text, begin, a, h, ground arith)

ready-Waited :
    (env : Env) (p : Pod) (o : Option String)
    → annotation evict_leader_begin_time p.annotations ≡ o
    → elim o [ none ↦ false | some text ↦ timed_out env.now (env.parse_time text) ] ≡ true
    → MarkedBefore env p
ready-Waited env p none a h = ground arith
ready-Waited env p (some text) a h = timed_out-before env p text (env.parse_time text) a refl h

ready-Drained :
    (env : Env) (s : KvStore) (p : Pod)
    → ready_to_upgrade env p s ≡ true
    → (s.leader_count ≡ pos 0) ⊎ MarkedBefore env p
unfolding ready_to_upgrade
ready-Drained env s p r = elim (Bool-cases (eqb_ℤ s.leader_count (pos 0))) [
  | inl e ↦ inl (eqb_ℤ→eq s.leader_count (pos 0) e)
  | inr n ↦
      inr
        (ready-Waited env p (annotation evict_leader_begin_time p.annotations) refl (ground arith))
]

abbrev drained : Env → Option KvStore → Result Pod → Bool
drained env none r = false
drained env (some s) (err e) = false
drained env (some s) (ok p) = ready_to_upgrade env p s

drained-Drained :
    (env : Env) (o : Option KvStore) (r : Result Pod) → drained env o r ≡ true → Drained env o r
drained-Drained env none r h = ground arith
drained-Drained env (some s) (err e) h = ground arith
drained-Drained env (some s) (ok p) h = (s, p, refl, refl, ready-Drained env s p h)

upgrade_pod_step :
    (env : Env) (cluster : CellCluster) (rev : String) (i : ℕ) (w w' : World)
    → upgrade_store_pod env cluster i w ≡ (ok tt, w')
    → ((w' ≡ set_partition (pos i) w)
        × (drained env (get_store_by_ordinal cluster i) (pod env cluster rev w.pods i) ≡ true))
      ⊎ ((w'.draft ≡ w.draft) × (has_leaders (get_store_by_ordinal cluster i) ≡ true))
unfolding upgrade_store_pod get_store_by_ordinal ready_to_upgrade begin_evict request
upgrade_pod_step env cluster rev i w w' h = ground arith

-- Readiness and revision are read from what the edits leave alone.
pub store_ready-view :
    (rev : String) (o : Option KvStore) (r r' : Result Pod)
    → view r ≡ view r'
    → store_ready rev o r ≡ store_ready rev o r'
store_ready-view rev o r r' h = ground arith

is_outdated-view :
    (rev : String) (r r' : Result Pod) → view r ≡ view r' → is_outdated rev r ≡ is_outdated rev r'
is_outdated-view rev r r' h = ground arith

module _ (env : Env) (cluster : CellCluster) (rev : String) where
  abbrev Step : List Pod → List Pod → ℕ → StatefulSet → StatefulSet → Type 0
  Step pods later n before after =
      Rollout (Ready env cluster rev pods) (Stale env cluster rev pods later)
        (Waiting env cluster rev pods) n before after

  -- The facts of a later step hold before an eviction that ended.
  Step-Unchanged :
      (w v : World) (later : List Pod) (n : ℕ) (after : StatefulSet)
      → Unchanged env w v
      → Step v.pods later n v.draft after
      → Step w.pods later n w.draft after
  Step-Unchanged w v later n after u step =
      subst (λ d. Step w.pods later n d after) u.draft_same
        (Rollout-map
          (λ j h.
            sym (store_ready-view rev (get_store_by_ordinal cluster j) _ _ (u.pods_same _ _)) ∙ h)
          (λ j h. (sym (is_outdated-view rev _ _ (u.pods_same _ _)) ∙ h.0, h.1))
          (λ j h. (sym (is_outdated-view rev _ _ (u.pods_same _ _)) ∙ h.0, h.1)) step)

  pub store_loop-Rollout :
      (n : ℕ) (w w' : World)
      → store_loop env cluster rev n w ≡ (ok tt, w')
      → Step w.pods w'.pods n w.draft w'.draft
  unfolding store_loop
  store_loop-Rollout zero w w' h = complete (ground arith) (λ j l. elim l [ ])
  store_loop-Rollout (suc i) w w' h = elim (store_step env cluster rev i w w' h) [
    | inl (skipped, rest) ↦ Rollout-suc (rw skipped) (store_loop-Rollout i w w' rest)
    | inr (inl (r, rest)) ↦
        let v = (end_evict env cluster i w).1 in
        let u = end_evict-Unchanged env cluster i w in
        Rollout-suc r (Step-Unchanged w v w'.pods i w'.draft u (store_loop-Rollout i v w' rest))
    | inr (inr (o, up)) ↦ elim (upgrade_pod_step env cluster rev i w w' up) [
      | inl (e, d) ↦
          let gave_up = drained-Drained env _ _ d in
          let same : pod env cluster rev w'.pods i ≡ pod env cluster rev w.pods i =
            ap (λ z. pod env cluster rev z.pods i) e in
          lower i (omega arith) (ground arith)
            (o, subst (Drained env (get_store_by_ordinal cluster i)) (sym same) gave_up)
            (λ j a b. absurd (omega arith))
      | inr (e, l) ↦ hold i (omega arith) e (o, l) (λ j a b. absurd (omega arith))
    ]
  ]

-- A store upgrade that returns nil while PD is not upgrading and with an unchanged pod template.
-- It keeps the old partition with every reported store up and on the new revision. Or it moves the
-- partition to one ordinal whose pod is outdated and whose store has no leaders or has been asked
-- for them for more than three minutes, every reported store above being up and on the new
-- revision. Or, those above being so, it keeps the partition while the outdated store of one
-- ordinal still has leaders.
pub store_upgrade-Rollout :
    (env : Env) (old : StatefulSet) (w w' : World) (s : SetStatus) (p : ℤ)
    → upgrade env old w ≡ (ok tt, w')
    → is_upgrade w.cc.status.pd.phase ≡ false
    → w.cc.status.store.stateful_set ≡ some s
    → partition_of old ≡ some p
    → template_equal env w.draft.spec.template old.spec.template ≡ true
    → Rollout
        (Ready env w.cc s.update_revision w.pods)
        (Stale env w.cc s.update_revision w.pods w'.pods)
        (Waiting env w.cc s.update_revision w.pods)
        (ordinals s.replicas)
        (set_upgrade_partition w.draft p)
        w'.draft
unfolding upgrade get_store_by_ordinal
store_upgrade-Rollout env old w w' s p h pd_idle st pt same =
    store_loop-Rollout env (set_store_phase w).cc s.update_revision (ordinals s.replicas)
      (set_partition p (set_store_phase w)) w' (ground arith)
