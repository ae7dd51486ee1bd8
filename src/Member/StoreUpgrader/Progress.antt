-- ===== src/Member/StoreUpgrader/Progress.antt =====
-- An outdated pod of the stores is replaced, whether or not its store gives up its leaders
-- (store_upgrader.go).
use elasticell_operator.Base.{
  ℕ, zero, suc, ◌+◌, ◌<◌, ◌≤◌, ◌≡◌, refl, subst, sym, ◌∙◌, ◌⊎◌, inl, inr, String, Bool, true, false,
  Option, none, some, ℤ, pos, arith, ap, Dict, is_some, eq_iff,
}
use elasticell_operator.Base.Maps.{lookup-insert}
use elasticell_operator.Api.Objects.{Pod, StatefulSet, SetStatus}
use elasticell_operator.Api.Cluster.{CellCluster, KvStore, is_upgrade}
use elasticell_operator.Names.{store_pod_name}
use elasticell_operator.Effects.{Result, ok, err, requeue, evicting_leader, World, Env, request}
use elasticell_operator.Member.Rollout.{is_outdated, set_partition}
use elasticell_operator.Member.Config.{
  annotation, annotate, partition_of, template_equal, set_upgrade_partition,
}
use elasticell_operator.Member.StoreUpgrader.Safety.{pod}
use elasticell_operator.Member.StoreUpgrader.Eviction.{
  Accepts, Passed, Done, Done-Passed, Passed-refl, Passed-trans, end_evict_passes, loop_step_none,
  loop_step_done, loop_step_outdated, edit-same, edited, pod_at-name, pod_at-namespace,
}
use elasticell_operator.Member.StoreUpgrader.{
  get_store_by_ordinal, end_evict, begin_evict, upgrade_store_pod, store_loop, upgrade,
  set_store_phase, ready_to_upgrade, is_evicting, evict_leader_begin_time, evict_leader_timeout,
}

module _ (env : Env) (cluster : CellCluster) (rev : String) (i : ℕ) (s : KvStore) where
  -- The loop comes to the highest outdated pod.
  Comes : ℕ → World → Type 0
  Comes n w =
      (v : World) × Passed env cluster i w v
      × (store_loop env cluster rev n w ≡ upgrade_store_pod env cluster i v)

  le_cases : (j n : ℕ) → j < suc n → (j ≡ n) ⊎ (j < n)
  le_cases j n h = omega arith

  Option-cases : (o : Option KvStore) → (o ≡ none) ⊎ ((t : KvStore) × (o ≡ some t))
  Option-cases none = inl refl
  Option-cases (some t) = inr (t, refl)

  loop-Comes :
      (n : ℕ) (w : World)
      → Accepts env
      → i < n
      → ((j : ℕ) → i < j → j < n → Done env cluster rev i w j)
      → get_store_by_ordinal cluster i ≡ some s
      → is_outdated rev (pod env cluster rev w.pods i) ≡ true
      → Comes n w
  unfolding Comes
  loop-Comes zero w accepts h above known o = absurd (omega arith)
  loop-Comes (suc m) w accepts h above known o = elim (le_cases i m h) [
    | inl e ↦
        subst (λ k. Comes (suc k) w) e
          (w, Passed-refl env cluster rev i w, loop_step_outdated env cluster rev i w s known o)
    | inr l ↦ elim (Option-cases (get_store_by_ordinal cluster m)) [
      | inl missing ↦
          let (v, p, e) = loop-Comes m w accepts l (λ j a b. above j a (omega arith)) known o in
          (v, p, loop_step_none env cluster rev i w m missing ∙ e)
      | inr (t, found) ↦
          let d = above m l (omega arith) in
          let (ended, q) =
            end_evict_passes env cluster rev i w m t accepts d.ready d.has_id l found in
          let u = (end_evict env cluster m w).1 in
          let (v, p, e) =
            loop-Comes m u accepts l
              (λ j a b. Done-Passed env cluster rev i w u j q (above j a (omega arith))) known
              (ap (is_outdated rev) q.kept ∙ o) in
          (
            v,
            Passed-trans env cluster rev i w u v q p,
            loop_step_done env cluster rev i w m t found d.ready ended ∙ e,
          )
    ]
  ]

  lowers :
      (v : World) (id : ℕ) (p : Pod)
      → env.parse_uint s.id ≡ some id
      → get_store_by_ordinal cluster i ≡ some s
      → pod env cluster rev v.pods i ≡ ok p
      → ready_to_upgrade env p s ≡ true
      → upgrade_store_pod env cluster i v ≡ (ok tt, set_partition (pos i) v)
  unfolding upgrade_store_pod get_store_by_ordinal
  lowers v id p parses known found r = ground arith

  begins :
      (v : World) (id : ℕ) (p : Pod)
      → Accepts env
      → env.parse_uint s.id ≡ some id
      → get_store_by_ordinal cluster i ≡ some s
      → pod env cluster rev v.pods i ≡ ok p
      → ready_to_upgrade env p s ≡ false
      → is_evicting p ≡ false
      → pod env cluster rev (upgrade_store_pod env cluster i v).1.pods i
        ≡ edited (annotate evict_leader_begin_time (env.format_time env.now)) (ok p)
  unfolding upgrade_store_pod get_store_by_ordinal begin_evict request
  begins v id p accepts parses known found r e =
      let name = store_pod_name cluster.name (pos i) in
      grind (
        arith,
        accepts,
        found,
        edit-same env cluster.namespace name,
        pod_at-name env cluster.namespace name v.pods p found,
        pod_at-namespace env cluster.namespace name v.pods p found,
      )

  waits :
      (v : World) (id : ℕ) (p : Pod)
      → env.parse_uint s.id ≡ some id
      → get_store_by_ordinal cluster i ≡ some s
      → pod env cluster rev v.pods i ≡ ok p
      → ready_to_upgrade env p s ≡ false
      → is_evicting p ≡ true
      → upgrade_store_pod env cluster i v ≡ (err (requeue evicting_leader), v)
  unfolding upgrade_store_pod get_store_by_ordinal
  waits v id p parses known found r e = ground arith

abbrev pub mark : Pod → Option String
mark p = annotation evict_leader_begin_time p.annotations

mark-cases : (p : Pod) → (mark p ≡ none) ⊎ ((t : String) × (mark p ≡ some t))
mark-cases p = cases (mark p)
  where
    cases : (o : Option String) → (o ≡ none) ⊎ ((t : String) × (o ≡ some t))
    cases none = inl refl
    cases (some t) = inr (t, refl)

abbrev marked_pod : Env → Pod → Pod
marked_pod env p = record p {
  annotations = annotate evict_leader_begin_time (env.format_time env.now) p.annotations;
}

annotation-annotate :
    (k v : String) (m : Option (Dict String)) → annotation k (annotate k v m) ≡ some v
annotation-annotate k v none = ground (arith, eq_iff k k)
annotation-annotate k v (some m) = ground (arith, eq_iff k k, lookup-insert k k v m)

outdated-pod : (rev : String) (r : Result Pod) → is_outdated rev r ≡ true → (p : Pod) × (r ≡ ok p)
outdated-pod rev (err e) h = ground arith
outdated-pod rev (ok p) h = (p, refl)

Bool-cases : (b : Bool) → (b ≡ true) ⊎ (b ≡ false)
Bool-cases true = inl refl
Bool-cases false = inr refl

timed_out-ready :
    (env : Env) (p : Pod) (s : KvStore) (t : String) (before : ℕ)
    → mark p ≡ some t
    → before + evict_leader_timeout < env.now
    → ((begin : ℕ) × (env.parse_time t ≡ some begin) × (begin ≤ before))
    → ready_to_upgrade env p s ≡ true
unfolding ready_to_upgrade
timed_out-ready env p s t before is_marked later (begin, reads, h) =
    ground (arith, is_marked, reads)

-- A sync in which the pod of ordinal `i` is the next to be replaced: the stores of the pods above
-- are done, its own is reported, its revision is an old one, and nothing else stops the sync.
pub record CanReplace (env : Env) (old : StatefulSet) (w : World) (i : ℕ) : Type 0 where
  pub n : ℕ
  pub rev : String
  pub partition : ℤ
  pub status : SetStatus
  pub store : KvStore
  pub id : ℕ
  pub pd_idle : is_upgrade w.cc.status.pd.phase ≡ false
  pub is_synced : w.cc.status.store.synced ≡ true
  pub has_status : w.cc.status.store.stateful_set ≡ some status
  pub has_replicas : status.replicas ≡ pos n
  pub has_revision : status.update_revision ≡ rev
  pub has_partition : partition_of old ≡ some partition
  pub same_template : template_equal env w.draft.spec.template old.spec.template ≡ true
  pub accepts : Accepts env
  pub below : i < n
  pub above : (j : ℕ) → i < j → j < n → Done env w.cc rev i w j
  pub known : get_store_by_ordinal w.cc i ≡ some store
  pub has_id : env.parse_uint store.id ≡ some id
  pub outdated : is_outdated rev (pod env w.cc rev w.pods i) ≡ true

module _ (env : Env) (old : StatefulSet) (w : World) (i : ℕ) where
  abbrev pub Replaced : Type 0
  Replaced =
      ((upgrade env old w).0 ≡ ok tt)
      × ((upgrade env old w).1.draft ≡ set_upgrade_partition w.draft (pos i))

  module _ (c : CanReplace env old w i) where
    abbrev started : World
    started = set_partition c.partition (set_store_phase w)

    runs_loop : upgrade env old w ≡ store_loop env started.cc c.rev c.n started
    unfolding upgrade
    runs_loop = ground (
      arith, c.pd_idle, c.is_synced, c.has_status, c.has_replicas, c.has_revision, c.has_partition,
      c.same_template,
    )

    comes : Comes env started.cc c.rev i c.store c.n started
    unfolding get_store_by_ordinal
    comes =
        loop-Comes env started.cc c.rev i c.store c.n started c.accepts c.below
          (λ j a b. let d = c.above j a b in record { ready = d.ready; has_id = d.has_id }) c.known
          c.outdated

    -- The upgrade is what `upgradeStorePod` does to the pod, as the loop found it.
    came :
        (v : World) × Passed env started.cc i started v
        × (upgrade env old w ≡ upgrade_store_pod env started.cc i v)
    unfolding Comes
    came = let (v, p, e) = comes in (v, p, runs_loop ∙ e)

    replaced :
        (p : Pod)
        → pod env w.cc c.rev w.pods i ≡ ok p
        → ready_to_upgrade env p c.store ≡ true
        → Replaced
    unfolding get_store_by_ordinal set_upgrade_partition
    replaced p found r =
        let (v, q, e) = came in
        let step =
          lowers env started.cc c.rev i c.store v c.id p c.has_id c.known (q.kept ∙ found) r in
        let draft_same = q.rest.draft_same in ground (arith, e, step, draft_same)

    -- If it is not replaced, then it is marked, by an earlier sync or by this one.
    marked :
        (p : Pod)
        → pod env w.cc c.rev w.pods i ≡ ok p
        → ready_to_upgrade env p c.store ≡ false
        → (p' : Pod) × (t : String) × (pod env w.cc c.rev (upgrade env old w).1.pods i ≡ ok p')
          × (mark p' ≡ some t)
          × ((t ≡ env.format_time env.now) ⊎ (mark p ≡ some t))
    unfolding get_store_by_ordinal
    marked p found r =
        let (v, q, e) = came in
        let same = q.kept ∙ found in
        elim (mark-cases p) [
          | inl none_yet ↦
              let pods_after =
                begins env started.cc c.rev i c.store v c.id p c.accepts c.has_id c.known same r
                  (ap is_some none_yet) in
              (
                marked_pod env p,
                env.format_time env.now,
                ap (λ z. pod env w.cc c.rev z.1.pods i) e ∙ pods_after,
                annotation-annotate evict_leader_begin_time (env.format_time env.now) p.annotations,
                inl refl,
              )
          | inr (t, is_marked) ↦
              let stays =
                waits env started.cc c.rev i c.store v c.id p c.has_id c.known same r
                  (ap is_some is_marked) in
              (
                p,
                t,
                ap (λ z. pod env w.cc c.rev z.1.pods i) (e ∙ stays) ∙ same,
                is_marked,
                inr is_marked,
              )
        ]

-- A text is read as a time that is no later. (A time is written with whole seconds, and what is
-- read is that time without the part below a second.)
abbrev pub ReadNoLater : Env → String → ℕ → Type 0
ReadNoLater env text t = (begin : ℕ) × (env.parse_time text ≡ some begin) × (begin ≤ t)

-- Between two syncs that come to the same outdated pod and that are more than three minutes apart,
-- the pod is replaced: by the first sync, or by the second, whatever leaders its store has then.
-- The pod is what the first sync left, and the second sync reads the time that the first wrote as
-- one that is no later, as it does the time that the pod was marked with before.
pub evicted_is_replaced :
    (env env' : Env) (old old' : StatefulSet) (w v : World) (i : ℕ)
    → (a : CanReplace env old w i) → (b : CanReplace env' old' v i)
    → pod env' v.cc b.rev v.pods i ≡ pod env w.cc a.rev (upgrade env old w).1.pods i
    → env.now + 180000000000 < env'.now
    → ReadNoLater env' (env.format_time env.now) env.now
    → ((p : Pod) (t : String)
        → pod env w.cc a.rev w.pods i ≡ ok p
        → mark p ≡ some t
        → ReadNoLater env' t env.now)
    → Replaced env old w i ⊎ Replaced env' old' v i
evicted_is_replaced env env' old old' w v i a b kept later reads earlier =
    let (p, found) = outdated-pod a.rev (pod env w.cc a.rev w.pods i) a.outdated in
    elim (Bool-cases (ready_to_upgrade env p a.store)) [
      | inl r ↦ inl (replaced env old w i a p found r)
      | inr r ↦
          let (p', t, found', is_marked, from) = marked env old w i a p found r in
          let drained = timed_out-ready env' p' b.store t env.now is_marked later (elim from [
            | inl e ↦ subst (λ z. ReadNoLater env' z env.now) (sym e) reads
            | inr e ↦ earlier p t found e
          ]) in
          inr (replaced env' old' v i b p' (kept ∙ found') drained)
    ]
