-- ===== src/Member/StoreUpgrader/Eviction.antt =====
-- The eviction marks on the pods of the stores, and what ends the loop above an outdated pod
-- (store_upgrader.go).
use elasticell_operator.Base.{
  ℕ, suc, ◌<◌, ◌≡◌, ◌≢◌, refl, sym, subst, ◌∙◌, String, true, Option, none, some, List, [], ◌∷◌,
  eq_iff, pos, arith,
}
use elasticell_operator.Api.Objects.{Pod}
use elasticell_operator.Api.Cluster.{CellCluster, KvStore}
use elasticell_operator.Names.{store_pod_name}
use elasticell_operator.Names.Unique.{store_pod_name_inj}
use elasticell_operator.Effects.{Result, ok, err, Call, World, Env, pod_at, request}
use elasticell_operator.Member.Rollout.{is_outdated}
use elasticell_operator.Member.StoreUpgrader.Pods.{Edit, edit}
use elasticell_operator.Member.StoreUpgrader.Safety.{
  Unchanged, end_evict-Unchanged, Ready, pod, store_ready, store_ready-view,
}
use elasticell_operator.Member.StoreUpgrader.{
  get_store_by_ordinal, end_evict, upgrade_store_pod, store_loop, without, evict_leader_begin_time,
}

-- The result of an edit of the annotations.
abbrev pub edited : Edit → Result Pod → Result Pod
edited f (err e) = err e
edited f (ok p) = ok (record p { annotations = f p.annotations })

module _ (env : Env) (ns name : String) where
  pub pod_at-name : (pods : List Pod) (p : Pod) → pod_at env ns name pods ≡ ok p → p.name ≡ name
  unfolding pod_at
  pod_at-name [] p h = ground arith
  pod_at-name (q ∷ pods) p h = ground (arith, eq_iff q.name name, pod_at-name pods p)

  pub pod_at-namespace :
      (pods : List Pod) (p : Pod) → pod_at env ns name pods ≡ ok p → p.namespace ≡ ns
  unfolding pod_at
  pod_at-namespace [] p h = ground arith
  pod_at-namespace (q ∷ pods) p h = ground (arith, eq_iff q.namespace ns, pod_at-namespace pods p)

  -- An edit of another pod.
  pub edit-other :
      (ns' name' : String) (f : Edit) (pods : List Pod)
      → name' ≢ name
      → pod_at env ns name (edit ns' name' f pods) ≡ pod_at env ns name pods
  unfolding pod_at
  edit-other ns' name' f [] d = refl
  edit-other ns' name' f (p ∷ pods) d =
      ground (arith, eq_iff p.name name, eq_iff p.name name', edit-other ns' name' f pods d)

  -- An edit of the pod itself.
  pub edit-same :
      (f : Edit) (pods : List Pod)
      → pod_at env ns name (edit ns name f pods) ≡ edited f (pod_at env ns name pods)
  unfolding pod_at
  edit-same f [] = ground arith
  edit-same f (p ∷ pods) = ground (arith, edit-same f pods)

-- What the loop leaves alone before it comes to ordinal `i`.
pub record Passed (env : Env) (cluster : CellCluster) (i : ℕ) (w v : World) : Type 0 where
  pub rest : Unchanged env w v
  pub kept :
      pod_at env cluster.namespace (store_pod_name cluster.name (pos i)) v.pods
      ≡ pod_at env cluster.namespace (store_pod_name cluster.name (pos i)) w.pods

-- The API server and PD grant every request.
abbrev pub Accepts : Env → Type 0
Accepts env = (calls : List Call) (c : Call) → env.reply calls c ≡ none

-- The ids of the stores, as the status holds them, are numbers.
abbrev pub IdParses : Env → Option KvStore → Type 0
IdParses env none = Unit
IdParses env (some s) = (id : ℕ) × (env.parse_uint s.id ≡ some id)

module _ (env : Env) (cluster : CellCluster) (rev : String) (i : ℕ) where
  -- A store above that is done, or not reported.
  pub record Done (w : World) (j : ℕ) : Type 0 where
    pub ready : Ready env cluster rev w.pods j
    pub has_id : IdParses env (get_store_by_ordinal cluster j)

  pub Passed-refl : (w : World) → Passed env cluster i w w
  Passed-refl w = record {
    rest = record { draft_same = refl; cc_same = refl; pods_same = λ ns name. refl };
    kept = refl;
  }

  pub Passed-trans :
      (w v u : World)
      → Passed env cluster i w v
      → Passed env cluster i v u
      → Passed env cluster i w u
  Passed-trans w v u p q = record {
    rest = record {
      draft_same = q.rest.draft_same ∙ p.rest.draft_same;
      cc_same = q.rest.cc_same ∙ p.rest.cc_same;
      pods_same = λ ns name. q.rest.pods_same ns name ∙ p.rest.pods_same ns name;
    };
    kept = q.kept ∙ p.kept;
  }

  ready-pod :
      (s : KvStore) (r : Result Pod) → store_ready rev (some s) r ≡ true → (p : Pod) × (r ≡ ok p)
  ready-pod s (err e) h = ground arith
  ready-pod s (ok p) h = (p, refl)

  end_evict_ok :
      (w : World) (j : ℕ) (s : KvStore) (p : Pod) (id : ℕ)
      → Accepts env
      → get_store_by_ordinal cluster j ≡ some s
      → env.parse_uint s.id ≡ some id
      → pod env cluster rev w.pods j ≡ ok p
      → (end_evict env cluster j w).0 ≡ ok tt
  unfolding end_evict request
  end_evict_ok w j s p id accepts known parses found = grind (arith, accepts)

  end_evict_kept :
      (w : World) (j : ℕ) (s : KvStore) (p : Pod) (id : ℕ)
      → get_store_by_ordinal cluster j ≡ some s
      → env.parse_uint s.id ≡ some id
      → pod env cluster rev w.pods j ≡ ok p
      → p.name ≢ store_pod_name cluster.name (pos i)
      → pod env cluster rev (end_evict env cluster j w).1.pods i ≡ pod env cluster rev w.pods i
  unfolding end_evict request
  end_evict_kept w j s p id known parses found other = ground (
    arith,
    edit-other env cluster.namespace (store_pod_name cluster.name (pos i)) p.namespace p.name
        (without evict_leader_begin_time) w.pods other,
  )

  -- Ending the eviction of a store above succeeds and leaves the pod of ordinal `i` alone.
  pub end_evict_passes :
      (w : World) (j : ℕ) (s : KvStore)
      → Accepts env
      → Ready env cluster rev w.pods j
      → IdParses env (get_store_by_ordinal cluster j)
      → i < j
      → get_store_by_ordinal cluster j ≡ some s
      → ((end_evict env cluster j w).0 ≡ ok tt)
        × Passed env cluster i w (end_evict env cluster j w).1
  end_evict_passes w j s accepts r parses above known =
      let known_ready : store_ready rev (some s) (pod env cluster rev w.pods j) ≡ true =
        subst (λ o. store_ready rev o (pod env cluster rev w.pods j) ≡ true) known r in
      let (p, found) = ready-pod s (pod env cluster rev w.pods j) known_ready in
      let (id, is_id) = subst (IdParses env) known parses in
      let named =
        pod_at-name env cluster.namespace (store_pod_name cluster.name (pos j)) w.pods p found in
      (
        end_evict_ok w j s p id accepts known is_id found,
        record {
          rest = end_evict-Unchanged env cluster j w;
          kept =
              end_evict_kept w j s p id known is_id found
                (λ e. absurd (omega (arith, store_pod_name_inj cluster.name j i (sym named ∙ e))));
        },
      )

  pub Done-Passed : (w v : World) (j : ℕ) → Passed env cluster i w v → Done w j → Done v j
  Done-Passed w v j p d = record {
    ready =
        store_ready-view rev (get_store_by_ordinal cluster j) _ _ (p.rest.pods_same _ _) ∙ d.ready;
    has_id = d.has_id;
  }

  pub loop_step_none :
      (w : World) (m : ℕ)
      → get_store_by_ordinal cluster m ≡ none
      → store_loop env cluster rev (suc m) w ≡ store_loop env cluster rev m w
  unfolding store_loop
  loop_step_none w m h = ground arith

  pub loop_step_done :
      (w : World) (m : ℕ) (s : KvStore)
      → get_store_by_ordinal cluster m ≡ some s
      → Ready env cluster rev w.pods m
      → (end_evict env cluster m w).0 ≡ ok tt
      → store_loop env cluster rev (suc m) w
        ≡ store_loop env cluster rev m (end_evict env cluster m w).1
  unfolding store_loop
  loop_step_done w m s h r e = ground arith

  pub loop_step_outdated :
      (w : World) (s : KvStore)
      → get_store_by_ordinal cluster i ≡ some s
      → is_outdated rev (pod env cluster rev w.pods i) ≡ true
      → store_loop env cluster rev (suc i) w ≡ upgrade_store_pod env cluster i w
  unfolding store_loop
  loop_step_outdated w s h o = ground arith
