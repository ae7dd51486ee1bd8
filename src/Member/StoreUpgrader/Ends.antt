-- ===== src/Member/StoreUpgrader/Ends.antt =====
-- The rolling update of the stores comes to its end (store_upgrader.go).
use elasticell_operator.Base.{
  ℕ, suc, ◌+◌, ◌≤◌, ◌<◌, ◌≡◌, ◌⊎◌, inl, inr, String, true, some, arith, subst,
}
use elasticell_operator.Api.Objects.{Pod, StatefulSet}
use elasticell_operator.Api.Cluster.{KvStore}
use elasticell_operator.Effects.{Result, ok, World, Env, pod_at}
use elasticell_operator.Member.Rollout.{is_outdated}
use elasticell_operator.Member.StoreUpgrader.Safety.{Ready, pod, store_ready}
use elasticell_operator.Member.StoreUpgrader.Progress.{
  CanReplace, Replaced, ReadNoLater, mark, evicted_is_replaced,
}
use elasticell_operator.Member.StoreUpgrader.{get_store_by_ordinal, upgrade}

not_ready :
    (rev : String) (s : KvStore) (r : Result Pod)
    → store_ready rev (some s) r ≡ true
    → is_outdated rev r ≡ true
    → ⊥
not_ready rev s r h o = ground arith

-- The environment at a time.
abbrev pub at : Env → ℕ → Env
at env t = record env { now = t }

module _ (env : Env) (n : ℕ) (rev : String) where
  abbrev pub Done : World → ℕ → Type 0
  Done w j = Ready env w.cc rev w.pods j

  -- The store is reported, and its pod has an old revision.
  abbrev pub Old : World → ℕ → Type 0
  Old w j =
      (is_outdated rev (pod env w.cc rev w.pods j) ≡ true)
      × ((s : KvStore) × (get_store_by_ordinal w.cc j ≡ some s))

  not_both : (w : World) (j : ℕ) → Done w j → Old w j → ⊥
  not_both w j d (o, (s, known)) =
      not_ready rev s (pod env w.cc rev w.pods j)
        (subst (λ z. store_ready rev z (pod env w.cc rev w.pods j) ≡ true) known d) o

  -- Two syncs more than three minutes apart that come to the same pod, and what is made of them
  -- before the next two: once the partition is at the pod's ordinal, the pods from it on are
  -- updated and run with their stores up, and those below stay.
  pub data Round (w v : World) : Type 0 where
    rolled :
        (t t' i : ℕ) (old old' : StatefulSet) (u : World) (a : CanReplace (at env t) old w i)
        (b : CanReplace (at env t') old' u i)
        → a.n ≡ n
        → a.rev ≡ rev
        → pod env u.cc rev u.pods i ≡ pod env w.cc rev (upgrade (at env t) old w).1.pods i
        → t + 180000000000 < t'
        → ReadNoLater env (env.format_time t) t
        → ((p : Pod) (text : String)
            → pod env w.cc rev w.pods i ≡ ok p
            → mark p ≡ some text
            → ReadNoLater env text t)
        → (Replaced (at env t) old w i ⊎ Replaced (at env t') old' u i
            → ((j : ℕ) → i ≤ j → j < n → Done v j) × ((j : ℕ) → j < i → Old w j → Old v j))
        → Round w v

  pub data Rounds (w : World) : ℕ → World → Type 0 where
    start : Rounds w 0 w
    more : {t : ℕ} {u v : World} → Rounds w t u → Round u v → Rounds w (suc t) v

  abbrev pub AllOld : World → Type 0
  AllOld w = (j : ℕ) → j < n → Old w j

  -- The pods from `k` on are done, those below are not.
  abbrev Halfway : ℕ → World → Type 0
  Halfway k w = ((j : ℕ) → k ≤ j → j < n → Done w j) × ((j : ℕ) → j < k → Old w j)

  next_pod :
      (t : ℕ) (old : StatefulSet) (w : World) (k i : ℕ)
      → (a : CanReplace (at env t) old w i) → a.n ≡ n
      → a.rev ≡ rev
      → k < n
      → Halfway (suc k) w
      → i ≡ k
  unfolding pod_at
  next_pod t old w k i a same_n same_rev h half =
      let old_i : Old w i = (
        subst (λ r. is_outdated r (pod env w.cc rev w.pods i) ≡ true) same_rev a.outdated,
        (a.store, a.known),
      ) in
      elim (compare_cases i k) [
        | inl less ↦
            let ready =
              subst
                (λ r.
                  store_ready r (get_store_by_ordinal w.cc k) (pod env w.cc rev w.pods k) ≡ true)
                same_rev (a.above k less (omega (arith, same_n))).ready in
            absurd (not_both w k ready (half.1 k (omega arith)))
        | inr (inl e) ↦ e
        | inr (inr beyond) ↦
            absurd (not_both w i (half.0 i (omega arith) (omega (arith, same_n, a.below))) old_i)
      ]
    where
      compare_cases : (i k : ℕ) → (i < k) ⊎ (i ≡ k) ⊎ (k < i)
      compare_cases i k = omega arith

  Round-Halfway : (k : ℕ) (w v : World) → k < n → Halfway (suc k) w → Round w v → Halfway k v
  unfolding pod_at
  Round-Halfway k w v h half
        (rolled t t' i old old' u a b same_n same_rev kept later reads earlier after) =
      let e = next_pod t old w k i a same_n same_rev h half in
      let replaced =
        evicted_is_replaced (at env t) (at env t') old old' w u i a b kept later reads earlier in
      let (done, stay) = after replaced in
      (
        (λ j l m. done j (omega (arith, e)) m),
        (λ j l. stay j (omega (arith, e)) (half.1 j (omega arith))),
      )

  Rounds-Halfway :
      (w : World) (t k : ℕ) (v : World) → k + t ≡ n → AllOld w → Rounds w t v → Halfway k v
  Rounds-Halfway w t k v e all start =
      ((λ j a b. absurd (omega arith)), (λ j a. all j (omega arith)))
  Rounds-Halfway w t k v e all (more {t = r} {u = u} before last) =
      Round-Halfway k u v (omega arith) (Rounds-Halfway w r (suc k) u (omega arith) all before) last

  -- A rolling update of the stores ends: from outdated pods, as many pairs of syncs as there are
  -- stores, the two of a pair more than three minutes apart and each pair rolled out before the
  -- next, leave every pod updated and running and every store up, whatever leaders the stores keep.
  pub store_rollout_ends : (w v : World) → AllOld w → Rounds w n v → (j : ℕ) → j < n → Done v j
  store_rollout_ends w v all rounds j h =
      (Rounds-Halfway w n 0 v (omega arith) all rounds).0 j (omega arith) h
