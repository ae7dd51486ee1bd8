-- ===== src/Member/PdUpgrader/Progress.antt =====
-- The rolling update of PD comes to its end (pd_upgrader.go).
use elasticell_operator.Base.{
  ℕ, zero, suc, ◌+◌, ◌≤◌, ◌<◌, ◌≡◌, ◌⊎◌, inl, inr, refl, String, true, some, ℤ, pos, arith, subst,
  ◌∙◌,
}
use elasticell_operator.Api.Objects.{StatefulSet, SetStatus}
use elasticell_operator.Api.Cluster.{CellCluster}
use elasticell_operator.Effects.{ok, World, Env}
use elasticell_operator.Member.Rollout.{set_partition}
use elasticell_operator.Member.Config.{set_upgrade_partition, partition_of, template_equal}
use elasticell_operator.Member.PdUpgrader.{graceful_loop, graceful_upgrade, set_pd_phase}
use elasticell_operator.Member.PdUpgrader.Safety.{Ready, Stale}

module _ (env : Env) (cluster : CellCluster) (rev : String) (w : World) where
  ready_step :
      (i : ℕ)
      → Ready env cluster rev w.pods i
      → graceful_loop env cluster rev (suc i) w ≡ graceful_loop env cluster rev i w
  unfolding graceful_loop
  ready_step i r = ground arith

  stale_step :
      (i : ℕ)
      → Stale env cluster rev w.pods i
      → graceful_loop env cluster rev (suc i) w ≡ (ok tt, set_partition (pos i) w)
  unfolding graceful_loop
  stale_step i s = ground arith

  loop_progress :
      (n i : ℕ)
      → i < n
      → ((j : ℕ) → i < j → j < n → Ready env cluster rev w.pods j)
      → Stale env cluster rev w.pods i
      → graceful_loop env cluster rev n w ≡ (ok tt, set_partition (pos i) w)
  loop_progress zero i h above s = absurd (omega arith)
  loop_progress (suc m) i h above s = elim (le_cases i m h) [
    | inl e ↦
        subst (λ k. graceful_loop env cluster rev (suc k) w ≡ (ok tt, set_partition (pos i) w)) e
          (stale_step i s)
    | inr l ↦
        ready_step m (above m l (omega arith))
        ∙ loop_progress m i l (λ j a b. above j a (omega arith)) s
  ]
    where
      le_cases : (j n : ℕ) → j < suc n → (j ≡ n) ⊎ (j < n)
      le_cases j n h = omega arith

  loop_done :
      (n : ℕ)
      → ((j : ℕ) → j < n → Ready env cluster rev w.pods j)
      → graceful_loop env cluster rev n w ≡ (ok tt, w)
  unfolding graceful_loop
  loop_done zero all = refl
  loop_done (suc m) all =
      ready_step m (all m (omega arith)) ∙ loop_done m (λ j b. all j (omega arith))

-- What a graceful upgrade needs besides pods: a synced status of `n` replicas and the revision
-- `rev`, a partition, and the template that the old StatefulSet has.
pub record CanUpgrade (env : Env) (n : ℕ) (rev : String) (old : StatefulSet) (p : ℤ) (w : World)
    : Type 0 where
  pub status : SetStatus
  pub is_synced : w.cc.status.pd.synced ≡ true
  pub has_status : w.cc.status.pd.stateful_set ≡ some status
  pub has_replicas : status.replicas ≡ pos n
  pub has_revision : status.update_revision ≡ rev
  pub has_partition : partition_of old ≡ some p
  pub same_template : template_equal env w.draft.spec.template old.spec.template ≡ true

module _ (env : Env) (n : ℕ) (rev : String) where
  runs_loop :
      (old : StatefulSet) (p : ℤ) (w : World)
      → CanUpgrade env n rev old p w
      → graceful_upgrade env old w
        ≡ graceful_loop env (set_pd_phase w).cc rev n (set_partition p (set_pd_phase w))
  unfolding graceful_upgrade
  runs_loop old p w c = ground (
    arith, c.is_synced, c.has_status, c.has_replicas, c.has_revision, c.has_partition,
    c.same_template,
  )

  -- If every pod above an ordinal is updated and a healthy member, and the pod of the ordinal is
  -- outdated, a graceful upgrade succeeds and moves the partition to the ordinal.
  pub graceful_upgrade_progress :
      (old : StatefulSet) (p : ℤ) (w : World) (i : ℕ)
      → CanUpgrade env n rev old p w
      → i < n
      → ((j : ℕ) → i < j → j < n → Ready env w.cc rev w.pods j)
      → Stale env w.cc rev w.pods i
      → graceful_upgrade env old w ≡ (ok tt, set_partition (pos i) (set_pd_phase w))
  unfolding set_upgrade_partition
  graceful_upgrade_progress old p w i c h above s =
      runs_loop old p w c
      ∙ loop_progress env (set_pd_phase w).cc rev (set_partition p (set_pd_phase w)) n i h above s

  -- One sync that can upgrade, and what the StatefulSet's controller and PD make of it before the
  -- next: the pods from the partition on are updated and become healthy members, those below stay.
  pub data Round (w v : World) : Type 0 where
    rolled :
        (old : StatefulSet) (p : ℤ) (i : ℕ)
        → CanUpgrade env n rev old p w
        → partition_of (graceful_upgrade env old w).1.draft ≡ some (pos i)
        → ((j : ℕ) → i ≤ j → j < n → Ready env v.cc rev v.pods j)
        → ((j : ℕ) → j < i → Stale env w.cc rev w.pods j → Stale env v.cc rev v.pods j)
        → Round w v

  pub data Rounds (w : World) : ℕ → World → Type 0 where
    start : Rounds w 0 w
    more : {t : ℕ} {u v : World} → Rounds w t u → Round u v → Rounds w (suc t) v

  abbrev pub AllStale : World → Type 0
  AllStale w = (j : ℕ) → j < n → Stale env w.cc rev w.pods j

  -- The pods from `k` on are done, those below are not.
  abbrev Halfway : ℕ → World → Type 0
  Halfway k w =
      ((j : ℕ) → k ≤ j → j < n → Ready env w.cc rev w.pods j)
      × ((j : ℕ) → j < k → Stale env w.cc rev w.pods j)

  lowered :
      (old : StatefulSet) (p : ℤ) (w : World) (k i : ℕ)
      → CanUpgrade env n rev old p w
      → k < n
      → Halfway (suc k) w
      → partition_of (graceful_upgrade env old w).1.draft ≡ some (pos i)
      → i ≡ k
  unfolding set_upgrade_partition
  lowered old p w k i c h half e =
      let moved =
        graceful_upgrade_progress old p w k c h (λ j a b. half.0 j a b) (half.1 k (omega arith)) in
      ground arith

  Round-Halfway : (k : ℕ) (w v : World) → k < n → Halfway (suc k) w → Round w v → Halfway k v
  Round-Halfway k w v h half (rolled old p i c e done kept) =
      let i_is_k = lowered old p w k i c h half e in
      (
        (λ j a b. done j (omega (arith, i_is_k)) b),
        (λ j a. kept j (omega (arith, i_is_k)) (half.1 j (omega arith))),
      )

  Rounds-Halfway :
      (w : World) (t k : ℕ) (v : World) → k + t ≡ n → AllStale w → Rounds w t v → Halfway k v
  Rounds-Halfway w t k v e all start =
      ((λ j a b. absurd (omega arith)), (λ j a. all j (omega arith)))
  Rounds-Halfway w t k v e all (more {t = r} {u = u} before last) =
      Round-Halfway k u v (omega arith) (Rounds-Halfway w r (suc k) u (omega arith) all before) last

  -- A rolling update of PD ends: from outdated pods, as many syncs as PD has replicas, each rolled
  -- out before the next, leave every pod updated and a healthy member.
  pub rollout_ends :
      (w v : World) → AllStale w → Rounds w n v → (j : ℕ) → j < n → Ready env v.cc rev v.pods j
  rollout_ends w v all rounds j h =
      (Rounds-Halfway w n 0 v (omega arith) all rounds).0 j (omega arith) h

  -- Once every pod is updated and a healthy member, a graceful upgrade succeeds and leaves the
  -- partition as it was.
  pub graceful_upgrade_done :
      (old : StatefulSet) (p : ℤ) (w : World)
      → CanUpgrade env n rev old p w
      → ((j : ℕ) → j < n → Ready env w.cc rev w.pods j)
      → graceful_upgrade env old w ≡ (ok tt, set_partition p (set_pd_phase w))
  graceful_upgrade_done old p w c all =
      runs_loop old p w c
      ∙ loop_done env (set_pd_phase w).cc rev (set_partition p (set_pd_phase w)) n all
