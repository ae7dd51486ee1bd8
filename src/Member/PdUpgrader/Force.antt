-- ===== src/Member/PdUpgrader/Force.antt =====
-- When PD is upgraded by force (pd_upgrader.go).
use elasticell_operator.Base.{
  Bool-cases, inl, inr, ap, ◌∙◌, ◌⊎◌, ◌≤◌, ℕ, ◌+◌, ◌*◌, ◌<◌, ◌≡◌, refl, true, false, Bool, ◌&&◌,
  Option, none, some, List, [], ◌∷◌, pos, String, count_if, All, is_some, ◌==◌, arith,
  if◌then◌else◌,
}
use elasticell_operator.Api.Objects.{Pod, StatefulSet, SetStatus}
use elasticell_operator.Label
use elasticell_operator.Label.{instance_label_key, fresh, with_instance, pd_label}
use elasticell_operator.Effects.{ok, World, Env, pods_with}
use elasticell_operator.Member.Config.{image_pull_failed}
use elasticell_operator.Member.Rollout.{revision, set_partition}
use elasticell_operator.Member.PdUpgrader.{
  set_pd_phase, force_upgrade, count_pull_failures, need_force_upgrade, graceful_upgrade, upgrade,
}

abbrev of_revision : String → Option String → Bool
of_revision rev none = false
of_revision rev (some hash) = hash == rev

-- A pod of the current revision that cannot pull its image.
abbrev pub is_stuck : String → Pod → Bool
is_stuck rev pod = of_revision rev (revision pod) && image_pull_failed pod

abbrev counted : String → Pod → ℕ → ℕ
counted rev pod n = if is_stuck rev pod then n + 1 else n

count_step :
    (env : Env) (s : SetStatus) (pod : Pod) (pods : List Pod) (n : ℕ) (w : World)
    → is_some (revision pod) ≡ true
    → count_pull_failures env (some s) (pod ∷ pods) n w
      ≡ count_pull_failures env (some s) pods (counted s.current_revision pod n) w
unfolding count_pull_failures
count_step env s pod pods n w h = ground arith

counted-count_if :
    (rev : String) (pod : Pod) (pods : List Pod) (n : ℕ)
    → counted rev pod n + count_if (is_stuck rev) pods ≡ n + count_if (is_stuck rev) (pod ∷ pods)
counted-count_if rev pod pods n = elim (Bool-cases (is_stuck rev pod)) [
  | inl e ↦ rw e (omega arith)
  | inr e ↦ rw e refl
]

count_none :
    (env : Env) (s : SetStatus) (n : ℕ) (w : World)
    → count_pull_failures env (some s) [] n w ≡ (ok (n + 0), w)
unfolding count_pull_failures
count_none env s n w = ground arith

count_pull_failures-count_if :
    (env : Env) (s : SetStatus) (pods : List Pod) (n : ℕ) (w : World)
    → All (λ pod. is_some (revision pod) ≡ true) pods
    → count_pull_failures env (some s) pods n w
      ≡ (ok (n + count_if (is_stuck s.current_revision) pods), w)
count_pull_failures-count_if env s [] n w h = count_none env s n w
count_pull_failures-count_if env s (pod ∷ pods) n w h =
    count_step env s pod pods n w h.0
    ∙ count_pull_failures-count_if env s pods (counted s.current_revision pod n) w h.1
    ∙ ap (λ m. (ok m, w)) (counted-count_if s.current_revision pod pods n)

-- With every pod of PD labelled by its revision, PD is upgraded by force, which opens the
-- partition to all pods at once, exactly when more than half of the replicas are pods of the
-- current revision that cannot pull their image. Otherwise it is upgraded gracefully.
pub upgrade_forced :
    (env : Env) (old : StatefulSet) (w : World) (pods : List Pod) (s : SetStatus) (n : ℕ)
    → pods_with env w.cc.namespace
        (pd_label (with_instance (Label.get instance_label_key w.cc.labels) fresh))
        w.pods
      ≡ ok pods
    → All (λ pod. is_some (revision pod) ≡ true) pods
    → w.cc.status.pd.stateful_set ≡ some s
    → s.replicas ≡ pos n
    → let stuck = count_if (is_stuck s.current_revision) pods in
      ((n < 2 * stuck) × (upgrade env old w ≡ (ok tt, set_partition (pos 0) (set_pd_phase w))))
      ⊎ ((2 * stuck ≤ n) × (upgrade env old w ≡ graceful_upgrade env old w))
unfolding upgrade need_force_upgrade force_upgrade
upgrade_forced env old w pods s n listed labelled st r =
    ground (arith, count_pull_failures-count_if env s pods 0 w labelled)
