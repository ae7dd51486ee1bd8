-- ===== src/Tests/Rollouts.antt =====
-- The rolling update of three outdated pods of PD, sync by sync.
use elasticell_operator.Base.{ℕ, zero, suc, ◌≤◌, ◌<◌, refl, String, [], ◌∷◌, pos, arith, decimal}
use elasticell_operator.Api.Objects.{StatefulSet}
use elasticell_operator.Names.{pd_pod_name}
use elasticell_operator.Effects.{World, pod_at}
use elasticell_operator.Member.Config.{template_equal, set_upgrade_partition}
use elasticell_operator.Member.PdUpgrader.{graceful_upgrade, graceful_loop}
use elasticell_operator.Member.PdUpgrader.Safety.{Ready, Stale}
use elasticell_operator.Member.PdUpgrader.Progress.{
  CanUpgrade, Round, rolled, start, more, AllStale, rollout_ends,
}
use elasticell_operator.Tests.Data.{env, world, pod_named, set_named, set_status}

-- The world with three pods of PD of some revisions.
abbrev with_pods : String → String → String → World
with_pods a b c = record world {
  pods =
      pod_named "demo-pd-0" "pd" a
      ∷ pod_named "demo-pd-1" "pd" b
      ∷ pod_named "demo-pd-2" "pd" c
      ∷ [];
}

abbrev old : StatefulSet
old = set_named "demo-pd"

can_upgrade : (a b c : String) → CanUpgrade env 3 "new" old (pos 3) (with_pods a b c)
unfolding template_equal
can_upgrade a b c = record {
  status = set_status;
  is_synced = refl;
  has_status = refl;
  has_replicas = refl;
  has_revision = refl;
  has_partition = refl;
  same_template = refl;
}

below_three : (P : ℕ → Type 0) → P 0 → P 1 → P 2 → (j : ℕ) → j < 3 → P j
below_three P a b c zero h = a
below_three P a b c (suc zero) h = b
below_three P a b c (suc (suc zero)) h = c
below_three P a b c (suc (suc (suc j))) h = absurd (omega arith)

abbrev ReadyIn : World → ℕ → Type 0
ReadyIn w j = Ready env w.cc "new" w.pods j

abbrev StaleIn : World → ℕ → Type 0
StaleIn w j = Stale env w.cc "new" w.pods j

all_old : AllStale env 3 "new" (with_pods "old" "old" "old")
unfolding pod_at pd_pod_name decimal
all_old = below_three (StaleIn (with_pods "old" "old" "old")) refl refl refl

first : Round env 3 "new" (with_pods "old" "old" "old") (with_pods "old" "old" "new")
unfolding graceful_upgrade graceful_loop template_equal set_upgrade_partition pod_at pd_pod_name
    decimal
first =
    let v = with_pods "old" "old" "new" in
    rolled old (pos 3) 2 (can_upgrade "old" "old" "old") refl
      (λ j a b.
        below_three (λ j. 2 ≤ j → ReadyIn v j) (λ h. absurd (omega arith))
          (λ h. absurd (omega arith)) (λ h. (refl, refl)) j b a)
      (λ j a s.
        below_three (λ j. j < 2 → StaleIn v j) (λ h. refl) (λ h. refl) (λ h. absurd (omega arith)) j
          (omega arith) a)

second : Round env 3 "new" (with_pods "old" "old" "new") (with_pods "old" "new" "new")
unfolding graceful_upgrade graceful_loop template_equal set_upgrade_partition pod_at pd_pod_name
    decimal
second =
    let v = with_pods "old" "new" "new" in
    rolled old (pos 3) 1 (can_upgrade "old" "old" "new") refl
      (λ j a b.
        below_three (λ j. 1 ≤ j → ReadyIn v j) (λ h. absurd (omega arith)) (λ h. (refl, refl))
          (λ h. (refl, refl)) j b a)
      (λ j a s.
        below_three (λ j. j < 1 → StaleIn v j) (λ h. refl) (λ h. absurd (omega arith))
          (λ h. absurd (omega arith)) j (omega arith) a)

third : Round env 3 "new" (with_pods "old" "new" "new") (with_pods "new" "new" "new")
unfolding graceful_upgrade graceful_loop template_equal set_upgrade_partition pod_at pd_pod_name
    decimal
third =
    let v = with_pods "new" "new" "new" in
    rolled old (pos 3) 0 (can_upgrade "old" "new" "new") refl
      (λ j a b.
        below_three (λ j. 0 ≤ j → ReadyIn v j) (λ h. (refl, refl)) (λ h. (refl, refl))
          (λ h. (refl, refl)) j b a)
      (λ j a s. absurd (omega arith))

rollout_ends_example : ReadyIn (with_pods "new" "new" "new") 1
rollout_ends_example =
    rollout_ends env 3 "new" (with_pods "old" "old" "old") (with_pods "new" "new" "new") all_old
      (more (more (more start first) second) third) 1 (omega arith)

-- After the first round the pod of ordinal 2 is done and that of ordinal 1 is next.
two_done : (j : ℕ) → 1 < j → j < 3 → ReadyIn (with_pods "old" "old" "new") j
unfolding pod_at pd_pod_name decimal
two_done j a b =
    below_three (λ j. 1 < j → ReadyIn (with_pods "old" "old" "new") j) (λ h. absurd (omega arith))
      (λ h. absurd (omega arith)) (λ h. (refl, refl)) j b a
