-- ===== src/Member/Rollout.antt =====
-- What a rolling update may do to a StatefulSet: it lowers the partition to one ordinal, whose pod
-- is still old, and only when every pod above that ordinal is updated and ready.
use elasticell_operator.Base.{
  ℕ, suc, ◌<◌, ◌≡◌, ℤ, pos, negsuc, String, Bool, false, Option, none, some, lookup, not, ◌==◌,
  arith, inl, inr, ◌⊎◌, sym, subst,
}
use elasticell_operator.Api.Objects.{Pod, StatefulSet}
use elasticell_operator.Effects.{Result, ok, err, World}
use elasticell_operator.Member.Config.{set_upgrade_partition, controller_revision_hash_label_key}

abbrev pub revision : Pod → Option String
revision pod = lookup controller_revision_hash_label_key pod.labels

-- The number of ordinals that `for i := replicas - 1; i >= 0; i--` visits.
abbrev pub ordinals : ℤ → ℕ
ordinals (pos n) = n
ordinals (negsuc n) = 0

-- `before` is the new StatefulSet with the partition of the old one, `after` what the update makes
-- of it. `hold` leaves the partition while the pod of an ordinal is being prepared.
pub data Rollout (Ready Stale Waiting : ℕ → Type 0) (n : ℕ) (before after : StatefulSet)
    : Type 0 where
  complete :
      after ≡ before → ((j : ℕ) → j < n → Ready j) → Rollout Ready Stale Waiting n before after
  lower :
      (i : ℕ)
      → i < n
      → after ≡ set_upgrade_partition before (pos i)
      → Stale i
      → ((j : ℕ) → i < j → j < n → Ready j)
      → Rollout Ready Stale Waiting n before after
  hold :
      (i : ℕ)
      → i < n
      → after ≡ before
      → Waiting i
      → ((j : ℕ) → i < j → j < n → Ready j)
      → Rollout Ready Stale Waiting n before after

abbrev same_revision : String → Option String → Bool
same_revision rev none = false
same_revision rev (some hash) = hash == rev

abbrev other_revision : String → Option String → Bool
other_revision rev none = false
other_revision rev (some hash) = not (hash == rev)

-- The pod that a lister returned carries the update revision, or carries another one.
abbrev pub is_updated : String → Result Pod → Bool
is_updated rev (err e) = false
is_updated rev (ok pod) = same_revision rev (revision pod)

abbrev pub is_outdated : String → Result Pod → Bool
is_outdated rev (err e) = false
is_outdated rev (ok pod) = other_revision rev (revision pod)

le_cases : (j n : ℕ) → j < suc n → (j ≡ n) ⊎ (j < n)
le_cases j n h = omega arith

above :
    {Ready : ℕ → Type 0} {n i : ℕ}
    → Ready n
    → ((j : ℕ) → i < j → j < n → Ready j)
    → (j : ℕ) → i < j
    → j < suc n
    → Ready j
above {Ready} {n} r all j lo hi = elim (le_cases j n hi) [
  | inl p ↦ subst Ready (sym p) r
  | inr q ↦ all j lo q
]

module _ {Ready Stale Waiting : ℕ → Type 0} where
  -- One more ready pod above.
  pub Rollout-suc :
      {n : ℕ} {before after : StatefulSet}
      → Ready n
      → Rollout Ready Stale Waiting n before after
      → Rollout Ready Stale Waiting (suc n) before after
  Rollout-suc {n} r (complete e all) =
      complete e λ j h. elim (le_cases j n h) [ inl p ↦ subst Ready (sym p) r | inr q ↦ all j q ]
  Rollout-suc {n} r (lower i h e s all) = lower i (omega arith) e s (above {Ready = Ready} r all)
  Rollout-suc {n} r (hold i h e s all) = hold i (omega arith) e s (above {Ready = Ready} r all)

-- The same rollout, its facts about ordinals restated.
pub Rollout-map :
    {Ready Stale Waiting Ready' Stale' Waiting' : ℕ → Type 0} {n : ℕ} {before after : StatefulSet}
    → ((j : ℕ) → Ready j → Ready' j)
    → ((j : ℕ) → Stale j → Stale' j)
    → ((j : ℕ) → Waiting j → Waiting' j)
    → Rollout Ready Stale Waiting n before after
    → Rollout Ready' Stale' Waiting' n before after
Rollout-map r s t (complete e all) = complete e (λ j h. r j (all j h))
Rollout-map r s t (lower i h e x all) = lower i h e (s i x) (λ j a b. r j (all j a b))
Rollout-map r s t (hold i h e x all) = hold i h e (t i x) (λ j a b. r j (all j a b))

-- Nothing is prepared where no Waiting is possible.
abbrev pub Never : ℕ → Type 0
Never i = ⊥

abbrev pub set_partition : ℤ → World → World
set_partition ordinal w = record w { draft = set_upgrade_partition w.draft ordinal }

-- The world with another StatefulSet under construction.
abbrev pub with_draft : World → StatefulSet → World
with_draft w set = record w { draft = set }
