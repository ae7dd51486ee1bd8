-- ===== src/Meta/Reclaim.antt =====
-- pkg/manager/meta/reclaim_policy_manager.go
pub mod Patches
use elasticell_operator.Base.{String, Bool, true, false, List, [], ◌∷◌, ◌==◌, if◌then◌else◌}
use elasticell_operator.Api.Objects.{Pvc, Pv}
use elasticell_operator.Label
use elasticell_operator.Label.{instance_label_key, fresh, with_instance}
use elasticell_operator.Effects.{
  patch_pv, World, Env, M, pure, gets, ◌>>=◌, ◌>>◌, pv_at, get_pv, list_pvcs, request,
}

module _ (env : Env) (policy : String) where
  -- A claim without a volume is passed over, and so is a volume with the wanted policy.
  unfoldable pub retain : Pvc → M (Unit {0})
  retain pvc = elim (pvc.volume_name == "") [
    | true ↦ pure tt
    | false ↦ do
      pv ← get_pv env pvc.volume_name
      elim (pv.reclaim_policy == policy) [
        | true ↦ pure tt
        | false ↦ request env (patch_pv pv.name policy)
      ]
  ]

  unfoldable pub retain_all : List Pvc → M (Unit {0})
  retain_all [] = pure tt
  retain_all (pvc ∷ pvcs) = do retain pvc; retain_all pvcs

unfoldable pub sync : Env → M (Unit {0})
sync env = do
  cluster ← gets (λ w. w.cc)
  pvcs ←
      list_pvcs env cluster.namespace
        (with_instance (Label.get instance_label_key cluster.labels) fresh)
  retain_all env cluster.spec.pv_reclaim_policy pvcs
