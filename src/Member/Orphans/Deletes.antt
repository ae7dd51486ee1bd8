-- ===== src/Member/Orphans/Deletes.antt =====
-- Which pods the cleaner deletes (orphan_pods_cleaner.go).
use elasticell_operator.Base.{
  ◌≡◌, ◌⊎◌, inl, inr, refl, String, Bool, true, false, ◌&&◌, not, Option, List, [], ◌∷◌, Dict,
  select, ◌==◌, Bool-cases, arith, subst,
}
use elasticell_operator.Api.Objects.{Pod, Pvc}
use elasticell_operator.Label
use elasticell_operator.Label.{instance_label_key, fresh, with_instance, is_pd, is_store}
use elasticell_operator.Effects.{
  not_found, Result, ok, err, Call, delete_pod, World, Env, pvc_at, pods_with, request, bind-ok,
  Grown, grown_same, grown_more, bind-Grown,
}
use elasticell_operator.Member.Orphans.{
  SkipReason, pvc_name, has_claims, clean_pod, clean_pods, clean, note,
}

abbrev pub is_missing : Result Pvc → Bool
is_missing (err not_found) = true
is_missing _ = false

-- A PD or store pod that names a claim which does not exist.
abbrev pub is_orphan : Env → String → List Pvc → Pod → Bool
is_orphan env namespace pvcs pod =
    has_claims pod
    && not (pvc_name pod.volumes == "")
    && is_missing (pvc_at env namespace (pvc_name pod.volumes) pvcs)

abbrev pub delete_all : List Pod → List Call → List Call
delete_all [] calls = calls
delete_all (pod ∷ pods) calls = delete_all pods (delete_pod pod.name ∷ calls)

abbrev pub with_calls : World → List Call → World
with_calls w calls = record w { calls = calls }

clean_pod_step :
    (env : Env) (namespace : String) (pod : Pod) (w : World)
    → ((clean_pod env namespace pod w).1
        ≡ with_calls w (delete_all (select (is_orphan env namespace w.pvcs) (pod ∷ [])) w.calls))
      ⊎ ((clean_pod env namespace pod w).1 ≡ w)
unfolding clean_pod request
clean_pod_step env namespace pod w = ground arith

clean_pod_ok :
    (env : Env) (namespace : String) (pod : Pod) (w : World) (r : Option SkipReason)
    → (clean_pod env namespace pod w).0 ≡ ok r
    → (clean_pod env namespace pod w).1
      ≡ with_calls w (delete_all (select (is_orphan env namespace w.pvcs) (pod ∷ [])) w.calls)
unfolding clean_pod request
clean_pod_ok env namespace pod w r h = ground arith

clean_pods_ok :
    (env : Env) (namespace : String) (pods : List Pod) (skipped s : Dict SkipReason) (w w' : World)
    → clean_pods env namespace pods skipped w ≡ (ok s, w')
    → w' ≡ with_calls w (delete_all (select (is_orphan env namespace w.pvcs) pods) w.calls)
unfolding clean_pods
clean_pods_ok env namespace [] skipped s w w' h = ground arith
clean_pods_ok env namespace (pod ∷ pods) skipped s w w' h =
    let (r, first, rest) =
      bind-ok (clean_pod env namespace pod)
        (λ r. clean_pods env namespace pods (note env namespace pod.name r skipped)) w h in
    let after = (clean_pod env namespace pod w).1 in
    ground (
      arith,
      clean_pod_ok env namespace pod w r first,
      clean_pods_ok env namespace pods (note env namespace pod.name r skipped) s after w' rest,
    )

-- A request to delete a pod that is an orphan.
abbrev pub DeletesOrphan : Env → String → List Pvc → Call → Type 0
DeletesOrphan env namespace pvcs c =
    (pod : Pod) × (c ≡ delete_pod pod.name) × (is_orphan env namespace pvcs pod ≡ true)

select_one :
    (env : Env) (namespace : String) (pod : Pod) (pvcs : List Pvc) (calls : List Call)
    → Grown
        (DeletesOrphan env namespace pvcs)
        calls
        (delete_all (select (is_orphan env namespace pvcs) (pod ∷ [])) calls)
select_one env namespace pod pvcs calls = elim (Bool-cases (is_orphan env namespace pvcs pod)) [
  | inl e ↦ rw e (grown_more (pod, refl, e) grown_same)
  | inr e ↦ rw e grown_same
]

clean_pod-Grown :
    (env : Env) (namespace : String) (pod : Pod) (w : World)
    → Grown (DeletesOrphan env namespace w.pvcs) w.calls (clean_pod env namespace pod w).1.calls
clean_pod-Grown env namespace pod w = elim (clean_pod_step env namespace pod w) [
  | inl e ↦ simp e (select_one env namespace pod w.pvcs w.calls)
  | inr e ↦ simp e grown_same
]

clean_pod-pvcs :
    (env : Env) (namespace : String) (pod : Pod) (w : World)
    → (clean_pod env namespace pod w).1.pvcs ≡ w.pvcs
unfolding clean_pod request
clean_pod-pvcs env namespace pod w = ground arith

clean_pods-Grown :
    (env : Env) (namespace : String) (pods : List Pod) (skipped : Dict SkipReason) (w : World)
    → Grown
        (DeletesOrphan env namespace w.pvcs)
        w.calls
        (clean_pods env namespace pods skipped w).1.calls
unfolding clean_pods
clean_pods-Grown env namespace [] skipped w = grown_same
clean_pods-Grown env namespace (pod ∷ pods) skipped w =
    let v = (clean_pod env namespace pod w).1 in
    bind-Grown (DeletesOrphan env namespace w.pvcs) (clean_pod env namespace pod)
      (λ r. clean_pods env namespace pods (note env namespace pod.name r skipped)) w
      (clean_pod-Grown env namespace pod w)
      λ r.
        subst
          (λ pvcs.
            Grown (DeletesOrphan env namespace pvcs) v.calls
              (clean_pods env namespace pods (note env namespace pod.name r skipped) v).1.calls)
          (clean_pod-pvcs env namespace pod w)
          (clean_pods-Grown env namespace pods (note env namespace pod.name r skipped) v)

-- The selector of the cluster's objects.
abbrev pub selector : World → Dict String
selector w = with_instance (Label.get instance_label_key w.cc.labels) fresh

-- If the cleaner returns no error, it has asked to delete exactly the orphans among the cluster's
-- pods, each once and in the lister's order, and has changed nothing else.
pub clean_deletes_orphans :
    (env : Env) (w w' : World) (pods : List Pod) (s : Dict SkipReason)
    → clean env w ≡ (ok s, w')
    → pods_with env w.cc.namespace (selector w) w.pods ≡ ok pods
    → w' ≡ with_calls w (delete_all (select (is_orphan env w.cc.namespace w.pvcs) pods) w.calls)
unfolding clean
clean_deletes_orphans env w w' pods s h listed =
    clean_pods_ok env w.cc.namespace pods [] s w w' (ground arith)

-- With an error too, all that the cleaner ever asks for is to delete orphans.
pub clean-Grown :
    (env : Env) (w : World)
    → Grown (DeletesOrphan env w.cc.namespace w.pvcs) w.calls (clean env w).1.calls
unfolding clean
clean-Grown env w =
    bind-Grown (DeletesOrphan env w.cc.namespace w.pvcs)
      (λ v. (pods_with env w.cc.namespace (selector w) v.pods, v))
      (λ pods. clean_pods env w.cc.namespace pods []) w grown_same
      λ pods. clean_pods-Grown env w.cc.namespace pods [] w
