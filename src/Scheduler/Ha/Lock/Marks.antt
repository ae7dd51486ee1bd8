-- ===== src/Scheduler/Ha/Lock/Marks.antt =====
-- What a pod that takes the lock asks for (ha.go, realAcquireLock).
use elasticell_operator.Base.{
  ℕ, ◌≡◌, ◌≢◌, ◌⊎◌, true, false, Bool, Option, none, some, String, List, ◌∷◌, ◌==◌, eq_iff, arith,
  if◌then◌else◌,
}
use elasticell_operator.Api.Objects.{Pod, Pvc}
use elasticell_operator.Label
use elasticell_operator.Label.{component_label_key, instance_label_key, ann_pvc_pod_scheduling}
use elasticell_operator.Effects.{Call, update_pvc, ok, World, Env, find, pvcs_with, request}
use elasticell_operator.Member.Update.Lost.{annotation-annotate}
use elasticell_operator.Scheduler.Ha.{
  pvc_name, component_labels, is_scheduling, set_scheduling, find_claims, lock_claims, take_over,
  set_current_pod_scheduling, acquire_lock,
}
use elasticell_operator.Scheduler.Ha.Lock.{
  Agree, claim_of, find_claims-Agree, find_claims-scheduling,
}

abbrev pub is_own : String → Option Pvc → Bool
is_own name none = false
is_own name (some q) = q.name == name

-- The claim that the newest request marks.
abbrev pub marked_name : List Call → Option String
marked_name (update_pvc p ∷ calls) = if is_scheduling p then some p.name else none
marked_name _ = none

set_scheduling-marks :
    (env : Env) (pvc : Pvc)
    → env.format_time env.now ≢ ""
    → is_scheduling (set_scheduling env pvc) ≡ true
set_scheduling-marks env pvc h = ground (
  arith,
  eq_iff (env.format_time env.now) "",
  annotation-annotate ann_pvc_pod_scheduling (env.format_time env.now) pvc.annotations,
)

lock_claims-marks :
    (env : Env) (name : String) (n : ℕ) (c s : Option (ℕ × Pvc)) (w : World)
    → env.format_time env.now ≢ ""
    → Agree name n c s
    → (lock_claims env (c, s) w).0 ≡ ok tt
    → let calls = (lock_claims env (c, s) w).1.calls in
      ((calls ≡ w.calls) × (is_own name (claim_of s) ≡ true)) ⊎ (marked_name calls ≡ some name)
unfolding take_over set_current_pod_scheduling request
lock_claims-marks env name n none s w f a h = ground arith
lock_claims-marks env name n (some (i, p)) none w f a h =
    ground (arith, set_scheduling-marks env p f)
lock_claims-marks env name n (some (i, p)) (some (j, q)) w f a h =
    ground (arith, set_scheduling-marks env p f, eq_iff q.name name)

-- A pod that takes the lock asks last for the mark on its own claim, unless the first marked claim
-- of its component is its own and nothing is asked. A time is never the empty text.
pub acquire_lock_marks :
    (env : Env) (pod : Pod) (pvcs : List Pvc) (w : World)
    → env.format_time env.now ≢ ""
    → pvcs_with env pod.namespace
        (component_labels
          (Label.get instance_label_key pod.labels)
          (Label.get component_label_key pod.labels))
        w.pvcs
      ≡ ok pvcs
    → (acquire_lock env pod w).0 ≡ ok tt
    → let name = pvc_name (Label.get component_label_key pod.labels) pod.name in
      let calls = (acquire_lock env pod w).1.calls in
      ((calls ≡ w.calls) × (is_own name (find is_scheduling pvcs) ≡ true))
      ⊎ (marked_name calls ≡ some name)
unfolding acquire_lock
acquire_lock_marks env pod pvcs w f listed h =
    let name = pvc_name (Label.get component_label_key pod.labels) pod.name in
    let (c, s) = find_claims name 0 pvcs none none in
    let (n, agree) = find_claims-Agree name 0 pvcs none none tt in
    ground (
      arith,
      find_claims-scheduling name 0 pvcs none none,
      lock_claims-marks env name n c s w f agree (ground arith),
    )
