-- ===== src/Scheduler/Ha/Lock.antt =====
-- The lock that the marked claim is (ha.go, realAcquireLock).
pub mod Marks
use elasticell_operator.Base.{
  subst, Bool-cases, inl, inr, ℕ, suc, ◌<◌, ◌≡◌, ◌≢◌, ◌⊎◌, refl, Option, none, some, List, [], ◌∷◌,
  String, ◌==◌, eq_iff, if◌then◌else◌, arith,
}
use elasticell_operator.Api.Objects.{Pod, Pvc}
use elasticell_operator.Label
use elasticell_operator.Label.{component_label_key, instance_label_key}
use elasticell_operator.Effects.{ok, World, Env, find, pvcs_with}
use elasticell_operator.Scheduler.Ha.{
  pvc_name, component_labels, is_scheduling, find_claims, lock_claims, take_over, acquire_lock,
}

-- Two found claims stand at places before `i`, and are the same claim if the places are equal.
abbrev pub Agree : String → ℕ → Option (ℕ × Pvc) → Option (ℕ × Pvc) → Type 0
Agree name i none none = Unit
Agree name i (some (a, p)) none = (a < i) × (p.name ≡ name)
Agree name i none (some (b, q)) = b < i
Agree name i (some (a, p)) (some (b, q)) = (a < i) × (b < i) × (p.name ≡ name) × ((a ≢ b) ⊎ (p ≡ q))

abbrev pub claim_of : Option (ℕ × Pvc) → Option Pvc
claim_of none = none
claim_of (some (i, p)) = some p

abbrev or_else : Option Pvc → Option Pvc → Option Pvc
or_else none o = o
or_else (some p) o = some p

pub find_claims-scheduling :
    (name : String) (i : ℕ) (pvcs : List Pvc) (c s : Option (ℕ × Pvc))
    → claim_of (find_claims name i pvcs c s).1 ≡ or_else (claim_of s) (find is_scheduling pvcs)
unfolding find_claims
find_claims-scheduling name i [] c none = refl
find_claims-scheduling name i [] c (some s) = refl
find_claims-scheduling name i (pvc ∷ pvcs) c none = elim (Bool-cases (is_scheduling pvc)) [
  | inl e ↦ ground (
    arith,
    find_claims-scheduling name (suc i) pvcs (if pvc.name == name then some (i, pvc) else c)
        (some (i, pvc)),
  )
  | inr e ↦ ground (
    arith,
    find_claims-scheduling name (suc i) pvcs (if pvc.name == name then some (i, pvc) else c) none,
  )
]
find_claims-scheduling name i (pvc ∷ pvcs) c (some s) =
    find_claims-scheduling name (suc i) pvcs _ (some s)

Agree-step :
    (name : String) (i : ℕ) (pvc : Pvc) (c s : Option (ℕ × Pvc))
    → Agree name i c s
    → Agree name
        (suc i)
        (if pvc.name == name then some (i, pvc) else c)
        (elim s [ none ↦ if is_scheduling pvc then some (i, pvc) else none | some t ↦ some t ])
Agree-step name i pvc none none h = ground (arith, eq_iff pvc.name name)
Agree-step name i pvc none (some s) h = ground (arith, eq_iff pvc.name name)
Agree-step name i pvc (some c) none h = ground (arith, eq_iff pvc.name name)
Agree-step name i pvc (some c) (some s) h = ground (arith, eq_iff pvc.name name)

pub find_claims-Agree :
    (name : String) (i : ℕ) (pvcs : List Pvc) (c s : Option (ℕ × Pvc))
    → Agree name i c s
    → let (c', s') = find_claims name i pvcs c s in (n : ℕ) × Agree name n c' s'
unfolding find_claims
find_claims-Agree name i [] c s h = (i, h)
find_claims-Agree name i (pvc ∷ pvcs) c s h =
    find_claims-Agree name (suc i) pvcs _ _ (Agree-step name i pvc c s h)

-- The claim that holds the lock, if any, is the pod's own or is bound.
abbrev pub Released : String → Option Pvc → Type 0
Released name none = Unit
Released name (some q) = (q.name ≡ name) ⊎ (q.phase ≡ "Bound")

claims-Released :
    (env : Env) (name : String) (n : ℕ) (c s : Option (ℕ × Pvc)) (w : World)
    → Agree name n c s
    → (lock_claims env (c, s) w).0 ≡ ok tt
    → Released name (claim_of s)
unfolding take_over
claims-Released env name n none s w a h = ground arith
claims-Released env name n (some c) none w a h = tt
claims-Released env name n (some (i, p)) (some (j, q)) w a h =
    ground (arith, eq_iff q.phase "Bound")

-- A pod takes the lock only when the first marked claim among its component's claims, if there is
-- one, is the pod's own or is already bound.
pub acquire_lock_excludes :
    (env : Env) (pod : Pod) (pvcs : List Pvc) (w : World)
    → pvcs_with env pod.namespace
        (component_labels
          (Label.get instance_label_key pod.labels)
          (Label.get component_label_key pod.labels))
        w.pvcs
      ≡ ok pvcs
    → (acquire_lock env pod w).0 ≡ ok tt
    → Released
        (pvc_name (Label.get component_label_key pod.labels) pod.name)
        (find is_scheduling pvcs)
unfolding acquire_lock
acquire_lock_excludes env pod pvcs w listed h =
    let name = pvc_name (Label.get component_label_key pod.labels) pod.name in
    let (c, s) = find_claims name 0 pvcs none none in
    let (n, agree) = find_claims-Agree name 0 pvcs none none tt in
    subst (Released name) (find_claims-scheduling name 0 pvcs none none)
      (claims-Released env name n c s w agree (ground arith))
