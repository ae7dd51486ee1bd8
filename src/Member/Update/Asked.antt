-- ===== src/Member/Update/Asked.antt =====
-- The StatefulSets that the managers ask the API server to update, and to how many replicas.
use elasticell_operator.Base.{
  String, ◌≡◌, ◌⊎◌, true, false, ℤ, pos, negsuc, ltb_ℤ, eqb_ℤ, List, [], ◌∷◌, arith,
}
use elasticell_operator.Api.Objects.{StatefulSet}
use elasticell_operator.Effects.{World, Env, Call, update_set, request}
use elasticell_operator.Member.Update.{update_if_changed, update_stateful_set}

-- Namespace and name of a StatefulSet, and the number of replicas asked for.
abbrev pub Ask : Type 0
Ask = String × String × ℤ

abbrev pub ask_for : StatefulSet → ℤ → Ask
ask_for set n = (set.namespace, set.name, n)

-- What the updates of StatefulSets among the requests asked for, the newest first.
unfoldable pub asked : List Call → List Ask
asked [] = []
asked (update_set set ∷ calls) = ask_for set set.spec.replicas ∷ asked calls
asked (_ ∷ calls) = asked calls

-- The cached StatefulSets, the cluster's name and namespace, and the updates asked for.
abbrev pub Same : World → World → Type 0
Same w v =
    (v.sets ≡ w.sets)
    × (v.cc.name ≡ w.cc.name)
    × (v.cc.namespace ≡ w.cc.namespace)
    × (asked v.calls ≡ asked w.calls)

pub ltb_ℤ-antisym : (a b : ℤ) → ltb_ℤ a b ≡ false → ltb_ℤ b a ≡ false → a ≡ b
ltb_ℤ-antisym (pos a) (pos b) h k = ground arith
ltb_ℤ-antisym (pos a) (negsuc b) h k = ground arith
ltb_ℤ-antisym (negsuc a) (pos b) h k = ground arith
ltb_ℤ-antisym (negsuc a) (negsuc b) h k = ground arith

pub eqb_ℤ→eq : (a b : ℤ) → eqb_ℤ a b ≡ true → a ≡ b
eqb_ℤ→eq (pos a) (pos b) h = ground arith
eqb_ℤ→eq (pos a) (negsuc b) h = ground arith
eqb_ℤ→eq (negsuc a) (pos b) h = ground arith
eqb_ℤ→eq (negsuc a) (negsuc b) h = ground arith

pub update-asked :
    (env : Env) (old : StatefulSet) (w : World)
    → let calls = (update_if_changed env old w).1.calls in
      (asked calls ≡ asked w.calls)
      ⊎ (asked calls ≡ ask_for old w.draft.spec.replicas ∷ asked w.calls)
unfolding update_if_changed update_stateful_set request asked
update-asked env old w = ground arith
