-- ===== src/Member/PdManager/Status.antt =====
-- The members of PD in the cluster's status (syncCellClusterStatus of pd_member_manager.go).
use elasticell_operator.Base.{
  Bool, ◌&&◌, ℕ, ◌≡◌, ◌⊎◌, inl, inr, refl, ap, ◌∙◌, Bool-cases, decimal, ◌≢◌, true, false, Option,
  none, some, List, [], ◌∷◌, Dict, String, arith, lookup, ◌==◌, eq_iff, if◌then◌else◌,
}
use elasticell_operator.Base.Maps.{lookup-insert}
use elasticell_operator.Api.Objects.{StatefulSet}
use elasticell_operator.Api.Cluster.{PdMember}
use elasticell_operator.Effects.{World, Env, Result, ok, err, MemberHealth}
use elasticell_operator.Member.Revisions.{is_upgrading_by}
use elasticell_operator.Member.Builders.PdSet.{pd_labels}
use elasticell_operator.Member.PdManager.{
  collect_members, member_of, same_health, transition_time, sync_pd_status,
}

-- The last report of a list about the member of a name.
abbrev pub last_report : String → List MemberHealth → Option MemberHealth → Option MemberHealth
last_report name [] found = found
last_report name (h ∷ hs) found = last_report name hs (if h.name == name then some h else found)

abbrev pub recorded : ℕ → Dict PdMember → Option MemberHealth → Option PdMember
recorded now old none = none
recorded now old (some h) = some (member_of now old h)

-- After the loop over PD's reports the status names a member exactly when some report does, and
-- what it says of the member is made of the last of these reports.
collect_members-recorded :
    (now : ℕ) (old : Dict PdMember) (hs : List MemberHealth) (name : String)
    → name ≢ ""
    → (members : Dict PdMember) (found : Option MemberHealth)
    → lookup name members ≡ recorded now old found
    → lookup name (collect_members now old hs members)
      ≡ recorded now old (last_report name hs found)
unfolding collect_members
collect_members-recorded now old [] name n members found h = h
collect_members-recorded now old (r ∷ hs) name n members found h =
    collect_members-recorded now old hs name n _ _ (
      ground (
        arith,
        eq_iff r.name name,
        eq_iff r.name "",
        lookup-insert r.name name (member_of now old r) members,
      ))

-- The time of the last change is the earlier one where the earlier status had the member with the
-- same health, and else the present.
abbrev pub Timed : ℕ → Bool → Option PdMember → ℕ → Type 0
Timed now health before time =
    ((m : PdMember) × (before ≡ some m) × (m.health ≡ health) × (time ≡ m.last_transition_time))
    ⊎ (((m : PdMember) → before ≡ some m → m.health ≢ health) × (time ≡ now))

-- No report names the member and no member is recorded, or the member is recorded as the last
-- report says.
abbrev pub Reported : ℕ → String → List MemberHealth → Dict PdMember → Dict PdMember → Type 0
Reported now name reports before after =
    ((last_report name reports none ≡ none) × (lookup name after ≡ none))
    ⊎ ((h : MemberHealth) × (m : PdMember) × (last_report name reports none ≡ some h)
        × (lookup name after ≡ some m)
        × (m.name ≡ h.name)
        × (m.id ≡ decimal h.member_id)
        × (m.health ≡ h.health)
        × Timed now h.health (lookup h.name before) m.last_transition_time)

same_health-true : (a b : Bool) → same_health a b ≡ true → b ≡ a
same_health-true a b h = ground arith

same_health-false : (a b : Bool) → same_health a b ≡ false → b ≢ a
same_health-false a b h = ground arith

transition_time-Timed :
    (now : ℕ) (health : Bool) (before : Option PdMember)
    → Timed now health before (transition_time now health before)
transition_time-Timed now health none = inr ((λ m e. ground arith), refl)
transition_time-Timed now health (some old) = elim (Bool-cases (same_health health old.health)) [
  | inl t ↦ inl (old, refl, same_health-true health old.health t, ground arith)
  | inr f ↦ inr ((λ m e same. same_health-false health old.health f (ground arith)), ground arith)
]

recorded-Reported :
    (now : ℕ) (name : String) (reports : List MemberHealth) (before after : Dict PdMember)
    (o : Option MemberHealth)
    → last_report name reports none ≡ o
    → lookup name after ≡ recorded now before o
    → Reported now name reports before after
recorded-Reported now name reports before after none e h = inl (e, h)
recorded-Reported now name reports before after (some r) e h = inr (
  r,
  member_of now before r,
  e,
  h,
  refl,
  refl,
  refl,
  transition_time-Timed now r.health (lookup r.name before),
)

status-collected :
    (env : Env) (set : StatefulSet) (w w' : World) (reports : List MemberHealth)
    → env.get_health ≡ ok reports
    → sync_pd_status env set w ≡ (ok tt, w')
    → w'.cc.status.pd.members ≡ collect_members env.now w.cc.status.pd.members reports []
unfolding sync_pd_status is_upgrading_by
status-collected env set w w' reports asked h = ground arith

-- After a status sync of PD that returns no error, for every name but the empty one: the status has
-- no member of the name if no report of PD names it, and else has it with the name, the id and the
-- health of the last report. The time of its last change is the one recorded before, where the
-- status before had it with the same health, and else the present.
pub collect_members-last_report :
    (env : Env) (set : StatefulSet) (w w' : World) (reports : List MemberHealth) (name : String)
    → env.get_health ≡ ok reports
    → sync_pd_status env set w ≡ (ok tt, w')
    → name ≢ ""
    → Reported env.now name reports w.cc.status.pd.members w'.cc.status.pd.members
collect_members-last_report env set w w' reports name asked h n =
    let before = w.cc.status.pd.members in
    recorded-Reported env.now name reports before w'.cc.status.pd.members
      (last_report name reports none) refl
      (ap (lookup name) (status-collected env set w w' reports asked h)
        ∙ collect_members-recorded env.now before reports name n [] none refl)

abbrev pub is_ok : {A : Type 0} → Result A → Bool
is_ok (ok a) = true
is_ok (err e) = false

-- Syncing PD's status succeeds exactly when the pods can be listed and PD answers its three
-- requests, and then the status counts as synced. If PD fails one of them, the status counts as
-- not synced. In every failure the members, the leader and the failure members stay those before.
pub sync_pd_status_synced :
    (env : Env) (set : StatefulSet) (w : World)
    → let listed = is_ok (is_upgrading_by env (pd_labels w.cc) set w).0 in
      let answered = is_ok env.get_cluster && is_ok env.get_health && is_ok env.get_pd_leader in
      let (r, w') = sync_pd_status env set w in
      let before = w.cc.status.pd in
      let after = w'.cc.status.pd in
      (is_ok r ≡ (listed && answered))
      × (after.synced ≡ (if listed then answered else before.synced))
      × (after.failure_members ≡ before.failure_members)
      × ((is_ok r ≡ true) ⊎ ((after.members ≡ before.members) × (after.leader ≡ before.leader)))
unfolding sync_pd_status is_upgrading_by
sync_pd_status_synced env set w = ground arith
