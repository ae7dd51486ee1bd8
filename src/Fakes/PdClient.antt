-- ===== src/Fakes/PdClient.antt =====
-- FakePDControl and FakePDClient of pkg/controller/pd_control.go. A reaction answers with a value
-- of any type and an error; an assertion of another type than the value's panics.
use elasticell_operator.Base.{
  ℕ, String, Bool, true, Option, none, some, List, [], Dict, lookup, insert,
}
use elasticell_operator.Api.Cluster.{CellCluster}
use elasticell_operator.Effects.{
  Error, failure, reaction_not_found, nil_pointer, Result, ok, err, MemberHealth, StoreInfo,
}
use elasticell_operator.PdClient.{
  Member, MembersInfo, StoresInfo, pd_client_key, max_store_down_time_duration,
}

abbrev pub set_pd_client : {C : Type 0} → CellCluster → C → Dict C → Dict C
set_pd_client cluster client clients =
    insert (pd_client_key cluster.namespace cluster.name) client clients

pub record Action : Type 0 where
  pub id : ℕ
  pub name : String
  pub labels : Dict String

abbrev pub no_action : Action
no_action = record { id = 0; name = ""; labels = [] }

pub data Value : Type 0 where
  nothing : Value
  health : List MemberHealth → Value
  members : MembersInfo → Value
  stores : StoresInfo → Value
  one_store : StoreInfo → Value
  flag : Bool → Value
  texts : List String → Value
  member : Option Member → Value

abbrev pub Reaction : Type 0
Reaction = Action → Value × Option Error

abbrev pub Reactions : Type 0
Reactions = Dict Reaction

-- A new client has no reactions.
abbrev pub new_pd_double : Reactions
new_pd_double = []

unfoldable pub add_reaction : String → Reaction → Reactions → Reactions
add_reaction action_type reaction reactions = insert action_type reaction reactions

abbrev answer_of : Value × Option Error → Result Value
answer_of (v, none) = ok v
answer_of (v, some e) = err e

-- `fakeAPI`; without a reaction the answer is the error of a NotFoundReaction.
unfoldable pub fake_api : Reactions → String → Action → Result Value
fake_api reactions action_type action = elim (lookup action_type reactions) [
  | none ↦ err (failure reaction_not_found)
  | some reaction ↦ answer_of (reaction action)
]

abbrev as_health : Value → Result (List MemberHealth)
as_health (health h) = ok h
as_health _ = err nil_pointer

abbrev as_members : Value → Result MembersInfo
as_members (members m) = ok m
as_members _ = err nil_pointer

abbrev as_stores : Value → Result StoresInfo
as_stores (stores s) = ok s
as_stores _ = err nil_pointer

abbrev as_store : Value → Result StoreInfo
as_store (one_store s) = ok s
as_store _ = err nil_pointer

abbrev as_flag : Value → Result Bool
as_flag (flag b) = ok b
as_flag _ = err nil_pointer

abbrev as_texts : Value → Result (List String)
as_texts (texts t) = ok t
as_texts _ = err nil_pointer

abbrev as_member : Value → Result (Option Member)
as_member (member m) = ok m
as_member _ = err nil_pointer

abbrev then_as : {A : Type 0} → (Value → Result A) → Result Value → Result A
then_as assert (ok v) = assert v
then_as assert (err e) = err e

-- The assertion stands before the error is looked at.
abbrev asserted : {A : Type 0} → Result A → Option Error → Result A
asserted (err e) o = err e
asserted (ok a) none = ok a
asserted (ok a) (some e) = err e

-- A request without a reaction that succeeds, with `a`.
abbrev react_or : {A : Type 0} → A → (Value → Result A) → Action → Option Reaction → Result A
react_or a assert action none = ok a
react_or a assert action (some reaction) = let (v, e) = reaction action in asserted (assert v) e

abbrev ignored : Value → Result (Unit {0})
ignored v = ok tt

module _ (reactions : Reactions) where
  unfoldable pub get_health : Result (List MemberHealth)
  get_health = then_as as_health (fake_api reactions "GetHealth" no_action)

  -- The value of the reaction is not used.
  unfoldable pub get_config : Result ℕ
  get_config =
      then_as (λ v. ok max_store_down_time_duration) (fake_api reactions "GetConfig" no_action)

  unfoldable pub get_cluster : Result String
  get_cluster =
      then_as (λ v. ok "elasticell-cluster-demo") (fake_api reactions "GetCluster" no_action)

  unfoldable pub get_members : Result MembersInfo
  get_members = then_as as_members (fake_api reactions "GetMembers" no_action)

  unfoldable pub get_stores : Result StoresInfo
  get_stores = then_as as_stores (fake_api reactions "GetStores" no_action)

  unfoldable pub get_tomb_stone_stores : Result StoresInfo
  get_tomb_stone_stores = then_as as_stores (fake_api reactions "GetTombStoneStores" no_action)

  unfoldable pub get_store : ℕ → Result StoreInfo
  get_store id = then_as as_store (fake_api reactions "GetStore" (record no_action { id = id }))

  unfoldable pub delete_store : ℕ → Result (Unit {0})
  delete_store id =
      react_or tt ignored (record no_action { id = id }) (lookup "DeleteStore" reactions)

  unfoldable pub delete_member_by_id : ℕ → Result (Unit {0})
  delete_member_by_id id =
      react_or tt ignored (record no_action { id = id }) (lookup "DeleteMemberByID" reactions)

  -- The name of this action type ends in a blank.
  unfoldable pub delete_member : String → Result (Unit {0})
  delete_member name =
      react_or tt ignored (record no_action { name = name }) (lookup "DeleteMember " reactions)

  unfoldable pub set_store_labels : ℕ → Dict String → Result Bool
  set_store_labels id labels =
      react_or true as_flag (record no_action { id = id; labels = labels })
        (lookup "SetStoreLabels" reactions)

  unfoldable pub begin_evict_leader : ℕ → Result (Unit {0})
  begin_evict_leader id =
      react_or tt ignored (record no_action { id = id }) (lookup "BeginEvictLeader" reactions)

  unfoldable pub end_evict_leader : ℕ → Result (Unit {0})
  end_evict_leader id =
      react_or tt ignored (record no_action { id = id }) (lookup "EndEvictLeader" reactions)

  unfoldable pub get_evict_leader_schedulers : Result (List String)
  get_evict_leader_schedulers =
      react_or [] as_texts no_action (lookup "GetEvictLeaderSchedulers" reactions)

  unfoldable pub get_pd_leader : Result (Option Member)
  get_pd_leader = react_or none as_member no_action (lookup "GetPDLeader" reactions)

  unfoldable pub transfer_pd_leader : String → Result (Unit {0})
  transfer_pd_leader name =
      react_or tt ignored (record no_action { name = name }) (lookup "TransferPDLeader" reactions)
