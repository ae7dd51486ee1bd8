-- ===== src/PdClient/Members.antt =====
-- Removing a member of PD, by its name or its id (pd_control.go).
use elasticell_operator.Base.{String, true, ◌≡◌, some, List, [], ◌∷◌, any, nat_eq, ◌==◌, arith}
use elasticell_operator.Effects.{ok, find}
use elasticell_operator.PdClient.{
  Server, Client, Member, MembersInfo, Request, member_list, get_members, delete_member,
  delete_member_by_id,
}

found_listed :
    (ms : List Member) (name : String) (m : Member)
    → find (λ (x : Member). x.name == name) ms ≡ some m
    → any (λ (x : Member). nat_eq x.member_id m.member_id) ms ≡ true
found_listed [] name m h = ground arith
found_listed (x ∷ ms) name m h = ground (arith, found_listed ms name m)

module _ (server : Server) (client : Client) where
  -- Removing a member by its name is removing the first listed member of that name by its id, and
  -- if there is none nothing is sent.
  pub delete_member-by_id :
      (info : MembersInfo) (name : String) (m : Member) (sent : List Request)
      → member_list server client ≡ ok info
      → find (λ (x : Member). x.name == name) info.members ≡ some m
      → delete_member server client name sent ≡ delete_member_by_id server client m.member_id sent
  unfolding delete_member delete_member_by_id get_members
  delete_member-by_id info name m sent l f = ground (arith, found_listed info.members name m f)
