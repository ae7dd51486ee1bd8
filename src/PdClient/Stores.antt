-- ===== src/PdClient/Stores.antt =====
-- Deleting a store of PD, and the clients per cluster (pd_control.go).
use elasticell_operator.Base.{
  ℕ, Bool, true, false, ◌||◌, ◌≡◌, refl, ◌⊎◌, inl, inr, Option, some, none, List, ◌∷◌, nat_eq, Dict,
  arith, eq_iff,
}
use elasticell_operator.Base.Maps.{lookup-insert}
use elasticell_operator.Api.Cluster.{CellCluster}
use elasticell_operator.Effects.{Error, Result, ok, err}
use elasticell_operator.Member.PdManager.Status.{is_ok}
use elasticell_operator.PdClient.{
  Server, Client, Response, Request, delete_url, store_url, get_store, delete_store, get_pd_client,
  pd_client_key, pd_client_url, new_pd_client,
}

-- PD says that it deleted the store, or that it does not have it.
abbrev is_gone : Result Response → Bool
is_gone (ok res) = nat_eq res.status_code 200 || nat_eq res.status_code 404
is_gone (err e) = false

found_cases : {A : Type 0} → (r : Result A) → ((e : Error) × (r ≡ err e)) ⊎ (is_ok r ≡ true)
found_cases (err e) = inl (e, refl)
found_cases (ok a) = inr refl

Option-cases : (o : Option Error) → ((e : Error) × (o ≡ some e)) ⊎ (o ≡ none)
Option-cases (some e) = inl (e, refl)
Option-cases none = inr refl

module _ (server : Server) (client : Client) where
  -- Deleting a store asks PD to delete it, once, exactly if PD answers that it has the store and the
  -- request can be made, and then succeeds exactly if PD deleted it or has it no more. In the other
  -- two cases nothing is asked and the error met is returned.
  pub delete_store_cases :
      (id : ℕ) (sent : List Request)
      → let (r, now) = delete_store server client id sent in
        let url = store_url server client id in
        ((e : Error) × (now ≡ sent) × (r ≡ err e) × (get_store server client id ≡ err e))
        ⊎ ((e : Error) × (now ≡ sent)
            × (r ≡ err e)
            × (is_ok (get_store server client id) ≡ true)
            × (server.new_request url ≡ some e))
        ⊎ ((now ≡ delete_url url ∷ sent)
            × (is_ok (get_store server client id) ≡ true)
            × (server.new_request url ≡ none)
            × (is_ok r ≡ is_gone (server.http_delete url)))
  unfolding delete_store
  delete_store_cases id sent =
      let url = store_url server client id in
      elim (found_cases (get_store server client id)) [
        | inl (e, missing) ↦ inl (e, ground arith, ground arith, missing)
        | inr found ↦ elim (Option-cases (server.new_request url)) [
          | inl (e, bad) ↦ inr (inl (e, ground arith, ground arith, found, bad))
          | inr good ↦ inr (inr (ground arith, found, good, ground arith))
        ]
      ]

-- A cluster's client is made once: asked again, the same client is returned and none is made.
pub get_pd_client_again :
    (cluster : CellCluster) (clients : Dict Client)
    → let (c, known) = get_pd_client cluster clients in get_pd_client cluster known ≡ (c, known)
unfolding get_pd_client
get_pd_client_again cluster clients =
    let key = pd_client_key cluster.namespace cluster.name in
    let made = new_pd_client (pd_client_url cluster.namespace cluster.name) in
    ground (arith, eq_iff key key, lookup-insert key key made clients)
