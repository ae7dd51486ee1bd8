-- ===== src/Discovery/Handlers.antt =====
-- pkg/discovery/server/mux.go: the HTTP handlers of the discovery service. go-restful and base64 are
-- parameters; an error of writing the response is only logged.
use elasticell_operator.Base.{ℕ, String, Option, none, ◌≡◌, ◌⊎◌, inl, inr, refl}
use elasticell_operator.Api.Cluster.{CellCluster}
use elasticell_operator.Effects.{Error, Result, ok, err}
use elasticell_operator.Discovery.{Server, State, discover, get_store_config, get_proxy_config}

-- A response: the text with status 200, or an error with its status.
pub data Response : Type 0 where
  written : String → Response
  failed : ℕ → Error → Response

-- `http.StatusInternalServerError`.
abbrev pub internal_server_error : ℕ
internal_server_error = 500

abbrev pub respond : Result String → Response
respond (ok text) = written text
respond (err e) = failed internal_server_error e

module _ (server : Server) (decode : String → Result String) where
  abbrev discovered :
      Result String × State × Option CellCluster → Response × State × Option CellCluster
  discovered (r, s, stored) = (respond r, s, stored)

  abbrev discover_decoded : Result String → State → Response × State × Option CellCluster
  discover_decoded (err e) s = (failed internal_server_error e, s, none)
  discover_decoded (ok url) s = discovered (discover server url s)

  unfoldable pub new_pd_handler : String → State → Response × State × Option CellCluster
  new_pd_handler encoded s = discover_decoded (decode encoded) s

  unfoldable pub new_store_handler : Response
  new_store_handler = respond (get_store_config server)

  abbrev configured : Result String → Response
  configured (err e) = failed internal_server_error e
  configured (ok pod_ip) = respond (get_proxy_config server pod_ip)

  unfoldable pub new_proxy_handler : String → Response
  new_proxy_handler encoded = configured (decode encoded)

  -- A request whose URL cannot be decoded leaves the known peers and the cluster alone, and one
  -- that can be is answered with the discovery's result, in the discovery's state.
  pub new_pd_handler_cases :
      (encoded : String) (s : State)
      → let (response, s', stored) = new_pd_handler encoded s in
        ((s' ≡ s) × (stored ≡ none))
        ⊎ ((url : String) × (decode encoded ≡ ok url)
            × (response ≡ respond (discover server url s).0)
            × (s' ≡ (discover server url s).1)
            × (stored ≡ (discover server url s).2))
  unfolding new_pd_handler
  new_pd_handler_cases encoded s = by_decode (decode encoded) refl
    where
      by_decode :
          (r : Result String)
          → decode encoded ≡ r
          → let (response, s', stored) = discover_decoded r s in
            ((s' ≡ s) × (stored ≡ none))
            ⊎ ((url : String) × (decode encoded ≡ ok url)
                × (response ≡ respond (discover server url s).0)
                × (s' ≡ (discover server url s).1)
                × (stored ≡ (discover server url s).2))
      by_decode (err e) h = inl (refl, refl)
      by_decode (ok url) h = inr (url, h, refl, refl, refl)
