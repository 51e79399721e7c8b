-- ===== src/Oidc/Store.antt =====
-- oidc/client_store.go
use renku_gateway.Prelude.{
  String, Dict, lookup, Option, none, some, Result, ok, err, other, Exec, raise,
}
use renku_gateway.Models.Token.{AuthToken}
use renku_gateway.Models.TokenSet.{AuthTokenSet}
use renku_gateway.Oidc.{OidcClient}
use renku_gateway.Oidc

-- A map from provider IDs to clients.
abbrev pub ClientStore : Type 0 → Type 0
ClientStore S = Dict (OidcClient S)

module _ {S : Type 0} where
  abbrev client_of : Option (OidcClient S) → Result (OidcClient S)
  client_of none = err (other "cannot find the provider with the ID")
  client_of (some c) = ok c

  -- The client that `AuthHandler` and `CodeExchangeHandler` make their handler from.
  unfoldable pub find_client : ClientStore S → String → Result (OidcClient S)
  find_client c provider_id = client_of (lookup provider_id c)

  abbrev refreshed_by : AuthToken → Result (OidcClient S) → Exec S AuthTokenSet
  refreshed_by token (err e) = raise e
  refreshed_by token (ok client) = Oidc.refresh_access_token client token

  -- The refresh token's own provider is asked.
  unfoldable pub refresh_access_token : ClientStore S → AuthToken → Exec S AuthTokenSet
  unfolding find_client
  refresh_access_token c token = refreshed_by token (find_client c token.provider_id)
