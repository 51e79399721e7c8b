-- ===== src/Oidc/Setup.antt =====
-- How the clients are made (oidc/client.go, oidc/client_store.go).
use renku_gateway.Prelude.{
  String, str_eq, eq_iff, ◌==◌, not, Bool-cases, Dict, lookup, insert, lookup-insert, has_key,
  is_unique, true, false, Option, none, some, List, [], ◌∷◌, ◌≡◌, inl, inr, refl, sym, ap, ◌∙◌,
  arith, ok, err, is_ok, Exec, pure, lift, ◌>>=◌, ◌>>◌, >>=-eq-ok, if◌then◌else◌,
}
use Prim.Native.String.{len}
use renku_gateway.Config.{OidcClient as ClientConfig}
use renku_gateway.Config.Keys.{validate_oidc_config}
use renku_gateway.Oidc.{RelyingParty, OidcClient}
use renku_gateway.Oidc.Store.{ClientStore, find_client}

-- httphelper.CookieHandler of the OIDC library, by its two keys; no encryption key is nil.
pub record StateCookies : Type 0 where
  pub hash_key : String
  pub encryption_key : Option String

-- rp.Option
pub data RpOption : Type 0 where
  with_cookie_handler : StateCookies → RpOption
  with_pkce : StateCookies → RpOption

-- The arguments of rp.NewRelyingPartyOIDC, which asks the issuer for its endpoints.
pub record RpConfig : Type 0 where
  pub issuer : String
  pub client_id : String
  pub client_secret : String
  pub callback_uri : String
  pub scopes : List String
  pub options : List RpOption

-- A key of no bytes is nil.
abbrev pub key_or_nil : String → Option String
key_or_nil key = if len key == 0 then none else some key

abbrev state_cookies : ClientConfig → StateCookies
state_cookies c = record {
  hash_key = c.cookie_hash_key;
  encryption_key = key_or_nil c.cookie_encoding_key;
}

-- PKCE keeps its verifier in a cookie, so without a cookie handler it is not used.
unfoldable pub rp_options : ClientConfig → List RpOption
rp_options c =
    if not c.unsafe_no_cookie_handler
    then with_cookie_handler (state_cookies c)
      ∷ (if c.use_pkce then with_pkce (state_cookies c) ∷ [] else [])
    else []

module _ {W S : Type 0} (new_relying_party : RpConfig → Exec W (RelyingParty S)) where
  unfoldable pub make_client : ClientConfig → Exec W (RelyingParty S)
  unfolding rp_options
  make_client c = new_relying_party (record {
    issuer = c.issuer;
    client_id = c.client_id;
    client_secret = c.client_secret;
    callback_uri = c.callback_uri;
    scopes = c.scopes;
    options = rp_options c;
  })

  -- newClient with the option withOIDCConfig
  unfoldable pub new_client : String → ClientConfig → Exec W (OidcClient S)
  unfolding make_client
  new_client id c = do
    lift (validate_oidc_config c)
    client ← make_client c
    pure (record { client = client; id = id })

  -- The loop; Go's order of iteration is not fixed, the list's is.
  unfoldable pub add_clients : Dict ClientConfig → ClientStore S → Exec W (ClientStore S)
  add_clients [] clients = pure clients
  add_clients ((id, config) ∷ more) clients = do
    client ← new_client id config
    add_clients more (insert id client clients)

  unfoldable pub new_client_store : Dict ClientConfig → Exec W (ClientStore S)
  unfolding add_clients
  new_client_store configs = add_clients configs []

  new_client_id :
      (id : String) (c : ClientConfig) (w w' : W) (client : OidcClient S)
      → new_client id c w ≡ (ok client, w')
      → client.id ≡ id
  unfolding new_client
  new_client_id id c w w' client e =
      let (_, t, p, q) = >>=-eq-ok (lift (validate_oidc_config c)) _ w e in
      let (r, u, p', q') = >>=-eq-ok (make_client c) _ t q in
      sym (ap (λ x. elim x.0 [ ok a ↦ a.id | err y ↦ id ]) q')

  -- What the loop makes of an ID.
  abbrev IsAdded : String → Dict ClientConfig → (before after : ClientStore S) → Type 0
  IsAdded id configs before after =
      (has_key id configs ≡ true
        → (client : OidcClient S) × (lookup id after ≡ some client) × (client.id ≡ id))
      × (has_key id configs ≡ false → lookup id after ≡ lookup id before)

  add_clients-IsAdded :
      (id : String) (configs : Dict ClientConfig) (clients clients' : ClientStore S) (w w' : W)
      → is_unique configs ≡ true
      → add_clients configs clients w ≡ (ok clients', w')
      → IsAdded id configs clients clients'
  unfolding add_clients is_unique
  add_clients-IsAdded id [] clients clients' w w' u e =
      (λ h. cc h, λ h. sym (ap (λ x. lookup id (elim x.0 [ ok a ↦ a | err y ↦ clients ])) e))
  add_clients-IsAdded id ((name, config) ∷ more) clients clients' w w' u e =
      let (client, t, p, q) = >>=-eq-ok (new_client name config) _ w e in
      let own = new_client_id name config w t client p in
      let (added, kept) =
        add_clients-IsAdded id more (insert name client clients) clients' t w' (ground arith) q in
      let put = lookup-insert name id client clients in
      elim (Bool-cases (str_eq name id)) [
        | inl same ↦
            let is_id : name ≡ id = ground (arith, eq_iff name id) in
            let once : has_key id more ≡ false = rw (← is_id) (ground arith) in
            (λ h. (client, kept once ∙ put ∙ rw same refl, own ∙ is_id), λ h. absurd (ground arith))
        | inr differ ↦ (λ h. added (ground arith), λ h. kept (ground arith) ∙ put ∙ rw differ refl)
      ]

  -- The store that is made of a configuration has a client for exactly the providers of the
  -- configuration, each under its own ID.
  pub find_client-new_client_store :
      (id : String) (configs : Dict ClientConfig) (clients : ClientStore S) (w w' : W)
      → is_unique configs ≡ true
      → new_client_store configs w ≡ (ok clients, w')
      → (has_key id configs ≡ true
          → (client : OidcClient S) × (find_client clients id ≡ ok client) × (client.id ≡ id))
        × (has_key id configs ≡ false → is_ok (find_client clients id) ≡ false)
  unfolding new_client_store find_client lookup
  find_client-new_client_store id configs clients w w' u e =
      let (added, kept) = add_clients-IsAdded id configs [] clients w w' u e in
      (
        λ h. let (client, found, own) = added h in (client, rw found refl, own),
        λ h. rw (kept h) refl,
      )
