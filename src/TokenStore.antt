-- ===== src/TokenStore.antt =====
-- internal/tokenstore/token_store.go: tokens that are refreshed before they expire.
pub mod Redis
pub mod Refresh
pub mod Fresh
use renku_gateway.Prelude.{
  String, str_eq, ℤ, pos, leb_ℤ, Bool, not, Option, none, some, is_some, Result, ok, err, Error,
  other, is_token_not_found, Exec, pure, raise, lift, attempt, ◌>>=◌, ◌>>◌, if◌then◌else◌,
}
use renku_gateway.Models.Token.{AuthToken, zero_token, expired, expires_soon}
use renku_gateway.Models.TokenSet.{AuthTokenSet}

-- models/token_repository.go. On an error the implementation returns the zero token beside it.
pub record TokenRepository (W : Type 0) : Type 0 where
  pub get_access_token : String → Exec W AuthToken
  pub set_access_token : AuthToken → Exec W (Unit {0})
  pub get_refresh_token : String → Exec W AuthToken
  pub set_refresh_token : AuthToken → Exec W (Unit {0})
  pub get_id_token : String → Exec W AuthToken
  pub set_id_token : AuthToken → Exec W (Unit {0})

-- The store over its world `W`: `refresh` is `RefreshAccessToken` of the provider store, and `now`
-- a reading of the clock.
pub record TokenStore (W : Type 0) : Type 0 where
  pub expiry_margin : ℤ
  pub refresh : AuthToken → Exec W AuthTokenSet
  pub token_repo : TokenRepository W
  pub now : W → ℤ × W

-- A token that is missing may have expired: its expiry date is a second after the zero time.
abbrev lapsed_token : AuthToken
lapsed_token = record zero_token { expires_at = pos 1000000000 }

abbrev or_lapsed : Result AuthToken → Result AuthToken
or_lapsed (ok o) = ok o
or_lapsed (err e) = if is_token_not_found e then ok lapsed_token else err e

-- The tokens of a set get the ID under which the old ones are kept.
abbrev with_id : String → AuthToken → AuthToken
with_id token_id o = record o { id = token_id }

abbrev is_absent : AuthToken → Bool
is_absent o = str_eq o.id ""

unfoldable pub in_place : String → AuthTokenSet → AuthTokenSet
in_place token_id s = record {
  access_token = with_id token_id s.access_token;
  refresh_token = with_id token_id s.refresh_token;
  id_token = if is_absent s.id_token then s.id_token else with_id token_id s.id_token;
}

abbrev keep_unless : AuthToken → Result AuthToken → AuthToken
keep_unless token (ok reloaded) = reloaded
keep_unless token (err e) = token

module _ {W : Type 0} (ts : TokenStore W) where
  open ts use {token_repo}

  abbrev pub read_clock : Exec W ℤ
  read_clock w = let (t, w') = ts.now w in (ok t, w')

  unfoldable pub save_fresh_id : AuthToken → Exec W (Unit {0})
  save_fresh_id id_token = if is_absent id_token then pure tt else token_repo.set_id_token id_token

  -- The second half of `refreshAccessToken`.
  unfoldable pub save_fresh : AuthTokenSet → Exec W AuthTokenSet
  unfolding save_fresh_id
  save_fresh fresh_tokens = do
    token_repo.set_access_token fresh_tokens.access_token
    token_repo.set_refresh_token fresh_tokens.refresh_token
    save_fresh_id fresh_tokens.id_token
    pure fresh_tokens

  unfoldable pub refresh_access_token : String → Exec W AuthTokenSet
  unfolding in_place save_fresh
  refresh_access_token token_id = do
    refresh_token ← token_repo.get_refresh_token token_id
    fresh_tokens ← ts.refresh refresh_token
    save_fresh (in_place token_id fresh_tokens)

  abbrev refreshed_access_token : String → AuthToken → Result AuthTokenSet → Exec W AuthToken
  refreshed_access_token token_id token (ok s) = pure s.access_token
  refreshed_access_token token_id token (err e) = do
    reloaded ← attempt (token_repo.get_access_token token_id)
    pure (keep_unless token reloaded)

  abbrev refreshed_id_token : String → AuthToken → Result AuthTokenSet → Exec W AuthToken
  refreshed_id_token token_id token (ok s) =
      pure (if is_absent s.id_token then token else s.id_token)
  refreshed_id_token token_id token (err e) = do
    reloaded ← attempt (token_repo.get_id_token token_id)
    pure (keep_unless token reloaded)

  unfoldable pub unexpired : AuthToken → Exec W AuthToken
  unexpired token = do
    now ← read_clock
    (if expired now token then raise Error.token_expired else pure token)

  -- The part that the two getters share, from the token that was loaded: `refreshed` chooses the new
  -- token from what the refresh gave.
  unfoldable pub renew :
      String → (AuthToken → Result AuthTokenSet → Exec W AuthToken) → AuthToken → Exec W AuthToken
  renew token_id refreshed token = do
    now ← read_clock
    (if expires_soon now ts.expiry_margin token
        then (do fresh ← attempt (refresh_access_token token_id); refreshed token fresh)
        else pure token)

  unfoldable pub fetch :
      Exec W AuthToken
      → String
      → (AuthToken → Result AuthTokenSet → Exec W AuthToken)
      → Exec W AuthToken
  unfolding renew unexpired
  fetch get token_id refreshed = do
    found ← attempt get
    token ← lift (or_lapsed found)
    current ← renew token_id refreshed token
    unexpired current

  unfoldable pub get_fresh_access_token : String → Exec W AuthToken
  unfolding fetch
  get_fresh_access_token token_id =
      fetch (token_repo.get_access_token token_id) token_id (refreshed_access_token token_id)

  unfoldable pub get_fresh_id_token : String → Exec W AuthToken
  unfolding fetch
  get_fresh_id_token token_id =
      fetch (token_repo.get_id_token token_id) token_id (refreshed_id_token token_id)

-- `NewTokenStore`, once its options have run: what they have not set is nil.
pub record Options (W : Type 0) : Type 0 where
  pub expiry_margin : ℤ
  pub provider_store : Option (AuthToken → Exec W AuthTokenSet)
  pub token_repo : Option (TokenRepository W)

abbrev initialized :
    {W : Type 0}
    → (W → ℤ × W)
    → ℤ
    → Option (AuthToken → Exec W AuthTokenSet)
    → Option (TokenRepository W)
    → Result (TokenStore W)
initialized now margin none token_repo = err (other "OIDC providers not initialized")
initialized now margin (some refresh) none = err (other "token repository not initialized")
initialized now margin (some refresh) (some token_repo) =
    ok (record { expiry_margin = margin; refresh = refresh; token_repo = token_repo; now = now })

new_from :
    {W : Type 0}
    → (W → ℤ × W)
    → ℤ
    → Option (AuthToken → Exec W AuthTokenSet)
    → Option (TokenRepository W)
    → Result (TokenStore W)
new_from now margin provider_store token_repo =
    if leb_ℤ margin (pos 0)
    then err (other "invalid value for ExpiryMargin")
    else initialized now margin provider_store token_repo

unfoldable pub new_token_store : {W : Type 0} → (W → ℤ × W) → Options W → Result (TokenStore W)
unfolding new_from
new_token_store now o = new_from now o.expiry_margin o.provider_store o.token_repo
