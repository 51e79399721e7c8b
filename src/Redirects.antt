-- ===== src/Redirects.antt =====
-- redirects/redirect_store.go
pub mod Cache
pub mod Setup
pub mod Interleaving
use renku_gateway.Prelude.{
  ℕ, ◌==◌, String, str_eq, ◌+++◌, has_prefix, trim_prefix, ℤ, ◌+ℤ◌, ltb_ℤ, scale, not, ◌||◌, Bool,
  true, false, Dict, lookup, insert, Option, none, some, Result, ok, err, other, Exec, pure, raise,
  lift, gets, modify, attempt, ◌>>=◌, ◌>>◌, if◌then◌else◌,
}

pub record PlatformRedirectConfig : Type 0 where
  pub source_url : String
  pub target_url : String

pub record RedirectStoreRedirectEntry : Type 0 where
  pub source_url : String
  pub target_url : String
  pub updated_at : ℤ

-- What `GetRedirectEntry` points to: an entry, or the shared `noRedirectFound`.
pub data RedirectAnswer : Type 0 where
  found : RedirectStoreRedirectEntry → RedirectAnswer
  no_redirect_found : RedirectAnswer

-- The fields that do not change after `NewRedirectStore`, and the packages that the store calls:
-- `query_escape` of net/url, `full_url` (the base URL with "/api/data" and an endpoint), the GET
-- request with its status and body, JSON, and the clock.
pub record RedirectStore (B : Type 0) : Type 0 where
  pub path_prefix : String
  pub redirected_host : String
  pub entry_ttl : ℤ
  pub query_escape : String → String
  pub full_url : String → Result String
  pub http_get : String → Exec B (ℕ × Result (Option String))
  pub unmarshal : String → Result PlatformRedirectConfig
  pub now : B → ℤ × B

-- What changes: the map, which the mutex guards, and the world outside.
pub record RedirectState (B : Type 0) : Type 0 where
  pub redirect_map : Dict RedirectStoreRedirectEntry
  pub backend : B

-- What a client of the gateway gets.
pub data Answer : Type 0 where
  moved_permanently : String → Answer
  status_not_found : Answer

abbrev stamped : PlatformRedirectConfig → ℤ → RedirectStoreRedirectEntry
stamped config now = record {
  source_url = config.source_url;
  target_url = config.target_url;
  updated_at = now;
}

module _ {B : Type 0} (rs : RedirectStore B) where
  abbrev pub outside : {A : Type 0} → Exec B A → Exec (RedirectState B) A
  outside m s = let (r, b) = m s.backend in (r, record s { backend = b })

  abbrev pub read_clock : Exec (RedirectState B) ℤ
  read_clock = outside λ b. let (t, b') = rs.now b in (ok t, b')

  abbrev body_of : ℕ × Result (Option String) → Result (Option String)
  body_of (status, body) =
      if not (status == 200) then err (other "unexpected status code") else body

  unfoldable pub query_renku_api : String → Exec (RedirectState B) (Option String)
  query_renku_api endpoint = do
    url ← lift (rs.full_url endpoint)
    resp ← outside (rs.http_get url)
    lift (body_of resp)

  abbrev parsed_config : Result PlatformRedirectConfig → Result (Option PlatformRedirectConfig)
  parsed_config (err e) = err e
  parsed_config (ok config) = ok (some config)

  abbrev parsed : Option String → Result (Option PlatformRedirectConfig)
  parsed none = err (other "no response body received")
  parsed (some body) = parsed_config (rs.unmarshal body)

  unfoldable pub retrieve_redirect_target_for_source :
      String → Exec (RedirectState B) (Option PlatformRedirectConfig)
  unfolding query_renku_api
  retrieve_redirect_target_for_source source = do
    body ← query_renku_api ("/platform/redirects/" +++ source)
    lift (parsed body)

  unfoldable pub url_to_key : String → Result String
  url_to_key path =
      if str_eq path "" || not (has_prefix path rs.path_prefix)
      then err (other "the path should start with the prefix")
      else ok (
          rs.query_escape
            ("https://" +++ (rs.redirected_host +++ ("/" +++ trim_prefix path rs.path_prefix))))

  abbrev alive : Option RedirectStoreRedirectEntry → Exec (RedirectState B) Bool
  alive none = pure false
  alive (some entry) = do now ← read_clock; pure (ltb_ℤ now (entry.updated_at +ℤ rs.entry_ttl))

  abbrev outdated : Option RedirectStoreRedirectEntry → Exec (RedirectState B) Bool
  outdated none = pure true
  outdated (some entry) = do now ← read_clock; pure (ltb_ℤ (entry.updated_at +ℤ rs.entry_ttl) now)

  abbrev answer_of : Option RedirectStoreRedirectEntry → RedirectAnswer
  answer_of none = no_redirect_found
  answer_of (some entry) = found entry

  abbrev store_entry :
      String → Option PlatformRedirectConfig → Exec (RedirectState B) RedirectAnswer
  store_entry key none = pure no_redirect_found
  store_entry key (some config) = do
    now ← read_clock
    let entry = stamped config now
    modify (λ s. record s { redirect_map = insert key entry s.redirect_map })
    pure (found entry)

  abbrev refreshed : String → Exec (RedirectState B) RedirectAnswer
  refreshed key = do
    updated_entry ← retrieve_redirect_target_for_source key
    store_entry key updated_entry

  -- The part under the write lock. The entry is present where it is not out of date.
  unfoldable pub locked_update : String → Exec (RedirectState B) RedirectAnswer
  unfolding retrieve_redirect_target_for_source
  locked_update key = do
    entry ← gets (λ s. lookup key s.redirect_map)
    is_outdated ← outdated entry
    (if is_outdated then refreshed key else pure (answer_of entry))

  unfoldable pub get_redirect_entry : String → Exec (RedirectState B) RedirectAnswer
  unfolding url_to_key locked_update
  get_redirect_entry path = do
    key ← lift (url_to_key path)
    entry ← gets (λ s. lookup key s.redirect_map)
    is_alive ← alive entry
    (if is_alive then pure (answer_of entry) else locked_update key)

  abbrev answer : Result RedirectAnswer → Answer
  answer (err e) = status_not_found
  answer (ok no_redirect_found) = status_not_found
  answer (ok (found entry)) = moved_permanently entry.target_url

  -- The middleware on a request that has a URL.
  unfoldable pub redirect_middleware : String → Exec (RedirectState B) Answer
  unfolding get_redirect_entry
  redirect_middleware path = do entry ← attempt (get_redirect_entry path); pure (answer entry)
