-- ===== src/Redirects/Setup.antt =====
-- `NewRedirectStore` with the option `WithConfig` (redirects/redirect_store.go).
use renku_gateway.Prelude.{
  ℕ, ◌^◌, ◌*◌, ◌<◌, String, str_eq, ℤ, pos, ◌<ℤ◌, scale, wrap64, wrap64_in_range, Option-cases, ◌⊎◌,
  inl, inr, not, true, Option, none, some, ◌≡◌, ◌≢◌, refl, Result, ok, err, other, arith,
  if◌then◌else◌,
}
use renku_gateway.Config.{Url, GitlabRedirectsConfig, validate_redirects}
use renku_gateway.Redirects.{PlatformRedirectConfig, RedirectStore}

-- The packages that the store calls. `full_url` takes the base URL, which the store keeps.
pub record Packages (B : Type 0) : Type 0 where
  pub query_escape : String → String
  pub full_url : Url → String → Result String
  pub http_get : String → B → Result (ℕ × Result (Option String)) × B
  pub unmarshal : String → Result PlatformRedirectConfig
  pub now : B → ℤ × B

validate_redirects-enabled :
    (c c' : GitlabRedirectsConfig) (seconds : ℕ)
    → c.enabled ≡ true
    → validate_redirects c ≡ (ok tt, c')
    → c'.entry_ttl_seconds ≡ pos seconds
    → (c'.enabled ≡ true) × (c'.renku_base_url ≢ none) × (0 < seconds)
unfolding validate_redirects
validate_redirects-enabled c c' seconds on valid whole = ground arith

scale-pos_InRange :
    (n : ℕ) → 0 < n → n * 1000000000 < 2 ^ 63 → pos 0 <ℤ wrap64 (scale 1000000000 (pos n))
unfolding scale
scale-pos_InRange n positive fits =
    rw (wrap64_in_range (pos (n * 1000000000)) fits (omega arith)) (omega arith)

module _ {B : Type 0} (p : Packages B) where
  abbrev store_of : GitlabRedirectsConfig → Url → RedirectStore B
  store_of c url = record {
    path_prefix = "/api/gitlab-redirect/";
    redirected_host =
        if str_eq c.redirected_host "" then "gitlab.renkulab.io" else c.redirected_host;
    entry_ttl = wrap64 (scale 1000000000 c.entry_ttl_seconds);
    query_escape = p.query_escape;
    full_url = p.full_url url;
    http_get = p.http_get;
    unmarshal = p.unmarshal;
    now = p.now;
  }

  abbrev with_url : GitlabRedirectsConfig → Option Url → Result (Option (RedirectStore B))
  with_url c none = err (other "a RenkuBaseURL must be provided")
  with_url c (some url) = ok (some (store_of c url))

  -- A store that is not enabled is nil, without an error.
  unfoldable pub new_redirect_store : GitlabRedirectsConfig → Result (Option (RedirectStore B))
  new_redirect_store c = if not c.enabled then ok none else with_url c c.renku_base_url

  -- A configuration that `Validate` accepts gives a store, and its entries live for a positive time, also
  -- where the configured one is not positive, as long as the nanoseconds fit into 63 bits.
  pub new_redirect_store-validate :
      (c c' : GitlabRedirectsConfig) (seconds : ℕ)
      → c.enabled ≡ true
      → validate_redirects c ≡ (ok tt, c')
      → c'.entry_ttl_seconds ≡ pos seconds
      → seconds * 1000000000 < 2 ^ 63
      → (rs : RedirectStore B) × (new_redirect_store c' ≡ ok (some rs)) × (pos 0 <ℤ rs.entry_ttl)
  unfolding new_redirect_store
  new_redirect_store-validate c c' seconds on valid whole fits =
      let (on', url, positive) = validate_redirects-enabled c c' seconds on valid whole in
      by_url on' positive (Option-cases c'.renku_base_url) url
    where
      by_url :
          c'.enabled ≡ true
          → 0 < seconds
          → (c'.renku_base_url ≡ none) ⊎ ((u : Url) × (c'.renku_base_url ≡ some u))
          → c'.renku_base_url ≢ none
          → (rs : RedirectStore B) × (new_redirect_store c' ≡ ok (some rs))
            × (pos 0 <ℤ rs.entry_ttl)
      by_url on' positive (inl missing) given = absurd (given missing)
      by_url on' positive (inr (u, e)) given =
          (store_of c' u, rw (on', e) refl, rw whole (scale-pos_InRange seconds positive fits))
