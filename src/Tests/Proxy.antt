-- ===== src/Tests/Proxy.antt =====
-- The reverse proxy (revproxy) and the redirects (redirects).
use renku_gateway.Prelude.{
  String, ◌+++◌, ℕ, ℤ, pos, ◌+ℤ◌, Bool, true, false, not, Option, none, some, is_some, List, [],
  ◌∷◌, ◌≡◌, ◌≢◌, ◌⊎◌, refl, sym, ap, lookup, insert, Result, ok, err, Error, session_not_found,
  other, ltb_ℤ, ◌<ℤ◌, arith,
}
use renku_gateway.Models.Token.{access_token_type}
use renku_gateway.Sessions.Context.{Context, Action}
use renku_gateway.Sessions.Store.{create}
use renku_gateway.Revproxy.Auth.{Auth, Formats, auth_middleware}
use renku_gateway.Revproxy.Auth.Injected.{auth_middleware-goes_on}
use renku_gateway.Revproxy.Rewrite.{RequestUrl, ui_server_path_rewrite}
use renku_gateway.Revproxy.Rewrite.Laws.{KeepsPath, Goes, ui_server_path_rewrite-target}
use renku_gateway.Redirects.{
  PlatformRedirectConfig, RedirectStoreRedirectEntry, RedirectStore, RedirectState,
  moved_permanently, status_not_found, found, redirect_middleware, locked_update, url_to_key,
}
use renku_gateway.Redirects.Interleaving.{
  IsMonotone, Kept, here, later, passes, updates, one_answer_per_ttl,
}
use renku_gateway.Redirects.Setup.{Packages}
use renku_gateway.Config.{GitlabRedirectsConfig}
use renku_gateway.Redirects.Cache.{redirect_middleware-answers, locked_update-again}
use renku_gateway.Tests.Requests.{World, store, request, with_session}

abbrev auth : Auth World
auth = record {
  sessions = store;
  token_injector = λ token c. (ok tt, record c { headers = insert "X" token.value c.headers });
  provider_id = "renku";
  token_type = access_token_type;
}

auth_middleware-goes_on_example :
    (d : Context World) × ((next : Action World (Unit {0}))
      → auth_middleware auth next with_session ≡ next d)
auth_middleware-goes_on_example = auth_middleware-goes_on auth with_session (λ token c. refl) tt

abbrev notebooks : RequestUrl
notebooks = record { path = "/ui-server/api/notebooks/x"; raw_path = "" }

-- A parser that takes every URL.
same_path : KeepsPath (λ u. ok u)
same_path u v api parsed =
    let is_ok : ok u ≡ ok v = parsed in
    let same : u ≡ v = ground arith in ap (λ w. w.path) (sym same)

ui_server_path_rewrite-target_example :
    Goes (λ u. ok u) "/api/notebooks/x" (ui_server_path_rewrite (λ u. ok u) notebooks)
unfolding renku_gateway.Revproxy.Rewrite.stays renku_gateway.Prelude.has_prefix
    renku_gateway.Prelude.trim_prefix
ui_server_path_rewrite-target_example =
    ui_server_path_rewrite-target (λ u. ok u) same_path notebooks

abbrev pub formats : Formats
formats = record {
  unix_text = λ t. "";
  base_url = λ u. ok u;
  git_credentials = λ u h t. ok h;
  base64 = λ s. s;
  basic = λ u p. u +++ p;
  parse_id_token = λ s. err (other "no claims");
}

abbrev with_anonymous_id : Context World
with_anonymous_id = record (create store request).1 {
  headers = insert "Renku-Auth-Anon-Id" "anon-s1" (create store request).1.headers;
}

-- Renku's API knows one page; the world is the clock.
abbrev page : PlatformRedirectConfig
page = record { source_url = "https://gitlab/a"; target_url = "https://renku/a" }

abbrev redirects : RedirectStore ℤ
redirects = record {
  path_prefix = "/api/gitlab-redirect/";
  redirected_host = "gitlab";
  entry_ttl = pos 300;
  query_escape = λ s. s;
  full_url = λ s. ok s;
  http_get = λ url w. (ok (200, ok (some "body")), w);
  unmarshal = λ body. ok page;
  now = λ w. (w, w);
}

abbrev no_redirects : RedirectState ℤ
no_redirects = record { redirect_map = []; backend = pos 150 }

abbrev entry : RedirectStoreRedirectEntry
entry = record {
  source_url = "https://gitlab/a";
  target_url = "https://renku/a";
  updated_at = pos 150;
}

abbrev one_redirect : RedirectState ℤ
one_redirect = record { redirect_map = ("k", entry) ∷ []; backend = pos 150 }

abbrev outdated_entry : Option RedirectStoreRedirectEntry → Bool
outdated_entry none = false
outdated_entry (some e) = ltb_ℤ (e.updated_at +ℤ pos 300) (pos 150)

locked_update-again_example :
    locked_update redirects "k" one_redirect ≡ (ok (found entry), one_redirect)
unfolding locked_update lookup insert ◌+ℤ◌
locked_update-again_example =
    locked_update-again redirects "k" (found entry) (pos 150) no_redirects one_redirect (pos 150)
      refl refl (λ e h. sym (ap outdated_entry h))

redirect_middleware-answers_example :
    ((redirect_middleware redirects "/api/gitlab-redirect/a" no_redirects).0 ≡ ok status_not_found)
    ⊎ ((key : String) × (e : RedirectStoreRedirectEntry) × (url_to_key redirects
            "/api/gitlab-redirect/a"
          ≡ ok key)
        × (lookup key
              (redirect_middleware redirects "/api/gitlab-redirect/a" no_redirects).1.redirect_map
            ≡ some e)
        × ((redirect_middleware redirects "/api/gitlab-redirect/a" no_redirects).0
            ≡ ok (moved_permanently e.target_url)))
redirect_middleware-answers_example =
    redirect_middleware-answers redirects "/api/gitlab-redirect/a" no_redirects

redirects-IsMonotone : IsMonotone redirects
redirects-IsMonotone = record { later_now = λ b. omega arith; later_get = λ url b. omega arith }

-- Two hundred seconds pass, another page is asked for, and then the first one again.
abbrev aged : RedirectState ℤ
aged = record one_redirect { backend = pos 460 }

abbrev then_another : RedirectState ℤ
then_another = (locked_update redirects "other" aged).1

one_answer_per_ttl_example : Kept redirects "k" entry (locked_update redirects "k" then_another).1
unfolding lookup
one_answer_per_ttl_example =
    one_answer_per_ttl redirects "k" {s = one_redirect} entry (omega arith) redirects-IsMonotone
      (later (later (later here (passes (pos 460) (omega arith))) (updates "other")) (updates "k"))
      refl

abbrev redirects_config : GitlabRedirectsConfig
redirects_config = record {
  enabled = true;
  renku_base_url = some (record { scheme = "https"; host = "renku"; path = "" });
  redirected_host = "";
  entry_ttl_seconds = pos 0;
}

abbrev packages : Packages ℤ
packages = record {
  query_escape = λ s. s;
  full_url = λ url s. ok s;
  http_get = λ url w. (ok (200, ok (some "body")), w);
  unmarshal = λ body. ok page;
  now = λ w. (w, w);
}
