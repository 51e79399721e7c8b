-- ===== src/Revproxy/Rewrite.antt =====
-- `UiServerPathRewrite` of revproxy/middlewares.go.
pub mod Laws
use renku_gateway.Prelude.{
  String, ◌+++◌, has_prefix, trim_prefix, Bool, true, false, ◌||◌, Result, ok, err, and_then,
  if◌then◌else◌,
}

-- The two forms of a path that url.URL keeps.
pub record RequestUrl : Type 0 where
  pub path : String
  pub raw_path : String

-- The endpoints that still go to the UI server.
unfoldable pub stays : String → Bool
stays path =
    has_prefix path "/ui-server/api/allows-iframe"
    || has_prefix path "/ui-server/api/projects"
    || has_prefix path "/ui-server/api/renku/cache.files_upload"
    || has_prefix path "/ui-server/api/last-projects"
    || has_prefix path "/ui-server/api/last-searches"

abbrev rewritten : String → String → String → RequestUrl → RequestUrl
rewritten old new path u = record {
  path = new +++ trim_prefix path old;
  raw_path = new +++ trim_prefix u.raw_path old;
}

abbrev trimmed : String → RequestUrl → RequestUrl
trimmed path u = record {
  path = trim_prefix path "/ui-server";
  raw_path = trim_prefix u.raw_path "/ui-server";
}

-- `reparse` is `url.Parse` of the URL's text. The tests are on the path that the request came with.
unfoldable pub ui_server_path_rewrite :
    (RequestUrl → Result RequestUrl) → RequestUrl → Result RequestUrl
ui_server_path_rewrite reparse u =
    let path = u.path in
    let auth = λ (v : RequestUrl).
      if has_prefix path "/ui-server/auth"
      then reparse (rewritten "/ui-server" "/api" path v)
      else ok v in
    let notebooks = λ (v : RequestUrl).
      if has_prefix path "/ui-server/api/notebooks"
      then reparse (rewritten "/ui-server/api/notebooks" "/api/data/notebooks" path v)
      else ok v in
    let api = λ (v : RequestUrl).
      if has_prefix path "/ui-server/api" then reparse (trimmed path v) else ok v in
    if stays path then ok u else and_then (auth u) (λ v. and_then (notebooks v) api)
