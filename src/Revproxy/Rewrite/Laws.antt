-- ===== src/Revproxy/Rewrite/Laws.antt =====
-- Where `UiServerPathRewrite` sends a request.
use renku_gateway.Prelude.{
  String, ◌+++◌, has_prefix, has_prefix-append, has_prefix-trim_prefix, has_prefix_comparable,
  has_prefix_trans, trim_prefix, Bool, true, false, Bool-cases, inl, inr, ◌≡◌, refl, Result,
  Result-cases, ok, err, Error, and_then, arith, if◌then◌else◌,
}
use mathlib.Core.Path.{subst}
use renku_gateway.Revproxy.Rewrite.{RequestUrl, stays, rewritten, trimmed, ui_server_path_rewrite}

-- The documented behaviour of net/url: where the text of a URL with a path under "/api" can be parsed, it gives
-- back its path.
abbrev pub KeepsPath : (RequestUrl → Result RequestUrl) → Type 0
KeepsPath reparse =
    (u v : RequestUrl) → has_prefix u.path "/api" ≡ true → reparse u ≡ ok v → v.path ≡ u.path

-- The routing that the rewrite amounts to.
abbrev pub target : String → String
target path =
    if stays path
    then path
    else if has_prefix path "/ui-server/auth"
    then "/api" +++ trim_prefix path "/ui-server"
    else if has_prefix path "/ui-server/api"
    then trim_prefix path "/ui-server"
    else path

auth_not_api :
    (path : String)
    → has_prefix path "/ui-server/auth" ≡ true
    → has_prefix path "/ui-server/api" ≡ false
unfolding has_prefix
auth_not_api path h = elim (Bool-cases (has_prefix path "/ui-server/api")) [
  | inr k ↦ k
  | inl k ↦ cc (has_prefix_comparable path "/ui-server/auth" "/ui-server/api" h k)
]

notebooks_is_api :
    (path : String)
    → has_prefix path "/ui-server/api/notebooks" ≡ true
    → has_prefix path "/ui-server/api" ≡ true
unfolding has_prefix
notebooks_is_api path h = has_prefix_trans path "/ui-server/api/notebooks" "/ui-server/api" h refl

-- The three rewritten paths are under "/api".
under_api : (s : String) → has_prefix ("/api" +++ s) "/api" ≡ true
under_api s = has_prefix-append "/api" s

under_data : (s : String) → has_prefix ("/api/data/notebooks" +++ s) "/api" ≡ true
unfolding has_prefix
under_data s =
    has_prefix_trans ("/api/data/notebooks" +++ s) "/api/data/notebooks" "/api"
      (has_prefix-append "/api/data/notebooks" s) refl

trimmed_api :
    (path : String)
    → has_prefix path "/ui-server/api" ≡ true
    → has_prefix (trim_prefix path "/ui-server") "/api" ≡ true
trimmed_api path h = has_prefix-trim_prefix path "/ui-server" "/api" h

module _ (reparse : RequestUrl → Result RequestUrl) where
  -- The parse of a URL with a path under "/api" has failed.
  abbrev pub IsUnparsed : Error → Type 0
  IsUnparsed e = (w : RequestUrl) × (has_prefix w.path "/api" ≡ true) × (reparse w ≡ err e)

  -- What comes of the rewrite, where the path is to be `p`.
  abbrev pub Goes : String → Result RequestUrl → Type 0
  Goes p (ok v) = v.path ≡ p
  Goes p (err e) = IsUnparsed e

module _ (reparse : RequestUrl → Result RequestUrl) (keeps : KeepsPath reparse) where
  -- One conditional rewrite, and what follows it.
  step :
      (b : Bool) (w v : RequestUrl) (f : RequestUrl → Result RequestUrl) (p : String)
      → (b ≡ true → has_prefix w.path "/api" ≡ true)
      → ((x : RequestUrl) → x.path ≡ (if b then w.path else v.path) → Goes reparse p (f x))
      → Goes reparse p (and_then (if b then reparse w else ok v) f)
  step true w v f p api rest = elim (Result-cases (reparse w)) [
    | inl (x, parsed) ↦ rw parsed (rest x (keeps w x (api refl) parsed))
    | inr (e, failed) ↦ rw failed (w, api refl, failed)
  ]
  step false w v f p api rest = rest v refl

  join :
      (p : String) (v₁ v₂ v₃ u : RequestUrl) (a n : String)
      → u.path ≡ p
      → v₁.path ≡ (if has_prefix p "/ui-server/auth" then a else u.path)
      → v₂.path ≡ (if has_prefix p "/ui-server/api/notebooks" then n else v₁.path)
      → v₃.path ≡ (if has_prefix p "/ui-server/api" then trim_prefix p "/ui-server" else v₂.path)
      → v₃.path ≡ (
          if has_prefix p "/ui-server/auth"
          then a
          else if has_prefix p "/ui-server/api"
          then trim_prefix p "/ui-server"
          else p)
  join p v₁ v₂ v₃ u a n h e₁ e₂ e₃ = ground (arith, auth_not_api p, notebooks_is_api p)

  and_then_ok : (r : Result RequestUrl) → and_then r (λ x. ok x) ≡ r
  and_then_ok (ok x) = refl
  and_then_ok (err e) = refl

  -- The path comes out as by one choice: the five endpoints of the
  -- UI server keep it, "/ui-server/auth" becomes "/api/auth", and of all else under
  -- "/ui-server/api" the prefix "/ui-server" is dropped. So the branch that sends the notebooks'
  -- paths to "/api/data/notebooks" has no effect on the path: the next one overwrites it. The rewrite
  -- fails only where a URL with a path under "/api" cannot be parsed, with that error.
  pub ui_server_path_rewrite-target :
      (u : RequestUrl) → Goes reparse (target u.path) (ui_server_path_rewrite reparse u)
  unfolding ui_server_path_rewrite
  ui_server_path_rewrite-target u = elim (Bool-cases (stays u.path)) [
    | inl here ↦ rw here refl
    | inr moves ↦
        let auth = rewritten "/ui-server" "/api" u.path u in
        let notebooks =
          λ (x : RequestUrl). rewritten "/ui-server/api/notebooks" "/api/data/notebooks" u.path x in
        rw moves (
          step (has_prefix u.path "/ui-server/auth") auth u _ _
            (λ _. under_api (trim_prefix u.path "/ui-server"))
            λ v₁ e₁.
              step (has_prefix u.path "/ui-server/api/notebooks") (notebooks v₁) v₁ _ _
                (λ _. under_data (trim_prefix u.path "/ui-server/api/notebooks"))
                λ v₂ e₂. subst (Goes reparse _) (and_then_ok _) (
                  step (has_prefix u.path "/ui-server/api") (trimmed u.path v₂) v₂ (λ x. ok x) _
                    (trimmed_api u.path)
                    λ v₃ e₃.
                      join u.path v₁ v₂ v₃ u ("/api" +++ trim_prefix u.path "/ui-server")
                        ("/api/data/notebooks" +++ trim_prefix u.path "/ui-server/api/notebooks")
                        refl e₁ e₂ e₃))
  ]
