-- ===== src/Login/Logout/Ended.antt =====
-- What a logout leaves behind (login/login_server_routes.go).
use renku_gateway.Prelude.{
  ℕ, String, str_eq, str_eq-false, eq_iff, not, Bool, Bool-cases, true, false, ◌&&◌, ◌||◌, Dict,
  lookup, insert, lookup-insert, has_key, Option, some, is_some, [], ◌∷◌, ◌≡◌, ◌⊎◌, inl, inr, refl,
  sym, ap, ◌∙◌, arith, Result, ok, err, lift, and_then, >>=-eq-ok,
}
use renku_gateway.Sessions.Context.{Context, session_at, zero_session}
use renku_gateway.Sessions.Store.{session_ctx_key, delete, get_session_id_from_cookie}
use renku_gateway.Sessions.Store.Lifecycle.{delete_context, delete-eq-ok, delete-removed}
use renku_gateway.Login.{LoginServer, or_default}
use renku_gateway.Login.Logout.{
  Urls, LogoutConfig, LogoutPage, add_provider, with_renku, with_gitlab, gitlab_url, renku_logout,
  template_providers, renku_id_token, get_logout,
}

and_then-eq-ok :
    {A C : Type 0} (r : Result A) (f : A → Result C) (b : C)
    → and_then r f ≡ ok b
    → (a : A) × (r ≡ ok a) × (f a ≡ ok b)
and_then-eq-ok (ok a) f b e = (a, refl, e)
and_then-eq-ok (err x) f b e = cc

module _ {U : Type 0} (urls : Urls U) (config : LogoutConfig U) where
  -- One step leaves the map, or puts one URL under the provider's ID.
  abbrev IsPut : (id : String) (t t' : Dict String) → Type 0
  IsPut id t t' = (u : String) × (t' ≡ insert id u t)

  with_renku-eq-ok :
      (token id issuer : String) (t t' : Dict String)
      → with_renku urls config token id issuer t ≡ ok t'
      → (t' ≡ t) ⊎ ((id ≡ "renku") × IsPut id t t')
  with_renku-eq-ok token id issuer t t' e =
      elim (Bool-cases (str_eq id "renku" && not (str_eq token ""))) [
        | inr off ↦ inl (let same : ok t ≡ ok t' = rw off at e in ground arith)
        | inl on ↦
            let (url, _, put) = and_then-eq-ok (urls.parse issuer) _ t' (rw on at e) in
            inr (
              ground (arith, eq_iff id "renku"),
              (renku_logout urls config token url, ground arith),
            )
      ]

  with_gitlab-eq-ok :
      (id issuer : String) (t t' : Dict String)
      → with_gitlab urls config id issuer t ≡ ok t'
      → (((config.logout_gitlab_upon_renku_logout && str_eq id "gitlab") ≡ false) × (t' ≡ t))
        ⊎ (((config.logout_gitlab_upon_renku_logout && str_eq id "gitlab") ≡ true) × IsPut id t t')
  with_gitlab-eq-ok id issuer t t' e =
      elim (Bool-cases (config.logout_gitlab_upon_renku_logout && str_eq id "gitlab")) [
        | inr off ↦ inl (off, let same : ok t ≡ ok t' = rw off at e in ground arith)
        | inl on ↦
            let (url, _, put) =
              and_then-eq-ok (gitlab_url urls config issuer) (λ u. ok (insert id u t)) t'
                (rw on at e) in
            inr (on, (url, ground arith))
      ]

  -- What a turn does to the entry of GitLab, and to those of unknown providers.
  abbrev wanted : String → Bool
  wanted id = config.logout_gitlab_upon_renku_logout && str_eq id "gitlab"

  add_provider-eq-ok :
      (token id issuer : String) (t t' : Dict String)
      → add_provider urls config token id issuer t ≡ ok t'
      → is_some (lookup "gitlab" t') ≡ (is_some (lookup "gitlab" t) || wanted id)
  unfolding add_provider
  add_provider-eq-ok token id issuer t t' e =
      let (t₁, p, q) =
        and_then-eq-ok (with_renku urls config token id issuer t)
          (λ u. with_gitlab urls config id issuer u) t' e in
      second t₁ (first t₁ (with_renku-eq-ok token id issuer t t₁ p))
        (with_gitlab-eq-ok id issuer t₁ t' q)
    where
      first :
          (t₁ : Dict String)
          → (t₁ ≡ t) ⊎ ((id ≡ "renku") × IsPut id t t₁)
          → lookup "gitlab" t₁ ≡ lookup "gitlab" t
      first t₁ (inl same) = ap (lookup "gitlab") same
      first t₁ (inr (renku, (u, put))) =
          ap (lookup "gitlab") put
          ∙ lookup-insert id "gitlab" u t
          ∙ rw (str_eq-false id "gitlab" (λ g. cc (sym renku ∙ g))) refl

      second :
          (t₁ : Dict String)
          → lookup "gitlab" t₁ ≡ lookup "gitlab" t
          → ((wanted id ≡ false) × (t' ≡ t₁)) ⊎ ((wanted id ≡ true) × IsPut id t₁ t')
          → is_some (lookup "gitlab" t') ≡ (is_some (lookup "gitlab" t) || wanted id)
      second t₁ before (inl (off, same)) =
          ap (λ m. is_some (lookup "gitlab" m)) same ∙ rw (before, off) (ground arith)
      second t₁ before (inr (on, (u, put))) =
          ap (λ m. is_some (lookup "gitlab" m)) put
          ∙ ap (λ x. is_some x) (lookup-insert id "gitlab" u t₁)
          ∙ ground arith

  template_providers-eq-ok :
      (token : String) (ps t t' : Dict String)
      → template_providers urls config token ps t ≡ ok t'
      → is_some (lookup "gitlab" t') ≡ (
          is_some (lookup "gitlab" t)
          || (config.logout_gitlab_upon_renku_logout && has_key "gitlab" ps))
  unfolding template_providers
  template_providers-eq-ok token [] t t' e =
      let same : t ≡ t' = ground arith in rw (← same) (ground arith)
  template_providers-eq-ok token ((id, issuer) ∷ more) t t' e =
      let (t₁, p, q) =
        and_then-eq-ok (add_provider urls config token id issuer t)
          (λ u. template_providers urls config token more u) t' e in
      let turn = add_provider-eq-ok token id issuer t t₁ p in
      let rest = template_providers-eq-ok token more t₁ t' q in ground arith

  module _ {B : Type 0} (l : LoginServer B) where
    open l use {sessions}

    -- Where the logout page is shown, the session has been deleted: the repository has removed the session
    -- of the cookie's ID, if there is one, as its last operation, and the context holds the empty
    -- session, so that nothing is saved at the end of the request. The page asks the browser to leave GitLab
    -- exactly where this is configured and GitLab is a provider, and it leads to the URL of the request, or
    -- to Renku's where there is none.
    pub get_logout-ends :
        (redirect_url : Option String) (c c' : Context B) (page : LogoutPage)
        → get_logout urls config l redirect_url c ≡ (ok page, c')
        → ((id : String) × (d : Context B) × (d ≡ (renku_id_token urls config l c).1)
            × (get_session_id_from_cookie sessions d ≡ (ok id, d))
            × ((id ≡ "")
                ⊎ (sessions.session_repo.remove_session id d.backend ≡ (ok tt, c'.backend))))
          × ((p : ℕ) × (lookup session_ctx_key c'.store ≡ some (session_at p))
              × (c'.heap p ≡ zero_session))
          × (is_some (lookup "gitlab" page.providers)
              ≡ (config.logout_gitlab_upon_renku_logout && has_key "gitlab" l.config.providers))
          × (page.redirect_url ≡ or_default redirect_url l.config.renku_base_url)
    unfolding get_logout lookup
    get_logout-ends redirect_url c c' page e =
        let (token, t, p, q) = >>=-eq-ok (renku_id_token urls config l) _ c e in
        let (_, u, p', q') = >>=-eq-ok (delete sessions) _ t q in
        let (providers, v, p'', q'') =
          >>=-eq-ok (lift (template_providers urls config token l.config.providers [])) _ u q' in
        let (id, read_id) = delete-eq-ok sessions t u p' in
        let (there, empty) = delete_context sessions id t read_id in
        let state = ap (λ x. x.1) p' ∙ ap (λ x. x.1) p'' ∙ ap (λ x. x.1) q'' in
        let shown : LogoutPage = record {
          renku_base_url = l.config.renku_base_url;
          redirect_url = or_default redirect_url l.config.renku_base_url;
          providers = providers;
        } in
        let is_page : ok shown ≡ ok page = ap (λ x. x.0) q'' in
        let same : shown ≡ page = ground arith in
        let listed =
          template_providers-eq-ok token l.config.providers [] providers (ap (λ x. x.0) p'') in
        (
          (
            id,
            t,
            sym (ap (λ x. x.1) p),
            read_id,
            delete-removed sessions id t u c' read_id p' (ap (λ x. x.1) p'' ∙ ap (λ x. x.1) q''),
          ),
          (
            t.next_ref,
            sym (ap (λ x. lookup session_ctx_key x.store) state) ∙ there,
            sym (ap (λ x. x.heap t.next_ref) state) ∙ empty,
          ),
          rw (← same) listed,
          rw (← same) refl,
        )
