-- ===== src/Redirects/Cache.antt =====
-- The cache of the redirects, and the two locks around it (redirects/redirect_store.go).
use renku_gateway.Prelude.{
  eq_refl, String, str_eq-false, ◌+++◌, trim_prefix-append, has_prefix-append, ℤ, ◌+ℤ◌, ltb_ℤ, Bool,
  true, false, Option-cases, lookup, lookup-insert, Option, none, some, ◌≡◌, ◌≢◌, ap, refl, Result,
  Result-cases, inl, inr, ok, err, Error, >>=-eq-ok, ◌>>=◌, pure, gets, lift, ◌⊎◌, arith,
  if◌then◌else◌,
}
use renku_gateway.Redirects.{
  PlatformRedirectConfig, RedirectStoreRedirectEntry, RedirectAnswer, found, RedirectStore,
  RedirectState, moved_permanently, status_not_found, get_redirect_entry, locked_update, url_to_key,
  alive, answer_of, stamped, refreshed, store_entry, retrieve_redirect_target_for_source,
  redirect_middleware, parsed, parsed_config, query_renku_api,
}

module _ {B : Type 0} (rs : RedirectStore B) where
  -- A path below the store's prefix gets the key of the page with the same path at the old host.
  pub url_to_key-append :
      (rest : String)
      → rs.path_prefix +++ rest ≢ ""
      → url_to_key rs (rs.path_prefix +++ rest)
        ≡ ok (rs.query_escape ("https://" +++ (rs.redirected_host +++ ("/" +++ rest))))
  unfolding url_to_key
  url_to_key-append rest some_path =
      rw
        (
          str_eq-false (rs.path_prefix +++ rest) "" some_path,
          has_prefix-append rs.path_prefix rest,
          trim_prefix-append rs.path_prefix rest,
        )
        refl

  parsed_is_some : (body : Option String) → parsed rs body ≢ ok none
  parsed_is_some none = cc
  parsed_is_some (some b) = config_is_some (rs.unmarshal b)
    where
      config_is_some : (r : Result PlatformRedirectConfig) → parsed_config rs r ≢ ok none
      config_is_some (err e) = cc
      config_is_some (ok config) = cc

  -- Without an error there is always a redirect.
  retrieve_is_some :
      (key : String) (s s' : RedirectState B)
      → retrieve_redirect_target_for_source rs key s ≢ (ok none, s')
  unfolding retrieve_redirect_target_for_source
  retrieve_is_some key s s' e =
      let (body, t, p, q) =
        >>=-eq-ok (query_renku_api rs ("/platform/redirects/" +++ key)) (λ b. lift (parsed rs b)) s
          e in
      parsed_is_some body (ap (λ x. x.0) q)

  -- An answer without an error is an entry, and the map holds it under the key.
  abbrev pub IsStored : String → RedirectAnswer → RedirectState B → Type 0
  IsStored key a s =
      (e : RedirectStoreRedirectEntry) × (a ≡ found e) × (lookup key s.redirect_map ≡ some e)

  store_entry-IsStored :
      (key : String) (r : Option PlatformRedirectConfig) (s s' : RedirectState B)
      (a : RedirectAnswer)
      → r ≢ none
      → store_entry rs key r s ≡ (ok a, s')
      → IsStored key a s'
  store_entry-IsStored key none s s' a some_config e = absurd (some_config refl)
  store_entry-IsStored key (some config) s s' a some_config e = (
    stamped config (rs.now s.backend).0,
    ground arith,
    rw (← ap (λ x. x.1.redirect_map) e) (simp (lookup-insert, eq_refl)),
  )

  refreshed-IsStored :
      (key : String) (s s' : RedirectState B) (a : RedirectAnswer)
      → refreshed rs key s ≡ (ok a, s')
      → IsStored key a s'
  refreshed-IsStored key s s' a e =
      let (r, t, p, q) =
        >>=-eq-ok (retrieve_redirect_target_for_source rs key) (store_entry rs key) s e in
      store_entry-IsStored key r t s' a (λ n. retrieve_is_some key s t (rw (← n) p)) q

  kept-IsStored :
      (key : String) (entry : RedirectStoreRedirectEntry) (old : Bool) (s t s' : RedirectState B)
      (a : RedirectAnswer)
      → lookup key t.redirect_map ≡ some entry
      → (if old then refreshed rs key else pure (found entry)) t ≡ (ok a, s')
      → IsStored key a s'
  kept-IsStored key entry true s t s' a present e = refreshed-IsStored key t s' a e
  kept-IsStored key entry false s t s' a present e =
      (entry, ground arith, rw (← ap (λ x. x.1.redirect_map) e) present)

  -- What the part under the write lock answers is then in the map, whether it has been there or has
  -- been asked for.
  pub locked_update-IsStored :
      (key : String) (s s' : RedirectState B) (a : RedirectAnswer)
      → locked_update rs key s ≡ (ok a, s')
      → IsStored key a s'
  unfolding locked_update
  locked_update-IsStored key s s' a e = elim (Option-cases (lookup key s.redirect_map)) [
    | inl missing ↦ refreshed-IsStored key s s' a (rw missing at e)
    | inr (entry, present) ↦
        let (now, b) = rs.now s.backend in
        kept-IsStored key entry (ltb_ℤ (entry.updated_at +ℤ rs.entry_ttl) (rs.now s.backend).0) s
          (record s { backend = (rs.now s.backend).1 }) s' a present (rw present at e)
  ]

  -- An entry that is alive is answered at once: only the clock is read, and the API is not asked.
  pub get_redirect_entry_alive :
      (path key : String) (entry : RedirectStoreRedirectEntry) (now : ℤ) (s : RedirectState B)
      (b : B)
      → url_to_key rs path ≡ ok key
      → lookup key s.redirect_map ≡ some entry
      → rs.now s.backend ≡ (now, b)
      → ltb_ℤ now (entry.updated_at +ℤ rs.entry_ttl) ≡ true
      → get_redirect_entry rs path s ≡ (ok (found entry), record s { backend = b })
  unfolding get_redirect_entry
  get_redirect_entry_alive path key entry now s b is_key present clock live =
      rw (is_key, present, clock, live) refl

  -- The second test, under the write lock: a request that has seen no entry, and waited for the lock
  -- while another one stored the entry, answers that entry if it is not out of date, without a call
  -- of the API and without a change of the map.
  pub locked_update-again :
      (key : String) (a : RedirectAnswer) (now : ℤ) (s s' : RedirectState B) (b : B)
      → locked_update rs key s ≡ (ok a, s')
      → rs.now s'.backend ≡ (now, b)
      → ((e : RedirectStoreRedirectEntry)
          → lookup key s'.redirect_map ≡ some e
          → ltb_ℤ (e.updated_at +ℤ rs.entry_ttl) now ≡ false)
      → locked_update rs key s' ≡ (ok a, record s' { backend = b })
  unfolding locked_update
  locked_update-again key a now s s' b first clock recent =
      let (e, is_found, present) = locked_update-IsStored key s s' a first in
      rw (present, clock, recent e present, is_found) refl

  -- The same of the whole lookup.
  pub get_redirect_entry-IsStored :
      (path : String) (s s' : RedirectState B) (a : RedirectAnswer)
      → get_redirect_entry rs path s ≡ (ok a, s')
      → (key : String) × (url_to_key rs path ≡ ok key) × IsStored key a s'
  unfolding get_redirect_entry
  get_redirect_entry-IsStored path s s' a e = elim (Result-cases (url_to_key rs path)) [
    | inr (x, bad) ↦ absurd (by_error x (rw bad at e))
    | inl (key, good) ↦ (key, good, by_entry key (rw good at e))
  ]
    where
      by_error : (x : Error) → lift {A = RedirectAnswer} (err x) s ≡ (ok a, s') → ⊥
      by_error x h = cc

      kept :
          (key : String) (entry : RedirectStoreRedirectEntry) (live : Bool) (t : RedirectState B)
          → lookup key t.redirect_map ≡ some entry
          → (if live then pure (found entry) else locked_update rs key) t ≡ (ok a, s')
          → IsStored key a s'
      kept key entry true t present h =
          (entry, ground arith, rw (← ap (λ x. x.1.redirect_map) h) present)
      kept key entry false t present h = locked_update-IsStored key t s' a h

      by_entry :
          (key : String)
          → (do
            entry ← gets (λ s. lookup key s.redirect_map)
            is_alive ← alive rs entry
            (if is_alive then pure (answer_of rs entry) else locked_update rs key))
              s
            ≡ (ok a, s')
          → IsStored key a s'
      by_entry key h = elim (Option-cases (lookup key s.redirect_map)) [
        | inl missing ↦ locked_update-IsStored key s s' a (rw missing at h)
        | inr (entry, present) ↦
            kept key entry (ltb_ℤ (rs.now s.backend).0 (entry.updated_at +ℤ rs.entry_ttl))
              (record s { backend = (rs.now s.backend).1 }) present (rw present at h)
      ]

  -- The middleware sends every request with a URL away, and never to a URL that is not in the map:
  -- it answers 404, or 301 to the target of the entry that the map holds for the request's key.
  pub redirect_middleware-answers :
      (path : String) (s : RedirectState B)
      → ((redirect_middleware rs path s).0 ≡ ok status_not_found)
        ⊎ ((key : String) × (e : RedirectStoreRedirectEntry) × (url_to_key rs path ≡ ok key)
            × (lookup key (redirect_middleware rs path s).1.redirect_map ≡ some e)
            × ((redirect_middleware rs path s).0 ≡ ok (moved_permanently e.target_url)))
  unfolding redirect_middleware
  redirect_middleware-answers path s = elim (Result-cases (get_redirect_entry rs path s).0) [
    | inr (x, bad) ↦ inl (rw bad refl)
    | inl (a, good) ↦
        let (key, is_key, stored) =
          get_redirect_entry-IsStored path s (get_redirect_entry rs path s).1 a
            (ap (λ r. (r, (get_redirect_entry rs path s).1)) good) in
        let (e, is_found, present) = stored in
        inr (key, e, is_key, present, rw (good, is_found) refl)
  ]
