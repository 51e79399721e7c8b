-- ===== src/Redirects/Interleaving.antt =====
-- The redirect store under concurrent requests (redirects/redirect_store.go): `GetRedirectEntry` reads
-- the map under the read lock, and does the rest under the write lock, so what happens to the map is a
-- sequence of `locked_update`s, with time passing in between.
use renku_gateway.Prelude.{
  String, str_eq, eq_iff, ◌+++◌, ℤ, pos, ◌+ℤ◌, +ℤ_parts, ◌<ℤ◌, ◌≤ℤ◌, ltb_ℤ, Bool, Bool-cases, true,
  false, Option, Option-cases, none, some, lookup, lookup-insert, ◌≡◌, refl, ap, ◌∙◌, ◌⊎◌, inl, inr,
  >>=-state, lift, pure, arith, if◌then◌else◌,
}
use renku_gateway.Redirects.{
  PlatformRedirectConfig, RedirectStoreRedirectEntry, RedirectStore, RedirectState, locked_update,
  refreshed, store_entry, outside, answer_of, stamped, retrieve_redirect_target_for_source,
  query_renku_api,
}

module _ {B : Type 0} (rs : RedirectStore B) where
  abbrev pub time : RedirectState B → ℤ
  time s = (rs.now s.backend).0

  -- The clock does not go back, neither by itself nor during a request to the API.
  pub record IsMonotone : Type 0 where
    pub later_now : (b : B) → (rs.now b).0 ≤ℤ (rs.now (rs.now b).1).0
    pub later_get : (url : String) (b : B) → (rs.now b).0 ≤ℤ (rs.now (rs.http_get url b).1).0

  -- One request has the write lock, or the world outside changes and no time is lost.
  pub data Step (s : RedirectState B) : RedirectState B → Type 0 where
    updates : (key : String) → Step s (locked_update rs key s).1
    passes : (b : B) → (rs.now s.backend).0 ≤ℤ (rs.now b).0 → Step s (record s { backend = b })

  pub data Steps (s : RedirectState B) : RedirectState B → Type 0 where
    here : Steps s s
    later : {t u : RedirectState B} → Steps s t → Step t u → Steps s u

  -- The same entry, or one that was stored after the other had been out of date.
  abbrev pub Replaces : (new old : RedirectStoreRedirectEntry) → Type 0
  Replaces new old = (old ≡ new) ⊎ (old.updated_at +ℤ rs.entry_ttl <ℤ new.updated_at)

  abbrev pub Kept : String → RedirectStoreRedirectEntry → RedirectState B → Type 0
  Kept key old t =
      (new : RedirectStoreRedirectEntry) × (lookup key t.redirect_map ≡ some new) × Replaces new old

  -- Asking the API leaves the map, and no time is lost.
  abbrev Quiet : (s t : RedirectState B) → Type 0
  Quiet s t = (t.redirect_map ≡ s.redirect_map) × (time s ≤ℤ time t)

  query-Quiet :
      (endpoint : String) (s : RedirectState B)
      → IsMonotone
      → Quiet s (query_renku_api rs endpoint s).1
  unfolding query_renku_api
  query-Quiet endpoint s mono =
      >>=-state (Quiet s) (lift (rs.full_url endpoint)) _ s (refl, omega arith)
        (λ url.
          >>=-state (Quiet s) (outside rs (rs.http_get url)) _ s
            (refl, mono.later_get url s.backend) (λ r. (refl, mono.later_get url s.backend)))

  retrieve-Quiet :
      (key : String) (s : RedirectState B)
      → IsMonotone
      → Quiet s (retrieve_redirect_target_for_source rs key s).1
  unfolding retrieve_redirect_target_for_source
  retrieve-Quiet key s mono =
      let quiet = query-Quiet ("/platform/redirects/" +++ key) s mono in
      >>=-state (Quiet s) (query_renku_api rs ("/platform/redirects/" +++ key)) _ s quiet
        (λ body. quiet)

  -- Storing an entry after the old one has been out of date keeps the promise, for every key.
  store_entry-Kept :
      (key other : String) (c : Option PlatformRedirectConfig) (s t : RedirectState B)
      (old : RedirectStoreRedirectEntry)
      → Quiet s t
      → lookup other s.redirect_map ≡ some old
      → (key ≡ other → old.updated_at +ℤ rs.entry_ttl <ℤ time s)
      → Kept other old (store_entry rs key c t).1
  store_entry-Kept key other none s t old (same, _) there outdated =
      (old, ap (lookup other) same ∙ there, inl refl)
  store_entry-Kept key other (some config) s t old (same, no_loss) there outdated =
      elim (Bool-cases (str_eq key other)) [
        | inl e ↦ (
          stamped config (time t),
          lookup-insert key other (stamped config (time t)) t.redirect_map ∙ rw e refl,
          inr (let late = outdated (ground (arith, eq_iff key other, e)) in omega arith),
        )
        | inr d ↦ (
          old,
          lookup-insert key other (stamped config (time t)) t.redirect_map
              ∙ rw d (ap (lookup other) same ∙ there),
          inl refl,
        )
      ]

  refreshed-Kept :
      (key other : String) (s : RedirectState B) (old : RedirectStoreRedirectEntry)
      → IsMonotone
      → lookup other s.redirect_map ≡ some old
      → (key ≡ other → old.updated_at +ℤ rs.entry_ttl <ℤ time s)
      → Kept other old (refreshed rs key s).1
  refreshed-Kept key other s old mono there outdated =
      let quiet = retrieve-Quiet key s mono in
      >>=-state (Kept other old) (retrieve_redirect_target_for_source rs key) (store_entry rs key) s
        (old, ap (lookup other) quiet.0 ∙ there, inl refl)
        (λ c.
          store_entry-Kept key other c s (retrieve_redirect_target_for_source rs key s).1 old quiet
            there outdated)

  decided-Kept :
      (key other : String) (s t : RedirectState B) (old : RedirectStoreRedirectEntry)
      (a : Option RedirectStoreRedirectEntry) (late : Bool)
      → IsMonotone
      → Quiet s t
      → lookup other s.redirect_map ≡ some old
      → (late ≡ true → key ≡ other → old.updated_at +ℤ rs.entry_ttl <ℤ time s)
      → Kept other old ((if late then refreshed rs key else pure (answer_of rs a)) t).1
  decided-Kept key other s t old a true mono (same, no_loss) there outdated =
      refreshed-Kept key other t old mono (ap (lookup other) same ∙ there)
        (λ e. let late = outdated refl e in omega arith)
  decided-Kept key other s t old a false mono (same, no_loss) there outdated =
      (old, ap (lookup other) same ∙ there, inl refl)

  updates-Kept :
      (key other : String) (s : RedirectState B) (old : RedirectStoreRedirectEntry)
      → IsMonotone
      → lookup other s.redirect_map ≡ some old
      → Kept other old (locked_update rs key s).1
  unfolding locked_update
  updates-Kept key other s old mono there = elim (Option-cases (lookup key s.redirect_map)) [
    | inl missing ↦ rw missing (
        refreshed-Kept key other s old mono there (λ e. absurd (ground (arith, missing, there, e))))
    | inr (entry, present) ↦ rw present (
        decided-Kept key other s (record s { backend = (rs.now s.backend).1 }) old (some entry)
          (ltb_ℤ (entry.updated_at +ℤ rs.entry_ttl) (time s)) mono (refl, mono.later_now s.backend)
          there
          (λ late e.
            let same : entry ≡ old = ground (arith, present, there, e) in
            rw (← same) (ground (arith, late))))
  ]

  step-Kept :
      (key : String) {s t : RedirectState B} (old : RedirectStoreRedirectEntry)
      → IsMonotone
      → Step s t
      → lookup key s.redirect_map ≡ some old
      → Kept key old t
  step-Kept key {s} old mono (updates k) there = updates-Kept k key s old mono there
  step-Kept key old mono (passes b no_loss) there = (old, there, inl refl)

  Replaces-trans :
      (a b c : RedirectStoreRedirectEntry)
      → pos 0 ≤ℤ rs.entry_ttl
      → Replaces b a
      → Replaces c b
      → Replaces c a
  Replaces-trans a b c alive p (inl same) = rw (← same) p
  Replaces-trans a b c alive (inl same) (inr q) = inr (rw same q)
  Replaces-trans a b c alive (inr p) (inr q) =
      let first = +ℤ_parts a.updated_at rs.entry_ttl in
      let second = +ℤ_parts b.updated_at rs.entry_ttl in inr (omega arith)

  -- However requests interleave, and whatever the API answers: an entry never vanishes, and the one that the
  -- map holds for a key is replaced only by one that was stored more than the time to live after it, so
  -- the API's answers for one key are stored at most once in that time. The time to live is not negative
  -- and the clock does not go back.
  pub one_answer_per_ttl :
      (key : String) {s t : RedirectState B} (old : RedirectStoreRedirectEntry)
      → pos 0 ≤ℤ rs.entry_ttl
      → IsMonotone
      → Steps s t
      → lookup key s.redirect_map ≡ some old
      → Kept key old t
  one_answer_per_ttl key old alive mono here there = (old, there, inl refl)
  one_answer_per_ttl key old alive mono (later before last) there =
      let (new, present, replaces) = one_answer_per_ttl key old alive mono before there in
      let (newer, present', replaces') = step-Kept key new mono last present in
      (newer, present', Replaces-trans old new newer alive replaces replaces')
