-- ===== src/Db/Mock/Hashes.antt =====
-- Hashes in the mock (db/redisadapters_mock.go).
use renku_gateway.Prelude.{
  ◌%◌, String, str_eq, str_eq-false, eq_refl, ℤ, Dict, lookup, insert, has_key, lookup-insert,
  is_unique, is_unique-append, true, false, Option, none, some, List, [], ◌∷◌, ◌++◌, append-nil,
  append_assoc, ◌≡◌, ◌≢◌, refl, sym, ap, ◌∙◌, Result, ok, err, arith,
}
use renku_gateway.Db.Client.{Value, KeepsHashes, hash_of, field_cons}
use renku_gateway.Db.Mock.{
  MockRedisClient, length, fill, convert_values_to_map, stored, hset, with_field, marshalled_fields,
  fields_of, hget_all, expire_at, persist, mock_redis_client,
}

with_field-eq-ok :
    (j : String) (w : Value) (r : Result (Dict String)) (g : Dict String)
    → with_field j w r ≡ ok g
    → (u : String) × (h : Dict String) × (w ≡ Value.text u) × (r ≡ ok h) × (g ≡ (j, u) ∷ h)
with_field-eq-ok j (Value.instant t) r g e = cc
with_field-eq-ok j (Value.text v) (err x) g e = cc
with_field-eq-ok j (Value.text v) (ok h) g e = (v, h, refl, refl, ground arith)

-- A field with a new name is added at the end.
marshalled_fields-insert :
    (k v : String) (d : Dict Value) (g : Dict String)
    → marshalled_fields d ≡ ok g
    → has_key k g ≡ false
    → marshalled_fields (insert k (Value.text v) d) ≡ ok (g ++ ((k, v) ∷ []))
unfolding insert marshalled_fields
marshalled_fields-insert k v [] [] e new = refl
marshalled_fields-insert k v [] (f ∷ g) e new = cc
marshalled_fields-insert k v ((j, w) ∷ d) g e new =
    let (u, h, is_text, before, is_cons) = with_field-eq-ok j w (marshalled_fields d) g e in
    let new' : has_key k ((j, u) ∷ h) ≡ false = sym (ap (has_key k) is_cons) ∙ new in
    let differ : str_eq j k ≡ false = ground arith in
    let rest = marshalled_fields-insert k v d h before (ground arith) in
    let put : insert k (Value.text v) ((j, w) ∷ d) ≡ (j, w) ∷ insert k (Value.text v) d =
      rw differ refl in
    ap marshalled_fields put
    ∙ ap (λ x. with_field j x (marshalled_fields (insert k (Value.text v) d))) is_text
    ∙ ap (with_field j (Value.text u)) rest
    ∙ ap (λ l. ok (l ++ ((k, v) ∷ []))) (sym is_cons)

field_cons-eq-some :
    (k v : String) (o : Option (Dict String)) (h : Dict String)
    → field_cons k v o ≡ some h
    → (g : Dict String) × (o ≡ some g) × (h ≡ (k, v) ∷ g)
field_cons-eq-some k v none h e = cc
field_cons-eq-some k v (some g) h e = (g, refl, ground arith)

-- The loop over alternating names and texts puts each field after those that are there.
fill-hash :
    (d : Dict Value) (vs : List Value) (g h : Dict String)
    → marshalled_fields d ≡ ok g
    → hash_of vs ≡ some h
    → is_unique (g ++ h) ≡ true
    → (d' : Dict Value) × (fill d vs ≡ some d') × (marshalled_fields d' ≡ ok (g ++ h))
unfolding hash_of fill
fill-hash d [] g [] before e u = (d, refl, before ∙ ap (λ l. ok l) (sym (append-nil g)))
fill-hash d [] g (f ∷ h) before e u = cc
fill-hash d (Value.instant t ∷ vs) g h before e u = cc
fill-hash d (Value.text k ∷ []) g h before e u = cc
fill-hash d (Value.text k ∷ Value.instant t ∷ vs) g h before e u = cc
fill-hash d (Value.text k ∷ Value.text v ∷ vs) g h before e u =
    let (h', e', is_cons) = field_cons-eq-some k v (hash_of vs) h e in
    let u' : is_unique (g ++ ((k, v) ∷ h')) ≡ true =
      sym (ap (λ l. is_unique (g ++ l)) is_cons) ∙ u in
    let new = is_unique-append k v g h' u' in
    let again : (g ++ ((k, v) ∷ [])) ++ h' ≡ g ++ ((k, v) ∷ h') = append_assoc g ((k, v) ∷ []) h' in
    let (d', filled, texts) =
      fill-hash (insert k (Value.text v) d) vs (g ++ ((k, v) ∷ [])) h'
        (marshalled_fields-insert k v d g before new) e' (rw again u') in
    (d', filled, texts ∙ ap (λ l. ok l) (again ∙ ap (λ l. g ++ l) (sym is_cons)))

hash_of_even : (vs : List Value) (h : Dict String) → hash_of vs ≡ some h → length vs % 2 ≡ 0
unfolding hash_of
hash_of_even [] h e = refl
hash_of_even (Value.instant t ∷ vs) h e = cc
hash_of_even (Value.text k ∷ []) h e = cc
hash_of_even (Value.text k ∷ Value.instant t ∷ vs) h e = cc
hash_of_even (Value.text k ∷ Value.text v ∷ vs) h e =
    let (h', e', is_cons) = field_cons-eq-some k v (hash_of vs) h e in
    let rest = hash_of_even vs h' e' in omega arith

-- What HGETALL answers in a state of the mock.
abbrev pub answered : MockRedisClient → String → Result (Dict String)
answered m k = fields_of (lookup k m.store)

-- HSET puts just the given fields at the key, and leaves the other keys.
pub answered-hset :
    (k : String) (vs : List Value) (h : Dict String) (m m' : MockRedisClient)
    → hash_of vs ≡ some h
    → is_unique h ≡ true
    → hset k vs m ≡ (ok tt, m')
    → answered m' k ≡ ok h
unfolding hset convert_values_to_map
answered-hset k vs h m m' e u done =
    let (d, filled, texts) = fill-hash [] vs [] h (unfold marshalled_fields in refl) e u in
    sym (ap (λ x. answered x.1 k) (rw (hash_of_even vs h e, filled) at done))
    ∙ rw (lookup-insert k k d m.store, eq_refl k) texts

pub answered-hset_other :
    (k : String) (vs : List Value) (m m' : MockRedisClient) (j : String)
    → k ≢ j
    → hset k vs m ≡ (ok tt, m')
    → answered m' j ≡ answered m j
unfolding hset
answered-hset_other k vs m m' j differ done = by_conversion (convert_values_to_map vs) done
  where
    by_conversion :
        (c : Option (Dict Value × Result (Unit {0})))
        → stored k c m ≡ (ok tt, m')
        → answered m' j ≡ answered m j
    by_conversion none p = cc
    by_conversion (some (val, r)) p =
        sym (ap (λ x. answered x.1 j) p)
        ∙ rw (lookup-insert k j val m.store, str_eq-false k j differ) refl

-- The mock meets what the adapter relies on, at any time.
unfoldable pub mock_keeps_hashes : ℤ → KeepsHashes mock_redis_client
unfolding hget_all expire_at persist
mock_keeps_hashes now = record {
  stored = answered;
  time = λ m. now;
  hget_all_stored = λ k m. refl;
  stored-hset = λ k vs h m m' e u p.
      ([], answered-hset k vs h m m' e u p ∙ ap (λ l. ok l) (sym (append-nil h)));
  stored-hset_other = answered-hset_other;
  stored-expire_at = λ k t m m' j future p. sym (ap (λ x. answered x.1 j) p);
  stored-persist = λ k m m' j p. sym (ap (λ x. answered x.1 j) p);
  time-hset = λ k vs m m' p. refl;
  time-expire_at = λ k t m m' p. refl;
  time-persist = λ k m m' p. refl;
}
