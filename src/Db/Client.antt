-- ===== src/Db/Client.antt =====
-- db/limited_redis_client.go: the Redis commands that the adapter uses. The client itself is
-- go-redis, so it is a parameter; what the adapter relies on is `KeepsHashes`.
use renku_gateway.Prelude.{
  String, Dict, is_unique, true, ℤ, ◌<ℤ◌, ◌≤ℤ◌, ◌≡◌, ◌≢◌, ◌++◌, Result, Option, none, some, List,
  [], ◌∷◌, Exec, ok,
}

-- An argument of HSET: Go's `any` is a text, or an instant whose year has no text form.
pub data Value : Type 0 where
  text : String → Value
  instant : ℤ → Value

pub record RedisClient (R : Type 0) : Type 0 where
  pub expire_at : String → ℤ → Exec R (Unit {0})
  pub del : List String → Exec R (Unit {0})
  pub persist : String → Exec R (Unit {0})
  pub hget_all : String → Exec R (Dict String)
  pub hset : String → List Value → Exec R (Unit {0})

abbrev pub field_cons : String → String → Option (Dict String) → Option (Dict String)
field_cons k v none = none
field_cons k v (some h) = some ((k, v) ∷ h)

-- The hash that alternating names and texts stand for; `none` where an entry is no text.
unfoldable pub hash_of : List Value → Option (Dict String)
hash_of [] = some []
hash_of (text k ∷ text v ∷ more) = field_cons k v (hash_of more)
hash_of _ = none

-- The documented behaviour of a reachable Redis: `stored` is what HGETALL answers at a key, and
-- HSET puts the fields that it is given, each once, into the hash there; fields that it is not given stay. An
-- expiry date that is still to come leaves the hash in place. The three commands take no time.
pub record KeepsHashes {R : Type 0} (c : RedisClient R) : Type 0 where
  pub stored : R → String → Result (Dict String)
  pub time : R → ℤ
  pub hget_all_stored : (k : String) (r : R) → c.hget_all k r ≡ (stored r k, r)
  pub stored-hset :
      (k : String) (vs : List Value) (h : Dict String) (r r' : R)
      → hash_of vs ≡ some h
      → is_unique h ≡ true
      → c.hset k vs r ≡ (ok tt, r')
      → (more : Dict String) × (stored r' k ≡ ok (h ++ more))
  pub stored-hset_other :
      (k : String) (vs : List Value) (r r' : R) (j : String)
      → k ≢ j
      → c.hset k vs r ≡ (ok tt, r')
      → stored r' j ≡ stored r j
  pub stored-expire_at :
      (k : String) (t : ℤ) (r r' : R) (j : String)
      → time r <ℤ t
      → c.expire_at k t r ≡ (ok tt, r')
      → stored r' j ≡ stored r j
  pub stored-persist :
      (k : String) (r r' : R) (j : String) → c.persist k r ≡ (ok tt, r') → stored r' j ≡ stored r j
  pub time-hset :
      (k : String) (vs : List Value) (r r' : R) → c.hset k vs r ≡ (ok tt, r') → time r' ≡ time r
  pub time-expire_at :
      (k : String) (t : ℤ) (r r' : R) → c.expire_at k t r ≡ (ok tt, r') → time r' ≡ time r
  pub time-persist : (k : String) (r r' : R) → c.persist k r ≡ (ok tt, r') → time r' ≡ time r

-- An expiry date that is past deletes the key, as Redis does and the mock does not.
abbrev pub Expires : {R : Type 0} (c : RedisClient R) → KeepsHashes c → Type 0
Expires {R} c laws =
    (k : String) (t : ℤ) (r r' : R)
    → t ≤ℤ laws.time r
    → c.expire_at k t r ≡ (ok tt, r')
    → laws.stored r' k ≡ ok []
