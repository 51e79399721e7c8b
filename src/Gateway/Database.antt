-- ===== src/Gateway/Database.antt =====
-- The adapter that the program starts with (cmd/gateway/main.go, db/redis_adapter.go).
pub mod Starts
use renku_gateway.Prelude.{
  String, str_eq, str_eq-false, eq_iff, not, ◌&&◌, ◌||◌, ◌==◌, Bool, Bool-cases, true, false,
  Option, none, some, List, [], ◌∷◌, ◌≡◌, ◌≢◌, ◌⊎◌, inl, inr, refl, sym, ap, ◌∙◌, arith, Result,
  Result-cases, ok, err, is_ok, Error, other, if◌then◌else◌,
}
use Prim.Native.String.{len}
use renku_gateway.Models.Token.{Encryptor}
use renku_gateway.Config.{Config, RedisConfig, development, validate}
use renku_gateway.Config.Accepted.{validate-IsSafe, IsSafe}
use renku_gateway.Db.Client.{RedisClient}
use renku_gateway.Db.TokenRepo.{RedisAdapter}
use renku_gateway.Db.Adapter.{
  Drivers, World, Unfinished, RedisAdapterOption, outside, with_redis_config, with_ecryption,
  new_redis_adapter, with_address, sentinel_options, applied, finished, with_encryptor,
}

module _ {R : Type 0} (d : Drivers R) where
  abbrev pub encryption_options : Config → List (RedisAdapterOption R)
  encryption_options c =
      if c.login.token_encryption_enabled && not (str_eq c.login.token_encryption_secret_key "")
      then with_ecryption d c.login.token_encryption_secret_key ∷ []
      else []

  -- The options that `main` gives to `NewRedisAdapter`, and the adapter; `none` is a panic.
  unfoldable pub db_options : Config → List (RedisAdapterOption R)
  db_options c = with_redis_config d c.redis ∷ encryption_options c

  unfoldable pub start_database : Config → Option (Result (RedisAdapter (World R)))
  unfolding db_options
  start_database c = new_redis_adapter d (db_options c)

  -- Tokens are encrypted as configured.
  abbrev pub IsEncrypted : Config → RedisAdapter (World R) → Type 0
  IsEncrypted c a =
      (c.login.token_encryption_enabled ≡ true
        → (e : Encryptor) × (d.new_gcm_encryptor c.login.token_encryption_secret_key ≡ ok e)
          × (a.encryptor ≡ some e))
      × (c.login.token_encryption_enabled ≡ false → a.encryptor ≡ none)

  pub key_not_empty : (key : String) → len key ≡ 32 → str_eq key "" ≡ false
  key_not_empty key h =
      str_eq-false key "" (λ e. let z : 0 ≡ 32 = sym (ap len e) ∙ h in omega arith)

  -- Without the mock there is a client of a server, or an error, or a panic.
  abbrev IsOutside : Unfinished R → Option (Result (Unfinished R)) → Type 0
  IsOutside r o =
      ((o ≡ none) ⊎ ((x : Error) × (o ≡ some (err x))))
      ⊎ ((c : RedisClient R) × (o ≡ some (ok (record r { rdb = some (outside c) }))))

  with_address-IsOutside :
      (c : RedisConfig) (addresses : List String) (r : Unfinished R)
      → IsOutside r (with_address d c addresses r)
  with_address-IsOutside c [] r = inl (inl refl)
  with_address-IsOutside c (addr ∷ more) r =
      inr (d.new_client (record { password = c.password; db = c.db_index; addr = addr }), refl)

  with_redis_config-IsOutside :
      (c : RedisConfig) (r : Unfinished R)
      → c.type ≢ "redis-mock"
      → IsOutside r (with_redis_config d c r)
  unfolding with_redis_config
  with_redis_config-IsOutside c r real =
      let not_mock = str_eq-false c.type "redis-mock" real in
      elim (Bool-cases (str_eq c.type "redis")) [
        | inr strange ↦
            inl (inr (other "unrecognized persistence type", rw (strange, not_mock) refl))
        | inl redis ↦ elim (Bool-cases c.is_sentinel) [
          | inl sentinel ↦
              inr (d.new_failover_client (sentinel_options d c), rw (redis, sentinel) refl)
          | inr single ↦ rw (redis, single) (with_address-IsOutside c c.addresses r)
        ]
      ]

  abbrev pub empty : Unfinished R
  empty = record { rdb = none; encryptor = none }

  -- What the second option makes of the adapter with a client.
  encryption_options-IsEncrypted :
      (c : Config) (client : RedisClient R) (a : RedisAdapter (World R))
      → (c.login.token_encryption_enabled ≡ true → len c.login.token_encryption_secret_key ≡ 32)
      → finished d (
          applied d
            (encryption_options c)
            (some (ok (record empty { rdb = some (outside client) }))))
        ≡ some (ok a)
      → (a.rdb ≡ outside client) × IsEncrypted c a
  unfolding with_ecryption
  encryption_options-IsEncrypted c client a long e =
      elim (Bool-cases c.login.token_encryption_enabled) [
        | inr off ↦
            let made : some (ok (adapter none)) ≡ some (ok a) = rw off at e in
            let same : adapter none ≡ a = ground arith in
            rw (← same) (refl, (λ on. cc (sym on ∙ off), λ _. refl))
        | inl on ↦
            let key = key_not_empty c.login.token_encryption_secret_key (long on) in
            elim (Result-cases (d.new_gcm_encryptor c.login.token_encryption_secret_key)) [
              | inr (x, bad) ↦ absurd (failed x (rw (on, key, bad) at e))
              | inl (enc, good) ↦
                  let made : some (ok (adapter (some enc))) ≡ some (ok a) =
                    rw (on, key, good) at e in
                  let same : adapter (some enc) ≡ a = ground arith in
                  rw (← same) (refl, (λ _. (enc, good, refl), λ off. cc (sym on ∙ off)))
            ]
      ]
    where
      adapter : Option Encryptor → RedisAdapter (World R)
      adapter e' = record { rdb = outside client; encryptor = e'; codec = d.codec }

      failed : (x : Error) → finished d (some (err x)) ≡ some (ok a) → ⊥
      failed x h = cc

  -- After a panic or an error no option runs.
  pub applied-panics : (options : List (RedisAdapterOption R)) → applied d options none ≡ none
  applied-panics [] = refl
  applied-panics (opt ∷ options) = applied-panics options

  applied-fails :
      (options : List (RedisAdapterOption R)) (x : Error)
      → applied d options (some (err x)) ≡ some (err x)
  applied-fails [] x = refl
  applied-fails (opt ∷ options) x = applied-fails options x

  -- A configuration that is accepted for production, once the adapter has started: the adapter has a client of a
  -- server, never the mock, and it encrypts the tokens, with the configured key, exactly if
  -- encryption is enabled.
  pub start_database-IsEncrypted :
      (c c' : Config) (a : RedisAdapter (World R))
      → c.running_environment ≢ development
      → validate c ≡ (ok tt, c')
      → start_database c' ≡ some (ok a)
      → ((client : RedisClient R) × (a.rdb ≡ outside client)) × IsEncrypted c' a
  unfolding start_database new_redis_adapter db_options
  start_database-IsEncrypted c c' a prod valid e =
      let safe = validate-IsSafe c c' prod valid in
      by_client safe (with_redis_config-IsOutside c'.redis empty safe.real_redis)
    where
      continued : Option (Result (Unfinished R)) → Option (Result (RedisAdapter (World R)))
      continued o = finished d (applied d (encryption_options c') o)

      stopped :
          (o : Option (Result (RedisAdapter (World R))))
          → (elim o [ none ↦ true | some r ↦ not (is_ok r) ]) ≡ true
          → some (ok a) ≡ o
          → ⊥
      stopped none t h = cc
      stopped (some (err x)) t h = cc
      stopped (some (ok b)) t h = cc

      by_client :
          IsSafe c'
          → IsOutside empty (with_redis_config d c'.redis empty)
          → ((client : RedisClient R) × (a.rdb ≡ outside client)) × IsEncrypted c' a
      by_client safe (inl (inl panics)) =
          let nothing = ap (finished d) (applied-panics (encryption_options c')) in
          absurd (stopped none refl (sym (sym (ap continued panics) ∙ e) ∙ nothing))
      by_client safe (inl (inr (x, fails))) =
          let nothing = ap (finished d) (applied-fails (encryption_options c') x) in
          absurd (stopped (some (err x)) refl (sym (sym (ap continued fails) ∙ e) ∙ nothing))
      by_client safe (inr (client, made)) =
          let (rdb, encrypted) =
            encryption_options-IsEncrypted c' client a safe.key_length
              (sym (ap continued made) ∙ e) in
          ((client, rdb), encrypted)
