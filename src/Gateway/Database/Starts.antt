-- ===== src/Gateway/Database/Starts.antt =====
-- When the adapter starts (cmd/gateway/main.go, db/redis_adapter.go).
use renku_gateway.Prelude.{
  String, Bool-cases, true, false, none, some, List, [], ◌∷◌, ◌≡◌, ◌≢◌, ◌⊎◌, inl, inr, refl, ap,
  ◌∙◌, ok,
}
use Prim.Native.String.{len}
use renku_gateway.Models.Token.{Encryptor}
use renku_gateway.Config.{Config, RedisConfig, development, validate}
use renku_gateway.Config.Accepted.{validate-IsSafe}
use renku_gateway.Db.Client.{RedisClient}
use renku_gateway.Db.TokenRepo.{RedisAdapter}
use renku_gateway.Db.Adapter.{
  Drivers, World, Unfinished, outside, with_redis_config, with_ecryption, new_redis_adapter,
  with_address, sentinel_options, applied, finished,
}
use renku_gateway.Gateway.Database.{
  start_database, db_options, encryption_options, empty, key_not_empty, applied-panics,
}

module _ {R : Type 0} (d : Drivers R) where
  -- AES takes keys of 32 bytes.
  abbrev pub TakesKeys : Type 0
  TakesKeys = (key : String) → len key ≡ 32 → (e : Encryptor) × (d.new_gcm_encryptor key ≡ ok e)

  encryption_options_done :
      (c : Config) (client : RedisClient R)
      → TakesKeys
      → (c.login.token_encryption_enabled ≡ true → len c.login.token_encryption_secret_key ≡ 32)
      → (a : RedisAdapter (World R)) × (finished d (
            applied d
              (encryption_options d c)
              (some (ok (record (empty d) { rdb = some (outside client) }))))
          ≡ some (ok a))
  unfolding with_ecryption
  encryption_options_done c client takes long = elim (Bool-cases c.login.token_encryption_enabled) [
    | inr off ↦ (record { rdb = outside client; encryptor = none; codec = d.codec }, rw off refl)
    | inl on ↦
        let (enc, good) = takes c.login.token_encryption_secret_key (long on) in
        (
          record { rdb = outside client; encryptor = some enc; codec = d.codec },
          rw (on, key_not_empty d c.login.token_encryption_secret_key (long on), good) refl,
        )
  ]

  with_redis_config_done :
      (c : RedisConfig) (r : Unfinished R)
      → c.type ≡ "redis"
      → (c.is_sentinel ≡ true) ⊎ (c.addresses ≢ [])
      → (client : RedisClient R) × (with_redis_config d c r
          ≡ some (ok (record r { rdb = some (outside client) })))
  unfolding with_redis_config
  with_redis_config_done c r redis (inl sentinel) =
      (d.new_failover_client (sentinel_options d c), rw (redis, sentinel) refl)
  with_redis_config_done c r redis (inr known) = elim (Bool-cases c.is_sentinel) [
    | inl sentinel ↦ (d.new_failover_client (sentinel_options d c), rw (redis, sentinel) refl)
    | inr single ↦
        let (client, made) = by_addresses c.addresses known in (client, rw (redis, single) made)
  ]
    where
      by_addresses :
          (addresses : List String)
          → addresses ≢ []
          → (client : RedisClient R) × (with_address d c addresses r
              ≡ some (ok (record r { rdb = some (outside client) })))
      by_addresses [] given = absurd (given refl)
      by_addresses (addr ∷ more) given =
          (d.new_client (record { password = c.password; db = c.db_index; addr = addr }), refl)

  -- A configuration of the type "redis" that is accepted for production starts an adapter if it names a sentinel
  -- or an address, as AES takes the key that was validated. Without either of them the program panics:
  -- the validation does not look at the addresses.
  pub start_database-starts :
      (c c' : Config)
      → c.running_environment ≢ development
      → validate c ≡ (ok tt, c')
      → c'.redis.type ≡ "redis"
      → TakesKeys
      → ((c'.redis.is_sentinel ≡ true) ⊎ (c'.redis.addresses ≢ [])
          → (a : RedisAdapter (World R)) × (start_database d c' ≡ some (ok a)))
        × (c'.redis.is_sentinel ≡ false → c'.redis.addresses ≡ [] → start_database d c' ≡ none)
  unfolding start_database new_redis_adapter db_options with_redis_config
  start_database-starts c c' prod valid redis takes =
      let safe = validate-IsSafe c c' prod valid in
      (
        λ known.
            let (client, made) = with_redis_config_done c'.redis (empty d) redis known in
            let (a, done) = encryption_options_done c' client takes safe.key_length in
            (a, ap (λ o. finished d (applied d (encryption_options d c') o)) made ∙ done),
        λ single none_given.
            ap (λ o. finished d (applied d (encryption_options d c') o))
              (rw (redis, single, none_given) refl)
            ∙ ap (finished d) (applied-panics d (encryption_options d c')),
      )
