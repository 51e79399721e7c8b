-- ===== src/Db/Adapter.antt =====
-- The constructor of the adapter and its options (db/redis_adapter.go).
use renku_gateway.Prelude.{
  String, str_eq, ℤ, Option, none, some, List, [], ◌∷◌, Result, ok, err, other, Exec, if◌then◌else◌,
}
use renku_gateway.Models.Token.{Encryptor}
use renku_gateway.Config.{RedisConfig}
use renku_gateway.Db.Client.{RedisClient}
use renku_gateway.Db.Mock.{MockRedisClient, mock_redis_client}
use renku_gateway.Db.Serialize.{Codec}
use renku_gateway.Db.TokenRepo.{RedisAdapter}

-- redis.Options and redis.FailoverOptions of go-redis.
pub record Options : Type 0 where
  pub password : String
  pub db : ℤ
  pub addr : String

pub record FailoverOptions : Type 0 where
  pub master_name : String
  pub sentinel_addrs : List String
  pub password : String
  pub db : ℤ
  pub sentinel_password : String

-- The packages that the options call: go-redis, and `NewGCMEncryptor` over crypto/cipher.
pub record Drivers (R : Type 0) : Type 0 where
  pub new_client : Options → RedisClient R
  pub new_failover_client : FailoverOptions → RedisClient R
  pub new_gcm_encryptor : String → Result Encryptor
  pub codec : Codec

-- What the clients act on: the servers outside, and the mock's map.
abbrev pub World : Type 0 → Type 0
World R = R × MockRedisClient

abbrev first : {R A : Type 0} → Exec R A → Exec (World R) A
first m (r, k) = let (a, r') = m r in (a, (r', k))

abbrev second : {R A : Type 0} → Exec MockRedisClient A → Exec (World R) A
second m (r, k) = let (a, k') = m k in (a, (r, k'))

abbrev pub outside : {R : Type 0} → RedisClient R → RedisClient (World R)
outside c = record {
  expire_at = λ k t. first (c.expire_at k t);
  del = λ ks. first (c.del ks);
  persist = λ k. first (c.persist k);
  hget_all = λ k. first (c.hget_all k);
  hset = λ k vs. first (c.hset k vs);
}

abbrev pub mock : {R : Type 0} → RedisClient (World R)
mock = record {
  expire_at = λ k t. second (mock_redis_client.expire_at k t);
  del = λ ks. second (mock_redis_client.del ks);
  persist = λ k. second (mock_redis_client.persist k);
  hget_all = λ k. second (mock_redis_client.hget_all k);
  hset = λ k vs. second (mock_redis_client.hset k vs);
}

-- The adapter while the options fill it in.
pub record Unfinished (R : Type 0) : Type 0 where
  pub rdb : Option (RedisClient (World R))
  pub encryptor : Option Encryptor

-- `none` is a panic.
abbrev pub RedisAdapterOption : Type 0 → Type 0
RedisAdapterOption R = Unfinished R → Option (Result (Unfinished R))

module _ {R : Type 0} (d : Drivers R) where
  abbrev with_client : Unfinished R → RedisClient (World R) → Option (Result (Unfinished R))
  with_client r c = some (ok (record r { rdb = some c }))

  -- Addresses[0], which panics where there is no address.
  abbrev pub with_address : RedisConfig → List String → RedisAdapterOption R
  with_address c [] r = none
  with_address c (addr ∷ more) r =
      with_client r
        (outside (d.new_client (record { password = c.password; db = c.db_index; addr = addr })))

  abbrev pub sentinel_options : RedisConfig → FailoverOptions
  sentinel_options c = record {
    master_name = c.master_name;
    sentinel_addrs = c.addresses;
    password = c.password;
    db = c.db_index;
    sentinel_password = c.password;
  }

  unfoldable pub with_redis_config : RedisConfig → RedisAdapterOption R
  with_redis_config c r =
      if str_eq c.type "redis"
      then (if c.is_sentinel
          then with_client r (outside (d.new_failover_client (sentinel_options c)))
          else with_address c c.addresses r)
      else if str_eq c.type "redis-mock"
      then with_client r mock
      else some (err (other "unrecognized persistence type"))

  abbrev pub with_encryptor : Unfinished R → Result Encryptor → Result (Unfinished R)
  with_encryptor r (err e) = err e
  with_encryptor r (ok enc) = ok (record r { encryptor = some enc })

  unfoldable pub with_ecryption : String → RedisAdapterOption R
  with_ecryption secret_key r = some (with_encryptor r (d.new_gcm_encryptor secret_key))

  abbrev then_option :
      RedisAdapterOption R → Option (Result (Unfinished R)) → Option (Result (Unfinished R))
  then_option opt none = none
  then_option opt (some (err e)) = some (err e)
  then_option opt (some (ok r)) = opt r

  -- The options in order, up to the first error or panic.
  abbrev pub applied :
      List (RedisAdapterOption R) → Option (Result (Unfinished R)) → Option (Result (Unfinished R))
  applied [] r = r
  applied (opt ∷ options) r = applied options (then_option opt r)

  abbrev with_rdb :
      Option Encryptor → Option (RedisClient (World R)) → Result (RedisAdapter (World R))
  with_rdb e none = err (other "redis client is not initialized")
  with_rdb e (some c) = ok (record { rdb = c; encryptor = e; codec = d.codec })

  abbrev pub finished : Option (Result (Unfinished R)) → Option (Result (RedisAdapter (World R)))
  finished none = none
  finished (some (err e)) = some (err e)
  finished (some (ok r)) = some (with_rdb r.encryptor r.rdb)

  unfoldable pub new_redis_adapter :
      List (RedisAdapterOption R) → Option (Result (RedisAdapter (World R)))
  new_redis_adapter options =
      finished (applied options (some (ok (record { rdb = none; encryptor = none }))))
