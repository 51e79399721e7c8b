-- ===== src/Db/Mock.antt =====
-- db/redisadapters_mock.go: the Redis in memory that a configuration with the type "redis-mock" gets.
pub mod Hashes
pub mod Sessions
use renku_gateway.Prelude.{
  ℕ, ◌+◌, ◌%◌, ◌==◌, String, ℤ, Dict, lookup, insert, remove, not, Bool, Option, none, some, List,
  [], ◌∷◌, Result, ok, err, other, and_then, Exec, if◌then◌else◌,
}
use renku_gateway.Models.Token.{Encryptor}
use renku_gateway.Db.Client.{Value, RedisClient}
use renku_gateway.Db.Serialize.{Codec}
use renku_gateway.Db.TokenRepo.{RedisAdapter}

pub record MockRedisClient : Type 0 where
  pub store : Dict (Dict Value)

abbrev length : List Value → ℕ
length [] = 0
length (v ∷ vs) = length vs + 1

-- The loop; `none` is the panic on a key that is no text.
unfoldable pub fill : Dict Value → List Value → Option (Dict Value)
fill output [] = some output
fill output (Value.text key ∷ val ∷ more) = fill (insert key val output) more
fill output _ = none

abbrev converted : Option (Dict Value) → Option (Dict Value × Result (Unit {0}))
converted none = none
converted (some output) = some (output, ok tt)

-- The map and the error are both returned, so the map is empty where there is an error.
unfoldable pub convert_values_to_map : List Value → Option (Dict Value × Result (Unit {0}))
unfolding fill
convert_values_to_map values =
    if not (length values % 2 == 0)
    then some ([], err (other "number of provided values must be even"))
    else converted (fill [] values)

-- A panic comes back as an error here, with the store as it was.
abbrev stored : String → Option (Dict Value × Result (Unit {0})) → Exec MockRedisClient (Unit {0})
stored key none m = (err (other "panic: interface conversion"), m)
stored key (some (val, res)) m = (res, record { store = insert key val m.store })

unfoldable pub hset : String → List Value → Exec MockRedisClient (Unit {0})
unfolding convert_values_to_map
hset key values = stored key (convert_values_to_map values)

abbrev removed : {V : Type 0} → List String → Dict V → Dict V
removed [] d = d
removed (k ∷ ks) d = removed ks (remove k d)

unfoldable pub del : List String → Exec MockRedisClient (Unit {0})
del keys m = (ok tt, record { store = removed keys m.store })

abbrev pub with_field : String → Value → Result (Dict String) → Result (Dict String)
with_field k (Value.instant t) more = err (other "Time.MarshalText: year outside of range [0,9999]")
with_field k (Value.text v) (err e) = err e
with_field k (Value.text v) (ok more) = ok ((k, v) ∷ more)

-- The loop over the fields; an instant that has no text form is the only value that fails.
unfoldable pub marshalled_fields : Dict Value → Result (Dict String)
marshalled_fields [] = ok []
marshalled_fields ((k, v) ∷ more) = with_field k v (marshalled_fields more)

abbrev pub fields_of : Option (Dict Value) → Result (Dict String)
fields_of none = ok []
fields_of (some val) = marshalled_fields val

unfoldable pub hget_all : String → Exec MockRedisClient (Dict String)
unfolding marshalled_fields
hget_all key m = (fields_of (lookup key m.store), m)

-- The expiry date is dropped.
unfoldable pub expire_at : String → ℤ → Exec MockRedisClient (Unit {0})
expire_at key tm m = (ok tt, m)

unfoldable pub persist : String → Exec MockRedisClient (Unit {0})
persist key m = (ok tt, m)

abbrev pub mock_redis_client : RedisClient MockRedisClient
mock_redis_client = record {
  expire_at = expire_at;
  del = del;
  persist = persist;
  hget_all = hget_all;
  hset = hset;
}

abbrev pub mock_adapter : Codec → Option Encryptor → RedisAdapter MockRedisClient
mock_adapter codec e = record { rdb = mock_redis_client; encryptor = e; codec = codec }

-- WithEncryption, whose failure ends the process: `none`.
abbrev pub MockRedisAdapterOption : Type 0
MockRedisAdapterOption = RedisAdapter MockRedisClient → Option (RedisAdapter MockRedisClient)

unfoldable pub with_encryption : (String → Result Encryptor) → String → MockRedisAdapterOption
with_encryption new_gcm_encryptor key r = elim (new_gcm_encryptor key) [
  | err e ↦ none
  | ok enc ↦ some (record r { encryptor = some enc })
]

abbrev applied :
    List MockRedisAdapterOption
    → RedisAdapter MockRedisClient
    → Option (RedisAdapter MockRedisClient)
applied [] db = some db
applied (opt ∷ options) db = elim (opt db) [ none ↦ none | some db' ↦ applied options db' ]

-- The adapter, with the store that it starts with.
unfoldable pub new_mock_redis_adapter :
    Codec → List MockRedisAdapterOption → Option (RedisAdapter MockRedisClient) × MockRedisClient
new_mock_redis_adapter codec options =
    (applied options (mock_adapter codec none), record { store = [] })
