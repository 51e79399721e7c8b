-- ===== src/TokenStore/Redis.antt =====
-- The Redis adapter (db/token_repo_redis.go) as the repository of the token store.
use renku_gateway.Prelude.{String, ◌≡◌, refl, false, ok, arith}
use renku_gateway.Models.Token.{AuthToken, access_token_type, refresh_token_type, id_token_type}
use renku_gateway.Models.TokenSet.{AuthTokenSet}
use renku_gateway.Db.TokenRepo.{
  RedisAdapter, get_token_key, get_auth_token, set_auth_token, validate_token_type,
  access_token_key, refresh_token_key, id_token_key,
}
use renku_gateway.Db.TokenRepo
use renku_gateway.TokenStore.{TokenRepository, in_place, is_absent}

-- The adapter as the token store's repository.
unfoldable pub redis_repository : {R : Type 0} → RedisAdapter R → TokenRepository R
redis_repository r = record {
  get_access_token = TokenRepo.get_access_token r;
  set_access_token = TokenRepo.set_access_token r;
  get_refresh_token = TokenRepo.get_refresh_token r;
  set_refresh_token = TokenRepo.set_refresh_token r;
  get_id_token = TokenRepo.get_id_token r;
  set_id_token = TokenRepo.set_id_token r;
}

-- A setter writes its own type of token, and nothing else.
pub set_access_token_typed :
    {R : Type 0} (r : RedisAdapter R) (o : AuthToken) (w w' : R)
    → TokenRepo.set_access_token r o w ≡ (ok tt, w')
    → (o.type ≡ access_token_type) × (set_auth_token r o w ≡ (ok tt, w'))
unfolding TokenRepo.set_access_token
set_access_token_typed r o w w' e = ground arith

pub set_refresh_token_typed :
    {R : Type 0} (r : RedisAdapter R) (o : AuthToken) (w w' : R)
    → TokenRepo.set_refresh_token r o w ≡ (ok tt, w')
    → (o.type ≡ refresh_token_type) × (set_auth_token r o w ≡ (ok tt, w'))
unfolding TokenRepo.set_refresh_token
set_refresh_token_typed r o w w' e = ground arith

pub set_id_token_typed :
    {R : Type 0} (r : RedisAdapter R) (o : AuthToken) (w w' : R)
    → TokenRepo.set_id_token r o w ≡ (ok tt, w')
    → (o.type ≡ id_token_type) × (set_auth_token r o w ≡ (ok tt, w'))
unfolding TokenRepo.set_id_token
set_id_token_typed r o w w' e = ground arith

pub key_of_access :
    (o : AuthToken) → o.type ≡ access_token_type → get_token_key o ≡ access_token_key o.id
unfolding get_token_key
key_of_access o e = rw e refl

pub key_of_refresh :
    (o : AuthToken) → o.type ≡ refresh_token_type → get_token_key o ≡ refresh_token_key o.id
unfolding get_token_key
key_of_refresh o e = rw e refl

pub key_of_id : (o : AuthToken) → o.type ≡ id_token_type → get_token_key o ≡ id_token_key o.id
unfolding get_token_key
key_of_id o e = rw e refl

pub in_place-ids :
    (token_id : String) (p : AuthTokenSet)
    → ((in_place token_id p).access_token.id ≡ token_id)
      × ((in_place token_id p).refresh_token.id ≡ token_id)
      × (is_absent (in_place token_id p).id_token ≡ false
          → (in_place token_id p).id_token.id ≡ token_id)
unfolding in_place
in_place-ids token_id p = ground arith
