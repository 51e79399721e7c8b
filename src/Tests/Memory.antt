-- ===== src/Tests/Memory.antt =====
-- A Redis in memory, with a codec for the data of the tests: what db/redis_adapter.go relies on,
-- as concrete functions.
use renku_gateway.Prelude.{
  String, str_eq, eq_refl, str_eq-false, append-nil, ◌≢◌, ◌∙◌, ◌+++◌, trim_prefix, ◌==◌, ℤ, pos,
  ◌<ℤ◌, ◌≤ℤ◌, leb_ℤ, Dict, lookup, Bool-cases, inl, inr, Option, none, some, [], ◌∷◌, ◌≡◌, refl,
  sym, ap, ok, err, other, Exec, arith, if◌then◌else◌, List,
}
use renku_gateway.Models.Token.{
  AuthToken, Encryptor, access_token_type, refresh_token_type, id_token_type,
}
use renku_gateway.Models.Session.{Session}
use renku_gateway.Sessions.Context.{or_empty, zero_session}
use renku_gateway.Db.Client.{Value, RedisClient, KeepsHashes, Expires, hash_of}
use renku_gateway.Db.Serialize.{Codec}
use renku_gateway.Db.TokenRepo.{RedisAdapter}

pub record Memory : Type 0 where
  pub hashes : String → Dict String
  pub clock : ℤ

abbrev put : String → Dict String → Memory → Memory
put k h m = record m { hashes = λ j. if str_eq k j then h else m.hashes j }

abbrev hset : String → Option (Dict String) → Exec Memory (Unit {0})
hset k none m = (err (other "no text form"), m)
hset k (some h) m = (ok tt, put k h m)

abbrev del : List String → Memory → Memory
del [] m = m
del (k ∷ ks) m = del ks (put k [] m)

abbrev pub client : RedisClient Memory
client = record {
  expire_at = λ k t m. (ok tt, if leb_ℤ t m.clock then put k [] m else m);
  del = λ ks m. (ok tt, del ks m);
  persist = λ k m. (ok tt, m);
  hget_all = λ k m. (ok (m.hashes k), m);
  hset = λ k vs m. hset k (hash_of vs) m;
}

pub stored-hset :
    (k : String) (vs : List Value) (h : Dict String) (r r' : Memory)
    → hash_of vs ≡ some h
    → client.hset k vs r ≡ (ok tt, r')
    → r'.hashes k ≡ h
stored-hset k vs h r r' is_hash e =
    sym (ap (λ x. x.1.hashes k) (rw is_hash at e)) ∙ rw (eq_refl k) refl

pub stored-hset_other :
    (k : String) (o : Option (Dict String)) (r r' : Memory) (j : String)
    → k ≢ j
    → hset k o r ≡ (ok tt, r')
    → r'.hashes j ≡ r.hashes j
stored-hset_other k none r r' j differ e = cc
stored-hset_other k (some h) r r' j differ e =
    sym (ap (λ x. x.1.hashes j) e) ∙ rw (str_eq-false k j differ) refl

pub stored-expire_at :
    (k : String) (t : ℤ) (r r' : Memory) (j : String)
    → r.clock <ℤ t
    → client.expire_at k t r ≡ (ok tt, r')
    → r'.hashes j ≡ r.hashes j
stored-expire_at k t r r' j future e = elim (Bool-cases (leb_ℤ t r.clock)) [
  | inl past ↦ absurd (ground (arith, past, future))
  | inr ahead ↦ sym (ap (λ x. x.1.hashes j) (rw ahead at e))
]

pub stored-expire_at_past :
    (k : String) (t : ℤ) (r r' : Memory)
    → t ≤ℤ r.clock
    → client.expire_at k t r ≡ (ok tt, r')
    → r'.hashes k ≡ []
stored-expire_at_past k t r r' past e = elim (Bool-cases (leb_ℤ t r.clock)) [
  | inl before ↦ sym (ap (λ x. x.1.hashes k) (rw before at e)) ∙ rw (eq_refl k) refl
  | inr after ↦ absurd (ground (arith, past, after))
]

pub time-hset :
    (k : String) (o : Option (Dict String)) (r r' : Memory)
    → hset k o r ≡ (ok tt, r')
    → r'.clock ≡ r.clock
time-hset k none r r' e = cc
time-hset k (some h) r r' e = sym (ap (λ x. x.1.clock) e)

pub time-expire_at :
    (k : String) (t : ℤ) (r r' : Memory) → client.expire_at k t r ≡ (ok tt, r') → r'.clock ≡ r.clock
time-expire_at k t r r' e = elim (Bool-cases (leb_ℤ t r.clock)) [
  | inl past ↦ sym (ap (λ x. x.1.clock) (rw past at e))
  | inr ahead ↦ sym (ap (λ x. x.1.clock) (rw ahead at e))
]

abbrev pub keeps_hashes : KeepsHashes client
keeps_hashes = record {
  stored = λ m k. ok (m.hashes k);
  time = λ m. m.clock;
  hget_all_stored = λ k r. refl;
  stored-hset = λ k vs h r r' is_hash u e.
      ([], ap (λ l. ok l) (stored-hset k vs h r r' is_hash e ∙ sym (append-nil h)));
  stored-hset_other =
      λ k vs r r' j differ e. ap (λ l. ok l) (stored-hset_other k (hash_of vs) r r' j differ e);
  stored-expire_at = λ k t r r' j future e. ap (λ l. ok l) (stored-expire_at k t r r' j future e);
  stored-persist = λ k r r' j e. sym (ap (λ x. ok (x.1.hashes j)) e);
  time-hset = λ k vs r r' e. time-hset k (hash_of vs) r r' e;
  time-expire_at = time-expire_at;
  time-persist = λ k r r' e. sym (ap (λ x. x.1.clock) e);
}

abbrev pub expires : Expires client keeps_hashes
expires = λ k t r r' past e. ap (λ l. ok l) (stored-expire_at_past k t r r' past e)

-- A login's tokens and a session, as the codec reads them back.
abbrev pub access : AuthToken
access = record {
  id = "renku:u1";
  value = "A";
  expires_at = pos 200;
  subject = "u1";
  token_url = "";
  provider_id = "renku";
  type = access_token_type;
}

abbrev pub refresh : AuthToken
refresh = record access { value = "R"; expires_at = pos 0; type = refresh_token_type }

abbrev pub id_token : AuthToken
id_token = record access { value = "I"; type = id_token_type }

abbrev pub session : Session
session = record zero_session {
  id = "s1";
  created_at = pos 100;
  expires_at = pos 300;
  login_state = "st";
}

-- The text forms of the two expiry dates, and the token of each type.
abbrev time_text : ℤ → Option String
time_text (pos t) = if t == 0 then some "zero" else some "date"
time_text _ = none

abbrev typed : String → AuthToken
typed type =
    if str_eq type "AccessToken"
    then access
    else if str_eq type "RefreshToken"
    then refresh
    else id_token

abbrev pub codec : Codec
codec = record {
  time_text = time_text;
  int_text = λ t. "";
  map_text = λ m. "";
  slice_text = λ l. "";
  decode_token =
      λ h. ok (record (typed (or_empty (lookup "Type" h))) { value = or_empty (lookup "Value" h) });
  decode_session = λ h. ok session;
}

-- Encryption turns "A" into "eA".
abbrev pub encryptor : Encryptor
encryptor = record { encrypt = λ v. ok ("e" +++ v); decrypt = λ v. ok (trim_prefix v "e") }

abbrev pub adapter : RedisAdapter Memory
adapter = record { rdb = client; encryptor = some encryptor; codec = codec }

abbrev pub empty_memory : Memory
empty_memory = record { hashes = λ k. []; clock = pos 150 }
