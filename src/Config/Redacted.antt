-- ===== src/Config/Redacted.antt =====
-- config/redacted_string.go, and the configuration as `main` logs it (cmd/gateway/main.go).
use renku_gateway.Prelude.{
  ℕ, String, ◌+++◌, Dict, [], ◌∷◌, ◌++◌, ◌≡◌, refl, sym, ap, ◌∙◌, str_eq, eq_iff, Bool-cases, inl,
  inr, arith,
}
use mathlib.Core.HLevel.{hedberg}
use Prim.Native.String.{len}
use mathlib.Core.Quot
use mathlib.Core.Quot.{Quot}
use renku_gateway.Config.{Config, OidcClient}

-- `itoa` is what fmt's %d writes, and `json` is json.Marshal of a configuration whose secrets have
-- been replaced by what their `MarshalJSON` gives, as encoding/json does at every depth.
pub record Printing : Type 0 where
  pub itoa : ℕ → String
  pub json : Config → String

module _ (p : Printing) where
  -- RedactedString.String
  unfoldable pub redacted : String → String
  redacted r = "<redacted-" +++ (p.itoa (len r) +++ "-chars>")

  unfoldable pub marshal_json : String → String
  unfolding redacted
  marshal_json r = "\"" +++ (redacted r +++ "\"")

  abbrev pub redact_client : OidcClient → OidcClient
  redact_client c = record c {
    client_secret = marshal_json c.client_secret;
    cookie_encoding_key = marshal_json c.cookie_encoding_key;
    cookie_hash_key = marshal_json c.cookie_hash_key;
  }

  unfoldable pub redact_clients : Dict OidcClient → Dict OidcClient
  redact_clients [] = []
  redact_clients ((id, c) ∷ more) = (id, redact_client c) ∷ redact_clients more

  -- Every field of the type `RedactedString`.
  unfoldable pub redact : Config → Config
  redact c = record c {
    sessions = record c.sessions {
      cookie_encoding_key = marshal_json c.sessions.cookie_encoding_key;
      cookie_hash_key = marshal_json c.sessions.cookie_hash_key;
    };
    login = record c.login {
      token_encryption_secret_key = marshal_json c.login.token_encryption_secret_key;
      providers = redact_clients c.login.providers;
    };
    redis = record c.redis { password = marshal_json c.redis.password };
    posthog = record c.posthog { api_key = marshal_json c.posthog.api_key };
    sentry = record c.sentry { dsn = marshal_json c.sentry.dsn };
  }

  -- slog.Info("loaded config", "config", gwConfig)
  unfoldable pub logged : Config → String
  unfolding redact
  logged c = p.json (redact c)

-- One secret is exchanged for another of the same length.
abbrev pub with_sessions_keys : String → String → Config → Config
with_sessions_keys encoding hash c = record c {
  sessions = record c.sessions { cookie_encoding_key = encoding; cookie_hash_key = hash };
}

abbrev pub with_secret_key : String → Config → Config
with_secret_key key c = record c { login = record c.login { token_encryption_secret_key = key } }

abbrev pub with_client_secrets : String → String → String → OidcClient → OidcClient
with_client_secrets secret encoding hash c = record c {
  client_secret = secret;
  cookie_encoding_key = encoding;
  cookie_hash_key = hash;
}

abbrev pub with_providers : Dict OidcClient → Config → Config
with_providers providers c = record c { login = record c.login { providers = providers } }

pub data Rekeyed : Config → Config → Type 0 where
  session_keys :
      (c : Config) (e e' h h' : String)
      → len e ≡ len e'
      → len h ≡ len h'
      → Rekeyed (with_sessions_keys e h c) (with_sessions_keys e' h' c)
  secret_key :
      (c : Config) (s s' : String)
      → len s ≡ len s'
      → Rekeyed (with_secret_key s c) (with_secret_key s' c)
  client :
      (c : Config) (front back : Dict OidcClient) (id : String) (o : OidcClient)
      (s s' e e' h h' : String)
      → len s ≡ len s'
      → len e ≡ len e'
      → len h ≡ len h'
      → Rekeyed
          (with_providers (front ++ (id, with_client_secrets s e h o) ∷ back) c)
          (with_providers (front ++ (id, with_client_secrets s' e' h' o) ∷ back) c)
  password :
      (c : Config) (s s' : String)
      → len s ≡ len s'
      → Rekeyed
          (record c { redis = record c.redis { password = s } })
          (record c { redis = record c.redis { password = s' } })
  api_key :
      (c : Config) (s s' : String)
      → len s ≡ len s'
      → Rekeyed
          (record c { posthog = record c.posthog { api_key = s } })
          (record c { posthog = record c.posthog { api_key = s' } })
  dsn :
      (c : Config) (s s' : String)
      → len s ≡ len s'
      → Rekeyed
          (record c { sentry = record c.sentry { dsn = s } })
          (record c { sentry = record c.sentry { dsn = s' } })

-- A configuration up to its secrets.
abbrev pub PublicConfig : Type 0
PublicConfig = Quot Rekeyed

String-set : IsSet String
String-set = hedberg λ s t. elim (Bool-cases (str_eq s t)) [
  | inl e ↦ yes ((eq_iff s t).0 e)
  | inr e ↦ no (λ q. cc (e, (eq_iff s t).1 q))
]

module _ (p : Printing) where
  marshal_json-len : (s t : String) → len s ≡ len t → marshal_json p s ≡ marshal_json p t
  unfolding marshal_json
  marshal_json-len s t e =
      ap (λ n. "\"" +++ (("<redacted-" +++ (p.itoa n +++ "-chars>")) +++ "\"")) e

  redact_clients-append :
      (xs ys : Dict OidcClient)
      → redact_clients p (xs ++ ys) ≡ redact_clients p xs ++ redact_clients p ys
  unfolding redact_clients
  redact_clients-append [] ys = refl
  redact_clients-append ((id, c) ∷ xs) ys = rw (redact_clients-append xs ys) refl

  redact-Rekeyed : (c d : Config) → Rekeyed c d → redact p c ≡ redact p d
  unfolding redact redact_clients
  redact-Rekeyed c d (session_keys b e e' h h' same same') =
      ground (arith, marshal_json-len e e' same, marshal_json-len h h' same')
  redact-Rekeyed c d (secret_key b s s' same) = ground (arith, marshal_json-len s s' same)
  redact-Rekeyed c d (client b front back id o s s' e e' h h' same same' same'') = ground (
    arith,
    redact_clients-append front ((id, with_client_secrets s e h o) ∷ back),
    redact_clients-append front ((id, with_client_secrets s' e' h' o) ∷ back),
    marshal_json-len s s' same,
    marshal_json-len e e' same',
    marshal_json-len h h' same'',
  )
  redact-Rekeyed c d (password b s s' same) = ground (arith, marshal_json-len s s' same)
  redact-Rekeyed c d (api_key b s s' same) = ground (arith, marshal_json-len s s' same)
  redact-Rekeyed c d (dsn b s s' same) = ground (arith, marshal_json-len s s' same)

  logged-Rekeyed : (c d : Config) → Rekeyed c d → logged p c ≡ logged p d
  unfolding logged
  logged-Rekeyed c d r = ap p.json (redact-Rekeyed c d r)

  pub logged_public : PublicConfig → String
  logged_public = Quot.lift String-set (logged p) logged-Rekeyed

  pub logged_public-mk : (c : Config) → logged_public (Quot.mk c) ≡ logged p c
  unfolding logged_public
  logged_public-mk c = refl

  -- The line that the program logs says nothing of a secret but its length: configurations that are equal up
  -- to their secrets, in the sessions, the token encryption, the clients of all providers,
  -- Redis, PostHog and Sentry, are logged alike, if the secrets have the same lengths.
  pub logged-PublicConfig :
      (c d : Config) → ◌≡◌ {A = PublicConfig} (Quot.mk c) (Quot.mk d) → logged p c ≡ logged p d
  logged-PublicConfig c d e = sym (logged_public-mk c) ∙ (ap logged_public e ∙ logged_public-mk d)
