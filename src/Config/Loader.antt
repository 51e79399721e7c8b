-- ===== src/Config/Loader.antt =====
-- config/config_handler.go: how the configuration is read from two files and the environment.
use renku_gateway.Prelude.{
  String, str_eq, has_prefix, trim_prefix, ◌+++◌, ◌==◌, ℤ, pos, Bool, Dict, Option, none, some,
  List, [], ◌∷◌, ◌++◌, ◌≡◌, ◌≢◌, ◌⊎◌, refl, sym, ap, ◌∙◌, Result, ok, err, Exec, pure, lift, gets,
  modify, ◌>>=◌, ◌>>◌, >>=-eq-ok, inl, inr, arith, if◌then◌else◌,
}
use Prim.Native.Char.{code}
use renku_gateway.Config.{
  Url, Config, RunningEnvironment, development, production, unknown, or_production, finish_config,
  validate,
}
use renku_gateway.Config.Accepted.{IsSafe, validate-IsSafe, validate_running_environment}

-- The directories in which viper looks, the first with a file first.
unfoldable pub config_paths : String → List String
config_paths config_path_env =
    (if str_eq config_path_env "" then [] else config_path_env ∷ []) ++ ("/etc/gateway" ∷ "." ∷ [])

-- The defaults: four hours and a day, in seconds.
abbrev pub default_idle_session_ttl_seconds : ℤ
default_idle_session_ttl_seconds = pos 14400

abbrev pub default_max_session_ttl_seconds : ℤ
default_max_session_ttl_seconds = pos 86400

abbrev pub env_prefix : String
env_prefix = "GATEWAY_"

unfoldable pub env_vars_filtered : List String → List String
env_vars_filtered [] = []
env_vars_filtered (kv ∷ more) =
    let rest = env_vars_filtered more in if has_prefix kv env_prefix then kv ∷ rest else rest

-- strings.ReplaceAll(s, "_", ".")
unfoldable pub dotted : String → String
dotted String.[] = ""
dotted (String.◌∷◌ c s) = if code c == 95 then "." +++ dotted s else String.◌∷◌ c (dotted s)

-- The key of a variable, which viper has put into lower case.
unfoldable pub data_key : String → String
unfolding dotted
data_key key = dotted (trim_prefix key "gateway_")

-- The values in a configuration file: texts, and others.
pub data Value : Type 0 where
  text : String → Value
  url : Url → Value
  nil : Value
  something : Value

-- `parseStringAsURL`, for a target of the type url.URL or of another.
unfoldable pub parse_string_as_url : (String → Result Url) → (is_url : Bool) → Value → Result Value
parse_string_as_url parse is_url (text s) =
    if is_url
    then (if str_eq s "" then ok nil else elim (parse s) [ ok u ↦ ok (url u) | err e ↦ err e ])
    else ok (text s)
parse_string_as_url parse is_url (url u) = ok (url u)
parse_string_as_url parse is_url nil = ok nil
parse_string_as_url parse is_url something = ok something

-- What viper does to its settings, and what it reads: `read_secret` is none where there is no such file,
-- `read_env` parses the joined variables, and `unmarshal` runs the hook on every value.
pub record Viper (V : Type 0) : Type 0 where
  pub merge_in_config : Exec V (Unit {0})
  pub read_secret : Result (Option (Dict Value))
  pub merge_config_map : Dict Value → Exec V (Unit {0})
  pub environ : List String
  pub read_env : List String → Result (Dict Value)
  pub set : String → Value → V → V
  pub unmarshal : ((is_url : Bool) → Value → Result Value) → V → Result Config
  pub parse_url : String → Result Url
  pub port : Url → String

abbrev accepted : Result (Unit {0}) × Config → Result Config
accepted (ok u, c) = ok c
accepted (err e, c) = err e

accepted-eq-ok :
    (r : Result (Unit {0}) × Config) (c : Config) → accepted r ≡ ok c → Unit {0} × (r ≡ (ok tt, c))
accepted-eq-ok (ok u, c') c e = (tt, let same : c' ≡ c = ground arith in ap (λ x. (ok tt, x)) same)
accepted-eq-ok (err x, c') c e = cc

or_production_cases :
    (e : RunningEnvironment)
    → ((e ≡ development) × (or_production e ≡ development))
      ⊎ ((e ≢ development) × (or_production e ≡ production))
or_production_cases development = inl (refl, refl)
or_production_cases production = inr (λ e. cc e, refl)
or_production_cases (unknown s) = inr (λ e. cc e, refl)

module _ {V : Type 0} (v : Viper V) where
  -- The loop over the variables; Go's order of iteration is not fixed, the list's is.
  unfoldable pub set_env : Dict Value → V → V
  unfolding data_key
  set_env [] settings = settings
  set_env ((key, val) ∷ more) settings = set_env more (v.set (data_key key) val settings)

  -- A secret file that is missing has no settings.
  abbrev secret_settings : Option (Dict Value) → Dict Value
  secret_settings none = []
  secret_settings (some m) = m

  unfoldable pub read_config : Exec V Config
  unfolding env_vars_filtered set_env parse_string_as_url
  read_config = do
    v.merge_in_config
    secret ← lift v.read_secret
    v.merge_config_map (secret_settings secret)
    env_data ← lift (v.read_env (env_vars_filtered v.environ))
    modify (set_env env_data)
    unmarshalled ← gets (v.unmarshal (parse_string_as_url v.parse_url))
    lift unmarshalled

  unfoldable pub get_config : Exec V Config
  unfolding read_config
  get_config = do output ← read_config; pure (finish_config v.port output)

  get_config-eq-ok :
      (s s' : V) (c : Config)
      → get_config s ≡ (ok c, s')
      → (output : Config) × (read_config s ≡ (ok output, s'))
        × (c.running_environment ≡ or_production output.running_environment)
  unfolding get_config finish_config
  get_config-eq-ok s s' c e =
      let (output, t, p, q) = >>=-eq-ok read_config _ s e in
      let done : ok (finish_config v.port output) ≡ ok c = ap (λ x. x.0) q in
      let same : finish_config v.port output ≡ c = ground arith in
      (output, rw (ap (λ x. x.1) q) at p, sym (ap (λ x. x.running_environment) same))

  -- What `main` goes on with: the configuration that was read, and then accepted.
  unfoldable pub load_config : Exec V Config
  unfolding get_config
  load_config = do c ← get_config; lift (accepted (validate c))

  -- Whatever the files and the environment say: the program goes on with a configuration for
  -- development only if they name the environment "development". With any other name, or none, it
  -- goes on only with a configuration for production, and that one is safe.
  pub load_config-IsSafe :
      (settings settings' : V) (c : Config)
      → load_config settings ≡ (ok c, settings')
      → (output : Config) × (read_config settings ≡ (ok output, settings'))
        × (((output.running_environment ≡ development) × (c.running_environment ≡ development))
            ⊎ ((output.running_environment ≢ development)
                × (c.running_environment ≡ production)
                × IsSafe c))
  unfolding load_config
  load_config-IsSafe settings settings' c e =
      let (found, t, p, q) = >>=-eq-ok get_config _ settings e in
      let (_, valid) = accepted-eq-ok (validate found) c (ap (λ x. x.0) q) in
      let (output, read, environment) = get_config-eq-ok settings t found p in
      let same = validate_running_environment found c valid ∙ environment in
      (
        output,
        rw (ap (λ x. x.1) q) at read,
        elim (or_production_cases output.running_environment) [
          | inl (named, dev) ↦ inl (named, same ∙ dev)
          | inr (named, prod) ↦ inr (
            named,
            same ∙ prod,
            validate-IsSafe found c (λ dev. cc (sym (environment ∙ prod) ∙ dev)) valid,
          )
        ],
      )
