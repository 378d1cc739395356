-- ===== src/Config.antt =====
-- backend/src/config/env.validation.ts: the variables of the environment, and the settings that the
-- application gets. `Number.parseInt` and the protocol of `new URL` are parameters.
pub mod Usable
pub mod Complete
use exchange_matching.Base.{
  ℕ, ℤ, pos, abs, ◌==◌, ◌||◌, Bool, true, false, not, List, [], ◌∷◌, Option, none, some,
  if◌then◌else◌,
}
use exchange_matching.Text.{Text, is_empty_text, eq_text}

-- A value of the environment is a text; a module that sets it may give a number, of which NaN is none.
pub data Setting : Type 0 where
  absent : Setting
  text : Text → Setting
  number : Option ℤ → Setting

-- The names of the variables that are checked.
pub data Key : Type 0 where
  port postgres_host postgres_port postgres_db postgres_user postgres_password : Key
  database_url jwt_secret jwt_expires_in redis_host redis_port : Key

pub data ConfigError : Type 0 where
  missing : Key → ConfigError
  invalid_number : Key → ConfigError
  wrong_protocol invalid_url : ConfigError

pub data Checked (A : Type 0) : Type 0 where
  refused : ConfigError → Checked A
  valid : A → Checked A

infixl 5 ◌>>=◌
unfoldable pub ◌>>=◌ : {A B : Type 0} → Checked A → (A → Checked B) → Checked B
call >>= next = elim call [ refused e ↦ refused e | valid a ↦ next a ]

-- EnvironmentVariables
pub record Environment : Type 0 where
  pub node_env : Option Text
  pub port : Setting
  pub postgres_host : Option Text
  pub postgres_port : Setting
  pub postgres_db : Option Text
  pub postgres_user : Option Text
  pub postgres_password : Option Text
  pub database_url : Option Text
  pub jwt_secret : Option Text
  pub jwt_expires_in : Option Text
  pub redis_host : Option Text
  pub redis_port : Setting
  pub run_database_e2e : Option Text

pub record Redis : Type 0 where
  pub database_url : Text
  pub redis_host : Text
  pub redis_port : ℤ

-- The settings of a test; `services` are those that a run on a database has.
pub record TestSettings : Type 0 where
  pub port : ℤ
  pub jwt_secret : Text
  pub jwt_expires_in : Text
  pub run_database_e2e : Bool
  pub services : Option Redis

pub record RunSettings : Type 0 where
  pub node_env : Text
  pub port : ℤ
  pub postgres_host : Text
  pub postgres_port : ℤ
  pub postgres_db : Text
  pub postgres_user : Text
  pub postgres_password : Text
  pub jwt_secret : Text
  pub jwt_expires_in : Text
  pub services : Redis

pub data Settings : Type 0 where
  for_test : TestSettings → Settings
  for_run : RunSettings → Settings

-- test, development, true, test-jwt-secret, 1h
abbrev pub test_env : Text
test_env = 116 ∷ 101 ∷ 115 ∷ 116 ∷ []

abbrev pub development_env : Text
development_env = 100 ∷ 101 ∷ 118 ∷ 101 ∷ 108 ∷ 111 ∷ 112 ∷ 109 ∷ 101 ∷ 110 ∷ 116 ∷ []

abbrev pub true_text : Text
true_text = 116 ∷ 114 ∷ 117 ∷ 101 ∷ []

abbrev test_jwt_secret : Text
test_jwt_secret =
    116 ∷ 101 ∷ 115 ∷ 116 ∷ 45 ∷ 106 ∷ 119 ∷ 116 ∷ 45 ∷ 115 ∷ 101 ∷ 99 ∷ 114 ∷ 101 ∷ 116 ∷ []

abbrev one_hour : Text
one_hour = 49 ∷ 104 ∷ []

-- postgresql: and postgres:
abbrev pub postgresql_protocol : Text
postgresql_protocol = 112 ∷ 111 ∷ 115 ∷ 116 ∷ 103 ∷ 114 ∷ 101 ∷ 115 ∷ 113 ∷ 108 ∷ 58 ∷ []

abbrev postgres_protocol : Text
postgres_protocol = 112 ∷ 111 ∷ 115 ∷ 116 ∷ 103 ∷ 114 ∷ 101 ∷ 115 ∷ 58 ∷ []

unfoldable pub is_postgres : (protocol : Text) → Bool
unfolding eq_text
is_postgres protocol = eq_text protocol postgresql_protocol || eq_text protocol postgres_protocol

-- `??`
abbrev pub or_else : {A : Type 0} → Option A → A → A
or_else none a = a
or_else (some b) a = b

unfoldable pub is_text : Option Text → Text → Bool
unfolding eq_text
is_text none t = false
is_text (some u) t = eq_text u t

-- Whether a setting is true in a condition.
abbrev pub is_truthy : Setting → Bool
is_truthy absent = false
is_truthy (text t) = not (is_empty_text t)
is_truthy (number none) = false
is_truthy (number (some n)) = not (abs n == 0)

unfoldable pub parse_string : Option Text → Key → Checked Text
parse_string none key = refused (missing key)
parse_string (some []) key = refused (missing key)
parse_string (some (c ∷ cs)) key = valid (c ∷ cs)

module _ (parse_int : Text → Option ℤ) (protocol_of : Text → Option Text) where
  abbrev valid_number : Key → Option ℤ → Checked ℤ
  valid_number key none = refused (invalid_number key)
  valid_number key (some n) = valid n

  unfoldable pub parse_number : Setting → Key → Checked ℤ
  parse_number absent key = refused (missing key)
  parse_number (text []) key = refused (missing key)
  parse_number (text (c ∷ cs)) key = valid_number key (parse_int (c ∷ cs))
  parse_number (number n) key = valid_number key n

  unfoldable pub parse_database_url : Option Text → Checked Text
  unfolding parse_string is_postgres
  parse_database_url value = do
    url ← parse_string value database_url
    elim (protocol_of url) [
      | none ↦ refused invalid_url
      | some protocol ↦ if is_postgres protocol then valid url else refused wrong_protocol
    ]

  -- `config.PORT ? parseNumber(config.PORT, 'PORT') : 3000`
  abbrev pub port_setting : Environment → Checked ℤ
  port_setting config =
      if is_truthy config.port then parse_number config.port port else valid (pos 3000)

  abbrev pub services_setting : Environment → Checked Redis
  services_setting config = do
    url ← parse_database_url config.database_url
    host ← parse_string config.redis_host redis_host
    cache_port ← parse_number config.redis_port redis_port
    valid (record { database_url = url; redis_host = host; redis_port = cache_port })

  abbrev pub optional_services : (run_database_e2e : Bool) → Environment → Checked (Option Redis)
  optional_services false config = valid none
  optional_services true config = services_setting config >>= λ r. valid (some r)

  unfoldable pub test_settings : Environment → Checked TestSettings
  unfolding parse_number parse_string parse_database_url is_text
  test_settings config = do
    let run_database_e2e = is_text config.run_database_e2e true_text
    own_port ← port_setting config
    services ← optional_services run_database_e2e config
    valid (record {
      port = own_port;
      jwt_secret = or_else config.jwt_secret test_jwt_secret;
      jwt_expires_in = or_else config.jwt_expires_in one_hour;
      run_database_e2e = run_database_e2e;
      services = services;
    })

  unfoldable pub run_settings : (node_env : Text) → Environment → Checked RunSettings
  unfolding parse_number parse_string parse_database_url
  run_settings node_env config = do
    own_port ← port_setting config
    host ← parse_string config.postgres_host postgres_host
    db_port ← parse_number config.postgres_port postgres_port
    db ← parse_string config.postgres_db postgres_db
    user ← parse_string config.postgres_user postgres_user
    password ← parse_string config.postgres_password postgres_password
    url ← parse_database_url config.database_url
    secret ← parse_string config.jwt_secret jwt_secret
    expires_in ← parse_string config.jwt_expires_in jwt_expires_in
    cache_host ← parse_string config.redis_host redis_host
    cache_port ← parse_number config.redis_port redis_port
    valid (record {
      node_env = node_env;
      port = own_port;
      postgres_host = host;
      postgres_port = db_port;
      postgres_db = db;
      postgres_user = user;
      postgres_password = password;
      jwt_secret = secret;
      jwt_expires_in = expires_in;
      services = record { database_url = url; redis_host = cache_host; redis_port = cache_port };
    })

  unfoldable pub validate_environment : Environment → Checked Settings
  unfolding test_settings run_settings eq_text
  validate_environment config =
      let node_env = or_else config.node_env development_env in
      if eq_text node_env test_env
      then (test_settings config >>= λ s. valid (for_test s))
      else (run_settings node_env config >>= λ s. valid (for_run s))
