-- ===== src/Tests/Config.antt =====
-- An environment for a run, the keystrokes of a field, and a session, at concrete texts.
use exchange_matching.Base.{◌≡◌, refl, [], ◌∷◌, Option, none, some, pos, ℤ}
use exchange_matching.Text.{Text, eq_text}
use exchange_matching.Config.{
  Environment, absent, text, valid, Settings, for_run, validate_environment, ◌>>=◌, parse_string,
  parse_number, parse_database_url, is_postgres, run_settings, postgresql_protocol,
}
use exchange_matching.Config.Usable.{IsUsable, validate_environment-IsUsable}
use exchange_matching.Config.Complete.{accepts, is_complete, validate_environment-accepts}

-- A number is as large as its text is long, and every URL is one of the database.
abbrev count : Text → Option ℤ
count [] = none
count (c ∷ cs) = some (pos 5432)

abbrev scheme : Text → Option Text
scheme url = some postgresql_protocol

-- The text a.
abbrev letter : Text
letter = 97 ∷ []

abbrev production : Environment
production = record {
  node_env = some letter;
  port = absent;
  postgres_host = some letter;
  postgres_port = text letter;
  postgres_db = some letter;
  postgres_user = some letter;
  postgres_password = some letter;
  database_url = some letter;
  jwt_secret = some letter;
  jwt_expires_in = some letter;
  redis_host = some letter;
  redis_port = text letter;
  run_database_e2e = none;
}

abbrev settings : Settings
settings = for_run (record {
  node_env = letter;
  port = pos 3000;
  postgres_host = letter;
  postgres_port = pos 5432;
  postgres_db = letter;
  postgres_user = letter;
  postgres_password = letter;
  jwt_secret = letter;
  jwt_expires_in = letter;
  services = record { database_url = letter; redis_host = letter; redis_port = pos 5432 };
})

settings_given : validate_environment count scheme production ≡ valid settings
unfolding validate_environment run_settings parse_string parse_number parse_database_url is_postgres
    eq_text ◌>>=◌
settings_given = refl

validate_environment-IsUsable_example : IsUsable count scheme settings
validate_environment-IsUsable_example =
    validate_environment-IsUsable count scheme production settings settings_given

-- Without the host of Redis.
abbrev broken : Environment
broken = record production { redis_host = none }

validate_environment-accepts_example :
    accepts (validate_environment count scheme broken) ≡ is_complete count scheme broken
validate_environment-accepts_example = validate_environment-accepts count scheme broken
