-- ===== src/Config/Usable.antt =====
-- backend/src/config/env.validation.ts: settings that were validated can be used.
use exchange_matching.Base.{
  ℤ, ◌≡◌, refl, Bool, true, false, Bool-cases, inl, inr, Option, Option-cases, none, some, arith,
  [], ◌∷◌,
}
use exchange_matching.Text.{Text, is_empty_text, eq_text}
use exchange_matching.Config.{
  Environment, Key, Checked, refused, valid, ◌>>=◌, Redis, RunSettings, Settings, for_test, for_run,
  is_postgres, is_text, true_text, test_env, development_env, or_else, parse_string,
  parse_database_url, port_setting, services_setting, optional_services, test_settings,
  run_settings, validate_environment, postgres_host, postgres_db, postgres_user, postgres_password,
  database_url, jwt_secret, jwt_expires_in, redis_host,
}

-- What is so of the value, if there is one.
unfoldable pub Holds : {A : Type 0} → (A → Type 0) → Checked A → Type 0
Holds P (refused e) = Unit {0}
Holds P (valid a) = P a

pub bind-Holds :
    {A B : Type 0} (P : A → Type 0) (Q : B → Type 0) (call : Checked A) (next : A → Checked B)
    → Holds P call
    → ((a : A) → P a → Holds Q (next a))
    → Holds Q (call >>= next)
unfolding Holds ◌>>=◌
bind-Holds P Q (refused e) next h k = tt
bind-Holds P Q (valid a) next h k = k a h

pub valid-Holds : {A : Type 0} (P : A → Type 0) (a : A) → P a → Holds P (valid a)
unfolding Holds
valid-Holds P a h = h

abbrev pub Any : {A : Type 0} → A → Type 0
Any a = Unit {0}

pub Holds-Any : {A : Type 0} (call : Checked A) → Holds Any call
unfolding Holds
Holds-Any (refused e) = tt
Holds-Any (valid a) = tt

pub Holds-valid :
    {A : Type 0} (P : A → Type 0) (call : Checked A) (a : A) → Holds P call → call ≡ valid a → P a
unfolding Holds
Holds-valid P (refused e) a h k = cc
Holds-valid P (valid b) a h k = let same : b ≡ a = ground (arith, k) in rw⁻¹ same h

abbrev pub IsFilled : Text → Type 0
IsFilled t = is_empty_text t ≡ false

parse_string-IsFilled : (v : Option Text) (k : Key) → Holds IsFilled (parse_string v k)
unfolding parse_string Holds
parse_string-IsFilled none k = tt
parse_string-IsFilled (some []) k = tt
parse_string-IsFilled (some (c ∷ cs)) k = refl

module _ (parse_int : Text → Option ℤ) (protocol_of : Text → Option Text) where
  -- The URL parses, and its protocol is one of the database.
  abbrev pub IsDatabaseUrl : Text → Type 0
  IsDatabaseUrl url =
      (protocol : Text) × (protocol_of url ≡ some protocol) × (is_postgres protocol ≡ true)

  pub record IsReachable (r : Redis) : Type 0 where
    pub has_url : IsDatabaseUrl r.database_url
    pub has_host : IsFilled r.redis_host

  pub record IsRunnable (s : RunSettings) : Type 0 where
    pub has_postgres_host : IsFilled s.postgres_host
    pub has_postgres_db : IsFilled s.postgres_db
    pub has_postgres_user : IsFilled s.postgres_user
    pub has_postgres_password : IsFilled s.postgres_password
    pub has_jwt_secret : IsFilled s.jwt_secret
    pub has_jwt_expires_in : IsFilled s.jwt_expires_in
    pub is_reachable : IsReachable s.services

  -- The services of a test are there exactly if it runs on a database.
  abbrev pub MatchesFlag : Bool → Option Redis → Type 0
  MatchesFlag flag none = flag ≡ false
  MatchesFlag flag (some r) = (flag ≡ true) × IsReachable r

  abbrev pub IsUsable : Settings → Type 0
  IsUsable (for_test s) = MatchesFlag s.run_database_e2e s.services
  IsUsable (for_run s) = IsRunnable s

  parse_database_url-IsDatabaseUrl :
      (v : Option Text) → Holds IsDatabaseUrl (parse_database_url parse_int protocol_of v)
  unfolding parse_database_url Holds
  parse_database_url-IsDatabaseUrl v =
      bind-Holds Any IsDatabaseUrl _ _ (Holds-Any (parse_string v database_url)) (λ url u.
        elim (Option-cases (protocol_of url)) [
          | inl missing_url ↦ rw missing_url tt
          | inr (protocol, e) ↦ elim (Bool-cases (is_postgres protocol)) [
            | inl right ↦ rw (e, right) (protocol, e, right)
            | inr wrong ↦ rw (e, wrong) tt
          ]
        ])

  services-IsReachable :
      (env : Environment) → Holds IsReachable (services_setting parse_int protocol_of env)
  services-IsReachable env =
      bind-Holds IsDatabaseUrl IsReachable _ _ (parse_database_url-IsDatabaseUrl env.database_url)
        (λ url u.
          bind-Holds IsFilled IsReachable _ _ (parse_string-IsFilled env.redis_host redis_host)
            (λ host h.
              bind-Holds Any IsReachable _ _ (Holds-Any _)
                (λ p q. valid-Holds IsReachable _ (record { has_url = u; has_host = h }))))

  optional-MatchesFlag :
      (flag : Bool) (env : Environment)
      → Holds (MatchesFlag flag) (optional_services parse_int protocol_of flag env)
  optional-MatchesFlag false env = valid-Holds (MatchesFlag false) _ refl
  optional-MatchesFlag true env =
      bind-Holds IsReachable (MatchesFlag true) _ _ (services-IsReachable env)
        (λ r h. valid-Holds (MatchesFlag true) _ (refl, h))

  test_settings-IsUsable :
      (env : Environment)
      → Holds (λ s. IsUsable (for_test s)) (test_settings parse_int protocol_of env)
  unfolding test_settings
  test_settings-IsUsable env =
      let flag = is_text env.run_database_e2e true_text in
      bind-Holds Any _ _ _ (Holds-Any (port_setting parse_int protocol_of env)) (λ p q.
        bind-Holds (MatchesFlag flag) _ _ _ (optional-MatchesFlag flag env)
          (λ r h. valid-Holds (λ s. IsUsable (for_test s)) _ h))

  run_settings-IsRunnable :
      (node_env : Text) (env : Environment)
      → Holds IsRunnable (run_settings parse_int protocol_of node_env env)
  unfolding run_settings
  run_settings-IsRunnable node_env env = bind-Holds Any IsRunnable _ _ (Holds-Any _) (λ a a'.
      bind-Holds IsFilled IsRunnable _ _ (parse_string-IsFilled env.postgres_host postgres_host)
        (λ b b'. bind-Holds Any IsRunnable _ _ (Holds-Any _) (λ c c'.
          bind-Holds IsFilled IsRunnable _ _ (parse_string-IsFilled env.postgres_db postgres_db)
            (λ d d'.
              bind-Holds IsFilled IsRunnable _ _
                (parse_string-IsFilled env.postgres_user postgres_user)
                (λ e e'.
                  bind-Holds IsFilled IsRunnable _ _
                    (parse_string-IsFilled env.postgres_password postgres_password)
                    (λ f f'.
                      bind-Holds IsDatabaseUrl IsRunnable _ _
                        (parse_database_url-IsDatabaseUrl env.database_url)
                        (λ g g'.
                          bind-Holds IsFilled IsRunnable _ _
                            (parse_string-IsFilled env.jwt_secret jwt_secret)
                            (λ h h'.
                              bind-Holds IsFilled IsRunnable _ _
                                (parse_string-IsFilled env.jwt_expires_in jwt_expires_in)
                                (λ i i'.
                                  bind-Holds IsFilled IsRunnable _ _
                                    (parse_string-IsFilled env.redis_host redis_host)
                                    (λ j j'. bind-Holds Any IsRunnable _ _ (Holds-Any _) (λ k k'.
                                      valid-Holds IsRunnable _ (record {
                                        has_postgres_host = b';
                                        has_postgres_db = d';
                                        has_postgres_user = e';
                                        has_postgres_password = f';
                                        has_jwt_secret = h';
                                        has_jwt_expires_in = i';
                                        is_reachable = record { has_url = g'; has_host = j' };
                                      }))))))))))))

  validated : (env : Environment) → Holds IsUsable (validate_environment parse_int protocol_of env)
  unfolding validate_environment
  validated env =
      let node_env = or_else env.node_env development_env in
      elim (Bool-cases (eq_text node_env test_env)) [
        | inl e ↦ rw e (
            bind-Holds (λ s. IsUsable (for_test s)) IsUsable _ _ (test_settings-IsUsable env)
              (λ s h. valid-Holds IsUsable _ h))
        | inr e ↦ rw e (
            bind-Holds IsRunnable IsUsable _ _ (run_settings-IsRunnable node_env env)
              (λ s h. valid-Holds IsUsable _ h))
      ]

  -- If `validate_environment` gives settings for an environment: those for a run have texts
  -- for the database, the token and the cache that are not empty, and a URL that parses and
  -- has a protocol of the database; those for a test have the URL and the host of the cache,
  -- as good as these, exactly if the test runs on a database.
  pub validate_environment-IsUsable :
      (env : Environment) (s : Settings)
      → validate_environment parse_int protocol_of env ≡ valid s
      → IsUsable s
  validate_environment-IsUsable env s e = Holds-valid IsUsable _ s (validated env) e
