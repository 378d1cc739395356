-- ===== src/Config/Complete.antt =====
-- backend/src/config/env.validation.ts: which environments are accepted.
use exchange_matching.Base.{
  ℤ, ◌≡◌, refl, Bool, true, false, not, ◌&&◌, ◌||◌, Bool-cases, inl, inr, Option, Option-cases,
  none, some, if◌then◌else◌, [], ◌∷◌,
}
use exchange_matching.Text.{Text, eq_text}
use exchange_matching.Config.{
  Environment, Setting, absent, text, number, Key, Checked, refused, valid, ◌>>=◌, is_postgres,
  is_text, true_text, test_env, development_env, or_else, is_truthy, parse_number, parse_string,
  parse_database_url, port_setting, services_setting, optional_services, test_settings,
  run_settings, validate_environment, port, postgres_host, postgres_port, postgres_db,
  postgres_user, postgres_password, jwt_secret, jwt_expires_in, redis_host, redis_port,
}

abbrev pub accepts : {A : Type 0} → Checked A → Bool
accepts (refused e) = false
accepts (valid a) = true

-- A variable that is set, and not to the empty text.
abbrev pub is_filled : Option Text → Bool
is_filled none = false
is_filled (some []) = false
is_filled (some (c ∷ cs)) = true

abbrev pub is_some : {A : Type 0} → Option A → Bool
is_some none = false
is_some (some a) = true

bind-accepts :
    {A B : Type 0} {a b : Bool} (call : Checked A) (next : A → Checked B)
    → accepts call ≡ a
    → ((x : A) → accepts (next x) ≡ b)
    → accepts (call >>= next) ≡ (a && b)
unfolding ◌>>=◌
bind-accepts (refused e) next h k = rw⁻¹ h refl
bind-accepts (valid x) next h k = rw⁻¹ h (k x)

-- The last check, whose value only goes into a record.
last_accepts :
    {A B : Type 0} {a : Bool} (call : Checked A) (make : A → B)
    → accepts call ≡ a
    → accepts (call >>= λ x. valid (make x)) ≡ a
unfolding ◌>>=◌
last_accepts (refused e) make h = h
last_accepts (valid x) make h = h

parse_string-accepts : (v : Option Text) (k : Key) → accepts (parse_string v k) ≡ is_filled v
unfolding parse_string
parse_string-accepts none k = refl
parse_string-accepts (some []) k = refl
parse_string-accepts (some (c ∷ cs)) k = refl

module _ (parse_int : Text → Option ℤ) (protocol_of : Text → Option Text) where
  abbrev pub is_number : Setting → Bool
  is_number absent = false
  is_number (text []) = false
  is_number (text (c ∷ cs)) = is_some (parse_int (c ∷ cs))
  is_number (number n) = is_some n

  abbrev is_postgres_protocol : Option Text → Bool
  is_postgres_protocol none = false
  is_postgres_protocol (some protocol) = is_postgres protocol

  abbrev pub is_database_url : Option Text → Bool
  is_database_url none = false
  is_database_url (some url) = is_filled (some url) && is_postgres_protocol (protocol_of url)

  -- The port may be missing, empty or zero.
  abbrev pub is_port : Setting → Bool
  is_port s = not (is_truthy s) || is_number s

  abbrev pub has_services : Environment → Bool
  has_services env =
      is_database_url env.database_url && (is_filled env.redis_host && is_number env.redis_port)

  abbrev pub is_complete_test : Environment → Bool
  is_complete_test env =
      is_port env.port && (not (is_text env.run_database_e2e true_text) || has_services env)

  abbrev pub is_complete_run : Environment → Bool
  is_complete_run env =
      is_port env.port
      && (is_filled env.postgres_host
          && (is_number env.postgres_port
              && (is_filled env.postgres_db
                  && (is_filled env.postgres_user
                      && (is_filled env.postgres_password
                          && (is_database_url env.database_url
                              && (is_filled env.jwt_secret
                                  && (is_filled env.jwt_expires_in
                                      && (is_filled env.redis_host
                                          && is_number env.redis_port)))))))))

  -- All that the mode of the environment needs is there.
  unfoldable pub is_complete : Environment → Bool
  unfolding eq_text is_postgres is_text
  is_complete env =
      if eq_text (or_else env.node_env development_env) test_env
      then is_complete_test env
      else is_complete_run env

  parse_number-accepts :
      (s : Setting) (k : Key) → accepts (parse_number parse_int protocol_of s k) ≡ is_number s
  unfolding parse_number
  parse_number-accepts absent k = refl
  parse_number-accepts (text []) k = refl
  parse_number-accepts (text (c ∷ cs)) k = elim (Option-cases (parse_int (c ∷ cs))) [
    | inl e ↦ rw e refl
    | inr (n, e) ↦ rw e refl
  ]
  parse_number-accepts (number none) k = refl
  parse_number-accepts (number (some n)) k = refl

  parse_database_url-accepts :
      (v : Option Text) → accepts (parse_database_url parse_int protocol_of v) ≡ is_database_url v
  unfolding parse_database_url parse_string ◌>>=◌
  parse_database_url-accepts none = refl
  parse_database_url-accepts (some []) = refl
  parse_database_url-accepts (some (c ∷ cs)) = elim (Option-cases (protocol_of (c ∷ cs))) [
    | inl e ↦ rw e refl
    | inr (p, e) ↦ elim (Bool-cases (is_postgres p)) [
      | inl right ↦ rw (e, right) refl
      | inr wrong ↦ rw (e, wrong) refl
    ]
  ]

  port_setting-accepts :
      (env : Environment) → accepts (port_setting parse_int protocol_of env) ≡ is_port env.port
  port_setting-accepts env = elim (Bool-cases (is_truthy env.port)) [
    | inl set ↦ rw set (parse_number-accepts env.port port)
    | inr unset ↦ rw unset refl
  ]

  module _ (env : Environment) where
    services-accepts : accepts (services_setting parse_int protocol_of env) ≡ has_services env
    services-accepts = bind-accepts _ _ (parse_database_url-accepts env.database_url) (λ a.
        bind-accepts _ _ (parse_string-accepts env.redis_host redis_host)
          (λ b. last_accepts _ _ (parse_number-accepts env.redis_port redis_port)))

    optional-accepts :
        (flag : Bool)
        → accepts (optional_services parse_int protocol_of flag env)
          ≡ (not flag || has_services env)
    optional-accepts false = refl
    optional-accepts true = last_accepts _ _ services-accepts

    test_settings-accepts : accepts (test_settings parse_int protocol_of env) ≡ is_complete_test env
    unfolding test_settings
    test_settings-accepts =
        bind-accepts _ _ (port_setting-accepts env)
          (λ a. last_accepts _ _ (optional-accepts (is_text env.run_database_e2e true_text)))

    run_settings-accepts :
        (node_env : Text)
        → accepts (run_settings parse_int protocol_of node_env env) ≡ is_complete_run env
    unfolding run_settings
    run_settings-accepts node_env = bind-accepts _ _ (port_setting-accepts env) (λ a.
        bind-accepts _ _ (parse_string-accepts env.postgres_host postgres_host) (λ b.
          bind-accepts _ _ (parse_number-accepts env.postgres_port postgres_port) (λ c.
            bind-accepts _ _ (parse_string-accepts env.postgres_db postgres_db) (λ d.
              bind-accepts _ _ (parse_string-accepts env.postgres_user postgres_user) (λ e.
                bind-accepts _ _ (parse_string-accepts env.postgres_password postgres_password)
                  (λ f. bind-accepts _ _ (parse_database_url-accepts env.database_url) (λ g.
                    bind-accepts _ _ (parse_string-accepts env.jwt_secret jwt_secret) (λ h.
                      bind-accepts _ _ (parse_string-accepts env.jwt_expires_in jwt_expires_in)
                        (λ i.
                          bind-accepts _ _ (parse_string-accepts env.redis_host redis_host) (λ j.
                            last_accepts _ _
                              (parse_number-accepts env.redis_port redis_port)))))))))))

    -- For every environment, `validate_environment` gives settings exactly if the
    -- environment is complete: its port is a number, missing, empty or zero, and the
    -- variables that its mode needs are there, as texts that are not empty, numbers that
    -- parse, or a URL that parses and has a protocol of the database.
    pub validate_environment-accepts :
        accepts (validate_environment parse_int protocol_of env) ≡ is_complete env
    unfolding validate_environment is_complete
    validate_environment-accepts =
        let node_env = or_else env.node_env development_env in
        elim (Bool-cases (eq_text node_env test_env)) [
          | inl e ↦ rw e (last_accepts _ _ test_settings-accepts)
          | inr e ↦ rw e (last_accepts _ _ (run_settings-accepts node_env))
        ]
