-- ===== src/Config.antt =====
-- internal/config/config.go of the two services, which differ in the type of the configuration
-- alone: the reading of it by viper. What `viper.Unmarshal` makes of the file and the environment
-- is an argument, given the calls made.
use shortcut.Prelude.{String, List, [], ◌∷◌, ◌⊎◌}
use shortcut.Runtime.{
  Call, Env, Error, Exec, tell, call, checked, returned, try, pure, raise, ◌>>◌, Level,
}

-- `DefaultConfigName` and `DefaultConfigType`
abbrev default_config_name : String
default_config_name = "config"

abbrev default_config_type : String
default_config_type = "yml"

abbrev pub default_search_paths : List String
default_search_paths = "." ∷ "../.." ∷ "~/etc" ∷ "/etc" ∷ []

unfoldable pub add_config_paths : List String → Exec (Unit {0})
add_config_paths [] = pure tt
add_config_paths (path ∷ paths) = tell (Call.add_config_path path) >> add_config_paths paths

module _ {A : Type 0} (env : Env) (unmarshal : List Call → Error ⊎ A) where
  -- The reading of the values, once the file was read. A line of the standard log has no level.
  unfoldable pub unmarshal_config : Exec A
  unmarshal_config = do
    tell Call.automatic_env
    tell (Call.set_env_key_replacer ((".", "_") ∷ []))
    try (call Call.unmarshal_config (λ h. returned (unmarshal h)))
        (λ e. tell (Call.log Level.info "unmarshal failed: '%s'") >> raise e) pure

  unfoldable pub get_conf : Exec A
  unfolding add_config_paths unmarshal_config
  get_conf = do
    add_config_paths default_search_paths
    tell (Call.set_config_name default_config_name)
    tell (Call.set_config_type default_config_type)
    try (call Call.read_in_config (λ h. checked (env.config_reply h)))
        (λ e. tell (Call.log Level.info "read config failed: '%s'") >> raise e)
        (λ _. unmarshal_config)
