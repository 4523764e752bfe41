-- ===== src/Config/Locations.antt =====
-- Where the configuration, the locks and the logs are: the path functions of internal/config/config.go, and
-- the search of `Load` in internal/config/loader.go, which viper does.
use syncrules.Prelude.{
  ℕ, Text, text_eq, nat_eq, codes, Bool, List, [], ◌∷◌, ◌++◌, ◌==◌, if◌then◌else◌, Result, ok, err,
  ◌≡◌, inl, All, inr, refl, sym, ◌∙◌, arith, Result-cases,
}
use syncrules.Paths.{slash, dot, clean, join, join_all}
use syncrules.Domain.{Error, wrapped, config_not_found, config_invalid}
use syncrules.Config.{Config}
use syncrules.Config.Consistency.{IsConsistent}
use syncrules.Config.Defaults.{StrategyIsValid, load-valid}
use syncrules.Config.Load.{load, load_from_string}

-- What `os.UserHomeDir`, `os.UserConfigDir` and `os.ExpandEnv` give.
pub record Environment : Type 0 where
  pub user_home_dir : Result Error Text
  pub user_config_dir : Result Error Text
  pub expand_env : Text → Text

-- A path that begins with `~`, where the home directory is known.
expand_home : Text → Text → Text
unfolding join
expand_home home [] = []
expand_home home (c ∷ []) = home
expand_home home (c ∷ d ∷ rest) = if d == slash then join home rest else c ∷ d ∷ rest

expand_tilde : Environment → Text → Text
unfolding expand_home
expand_tilde env [] = []
expand_tilde env (c ∷ rest) =
    if c == b'~'
    then elim env.user_home_dir [ err _ ↦ c ∷ rest | ok home ↦ expand_home home (c ∷ rest) ]
    else c ∷ rest

-- `ExpandPath`
unfoldable pub expand_path : Environment → Text → Text
unfolding expand_tilde clean
expand_path env path = clean (env.expand_env (expand_tilde env path))

-- The path that is set, or one in the configuration directory, or one in the current directory.
located : Environment → Text → List Text → Text
unfolding expand_path join_all
located env [] names = elim env.user_config_dir [
  | err _ ↦ join_all (dot ∷ codes ".syncrules" ∷ names)
  | ok config_dir ↦ join_all (config_dir ∷ codes "syncrules" ∷ names)
]
located env (c ∷ path) names = expand_path env (c ∷ path)

unfoldable pub get_lock_path : Environment → Config → Text
unfolding located
get_lock_path env c = located env c.settings.lock_path (codes "locks" ∷ [])

unfoldable pub get_log_path : Environment → Config → Text
unfolding located
get_log_path env c = located env c.logging.file.path (codes "logs" ∷ codes "syncrules.log" ∷ [])

unfoldable pub get_daemon_log_path : Environment → Config → Text
unfolding located
get_daemon_log_path env c =
    located env c.logging.daemon.file_path (codes "logs" ∷ codes "daemon.log" ∷ [])

in_home : Text → List Text
unfolding join_all
in_home home =
    join_all (home ∷ codes ".config" ∷ codes "syncrules" ∷ [])
    ∷ join_all (home ∷ codes ".syncrules" ∷ [])
    ∷ []

-- `DefaultConfigPaths`
unfoldable pub default_config_paths : Environment → List Text
unfolding in_home join_all
default_config_paths env =
    codes "."
    ∷ codes "./configs"
    ∷ ((elim env.user_config_dir [ err _ ↦ [] | ok d ↦ join_all (d ∷ codes "syncrules" ∷ []) ∷ [] ])
        ++ (elim env.user_home_dir [ err _ ↦ [] | ok home ↦ in_home home ]))

-- What `ReadInConfig` can fail with.
pub data ReadFailure : Type 0 where
  file_not_found : ReadFailure
  unreadable : Error → ReadFailure

-- What is used of viper: a file, or one named `config` in the directories, is read into a `V`.
pub record Viper (V : Type 0) : Type 0 where
  pub read_file : Text → Result ReadFailure V
  pub search : List Text → Result ReadFailure V
  pub read_text : Text → Result Error V
  pub unmarshal : V → Result Error Config
  pub is_set : V → ℕ → Bool

module _ {V : Type 0} (viper : Viper V) (duration_ok : Text → Bool) where
  read_in_config : Environment → Text → Result ReadFailure V
  unfolding default_config_paths
  read_in_config env path =
      if path == [] then viper.search (default_config_paths env) else viper.read_file path

  -- `Load` after the file is read.
  load_read : V → Result Error Config
  unfolding load
  load_read v = elim (viper.unmarshal v) [
    | err e ↦ err (wrapped (codes "unmarshal") config_invalid)
    | ok c ↦ load duration_ok (ok (c, viper.is_set v))
  ]

  -- `Load`
  unfoldable pub load_path : Environment → Text → Result Error Config
  unfolding read_in_config load_read
  load_path env path = elim (read_in_config env path) [
    | err file_not_found ↦ err config_not_found
    | err (unreadable e) ↦ err (wrapped (codes "read") config_invalid)
    | ok v ↦ load_read v
  ]

  -- `LoadFromString`
  unfoldable pub load_text : Text → Result Error Config
  unfolding load_from_string
  load_text content = elim (viper.read_text content) [
    | err e ↦ err (wrapped (codes "read") config_invalid)
    | ok v ↦ elim (viper.unmarshal v) [
      | err e ↦ err (wrapped (codes "unmarshal") config_invalid)
      | ok c ↦ load_from_string duration_ok (ok c)
    ]
  ]

  load_read-valid :
      (v : V) (c : Config)
      → load_read v ≡ ok c
      → IsConsistent duration_ok c × All StrategyIsValid c.rules
  unfolding load_read
  load_read-valid v c h = elim (Result-cases (viper.unmarshal v)) [
    | inr (e, k) ↦ ground arith
    | inl (raw, k) ↦
        let step : load_read v ≡ load duration_ok (ok (raw, viper.is_set v)) =
          rw (load_read, k) refl in
        load-valid duration_ok (ok (raw, viper.is_set v)) c (sym step ∙ h)
  ]

  -- Whatever file Load is given, or finds, a configuration that it returns is consistent, and every rule
  -- of it has a known strategy.
  pub load_path-valid :
      (env : Environment) (path : Text) (c : Config)
      → load_path env path ≡ ok c
      → IsConsistent duration_ok c × All StrategyIsValid c.rules
  unfolding load_path
  load_path-valid env path c h = elim (Result-cases (read_in_config env path)) [
    | inl (v, k) ↦
        let step : load_path env path ≡ load_read v = rw (load_path, k) refl in
        load_read-valid v c (sym step ∙ h)
    | inr (file_not_found, k) ↦ ground arith
    | inr (unreadable e, k) ↦ ground arith
  ]
