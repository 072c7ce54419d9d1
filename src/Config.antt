-- ===== src/Config.antt =====
-- The configuration of the services (order/internal/config, whose config.go the other services repeat,
-- and inventory/internal/config/pg.go). Reading a file and reading the environment are calls of
-- cleanenv, parameters here.
use Prim.Native.String
use rocket_factory.Prelude.{
  String, ◌≡◌, refl, false, Bool-cases, inl, inr, str_eq, if◌then◌else◌, Result,
}
use rocket_factory.Prelude.Int.{ℤ, pos, ltb_ℤ}

infixr 60 ◌<>◌
abbrev ◌<>◌ : String → String → String
a <> b = Prim.Native.String.◌++◌ a b

abbrev pub default_config_path : String
default_config_path = "config.local.yaml"

-- ResolveConfigPath, on the values of the flag and of CONFIG_PATH; a variable that is not set reads "".
unfoldable pub resolve_config_path : String → String → String
resolve_config_path cfg_flag env_path =
    if str_eq cfg_flag ""
    then (if str_eq env_path "" then default_config_path else env_path)
    else cfg_flag

module _ {E C : Type 0} (read_config : String → Result E C) (read_env : Result E C) where
  -- Load
  unfoldable pub load : String → Result E C
  load path = if str_eq path "" then read_env else read_config path

  -- A service that resolves the path of its configuration always reads a file.
  pub load-resolve_config_path :
      (cfg_flag env_path : String)
      → load (resolve_config_path cfg_flag env_path)
        ≡ read_config (resolve_config_path cfg_flag env_path)
  unfolding load resolve_config_path
  load-resolve_config_path cfg_flag env_path = elim (Bool-cases (str_eq cfg_flag "")) [
    | inr given ↦ rw (given, given) refl
    | inl no_flag ↦ elim (Bool-cases (str_eq env_path "")) [
      | inr set ↦ rw (no_flag, set, set) refl
      | inl unset ↦ rw (no_flag, unset) refl
    ]
  ]

-- pgConfig; the order service has no max_conns.
pub record PgConfig : Type 0 where
  pub host : String
  pub port : String
  pub database : String
  pub user : String
  pub password : String
  pub ssl_mode : String

-- DSN of the order service
unfoldable pub dsn : PgConfig → String
dsn c =
    "host=" <> c.host <> " port=" <> c.port <> " dbname=" <> c.database <> " user=" <> c.user
    <> " password=" <> c.password <> " sslmode=" <> c.ssl_mode

module _ (decimal : ℤ → String) where
  -- DSN of the inventory, with the size of its pool; `decimal` is the verb %d.
  unfoldable pub pool_dsn : PgConfig → ℤ → String
  unfolding dsn
  pool_dsn c max_conns =
      if ltb_ℤ (pos 0) max_conns then dsn c <> " pool_max_conns=" <> decimal max_conns else dsn c

  -- Where no size of the pool is given, the two services connect alike.
  pub pool_dsn-dsn :
      (c : PgConfig) (max_conns : ℤ)
      → ltb_ℤ (pos 0) max_conns ≡ false
      → pool_dsn c max_conns ≡ dsn c
  unfolding pool_dsn
  pool_dsn-dsn c max_conns h = rw h refl
