-- ===== src/Server/Start.antt =====
-- The start of `main` in src/main.c, up to the accept loop: the configuration, the user store and the
-- state of the server.
use os_lab.Prelude.{
  ℕ, Bool, not, List, [], ◌∷◌, Option, none, some, Bytes, codes, ℤ, uint16, if◌then◌else◌,
}
use os_lab.Disk.{Disk}
use os_lab.Config.{Config, config_init}
use os_lab.Sql.{Sql}
use os_lab.Users.{UserStore, user_store_create}
use os_lab.Server.{ServerState, started}

-- How the calls go: the text of a configuration file if it can be opened, `atoi`, and whether the
-- others succeed.
pub record Start : Type 0 where
  pub config_text : Bytes → Option Bytes
  pub atoi : Bytes → ℤ
  pub storage_exists : Bool
  pub storage_made : Bool
  pub allocates_server : Bool
  pub allocates_store : Bool
  pub root_made : Bool

abbrev config_use_persistent_storage : Config → Bool
config_use_persistent_storage config = config.use_persistent_storage

abbrev config_get_database_file : Config → Bytes
config_get_database_file config = config.database_file

abbrev pub config_get_storage_path : Config → Bytes
config_get_storage_path config = config.storage_path

-- The arguments behind the program's name.
abbrev pub port_of : Start → List Bytes → ℕ
port_of s [] = 9090
port_of s (port ∷ arguments) = uint16 (s.atoi port)

abbrev pub config_file_of : List Bytes → Bytes
config_file_of (port ∷ config_file ∷ arguments) = config_file
config_file_of _ = codes "config.ini"

module _ (sql : Sql) where
  -- The port that the server listens on, its accounts and its state.
  abbrev pub with_store :
      ℕ → Disk × Option (UserStore sql) → Disk × Option (ℕ × UserStore sql × ServerState)
  with_store port (d, none) = (d, none)
  with_store port (d, some store) = (d, some (port, store, started))

  abbrev pub create_for : Start → Disk × Config → Disk × Option (UserStore sql)
  create_for s (d, config) =
      user_store_create sql s.allocates_store s.root_made d (config_use_persistent_storage config)
        (config_get_database_file config) (some (config_get_storage_path config))

  -- `none` is the exit with the status 1.
  unfoldable pub start_up :
      Start → List Bytes → Disk → Disk × Option (ℕ × UserStore sql × ServerState)
  unfolding config_init user_store_create
  start_up s arguments d =
      let text = s.config_text (config_file_of arguments) in
      let configured = config_init s.storage_exists s.storage_made d text in
      if not s.allocates_server
      then (configured.0, none)
      else with_store (port_of s arguments) (create_for s configured)
