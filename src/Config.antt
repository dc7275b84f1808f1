-- ===== src/Config.antt =====
-- internal/config (env.go, path.go) and GetString of internal/utils/config_manager: settings and the
-- keys of the cluster's state in etcd. The environment and the parsed configuration files are
-- arguments.
pub mod Paths
pub mod Manager
use vectory.Base.{
  ℕ, ◌≡◌, ◌≢◌, ◌⊎◌, inl, inr, refl, Bool, true, false, List, [], ◌∷◌, ◌++◌, Option, none, some,
  Bytes, codes, ℤ, pos, atoi, is_empty, if◌then◌else◌, arith,
}

-- `os.Getenv`, and GetString of the local and of the remote viper, if there is one.
pub record Sources : Type 0 where
  pub os_env : Bytes → Bytes
  pub local_viper : Bytes → Bytes
  pub remote_viper : Option (Bytes → Bytes)

pub remote_string : Option (Bytes → Bytes) → Bytes → Bytes
remote_string none key = []
remote_string (some v) key = v key

-- `config_manager.GetString`
unfoldable pub get_string : Sources → Bytes → Bytes
unfolding remote_string
get_string c key =
    if is_empty (c.local_viper key) then remote_string c.remote_viper key else c.local_viper key

unfoldable pub get_env : Sources → Bytes → Bytes
unfolding get_string
get_env c name =
    if is_empty (c.os_env name) then get_string c (codes "env." ++ name) else c.os_env name

port_of : Option ℤ → ℤ
port_of none = pos 0
port_of (some p) = p

unfoldable pub get_port : Sources → ℤ
unfolding port_of
get_port c = port_of (atoi (get_env c (codes "PORT")))

unfoldable pub get_rpc_port : Sources → ℤ
unfolding port_of
get_rpc_port c = port_of (atoi (get_env c (codes "RPC_PORT")))

abbrev or_default : Bytes → Bytes → Bytes
or_default s d = if is_empty s then d else s

unfoldable pub get_pod_ip : Sources → Bytes
get_pod_ip c = or_default (get_env c (codes "POD_IP")) (codes "0.0.0.0")

unfoldable pub get_env_local_index_path : Sources → Bytes
get_env_local_index_path c = or_default (get_env c (codes "IDX_PATH")) (codes "./etc/index")

unfoldable pub get_env_etcd_root : Sources → Bytes → Bytes
get_env_etcd_root c cluster_name =
    or_default (get_env c (codes "ETCD_ROOT")) (codes "/vectory/" ++ cluster_name)

-- The environment wins over the local file, and that over the remote one; a setting is taken from
-- the first of them that has it.
pub get_env_lem :
    (c : Sources) (name : Bytes)
    → ((c.os_env name ≢ []) × (get_env c name ≡ c.os_env name))
      ⊎ ((c.os_env name ≡ [])
          × (((c.local_viper (codes "env." ++ name) ≢ [])
                × (get_env c name ≡ c.local_viper (codes "env." ++ name)))
              ⊎ ((c.local_viper (codes "env." ++ name) ≡ [])
                  × (get_env c name ≡ remote_string c.remote_viper (codes "env." ++ name)))))
unfolding get_env get_string
get_env_lem c name = ground arith
