-- ===== src/Config/Manager.antt =====
-- internal/utils/config_manager/config_manager.go: a local source of settings and, if that says so, a
-- remote one. The package viper is an interface.
use vectory.Base.{
  ◌≡◌, refl, Bool, true, List, [], ◌∷◌, Option, none, some, Bytes, bytes_same, codes, ◌>>=◌,
  if◌then◌else◌, Bool-cases, inl, inr,
}
use vectory.Errors.{Err}

pub record Remote : Type 0 where
  pub provider : Bytes
  pub endpoint : Bytes
  pub path : Bytes

pub record MetaConfig : Type 0 where
  pub enable_remote : Bool
  pub remote : List Remote

-- `*viper.Viper`, with the type assertion of a value to a MetaConfig. A call changes the viper, and may
-- give an error.
pub record Viper : Type 1 where
  pub Vip : Type 0
  pub Value : Type 0
  pub new : Vip
  pub get : Vip → Bytes → Option Value
  pub set : Vip → Bytes → Value → Vip
  pub read_in_config : Vip → Bytes → Vip × Option Err
  pub add_remote_provider : Vip → Remote → Vip × Option Err
  pub read_remote_config : Vip → Vip × Option Err
  pub watch_remote_config : Vip → Vip × Option Err
  pub as_meta_config : Value → Option MetaConfig
  pub get-set :
      (v : Vip) (k j : Bytes) (x : Value)
      → get (set v k x) j ≡ (if bytes_same k j then some x else get v j)

module _ (v : Viper) where
  open v use {Vip, Value}

  pub record ConfigManager : Type 0 where
    pub local_viper : Vip
    pub remote_viper : Option Vip

  or_remote : Option Vip → Bytes → Option Value → Option Value
  or_remote remote key (some x) = some x
  or_remote none key none = none
  or_remote (some r) key none = v.get r key

  -- `Get`
  unfoldable pub get : ConfigManager → Bytes → Option Value
  unfolding or_remote
  get c key = or_remote c.remote_viper key (v.get c.local_viper key)

  -- `Set`
  unfoldable pub set : ConfigManager → Bytes → Value → ConfigManager
  set c key x = record c { local_viper = v.set c.local_viper key x }

  -- `getMetaConfig`
  unfoldable pub get_meta_config : Vip → Option MetaConfig
  get_meta_config l = (v.get l (codes "config_manager") >>= v.as_meta_config)

  -- A call, if there was no error before it.
  then_call : (Vip → Vip × Option Err) → Vip × Option Err → Vip × Option Err
  then_call f (r, some e) = (r, some e)
  then_call f (r, none) = f r

  add_providers : List Remote → Vip × Option Err → Vip × Option Err
  unfolding then_call
  add_providers [] r = r
  add_providers (p ∷ ps) r = add_providers ps (then_call (λ w. v.add_remote_provider w p) r)

  open_remote : List Remote → Vip × Option Err
  unfolding add_providers
  open_remote ps =
      then_call v.watch_remote_config
        (then_call v.read_remote_config (add_providers ps (v.new, none)))

  with_remote : Vip → Vip × Option Err → ConfigManager × Option Err
  with_remote l (r, e) = (record { local_viper = l; remote_viper = some r }, e)

  by_meta : Vip → Option MetaConfig → ConfigManager × Option Err
  unfolding with_remote open_remote
  by_meta l none = (record { local_viper = l; remote_viper = none }, none)
  by_meta l (some m) =
      if m.enable_remote
      then with_remote l (open_remote m.remote)
      else (record { local_viper = l; remote_viper = none }, none)

  after_local : Vip × Option Err → ConfigManager × Option Err
  unfolding by_meta
  after_local (l, some e) = (record { local_viper = l; remote_viper = none }, some e)
  after_local (l, none) = by_meta l (get_meta_config l)

  -- `Init`: the manager, and the error.
  unfoldable pub init : Bytes → ConfigManager × Option Err
  unfolding after_local
  init path = after_local (v.read_in_config v.new path)

  -- What was set is found, whatever the remote source has; another key is found as before.
  pub get-set :
      (c : ConfigManager) (k j : Bytes) (x : Value)
      → get (set c k x) j ≡ (if bytes_same k j then some x else get c j)
  unfolding get set or_remote
  get-set c k j x = elim (Bool-cases (bytes_same k j)) [
    | inl t ↦ rw (v.get-set c.local_viper k j x, t) refl
    | inr t ↦ rw (v.get-set c.local_viper k j x, t) refl
  ]

  -- Init without an error leaves a remote source only if the local file, as it was read, enables it.
  pub init_remote :
      (path : Bytes) (r : Vip)
      → (init path).0.remote_viper ≡ some r
      → (m : MetaConfig) × (get_meta_config (init path).0.local_viper ≡ some m)
        × (m.enable_remote ≡ true)
  unfolding init after_local by_meta with_remote
  init_remote path r q = read (v.read_in_config v.new path) q
    where
      chosen :
          (l : Vip) (o : Option MetaConfig)
          → get_meta_config l ≡ o
          → (by_meta l o).0.remote_viper ≡ some r
          → (m : MetaConfig) × (get_meta_config (by_meta l o).0.local_viper ≡ some m)
            × (m.enable_remote ≡ true)
      chosen l none g q = absurd (cc)
      chosen l (some m) g q = elim (Bool-cases m.enable_remote) [
        | inl t ↦ (m, simp t g, t)
        | inr t ↦ let z : none ≡ some r = rw t at q in absurd (cc)
      ]

      read :
          (a : Vip × Option Err)
          → (after_local a).0.remote_viper ≡ some r
          → (m : MetaConfig) × (get_meta_config (after_local a).0.local_viper ≡ some m)
            × (m.enable_remote ≡ true)
      read (l, some e) q = absurd (cc)
      read (l, none) q = chosen l (get_meta_config l) refl q
