-- ===== src/Livox/LdsLidar.antt =====
-- lds_lidar.cpp: the start and the end of the driver's data source. What the SDK and the configuration
-- file give is an argument.
pub mod Filled
use robot_nav.Prelude.{
  ℕ, zero, suc, Bool, true, false, Option, none, some, List, [], ◌∷◌, set, ◌==◌, if◌then◌else◌,
}
use Prim.Native.Nat.{bit_and}
use robot_nav.Prelude.Int.{ℤ, pos, negsuc, quot}
use robot_nav.Livox.Fault.{Outcome, done, fault, ◌>>=◌}
use robot_nav.Livox.Config.{ExtParameter, UserLivoxLidarConfig}
use robot_nav.Livox.CacheIndex.{CacheIndex, get_free_index, livox_lidar_type}
use robot_nav.Livox.Lds.Defs.{Lds, LidarDevice, device}

pub record LidarExtParameter (F : Type 0) : Type 0 where
  pub lidar_type : ℕ
  pub handle : ℕ
  pub param : ExtParameter F

-- The data source, what `AddLidarsExtParam` was called with (the last first), the type that the summary
-- of the configuration names, and whether the callbacks of the SDK are set.
pub record LdsLidar (P F : Type 0) : Type 0 where
  pub lds : Lds P F
  pub extrinsics : List (LidarExtParameter F)
  pub summary_type : ℕ
  pub is_initialized : Bool
  pub callback_set : Bool
  pub sdk_running : Bool

-- What a start reads: the summary, where the file has one; the devices of the configuration (with or
-- without an error); whether the SDK starts.
pub record Environment (F : Type 0) : Type 0 where
  pub summary : Option ℕ
  pub user_configs : List (UserLivoxLidarConfig F)
  pub sdk_starts : Bool

module _ {F : Type 0} where
  -- Translations are in millimetres, and in centimetres for low precision points.
  unfoldable pub ext_param : Bool → ExtParameter F → ExtParameter F
  ext_param low e =
      if low then record e { x = quot e.x 10; y = quot e.y 10; z = quot e.z 10 } else e

abbrev pub Filling : Type 0 → Type 0 → Type 0
Filling P F = Lds P F × List (LidarExtParameter F)

module _ {P F : Type 0} where
  -- `lidar_type & kLivoxLidarType`
  is_livox : LdsLidar P F → Bool
  is_livox s = if bit_and s.summary_type livox_lidar_type == 0 then false else true

  -- The result is 0 or -1; `is_initialized` is left alone.
  unfoldable pub deinit_lds_lidar : LdsLidar P F → ℤ × LdsLidar P F
  unfolding is_livox
  deinit_lds_lidar s =
      if s.is_initialized
      then (pos 0, if is_livox s then record s { sdk_running = false } else s)
      else (negsuc 0, s)

module _ {P F : Type 0} (is_low_data : ℤ → Bool) where
  fill_at : UserLivoxLidarConfig F → Filling P F → Option ℕ × CacheIndex → Outcome (Filling P F)
  unfolding device ext_param
  fill_at config (s, ext) (none, c) = done (record s { cache_index = c }, ext)
  fill_at config (s, ext) (some i, c) = do
    d ← device s.lidars i
    let d' = record d {
      lidar_type = livox_lidar_type;
      livox_config = config;
      handle = config.handle;
    }
    let param = ext_param (is_low_data config.pcl_data_type) config.extrinsic_param
    done (
      record s { cache_index = c; lidars = set s.lidars i d' },
      record { lidar_type = livox_lidar_type; handle = config.handle; param = param } ∷ ext,
    )

  -- The loop of `InitLivoxLidar`.
  unfoldable pub fill_devices : List (UserLivoxLidarConfig F) → Filling P F → Outcome (Filling P F)
  unfolding fill_at
  fill_devices [] f = done f
  fill_devices (config ∷ l) f = do
    f' ← fill_at config f (get_free_index f.0.cache_index livox_lidar_type config.handle)
    fill_devices l f'

  unfoldable pub init_livox_lidar : Environment F → LdsLidar P F → Outcome (Bool × LdsLidar P F)
  unfolding fill_devices
  init_livox_lidar env s =
      if env.sdk_starts
      then (do
        (lds, ext) ← fill_devices env.user_configs (s.lds, s.extrinsics)
        done (
          true,
          record s { lds = lds; extrinsics = ext; callback_set = true; sdk_running = true },
        ))
      else done (false, s)

  unfoldable pub init_lidars : Environment F → LdsLidar P F → Outcome (Bool × LdsLidar P F)
  unfolding init_livox_lidar is_livox
  init_lidars env s = elim env.summary [
    | none ↦ done (false, s)
    | some t ↦
        let s' = record s { summary_type = t } in
        elim (is_livox s') [ true ↦ init_livox_lidar env s' | false ↦ done (true, s') ]
  ]

  unfoldable pub init_lds_lidar : Environment F → LdsLidar P F → Outcome (Bool × LdsLidar P F)
  unfolding init_lidars
  init_lds_lidar env s =
      if s.is_initialized
      then done (false, s)
      else (init_lidars env s >>= λ (ok, s'). elim ok [
        | true ↦ done (true, record s' { is_initialized = true })
        | false ↦ done (false, s')
      ])
