-- ===== src/Livox/Callback.antt =====
-- call_back/livox_lidar_callback.cpp: how a device is configured when it appears. A call returns the data
-- source and the requests that it sends to the Livox SDK, which answers each by a later call.
pub mod Flags
pub mod Answers
pub mod Connect
use Prim.Native.Nat.{bit_and, bit_or}
use robot_nav.Prelude.{
  ℕ, zero, suc, ◌-◌, ◌^◌, Bool, true, false, Option, none, some, List, [], ◌∷◌, ◌++◌, set, ◌==◌,
  if◌then◌else◌,
}
use robot_nav.Prelude.Int.{ℤ}
use robot_nav.Livox.Fault.{Outcome, done, fault, null_deref, ◌>>=◌}
use robot_nav.Livox.Config.{
  ExtParameter, UserLivoxLidarConfig, Setting, data_type, scan_pattern, blind_spot, dual_emit,
  bit_of, value_of, is_set, to_bool,
}
use robot_nav.Livox.CacheIndex.{CacheIndex, get_index, get_free_index, livox_lidar_type}
use robot_nav.Livox.Lds.Defs.{LidarDevice, sampling, Lds, device}

-- The calls of the SDK, each with its handle; `LivoxLidarInstallAttitude` has the fields of
-- `ExtParameter`.
pub data Request (F : Type 0) : Type 0 where
  set_pcl_data_type : ℕ → ℤ → Request F
  set_scan_pattern : ℕ → ℤ → Request F
  set_blind_spot : ℕ → ℤ → Request F
  set_dual_emit : ℕ → Bool → Request F
  set_install_attitude : ℕ → ExtParameter F → Request F
  set_work_mode_normal : ℕ → Request F
  enable_imu_data : ℕ → Request F

-- `livox_status`: every error but a timeout is `failure`.
pub data Status : Type 0 where
  success timeout failure : Status

module _ {F : Type 0} where
  unfoldable pub request : ℕ → UserLivoxLidarConfig F → Setting → Request F
  request h c data_type = set_pcl_data_type h c.pcl_data_type
  request h c scan_pattern = set_scan_pattern h c.pattern_mode
  request h c blind_spot = set_blind_spot h c.blind_spot_set
  request h c dual_emit = set_dual_emit h (to_bool c.dual_emit_en)

  -- The end of `LidarInfoChangeCallback`.
  start_device : ℕ → List (Request F)
  start_device h = set_work_mode_normal h ∷ enable_imu_data h ∷ []

abbrev pub Called : Type 0 → Type 0 → Type 0
Called P F = Outcome (Lds P F × List (Request F))

module _ {P F : Type 0} where
  -- `GetLidarDevice`: the device with its index, or null.
  unfoldable pub get_lidar_device : Lds P F → ℕ → Outcome (Option (ℕ × LidarDevice P F))
  unfolding device
  get_lidar_device s handle = elim (get_index s.cache_index livox_lidar_type handle) [
    | none ↦ done none
    | some i ↦ device s.lidars i >>= λ d. done (some (i, d))
  ]

  with_bits : LidarDevice P F → ℕ → LidarDevice P F
  with_bits d bits = record d { livox_config = record d.livox_config { set_bits = bits } }

  -- One of the four tests of `LidarInfoChangeCallback`.
  request_setting :
      ℕ → Setting → LidarDevice P F × List (Request F) → LidarDevice P F × List (Request F)
  unfolding with_bits request
  request_setting h s (d, sent) =
      if is_set (value_of d.livox_config s)
      then (
        with_bits d (bit_or d.livox_config.set_bits (bit_of s)),
        sent ++ (request h d.livox_config s ∷ []),
      )
      else (d, sent)

  unfoldable pub request_settings : ℕ → LidarDevice P F → LidarDevice P F × List (Request F)
  unfolding request_setting
  request_settings h d = request_setting h dual_emit (
      request_setting h blind_spot
        (request_setting h scan_pattern (request_setting h data_type (d, []))))

  configure : Lds P F → ℕ → ℕ → LidarDevice P F → Lds P F × List (Request F)
  unfolding request_settings start_device
  configure s h i d =
      let (d', sent) = request_settings h d in
      let c = d.livox_config in
      (
        record s { lidars = set s.lidars i d' },
        sent ++ (set_install_attitude c.handle c.extrinsic_param ∷ start_device h),
      )

  add_at : Lds P F → ℕ → Option ℕ × CacheIndex → Called P F
  unfolding device start_device
  add_at s h (none, c) = done (record s { cache_index = c }, [])
  add_at s h (some i, c) = do
    d ← device s.lidars i
    done (
      record s {
        cache_index = c;
        lidars = set s.lidars i (record d { lidar_type = livox_lidar_type });
      },
      start_device h,
    )

  add_device : Lds P F → ℕ → Called P F
  unfolding add_at
  add_device s h = add_at s h (get_free_index s.cache_index livox_lidar_type h)

  unfoldable pub lidar_info_change : Lds P F → ℕ → Called P F
  unfolding get_lidar_device configure add_device
  lidar_info_change s h = get_lidar_device s h >>= λ r. elim r [
    | none ↦ add_device s h
    | some (i, d) ↦ done (configure s h i d)
  ]

  unfoldable pub work_mode_changed : Lds P F → Status → ℕ → Called P F
  work_mode_changed s success h = done (s, [])
  work_mode_changed s timeout h = done (s, set_work_mode_normal h ∷ [])
  work_mode_changed s failure h = done (s, set_work_mode_normal h ∷ [])

  -- `set_bits &= ~bit`, and the device is ready where no bit is left.
  unfoldable pub clear_setting : Setting → LidarDevice P F → LidarDevice P F
  unfolding with_bits
  clear_setting setting d =
      let bits = bit_and d.livox_config.set_bits (2 ^ 32 - 1 - bit_of setting) in
      let d' = with_bits d bits in if bits == 0 then record d' { connect_state = sampling } else d'

  -- On an error the code prints two fields of the response, which must not be null.
  answer_setting : Setting → Status → Bool → Lds P F → ℕ → ℕ → LidarDevice P F → Called P F
  unfolding clear_setting request
  answer_setting setting success response s h i d =
      done (record s { lidars = set s.lidars i (clear_setting setting d) }, [])
  answer_setting setting timeout response s h i d = done (s, request h d.livox_config setting ∷ [])
  answer_setting setting failure true s h i d = done (s, [])
  answer_setting setting failure false s h i d = fault null_deref

  -- The four callbacks differ in the bit that they clear and the request that they repeat.
  unfoldable pub set_setting_callback : Setting → Lds P F → Status → ℕ → Bool → Called P F
  unfolding get_lidar_device answer_setting
  set_setting_callback setting s status h response = get_lidar_device s h >>= λ r. elim r [
    | none ↦ done (s, [])
    | some (i, d) ↦ answer_setting setting status response s h i d
  ]

  abbrev pub set_data_type_callback : Lds P F → Status → ℕ → Bool → Called P F
  set_data_type_callback = set_setting_callback data_type

  abbrev pub set_pattern_mode_callback : Lds P F → Status → ℕ → Bool → Called P F
  set_pattern_mode_callback = set_setting_callback scan_pattern

  abbrev pub set_blind_spot_callback : Lds P F → Status → ℕ → Bool → Called P F
  set_blind_spot_callback = set_setting_callback blind_spot

  abbrev pub set_dual_emit_callback : Lds P F → Status → ℕ → Bool → Called P F
  set_dual_emit_callback = set_setting_callback dual_emit

  answer_attitude : Status → Lds P F → LidarDevice P F → Called P F
  answer_attitude success s d = done (s, [])
  answer_attitude timeout s d =
      let c = d.livox_config in done (s, set_install_attitude c.handle c.extrinsic_param ∷ [])
  answer_attitude failure s d = done (s, [])

  unfoldable pub set_attitude_callback : Lds P F → Status → ℕ → Called P F
  unfolding get_lidar_device answer_attitude
  set_attitude_callback s status h = get_lidar_device s h >>= λ r. elim r [
    | none ↦ done (s, [])
    | some (i, d) ↦ answer_attitude status s d
  ]

  answer_imu : Status → Bool → Lds P F → ℕ → Called P F
  answer_imu status false s h = done (s, [])
  answer_imu success true s h = done (s, [])
  answer_imu timeout true s h = done (s, enable_imu_data h ∷ [])
  answer_imu failure true s h = done (s, [])

  unfoldable pub enable_imu_data_callback : Lds P F → Status → ℕ → Bool → Called P F
  unfolding get_lidar_device answer_imu
  enable_imu_data_callback s status h response = get_lidar_device s h >>= λ r. elim r [
    | none ↦ done (s, [])
    | some (i, d) ↦ answer_imu status response s h
  ]
