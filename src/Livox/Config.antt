-- ===== src/Livox/Config.antt =====
-- comm/comm.h: what the user configures of a device, over the type of a `float`.
use robot_nav.Prelude.{ℕ, zero, suc, Bool, true, false}
use robot_nav.Prelude.Int.{ℤ, pos, negsuc}

pub record ExtParameter (F : Type 0) : Type 0 where
  pub roll : F
  pub pitch : F
  pub yaw : F
  pub x : ℤ
  pub y : ℤ
  pub z : ℤ

-- `get_bits` is never read.
pub record UserLivoxLidarConfig (F : Type 0) : Type 0 where
  pub handle : ℕ
  pub pcl_data_type : ℤ
  pub pattern_mode : ℤ
  pub blind_spot_set : ℤ
  pub dual_emit_en : ℤ
  pub extrinsic_param : ExtParameter F
  pub set_bits : ℕ

-- The settings of `LivoxLidarConfigCodeBit`.
pub data Setting : Type 0 where
  data_type scan_pattern blind_spot dual_emit : Setting

abbrev pub bit_of : Setting → ℕ
bit_of data_type = 1
bit_of scan_pattern = 2
bit_of blind_spot = 4
bit_of dual_emit = 8

abbrev pub value_of : {F : Type 0} → UserLivoxLidarConfig F → Setting → ℤ
value_of c data_type = c.pcl_data_type
value_of c scan_pattern = c.pattern_mode
value_of c blind_spot = c.blind_spot_set
value_of c dual_emit = c.dual_emit_en

-- `v != -1`
abbrev pub is_set : ℤ → Bool
is_set (pos n) = true
is_set (negsuc zero) = false
is_set (negsuc (suc n)) = true

-- A value as a `bool`.
abbrev pub to_bool : ℤ → Bool
to_bool (pos zero) = false
to_bool (pos (suc n)) = true
to_bool (negsuc n) = true
