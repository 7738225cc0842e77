-- ===== src/Livox/CommonCallback.antt =====
-- call_back/lidar_common_callback.cpp: frames and inertial samples go to the data source.
pub mod Delivered
use robot_nav.Prelude.{ℕ, Option, none, some, List, [], ◌∷◌, ◌==◌, if◌then◌else◌}
use robot_nav.Livox.Fault.{Outcome, done, ◌>>=◌}
use robot_nav.Livox.Ldq.{StoragePacket}
use robot_nav.Livox.Imu.{ImuData}
use robot_nav.Livox.Lds.Defs.{Lds, PointFrame, storage_point_data}
use robot_nav.Livox.Lds.Others.{storage_imu_data}

-- The pointers are none where they are null.
module _ {P F : Type 0} where
  unfoldable pub on_lidar_point_cloun_cb :
      StoragePacket P → Option (PointFrame P) → Option (Lds P F) → Outcome (Option (Lds P F))
  on_lidar_point_cloun_cb junk none client_data = done client_data
  on_lidar_point_cloun_cb junk (some frame) none = done none
  on_lidar_point_cloun_cb junk (some frame) (some s) =
      if frame.lidar_num == 0
      then done (some s)
      else (storage_point_data junk s (some frame) >>= λ s'. done (some s'))

  unfoldable pub lidar_imu_data_callback :
      ℕ → Option (ImuData F) → Option (Lds P F) → Outcome (Option (Lds P F))
  lidar_imu_data_callback slot none client_data = done client_data
  lidar_imu_data_callback slot (some imu_data) none = done none
  lidar_imu_data_callback slot (some imu_data) (some s) =
      storage_imu_data slot s imu_data >>= λ s'. done (some s')

  -- The frames of a round, one after the other.
  unfoldable pub deliver :
      StoragePacket P → List (PointFrame P) → Option (Lds P F) → Outcome (Option (Lds P F))
  unfolding on_lidar_point_cloun_cb
  deliver junk [] s = done s
  deliver junk (frame ∷ l) s = on_lidar_point_cloun_cb junk (some frame) s >>= deliver junk l
