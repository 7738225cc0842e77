-- ===== src/Livox/Imu.antt =====
-- comm/lidar_imu_data_queue.h and .cpp: the queue of inertial samples of one device, over the type of
-- a `float`. The mutex makes each call atomic: calls are functions of the list.
use robot_nav.Prelude.{ℕ, Bool, true, false, Option, none, some, List, [], ◌∷◌, ◌++◌}

pub record ImuData (F : Type 0) : Type 0 where
  pub lidar_type : ℕ
  pub handle : ℕ
  pub slot : ℕ
  pub time_stamp : ℕ
  pub gyro_x : F
  pub gyro_y : F
  pub gyro_z : F
  pub acc_x : F
  pub acc_y : F
  pub acc_z : F

module _ {F : Type 0} where
  -- `Push` copies every field but `slot`, which stays whatever the new record holds.
  unfoldable pub push : ℕ → List (ImuData F) → ImuData F → List (ImuData F)
  push junk_slot queue imu = queue ++ (record imu { slot = junk_slot } ∷ [])

  unfoldable pub pop : List (ImuData F) → Option (ImuData F) × List (ImuData F)
  pop [] = (none, [])
  pop (x ∷ queue) = (some x, queue)

  unfoldable pub empty : List (ImuData F) → Bool
  empty [] = true
  empty (x ∷ queue) = false

  unfoldable pub clear : List (ImuData F) → List (ImuData F)
  clear queue = []
