-- ===== src/Livox/Lddc/Samples.antt =====
-- lddc.cpp: the publishing thread for inertial samples. What goes out is a list of messages, each with the
-- index of its device.
pub mod Emptied
use robot_nav.Prelude.{
  ℕ, zero, suc, Bool, true, false, not, ◌&&◌, Option, none, some, List, [], ◌∷◌, ◌++◌,
  if◌then◌else◌,
}
use robot_nav.Livox.Imu.{ImuData}
use robot_nav.Livox.Imu as Imu
use robot_nav.Livox.Semaphore.{wait}
use robot_nav.Livox.Lds.Defs.{Lds, LidarDevice, LidarConnectState, off, on, config, sampling}
use robot_nav.Livox.Lddc.{goes_out, Loop, ended, running}
use robot_nav.Livox.Lddc.Messages.{ImuMsg, init_imu_msg}

-- How a call ends: it returns at once, it waits for the semaphore, or it runs over the devices.
pub data Distributed (A : Type 0) : Type 0 where
  returned : Distributed A
  blocked : Distributed A
  ran : Loop A → Distributed A

unfoldable pub is_sampling : LidarConnectState → Bool
is_sampling off = false
is_sampling on = false
is_sampling config = false
is_sampling sampling = true

module _ {F : Type 0} where
  -- A sample from the front of the queue goes out, if there is one and the output goes to ROS.
  unfoldable pub publish_imu_data :
      ℕ → ℕ → List (ImuData F) → List (ℕ × ImuMsg F) → List (ℕ × ImuMsg F) × List (ImuData F)
  unfolding init_imu_msg
  publish_imu_data output_type index [] out = (out, [])
  publish_imu_data output_type index (imu_data ∷ queue) out =
      (if goes_out output_type then out ++ ((index, init_imu_msg imu_data) ∷ []) else out, queue)

  -- The loop of `PollingLidarImuData`, with `rounds` rounds of fuel; `request_exit` is what
  -- `IsRequestExit` returns.
  unfoldable pub polling_lidar_imu_data :
      ℕ
      → Bool
      → ℕ
      → ℕ
      → List (ImuData F)
      → List (ℕ × ImuMsg F)
      → Loop (List (ℕ × ImuMsg F) × List (ImuData F))
  unfolding publish_imu_data Imu.empty
  polling_lidar_imu_data output_type request_exit index zero queue out = running
  polling_lidar_imu_data output_type request_exit index (suc rounds) queue out =
      let (out', queue') = publish_imu_data output_type index queue out in
      let rest = polling_lidar_imu_data output_type request_exit index rounds queue' out' in
      elim (not request_exit && not (Imu.empty queue)) [ true ↦ rest | false ↦ ended (out, queue) ]

module _ {P F : Type 0} where
  unfoldable pub with_samples :
      LidarDevice P F
      → Loop (List (ℕ × ImuMsg F) × List (ImuData F))
      → Loop (List (ℕ × ImuMsg F) × LidarDevice P F)
  with_samples d running = running
  with_samples d (ended (out, queue)) = ended (out, record d { imu_data = queue })

  unfoldable pub poll_if :
      ℕ
      → Bool
      → Bool
      → ℕ
      → ℕ
      → LidarDevice P F
      → List (ℕ × ImuMsg F)
      → Loop (List (ℕ × ImuMsg F) × LidarDevice P F)
  unfolding polling_lidar_imu_data with_samples
  poll_if output_type false request_exit rounds index d out = ended (out, d)
  poll_if output_type true request_exit rounds index d out =
      with_samples d (polling_lidar_imu_data output_type request_exit index rounds d.imu_data out)

  -- One device of the loop of `DistributeImuData`.
  unfoldable pub poll_device :
      ℕ
      → Bool
      → ℕ
      → ℕ
      → LidarDevice P F
      → List (ℕ × ImuMsg F)
      → Loop (List (ℕ × ImuMsg F) × LidarDevice P F)
  unfolding is_sampling poll_if
  poll_device output_type request_exit rounds index d out =
      poll_if output_type (is_sampling d.connect_state) request_exit rounds index d out

  unfoldable pub also :
      LidarDevice P F
      → Loop (List (ℕ × ImuMsg F) × List (LidarDevice P F))
      → Loop (List (ℕ × ImuMsg F) × List (LidarDevice P F))
  also d running = running
  also d (ended (out, l)) = ended (out, d ∷ l)

  -- The devices from `index` on.
  unfoldable pub poll_devices :
      ℕ
      → Bool
      → ℕ
      → ℕ
      → List (LidarDevice P F)
      → List (ℕ × ImuMsg F)
      → Loop (List (ℕ × ImuMsg F) × List (LidarDevice P F))
  unfolding poll_device also
  poll_devices output_type request_exit rounds index [] out = ended (out, [])
  poll_devices output_type request_exit rounds index (d ∷ l) out =
      elim (poll_device output_type request_exit rounds index d out) [
        | running ↦ running
        | ended r ↦ also (r.1) (poll_devices output_type request_exit rounds (suc index) l (r.0))
      ]

  unfoldable pub with_devices :
      Lds P F
      → Loop (List (ℕ × ImuMsg F) × List (LidarDevice P F))
      → Loop (List (ℕ × ImuMsg F) × Lds P F)
  with_devices s running = running
  with_devices s (ended (out, l)) = ended (out, record s { lidars = l })

  unfoldable pub after_wait :
      ℕ → ℕ → Lds P F → Option ℕ → Distributed (List (ℕ × ImuMsg F) × Lds P F)
  unfolding poll_devices with_devices
  after_wait output_type rounds s none = blocked
  after_wait output_type rounds s (some count) = ran (
      with_devices (record s { imu_semaphore = count })
        (poll_devices output_type s.request_exit rounds 0 s.lidars []))

  -- `DistributeImuData`, without a data source where none is registered.
  unfoldable pub distribute_imu_data :
      ℕ → ℕ → Option (Lds P F) → Distributed (List (ℕ × ImuMsg F) × Lds P F)
  unfolding after_wait wait
  distribute_imu_data output_type rounds none = returned
  distribute_imu_data output_type rounds (some s) =
      if s.request_exit then returned else after_wait output_type rounds s (wait s.imu_semaphore)
