-- ===== src/Livox/Lds/Others.antt =====
-- lds.cpp: the storing of inertial samples and of packets read from a file, and the resets.
use robot_nav.Prelude.{
  ℕ, zero, suc, ◌+◌, Bool, true, not, ◌&&◌, Option, none, some, List, [], ◌∷◌, get_elem?, set, ◌==◌,
  if◌then◌else◌,
}
use robot_nav.Livox.Fault.{Outcome, done, fault, out_of_bounds, ◌>>=◌}
use robot_nav.Livox.Ldq.{StoragePacket, PointPacket, deinit_queue, is_empty, used_size}
use robot_nav.Livox.Imu
use robot_nav.Livox.Imu.{ImuData}
use robot_nav.Livox.Semaphore.{signal_if_idle}
use robot_nav.Livox.CacheIndex.{get_index, lvx_get_index, livox_lidar_type}
use robot_nav.Livox.Lds.Defs.{Lds, LidarDevice, PointFrame, off, sampling, device, push_lidar_data}

module _ {P F : Type 0} where
  -- `StorageImuData`.
  push_imu : ℕ → Lds P F → ImuData F → ℕ → LidarDevice P F → Lds P F
  push_imu junk_slot s imu index d =
      let queue = Imu.push junk_slot d.imu_data imu in
      record s {
        lidars = set s.lidars index (record d { imu_data = queue });
        imu_semaphore =
            if not (Imu.empty queue) then signal_if_idle s.imu_semaphore else s.imu_semaphore;
      }

  unfoldable pub storage_imu_data : ℕ → Lds P F → ImuData F → Outcome (Lds P F)
  unfolding push_imu device
  storage_imu_data junk_slot s imu =
      if imu.lidar_type == livox_lidar_type
      then elim (get_index s.cache_index imu.lidar_type imu.handle) [
        | none ↦ done s
        | some index ↦ device s.lidars index >>= λ d. done (push_imu junk_slot s imu index d)
      ]
      else done s

  -- `ResetLidar`.
  unfoldable pub reset_lidar : LidarDevice P F → ℕ → Outcome (LidarDevice P F)
  reset_lidar d data_src = do
    (ok, r) ← deinit_queue (some d.points)
    done (record d {
      points = elim r [ none ↦ d.points | some q ↦ q ];
      imu_data = Imu.clear d.imu_data;
      data_src = data_src;
      connect_state = off;
    })

  unfoldable pub reset_all : List (LidarDevice P F) → ℕ → Outcome (List (LidarDevice P F))
  unfolding reset_lidar
  reset_all [] data_src = done []
  reset_all (d ∷ l) data_src = do
    d' ← reset_lidar d data_src
    l' ← reset_all l data_src
    done (d' ∷ l')

  -- `ResetLds`, whose loop goes through the 32 devices.
  unfoldable pub reset_lds : Lds P F → ℕ → Outcome (Lds P F)
  unfolding reset_all
  reset_lds s data_src = reset_all s.lidars data_src >>= λ l. done (record s { lidars = l })

  unfoldable pub all_queue_empty : List (LidarDevice P F) → Bool
  all_queue_empty [] = true
  all_queue_empty (d ∷ l) = is_empty d.points && all_queue_empty l

  unfoldable pub all_queue_read_stop : List (LidarDevice P F) → Bool
  all_queue_read_stop [] = true
  all_queue_read_stop (d ∷ l) = used_size d.points == 0 && all_queue_read_stop l

  unfoldable pub request_exit : Lds P F → Lds P F
  request_exit s = record s { request_exit = true }

module _ {P F : Type 0} (junk : StoragePacket P) where
  -- `lidars_[index].connect_state = kConnectStateSampling;` and the push.
  lvx_push : Lds P F → PointPacket P → ℕ → ℕ → Outcome (Lds P F)
  lvx_push s pkt base_time index = do
    d ← device s.lidars index
    let s' = record s { lidars = set s.lidars index (record d { connect_state = sampling }) }
    push_lidar_data junk s' (some pkt) index base_time

  lvx_store_packet : Lds P F → PointPacket P → ℕ → Outcome (Lds P F)
  unfolding lvx_push
  lvx_store_packet s pkt base_time =
      let (r, c) = lvx_get_index s.cache_index pkt.lidar_type pkt.handle in
      elim r [
        | none ↦ done (record s { cache_index = c })
        | some index ↦ lvx_push (record s { cache_index = c }) pkt base_time index
      ]

  lvx_store_from : ℕ → ℕ → PointFrame P → Lds P F → Outcome (Lds P F)
  unfolding lvx_store_packet
  lvx_store_from zero i frame s = done s
  lvx_store_from (suc rounds) i frame s = elim (get_elem? frame.lidar_point i) [
    | none ↦ fault out_of_bounds
    | some pkt ↦ elim (get_elem? frame.base_time i) [
      | none ↦ fault out_of_bounds
      | some base_time ↦ lvx_store_packet s pkt base_time >>= lvx_store_from rounds (i + 1) frame
    ]
  ]

  unfoldable pub storage_lvx_point_data : Lds P F → Option (PointFrame P) → Outcome (Lds P F)
  unfolding lvx_store_from
  storage_lvx_point_data s none = done s
  storage_lvx_point_data s (some frame) = lvx_store_from frame.lidar_num 0 frame s
