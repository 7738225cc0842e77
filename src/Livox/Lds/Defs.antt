-- ===== src/Livox/Lds/Defs.antt =====
-- `LidarDevice` and `PointFrame` of comm/comm.h, and the operations of lds.cpp.
use robot_nav.Prelude.{
  ℕ, zero, suc, ◌+◌, Bool, not, Option, none, some, List, get_elem?, set, if◌then◌else◌,
}
use robot_nav.Livox.Fault.{Outcome, done, fault, out_of_bounds, ◌>>=◌}
use robot_nav.Livox.Ldq.{
  StoragePacket, PointPacket, Storage, null, live, freed, LidarDataQueue, is_full, is_empty,
  init_queue, queue_push_any,
}
use robot_nav.Livox.Imu.{ImuData}
use robot_nav.Livox.Config.{UserLivoxLidarConfig}
use robot_nav.Livox.Semaphore.{signal_if_idle}
use robot_nav.Livox.CacheIndex.{CacheIndex, get_index}

pub data LidarConnectState : Type 0 where
  off on config sampling : LidarConnectState

-- `LidarDevice` without its `firmware_ver`, which nothing reads.
pub record LidarDevice (P F : Type 0) : Type 0 where
  pub lidar_type : ℕ
  pub handle : ℕ
  pub data_src : ℕ
  pub connect_state : LidarConnectState
  pub points : LidarDataQueue P
  pub imu_data : List (ImuData F)
  pub livox_config : UserLivoxLidarConfig F

pub record PointFrame (P : Type 0) : Type 0 where
  pub base_time : List ℕ
  pub lidar_num : ℕ
  pub lidar_point : List (PointPacket P)

-- `publish_freq` is a double: its comparison with 10.0 and its conversion to `uint32_t` are what
-- `CalculatePacketQueueSize` uses of it.
pub record Frequency : Type 0 where
  pub above_ten : Bool
  pub as_uint32 : ℕ

unfoldable pub calculate_packet_queue_size : Frequency → ℕ
calculate_packet_queue_size f = if f.above_ten then f.as_uint32 + 1 else 10

pub record Lds (P F : Type 0) : Type 0 where
  pub lidars : List (LidarDevice P F)
  pub pcd_semaphore : ℕ
  pub imu_semaphore : ℕ
  pub cache_index : CacheIndex
  pub publish_freq : Frequency
  pub request_exit : Bool

module _ {P F : Type 0} where
  -- `lidars_[index]`
  unfoldable pub device : List (LidarDevice P F) → ℕ → Outcome (LidarDevice P F)
  device l i = elim (get_elem? l i) [ none ↦ fault out_of_bounds | some d ↦ done d ]

  unfoldable pub push_or_drop :
      Lds P F → ℕ → LidarDevice P F → LidarDataQueue P → PointPacket P → ℕ → Outcome (Lds P F)
  push_or_drop s index d q pkt base_time =
      if not (is_full q)
      then (do
        (n, q') ← queue_push_any q pkt base_time
        done (record s {
          lidars = set s.lidars index (record d { points = q' });
          pcd_semaphore =
              if not (is_empty q') then signal_if_idle s.pcd_semaphore else s.pcd_semaphore;
        }))
      else done (record s {
        lidars = set s.lidars index (record d { points = q });
        pcd_semaphore = signal_if_idle s.pcd_semaphore;
      })

module _ {P : Type 0} (junk : StoragePacket P) where
  -- `if (nullptr == queue->storage_packet) InitQueue(queue, size);`
  unfoldable pub ensure_queue :
      Frequency → LidarDataQueue P → Storage P → Outcome (LidarDataQueue P)
  unfolding calculate_packet_queue_size
  ensure_queue f q null = do
    (ok, r) ← init_queue junk (some q) (calculate_packet_queue_size f)
    elim r [ none ↦ done q | some q' ↦ done q' ]
  ensure_queue f q (live buf) = done q
  ensure_queue f q freed = done q

module _ {P F : Type 0} (junk : StoragePacket P) where
  unfoldable pub push_lidar_data : Lds P F → Option (PointPacket P) → ℕ → ℕ → Outcome (Lds P F)
  unfolding device ensure_queue push_or_drop
  push_lidar_data s none index base_time = done s
  push_lidar_data s (some pkt) index base_time = do
    d ← device s.lidars index
    q ← ensure_queue junk s.publish_freq d.points d.points.storage_packet
    push_or_drop s index d q pkt base_time

  -- One round of the loop of `StoragePointData`.
  unfoldable pub store_packet : Lds P F → PointPacket P → ℕ → Outcome (Lds P F)
  unfolding push_lidar_data
  store_packet s pkt base_time = elim (get_index s.cache_index pkt.lidar_type pkt.handle) [
    | none ↦ done s
    | some index ↦ push_lidar_data s (some pkt) index base_time
  ]

  -- The rounds from `i` on, `rounds` of them: reading past either array of the frame is a fault.
  unfoldable pub store_from : ℕ → ℕ → PointFrame P → Lds P F → Outcome (Lds P F)
  store_from zero i frame s = done s
  store_from (suc rounds) i frame s = elim (get_elem? frame.lidar_point i) [
    | none ↦ fault out_of_bounds
    | some pkt ↦ elim (get_elem? frame.base_time i) [
      | none ↦ fault out_of_bounds
      | some base_time ↦ store_packet s pkt base_time >>= store_from rounds (i + 1) frame
    ]
  ]

  unfoldable pub storage_point_data : Lds P F → Option (PointFrame P) → Outcome (Lds P F)
  unfolding store_from
  storage_point_data s none = done s
  storage_point_data s (some frame) = store_from frame.lidar_num 0 frame s
