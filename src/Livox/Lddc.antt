-- ===== src/Livox/Lddc.antt =====
-- lddc.cpp: the publishing thread, which empties the queue of a device. What is published is the list of
-- packets whose messages were put out, the first first.
pub mod Drain
pub mod Messages
pub mod Samples
pub mod Restored
use robot_nav.Prelude.{
  ℕ, zero, suc, Bool, true, false, not, ◌&&◌, Option, none, some, List, [], ◌∷◌, ◌++◌, ◌==◌,
  if◌then◌else◌,
}
use robot_nav.Livox.Fault.{Outcome, done, fault, ◌>>=◌}
use robot_nav.Livox.Ldq.{
  StoragePacket, Storage, null, live, freed, LidarDataQueue, is_empty, queue_pop,
}

-- The formats that `transfer_format_` names, and any other number.
pub data TransferFormat : Type 0 where
  point_cloud_2 custom_msg pcl_pxyzi other_format : TransferFormat

-- How a loop ends: with a value, or with the fuel used up.
pub data Loop {ℓ} (A : Type ℓ) : Type ℓ where
  ended : A → Loop A
  running : Loop A

-- `kOutputToRos`. Under ROS 2 nothing is put out for any other number.
abbrev pub output_to_ros : ℕ
output_to_ros = 0

abbrev pub goes_out : ℕ → Bool
goes_out output_type = output_to_ros == output_type

abbrev pub Publishing : Type 0 → Type 0
Publishing P = Outcome (Loop (List (StoragePacket P) × LidarDataQueue P))

module _ {P : Type 0} where
  unfoldable pub has_points : StoragePacket P → Bool
  has_points s = elim (s.points) [ [] ↦ false | p ∷ l ↦ true ]

  -- The packet as `QueuePop` leaves it: a new one where it returned false.
  popped_packet : StoragePacket P → Option (StoragePacket P) → StoragePacket P
  popped_packet fresh none = fresh
  popped_packet fresh (some s) = s

  publish_packet : ℕ → List (StoragePacket P) → StoragePacket P → List (StoragePacket P)
  publish_packet output_type published s = elim (has_points s) [
    | true ↦ if goes_out output_type then published ++ (s ∷ []) else published
    | false ↦ published
  ]

  module _ (fresh : StoragePacket P) (output_type : ℕ) where
    -- The loop of `PublishPointcloud2` and of `PublishCustomPointcloud`.
    unfoldable pub publish_all : ℕ → List (StoragePacket P) → LidarDataQueue P → Publishing P
    unfolding popped_packet publish_packet
    publish_all zero published q = done running
    publish_all (suc fuel) published q = elim (is_empty q) [
      | true ↦ done (ended (published, q))
      | false ↦ queue_pop q (some fresh) >>= λ (r, q').
          publish_all fuel (publish_packet output_type published (popped_packet fresh r)) q'
    ]

    -- One call of the loop body of `PollingLidarPointCloudData`. Under ROS 2 `PublishPclMsg` only
    -- prints and returns.
    unfoldable pub publish_format :
        ℕ → TransferFormat → List (StoragePacket P) → LidarDataQueue P → Publishing P
    publish_format fuel point_cloud_2 published q = publish_all fuel published q
    publish_format fuel custom_msg published q = publish_all fuel published q
    publish_format fuel pcl_pxyzi published q = done (ended (published, q))
    publish_format fuel other_format published q = done (ended (published, q))

    module _ (fuel : ℕ) (format : TransferFormat) (request_exit : ℕ → Bool) where
      -- The loop of `PollingLidarPointCloudData`, from round `i` on: `request_exit i` is what
      -- `IsRequestExit` returns in round `i`, and `fuel` what the inner loop gets.
      poll_from : ℕ → ℕ → List (StoragePacket P) → LidarDataQueue P → Publishing P
      unfolding publish_format
      poll_from zero i published q = done running
      poll_from (suc rounds) i published q = elim (not (request_exit i) && not (is_empty q)) [
        | false ↦ done (ended (published, q))
        | true ↦ publish_format fuel format published q >>= λ r. elim r [
          | running ↦ done running
          | ended (published', q') ↦ poll_from rounds (suc i) published' q'
        ]
      ]

      poll_storage : Storage P → ℕ → LidarDataQueue P → Publishing P
      unfolding poll_from
      poll_storage null rounds q = done (ended ([], q))
      poll_storage (live buf) rounds q = poll_from rounds 0 [] q
      poll_storage freed rounds q = poll_from rounds 0 [] q

      unfoldable pub polling_lidar_point_cloud_data : ℕ → LidarDataQueue P → Publishing P
      unfolding poll_storage
      polling_lidar_point_cloud_data rounds q = poll_storage q.storage_packet rounds q
