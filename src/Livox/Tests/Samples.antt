-- ===== src/Livox/Tests/Samples.antt =====
-- A data source with a device that is sampling, with two samples, and one that is not.
use robot_nav.Prelude.{ℕ, ◌≡◌, refl, [], ◌∷◌, some, arith}
use robot_nav.Livox.Imu.{ImuData}
use robot_nav.Livox.Lds.Defs.{Lds, LidarDevice, sampling}
use robot_nav.Livox.Lddc.{ended}
use robot_nav.Livox.Lddc.Samples.{ran, distribute_imu_data}
use robot_nav.Livox.Lddc.Samples.Emptied.{all_sent, all_drained, distribute_imu_data_lem}
use robot_nav.Livox.Tests.Source.{idle_device, source}

abbrev sample_at : ℕ → ImuData ℕ
sample_at t = record {
  lidar_type = 8;
  handle = 42;
  slot = 0;
  time_stamp = t;
  gyro_x = 1;
  gyro_y = 2;
  gyro_z = 3;
  acc_x = 4;
  acc_y = 5;
  acc_z = 6;
}

abbrev device_at : LidarDevice ℕ ℕ
device_at = record idle_device {
  connect_state = sampling;
  imu_data = sample_at 100 ∷ sample_at 105 ∷ [];
}

abbrev two_devices : Lds ℕ ℕ
two_devices = record source {
  lidars = device_at ∷ record idle_device { imu_data = sample_at 3 ∷ [] } ∷ [];
  imu_semaphore = 1;
}

distribute_imu_data_lem_example :
    distribute_imu_data 0 3 (some two_devices)
    ≡ ran (
        ended (
          all_sent 0 0 two_devices.lidars,
          record two_devices { imu_semaphore = 0; lidars = all_drained two_devices.lidars },
        ))
distribute_imu_data_lem_example =
    distribute_imu_data_lem 0 3 0 two_devices refl refl (omega arith, (omega arith, tt))
