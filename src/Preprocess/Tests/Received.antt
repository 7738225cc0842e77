-- ===== src/Preprocess/Tests/Received.antt =====
-- A packet of two points that comes to the node of the mapping.
use robot_nav.Prelude.{ℕ, ◌+◌, ◌-◌, ◌*◌, ◌≡◌, refl, true, false, some, [], ◌∷◌, arith, ltb}
use robot_nav.Prelude.Int.{pos, negsuc}
use robot_nav.Livox.Fault.{done, ◌>>=◌}
use robot_nav.Livox.Ldq.{StoragePacket, null}
use robot_nav.Livox.Lds.Defs.{LidarDevice, off}
use robot_nav.Livox.Points.{PointXyzlt}
use robot_nav.Livox.Lddc.Messages.{init_custom_msg, custom_point, fill_points_to_custom_msg}
use robot_nav.Preprocess.{PointType, Preprocess, new, is_far}
use robot_nav.Preprocess.Tests.{whole_numbers, easy}
use robot_nav.Preprocess.Clouds.{custom_to_point, differs, is_valid_point}
use robot_nav.Preprocess.Clouds.Decimated.{taken}
use robot_nav.Mapping.{Seconds, MeasureGroup, Buffers}
use robot_nav.Mapping.Paired.{IsPaired}
use robot_nav.Mapping.Receive.{receive_custom, cloud_of, packet_received}

abbrev tenths_of : Seconds
tenths_of = record {
  R = ℕ;
  tenths = λ n. n;
  of_count = λ n. n;
  add = λ a b. a + b;
  sub = λ a b. a - b;
  mul = λ a b. a * b;
  div = λ a b. a;
  abs = λ a. a;
  lt = ltb;
  restamped = λ a. a;
  as_nanoseconds = λ a. 0;
}

abbrev raw_at : ℕ → PointXyzlt ℕ
raw_at a = record { x = a; y = a; z = a; intensity = 4; tag = 16; line = 2; offset_time = 100 + a }

abbrev sent : StoragePacket (PointXyzlt ℕ)
sent = record { base_time = 100; points_num = 3; points = raw_at 1 ∷ raw_at 2 ∷ raw_at 3 ∷ [] }

abbrev one_waits : Buffers ℕ (PointType ℕ) ℕ
one_waits = record {
  time_sync_en = false;
  time_diff_lidar_to_imu = 0;
  is_first_lidar = false;
  scan_count = 1;
  lidar_buffer = [] ∷ [];
  time_buffer = 10 ∷ [];
  imu_buffer = [];
  last_timestamp_lidar = 10;
  last_timestamp_imu = 0;
  timediff_set_flg = false;
  timediff_lidar_wrt_imu = 0;
  lidar_pushed = false;
  lidar_end_time = 0;
  lidar_mean_scantime = 0;
  scan_num = 0;
}

abbrev none_yet : MeasureGroup ℕ (PointType ℕ) ℕ
none_yet = record { lidar_beg_time = 0; lidar_end_time = 0; lidar = []; imu = [] }

one_waits-IsPaired : IsPaired tenths_of one_waits none_yet
one_waits-IsPaired = record {
  same_length = refl;
  front = λ e. let clash : false ≡ true = e in cc;
  end_time = λ e. let clash : false ≡ true = e in cc;
}

abbrev sender : LidarDevice (PointXyzlt ℕ) ℕ
sender = record {
  lidar_type = 8;
  handle = 42;
  data_src = 0;
  connect_state = off;
  points = record { storage_packet = null; rd_idx = 0; wr_idx = 0; mask = 0; size = 0 };
  imu_data = [];
  livox_config = record {
    handle = 42;
    pcl_data_type = pos 1;
    pattern_mode = negsuc 0;
    blind_spot_set = negsuc 0;
    dual_emit_en = negsuc 0;
    extrinsic_param = record { roll = 0; pitch = 0; yaw = 0; x = pos 0; y = pos 0; z = pos 0 };
    set_bits = 0;
  };
}

packet_received_example :
    (s' : Buffers ℕ (PointType ℕ) ℕ) × (pre' : Preprocess ℕ ℕ) × (((init_custom_msg
            (sender ∷ [])
            sent
            0
          >>= λ m0. fill_points_to_custom_msg (λ a. a) m0 sent)
        >>= λ msg. receive_custom tenths_of whole_numbers 11 msg (one_waits, easy))
      ≡ done (some (s', pre')))
    × (s'.lidar_buffer ≡ [] ∷ cloud_of whole_numbers easy (λ a. a) sent ∷ [])
    × (s'.time_buffer ≡ 10 ∷ 11 ∷ [])
    × IsPaired tenths_of s' none_yet
unfolding new
packet_received_example =
    packet_received tenths_of whole_numbers (sender ∷ []) 0 sender (λ a. a) sent 11 one_waits
      none_yet easy refl refl refl (omega arith) (omega arith) one_waits-IsPaired refl (omega arith)

-- The first point of the packet is not in the cloud.
cloud_of_sent :
    cloud_of whole_numbers easy (λ a. a) sent
    ≡ record { x = 2; y = 2; z = 2; intensity = 4; curvature = 0 }
      ∷ record { x = 3; y = 3; z = 3; intensity = 4; curvature = 0 }
      ∷ []
unfolding new taken custom_to_point differs is_valid_point is_far custom_point
cloud_of_sent = refl
