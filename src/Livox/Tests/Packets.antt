-- ===== src/Livox/Tests/Packets.antt =====
-- A packet of two points, whose format reads a byte as a point, from the handler to the queues.
use robot_nav.Prelude.{
  ℕ, zero, suc, ◌+◌, ◌*◌, ◌<◌, ◌≡◌, inl, inr, refl, true, false, Option, none, some, List, [], ◌∷◌,
  ◌++◌, arith, length, replicate, get_elem?, All, ◌==◌, if◌then◌else◌,
}
use robot_nav.Prelude.Int.{ℤ, pos, negsuc}
use robot_nav.Livox.Fault.{done, ◌>>=◌}
use robot_nav.Livox.Floats.{Floats}
use robot_nav.Livox.Ldq.{StoragePacket, PointPacket, null, used_size}
use robot_nav.Livox.Ldq.Window.{contents}
use robot_nav.Livox.Lds.Defs.{Lds, LidarDevice, off, calculate_packet_queue_size}
use robot_nav.Livox.Lds.Frame.{IsWhole}
use robot_nav.Livox.Lds.Frame as Frame
use robot_nav.Livox.Points.{PointXyzlt, RawPacket, RawPoint, Format, LidarPubHandler, Coordinates}
use robot_nav.Livox.Points.Formats.{high_read}
use robot_nav.Livox.Points.Converted.{ArePoints, high}
use robot_nav.Livox.PubHandler.{PubHandler, get_eth_packet_timestamp}
use robot_nav.Livox.PubHandler.Frame.{pending}
use robot_nav.Livox.PubHandler.Timer.{Ran, handler_for, raw_data_round}
use robot_nav.Livox.PubHandler.Publish.{IsValid, IsStorable, published}
use robot_nav.Livox.PubHandler.Conserve.{IsConvertible, raw_data_round_lem}
use robot_nav.Livox.PubHandler.Stamp.{stamp_bytes, get_eth_packet_timestamp_roundtrip}
use robot_nav.Livox.CommonCallback.{deliver}
use robot_nav.Livox.CommonCallback.Delivered.{packet_delivered}
use robot_nav.Livox.Lddc.Messages.{CustomMsg, init_custom_msg, fill_points_to_custom_msg}
use robot_nav.Livox.Lddc.Restored.{mapped, restored, seen, custom_msg_roundtrip}
use robot_nav.Livox.Tests.Source.{known, known-IsValid, idle_device}

abbrev of_ℤ : ℤ → ℕ
of_ℤ (pos n) = n
of_ℤ (negsuc n) = 0

abbrev floats : Floats
floats = record {
  F = ℕ;
  D = ℕ;
  float_of = of_ℤ;
  double_of = of_ℤ;
  widen = λ a. a;
  narrow = λ a. a;
  add_float = λ a b. a + b;
  mul_float = λ a b. a * b;
  add = λ a b. a + b;
  sub = λ a b. a;
  mul = λ a b. a * b;
  div = λ a b. a;
  neg = λ a. a;
  sin = λ a. 0;
  cos = λ a. 1;
  pi = 3;
}

abbrev point_at : List ℕ → ℕ → Option RawPoint
point_at [] i = none
point_at (b ∷ l) zero = some (record { x = pos b; y = pos 0; z = pos 0; reflectivity = 9; tag = 0 })
point_at (b ∷ l) (suc i) = point_at l i

abbrev bytes : Format
bytes = record {
  cartesian_high = 1;
  cartesian_low = 2;
  spherical = 3;
  high_at = point_at;
  low_at = point_at;
  spher_at = λ l i. none;
}

abbrev raw : RawPacket
raw = record {
  lidar_type = 8;
  handle = 42;
  extrinsic_enable = false;
  point_num = 2;
  data_type = 1;
  line_num = 4;
  time_stamp = 200000000;
  point_interval = 100;
  raw_data = 7 ∷ 8 ∷ [];
}

readable :
    (h : LidarPubHandler ℕ) (i : ℕ)
    → i < 2
    → (c : Coordinates ℕ) × (high_read floats bytes raw h.extrinsic i ≡ some c)
unfolding high_read
readable h zero lt = (_, refl)
readable h (suc zero) lt = (_, refl)
readable h (suc (suc i)) lt = absurd (omega arith)

convertible : (h : LidarPubHandler ℕ) → IsConvertible floats bytes raw h.extrinsic
convertible h = record {
  read = high_read floats bytes raw h.extrinsic;
  livox = refl;
  lines = omega arith;
  is = high refl;
  readable = readable h;
}

abbrev no_packet : PointPacket (PointXyzlt ℕ)
no_packet = record { handle = 0; lidar_type = 0; points_num = 0; points = [] }

abbrev handler : PubHandler ℕ
handler = record {
  is_quit = false;
  thread_running = true;
  lidar_listen_id = 1;
  points_callback = true;
  imu_callback = true;
  frame = record {
    base_time = replicate 32 0;
    lidar_num = 0;
    lidar_point = replicate 32 no_packet;
  };
  raw_packet_queue = raw ∷ [];
  publish_interval = 100000000;
  publish_interval_tolerance = 99000000;
  publish_interval_ms = 100;
  first = true;
  last_pub_time = 0;
  lidar_process_handlers = [];
  points = λ id. [];
  lidar_extrinsics = λ id. none;
  is_timestamp_sync = true;
}

whole_packets : (n : ℕ) → All IsWhole (replicate n no_packet)
whole_packets zero = tt
whole_packets (suc n) = (omega arith, whole_packets n)

handler-IsValid : IsValid handler
handler-IsValid = record {
  opened = record {
    base_times = refl;
    packets = refl;
    whole = whole_packets 32;
    sorted = tt;
    few = omega arith;
  };
  empty_frame = refl;
  interval = omega arith;
}

raw_data_round_lem_example :
    let c = convertible (handler_for floats bytes handler 42) in
    (l : List (PointXyzlt ℕ)) × (out : Ran ℕ) × (raw_data_round floats bytes 5 handler ≡ done out)
    × (length l ≡ 2)
    × ArePoints (c.read) raw 0 l
    × IsValid (out.1)
    × All IsStorable (out.0)
    × ((j : ℕ)
        → published j (out.0) ++ pending j (out.1)
          ≡ pending j handler ++ (if 42 == j then l else []))
raw_data_round_lem_example =
    raw_data_round_lem floats bytes 5 handler raw [] handler-IsValid refl refl
      (convertible (handler_for floats bytes handler 42)) (inr (omega arith))

abbrev point_device : LidarDevice (PointXyzlt ℕ) ℕ
point_device = record {
  lidar_type = 8;
  handle = 42;
  data_src = 0;
  connect_state = off;
  points = record { storage_packet = null; rd_idx = 0; wr_idx = 0; mask = 0; size = 0 };
  imu_data = [];
  livox_config = idle_device.livox_config;
}

abbrev point_source : Lds (PointXyzlt ℕ) ℕ
point_source = record {
  lidars = replicate 32 point_device;
  pcd_semaphore = 0;
  imu_semaphore = 0;
  cache_index = known;
  publish_freq = record { above_ten = false; as_uint32 = 10 };
  request_exit = false;
}

nothing_held : contents (point_device.points) ≡ []
unfolding contents used_size
nothing_held = refl

all_idle :
    (n i : ℕ) (d : LidarDevice (PointXyzlt ℕ) ℕ)
    → get_elem? (replicate n point_device) i ≡ some d
    → point_device ≡ d
all_idle zero i d e = cc
all_idle (suc n) zero d e = cc
all_idle (suc n) (suc i) d e = all_idle n i d e

point_source-IsValid : Frame.IsValid point_source
unfolding calculate_packet_queue_size
point_source-IsValid = record {
  lidars_num = refl;
  ready = λ i d e. rw (← all_idle 32 i d e) (inl (refl, nothing_held));
  idle = omega arith;
  table = known-IsValid;
  queue_size = omega arith;
}

abbrev junk : StoragePacket (PointXyzlt ℕ)
junk = record { base_time = 0; points_num = 0; points = [] }

packet_delivered_example :
    (out : Ran ℕ) × (s' : Lds (PointXyzlt ℕ) ℕ) × (raw_data_round floats bytes 5 handler ≡ done out)
    × (deliver junk (out.0) (some point_source) ≡ done (some s'))
    × IsValid (out.1)
    × Frame.IsValid s'
    × (s'.cache_index ≡ point_source.cache_index)
packet_delivered_example =
    packet_delivered floats bytes junk 5 handler raw [] point_source handler-IsValid refl refl
      (convertible (handler_for floats bytes handler 42)) (inr (omega arith)) point_source-IsValid

get_eth_packet_timestamp_roundtrip_example :
    (get_eth_packet_timestamp 1 (stamp_bytes 8 1700000000000000000) 3 ≡ 1700000000000000000)
    × (stamp_bytes 8 (get_eth_packet_timestamp 1 (1 ∷ 2 ∷ 3 ∷ 4 ∷ 5 ∷ 6 ∷ 7 ∷ 255 ∷ []) 3)
        ≡ 1 ∷ 2 ∷ 3 ∷ 4 ∷ 5 ∷ 6 ∷ 7 ∷ 255 ∷ [])
get_eth_packet_timestamp_roundtrip_example =
    get_eth_packet_timestamp_roundtrip 1 1700000000000000000 3
      (1 ∷ 2 ∷ 3 ∷ 4 ∷ 5 ∷ 6 ∷ 7 ∷ 255 ∷ []) (inl refl) (omega arith) refl
      (
        omega arith,
        (
          omega arith,
          (
            omega arith,
            (omega arith, (omega arith, (omega arith, (omega arith, (omega arith, tt))))),
          ),
        ),
      )

abbrev stored_point : ℕ → PointXyzlt ℕ
stored_point t = record { x = 1; y = 2; z = 3; intensity = 4; tag = 5; line = 0; offset_time = t }

abbrev stored : StoragePacket (PointXyzlt ℕ)
stored = record {
  base_time = 1000;
  points_num = 2;
  points = stored_point 1000 ∷ stored_point 1200 ∷ [];
}

custom_msg_roundtrip_example :
    (m : CustomMsg ℕ) × ((init_custom_msg point_source.lidars stored 3 >>= λ m0.
    fill_points_to_custom_msg (λ a. a) m0 stored)
      ≡ done m)
    × (m.point_num ≡ 2)
    × (mapped (restored m.timebase) m.points ≡ mapped (seen (λ a. a)) stored.points)
custom_msg_roundtrip_example =
    custom_msg_roundtrip point_source.lidars 3 point_device (λ a. a) stored refl refl
      ((omega arith, omega arith, omega arith), ((omega arith, omega arith, omega arith), tt))
