-- ===== src/Livox/PubHandler.antt =====
-- comm/pub_handler.h and comm/pub_handler.cpp: `PubHandler`, which takes packets from the SDK and gives
-- frames of points to a callback. The mutex of its queue makes each access atomic.
pub mod Timer
pub mod Ids
pub mod Frame
pub mod Publish
pub mod Rounds
pub mod Conserve
pub mod Stamp
use robot_nav.Prelude.{
  ℕ, zero, suc, ◌+◌, ◌-◌, ◌*◌, ◌/◌, ◌%◌, ◌^◌, Bool, true, false, not, ◌&&◌, ◌||◌, Option, none,
  some, List, [], ◌∷◌, ◌++◌, length, ltb, ◌==◌, if◌then◌else◌, get_elem?, set, take,
}
use robot_nav.Prelude.Bits.{add32, sub32}
use robot_nav.Livox.Fault.{Outcome, done, fault, out_of_bounds, div_by_zero, null_deref, ◌>>=◌}
use robot_nav.Livox.Floats.{Floats}
use robot_nav.Livox.Ldq.{PointPacket}
use robot_nav.Livox.Imu.{ImuData}
use robot_nav.Livox.Lds.Defs.{PointFrame}
use robot_nav.Livox.CacheIndex.{livox_lidar_type}
use robot_nav.Livox.LdsLidar.{LidarExtParameter}
use robot_nav.Livox.Points.{
  PointXyzlt, RawPacket, Format, LidarPubHandler, get_lidar_base_time, get_recent_time_stamp,
  get_lidar_point_clouds,
}
use robot_nav.Livox.Points.Formats.{new_handler, set_lidars_ext_param, point_cloud_process}

-- What the code reads of a packet of the SDK, `LivoxLidarEthernetPacket`, and of the SDK.
pub record Sdk (F : Type 0) : Type 1 where
  pub Packet : Type 0
  pub time_type : Packet → ℕ
  pub data_type : Packet → ℕ
  pub dot_num : Packet → ℕ
  pub time_interval : Packet → ℕ
  pub packet_length : Packet → ℕ
  pub timestamp : Packet → List ℕ
  -- The bytes from the member `data` on.
  pub data_bytes : Packet → List ℕ
  -- `data` as a `RawImuPoint`: the rates and the accelerations.
  pub gyro : Packet → F × F × F
  pub acc : Packet → F × F × F
  pub packet_size : ℕ
  pub imu_data : ℕ
  pub industrial_hap : ℕ
  pub mid360 : ℕ
  pub format : Format

abbrev pub no_sync : ℕ
no_sync = 0

abbrev pub gptp_or_ptp : ℕ
gptp_or_ptp = 1

abbrev pub gps : ℕ
gps = 2

-- `LdsStamp`: the bytes as a number, the lowest first.
unfoldable pub lds_stamp : List ℕ → ℕ
lds_stamp [] = 0
lds_stamp (b ∷ l) = b + 256 * lds_stamp l

-- The time of the packet, or that of the clock.
unfoldable pub get_eth_packet_timestamp : ℕ → List ℕ → ℕ → ℕ
unfolding lds_stamp
get_eth_packet_timestamp timestamp_type bytes now =
    if timestamp_type == gptp_or_ptp || timestamp_type == gps then lds_stamp bytes else now

-- The result, and `id` after the call.
unfoldable pub get_lidar_id : ℕ → ℕ → ℕ → Bool × ℕ
get_lidar_id lidar_type handle id =
    if lidar_type == livox_lidar_type then (true, handle) else (false, id)

-- A `std::map` from ids, in their order.
unfoldable pub find_id : {A : Type 0} → List (ℕ × A) → ℕ → Option A
find_id [] id = none
find_id ((k, a) ∷ l) id = let rest = find_id l id in if k == id then some a else rest

unfoldable pub put_id : {A : Type 0} → List (ℕ × A) → ℕ → A → List (ℕ × A)
put_id [] id a = (id, a) ∷ []
put_id ((k, b) ∷ l) id a =
    let rest = put_id l id a in
    if k == id then (id, a) ∷ l else if ltb id k then (id, a) ∷ (k, b) ∷ l else (k, b) ∷ rest

-- `array[index] = value`
unfoldable pub write : {A : Type 0} → List A → ℕ → A → Outcome (List A)
write l i a = elim (get_elem? l i) [ none ↦ fault out_of_bounds | some old ↦ done (set l i a) ]

-- `thread_running` is whether `point_process_thread_` is there, `points_callback` and `imu_callback`
-- whether the callbacks are set; `first` is the static variable of `CheckTimer`.
pub record PubHandler (F : Type 0) : Type 0 where
  pub is_quit : Bool
  pub thread_running : Bool
  pub lidar_listen_id : ℕ
  pub points_callback : Bool
  pub imu_callback : Bool
  pub frame : PointFrame (PointXyzlt F)
  pub raw_packet_queue : List RawPacket
  pub publish_interval : ℕ
  pub publish_interval_tolerance : ℕ
  pub publish_interval_ms : ℕ
  pub first : Bool
  pub last_pub_time : ℕ
  pub lidar_process_handlers : List (ℕ × LidarPubHandler F)
  pub points : ℕ → List (PointXyzlt F)
  pub lidar_extrinsics : ℕ → Option (LidarExtParameter F)
  pub is_timestamp_sync : Bool

abbrev pub put {ℓ} : {A : Type ℓ} → (ℕ → A) → ℕ → A → ℕ → A
put f id a k = if k == id then a else f k

module _ {F : Type 0} where
  unfoldable pub request_exit : PubHandler F → PubHandler F
  request_exit s = record s { is_quit = true }

  -- The thread ends, since it sees `is_quit`.
  unfoldable pub uninit : PubHandler F → PubHandler F
  unfolding request_exit
  uninit s = record (request_exit s) { lidar_listen_id = 0; thread_running = false }

  -- `interval` is `(kNsPerSecond / (publish_freq * 10)) * 10` as a `uint64_t`.
  unfoldable pub set_point_cloud_config : ℕ → PubHandler F → PubHandler F
  set_point_cloud_config interval s = record s {
    publish_interval = interval;
    publish_interval_tolerance = (interval + 2 ^ 64 - 1000000) % 2 ^ 64;
    publish_interval_ms = interval / 1000000;
    thread_running = true;
  }

  set_imu_data_callback : Bool → PubHandler F → PubHandler F
  set_imu_data_callback cb s = record s { imu_callback = cb }

  -- `listen_id` is what the SDK returns.
  set_point_clouds_callback : Bool → ℕ → PubHandler F → PubHandler F
  set_point_clouds_callback cb listen_id s = record s {
    points_callback = cb;
    lidar_listen_id = listen_id;
  }

  add_lidars_ext_param : LidarExtParameter F → PubHandler F → PubHandler F
  unfolding get_lidar_id
  add_lidars_ext_param lidar_param s =
      let id = (get_lidar_id lidar_param.lidar_type lidar_param.handle 0).1 in
      record s { lidar_extrinsics = put s.lidar_extrinsics id (some lidar_param) }

  clear_all_lidars_extrinsic_params : PubHandler F → PubHandler F
  clear_all_lidars_extrinsic_params s = record s { lidar_extrinsics = λ id. none }

  -- The frames that go to the callback.
  unfoldable pub publish_point_cloud : PubHandler F → List (PointFrame (PointXyzlt F))
  publish_point_cloud s = if s.points_callback then s.frame ∷ [] else []

  -- The bytes that the packet's length announces, those that follow its header.
  raw_bytes : (sdk : Sdk F) → sdk.Packet → Outcome (List ℕ)
  raw_bytes sdk pkt =
      let length_of_data = add32 (sub32 (sdk.packet_length pkt % 2 ^ 32) sdk.packet_size) 1 in
      if ltb (length (sdk.data_bytes pkt)) length_of_data
      then fault out_of_bounds
      else done (take length_of_data (sdk.data_bytes pkt))

  line_num_of : (sdk : Sdk F) → ℕ → ℕ
  line_num_of sdk dev_type =
      if dev_type == sdk.industrial_hap then 6 else if dev_type == sdk.mid360 then 4 else 1

  raw_packet_of : (sdk : Sdk F) → ℕ → ℕ → ℕ → sdk.Packet → Outcome RawPacket
  unfolding raw_bytes line_num_of get_eth_packet_timestamp
  raw_packet_of sdk now handle dev_type pkt =
      if sdk.dot_num pkt == 0 then fault div_by_zero else (do
        bytes ← raw_bytes sdk pkt
        done (record {
          lidar_type = livox_lidar_type;
          handle = handle;
          extrinsic_enable = false;
          point_num = sdk.dot_num pkt;
          data_type = sdk.data_type pkt;
          line_num = line_num_of sdk dev_type;
          time_stamp = get_eth_packet_timestamp (sdk.time_type pkt) (sdk.timestamp pkt) now;
          point_interval = sdk.time_interval pkt * 100 / sdk.dot_num pkt;
          raw_data = bytes;
        }))

  imu_data_of : (sdk : Sdk F) → ℕ → ℕ → ℕ → sdk.Packet → ImuData F
  unfolding get_eth_packet_timestamp
  imu_data_of sdk junk_slot now handle pkt =
      let (gyro_x, gyro_y, gyro_z) = sdk.gyro pkt in
      let (acc_x, acc_y, acc_z) = sdk.acc pkt in
      record {
        lidar_type = livox_lidar_type;
        handle = handle;
        slot = junk_slot;
        time_stamp = get_eth_packet_timestamp (sdk.time_type pkt) (sdk.timestamp pkt) now;
        gyro_x = gyro_x;
        gyro_y = gyro_y;
        gyro_z = gyro_z;
        acc_x = acc_x;
        acc_y = acc_y;
        acc_z = acc_z;
      }

  -- `OnLivoxLidarPointCloudCallback`: the inertial sample that goes to its callback, where one does, and
  -- the state. `client_data` is none where it is null, `slot` is what the sample holds unset.
  unfoldable pub on_livox_lidar_point_cloud_callback :
      (sdk : Sdk F)
      → ℕ
      → ℕ
      → ℕ
      → ℕ
      → sdk.Packet
      → Option (PubHandler F)
      → Outcome (Option (ImuData F) × Option (PubHandler F))
  unfolding raw_packet_of imu_data_of
  on_livox_lidar_point_cloud_callback sdk slot now handle dev_type pkt none = done (none, none)
  on_livox_lidar_point_cloud_callback sdk slot now handle dev_type pkt (some self) =
      let s = record self { is_timestamp_sync = not (sdk.time_type pkt == no_sync) } in
      if sdk.data_type pkt == sdk.imu_data
      then done
          (if s.imu_callback then some (imu_data_of sdk slot now handle pkt) else none, some s)
      else (do
        packet ← raw_packet_of sdk now handle dev_type pkt
        done (none, some (record s { raw_packet_queue = s.raw_packet_queue ++ (packet ∷ []) })))
