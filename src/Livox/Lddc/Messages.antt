-- ===== src/Livox/Lddc/Messages.antt =====
-- lddc.cpp: the messages that are made of packets and of inertial samples, without their stamps and
-- frame ids.
use Prim.Native.String.{String}
use robot_nav.Prelude.{
  ℕ, zero, suc, ◌+◌, ◌-◌, ◌*◌, ◌%◌, ◌^◌, Bool, true, false, none, some, List, [], ◌∷◌, ◌++◌,
  get_elem?, ◌==◌, if◌then◌else◌,
}
use robot_nav.Livox.Fault.{Outcome, done, fault, out_of_bounds, ◌>>=◌}
use robot_nav.Livox.Ldq.{StoragePacket}
use robot_nav.Livox.Imu.{ImuData}
use robot_nav.Livox.CacheIndex.{livox_lidar_type}
use robot_nav.Livox.Lds.Defs.{LidarDevice, device}
use robot_nav.Livox.Points.{PointXyzlt}

pub record CustomPoint (F : Type 0) : Type 0 where
  pub offset_time : ℕ
  pub x : F
  pub y : F
  pub z : F
  pub reflectivity : ℕ
  pub tag : ℕ
  pub line : ℕ

pub record CustomMsg (F : Type 0) : Type 0 where
  pub timebase : ℕ
  pub point_num : ℕ
  pub lidar_id : ℕ
  pub points : List (CustomPoint F)

pub data FieldType : Type 0 where
  float32 uint8 float64 : FieldType

pub record PointField : Type 0 where
  pub name : String
  pub offset : ℕ
  pub datatype : FieldType
  pub count : ℕ

pub record LivoxPointXyzrtlt (F D : Type 0) : Type 0 where
  pub x : F
  pub y : F
  pub z : F
  pub reflectivity : F
  pub tag : ℕ
  pub line : ℕ
  pub timestamp : D

-- `data` is the array whose bytes are copied.
pub record PointCloud2 (F D : Type 0) : Type 0 where
  pub height : ℕ
  pub width : ℕ
  pub fields : List PointField
  pub point_step : ℕ
  pub row_step : ℕ
  pub is_bigendian : Bool
  pub is_dense : Bool
  pub content : List (LivoxPointXyzrtlt F D)

pub record ImuMsg (F : Type 0) : Type 0 where
  pub stamp : ℕ
  pub angular_velocity : F × F × F
  pub linear_acceleration : F × F × F

abbrev pub field : String → ℕ → FieldType → PointField
field name offset datatype = record { name = name; offset = offset; datatype = datatype; count = 1 }

-- `sizeof(LivoxPointXyzrtlt)`, which is packed.
abbrev pub point_size : ℕ
point_size = 26

-- The packet's time, where it has points, else what the variable held.
unfoldable pub timestamp_of : {P : Type 0} → List P → ℕ → ℕ → ℕ
timestamp_of [] base_time old = old
timestamp_of (p ∷ l) base_time old = base_time

module _ {F D : Type 0} where
  unfoldable pub init_pointcloud2_msg_header : PointCloud2 F D
  init_pointcloud2_msg_header = record {
    height = 1;
    width = 0;
    fields =
        field "x" 0 float32
        ∷ field "y" 4 float32
        ∷ field "z" 8 float32
        ∷ field "intensity" 12 float32
        ∷ field "tag" 16 uint8
        ∷ field "line" 17 uint8
        ∷ field "timestamp" 18 float64
        ∷ [];
    point_step = point_size;
    row_step = 0;
    is_bigendian = false;
    is_dense = false;
    content = [];
  }

  xyzrtlt : (ℕ → D) → PointXyzlt F → LivoxPointXyzrtlt F D
  xyzrtlt to_double p = record {
    x = p.x;
    y = p.y;
    z = p.z;
    reflectivity = p.intensity;
    tag = p.tag;
    line = p.line;
    timestamp = to_double p.offset_time;
  }

-- The points `i` and on, each converted: reading past the end is a fault.
unfoldable pub fill_points : {A B : Type 0} → (A → B) → List A → ℕ → ℕ → Outcome (List B)
fill_points f points zero i = done []
fill_points f points (suc rounds) i = elim (get_elem? points i) [
  | none ↦ fault out_of_bounds
  | some p ↦ fill_points f points rounds (i + 1) >>= λ l. done (f p ∷ l)
]

module _ {F D : Type 0} where
  -- The message, and `timestamp`, which is `old` before.
  unfoldable pub init_pointcloud2_msg :
      (ℕ → D) → StoragePacket (PointXyzlt F) → ℕ → Outcome (PointCloud2 F D × ℕ)
  unfolding init_pointcloud2_msg_header timestamp_of xyzrtlt fill_points
  init_pointcloud2_msg to_double pkg old = do
    points ← fill_points (xyzrtlt to_double) pkg.points pkg.points_num 0
    done (
      record init_pointcloud2_msg_header {
        point_step = point_size;
        width = pkg.points_num;
        row_step = pkg.points_num * point_size % 2 ^ 32;
        is_bigendian = false;
        is_dense = true;
        content = points;
      },
      timestamp_of pkg.points pkg.base_time old,
    )

module _ {P F : Type 0} where
  unfoldable pub init_custom_msg :
      List (LidarDevice P F) → StoragePacket (PointXyzlt F) → ℕ → Outcome (CustomMsg F)
  unfolding device timestamp_of
  init_custom_msg lidars pkg index = do
    d ← device lidars index
    done (record {
      timebase = timestamp_of pkg.points pkg.base_time 0;
      point_num = pkg.points_num;
      lidar_id = if d.lidar_type == livox_lidar_type then d.handle else 0;
      points = [];
    })

module _ {F : Type 0} where
  -- The offset is that of the point in the packet, as a `uint32_t`.
  unfoldable pub custom_point : (F → ℕ) → ℕ → PointXyzlt F → CustomPoint F
  custom_point to_uint8 base_time p = record {
    offset_time = (p.offset_time + 2 ^ 64 - base_time) % 2 ^ 64 % 2 ^ 32;
    x = p.x;
    y = p.y;
    z = p.z;
    reflectivity = to_uint8 p.intensity;
    tag = p.tag;
    line = p.line;
  }

  unfoldable pub fill_points_to_custom_msg :
      (F → ℕ) → CustomMsg F → StoragePacket (PointXyzlt F) → Outcome (CustomMsg F)
  unfolding fill_points custom_point
  fill_points_to_custom_msg to_uint8 livox_msg pkg = do
    points ← fill_points (custom_point to_uint8 pkg.base_time) pkg.points pkg.points_num 0
    done (record livox_msg { points = livox_msg.points ++ points })

  unfoldable pub init_imu_msg : ImuData F → ImuMsg F
  init_imu_msg imu_data = record {
    stamp = imu_data.time_stamp;
    angular_velocity = (imu_data.gyro_x, imu_data.gyro_y, imu_data.gyro_z);
    linear_acceleration = (imu_data.acc_x, imu_data.acc_y, imu_data.acc_z);
  }
