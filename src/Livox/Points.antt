-- ===== src/Livox/Points.antt =====
-- `LidarPubHandler` of comm/pub_handler.h and comm/pub_handler.cpp: the raw points of one device, made
-- into points in metres. The layout of raw data is the SDK's.
pub mod Formats
pub mod Converted
use robot_nav.Prelude.{
  ℕ, zero, suc, ◌+◌, ◌*◌, ◌%◌, ◌^◌, Bool, true, false, Option, none, some, List, [], ◌∷◌, ◌++◌,
  length, ◌==◌, if◌then◌else◌,
}
use robot_nav.Prelude.Int.{ℤ, pos}
use robot_nav.Livox.Fault.{Outcome, done, fault, out_of_bounds, div_by_zero, ◌>>=◌}
use robot_nav.Livox.Floats.{Floats, lit}
use robot_nav.Livox.CacheIndex.{livox_lidar_type}
use robot_nav.Livox.LdsLidar.{LidarExtParameter}

pub record PointXyzlt (F : Type 0) : Type 0 where
  pub x : F
  pub y : F
  pub z : F
  pub intensity : F
  pub tag : ℕ
  pub line : ℕ
  pub offset_time : ℕ

-- `raw_data` is its bytes.
pub record RawPacket : Type 0 where
  pub lidar_type : ℕ
  pub handle : ℕ
  pub extrinsic_enable : Bool
  pub point_num : ℕ
  pub data_type : ℕ
  pub line_num : ℕ
  pub time_stamp : ℕ
  pub point_interval : ℕ
  pub raw_data : List ℕ

pub record RawPoint : Type 0 where
  pub x : ℤ
  pub y : ℤ
  pub z : ℤ
  pub reflectivity : ℕ
  pub tag : ℕ

pub record SpherPoint : Type 0 where
  pub depth : ℕ
  pub theta : ℕ
  pub phi : ℕ
  pub reflectivity : ℕ
  pub tag : ℕ

-- The types of data, and how bytes are read as an array of points of the type; none is beyond their end.
pub record Format : Type 0 where
  pub cartesian_high : ℕ
  pub cartesian_low : ℕ
  pub spherical : ℕ
  pub high_at : List ℕ → ℕ → Option RawPoint
  pub low_at : List ℕ → ℕ → Option RawPoint
  pub spher_at : List ℕ → ℕ → Option SpherPoint

pub record Row (F : Type 0) : Type 0 where
  pub r0 : F
  pub r1 : F
  pub r2 : F

pub record ExtParameterDetailed (F : Type 0) : Type 0 where
  pub trans : Row F
  pub rotation0 : Row F
  pub rotation1 : Row F
  pub rotation2 : Row F

pub record LidarPubHandler (F : Type 0) : Type 0 where
  pub points_clouds : List (PointXyzlt F)
  pub extrinsic : ExtParameterDetailed F
  pub is_set_extrinsic_params : Bool

-- What is made of one raw point: its coordinates, its reflectivity as a `float` and its tag.
pub record Coordinates (F : Type 0) : Type 0 where
  pub x : F
  pub y : F
  pub z : F
  pub intensity : F
  pub tag : ℕ

module _ {F : Type 0} where
  unfoldable pub first_time : List (PointXyzlt F) → ℕ
  first_time [] = 0
  first_time (p ∷ l) = p.offset_time

  last_time : ℕ → List (PointXyzlt F) → ℕ
  last_time t [] = t
  last_time t (p ∷ l) = last_time p.offset_time l

  unfoldable pub get_lidar_base_time : LidarPubHandler F → ℕ
  unfolding first_time
  get_lidar_base_time h = first_time h.points_clouds

  unfoldable pub get_recent_time_stamp : LidarPubHandler F → ℕ
  unfolding last_time
  get_recent_time_stamp h = last_time 0 h.points_clouds

  unfoldable pub get_lidar_point_clouds_size : LidarPubHandler F → ℕ
  get_lidar_point_clouds_size h = length h.points_clouds % 2 ^ 32

  -- `swap`: what the caller gets and what it gave.
  unfoldable pub get_lidar_point_clouds :
      LidarPubHandler F → List (PointXyzlt F) → List (PointXyzlt F) × LidarPubHandler F
  get_lidar_point_clouds h points = (h.points_clouds, record h { points_clouds = points })

  unfoldable pub point_of : Coordinates F → RawPacket → ℕ → PointXyzlt F
  point_of c pkt i = record {
    x = c.x;
    y = c.y;
    z = c.z;
    intensity = c.intensity;
    tag = c.tag;
    line = i % pkt.line_num % 256;
    offset_time = (pkt.time_stamp + i * pkt.point_interval) % 2 ^ 64;
  }

  -- The rounds of the loops that convert a packet, from round `i` on.
  unfoldable pub process_from :
      (ℕ → Option (Coordinates F))
      → RawPacket
      → ℕ
      → ℕ
      → LidarPubHandler F
      → Outcome (LidarPubHandler F)
  unfolding point_of
  process_from read pkt zero i h = done h
  process_from read pkt (suc rounds) i h = elim (read i) [
    | none ↦ fault out_of_bounds
    | some c ↦ elim (pkt.line_num == 0) [
      | true ↦ fault div_by_zero
      | false ↦
          process_from read pkt rounds (i + 1)
            (record h { points_clouds = h.points_clouds ++ (point_of c pkt i ∷ []) })
    ]
  ]
