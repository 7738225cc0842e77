-- ===== src/Livox/Points/Formats.antt =====
-- The three formats of raw points, and the extrinsic parameters: `LidarPubHandler` over `float` and
-- `double`.
use robot_nav.Prelude.{ℕ, true, false, Option, none, some, [], ◌==◌, if◌then◌else◌}
use robot_nav.Prelude.Int.{ℤ, pos}
use robot_nav.Livox.Fault.{Outcome, done}
use robot_nav.Livox.Floats.{Floats, lit}
use robot_nav.Livox.CacheIndex.{livox_lidar_type}
use robot_nav.Livox.LdsLidar.{LidarExtParameter}
use robot_nav.Livox.Points.{
  Coordinates, ExtParameterDetailed, Format, LidarPubHandler, RawPacket, RawPoint, Row, SpherPoint,
  process_from,
}

module _ (fl : Floats) where
  open fl use {
    F, D, float_of, double_of, widen, narrow, add_float, mul_float, add, sub, mul, div, neg, sin,
    cos, pi,
  }

  default_extrinsic : ExtParameterDetailed F
  default_extrinsic =
      let f : ℕ → F = λ n. float_of (pos n) in
      record {
        trans = record { r0 = f 0; r1 = f 0; r2 = f 0 };
        rotation0 = record { r0 = f 1; r1 = f 0; r2 = f 0 };
        rotation1 = record { r0 = f 0; r1 = f 1; r2 = f 1 };
        rotation2 = record { r0 = f 0; r1 = f 0; r2 = f 1 };
      }

  unfoldable pub new_handler : LidarPubHandler F
  unfolding default_extrinsic
  new_handler = record {
    points_clouds = [];
    extrinsic = default_extrinsic;
    is_set_extrinsic_params = false;
  }

  -- Degrees to radians.
  radians : F → D
  radians a = div (mul (widen a) pi) (lit fl 180)

  rotation_of : D → D → D → D → D → D → Row F → ExtParameterDetailed F
  rotation_of cos_roll cos_pitch cos_yaw sin_roll sin_pitch sin_yaw trans = record {
    trans = trans;
    rotation0 = record {
      r0 = narrow (mul cos_pitch cos_yaw);
      r1 = narrow (sub (mul (mul sin_roll sin_pitch) cos_yaw) (mul cos_roll sin_yaw));
      r2 = narrow (add (mul (mul cos_roll sin_pitch) cos_yaw) (mul sin_roll sin_yaw));
    };
    rotation1 = record {
      r0 = narrow (mul cos_pitch sin_yaw);
      r1 = narrow (add (mul (mul sin_roll sin_pitch) sin_yaw) (mul cos_roll cos_yaw));
      r2 = narrow (sub (mul (mul cos_roll sin_pitch) sin_yaw) (mul sin_roll cos_yaw));
    };
    rotation2 = record {
      r0 = narrow (neg sin_pitch);
      r1 = narrow (mul sin_roll cos_pitch);
      r2 = narrow (mul cos_roll cos_pitch);
    };
  }

  unfoldable pub set_lidars_ext_param : LidarExtParameter F → LidarPubHandler F → LidarPubHandler F
  unfolding rotation_of radians
  set_lidars_ext_param lidar_param h =
      if h.is_set_extrinsic_params
      then h
      else (let e = lidar_param.param in
          let trans : Row F = record { r0 = float_of e.x; r1 = float_of e.y; r2 = float_of e.z } in
          let roll = radians e.roll in
          let pitch = radians e.pitch in
          let yaw = radians e.yaw in
          record h {
            extrinsic =
                rotation_of (cos roll) (cos pitch) (cos yaw) (sin roll) (sin pitch) (sin yaw) trans;
            is_set_extrinsic_params = true;
          })

  -- A coordinate that is rotated and translated, over the number of units in a metre.
  turned : ℕ → RawPoint → Row F → F → F
  turned unit p row t =
      let sum =
        add_float (add_float (mul_float (float_of p.x) row.r0) (mul_float (float_of p.y) row.r1))
          (mul_float (float_of p.z) row.r2) in
      narrow (div (widen (add_float sum t)) (lit fl unit))

  plain : ℕ → ℤ → F
  plain unit z = narrow (div (double_of z) (lit fl unit))

  -- The body of the loops of `ProcessCartesianHighPoint` and `ProcessCartesianLowPoint`.
  cartesian : ℕ → RawPacket → ExtParameterDetailed F → RawPoint → Coordinates F
  unfolding turned plain
  cartesian unit pkt e p = record {
    x = if pkt.extrinsic_enable then plain unit p.x else turned unit p e.rotation0 e.trans.r0;
    y = if pkt.extrinsic_enable then plain unit p.y else turned unit p e.rotation1 e.trans.r1;
    z = if pkt.extrinsic_enable then plain unit p.z else turned unit p e.rotation2 e.trans.r2;
    intensity = float_of (pos p.reflectivity);
    tag = p.tag;
  }

  turned_far : D → D → D → Row F → F → F
  turned_far src_x src_y src_z row t = narrow (
      add
        (add (add (mul src_x (widen row.r0)) (mul src_y (widen row.r1))) (mul src_z (widen row.r2)))
        (div (widen t) (lit fl 1000)))

  angle : ℕ → D
  angle n = mul (div (div (lit fl n) (lit fl 100)) (lit fl 180)) pi

  -- The body of the loop of `ProcessSphericalPoint`.
  spherical_point : RawPacket → ExtParameterDetailed F → SpherPoint → Coordinates F
  unfolding turned_far angle
  spherical_point pkt e p =
      let radius = div (lit fl p.depth) (lit fl 1000) in
      let theta = angle p.theta in
      let phi = angle p.phi in
      let src_x = mul (mul radius (sin theta)) (cos phi) in
      let src_y = mul (mul radius (sin theta)) (sin phi) in
      let src_z = mul radius (cos theta) in
      let raw = pkt.extrinsic_enable in
      record {
        x = if raw then narrow src_x else turned_far src_x src_y src_z e.rotation0 e.trans.r0;
        y = if raw then narrow src_y else turned_far src_x src_y src_z e.rotation1 e.trans.r1;
        z = if raw then narrow src_z else turned_far src_x src_y src_z e.rotation2 e.trans.r2;
        intensity = float_of (pos p.reflectivity);
        tag = p.tag;
      }

  abbrev pub converted {ℓ} : {A : Type 0} {B : Type ℓ} → (A → B) → Option A → Option B
  converted f none = none
  converted f (some a) = some (f a)

  module _ (format : Format) where
    unfoldable pub high_read : RawPacket → ExtParameterDetailed F → ℕ → Option (Coordinates F)
    unfolding cartesian
    high_read pkt e i = converted (cartesian 1000 pkt e) (format.high_at pkt.raw_data i)

    unfoldable pub low_read : RawPacket → ExtParameterDetailed F → ℕ → Option (Coordinates F)
    unfolding cartesian
    low_read pkt e i = converted (cartesian 100 pkt e) (format.low_at pkt.raw_data i)

    unfoldable pub spher_read : RawPacket → ExtParameterDetailed F → ℕ → Option (Coordinates F)
    unfolding spherical_point
    spher_read pkt e i = converted (spherical_point pkt e) (format.spher_at pkt.raw_data i)

    unfoldable pub process_cartesian_high_point :
        RawPacket → LidarPubHandler F → Outcome (LidarPubHandler F)
    unfolding process_from high_read
    process_cartesian_high_point pkt h =
        process_from (high_read pkt h.extrinsic) pkt pkt.point_num 0 h

    unfoldable pub process_cartesian_low_point :
        RawPacket → LidarPubHandler F → Outcome (LidarPubHandler F)
    unfolding process_from low_read
    process_cartesian_low_point pkt h =
        process_from (low_read pkt h.extrinsic) pkt pkt.point_num 0 h

    unfoldable pub process_spherical_point :
        RawPacket → LidarPubHandler F → Outcome (LidarPubHandler F)
    unfolding process_from spher_read
    process_spherical_point pkt h = process_from (spher_read pkt h.extrinsic) pkt pkt.point_num 0 h

    unfoldable pub livox_lidar_point_cloud_process :
        RawPacket → LidarPubHandler F → Outcome (LidarPubHandler F)
    livox_lidar_point_cloud_process pkt h =
        if pkt.data_type == format.cartesian_high
        then process_cartesian_high_point pkt h
        else if pkt.data_type == format.cartesian_low
        then process_cartesian_low_point pkt h
        else if pkt.data_type == format.spherical
        then process_spherical_point pkt h
        else done h

    unfoldable pub point_cloud_process : RawPacket → LidarPubHandler F → Outcome (LidarPubHandler F)
    point_cloud_process pkt h =
        if pkt.lidar_type == livox_lidar_type then livox_lidar_point_cloud_process pkt h else done h
