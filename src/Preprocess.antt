-- ===== src/Preprocess.antt =====
-- mid360s_ws/src/FAST_LIO_ROS2/src/preprocess.h and preprocess.cpp: the points of a scan, filtered and
-- sorted into surfaces and corners. The normals of points, which stay 0, are left out, and so are
-- variables that are never read (`yaw_last`, `yaw_end`, `last_i`, `last_i_nex`).
pub mod Arrays
pub mod Judge
pub mod Planes
pub mod Edges
pub mod Features
pub mod Clouds
pub mod Sweep
pub mod Process
mod Tests
use robot_nav.Prelude.{ℕ, zero, suc, Bool, false, List, [], replicate}

pub record Vec (D : Type 0) : Type 0 where
  pub vx : D
  pub vy : D
  pub vz : D

-- `float` and `double`, and the vectors of Eigen. `decimal m k` is the literal m / 10^k, `initial` what
-- PCL puts into the fields of a new point, `unset` what a variable holds that was never written. No law is
-- assumed.
pub record Reals : Type 1 where
  pub F : Type 0
  pub D : Type 0
  pub initial : F
  pub unset : D
  pub float_of : ℕ → F
  pub float_decimal : ℕ → ℕ → F
  pub decimal : ℕ → ℕ → D
  pub widen : F → D
  pub narrow : D → F
  pub add_float : F → F → F
  pub sub_float : F → F → F
  pub mul_float : F → F → F
  pub div_float : F → F → F
  pub abs_float : F → F
  pub sqrt_float : F → F
  pub atan2_float : F → F → F
  pub lt_float : F → F → Bool
  pub add : D → D → D
  pub sub : D → D → D
  pub mul : D → D → D
  pub div : D → D → D
  pub neg : D → D
  pub sqrt : D → D
  pub cos : D → D
  pub pi : D
  pub lt : D → D → Bool
  pub le : D → D → Bool
  pub dot : Vec D → Vec D → D
  pub norm : Vec D → D
  pub normalize : Vec D → Vec D
  pub minus : Vec D → Vec D → Vec D

-- `pcl::PointXYZINormal`.
pub record PointType (F : Type 0) : Type 0 where
  pub x : F
  pub y : F
  pub z : F
  pub intensity : F
  pub curvature : F

pub data Feature : Type 0 where
  nor poss_plane real_plane edge_jump edge_plane wire zero_point : Feature

pub data Surround : Type 0 where
  prev next : Surround

pub data EJump : Type 0 where
  nr_nor nr_zero nr_180 nr_inf nr_blind : EJump

pub record OrgType (D : Type 0) : Type 0 where
  pub range : D
  pub dista : D
  pub angle_prev : D
  pub angle_next : D
  pub intersect : D
  pub edj_prev : EJump
  pub edj_next : EJump
  pub ftype : Feature

-- The lidar types.
abbrev pub avia : ℕ
avia = 1

abbrev pub velo16 : ℕ
velo16 = 2

abbrev pub oust64 : ℕ
oust64 = 3

abbrev pub mid360 : ℕ
mid360 = 4

-- The length of the arrays `pl_buff` and `typess`.
abbrev pub max_lines : ℕ
max_lines = 128

pub record Preprocess (F D : Type 0) : Type 0 where
  pub pl_full : List (PointType F)
  pub pl_corn : List (PointType F)
  pub pl_surf : List (PointType F)
  pub pl_buff : List (List (PointType F))
  pub time_unit_scale : F
  pub lidar_type : ℕ
  pub point_filter_num : ℕ
  pub n_scans : ℕ
  pub scan_rate : ℕ
  pub time_unit : ℕ
  pub blind : D
  pub feature_enabled : Bool
  pub given_offset_time : Bool
  pub group_size : ℕ
  pub dis_a : D
  pub dis_b : D
  pub inf_bound : D
  pub limit_maxmid : D
  pub limit_midmin : D
  pub limit_maxmin : D
  pub p2l_ratio : D
  pub jump_up_limit : D
  pub jump_down_limit : D
  pub cos160 : D
  pub edgea : D
  pub edgeb : D
  pub smallp_intersect : D
  pub smallp_ratio : D
  pub way : Vec D

module _ (re : Reals) where
  open re use {
    F, D, initial, unset, float_of, float_decimal, decimal, widen, add_float, mul_float, mul, div,
    cos, pi, lt,
  }

  abbrev pub whole : ℕ → D
  whole n = decimal n 0

  pub of_degrees : D → D
  of_degrees a = cos (mul (div a (whole 180)) pi)

  -- The constructor writes `disA` twice, and `disB` never. It does not write the unit of time either, which
  -- the node sets from its parameters before the first cloud; it is 0 here until then.
  unfoldable pub new : Preprocess F D
  unfolding of_degrees
  new = record {
    pl_full = [];
    pl_corn = [];
    pl_surf = [];
    pl_buff = replicate max_lines [];
    time_unit_scale = initial;
    lidar_type = avia;
    point_filter_num = 1;
    n_scans = 6;
    scan_rate = 10;
    time_unit = 0;
    blind = decimal 1 2;
    feature_enabled = false;
    given_offset_time = false;
    group_size = 8;
    dis_a = decimal 1 1;
    dis_b = unset;
    inf_bound = whole 10;
    limit_maxmid = decimal 625 2;
    limit_midmin = decimal 625 2;
    limit_maxmin = decimal 324 2;
    p2l_ratio = whole 225;
    jump_up_limit = of_degrees (whole 170);
    jump_down_limit = of_degrees (whole 8);
    cos160 = of_degrees (whole 160);
    edgea = whole 2;
    edgeb = decimal 1 1;
    smallp_intersect = of_degrees (decimal 1725 1);
    smallp_ratio = decimal 12 1;
    way = record { vx = unset; vy = unset; vz = unset };
  }

  unfoldable pub set_options : Bool → ℕ → D → ℕ → Preprocess F D → Preprocess F D
  set_options feat_en lid_type bld pfilt_num s = record s {
    feature_enabled = feat_en;
    lidar_type = lid_type;
    blind = bld;
    point_filter_num = pfilt_num;
  }

  -- `time_unit_scale` of the unit: seconds, milliseconds, microseconds, nanoseconds.
  unfoldable pub scale_of : ℕ → F
  scale_of zero = float_decimal 1000 0
  scale_of (suc zero) = float_decimal 1 0
  scale_of (suc (suc zero)) = float_decimal 1 3
  scale_of (suc (suc (suc zero))) = float_decimal 1 6
  scale_of (suc (suc (suc (suc n)))) = float_decimal 1 0

  -- A point as PCL makes it.
  abbrev pub blank : PointType F
  blank = record { x = initial; y = initial; z = initial; intensity = initial; curvature = initial }

  abbrev pub square_range : F → F → F → F
  square_range a b c = add_float (add_float (mul_float a a) (mul_float b b)) (mul_float c c)

  -- Beyond the blind zone.
  unfoldable pub is_far : D → PointType F → Bool
  is_far blind p = lt (mul blind blind) (widen (square_range p.x p.y p.z))
