-- ===== src/Livox/Points/Converted.antt =====
-- Which points a packet becomes.
use mathlib.Core.List.{append_assoc, append-nil}
use robot_nav.Prelude.{
  ℕ, zero, suc, ◌+◌, ◌*◌, ◌%◌, ◌^◌, ◌≤◌, ◌<◌, ◌≡◌, refl, sym, ap, ◌∙◌, Option, some, List, [], ◌∷◌,
  ◌++◌, arith, length, true, false, ◌==◌,
}
use robot_nav.Livox.Fault.{done}
use robot_nav.Livox.Floats.{Floats}
use robot_nav.Livox.CacheIndex.{livox_lidar_type}
use robot_nav.Livox.Points.{
  PointXyzlt, RawPacket, Format, ExtParameterDetailed, LidarPubHandler, Coordinates, point_of,
  process_from,
}
use robot_nav.Livox.Points.Formats.{
  high_read, low_read, spher_read, process_cartesian_high_point, process_cartesian_low_point,
  process_spherical_point, livox_lidar_point_cloud_process, point_cloud_process,
}

module _ {F : Type 0} where
  -- A point with the coordinates of the raw point `j`, its line and its time.
  pub record IsPoint (read : ℕ → Option (Coordinates F)) (pkt : RawPacket) (j : ℕ)
      (p : PointXyzlt F) : Type 0 where
    pub raw : Coordinates F
    pub here : read j ≡ some raw
    pub x : p.x ≡ raw.x
    pub y : p.y ≡ raw.y
    pub z : p.z ≡ raw.z
    pub intensity : p.intensity ≡ raw.intensity
    pub tag : p.tag ≡ raw.tag
    pub line : p.line ≡ j % pkt.line_num % 256
    pub time : p.offset_time ≡ (pkt.time_stamp + j * pkt.point_interval) % 2 ^ 64

  -- The points `i` and on of a packet, in order.
  abbrev pub ArePoints : (ℕ → Option (Coordinates F)) → RawPacket → ℕ → List (PointXyzlt F) → Type 0
  ArePoints read pkt i [] = Unit
  ArePoints read pkt i (p ∷ l) = IsPoint read pkt i p × ArePoints read pkt (i + 1) l

  process_from_lem :
      (read : ℕ → Option (Coordinates F)) (pkt : RawPacket) (rounds i : ℕ) (h : LidarPubHandler F)
      → 0 < pkt.line_num
      → ((j : ℕ) → i ≤ j → j < i + rounds → (c : Coordinates F) × (read j ≡ some c))
      → (l : List (PointXyzlt F)) × (process_from read pkt rounds i h
          ≡ done (record h { points_clouds = h.points_clouds ++ l }))
        × (length l ≡ rounds)
        × ArePoints read pkt i l
  unfolding process_from point_of
  process_from_lem read pkt zero i h lines readable = (
    [],
    ap (λ (l : List (PointXyzlt F)). done (record h { points_clouds = l }))
        (sym (append-nil h.points_clouds)),
    refl,
    tt,
  )
  process_from_lem read pkt (suc rounds) i h lines readable =
      let (c, at) = readable i (omega arith) (omega arith) in
      let some_lines : (pkt.line_num == 0) ≡ false = ground (arith, lines) in
      let point = point_of c pkt i in
      let (l, ran, num, points) =
        process_from_lem read pkt rounds (i + 1)
          (record h { points_clouds = h.points_clouds ++ (point ∷ []) }) lines
          (λ j le lt. readable j (omega arith) (omega arith)) in
      (
        point ∷ l,
        rw (at, some_lines, process_from)
            (ran
              ∙ ap (λ (t : List (PointXyzlt F)). done (record h { points_clouds = t }))
                  (append_assoc h.points_clouds (point ∷ []) l)),
        ap suc num,
        (
          record {
            raw = c;
            here = at;
            x = refl;
            y = refl;
            z = refl;
            intensity = refl;
            tag = refl;
            line = refl;
            time = refl;
          },
          points,
        ),
      )

module _ (fl : Floats) (format : Format) where
  open fl use {F}

  -- A packet of one of the three types, and how its points are read.
  pub data IsFormat (pkt : RawPacket) (e : ExtParameterDetailed F)
      : (ℕ → Option (Coordinates F)) → Type 0 where
    high :
        (pkt.data_type == format.cartesian_high) ≡ true → IsFormat pkt e (high_read fl format pkt e)
    low :
        (pkt.data_type == format.cartesian_high) ≡ false
        → (pkt.data_type == format.cartesian_low) ≡ true
        → IsFormat pkt e (low_read fl format pkt e)
    spherical :
        (pkt.data_type == format.cartesian_high) ≡ false
        → (pkt.data_type == format.cartesian_low) ≡ false
        → (pkt.data_type == format.spherical) ≡ true
        → IsFormat pkt e (spher_read fl format pkt e)

  by_format :
      (pkt : RawPacket) (h : LidarPubHandler F) {read : ℕ → Option (Coordinates F)}
      → pkt.lidar_type ≡ livox_lidar_type
      → IsFormat pkt h.extrinsic read
      → point_cloud_process fl format pkt h ≡ process_from read pkt pkt.point_num 0 h
  unfolding point_cloud_process livox_lidar_point_cloud_process process_cartesian_high_point
      process_cartesian_low_point process_spherical_point
  by_format pkt h livox (high e) =
      rw (livox, e, point_cloud_process, livox_lidar_point_cloud_process) refl
  by_format pkt h livox (low n e) =
      rw (livox, n, e, point_cloud_process, livox_lidar_point_cloud_process) refl
  by_format pkt h livox (spherical n n' e) =
      rw (livox, n, n', e, point_cloud_process, livox_lidar_point_cloud_process) refl

  pub point_cloud_process_lem :
      (pkt : RawPacket) (h : LidarPubHandler F) (read : ℕ → Option (Coordinates F))
      → pkt.lidar_type ≡ livox_lidar_type
      → 0 < pkt.line_num
      → IsFormat pkt h.extrinsic read
      → ((i : ℕ) → i < pkt.point_num → (c : Coordinates F) × (read i ≡ some c))
      → (l : List (PointXyzlt F)) × (point_cloud_process fl format pkt h
          ≡ done (record h { points_clouds = h.points_clouds ++ l }))
        × (length l ≡ pkt.point_num)
        × ArePoints read pkt 0 l
  point_cloud_process_lem pkt h read livox lines is readable =
      let (l, ran, num, points) =
        process_from_lem read pkt pkt.point_num 0 h lines (λ j le lt. readable j (omega arith)) in
      (l, by_format pkt h livox is ∙ ran, num, points)
