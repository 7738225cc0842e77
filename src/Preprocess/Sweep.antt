-- ===== src/Preprocess/Sweep.antt =====
-- preprocess.cpp, lines 296 to 557: the handlers of Velodyne and Mid360 clouds, which work out from the
-- angle of a point when it was measured.
pub mod Mid360
use robot_nav.Prelude.{
  ℕ, ◌+◌, ◌-◌, ◌%◌, Bool, true, false, ◌&&◌, Option, none, some, List, [], ◌∷◌, ◌++◌, length,
  replicate, ltb, ◌==◌, if◌then◌else◌,
}
use robot_nav.Livox.Fault.{Outcome, done, fault, div_by_zero, ◌>>=◌}
use robot_nav.Preprocess.Arrays.{read, write}
use robot_nav.Preprocess.{Reals, PointType, Preprocess, whole, is_far}
use robot_nav.Preprocess.Clouds.{cleared, clear_from, push_line, lines_from}

-- `livox_ros::LivoxPointXyzitl`.
pub record LivoxPointXyzitl (F : Type 0) : Type 0 where
  pub x : F
  pub y : F
  pub z : F
  pub intensity : F
  pub tag : ℕ
  pub line : ℕ

-- `velodyne_ros::Point`.
pub record VelodynePoint (F : Type 0) : Type 0 where
  pub x : F
  pub y : F
  pub z : F
  pub intensity : F
  pub time : F
  pub ring : ℕ

-- For each line: whether no point of it came yet, the angle of the first, and the time of the last.
pub record Lines (F D : Type 0) : Type 0 where
  pub is_first : List Bool
  pub yaw_fp : List D
  pub time_last : List F

module _ (re : Reals) where
  open re use {
    F, D, float_of, float_decimal, decimal, widen, narrow, atan2_float, mul_float, lt_float, add,
    sub, mul, div, le,
  }

  abbrev pub new_lines : ℕ → Lines F D
  new_lines n = record {
    is_first = replicate n true;
    yaw_fp = replicate n (whole re 0);
    time_last = replicate n (float_decimal 0 0);
  }

  abbrev pub omega_l : ℕ → D
  omega_l scan_rate = mul (decimal 361 3) (whole re scan_rate)

  abbrev pub yaw_angle : F → F → D
  yaw_angle x y = mul (widen (atan2_float y x)) (decimal 572957 4)

  -- The time since the first point of the line, later than that of the last point.
  unfoldable pub turned : D → D → D → F → F
  turned omega yaw first last =
      let curvature = narrow (
        if le yaw first
        then div (sub first yaw) omega
        else div (add (sub first yaw) (whole re 360)) omega) in
      if lt_float curvature last
      then narrow (add (widen curvature) (div (whole re 360) omega))
      else curvature

  -- The first point of a line gets no time; a line beyond the vectors is out of range.
  unfoldable pub timed : D → ℕ → D → Lines F D → Outcome (Option F × Lines F D)
  unfolding read write turned
  timed omega layer yaw w = do
    is_first ← read w.is_first layer
    (if is_first
        then (do
          yaw_fp ← write w.yaw_fp layer yaw
          firsts ← write w.is_first layer false
          time_last ← write w.time_last layer (float_decimal 0 0)
          done (none, record { is_first = firsts; yaw_fp = yaw_fp; time_last = time_last }))
        else (do
          first ← read w.yaw_fp layer
          last ← read w.time_last layer
          let curvature = turned omega yaw first last
          time_last ← write w.time_last layer curvature
          done (some curvature, record w { time_last = time_last })))

  unfoldable pub livox_to_point : LivoxPointXyzitl F → F → PointType F
  livox_to_point p curvature = record {
    x = p.x;
    y = p.y;
    z = p.z;
    intensity = p.intensity;
    curvature = curvature;
  }

  -- The clouds with one more point, if it got a time and is not in the blind zone.
  unfoldable pub push_timed :
      D → LivoxPointXyzitl F → Option F → List (PointType F) → List (PointType F)
  unfolding is_far livox_to_point
  push_timed blind p none surf = surf
  push_timed blind p (some c) surf =
      if is_far re blind (livox_to_point p c) then surf ++ (livox_to_point p c ∷ []) else surf

  unfoldable pub mid360_from :
      D
      → D
      → List (LivoxPointXyzitl F)
      → Lines F D
      → List (PointType F)
      → Outcome (List (PointType F))
  unfolding timed push_timed
  mid360_from omega blind [] w surf = done surf
  mid360_from omega blind (p ∷ l) w surf = do
    (time, w') ← timed omega p.line (yaw_angle p.x p.y) w
    mid360_from omega blind l w' (push_timed blind p time surf)

  unfoldable pub mid360_handler :
      List (LivoxPointXyzitl F) → Preprocess F D → Outcome (Preprocess F D)
  unfolding mid360_from
  mid360_handler pl_orig s = if length pl_orig == 0 then done (cleared s) else (do
    surf ← mid360_from (omega_l s.scan_rate) s.blind pl_orig (new_lines s.n_scans) []
    done (record (cleared s) { pl_surf = surf; given_offset_time = false }))

  unfoldable pub velodyne_to_point : VelodynePoint F → F → PointType F
  velodyne_to_point p curvature = record {
    x = p.x;
    y = p.y;
    z = p.z;
    intensity = p.intensity;
    curvature = curvature;
  }

  -- The time of a point: the one that it has, or the one worked out.
  unfoldable pub velodyne_time :
      Preprocess F D → VelodynePoint F → Lines F D → Outcome (Option F × Lines F D)
  unfolding timed
  velodyne_time s p w =
      if s.given_offset_time
      then done (some (mul_float p.time s.time_unit_scale), w)
      else timed (omega_l s.scan_rate) p.ring (yaw_angle p.x p.y) w

  unfoldable pub push_velodyne_line :
      VelodynePoint F → Option F → Preprocess F D → Outcome (Preprocess F D)
  unfolding push_line velodyne_to_point
  push_velodyne_line p none s = done s
  push_velodyne_line p (some c) s = do
    buff ← push_line s.pl_buff p.ring (velodyne_to_point p c)
    done (record s { pl_buff = buff })

  -- A point that goes to the buffer of its line, if there is one.
  unfoldable pub velodyne_line :
      VelodynePoint F → Lines F D → Preprocess F D → Outcome (Preprocess F D × Lines F D)
  unfolding velodyne_time push_velodyne_line
  velodyne_line p w s =
      if ltb p.ring s.n_scans
      then (do (time, w1) ← velodyne_time s p w; s1 ← push_velodyne_line p time s; done (s1, w1))
      else done (s, w)

  unfoldable pub velodyne_lines :
      List (VelodynePoint F) → Lines F D → Preprocess F D → Outcome (Preprocess F D)
  unfolding velodyne_line
  velodyne_lines [] w s = done s
  velodyne_lines (p ∷ l) w s = do (s', w') ← velodyne_line p w s; velodyne_lines l w' s'

  -- A point that got a time is taken if its index is a multiple of the filter.
  unfoldable pub push_velodyne :
      ℕ → VelodynePoint F → Option F → Preprocess F D → Outcome (Preprocess F D)
  unfolding is_far velodyne_to_point
  push_velodyne i p none s = done s
  push_velodyne i p (some c) s =
      if s.point_filter_num == 0
      then fault div_by_zero
      else if i % s.point_filter_num == 0 && is_far re s.blind (velodyne_to_point p c)
      then done (record s { pl_surf = s.pl_surf ++ (velodyne_to_point p c ∷ []) })
      else done s

  unfoldable pub velodyne_points :
      ℕ → List (VelodynePoint F) → Lines F D → Preprocess F D → Outcome (Preprocess F D)
  unfolding velodyne_time push_velodyne
  velodyne_points i [] w s = done s
  velodyne_points i (p ∷ l) w s = do
    (time, w') ← velodyne_time s p w
    s' ← push_velodyne i p time s
    velodyne_points (i + 1) l w' s'

  -- What the handler does after its test for an empty cloud.
  unfoldable pub velodyne_cloud :
      List (VelodynePoint F) → Preprocess F D → Outcome (Option (Preprocess F D))
  unfolding clear_from velodyne_lines lines_from velodyne_points
  velodyne_cloud pl_orig s =
      if s.feature_enabled
      then (do
        buff ← clear_from s.n_scans 0 s.pl_buff
        s1 ← velodyne_lines pl_orig (new_lines s.n_scans) (record s { pl_buff = buff })
        lines_from re (λ d. d) 2 s.n_scans 0 s1)
      else (do s1 ← velodyne_points 0 pl_orig (new_lines s.n_scans) s; done (some s1))

  unfoldable pub velodyne_handler :
      List (VelodynePoint F) → Preprocess F D → Outcome (Option (Preprocess F D))
  unfolding read velodyne_cloud
  velodyne_handler pl_orig s = if length pl_orig == 0 then done (some (cleared s)) else (do
    last ← read pl_orig (length pl_orig - 1)
    velodyne_cloud pl_orig
        (record (cleared s) { given_offset_time = lt_float (float_of 0) last.time }))
