-- ===== src/Preprocess/Clouds.antt =====
-- preprocess.cpp, lines 95 to 294 and 559 to 589: the handlers of custom messages, of Ouster clouds and of
-- plain ones. A cloud is the list of points that PCL reads from the message. The yaw angle that the Ouster
-- handler computes, and does not use, is left out.
pub mod Rings
pub mod Decimated
pub mod Avia
use robot_nav.Prelude.{
  ℕ, zero, suc, ◌+◌, ◌-◌, ◌*◌, ◌/◌, ◌%◌, Bool, not, ◌&&◌, ◌||◌, Option, none, some, List, [], ◌∷◌,
  ◌++◌, length, replicate, ltb, ◌==◌, if◌then◌else◌,
}
use robot_nav.Livox.Fault.{Outcome, done, fault, out_of_bounds, div_by_zero, ◌>>=◌}
use robot_nav.Livox.Lddc.Messages.{CustomPoint, CustomMsg}
use robot_nav.Preprocess.Arrays.{read, write}
use robot_nav.Preprocess.{
  Vec, Reals, PointType, OrgType, Preprocess, nor, nr_nor, whole, blank, square_range, is_far,
}
use robot_nav.Preprocess.Judge.{way_to, square_sum}
use robot_nav.Preprocess.Features.{give_feature}

-- `pcl::PointXYZI`.
pub record PlainPoint (F : Type 0) : Type 0 where
  pub x : F
  pub y : F
  pub z : F
  pub intensity : F

-- `ouster_ros::Point`, as far as it is read.
pub record OusterPoint (F : Type 0) : Type 0 where
  pub x : F
  pub y : F
  pub z : F
  pub intensity : F
  pub t : ℕ
  pub ring : ℕ

abbrev pub cleared : {F D : Type 0} → Preprocess F D → Preprocess F D
cleared s = record s { pl_surf = []; pl_corn = []; pl_full = [] }

-- `n` of the line buffers, from i on, emptied.
unfoldable pub clear_from : {P : Type 0} → ℕ → ℕ → List (List P) → Outcome (List (List P))
unfolding write
clear_from zero i buff = done buff
clear_from (suc n) i buff = do buff' ← write buff i []; clear_from n (i + 1) buff'

-- A point at the end of a line.
unfoldable pub push_line : {P : Type 0} → List (List P) → ℕ → P → Outcome (List (List P))
unfolding read write
push_line buff line p = do pl ← read buff line; write buff line (pl ++ (p ∷ []))

module _ (re : Reals) where
  open re use {
    F, D, unset, float_of, decimal, widen, sub_float, mul_float, div_float, abs_float, sqrt_float,
    add_float, mul, sqrt, lt,
  }

  new_type : D → D → OrgType D
  new_type range dista = record {
    range = range;
    dista = dista;
    angle_prev = unset;
    angle_next = unset;
    intersect = whole re 2;
    edj_prev = nr_nor;
    edj_next = nr_nor;
    ftype = nor;
  }

  range_of : PointType F → D
  range_of p = widen (sqrt_float (add_float (mul_float p.x p.x) (mul_float p.y p.y)))

  -- The ranges of the points of a line, and their distances from the next one.
  unfoldable pub measured : (D → D) → List (PointType F) → List (OrgType D)
  unfolding new_type range_of way_to square_sum
  measured of_square [] = []
  measured of_square (p ∷ []) = new_type (range_of p) unset ∷ []
  measured of_square (p ∷ q ∷ l) =
      new_type (range_of p) (of_square (square_sum re (way_to re q p))) ∷ measured of_square (q ∷ l)

  last_way : Vec D → List (PointType F) → Vec D
  unfolding way_to
  last_way v [] = v
  last_way v (p ∷ []) = v
  last_way v (p ∷ q ∷ l) = last_way (way_to re q p) (q ∷ l)

  -- The features of a line; the size of an empty one, less 1, is an index out of range.
  unfoldable pub line_features :
      (D → D) → List (PointType F) → Preprocess F D → Outcome (Option (Preprocess F D))
  unfolding measured last_way give_feature
  line_features of_square [] s = fault out_of_bounds
  line_features of_square (p ∷ l) s =
      give_feature re (p ∷ l) (measured of_square (p ∷ l))
        (record s { way = last_way s.way (p ∷ l) })

  -- `n` lines from j on, without those of fewer than `least` points.
  unfoldable pub lines_from :
      (D → D) → ℕ → ℕ → ℕ → Preprocess F D → Outcome (Option (Preprocess F D))
  unfolding read line_features
  lines_from of_square least zero j s = done (some s)
  lines_from of_square least (suc n) j s = do
    pl ← read s.pl_buff j
    found ← if ltb (length pl) least then done (some s) else line_features of_square pl s
    elim found [ none ↦ done none | some s' ↦ lines_from of_square least n (j + 1) s' ]

  -- The tag of a good return, on one of the lines.
  unfoldable pub is_valid_point : ℕ → CustomPoint F → Bool
  is_valid_point n_scans p =
      let bits = p.tag / 16 % 4 * 16 in ltb p.line n_scans && (bits == 16 || bits == 0)

  unfoldable pub custom_to_point : CustomPoint F → PointType F
  custom_to_point p = record {
    x = p.x;
    y = p.y;
    z = p.z;
    intensity = float_of p.reflectivity;
    curvature = div_float (float_of p.offset_time) (float_of 1000000);
  }

  unfoldable pub differs : PointType F → PointType F → Bool
  differs p q =
      let apart = λ (a b : F). lt (decimal 1 7) (widen (abs_float (sub_float a b))) in
      apart p.x q.x || apart p.y q.y || apart p.z q.z

  -- A point of the unfiltered cloud, at its index.
  unfoldable pub keep_line_point : ℕ → CustomPoint F → Preprocess F D → Outcome (Preprocess F D)
  unfolding read write custom_to_point differs push_line is_valid_point
  keep_line_point i p s =
      if is_valid_point s.n_scans p
      then (do
        full ← write s.pl_full i (custom_to_point p)
        before ← read full (i - 1)
        buff ←
            if differs (custom_to_point p) before
            then push_line s.pl_buff p.line (custom_to_point p)
            else done s.pl_buff
        done (record s { pl_full = full; pl_buff = buff }))
      else done s

  unfoldable pub line_points_from :
      List (CustomPoint F) → ℕ → ℕ → Preprocess F D → Outcome (Preprocess F D)
  unfolding read keep_line_point
  line_points_from pts zero i s = done s
  line_points_from pts (suc n) i s = do
    p ← read pts i
    s' ← keep_line_point i p s
    line_points_from pts n (i + 1) s'

  -- The count of valid points, and the state.
  unfoldable pub decimate_round :
      ℕ → CustomPoint F → ℕ × Preprocess F D → Outcome (ℕ × Preprocess F D)
  unfolding read write custom_to_point differs is_valid_point is_far
  decimate_round i p (valid_num, s) =
      if not (is_valid_point s.n_scans p)
      then done (valid_num, s)
      else if s.point_filter_num == 0
      then fault div_by_zero
      else if not ((valid_num + 1) % s.point_filter_num == 0)
      then done (valid_num + 1, s)
      else (do
        let q = custom_to_point p
        full ← write s.pl_full i q
        before ← read full (i - 1)
        let surf =
            if differs q before && is_far re s.blind q then s.pl_surf ++ (q ∷ []) else s.pl_surf
        done (valid_num + 1, record s { pl_full = full; pl_surf = surf }))

  unfoldable pub decimate_from :
      List (CustomPoint F) → ℕ → ℕ → ℕ × Preprocess F D → Outcome (ℕ × Preprocess F D)
  unfolding read decimate_round
  decimate_from pts zero i w = done w
  decimate_from pts (suc n) i w = do
    p ← read pts i
    w' ← decimate_round i p w
    decimate_from pts n (i + 1) w'

  -- The number of points of a message fits into an `int`.
  unfoldable pub avia_handler : CustomMsg F → Preprocess F D → Outcome (Option (Preprocess F D))
  unfolding clear_from line_points_from lines_from decimate_from
  avia_handler msg s = do
    buff ← clear_from s.n_scans 0 s.pl_buff
    let s1 = record (cleared s) { pl_full = replicate msg.point_num (blank re); pl_buff = buff }
    (if s.feature_enabled
        then (do
          s2 ← line_points_from msg.points (msg.point_num - 1) 1 s1
          lines_from sqrt 6 s.n_scans 0 s2)
        else (do w ← decimate_from msg.points (msg.point_num - 1) 1 (0, s1); done (some w.1)))

  unfoldable pub ouster_to_point : F → OusterPoint F → PointType F
  ouster_to_point scale p = record {
    x = p.x;
    y = p.y;
    z = p.z;
    intensity = p.intensity;
    curvature = mul_float (float_of p.t) scale;
  }

  -- Within the blind zone, by another test than `is_far`.
  unfoldable pub is_near : D → PointType F → Bool
  is_near blind p = lt (widen (square_range re p.x p.y p.z)) (mul blind blind)

  -- The points put into the buffers of their rings.
  unfoldable pub ring_points : F → List (OusterPoint F) → Preprocess F D → Outcome (Preprocess F D)
  unfolding ouster_to_point is_near push_line
  ring_points scale [] s = done s
  ring_points scale (p ∷ l) s = do
    let q = ouster_to_point scale p
    buff ←
        if not (is_near s.blind q) && ltb p.ring s.n_scans
        then push_line s.pl_buff p.ring q
        else done s.pl_buff
    ring_points scale l (record s { pl_buff = buff })

  -- Every `point_filter_num`-th point from i on that is not in the blind zone.
  unfoldable pub thinned : F → D → ℕ → ℕ → List (OusterPoint F) → List (PointType F)
  unfolding ouster_to_point is_near
  thinned scale blind filter_num i [] = []
  thinned scale blind filter_num i (p ∷ l) =
      let q = ouster_to_point scale p in
      let rest = thinned scale blind filter_num (i + 1) l in
      if i % filter_num == 0 && not (is_near blind q) then q ∷ rest else rest

  -- A filter of 0 is a division by zero at the first point.
  unfoldable pub thin : List (OusterPoint F) → Preprocess F D → Outcome (Preprocess F D)
  unfolding thinned
  thin pts s =
      if s.point_filter_num == 0 && not (length pts == 0)
      then fault div_by_zero
      else done (record s { pl_surf = thinned s.time_unit_scale s.blind s.point_filter_num 0 pts })

  unfoldable pub oust64_handler :
      List (OusterPoint F) → Preprocess F D → Outcome (Option (Preprocess F D))
  unfolding clear_from ring_points lines_from thin
  oust64_handler pl_orig s =
      if s.feature_enabled
      then (do
        buff ← clear_from s.n_scans 0 s.pl_buff
        s1 ← ring_points s.time_unit_scale pl_orig (record (cleared s) { pl_buff = buff })
        lines_from (λ d. d) 0 s.n_scans 0 s1)
      else (do s1 ← thin pl_orig (cleared s); done (some s1))

  unfoldable pub plain_to_point : PlainPoint F → PointType F
  plain_to_point p = record {
    x = p.x;
    y = p.y;
    z = p.z;
    intensity = p.intensity;
    curvature = float_of 0;
  }

  unfoldable pub default_from : D → List (PlainPoint F) → List (PointType F)
  unfolding plain_to_point is_far
  default_from blind [] = []
  default_from blind (p ∷ l) =
      let rest = default_from blind l in
      if is_far re blind (plain_to_point p) then plain_to_point p ∷ rest else rest

  unfoldable pub default_handler : List (PlainPoint F) → Preprocess F D → Preprocess F D
  unfolding default_from
  default_handler pl_orig s = record (cleared s) { pl_surf = default_from s.blind pl_orig }
