-- ===== src/Controller/Velocity.antt =====
-- custom_controller.cpp, lines 36 to 138 and 182 to 190: the commands, which either turn the robot or drive
-- it. Stamps and frame ids of the command are left out.
pub mod Motion
use robot_nav.Prelude.{
  ℕ, zero, suc, ◌-◌, Bool, true, false, Option, none, some, List, [], ◌∷◌, length, get_elem?,
  if◌then◌else◌,
}
use robot_nav.Controller.{Distance, get_nearest_target_pose}

-- What the code asks of `double` beyond distances. `hundredths n` is the literal n / 100, `yaw` is
-- `tf2::getYaw`, `float_yaw` its value as a `float`, and `bearing` is `std::atan2` of the way from the
-- first pose to the second.
pub record Angles {P : Type 0} (d : Distance P) : Type 0 where
  pub hundredths : ℕ → d.R
  pub pi : d.R
  pub two_pi : d.R
  pub yaw : P → d.R
  pub float_yaw : P → d.R
  pub bearing : P → P → d.R
  pub sub : d.R → d.R → d.R
  pub mul : d.R → d.R → d.R
  pub div : d.R → d.R → d.R
  pub neg : d.R → d.R
  pub abs : d.R → d.R
  pub min : d.R → d.R → d.R
  pub max : d.R → d.R → d.R

pub record CustomController {P : Type 0} (d : Distance P) : Type 0 where
  pub poses : List P
  pub is_rotating : Bool
  pub max_linear_speed : d.R
  pub max_angular_speed : d.R
  pub lookahead_dist : d.R

pub record Twist {P : Type 0} (d : Distance P) : Type 0 where
  pub linear_x : d.R
  pub angular_z : d.R

-- An exception, or the command and the state.
pub data Result {P : Type 0} (d : Distance P) : Type 0 where
  empty_path transform_failed out_of_range : Result d
  command : Twist d → CustomController d → Result d

module _ {P : Type 0} {d : Distance P} (a : Angles d) where
  open d use {R, zero_dist, add, lt, at_least, hypot}
  open a use {hundredths, pi, two_pi, yaw, float_yaw, bearing, sub, mul, div, neg, abs, min, max}

  unfoldable pub calculate_angle_difference : P → R → R
  calculate_angle_difference here target_angle =
      let angle_diff = sub target_angle (float_yaw here) in
      if lt angle_diff (neg pi)
      then add angle_diff two_pi
      else if lt pi angle_diff
      then sub angle_diff two_pi
      else angle_diff

  -- The speed of a turn: the highest one, or less within `slowdown_range` of the target.
  turn_speed : R → R → R → R → R
  turn_speed min_speed slowdown_range max_speed error =
      let stop = hundredths 5 in
      let ratio =
        max zero_dist (min (hundredths 100) (div (sub error stop) (sub slowdown_range stop))) in
      if lt error slowdown_range
      then add min_speed (mul ratio (sub max_speed min_speed))
      else max_speed

  -- Against the side that the difference is on.
  turn : R → R → R
  turn angle_diff speed = if lt zero_dist angle_diff then neg speed else speed

  -- Whether to turn: it begins at a difference of 0.15 and ends at 0.05, and at the goal it goes on.
  unfoldable pub next_rotating : Bool → Bool → R → Bool
  next_rotating at_xy_goal is_rotating angle_diff =
      if at_xy_goal
      then true
      else if is_rotating
      then (if at_least (hundredths 5) (abs angle_diff) then false else true)
      else (if at_least (abs angle_diff) (hundredths 15) then true else false)

  unfoldable pub command_for : Bool → Bool → R → CustomController d → Twist d
  unfolding turn turn_speed
  command_for at_xy_goal rotating angle_diff s =
      let max_speed = min s.max_angular_speed (hundredths 70) in
      let aligned = at_least (hundredths 5) (abs angle_diff) in
      let last_turn =
        turn angle_diff (turn_speed (hundredths 20) (hundredths 25) max_speed (abs angle_diff)) in
      let way_turn =
        turn angle_diff (turn_speed (hundredths 8) (hundredths 60) max_speed (abs angle_diff)) in
      if rotating
      then record {
        linear_x = zero_dist;
        angular_z = if at_xy_goal then (if aligned then zero_dist else last_turn) else way_turn;
      }
      else record { linear_x = s.max_linear_speed; angular_z = zero_dist }

  -- With the pose in the frame of the plan, the target and the goal: whether the goal is within 0.12,
  -- the angle to make for and the command.
  unfoldable pub steer : P → P → P → CustomController d → Result d
  unfolding calculate_angle_difference next_rotating command_for
  steer here target goal s =
      let at_xy_goal = at_least (hundredths 12) (hypot goal here) in
      let target_angle = if at_xy_goal then yaw goal else bearing here target in
      let angle_diff = calculate_angle_difference here target_angle in
      let rotating = next_rotating at_xy_goal s.is_rotating angle_diff in
      command (command_for at_xy_goal rotating angle_diff s) (record s { is_rotating = rotating })

  unfoldable pub steer_to : P → Option P → Option P → CustomController d → Result d
  unfolding steer
  steer_to here (some target) (some goal) s = steer here target goal s
  steer_to here (some target) none s = out_of_range
  steer_to here none goal s = out_of_range

  -- With the pose in the frame of the plan, none where it cannot be transformed.
  unfoldable pub steer_from : Option P → CustomController d → Result d
  unfolding steer_to get_nearest_target_pose
  steer_from none s = transform_failed
  steer_from (some here) s =
      let left = get_nearest_target_pose d s.lookahead_dist here s.poses in
      steer_to here (left.0) (get_elem? left.1 (length left.1 - 1)) (record s { poses = left.1 })

  -- A path without poses is thrown as an exception.
  unfoldable pub unless_empty : List P → Result d → Result d
  unless_empty [] r = empty_path
  unless_empty (p ∷ l) r = r

  -- `transform` is `transformPoseInTargetFrame`.
  unfoldable pub compute_velocity_commands : (P → Option P) → P → CustomController d → Result d
  unfolding steer_from unless_empty
  compute_velocity_commands transform pose s = unless_empty s.poses (steer_from (transform pose) s)

  unfoldable pub activate : CustomController d → CustomController d
  activate s = record s { is_rotating = false }

  unfoldable pub set_plan : List P → CustomController d → CustomController d
  set_plan path s = record s { poses = path }
