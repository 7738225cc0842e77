-- ===== src/Controller/Tests.antt =====
-- Poses on a line, and distances in whole numbers.
use robot_nav.Prelude.{ℕ, ◌+◌, ◌-◌, ◌≡◌, refl, false, some, List, [], ◌∷◌, arith, ltb, leb}
use robot_nav.Controller.{Distance, nearest_from, ahead_from, target_index, get_nearest_target_pose}
use robot_nav.Controller.Velocity.{
  Angles, CustomController, Twist, command, compute_velocity_commands,
}
use robot_nav.Controller.Velocity.Motion.{Moves, compute_velocity_commands_lem}

abbrev line : Distance ℕ
line = record {
  R = ℕ;
  zero_dist = 0;
  far = 1000000000;
  add = λ a b. a + b;
  lt = ltb;
  at_least = λ a b. leb b a;
  hypot = λ p q. (p - q) + (q - p);
}

abbrev poses : List ℕ
poses = 0 ∷ 3 ∷ 6 ∷ 9 ∷ 12 ∷ []

two_behind : get_nearest_target_pose line 4 5 poses ≡ (some 12, 6 ∷ 9 ∷ 12 ∷ [])
unfolding get_nearest_target_pose nearest_from ahead_from target_index
two_behind = refl

abbrev angles : Angles line
angles = record {
  hundredths = λ n. n;
  pi = 314;
  two_pi = 628;
  yaw = λ p. 0;
  float_yaw = λ p. 0;
  bearing = λ p q. 20;
  sub = λ a b. a - b;
  mul = λ a b. a;
  div = λ a b. a;
  neg = λ a. 0;
  abs = λ a. a;
  min = λ a b. a;
  max = λ a b. b;
}

abbrev controller : CustomController line
controller = record {
  poses = poses;
  is_rotating = false;
  max_linear_speed = 10;
  max_angular_speed = 70;
  lookahead_dist = 4;
}

compute_velocity_commands_lem_example :
    (t : Twist line) × (s' : CustomController line) × (compute_velocity_commands angles
        (λ p. some p)
        5
        controller
      ≡ command t s')
    × Moves angles controller t s'
compute_velocity_commands_lem_example =
    compute_velocity_commands_lem angles (λ p. some p) 5 5 controller (omega arith) refl
