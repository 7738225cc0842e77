-- ===== src/Controller/Velocity/Motion.antt =====
-- The robot turns or drives, never both, and its goal stays.
use robot_nav.Prelude.{
  ℕ, ◌-◌, ◌<◌, ◌≡◌, ◌⊎◌, refl, sym, ap, ◌∙◌, inl, inr, Bool, true, false, Option, some, List, [],
  ◌∷◌, arith, length, get_elem?, get_elem?_inside, drop, Bool-cases,
}
use robot_nav.Controller.{Distance, get_nearest_target_pose}
use robot_nav.Controller.Target.{get_nearest_target_pose_lem}
use robot_nav.Controller.Velocity.{
  Angles, CustomController, Twist, Result, command, command_for, next_rotating, steer, steer_to,
  steer_from, unless_empty, compute_velocity_commands,
}

module _ {P : Type 0} {d : Distance P} (a : Angles d) where
  -- A command that turns the robot or drives it, and a state in which the goal is the same.
  pub record Moves (s : CustomController d) (t : Twist d) (s' : CustomController d) : Type 0 where
    pub turn_or_drive : (t.linear_x ≡ d.zero_dist) ⊎ (t.angular_z ≡ d.zero_dist)
    pub turns : s'.is_rotating ≡ true → t.linear_x ≡ d.zero_dist
    pub drives :
        s'.is_rotating ≡ false → (t.linear_x ≡ s.max_linear_speed) × (t.angular_z ≡ d.zero_dist)
    pub goal : get_elem? s'.poses (length s'.poses - 1) ≡ get_elem? s.poses (length s.poses - 1)
    pub pruned : (k : ℕ) × (k < length s.poses) × (s'.poses ≡ drop k s.poses)

  turning :
      (g : Bool) (diff : d.R) (s : CustomController d)
      → (command_for a g true diff s).linear_x ≡ d.zero_dist
  unfolding command_for
  turning g diff s = refl

  driving :
      (g : Bool) (diff : d.R) (s : CustomController d)
      → ((command_for a g false diff s).linear_x ≡ s.max_linear_speed)
        × ((command_for a g false diff s).angular_z ≡ d.zero_dist)
  unfolding command_for
  driving g diff s = (refl, refl)

  command-Moves :
      (g rotating : Bool) (diff : d.R) (s s1 : CustomController d)
      → s1.max_linear_speed ≡ s.max_linear_speed
      → get_elem? s1.poses (length s1.poses - 1) ≡ get_elem? s.poses (length s.poses - 1)
      → (k : ℕ) × (k < length s.poses) × (s1.poses ≡ drop k s.poses)
      → Moves s (command_for a g rotating diff s1) (record s1 { is_rotating = rotating })
  command-Moves g true diff s s1 speed goal pruned = record {
    turn_or_drive = inl (turning g diff s1);
    turns = λ e. turning g diff s1;
    drives = λ e. let clash : true ≡ false = e in cc;
    goal = goal;
    pruned = pruned;
  }
  command-Moves g false diff s s1 speed goal pruned =
      let (linear, angular) = driving g diff s1 in
      record {
        turn_or_drive = inr angular;
        turns = λ e. let clash : false ≡ true = e in cc;
        drives = λ e. (linear ∙ speed, angular);
        goal = goal;
        pruned = pruned;
      }

  some_path : (l : List P) (r : Result d) → 0 < length l → unless_empty a l r ≡ r
  unfolding unless_empty
  some_path [] r h = absurd (omega arith)
  some_path (p ∷ l) r h = refl

  abbrev Moved : CustomController d → Result d → Type 0
  Moved s r = (t : Twist d) × (s' : CustomController d) × (r ≡ command t s') × Moves s t s'

  steer_to-Moved :
      (here target goal : P) (o o' : Option P) (s s1 : CustomController d)
      → o ≡ some target
      → o' ≡ some goal
      → s1.max_linear_speed ≡ s.max_linear_speed
      → get_elem? s1.poses (length s1.poses - 1) ≡ get_elem? s.poses (length s.poses - 1)
      → (k : ℕ) × (k < length s.poses) × (s1.poses ≡ drop k s.poses)
      → Moved s (steer_to a here o o' s1)
  unfolding steer_to steer
  steer_to-Moved here target goal o o' s s1 e e' speed same pruned = (
    _,
    _,
    ap (λ (x : Option P). steer_to a here x o' s1) e
        ∙ ap (λ (x : Option P). steer_to a here (some target) x s1) e',
    command-Moves _ _ _ s s1 speed same pruned,
  )

  -- With a plan that is not empty and a pose that can be transformed, a call returns a command: it
  -- either does not drive or does not turn; it only turns where the robot is then rotating, and else
  -- drives at the highest speed; a front part of the plan is pruned, never all of it, and the goal
  -- stays its last pose.
  pub compute_velocity_commands_lem :
      (transform : P → Option P) (pose here : P) (s : CustomController d)
      → 0 < length s.poses
      → transform pose ≡ some here
      → Moved s (compute_velocity_commands a transform pose s)
  unfolding compute_velocity_commands steer_from
  compute_velocity_commands_lem transform pose here s some_poses there =
      let (k, i, target, inside, left, le, at, made_for, last) =
        get_nearest_target_pose_lem d s.lookahead_dist here s.poses some_poses in
      let left_over = get_nearest_target_pose d s.lookahead_dist here s.poses in
      let (goal, at_end) = get_elem?_inside s.poses (length s.poses - 1) (omega arith) in
      let s1 : CustomController d = record s { poses = left_over.1 } in
      let (t, s', ran, moves) =
        steer_to-Moved here target goal (left_over.0)
          (get_elem? left_over.1 (length left_over.1 - 1)) s s1 made_for (last ∙ at_end) refl last
          (k, inside, left) in
      (
        t,
        s',
        some_path s.poses (steer_from a (transform pose) s) some_poses
            ∙ ap (λ (x : Option P). steer_from a x s) there
            ∙ ran,
        moves,
      )

  -- Away from the goal, where no difference is both at most 0.05 and at least 0.15: the robot is
  -- rotating next where the difference is at least 0.15, not rotating where it is at most 0.05, and
  -- else as before. At the goal it always is.
  pub next_rotating_lem :
      (rotating : Bool) (diff : d.R)
      → (d.at_least (a.hundredths 5) (a.abs diff) ≡ true
          → d.at_least (a.abs diff) (a.hundredths 15) ≡ false)
      → (d.at_least (a.abs diff) (a.hundredths 15) ≡ true
          → next_rotating a false rotating diff ≡ true)
        × (d.at_least (a.hundredths 5) (a.abs diff) ≡ true
            → next_rotating a false rotating diff ≡ false)
        × (d.at_least (a.abs diff) (a.hundredths 15) ≡ false
            → d.at_least (a.hundredths 5) (a.abs diff) ≡ false
            → next_rotating a false rotating diff ≡ rotating)
        × (next_rotating a true rotating diff ≡ true)
  unfolding next_rotating
  next_rotating_lem true diff apart = (
    (λ far. elim (Bool-cases (d.at_least (a.hundredths 5) (a.abs diff))) [
      | inl near ↦ let clash = sym far ∙ apart near in cc
      | inr away ↦ rw (next_rotating, away) refl
    ]),
    (λ near. rw (next_rotating, near) refl),
    (λ not_far away. rw (next_rotating, away) refl),
    refl,
  )
  next_rotating_lem false diff apart = (
    (λ far. rw (next_rotating, far) refl),
    (λ near. rw (next_rotating, apart near) refl),
    (λ not_far away. rw (next_rotating, not_far) refl),
    refl,
  )
