-- ===== src/Wheel.antt =====
-- luckrobot_ws/src/wheel_controller/src/nav_manager_node.cpp: the node that turns a mode into a goal of
-- Nav2 and announces the mode on arrival.
pub mod Trace
pub mod Modes
mod Tests
use Prim.Native.String.{String}
use robot_nav.Prelude.{
  ℕ, zero, suc, ◌+◌, Bool, true, false, Option, none, some, List, [], ◌∷◌, ◌++◌, if◌then◌else◌,
}
use robot_nav.Livox.Keys.{Key, to_string, key_eq}

-- A `double` literal of the source, in hundredths.
pub data Hundredths : Type 0 where
  plus : ℕ → Hundredths
  minus : ℕ → Hundredths

pub record Waypoint : Type 0 where
  pub x : Hundredths
  pub y : Hundredths
  pub yaw : Hundredths
  pub mode : ℕ

-- "模式" in UTF-8, and what follows it.
unfoldable pub mode_name : Key → Key
mode_name digits = 0xE6 ∷ 0xA8 ∷ 0xA1 ∷ 0xE5 ∷ 0xBC ∷ 0x8F ∷ digits

at_mode : ℕ → Hundredths → Hundredths → Hundredths → ℕ → Key × Waypoint
at_mode digit x y yaw mode =
    (mode_name (digit ∷ []), record { x = x; y = y; yaw = yaw; mode = mode })

unfoldable pub target_locations : List (Key × Waypoint)
unfolding at_mode
target_locations =
    at_mode b'0' (plus 0) (plus 0) (plus 0) 0
    ∷ at_mode b'1' (plus 200) (plus 200) (plus 0) 1
    ∷ at_mode b'2' (plus 300) (plus 300) (plus 300) 2
    ∷ at_mode b'3' (plus 500) (minus 200) (minus 157) 3
    ∷ at_mode b'4' (plus 500) (minus 300) (minus 157) 4
    ∷ at_mode b'5' (minus 400) (minus 400) (plus 314) 5
    ∷ at_mode b'6' (plus 150) (plus 420) (plus 157) 6
    ∷ at_mode b'7' (plus 320) (minus 150) (plus 0) 7
    ∷ at_mode b'8' (plus 610) (plus 50) (plus 157) 8
    ∷ at_mode b'9' (plus 610) (plus 250) (plus 157) 9
    ∷ []

-- `std::map::find`.
unfoldable pub find : Key → List (Key × Waypoint) → Option Waypoint
find k [] = none
find k ((j, w) ∷ l) = if key_eq j k then some w else find k l

unfoldable pub find_target : ℕ → Option Waypoint
unfolding find
find_target mode = find (mode_name (to_string mode)) target_locations

-- The operations on `double` of `yaw_to_quaternion`.
pub record Trig : Type 1 where
  pub R : Type 0
  pub of_literal : Hundredths → R
  pub half : R → R
  pub sin : R → R
  pub cos : R → R

-- `NavigateToPose::Goal`, without its stamp and the z of its position.
pub record Goal (R : Type 0) : Type 0 where
  pub frame_id : String
  pub x : R
  pub y : R
  pub qx : R
  pub qy : R
  pub qz : R
  pub qw : R

pub data ResultCode : Type 0 where
  unknown succeeded canceled aborted : ResultCode

-- The node, with the goals that it sent and the messages that it published, the last first. What it
-- publishes are whole numbers below 256, which are `double`s.
pub record NavManager (R : Type 0) : Type 0 where
  pub current_mode : ℕ
  pub sent : List (Goal R)
  pub published : List (List ℕ)

module _ (t : Trig) where
  open t use {R, of_literal, half, sin, cos}

  unfoldable pub goal_of : Waypoint → Goal R
  goal_of w =
      let yaw = of_literal w.yaw in
      record {
        frame_id = "map";
        x = of_literal w.x;
        y = of_literal w.y;
        qx = of_literal (plus 0);
        qy = of_literal (plus 0);
        qz = sin (half yaw);
        qw = cos (half yaw);
      }

  -- `server_ready` is what `wait_for_action_server` returns.
  unfoldable pub send_nav_goal : NavManager R → Bool → Waypoint → NavManager R
  unfolding goal_of
  send_nav_goal s server_ready w =
      if server_ready then record s { sent = goal_of w ∷ s.sent } else s

  unfoldable pub mode_callback : NavManager R → Bool → ℕ → NavManager R
  unfolding send_nav_goal
  mode_callback s server_ready mode = elim (find_target mode) [
    | none ↦ s
    | some w ↦ send_nav_goal (record s { current_mode = w.mode }) server_ready w
  ]

module _ {R : Type 0} where
  unfoldable pub result_callback : NavManager R → ResultCode → NavManager R
  result_callback s succeeded = record s {
    published = (0 ∷ 0 ∷ 0 ∷ s.current_mode ∷ []) ∷ s.published;
  }
  result_callback s aborted = s
  result_callback s canceled = s
  result_callback s unknown = s
