-- ===== src/Wheel/Tests.antt =====
-- The node at concrete commands. Numbers stand for themselves, and sine and cosine are not computed.
use robot_nav.Prelude.{◌≡◌, refl, true, false, some, none, [], ◌∷◌, arith}
use robot_nav.Livox.Keys.{to_string, digits_from, key_eq}
use robot_nav.Wheel.{
  Hundredths, plus, minus, Trig, NavManager, find, find_target, target_locations, mode_name,
  mode_callback, succeeded, result_callback,
}
use robot_nav.Wheel.Trace.{
  start, begin, next, command, result, IsValid, Reachable-IsValid, announces_last_command,
}

abbrev literals : Trig
literals = record { R = Hundredths; of_literal = λ h. h; half = λ h. h; sin = λ h. h; cos = λ h. h }

abbrev idle : NavManager Hundredths
idle = start literals

abbrev arrived : NavManager Hundredths
arrived = result_callback (mode_callback literals idle true 3) succeeded

Reachable-IsValid_example : IsValid literals arrived
Reachable-IsValid_example =
    Reachable-IsValid literals (next (next begin (command true 3)) (result succeeded))

announces_last_command_example :
    let s' = mode_callback literals (mode_callback literals idle true 3) false 5 in
    (s'.sent ≡ (mode_callback literals idle true 3).sent)
    × ((result_callback s' succeeded).published ≡ (0 ∷ 0 ∷ 0 ∷ 5 ∷ []) ∷ [])
announces_last_command_example =
    announces_last_command literals idle 3 5 (omega arith) (omega arith)

fifth_waypoint :
    find_target 5 ≡ some (record { x = minus 400; y = minus 400; yaw = plus 314; mode = 5 })
unfolding find_target find target_locations mode_name to_string digits_from key_eq
fifth_waypoint = refl

no_waypoint : find_target 15 ≡ none
unfolding find_target find target_locations mode_name to_string digits_from key_eq
no_waypoint = refl
