-- ===== src/Wheel/Trace.antt =====
-- The node over time: messages come in and results come back in any order.
use robot_nav.Prelude.{
  ℕ, ◌<◌, ◌≤◌, ◌≡◌, ◌⊎◌, inl, inr, refl, Bool, true, false, none, some, List, [], ◌∷◌, arith, All,
  Option-cases, if◌then◌else◌, ◌∙◌, Bool-cases,
}
use native.Mathlib.Decide.{dec_lt}
use robot_nav.Wheel.{
  Waypoint, Trig, Goal, goal_of, NavManager, find_target, mode_callback, send_nav_goal, ResultCode,
  succeeded, aborted, canceled, unknown, result_callback,
}
use robot_nav.Wheel.Modes.{find_target-mode, find_target-IsKnown}

module _ (t : Trig) where
  open t use {R}

  -- A command on `/cmd_mode`, or the result of a goal; that the goal was sent before is not asked.
  pub data Step (s : NavManager R) : NavManager R → Type 0 where
    command : (server_ready : Bool) (mode : ℕ) → Step s (mode_callback t s server_ready mode)
    result : (code : ResultCode) → Step s (result_callback s code)

  abbrev pub start : NavManager R
  start = record { current_mode = 0; sent = []; published = [] }

  pub data Reachable : NavManager R → Type 0 where
    begin : Reachable start
    next : {s s' : NavManager R} → Reachable s → Step s s' → Reachable s'

  abbrev pub IsRow : Goal R → Type 0
  IsRow g = (mode : ℕ) × (w : Waypoint) × (find_target mode ≡ some w) × (g ≡ goal_of t w)

  abbrev pub IsAnnounced : List ℕ → Type 0
  IsAnnounced msg = (mode : ℕ) × (mode < 10) × (msg ≡ 0 ∷ 0 ∷ 0 ∷ mode ∷ [])

  pub record IsValid (s : NavManager R) : Type 0 where
    pub current : s.current_mode < 10
    pub goals : All IsRow s.sent
    pub messages : All IsAnnounced s.published

  start-IsValid : IsValid start
  start-IsValid = record { current = omega arith; goals = tt; messages = tt }

  unknown_large : (mode : ℕ) → find_target mode ≡ none → 10 ≤ mode
  unknown_large mode e = elim (dec_lt mode 10) [
    | yes small ↦ let (w, e') = find_target-IsKnown mode small in cc
    | no large ↦ omega arith
  ]

  module _ (s : NavManager R) (server_ready : Bool) (w : Waypoint) where
    abbrev after : NavManager R
    after = send_nav_goal t (record s { current_mode = w.mode }) server_ready w

    sent_mode : after.current_mode ≡ w.mode
    unfolding send_nav_goal
    sent_mode = elim (Bool-cases server_ready) [ inl e ↦ rw e | inr e ↦ rw e ]

    sent_published : after.published ≡ s.published
    unfolding send_nav_goal
    sent_published = elim (Bool-cases server_ready) [ inl e ↦ rw e | inr e ↦ rw e ]

    sent_goals : after.sent ≡ (if server_ready then goal_of t w ∷ s.sent else s.sent)
    unfolding send_nav_goal
    sent_goals = elim (Bool-cases server_ready) [ inl e ↦ rw e | inr e ↦ rw e ]

  -- What a command does: nothing for a mode of 10 and above; else it becomes the current mode, and
  -- just where the server is ready the goal of its waypoint is sent; it publishes nothing.
  pub mode_callback_lem :
      (s : NavManager R) (server_ready : Bool) (mode : ℕ)
      → let s' = mode_callback t s server_ready mode in
        ((10 ≤ mode) × (s' ≡ s))
        ⊎ ((mode < 10)
            × (s'.current_mode ≡ mode)
            × (s'.published ≡ s.published)
            × ((w : Waypoint) × (find_target mode ≡ some w)
                × (w.mode ≡ mode)
                × (s'.sent ≡ (if server_ready then goal_of t w ∷ s.sent else s.sent))))
  unfolding mode_callback send_nav_goal
  mode_callback_lem s server_ready mode = elim (Option-cases (find_target mode)) [
    | inl e ↦ inl (unknown_large mode e, rw (e, mode_callback) refl)
    | inr (w, e) ↦
        let (same, small) = find_target-mode mode e in
        inr (
          small,
          rw (e, mode_callback) (sent_mode s server_ready w ∙ same),
          rw (e, mode_callback) (sent_published s server_ready w),
          (w, e, same, rw (e, mode_callback) (sent_goals s server_ready w)),
        )
  ]

  IsRow-added :
      (s : NavManager R) (server_ready : Bool) (mode : ℕ) (w : Waypoint)
      → find_target mode ≡ some w
      → IsValid s
      → All IsRow (if server_ready then goal_of t w ∷ s.sent else s.sent)
  IsRow-added s true mode w e v = ((_, w, e, refl), v.goals)
  IsRow-added s false mode w e v = v.goals

  command-IsValid :
      {s : NavManager R} (server_ready : Bool) (mode : ℕ)
      → IsValid s
      → IsValid (mode_callback t s server_ready mode)
  command-IsValid {s} server_ready mode v = elim (mode_callback_lem s server_ready mode) [
    | inl (large, same) ↦ rw same v
    | inr (small, current, quiet, (w, e, same, goals)) ↦ record {
      current = rw current small;
      goals = rw goals (IsRow-added s server_ready mode w e v);
      messages = rw quiet v.messages;
    }
  ]

  Step-IsValid : {s s' : NavManager R} → IsValid s → Step s s' → IsValid s'
  unfolding result_callback
  Step-IsValid v (command server_ready mode) = command-IsValid server_ready mode v
  Step-IsValid v (result succeeded) = record {
    current = v.current;
    goals = v.goals;
    messages = ((_, v.current, refl), v.messages);
  }
  Step-IsValid v (result aborted) = v
  Step-IsValid v (result canceled) = v
  Step-IsValid v (result unknown) = v

  -- Whatever the order of commands and results, the current mode is below 10, every goal sent is that
  -- of a waypoint of the table, and every message is three zeros and a mode below 10.
  pub Reachable-IsValid : {s : NavManager R} → Reachable s → IsValid s
  Reachable-IsValid begin = start-IsValid
  Reachable-IsValid (next r step) = Step-IsValid (Reachable-IsValid r) step

  -- The mode that is announced is that of the last known command and not that of the goal that was
  -- reached: after a command for mode `a` with the server ready and one for mode `b` without it, both
  -- below 10, no goal is sent for `b`, yet on the success of the goal for `a` the node announces `b`.
  pub announces_last_command :
      (s : NavManager R) (a b : ℕ)
      → a < 10
      → b < 10
      → let s' = mode_callback t (mode_callback t s true a) false b in
        (s'.sent ≡ (mode_callback t s true a).sent)
        × ((result_callback s' succeeded).published ≡ (0 ∷ 0 ∷ 0 ∷ b ∷ []) ∷ s.published)
  unfolding result_callback
  announces_last_command s a b small small' = elim (mode_callback_lem s true a) [
    | inl (large, same) ↦ absurd (omega arith)
    | inr (first, current, quiet, goal) ↦
        elim (mode_callback_lem (mode_callback t s true a) false b) [
          | inl (large, same) ↦ absurd (omega arith)
          | inr (second, current', quiet', (w, e, mode, goals)) ↦
              (goals, rw (current', quiet', quiet) refl)
        ]
  ]
