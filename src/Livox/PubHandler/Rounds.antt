-- ===== src/Livox/PubHandler/Rounds.antt =====
-- The timer and the rounds of the thread: no fault, and no point lost.
use robot_nav.Prelude.{
  ℕ, ◌+◌, ◌≤◌, ◌<◌, ◌≡◌, refl, ap, ◌∙◌, inl, inr, Bool, true, false, some, List, [], ◌∷◌, arith,
  length, All, ◌==◌, ltb, if◌then◌else◌, Bool-cases,
}
use robot_nav.Livox.Fault.{Outcome, done}
use robot_nav.Livox.CacheIndex.{max_source_lidar}
use robot_nav.Livox.Points.{LidarPubHandler}
use robot_nav.Livox.PubHandler.{PubHandler, find_id}
use robot_nav.Livox.PubHandler.Ids.{IsSorted, find_id-IsSorted}
use robot_nav.Livox.PubHandler.Frame.{pending, held, IsOpen, Added, add_to_frame_lem}
use robot_nav.Livox.PubHandler.Timer.{
  Ran, publish_frame, is_due, check_synced, add_all, collect_frame, check_unsynced, check_timer,
}
use robot_nav.Livox.PubHandler.Publish.{
  IsValid, Checked, Checked-by, frame_empty, publish_frame_lem, publish_one_lem, quiet,
}

module _ {F : Type 0} where
  -- What adding several devices gives.
  record Collected (n : ℕ) (s s' : PubHandler F) : Type 0 where
    opened : IsOpen s'
    num : s'.frame.lidar_num ≤ s.frame.lidar_num + n
    same : (j : ℕ) → held j s' ≡ held j s
    callback : s'.points_callback ≡ s.points_callback
    interval : s'.publish_interval_ms ≡ s.publish_interval_ms

  abbrev AreThere : PubHandler F → List (ℕ × LidarPubHandler F) → Type 0
  AreThere s l =
      All (λ (e : ℕ × LidarPubHandler F). find_id s.lidar_process_handlers (e.0) ≡ some (e.1)) l

  still_there :
      {id : ℕ} {h : LidarPubHandler F} {s s' : PubHandler F}
      → Added id h s s'
      → (l : List (ℕ × LidarPubHandler F)) → All (λ (e : ℕ × LidarPubHandler F). id < e.0) l
      → AreThere s l
      → AreThere s' l
  still_there a [] above all = tt
  still_there a (e ∷ l) (up, above) (found, all) =
      (a.others (e.0) (omega arith) ∙ found, still_there a l above all)

  add_all_lem :
      (l : List (ℕ × LidarPubHandler F)) (s : PubHandler F)
      → IsOpen s
      → s.frame.lidar_num + length l ≤ max_source_lidar
      → IsSorted l
      → AreThere s l
      → (s' : PubHandler F) × (add_all l s ≡ done s') × Collected (length l) s s'
  unfolding add_all
  add_all_lem [] s v room sorted there = (
    s,
    refl,
    record { opened = v; num = omega arith; same = λ j. refl; callback = refl; interval = refl },
  )
  add_all_lem ((id, h) ∷ l) s v room (above, sorted) (found, there) =
      let (b, s1, ran1, a, stays) = add_to_frame_lem id h s v (omega arith) found in
      let (s2, ran2, c) =
        add_all_lem l s1 a.opened (omega (arith, a.num)) sorted (still_there a l above there) in
      (
        s2,
        rw (ran1, add_all) ran2,
        record {
          opened = c.opened;
          num = omega (arith, c.num, a.num);
          same = λ j. c.same j ∙ a.same j;
          callback = c.callback ∙ a.callback;
          interval = c.interval ∙ a.interval;
        },
      )

  check_synced_lem :
      (id : ℕ) (h : LidarPubHandler F) (s : PubHandler F)
      → IsValid s
      → s.points_callback ≡ true
      → find_id s.lidar_process_handlers id ≡ some h
      → (out : Ran F) × (check_synced id s ≡ done out) × Checked (λ j. pending j s) out
  unfolding check_synced
  check_synced_lem id h s v cb found =
      let some_interval : (s.publish_interval_ms == 0) ≡ false = ground (arith, v.interval) in
      elim (Bool-cases (is_due s h)) [
        | inl due ↦
            let (out, ran, c) = publish_one_lem id h s v cb found in
            (out, rw (found, some_interval, due, check_synced) ran, c)
        | inr waits ↦ (([], s), rw (found, some_interval, waits, check_synced) refl, quiet s v cb)
      ]

  -- The time of the last frame plays no part.
  IsOpen-of_same :
      {s s' : PubHandler F}
      → IsOpen s
      → s'.frame ≡ s.frame
      → s'.lidar_process_handlers ≡ s.lidar_process_handlers
      → IsOpen s'
  IsOpen-of_same v f h = record {
    base_times = rw f v.base_times;
    packets = rw f v.packets;
    whole = rw f v.whole;
    sorted = rw h v.sorted;
    few = rw h v.few;
  }

  collect_frame_lem :
      (s : PubHandler F)
      → IsValid s
      → s.points_callback ≡ true
      → (out : Ran F) × (collect_frame s ≡ done out) × Checked (λ j. pending j s) out
  unfolding collect_frame pending
  collect_frame_lem s v cb =
      let s0 = record s { last_pub_time = s.last_pub_time + s.publish_interval } in
      let l = s.lidar_process_handlers in
      let sorted = v.opened.sorted in
      let (s1, ran, c) =
        add_all_lem l s0 (IsOpen-of_same v.opened refl refl)
          (omega (arith, v.empty_frame, v.opened.few)) sorted (find_id-IsSorted l sorted) in
      (
        publish_frame s1,
        rw (ran, collect_frame) refl,
        Checked-by (λ j. c.same j ∙ frame_empty s0 v.empty_frame j)
            (publish_frame_lem s1 c.opened (omega (arith, c.num, v.empty_frame, v.opened.few))
              (c.callback ∙ cb) (omega (arith, c.interval, v.interval))),
      )

  -- The clock is first read.
  started : ℕ → PubHandler F → PubHandler F
  started now s = record s { last_pub_time = now; first = false }

  started_quiet :
      (now : ℕ) (s : PubHandler F)
      → IsValid s
      → s.points_callback ≡ true
      → Checked (λ j. pending j s) ([], started now s)
  unfolding started pending
  started_quiet now s v cb =
      let v' : IsValid (started now s) = record {
        opened = IsOpen-of_same v.opened refl refl;
        empty_frame = v.empty_frame;
        interval = v.interval;
      } in
      Checked-by (λ j. refl) (quiet (started now s) v' cb)

  check_unsynced_lem :
      (now : ℕ) (s : PubHandler F)
      → IsValid s
      → s.points_callback ≡ true
      → (out : Ran F) × (check_unsynced now s ≡ done out) × Checked (λ j. pending j s) out
  unfolding check_unsynced started
  check_unsynced_lem now s v cb =
      let early = ltb now (s.last_pub_time + s.publish_interval) in
      let start : Outcome (Ran F) = done ([], started now s) in
      let wait : Outcome (Ran F) = done ([], s) in
      let first_choice =
        λ (b : Bool). if b then start else if early then wait else collect_frame s in
      let next_choice = λ (b : Bool). if b then wait else collect_frame s in
      elim (Bool-cases s.first) [
        | inl e ↦ (([], started now s), ap first_choice e, started_quiet now s v cb)
        | inr n ↦ elim (Bool-cases early) [
          | inl e ↦ (([], s), ap first_choice n ∙ ap next_choice e, quiet s v cb)
          | inr n' ↦
              let (out, ran, c) = collect_frame_lem s v cb in
              (out, ap first_choice n ∙ ap next_choice n' ∙ ran, c)
        ]
      ]

  -- One call of the timer: with the device there, the points callback set and a valid state there is no
  -- fault.
  pub check_timer_lem :
      (now id : ℕ) (h : LidarPubHandler F) (s : PubHandler F)
      → IsValid s
      → s.points_callback ≡ true
      → find_id s.lidar_process_handlers id ≡ some h
      → (out : Ran F) × (check_timer now id s ≡ done out) × Checked (λ j. pending j s) out
  unfolding check_timer
  check_timer_lem now id h s v cb found =
      let choose = λ (b : Bool). if b then check_synced id s else check_unsynced now s in
      elim (Bool-cases s.is_timestamp_sync) [
        | inl synced ↦
            let (out, ran, c) = check_synced_lem id h s v cb found in
            (out, ap choose synced ∙ ran, c)
        | inr free ↦
            let (out, ran, c) = check_unsynced_lem now s v cb in (out, ap choose free ∙ ran, c)
      ]
