-- ===== src/Mapping/Sync.antt =====
-- laserMapping.cpp, lines 381 to 435: `sync_packages`, which makes a measurement of a scan and the samples
-- up to its end.
use robot_nav.Prelude.{◌+◌, Bool, true, false, ◌||◌, List, [], ◌∷◌, if◌then◌else◌}
use robot_nav.Livox.Fault.{Outcome, done, fault, out_of_bounds, ◌>>=◌}
use robot_nav.Mapping.{Seconds, Imu, MeasureGroup, Buffers, buffer_empty}

-- What `sync_packages` returns: its result, the buffers and the measurement.
abbrev pub Synced : Type 0 → Type 0 → Type 0 → Type 0
Synced R P M = Outcome (Bool × Buffers R P M × MeasureGroup R P M)

last_point : {P : Type 0} → P → List P → P
last_point p [] = p
last_point p (q ∷ l) = last_point q l

-- Of a deque.
unfoldable pub pop_front : {A : Type 0} → List A → Outcome (List A)
pop_front [] = fault out_of_bounds
pop_front (x ∷ l) = done l

module _ (sec : Seconds) {P M : Type 0} (curvature : P → sec.R) where
  open sec use {R, tenths, of_count, add, sub, mul, div, lt}

  -- Where the scan ends, by the mean time of a scan.
  by_mean : R → Buffers R P M → Buffers R P M
  by_mean beg_time s = record s { lidar_end_time = add beg_time s.lidar_mean_scantime }

  -- By the time of its last point, in milliseconds, which goes into the mean.
  by_last : R → R → Buffers R P M → Buffers R P M
  by_last beg_time span s = record s {
    scan_num = s.scan_num + 1;
    lidar_end_time = add beg_time span;
    lidar_mean_scantime =
        add s.lidar_mean_scantime
          (div (sub span s.lidar_mean_scantime) (of_count (s.scan_num + 1)));
  }

  unfoldable pub end_of_scan : R → List P → Buffers R P M → Buffers R P M
  unfolding by_mean by_last last_point
  end_of_scan beg_time [] s = by_mean beg_time s
  end_of_scan beg_time (p ∷ []) s = by_mean beg_time s
  end_of_scan beg_time (p ∷ q ∷ l) s =
      let span = div (curvature (last_point q l)) (tenths 10000) in
      if lt span (mul (tenths 5) s.lidar_mean_scantime)
      then by_mean beg_time s
      else by_last beg_time span s

  -- The next scan goes into the measurement; reading a front that is not there is a fault.
  unfoldable pub push_scan :
      List (List P)
      → List R
      → Buffers R P M
      → MeasureGroup R P M
      → Outcome (Buffers R P M × MeasureGroup R P M)
  unfolding end_of_scan
  push_scan [] times s meas = fault out_of_bounds
  push_scan (scan ∷ l) [] s meas = fault out_of_bounds
  push_scan (scan ∷ l) (beg_time ∷ times) s meas =
      let s' = end_of_scan beg_time scan s in
      done (
        record s' { lidar_pushed = true },
        record meas { lidar = scan; lidar_beg_time = beg_time; lidar_end_time = s'.lidar_end_time },
      )

  -- The loop that takes samples up to the end of the scan: those taken, and those left.
  unfoldable pub take_imu : R → R → List (Imu R M) → List (Imu R M) × List (Imu R M)
  take_imu end_time imu_time [] = ([], [])
  take_imu end_time imu_time (msg ∷ l) =
      let (taken, left) = take_imu end_time msg.stamp l in
      if lt imu_time end_time
      then (if lt end_time msg.stamp then ([], msg ∷ l) else (msg ∷ taken, left))
      else ([], msg ∷ l)

  unfoldable pub front_time : R → List (Imu R M) → R
  front_time t [] = t
  front_time t (msg ∷ l) = msg.stamp

  -- The samples of the measurement, and the scan taken out of the buffers.
  unfoldable pub finish : Buffers R P M → MeasureGroup R P M → Synced R P M
  unfolding take_imu front_time pop_front
  finish s meas = if lt s.last_timestamp_imu s.lidar_end_time then done (false, s, meas) else (do
    let (taken, left) =
        take_imu s.lidar_end_time (front_time s.lidar_end_time s.imu_buffer) s.imu_buffer
    scans ← pop_front s.lidar_buffer
    times ← pop_front s.time_buffer
    done (
      true,
      record s {
        imu_buffer = left;
        lidar_buffer = scans;
        time_buffer = times;
        lidar_pushed = false;
      },
      record meas { imu = taken },
    ))

  unfoldable pub push_if_needed : Bool → Buffers R P M → MeasureGroup R P M → Synced R P M
  unfolding push_scan finish
  push_if_needed true s meas = finish s meas
  push_if_needed false s meas = do
    (s', meas') ← push_scan s.lidar_buffer s.time_buffer s meas
    finish s' meas'

  unfoldable pub sync_packages : Buffers R P M → MeasureGroup R P M → Synced R P M
  unfolding push_if_needed buffer_empty
  sync_packages s meas =
      if buffer_empty s.lidar_buffer || buffer_empty s.imu_buffer
      then done (false, s, meas)
      else push_if_needed s.lidar_pushed s meas
