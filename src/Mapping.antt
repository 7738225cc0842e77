-- ===== src/Mapping.antt =====
-- mid360s_ws/src/FAST_LIO_ROS2/src/laserMapping.cpp, lines 283 to 435: the buffers of scans and inertial
-- samples. `publish_count`, which only counts, is left out. The mutex makes each function atomic.
pub mod Sync
pub mod Paired
pub mod Mispaired
pub mod Arrives
pub mod Receive
mod Tests
use robot_nav.Prelude.{
  ℕ, zero, suc, ◌+◌, Bool, true, false, not, ◌&&◌, List, [], ◌∷◌, ◌++◌, ltb, if◌then◌else◌,
}
use robot_nav.Livox.Fault.{Outcome, done, fault, out_of_bounds}

-- What the code asks of `double`, in which it keeps times in seconds. `tenths n` is the literal n / 10,
-- `restamped` what a time is once `get_ros_time` made a stamp of it and it was read back, and
-- `as_nanoseconds` what it is once `rclcpp::Time` took it for a whole number of nanoseconds and it was
-- read back. No law is assumed.
pub record Seconds : Type 1 where
  pub R : Type 0
  pub tenths : ℕ → R
  pub of_count : ℕ → R
  pub add : R → R → R
  pub sub : R → R → R
  pub mul : R → R → R
  pub div : R → R → R
  pub abs : R → R
  pub lt : R → R → Bool
  pub restamped : R → R
  pub as_nanoseconds : R → R

-- An inertial message: its stamp, and the rest of it.
pub record Imu (R M : Type 0) : Type 0 where
  pub stamp : R
  pub sample : M

pub record MeasureGroup (R P M : Type 0) : Type 0 where
  pub lidar_beg_time : R
  pub lidar_end_time : R
  pub lidar : List P
  pub imu : List (Imu R M)

-- The variables of the file, `time_sync_en` and `time_diff_lidar_to_imu` being parameters of the node.
pub record Buffers (R P M : Type 0) : Type 0 where
  pub time_sync_en : Bool
  pub time_diff_lidar_to_imu : R
  pub is_first_lidar : Bool
  pub scan_count : ℕ
  pub lidar_buffer : List (List P)
  pub time_buffer : List R
  pub imu_buffer : List (Imu R M)
  pub last_timestamp_lidar : R
  pub last_timestamp_imu : R
  pub timediff_set_flg : Bool
  pub timediff_lidar_wrt_imu : R
  pub lidar_pushed : Bool
  pub lidar_end_time : R
  pub lidar_mean_scantime : R
  pub scan_num : ℕ

-- `MAXN`, the size of the array `s_plot11`.
abbrev pub max_plot : ℕ
max_plot = 720000

unfoldable pub buffer_empty : {A : Type 0} → List A → Bool
buffer_empty [] = true
buffer_empty (x ∷ l) = false

module _ (sec : Seconds) {P M : Type 0} where
  open sec use {R, tenths, of_count, add, sub, mul, div, abs, lt, restamped, as_nanoseconds}

  -- A scan that is older than the last one clears the buffer of scans.
  unfoldable pub check_loop_back : R → Buffers R P M → Buffers R P M
  check_loop_back cur_time s = record s {
    lidar_buffer =
        if not s.is_first_lidar && lt cur_time s.last_timestamp_lidar then [] else s.lidar_buffer;
    is_first_lidar = false;
  }

  -- The write to `s_plot11`, which is not guarded.
  unfoldable pub plotted : Buffers R P M → Outcome (Buffers R P M)
  plotted s = if ltb s.scan_count max_plot then done s else fault out_of_bounds

  -- `scan` is what `Preprocess::process` makes of the message.
  unfoldable pub standard_pcl_cbk : R → List P → Buffers R P M → Outcome (Buffers R P M)
  unfolding check_loop_back plotted
  standard_pcl_cbk cur_time scan s =
      let s1 = check_loop_back cur_time (record s { scan_count = s.scan_count + 1 }) in
      plotted (record s1 {
        lidar_buffer = s1.lidar_buffer ++ (scan ∷ []);
        time_buffer = s1.time_buffer ++ (cur_time ∷ []);
        last_timestamp_lidar = cur_time;
      })

  -- The difference of the clocks, set once.
  unfoldable pub self_sync : Buffers R P M → Buffers R P M
  unfolding buffer_empty
  self_sync s =
      let far = lt (tenths 10) (abs (sub s.last_timestamp_lidar s.last_timestamp_imu)) in
      let unset =
        s.time_sync_en && not s.timediff_set_flg && far && not (buffer_empty s.imu_buffer) in
      record s {
        timediff_set_flg = if unset then true else s.timediff_set_flg;
        timediff_lidar_wrt_imu =
            if unset
            then sub (add s.last_timestamp_lidar (tenths 1)) s.last_timestamp_imu
            else s.timediff_lidar_wrt_imu;
      }

  -- The buffers with the scan of a custom message.
  unfoldable pub livox_scan : R → List P → Buffers R P M → Buffers R P M
  unfolding check_loop_back self_sync
  livox_scan cur_time scan s =
      let s1 = check_loop_back cur_time (record s { scan_count = s.scan_count + 1 }) in
      let s2 = self_sync (record s1 { last_timestamp_lidar = cur_time }) in
      record s2 {
        lidar_buffer = s2.lidar_buffer ++ (scan ∷ []);
        time_buffer = s2.time_buffer ++ (cur_time ∷ []);
      }

  unfoldable pub livox_pcl_cbk : R → List P → Buffers R P M → Outcome (Buffers R P M)
  unfolding livox_scan plotted
  livox_pcl_cbk cur_time scan s = plotted (livox_scan cur_time scan s)

  -- The time that a sample gets.
  unfoldable pub imu_time_of : R → Buffers R P M → R
  imu_time_of stamp s =
      if lt (tenths 1) (abs s.timediff_lidar_wrt_imu) && s.time_sync_en
      then as_nanoseconds (add s.timediff_lidar_wrt_imu stamp)
      else restamped (sub stamp s.time_diff_lidar_to_imu)

  unfoldable pub imu_cbk : Imu R M → Buffers R P M → Buffers R P M
  unfolding imu_time_of
  imu_cbk msg s =
      let timestamp = imu_time_of msg.stamp s in
      let kept = if lt timestamp s.last_timestamp_imu then [] else s.imu_buffer in
      record s {
        imu_buffer = kept ++ (record msg { stamp = timestamp } ∷ []);
        last_timestamp_imu = timestamp;
      }
