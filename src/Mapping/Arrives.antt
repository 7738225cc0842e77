-- ===== src/Mapping/Arrives.antt =====
-- Scans in order and samples of any time keep the scans and their times together.
use robot_nav.Prelude.{
  ◌+◌, ◌<◌, ◌≡◌, refl, ap, Bool, true, false, not, ◌&&◌, List, [], ◌∷◌, ◌++◌, length, length-append,
  arith, if◌then◌else◌,
}
use robot_nav.Livox.Fault.{done}
use robot_nav.Mapping.{
  Seconds, Imu, MeasureGroup, Buffers, max_plot, check_loop_back, self_sync, livox_scan,
  imu_time_of, livox_pcl_cbk, imu_cbk,
}
use robot_nav.Mapping.Paired.{IsPaired, IsFront}
use robot_nav.Mapping.Mispaired.{plotted_lem}

module _ (sec : Seconds) {P M : Type 0} where
  open sec use {R, lt}

  IsFront-append :
      (l l' : List (List P)) (times times' : List R) (m : MeasureGroup R P M)
      → IsFront sec l times m
      → IsFront sec (l ++ l') (times ++ times') m
  IsFront-append [] l' times times' m none_there = elim none_there [ ]
  IsFront-append (scan ∷ l) l' [] times' m none_there = elim none_there [ ]
  IsFront-append (scan ∷ l) l' (t ∷ times) times' m front = front

  -- A scan that is in order joins those that wait.
  pub lidar_buffer-livox_scan :
      (t : R) (scan : List P) (s : Buffers R P M)
      → (not s.is_first_lidar && lt t s.last_timestamp_lidar) ≡ false
      → (livox_scan sec t scan s).lidar_buffer ≡ s.lidar_buffer ++ (scan ∷ [])
  unfolding livox_scan check_loop_back self_sync
  lidar_buffer-livox_scan t scan s in_order =
      ap (λ (x : Bool). (if x then [] else s.lidar_buffer) ++ (scan ∷ [])) in_order

  pub livox_scan-IsPaired :
      (t : R) (scan : List P) (s : Buffers R P M) (m : MeasureGroup R P M)
      → IsPaired sec s m
      → (not s.is_first_lidar && lt t s.last_timestamp_lidar) ≡ false
      → IsPaired sec (livox_scan sec t scan s) m
  unfolding livox_scan check_loop_back self_sync
  livox_scan-IsPaired t scan s m v in_order =
      let kept = lidar_buffer-livox_scan t scan s in_order in
      record {
        same_length = omega (
          arith,
          v.same_length,
          ap length kept,
          length-append s.lidar_buffer (scan ∷ []),
          length-append s.time_buffer (t ∷ []),
        );
        front = λ pushed.
            rw kept
              (IsFront-append s.lidar_buffer (scan ∷ []) s.time_buffer (t ∷ []) m (v.front pushed));
        end_time = v.end_time;
      }

  imu_cbk-IsPaired :
      (msg : Imu R M) (s : Buffers R P M) (m : MeasureGroup R P M)
      → IsPaired sec s m
      → IsPaired sec (imu_cbk sec msg s) m
  unfolding imu_cbk
  imu_cbk-IsPaired msg s m v = record {
    same_length = v.same_length;
    front = v.front;
    end_time = v.end_time;
  }

  -- The scan and its time were put after those that wait.
  pub record IsStored (t : R) (scan : List P) (s s' : Buffers R P M) : Type 0 where
    pub scans : s'.lidar_buffer ≡ s.lidar_buffer ++ (scan ∷ [])
    pub times : s'.time_buffer ≡ s.time_buffer ++ (t ∷ [])
    pub last : s'.last_timestamp_lidar ≡ t

  -- A sample of a time was put after those that wait, or after none.
  pub record IsSampled (msg : Imu R M) (t : R) (s s' : Buffers R P M) : Type 0 where
    pub after :
        lt t s.last_timestamp_imu ≡ false
        → s'.imu_buffer ≡ s.imu_buffer ++ (record msg { stamp = t } ∷ [])
    pub before : lt t s.last_timestamp_imu ≡ true → s'.imu_buffer ≡ record msg { stamp = t } ∷ []
    pub last : s'.last_timestamp_imu ≡ t
    pub scans : s'.lidar_buffer ≡ s.lidar_buffer

  imu_cbk-IsSampled :
      (msg : Imu R M) (s : Buffers R P M)
      → IsSampled msg (imu_time_of sec msg.stamp s) s (imu_cbk sec msg s)
  unfolding imu_cbk
  imu_cbk-IsSampled msg s =
      let t = imu_time_of sec msg.stamp s in
      let stored =
        λ (b : Bool). (if b then [] else s.imu_buffer) ++ (record msg { stamp = t } ∷ []) in
      record { after = ap stored; before = ap stored; last = refl; scans = refl }

  -- With scans and their times together, and fewer than 719999 scans before: a custom message that is
  -- not older than the last scan, or is the first, is stored with no fault, its scan after the scans
  -- and its time after the times that wait. Any inertial message is stored with the time that it gets,
  -- after the samples that wait or, where that time is before the last sample's, in place of them, and
  -- its time is that of the last sample then. Both keep scans and times together.
  pub callbacks-IsPaired :
      (t : R) (scan : List P) (msg : Imu R M) (s : Buffers R P M) (m : MeasureGroup R P M)
      → IsPaired sec s m
      → (not s.is_first_lidar && lt t s.last_timestamp_lidar) ≡ false
      → s.scan_count + 1 < max_plot
      → ((s' : Buffers R P M) × (livox_pcl_cbk sec t scan s ≡ done s')
          × IsStored t scan s s'
          × IsPaired sec s' m)
        × IsSampled msg (imu_time_of sec msg.stamp s) s (imu_cbk sec msg s)
        × IsPaired sec (imu_cbk sec msg s) m
  unfolding livox_pcl_cbk livox_scan check_loop_back self_sync
  callbacks-IsPaired t scan msg s m v in_order few = (
    (
      livox_scan sec t scan s,
      plotted_lem sec (livox_scan sec t scan s) few,
      record { scans = lidar_buffer-livox_scan t scan s in_order; times = refl; last = refl },
      livox_scan-IsPaired t scan s m v in_order,
    ),
    imu_cbk-IsSampled msg s,
    imu_cbk-IsPaired msg s m v,
  )
