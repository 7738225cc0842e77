-- ===== src/Mapping/Tests.antt =====
-- Scans and samples at whole numbers of tenths.
use robot_nav.Prelude.{ℕ, ◌+◌, ◌-◌, ◌*◌, ◌≡◌, refl, Bool, true, false, [], ◌∷◌, arith, ltb}
use robot_nav.Livox.Fault.{done}
use robot_nav.Mapping.{Seconds, Imu, MeasureGroup, Buffers, livox_pcl_cbk, imu_time_of, imu_cbk}
use robot_nav.Mapping.Sync.{sync_packages}
use robot_nav.Mapping.Paired.{IsPaired, Outcomes, sync_packages_lem}
use robot_nav.Mapping.Arrives.{IsStored, IsSampled, callbacks-IsPaired}
use robot_nav.Mapping.Mispaired.{LoopedBack, livox_pcl_cbk_looped}

abbrev tenths_of : Seconds
tenths_of = record {
  R = ℕ;
  tenths = λ n. n;
  of_count = λ n. n;
  add = λ a b. a + b;
  sub = λ a b. a - b;
  mul = λ a b. a * b;
  div = λ a b. a;
  abs = λ a. a;
  lt = ltb;
  restamped = λ a. a;
  as_nanoseconds = λ a. 0;
}

abbrev sample_at : ℕ → Imu ℕ ℕ
sample_at t = record { stamp = t; sample = 0 }

abbrev waiting : Buffers ℕ ℕ ℕ
waiting = record {
  time_sync_en = false;
  time_diff_lidar_to_imu = 0;
  is_first_lidar = false;
  scan_count = 2;
  lidar_buffer = (3 ∷ 4 ∷ []) ∷ (3 ∷ 5 ∷ []) ∷ [];
  time_buffer = 10 ∷ 11 ∷ [];
  imu_buffer = sample_at 11 ∷ sample_at 13 ∷ sample_at 20 ∷ [];
  last_timestamp_lidar = 11;
  last_timestamp_imu = 20;
  timediff_set_flg = false;
  timediff_lidar_wrt_imu = 0;
  lidar_pushed = false;
  lidar_end_time = 0;
  lidar_mean_scantime = 0;
  scan_num = 0;
}

abbrev none_yet : MeasureGroup ℕ ℕ ℕ
none_yet = record { lidar_beg_time = 0; lidar_end_time = 0; lidar = []; imu = [] }

waiting-IsPaired : IsPaired tenths_of waiting none_yet
waiting-IsPaired = record {
  same_length = refl;
  front = λ e. let clash : false ≡ true = e in cc;
  end_time = λ e. let clash : false ≡ true = e in cc;
}

sync_packages_lem_example :
    (b : Bool) × (s' : Buffers ℕ ℕ ℕ) × (m' : MeasureGroup ℕ ℕ ℕ) × (sync_packages tenths_of
        (λ p. p)
        waiting
        none_yet
      ≡ done (b, s', m'))
    × IsPaired tenths_of s' m'
    × Outcomes tenths_of b waiting s' m'
sync_packages_lem_example = sync_packages_lem tenths_of (λ p. p) waiting none_yet waiting-IsPaired

livox_pcl_cbk_looped_example :
    (s' : Buffers ℕ ℕ ℕ) × (livox_pcl_cbk tenths_of 5 (1 ∷ 2 ∷ []) waiting ≡ done s')
    × LoopedBack tenths_of 10 5 (11 ∷ []) (1 ∷ 2 ∷ []) s'
livox_pcl_cbk_looped_example =
    livox_pcl_cbk_looped tenths_of 10 5 (11 ∷ []) (1 ∷ 2 ∷ []) waiting refl refl refl (omega arith)

callbacks-IsPaired_example :
    ((s' : Buffers ℕ ℕ ℕ) × (livox_pcl_cbk tenths_of 12 (1 ∷ 2 ∷ []) waiting ≡ done s')
      × IsStored tenths_of 12 (1 ∷ 2 ∷ []) waiting s'
      × IsPaired tenths_of s' none_yet)
    × IsSampled tenths_of
        (sample_at 9)
        (imu_time_of tenths_of 9 waiting)
        waiting
        (imu_cbk tenths_of (sample_at 9) waiting)
    × IsPaired tenths_of (imu_cbk tenths_of (sample_at 9) waiting) none_yet
callbacks-IsPaired_example =
    callbacks-IsPaired tenths_of 12 (1 ∷ 2 ∷ []) (sample_at 9) waiting none_yet waiting-IsPaired
      refl (omega arith)
