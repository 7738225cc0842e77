-- ===== src/Mapping/Paired.antt =====
-- A measurement has the first scan, its time, and the samples up to its end.
use robot_nav.Prelude.{
  ◌≡◌, refl, sym, ap, ◌∙◌, inl, inr, Bool, true, false, ◌||◌, List, [], ◌∷◌, ◌++◌, arith, length,
  All, Bool-cases, if◌then◌else◌,
}
use robot_nav.Livox.Fault.{done}
use robot_nav.Mapping.{Seconds, Imu, MeasureGroup, Buffers, buffer_empty}
use robot_nav.Mapping.Sync.{
  Synced, end_of_scan, push_scan, take_imu, front_time, finish, push_if_needed, sync_packages,
  pop_front,
}

first_false : (a b : Bool) → (a || b) ≡ false → a ≡ false
first_false true b e = cc
first_false false b e = refl

module _ (sec : Seconds) {P M : Type 0} where
  open sec use {R, lt}

  -- The first scan, if the buffers are not empty, is that of the measurement under way.
  abbrev pub IsFront : List (List P) → List R → MeasureGroup R P M → Type 0
  IsFront (scan ∷ l) (t ∷ times) m = (m.lidar ≡ scan) × (m.lidar_beg_time ≡ t)
  IsFront [] times m = ⊥
  IsFront (scan ∷ l) [] m = ⊥

  -- There are as many times as scans, and a scan that was pushed is that of the measurement.
  pub record IsPaired (s : Buffers R P M) (m : MeasureGroup R P M) : Type 0 where
    pub same_length : length s.lidar_buffer ≡ length s.time_buffer
    pub front : s.lidar_pushed ≡ true → IsFront s.lidar_buffer s.time_buffer m
    pub end_time : s.lidar_pushed ≡ true → m.lidar_end_time ≡ s.lidar_end_time

  -- What is taken out of the buffers, and what is not after the end of the scan.
  pub record IsTaken (s s' : Buffers R P M) (m : MeasureGroup R P M) : Type 0 where
    pub scan : s.lidar_buffer ≡ m.lidar ∷ s'.lidar_buffer
    pub time : s.time_buffer ≡ m.lidar_beg_time ∷ s'.time_buffer
    pub samples : s.imu_buffer ≡ m.imu ++ s'.imu_buffer
    pub in_scan : All (λ (i : Imu R M). lt m.lidar_end_time i.stamp ≡ false) m.imu

  pub record IsLeft (s s' : Buffers R P M) : Type 0 where
    pub scans : s'.lidar_buffer ≡ s.lidar_buffer
    pub times : s'.time_buffer ≡ s.time_buffer
    pub samples : s'.imu_buffer ≡ s.imu_buffer

  abbrev pub Outcomes : Bool → Buffers R P M → Buffers R P M → MeasureGroup R P M → Type 0
  Outcomes true s s' m = IsTaken s s' m
  Outcomes false s s' m = IsLeft s s'

  both_fronts :
      (l : List (List P)) (times : List R) (m : MeasureGroup R P M)
      → IsFront l times m
      → (rest : List (List P)) × (later : List R) × (l ≡ m.lidar ∷ rest)
        × (times ≡ m.lidar_beg_time ∷ later)
  both_fronts [] times m none_there = elim none_there [ ]
  both_fronts (scan ∷ l) [] m none_there = elim none_there [ ]
  both_fronts (scan ∷ l) (t ∷ times) m (same, same_time) =
      (l, times, ap (λ (x : List P). x ∷ l) (sym same), ap (λ (x : R). x ∷ times) (sym same_time))

module _ (sec : Seconds) {P M : Type 0} (curvature : P → sec.R) where
  open sec use {R, lt}

  take_imu_lem :
      (end_time t : R) (l : List (Imu R M))
      → (l ≡ (take_imu sec curvature end_time t l).0 ++ (take_imu sec curvature end_time t l).1)
        × All (λ (i : Imu R M). lt end_time i.stamp ≡ false) (take_imu sec curvature end_time t l).0
  unfolding take_imu
  take_imu_lem end_time t [] = (refl, tt)
  take_imu_lem end_time t (msg ∷ l) = elim (Bool-cases (lt t end_time)) [
    | inr late ↦ rw (late, take_imu) (refl, tt)
    | inl early ↦ elim (Bool-cases (lt end_time msg.stamp)) [
      | inl after ↦ rw (early, after, take_imu) (refl, tt)
      | inr inside ↦
          let (joined, all) = take_imu_lem end_time msg.stamp l in
          rw (early, inside, take_imu) (ap (λ (x : List (Imu R M)). msg ∷ x) joined, (inside, all))
    ]
  ]

  abbrev Returns : Buffers R P M → Synced R P M → Type 0
  Returns s r =
      (b : Bool) × (s' : Buffers R P M) × (m' : MeasureGroup R P M) × (r ≡ done (b, s', m'))
      × IsPaired sec s' m'
      × Outcomes sec b s s' m'

  finish_lem :
      (s : Buffers R P M) (m : MeasureGroup R P M)
      → IsPaired sec s m
      → s.lidar_pushed ≡ true
      → Returns s (finish sec curvature s m)
  unfolding finish pop_front
  finish_lem s m v pushed = elim (Bool-cases (lt s.last_timestamp_imu s.lidar_end_time)) [
    | inl early ↦ (
      false,
      s,
      m,
      rw (early, finish) refl,
      v,
      record { scans = refl; times = refl; samples = refl },
    )
    | inr enough ↦
        let (scans, times, scan_eq, time_eq) =
          both_fronts sec s.lidar_buffer s.time_buffer m (v.front pushed) in
        let popped : pop_front s.lidar_buffer ≡ done scans =
          ap (λ (l : List (List P)). pop_front l) scan_eq in
        let popped' : pop_front s.time_buffer ≡ done times =
          ap (λ (l : List R). pop_front l) time_eq in
        let first = front_time sec curvature s.lidar_end_time s.imu_buffer in
        let taken = take_imu sec curvature s.lidar_end_time first s.imu_buffer in
        let (joined, inside) = take_imu_lem s.lidar_end_time first s.imu_buffer in
        (
          true,
          record s {
            imu_buffer = taken.1;
            lidar_buffer = scans;
            time_buffer = times;
            lidar_pushed = false;
          },
          record m { imu = taken.0 },
          rw (enough, popped, popped', finish) refl,
          record {
            same_length = omega (arith, v.same_length, ap length scan_eq, ap length time_eq);
            front = λ e. let clash : false ≡ true = e in cc;
            end_time = λ e. let clash : false ≡ true = e in cc;
          },
          record {
            scan = scan_eq;
            time = time_eq;
            samples = joined;
            in_scan = rw (v.end_time pushed) inside;
          },
        )
  ]

  end_of_scan-buffers :
      (t : R) (scan : List P) (s : Buffers R P M)
      → ((end_of_scan sec curvature t scan s).lidar_buffer ≡ s.lidar_buffer)
        × ((end_of_scan sec curvature t scan s).time_buffer ≡ s.time_buffer)
        × ((end_of_scan sec curvature t scan s).imu_buffer ≡ s.imu_buffer)
  unfolding end_of_scan
  end_of_scan-buffers t [] s = (refl, refl, refl)
  end_of_scan-buffers t (p ∷ []) s = (refl, refl, refl)
  end_of_scan-buffers t (p ∷ q ∷ l) s = ground arith

  -- The state after a push, when there is a scan and a time.
  push_scan_lem :
      (l : List (List P)) (times : List R) (s : Buffers R P M) (m : MeasureGroup R P M)
      → length l ≡ length times
      → buffer_empty l ≡ false
      → (s' : Buffers R P M) × (m' : MeasureGroup R P M) × (push_scan sec curvature l times s m
          ≡ done (s', m'))
        × (s'.lidar_pushed ≡ true)
        × IsFront sec l times m'
        × (m'.lidar_end_time ≡ s'.lidar_end_time)
        × (s'.lidar_buffer ≡ s.lidar_buffer)
        × (s'.time_buffer ≡ s.time_buffer)
        × (s'.imu_buffer ≡ s.imu_buffer)
  unfolding push_scan buffer_empty
  push_scan_lem [] times s m e some_scan = cc
  push_scan_lem (scan ∷ l) [] s m e some_scan = absurd (omega arith)
  push_scan_lem (scan ∷ l) (t ∷ times) s m e some_scan =
      let (scans, times_same, samples) = end_of_scan-buffers t scan s in
      (_, _, refl, refl, (refl, refl), refl, scans, times_same, samples)

  IsLeft-trans :
      (b : Bool) (s s1 s' : Buffers R P M) (m : MeasureGroup R P M)
      → IsLeft sec s s1
      → Outcomes sec b s1 s' m
      → Outcomes sec b s s' m
  IsLeft-trans true s s1 s' m e o = record {
    scan = sym e.scans ∙ o.scan;
    time = sym e.times ∙ o.time;
    samples = sym e.samples ∙ o.samples;
    in_scan = o.in_scan;
  }
  IsLeft-trans false s s1 s' m e o = record {
    scans = o.scans ∙ e.scans;
    times = o.times ∙ e.times;
    samples = o.samples ∙ e.samples;
  }

  push_if_needed_lem :
      (b : Bool) (s : Buffers R P M) (m : MeasureGroup R P M)
      → IsPaired sec s m
      → s.lidar_pushed ≡ b
      → buffer_empty s.lidar_buffer ≡ false
      → Returns s (push_if_needed sec curvature b s m)
  unfolding push_if_needed
  push_if_needed_lem true s m v pushed some_scan = finish_lem s m v pushed
  push_if_needed_lem false s m v pushed some_scan =
      let (s1, m1, ran, pushed1, front, end_time, scans, times, samples) =
        push_scan_lem s.lidar_buffer s.time_buffer s m v.same_length some_scan in
      let v1 : IsPaired sec s1 m1 = record {
        same_length = ap length scans ∙ v.same_length ∙ sym (ap length times);
        front = λ e. rw (scans, times) front;
        end_time = λ e. end_time;
      } in
      let (b, s', m', ran', v', out) = finish_lem s1 m1 v1 pushed1 in
      (
        b,
        s',
        m',
        rw (ran, push_if_needed) ran',
        v',
        IsLeft-trans b s s1 s' m' (record { scans = scans; times = times; samples = samples }) out,
      )

  Returns-by : {s : Buffers R P M} {r r' : Synced R P M} → r ≡ r' → Returns s r' → Returns s r
  Returns-by e (b, s', m', ran, v, out) = (b, s', m', e ∙ ran, v, out)

  -- With as many times as scans, and a scan that was pushed being the first and that of the measurement,
  -- `sync_packages` ends with no fault and the same holds after it. Where it succeeds, the measurement
  -- has the first scan and the first time, which leave the buffers, and a front part of the samples, of
  -- which none is after the end of the scan; where it does not, the buffers stay as they are.
  pub sync_packages_lem :
      (s : Buffers R P M) (m : MeasureGroup R P M)
      → IsPaired sec s m
      → Returns s (sync_packages sec curvature s m)
  unfolding sync_packages
  sync_packages_lem s m v =
      let choose = λ (x : Bool).
        if x then done (false, s, m) else push_if_needed sec curvature s.lidar_pushed s m in
      let stays : Returns s (done (false, s, m)) =
        (false, s, m, refl, v, record { scans = refl; times = refl; samples = refl }) in
      elim (Bool-cases (buffer_empty s.lidar_buffer || buffer_empty s.imu_buffer)) [
        | inl waits ↦ Returns-by (ap choose waits) stays
        | inr goes ↦ Returns-by (ap choose goes) (
            push_if_needed_lem s.lidar_pushed s m v refl
              (first_false (buffer_empty s.lidar_buffer) (buffer_empty s.imu_buffer) goes))
      ]
