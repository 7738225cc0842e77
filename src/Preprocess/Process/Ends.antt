-- ===== src/Preprocess/Process/Ends.antt =====
-- Whatever the message, its handling ends: the loop over the surfaces never runs out of fuel.
use robot_nav.Prelude.{
  ℕ, zero, suc, ◌+◌, ◌-◌, ◌≤◌, ◌≡◌, ◌≢◌, refl, ◌∙◌, not, ◌&&◌, Option, none, some, List, [], ◌∷◌,
  ltb, arith, length, replicate, ◌==◌, if◌then◌else◌,
}
use robot_nav.Livox.Fault.{
  Outcome, done, ◌>>=◌, Safe-map, IfDone, value, failed, IfDone-bind, IfDone-map, if-IfDone,
  IfDone-of_Safe, IfDone-trivial,
}
use robot_nav.Livox.Lddc.Messages.{CustomPoint, CustomMsg}
use robot_nav.Preprocess.Arrays.{read, write}
use robot_nav.Preprocess.{Reals, Preprocess, blank, oust64, velo16, mid360, scale_of}
use robot_nav.Preprocess.Features.Surfaces.{IsSome}
use robot_nav.Preprocess.Clouds
use robot_nav.Preprocess.Clouds.Rings.{lines_from-Safe}
use robot_nav.Preprocess.Features.Results.{Kept}
use robot_nav.Preprocess.Sweep
use robot_nav.Preprocess.Process.{Reader, handle, process, process_custom, with_surf}

abbrev Anything : {A : Type 0} → A → Type 0
Anything a = Unit {0}

module _ (re : Reals) where
  open re use {F, D, float_of, lt_float, sqrt}

  -- The size of groups stays.
  abbrev HasGroup : ℕ → Preprocess F D → Type 0
  HasGroup g s = s.group_size ≡ g

  -- The fuel was enough.
  abbrev HasEnded : Option (Preprocess F D) → Type 0
  HasEnded = IsSome Anything

  lines-HasEnded :
      (of_square : D → D) (least n : ℕ) (s : Preprocess F D)
      → 2 ≤ s.group_size
      → IfDone HasEnded (Clouds.lines_from re of_square least n 0 s)
  lines-HasEnded of_square least n s two =
      IfDone-of_Safe (Safe-map forget (λ c. c) (lines_from-Safe re of_square least n 0 s two))
    where
      forget : (o : Option (Preprocess F D)) → IsSome (Kept s) o → HasEnded o
      forget none h = h
      forget (some s') h = tt

  keep_line_point-HasGroup :
      (i : ℕ) (p : CustomPoint F) (s : Preprocess F D)
      → IfDone (HasGroup s.group_size) (Clouds.keep_line_point re i p s)
  unfolding Clouds.keep_line_point
  keep_line_point-HasGroup i p s =
      let q = Clouds.custom_to_point re p in
      if-IfDone (Clouds.is_valid_point re s.n_scans p)
        (IfDone-bind (IfDone-trivial (write s.pl_full i q)) λ full _.
          IfDone-bind (IfDone-trivial (read full (i - 1))) λ before _.
            IfDone-bind
              (IfDone-trivial (
                if Clouds.differs re q before
                then Clouds.push_line s.pl_buff p.line q
                else done s.pl_buff))
              λ buff _. value {a = record s { pl_full = full; pl_buff = buff }} refl)
        (value {a = s} refl)

  line_points_from-HasGroup :
      (pts : List (CustomPoint F)) (n i : ℕ) (s : Preprocess F D)
      → IfDone (HasGroup s.group_size) (Clouds.line_points_from re pts n i s)
  unfolding Clouds.line_points_from
  line_points_from-HasGroup pts zero i s = value refl
  line_points_from-HasGroup pts (suc n) i s = IfDone-bind (IfDone-trivial (read pts i)) λ p _.
      IfDone-bind (keep_line_point-HasGroup i p s)
        λ s' e. IfDone-map (λ s'' e'. e' ∙ e) (line_points_from-HasGroup pts n (i + 1) s')

  ring_points-HasGroup :
      (scale : F) (pts : List (Clouds.OusterPoint F)) (s : Preprocess F D)
      → IfDone (HasGroup s.group_size) (Clouds.ring_points re scale pts s)
  unfolding Clouds.ring_points
  ring_points-HasGroup scale [] s = value refl
  ring_points-HasGroup scale (p ∷ pts) s =
      let q = Clouds.ouster_to_point re scale p in
      IfDone-bind
        (IfDone-trivial (
          if not (Clouds.is_near re s.blind q) && ltb p.ring s.n_scans
          then Clouds.push_line s.pl_buff p.ring q
          else done s.pl_buff))
        λ buff _. ring_points-HasGroup scale pts (record s { pl_buff = buff })

  push_velodyne_line-HasGroup :
      (p : Sweep.VelodynePoint F) (time : Option F) (s : Preprocess F D)
      → IfDone (HasGroup s.group_size) (Sweep.push_velodyne_line re p time s)
  unfolding Sweep.push_velodyne_line
  push_velodyne_line-HasGroup p none s = value refl
  push_velodyne_line-HasGroup p (some c) s =
      IfDone-bind
        (IfDone-trivial (Clouds.push_line s.pl_buff p.ring (Sweep.velodyne_to_point re p c)))
        λ buff _. value {a = record s { pl_buff = buff }} refl

  velodyne_line-HasGroup :
      (p : Sweep.VelodynePoint F) (w : Sweep.Lines F D) (s : Preprocess F D)
      → IfDone (λ x. HasGroup s.group_size x.0) (Sweep.velodyne_line re p w s)
  unfolding Sweep.velodyne_line
  velodyne_line-HasGroup p w s =
      if-IfDone (ltb p.ring s.n_scans)
        (IfDone-bind (IfDone-trivial (Sweep.velodyne_time re s p w))
          λ x _. IfDone-bind (push_velodyne_line-HasGroup p x.0 s) λ s1 e. value {a = (s1, x.1)} e)
        (value {a = (s, w)} refl)

  velodyne_lines-HasGroup :
      (pts : List (Sweep.VelodynePoint F)) (w : Sweep.Lines F D) (s : Preprocess F D)
      → IfDone (HasGroup s.group_size) (Sweep.velodyne_lines re pts w s)
  unfolding Sweep.velodyne_lines
  velodyne_lines-HasGroup [] w s = value refl
  velodyne_lines-HasGroup (p ∷ pts) w s =
      IfDone-bind (velodyne_line-HasGroup p w s)
        λ x e. IfDone-map (λ s'' e'. e' ∙ e) (velodyne_lines-HasGroup pts x.1 x.0)

  avia_handler-HasEnded :
      (msg : CustomMsg F) (s : Preprocess F D)
      → 2 ≤ s.group_size
      → IfDone HasEnded (Clouds.avia_handler re msg s)
  unfolding Clouds.avia_handler
  avia_handler-HasEnded msg s two =
      IfDone-bind (IfDone-trivial (Clouds.clear_from s.n_scans 0 s.pl_buff)) λ buff _.
        let s1 = record (Clouds.cleared s) {
          pl_full = replicate msg.point_num (blank re);
          pl_buff = buff;
        } in
        if-IfDone s.feature_enabled
          (IfDone-bind (line_points_from-HasGroup msg.points (msg.point_num - 1) 1 s1)
            λ s2 e. lines-HasEnded sqrt 6 s.n_scans s2 (omega arith))
          (IfDone-bind
            (IfDone-trivial (Clouds.decimate_from re msg.points (msg.point_num - 1) 1 (0, s1)))
            λ w _. value tt)

  oust64_handler-HasEnded :
      (pts : List (Clouds.OusterPoint F)) (s : Preprocess F D)
      → 2 ≤ s.group_size
      → IfDone HasEnded (Clouds.oust64_handler re pts s)
  unfolding Clouds.oust64_handler
  oust64_handler-HasEnded pts s two =
      if-IfDone s.feature_enabled
        (IfDone-bind (IfDone-trivial (Clouds.clear_from s.n_scans 0 s.pl_buff)) λ buff _.
          IfDone-bind
            (ring_points-HasGroup s.time_unit_scale pts
              (record (Clouds.cleared s) { pl_buff = buff }))
            λ s1 e. lines-HasEnded (λ d. d) 0 s.n_scans s1 (omega arith))
        (IfDone-bind (IfDone-trivial (Clouds.thin re pts (Clouds.cleared s))) λ s1 _. value tt)

  velodyne_cloud-HasEnded :
      (pts : List (Sweep.VelodynePoint F)) (s : Preprocess F D)
      → 2 ≤ s.group_size
      → IfDone HasEnded (Sweep.velodyne_cloud re pts s)
  unfolding Sweep.velodyne_cloud
  velodyne_cloud-HasEnded pts s two =
      if-IfDone s.feature_enabled
        (IfDone-bind (IfDone-trivial (Clouds.clear_from s.n_scans 0 s.pl_buff)) λ buff _.
          IfDone-bind
            (velodyne_lines-HasGroup pts (Sweep.new_lines re s.n_scans)
              (record s { pl_buff = buff }))
            λ s1 e. lines-HasEnded (λ d. d) 2 s.n_scans s1 (omega arith))
        (IfDone-bind
          (IfDone-trivial (Sweep.velodyne_points re 0 pts (Sweep.new_lines re s.n_scans) s))
          λ s1 _. value tt)

  velodyne_handler-HasEnded :
      (pts : List (Sweep.VelodynePoint F)) (s : Preprocess F D)
      → 2 ≤ s.group_size
      → IfDone HasEnded (Sweep.velodyne_handler re pts s)
  unfolding Sweep.velodyne_handler
  velodyne_handler-HasEnded pts s two = if-IfDone (length pts == 0) (value tt) (
      IfDone-bind (IfDone-trivial (read pts (length pts - 1))) λ last _.
        velodyne_cloud-HasEnded pts
          (record (Clouds.cleared s) { given_offset_time = lt_float (float_of 0) last.time }) two)

  handle-HasEnded :
      {M : Type 0} (reader : Reader F M) (msg : M) (s : Preprocess F D)
      → 2 ≤ s.group_size
      → IfDone HasEnded (handle re reader msg s)
  unfolding handle
  handle-HasEnded reader msg s two =
      if-IfDone (s.lidar_type == oust64) (oust64_handler-HasEnded (reader.ouster msg) s two) (
        if-IfDone (s.lidar_type == velo16) (velodyne_handler-HasEnded (reader.velodyne msg) s two) (
          if-IfDone (s.lidar_type == mid360)
            (IfDone-bind (IfDone-trivial (Sweep.mid360_handler re (reader.livox msg) s))
              λ s' _. value tt)
            (value tt)))

  with_surf_ends :
      {m : Outcome (Option (Preprocess F D))}
      → IfDone HasEnded m
      → (m >>= λ s'. done (with_surf re s')) ≢ done none
  unfolding with_surf
  with_surf_ends (value {a = none} h) e = elim h [ ]
  with_surf_ends (value {a = some s'} h) e = cc
  with_surf_ends failed e = cc

  -- With groups of at least two points the handling of any custom message and of any cloud, for any kind of
  -- lidar, ends: in a cloud or in a fault, and never for want of rounds of its loops.
  pub process_lem :
      {M : Type 0} (reader : Reader F M) (msg : M) (custom : CustomMsg F) (s : Preprocess F D)
      → 2 ≤ s.group_size
      → (process re reader msg s ≢ done none) × (process_custom re custom s ≢ done none)
  unfolding process process_custom
  process_lem reader msg custom s two = (
    with_surf_ends
        (handle-HasEnded reader msg (record s { time_unit_scale = scale_of re s.time_unit }) two),
    with_surf_ends (avia_handler-HasEnded custom s two),
  )
