-- ===== src/Preprocess/Process.antt =====
-- preprocess.cpp, lines 47 to 93: `process` of a custom message and of a cloud, which goes to the handler of
-- the lidar. PCL's reading of a cloud is a parameter.
pub mod Ends
use robot_nav.Prelude.{Option, none, some, List, ◌==◌, if◌then◌else◌}
use robot_nav.Livox.Fault.{Outcome, done, ◌>>=◌}
use robot_nav.Livox.Lddc.Messages.{CustomMsg}
use robot_nav.Preprocess.{Reals, PointType, Preprocess, oust64, velo16, mid360, scale_of}
use robot_nav.Preprocess.Clouds.{
  PlainPoint, OusterPoint, avia_handler, oust64_handler, default_handler,
}
use robot_nav.Preprocess.Sweep.{LivoxPointXyzitl, VelodynePoint, velodyne_handler, mid360_handler}

-- `pcl::fromROSMsg` at the types of points.
pub record Reader (F M : Type 0) : Type 0 where
  pub plain : M → List (PlainPoint F)
  pub ouster : M → List (OusterPoint F)
  pub livox : M → List (LivoxPointXyzitl F)
  pub velodyne : M → List (VelodynePoint F)

module _ (re : Reals) where
  open re use {F, D}

  -- The cloud that goes out, with the state.
  unfoldable pub with_surf : Option (Preprocess F D) → Option (List (PointType F) × Preprocess F D)
  with_surf none = none
  with_surf (some s) = some (s.pl_surf, s)

  unfoldable pub process_custom :
      CustomMsg F → Preprocess F D → Outcome (Option (List (PointType F) × Preprocess F D))
  unfolding avia_handler with_surf
  process_custom msg s = do s' ← avia_handler re msg s; done (with_surf s')

  unfoldable pub handle :
      {M : Type 0} → Reader F M → M → Preprocess F D → Outcome (Option (Preprocess F D))
  unfolding oust64_handler velodyne_handler mid360_handler default_handler
  handle reader msg s =
      if s.lidar_type == oust64
      then oust64_handler re (reader.ouster msg) s
      else if s.lidar_type == velo16
      then velodyne_handler re (reader.velodyne msg) s
      else if s.lidar_type == mid360
      then (do s' ← mid360_handler re (reader.livox msg) s; done (some s'))
      else done (some (default_handler re (reader.plain msg) s))

  unfoldable pub process :
      {M : Type 0}
      → Reader F M
      → M
      → Preprocess F D
      → Outcome (Option (List (PointType F) × Preprocess F D))
  unfolding handle with_surf scale_of
  process reader msg s = do
    s' ← handle reader msg (record s { time_unit_scale = scale_of re s.time_unit })
    done (with_surf s')
