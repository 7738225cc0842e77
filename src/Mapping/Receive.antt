-- ===== src/Mapping/Receive.antt =====
-- laserMapping.cpp, lines 283 to 348: the callbacks of scans with their calls of `Preprocess::process`, and
-- what becomes of a packet of the driver there.
use robot_nav.Prelude.{
  ℕ, ◌+◌, ◌<◌, ◌≤◌, ◌≡◌, refl, sym, ap, ◌∙◌, false, not, ◌&&◌, Option, none, some, List, [], ◌∷◌,
  ◌++◌, length, get_elem?, drop,
}
use robot_nav.Livox.Fault.{Outcome, done, bind_done, ◌>>=◌}
use robot_nav.Livox.Ldq.{StoragePacket}
use robot_nav.Livox.Lds.Defs.{LidarDevice}
use robot_nav.Livox.Points.{PointXyzlt}
use robot_nav.Livox.Lddc.Messages.{
  CustomMsg, init_custom_msg, custom_point, fill_points_to_custom_msg,
}
use robot_nav.Livox.Lddc.Restored.{mapped, length-mapped, message_of, custom_msg_lem}
use robot_nav.Preprocess.{Reals, PointType, Preprocess, blank}
use robot_nav.Preprocess.Clouds.Decimated.{taken}
use robot_nav.Preprocess.Clouds.Avia.{avia_handler_lem}
use robot_nav.Preprocess.Process.{Reader, process, process_custom, with_surf}
use robot_nav.Mapping.{
  Seconds, MeasureGroup, Buffers, max_plot, livox_scan, livox_pcl_cbk, standard_pcl_cbk,
  check_loop_back, self_sync,
}
use robot_nav.Mapping.Paired.{IsPaired}
use robot_nav.Mapping.Mispaired.{plotted_lem}
use robot_nav.Mapping.Arrives.{lidar_buffer-livox_scan, livox_scan-IsPaired}

module _ (re : Reals) where
  open re use {F, D}

  -- The cloud of a packet.
  abbrev pub cloud_of : Preprocess F D → (F → ℕ) → StoragePacket (PointXyzlt F) → List (PointType F)
  cloud_of pre to_uint8 pkg =
      taken re pre.n_scans pre.point_filter_num pre.blind 0 (blank re)
        (drop 1 (mapped (custom_point to_uint8 pkg.base_time) pkg.points))

module _ (sec : Seconds) (re : Reals) where
  open sec use {R, lt}
  open re use {F, D}

  -- The buffers and the preprocessor, `*p_pre`.
  abbrev pub Node : Type 0 → Type 0
  Node M = Buffers R (PointType F) M × Preprocess F D

  store :
      {M : Type 0}
      → (R → List (PointType F) → Buffers R (PointType F) M → Outcome (Buffers R (PointType F) M))
      → R
      → Buffers R (PointType F) M
      → Option (List (PointType F) × Preprocess F D)
      → Outcome (Option (Node M))
  store cbk cur_time s none = done none
  store cbk cur_time s (some (ptr, pre)) = do s' ← cbk cur_time ptr s; done (some (s', pre))

  -- `livox_pcl_cbk`; `none` means that the fuel of the preprocessor ran out.
  unfoldable pub receive_custom :
      {M : Type 0} → R → CustomMsg F → Node M → Outcome (Option (Node M))
  unfolding store process_custom
  receive_custom cur_time msg (s, pre) = do
    found ← process_custom re msg pre
    store (livox_pcl_cbk sec) cur_time s found

  -- `standard_pcl_cbk`.
  unfoldable pub receive_cloud :
      {C M : Type 0} → Reader F C → R → C → Node M → Outcome (Option (Node M))
  unfolding store process
  receive_cloud reader cur_time msg (s, pre) = do
    found ← process re reader msg pre
    store (standard_pcl_cbk sec) cur_time s found

  -- For a packet that has just the points it announces, of a device that is there, a preprocessor with
  -- no extraction of features, a filter that is not 0 and a buffer for each line, scans and times that
  -- are together, a time that is not before the last scan's, unless it is the first, and fewer than
  -- 719999 scans before: the custom message of the packet is made, received and stored with no fault.
  -- The scan and its time are put after those that wait, and scans and times stay together. The scan
  -- has those points of the packet, but the first, that the handler of custom messages takes: valid
  -- ones that the filter chooses, beyond the blind zone and not at the place of the one before, where
  -- a point that was not itself chosen counts as a blank one.
  pub packet_received :
      {P M : Type 0} (lidars : List (LidarDevice P F)) (index : ℕ) (d : LidarDevice P F)
      (to_uint8 : F → ℕ) (pkg : StoragePacket (PointXyzlt F)) (cur_time : R)
      (s : Buffers R (PointType F) M) (m : MeasureGroup R (PointType F) M) (pre : Preprocess F D)
      → get_elem? lidars index ≡ some d
      → pkg.points_num ≡ length pkg.points
      → pre.feature_enabled ≡ false
      → 0 < pre.point_filter_num
      → pre.n_scans ≤ length pre.pl_buff
      → IsPaired sec s m
      → (not s.is_first_lidar && lt cur_time s.last_timestamp_lidar) ≡ false
      → s.scan_count + 1 < max_plot
      → (s' : Buffers R (PointType F) M) × (pre' : Preprocess F D) × (((init_custom_msg lidars pkg
                index
              >>= λ m0. fill_points_to_custom_msg to_uint8 m0 pkg)
            >>= λ msg. receive_custom cur_time msg (s, pre))
          ≡ done (some (s', pre')))
        × (s'.lidar_buffer ≡ s.lidar_buffer ++ (cloud_of re pre to_uint8 pkg ∷ []))
        × (s'.time_buffer ≡ s.time_buffer ++ (cur_time ∷ []))
        × IsPaired sec s' m
  unfolding receive_custom store process_custom with_surf livox_pcl_cbk livox_scan check_loop_back
      self_sync
  packet_received lidars index d to_uint8 pkg cur_time s m pre at num off positive lines v in_order
        few =
      let (pre', handled, cloud) =
        avia_handler_lem re (message_of d to_uint8 pkg) pre off positive lines
          (length-mapped _ pkg.points ∙ sym num) in
      let processed : process_custom re (message_of d to_uint8 pkg) pre
          ≡ done (some (pre'.pl_surf, pre')) =
        bind_done _ handled in
      let s' = livox_scan sec cur_time pre'.pl_surf s in
      (
        s',
        pre',
        bind_done _ (custom_msg_lem lidars index d to_uint8 pkg at num)
            ∙ bind_done _ processed
            ∙ bind_done _ (plotted_lem sec s' few),
        lidar_buffer-livox_scan sec cur_time pre'.pl_surf s in_order
            ∙ ap (λ (l : List (PointType F)). s.lidar_buffer ++ (l ∷ [])) cloud,
        refl,
        livox_scan-IsPaired sec cur_time pre'.pl_surf s m v in_order,
      )
