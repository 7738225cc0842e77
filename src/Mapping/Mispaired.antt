-- ===== src/Mapping/Mispaired.antt =====
-- After a scan that is older than the last one: the times of the scans that were dropped stay.
use robot_nav.Prelude.{
  ◌+◌, ◌<◌, ◌≡◌, refl, ap, ◌∙◌, Bool, true, false, not, ◌&&◌, List, [], ◌∷◌, ◌++◌, lt→ltb,
  if◌then◌else◌,
}
use robot_nav.Livox.Fault.{done}
use robot_nav.Mapping.{
  Seconds, Buffers, max_plot, check_loop_back, plotted, self_sync, livox_scan, livox_pcl_cbk,
}

module _ (sec : Seconds) {P M : Type 0} where
  open sec use {R, lt}

  -- The buffers after such a scan.
  pub record LoopedBack (t0 t : R) (times : List R) (scan : List P) (s : Buffers R P M)
      : Type 0 where
    pub scans : s.lidar_buffer ≡ scan ∷ []
    pub stale : s.time_buffer ≡ t0 ∷ (times ++ (t ∷ []))

  pub plotted_lem : (s : Buffers R P M) → s.scan_count < max_plot → plotted sec s ≡ done s
  unfolding plotted
  plotted_lem s few = let inside = lt→ltb s.scan_count max_plot few in rw (inside, plotted) refl

  -- Where a scan that is older than the last one comes while scans are waiting, of which the first has
  -- the time `t0`, and fewer than 719999 came before it: it is the only scan left, but it comes with all
  -- the times of the scans that were dropped, `t0` being the first.
  pub livox_pcl_cbk_looped :
      (t0 t : R) (times : List R) (scan : List P) (s : Buffers R P M)
      → s.is_first_lidar ≡ false
      → lt t s.last_timestamp_lidar ≡ true
      → s.time_buffer ≡ t0 ∷ times
      → s.scan_count + 1 < max_plot
      → (s' : Buffers R P M) × (livox_pcl_cbk sec t scan s ≡ done s')
        × LoopedBack t0 t times scan s'
  unfolding livox_pcl_cbk livox_scan check_loop_back self_sync
  livox_pcl_cbk_looped t0 t times scan s later older waiting few =
      let cleared = λ (first old : Bool). if not first && old then [] else s.lidar_buffer in
      (
        livox_scan sec t scan s,
        plotted_lem (livox_scan sec t scan s) few,
        record {
          scans =
              ap (λ (l : List (List P)). l ++ (scan ∷ []))
                (ap (λ (x : Bool). cleared x (lt t s.last_timestamp_lidar)) later
                  ∙ ap (cleared false) older);
          stale = ap (λ (l : List R). l ++ (t ∷ [])) waiting;
        },
      )
