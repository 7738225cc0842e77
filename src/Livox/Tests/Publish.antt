-- ===== src/Livox/Tests/Publish.antt =====
-- The publishing of a ring whose counters are about to wrap.
use robot_nav.Prelude.{◌≡◌, inl, refl, [], false, arith, length}
use robot_nav.Livox.Fault.{done}
use robot_nav.Livox.Ldq.{used_size}
use robot_nav.Livox.Ldq.Window.{contents}
use robot_nav.Livox.Lddc.{point_cloud_2, pcl_pxyzi, running, polling_lidar_point_cloud_data}
use robot_nav.Livox.Lddc.Drain.{Drained, polling_drains, polling_pcl_stuck}
use robot_nav.Livox.Tests.{ring, ring-IsValid, blank_packet}

held : length (contents ring) ≡ 1
unfolding contents used_size
held = refl

polling_drains_example :
    Drained 0 []
      (contents ring)
      (polling_lidar_point_cloud_data blank_packet 0 2 point_cloud_2 (λ i. false) 2 ring)
polling_drains_example =
    polling_drains blank_packet 0 2 point_cloud_2 (λ i. false) 0 ring (inl refl) ring-IsValid
      (omega (arith, held)) (λ i. refl)

polling_pcl_stuck_example :
    polling_lidar_point_cloud_data blank_packet 0 2 pcl_pxyzi (λ i. false) 9 ring ≡ done running
polling_pcl_stuck_example =
    polling_pcl_stuck blank_packet 0 2 (λ i. false) 9 ring ring-IsValid (omega (arith, held))
      (λ i. refl)
