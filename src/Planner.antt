-- ===== src/Planner.antt =====
-- The global planner, luckrobot_ws/src/nav2_custom_planner: search over the costmap, then smoothing.
pub mod Interface
pub mod Search
pub mod Smooth
pub mod Plan
mod Tests
