-- ===== src/Livox.antt =====
-- The LiDAR driver, livox_ws/src/livox_ros_driver2/src: its queues, its device table and the data
-- source that ties them together.
pub mod Fault
pub mod Ldq
pub mod Keys
pub mod CacheIndex
pub mod Imu
pub mod Config
pub mod Callback
pub mod LdsLidar
pub mod Parse
pub mod Semaphore
pub mod Floats
pub mod Points
pub mod PubHandler
pub mod CommonCallback
pub mod Lds
pub mod Lddc
mod Tests
