-- ===== src/Lib.antt =====
-- robot_nav: a robot that finds its way with a Livox LiDAR, a FAST-LIO localization and Nav2 plugins.
-- This library models six of its parts, and says in the end what it shows of them.
--
-- The LiDAR driver, livox_ws/src/livox_ros_driver2/src. Its receiving thread stores packets of points
-- and inertial samples in the queues of the device that sent them, and wakes the publishing thread.
--   Livox.Fault       what can go wrong in C++: `Outcome` is a value or the fault committed.
--   Livox.Ldq         comm/ldq.h and comm/ldq.cpp, the ring of packets of a device: `init_queue` is
--                     InitQueue, `queue_push_any` QueuePushAny, and so on for every function. The
--                     counters are 32-bit words that wrap; a pointer is null, live or freed.
--                     Bounds: its sizes. Window: what it holds. Invariant: when it is valid.
--                     Refine, Pop: the ring as a list, first in first out. Lifetime: its storage.
--   Livox.Keys        the keys "livox_lidar_<handle>" of the device table.
--   Livox.CacheIndex  comm/cache_index.cpp, the table of the 32 device slots: `get_free_index`,
--                     `get_index`, `lvx_get_index` and `reset_index` are its methods. Lookup: its map.
--                     Invariant: when it is valid. Client: what its calls do.
--   Livox.Imu         comm/lidar_imu_data_queue.cpp, the queue of inertial samples.
--   Livox.Semaphore   comm/semaphore.cpp, on the count.
--   Livox.Lds         lds.cpp, the data source that owns the devices. Defs: the records of comm/comm.h
--                     and the storing of points. Others: inertial samples, packets from a file, resets
--                     and queries. Push, Frame: the storing of a packet and of a whole frame.
--   Livox.Lddc        lddc.cpp, the polling of the point packets of one device under ROS 2, per format.
--                     Drain: what is published. Messages: what a message holds. Restored: what a reader
--                     of a custom message gets back. Samples: the polling of inertial samples, of every
--                     device (Emptied).
--   Livox.Config      the user's configuration of a device, in comm/comm.h.
--   Livox.Parse       parse_cfg_file/parse_livox_lidar_cfg.cpp and parse_cfg_file.cpp, over any JSON
--                     library. Typed: one element. Configs: a whole document.
--   Livox.LdsLidar    lds_lidar.cpp, the start of the data source. Filled: its configured devices.
--   Livox.Callback    call_back/livox_lidar_callback.cpp, what the SDK reports of a device: it appears,
--                     and it answers the settings that were asked for. Flags: the bits of the settings
--                     under way. Answers: any sequence of answers. Connect: when a device is sampling.
--   Livox.Floats      the operations of float and double, as a parameter.
--   Livox.Points      LidarPubHandler of comm/pub_handler.cpp, raw points made into points. Formats: the
--                     three formats and the extrinsic parameters. Converted:
--                     which points a packet becomes.
--   Livox.PubHandler  PubHandler of comm/pub_handler.cpp, packets of the SDK in and frames out. Timer:
--                     CheckTimer and RawDataProcess. Ids: maps from ids. Frame, Publish, Rounds, Conserve: no
--                     point is lost. Stamp: the bytes of a time stamp.
--   Livox.CommonCallback  call_back/lidar_common_callback.cpp, frames and samples to the data source.
--                     Delivered: from a packet to the queues.
--
-- The global planner, luckrobot_ws/src/nav2_custom_planner/src/nav2_custom_planner.cpp.
--   Planner.Interface the parameters: operations on double (no law of them is assumed), the costmap of
--                     Nav2, and the open list. A std::priority_queue takes out an element that is
--                     less than none that stays, and the laws of `PriorityQueue` say just that.
--   Planner.Search    isNodeValid, getHexNeighbors and the loop of createPlan up to the goal. Cells:
--                     steps on the map. Picks: taking a node out. Expand: the nodes that are pushed.
--                     Invariant, Close: the closed cells. Total: the whole search.
--   Planner.Smooth    hasLineOfSight, the walk over the parents, the shortcuts and the interpolation.
--                     Shortcut: which poses are kept.
--   Planner.Plan      createPlan as a whole. Correct: its outcomes.
--
-- The navigation manager, luckrobot_ws/src/wheel_controller/src/nav_manager_node.cpp: a mode comes in,
-- a goal goes to Nav2, and on arrival the mode is announced to the wheels.
--   Wheel             the table of waypoints and the callbacks: `mode_callback`, `send_nav_goal` and
--                     `result_callback`. Modes: which modes the table knows. Trace: the callbacks in
--                     any order, as a step relation.
--
-- The local controller, luckrobot_ws/src/nav2_custom_controller/src/custom_controller.cpp.
--   Controller        getNearestTargetPose. Target: the pose that it returns and the plan that it leaves.
--                     Velocity: computeVelocityCommands and calculateAngleDifference, and when the robot
--                     turns (Motion).
--
-- The mapping, mid360s_ws/src/FAST_LIO_ROS2/src/laserMapping.cpp.
--   Mapping           the buffers of scans and inertial samples, and the callbacks that fill them:
--                     `standard_pcl_cbk`, `livox_pcl_cbk` and `imu_cbk`. Sync: `sync_packages`. Paired,
--                     Arrives: scans and their times stay together. Mispaired: where they do not. Receive:
--                     the callbacks with their calls of the preprocessing, from a packet of the driver on.
--
-- The preprocessing of scans, mid360s_ws/src/FAST_LIO_ROS2/src/preprocess.cpp.
--   Preprocess        the state and the constructor. Arrays: reads and writes. Judge: `plane_judge` and
--                     `edge_jump_judge`, with bounds (Bounds) and the sorting of distances (Sorted).
--                     Planes, Edges: the first three loops of `give_feature`, on planes, edges and small
--                     planes. Features: its last
--                     loop and the whole; Rounds, Surfaces, Overruns, Results and Ends say where the loops
--                     stay and what they find. Clouds: the handlers of custom messages, Ouster and plain clouds
--                     (Rings, Decimated, Avia). Sweep: those of Velodyne and Mid360 clouds (Mid360).
--                     Process: `process`, and that it ends (Ends).
--
-- Within the driver, a packet of the SDK goes to the handler of its device (Livox.PubHandler), a
-- frame to the data source (Livox.CommonCallback, Livox.Lds), the points of a device through its
-- queue (Livox.Ldq) to the publisher (Livox.Lddc). The planner is called by Nav2 for the goals that
-- the manager sends; the driver's points reach it through the costmap. Neither way is modelled. A
-- custom message of the driver goes to the preprocessing, which the mapping calls, and the scan that
-- it makes into the buffers of the mapping (Mapping.Receive).
--
-- Loops on fuel: the search has 6 * cells + 2 rounds, since each round takes a node out of the open
-- list and only a cell that is closed for the first time puts in any, at most six; the shortcuts
-- have as many rounds as there are poses, since each round goes forward. The loop of RoundupPowerOf2
-- has its own 32 rounds. The loops of the publisher are enough with more rounds of the inner one
-- than the queue holds packets, and two of the outer one. The loop over the surfaces of a line has
-- more rounds than the line has points, since each round goes forward.
--
-- Not modelled: orientation and stamps of poses, stamps and frame ids of the driver's messages, the
-- firmware of a device, log output, and interleavings inside a call that holds a lock. The driver's
-- branches for ROS 1, the creation of publishers, the rest of FAST-LIO and the global localization
-- are not modelled; the SDK, the JSON library, float and double are parameters; rapidjson, ikd-Tree,
-- IKFoM and matplotlibcpp are copies of other projects.
pub mod Prelude
pub mod Livox
pub mod Planner
pub mod Wheel
pub mod Controller
pub mod Mapping
pub mod Preprocess
