-- ===== src/Livox/PubHandler/Timer.antt =====
-- `CheckTimer` and `RawDataProcess`: one packet after the other to its device, and when a frame goes out.
use robot_nav.Prelude.{
  ℕ, ◌+◌, ◌-◌, ◌/◌, ◌%◌, ◌^◌, Bool, true, false, not, ◌||◌, none, some, List, [], ◌∷◌, ◌++◌, length,
  ltb, ◌==◌, if◌then◌else◌,
}
use robot_nav.Livox.Fault.{Outcome, done, fault, div_by_zero, null_deref, ◌>>=◌}
use robot_nav.Livox.Floats.{Floats}
use robot_nav.Livox.Lds.Defs.{PointFrame}
use robot_nav.Livox.CacheIndex.{livox_lidar_type}
use robot_nav.Livox.Points.{
  PointXyzlt, RawPacket, Format, LidarPubHandler, get_lidar_base_time, get_recent_time_stamp,
  get_lidar_point_clouds,
}
use robot_nav.Livox.Points.Formats.{new_handler, set_lidars_ext_param, point_cloud_process}
use robot_nav.Livox.PubHandler.{
  PubHandler, publish_point_cloud, find_id, put_id, put, write, get_lidar_id,
}

-- The frames that went to the callback, and the state.
abbrev pub Ran : Type 0 → Type 0
Ran F = List (PointFrame (PointXyzlt F)) × PubHandler F

module _ {F : Type 0} where
  -- The packet of the frame that the points of a device become. Without points it is not taken, and
  -- the result is false.
  unfoldable pub add_packet : ℕ → List (PointXyzlt F) → PubHandler F → Outcome (Bool × PubHandler F)
  unfolding write
  add_packet id [] s = done (false, s)
  add_packet id (p ∷ l) s = do
    lidar_point ← write s.frame.lidar_point s.frame.lidar_num (record {
      handle = id;
      lidar_type = livox_lidar_type;
      points_num = length (p ∷ l) % 2 ^ 32;
      points = p ∷ l;
    })
    done (
      true,
      record s {
        frame = record s.frame {
          lidar_num = (s.frame.lidar_num + 1) % 256;
          lidar_point = lidar_point;
        };
      },
    )

  -- What both branches of `CheckTimer` do for one device: its points move into the frame.
  unfoldable pub add_to_frame : ℕ → LidarPubHandler F → PubHandler F → Outcome (Bool × PubHandler F)
  unfolding write get_lidar_base_time get_lidar_point_clouds add_packet
  add_to_frame id h s = do
    base_time ← write s.frame.base_time s.frame.lidar_num (get_lidar_base_time h)
    let (points, h') = get_lidar_point_clouds h []
    add_packet id points (record s {
      frame = record s.frame { base_time = base_time };
      points = put s.points id points;
      lidar_process_handlers = put_id s.lidar_process_handlers id h';
    })

  -- `PublishPointCloud` and the reset of the frame.
  unfoldable pub publish_frame : PubHandler F → Ran F
  unfolding publish_point_cloud
  publish_frame s = (publish_point_cloud s, record s { frame = record s.frame { lidar_num = 0 } })

  unfoldable pub publish_one : ℕ → LidarPubHandler F → PubHandler F → Outcome (Ran F)
  unfolding add_to_frame publish_frame
  publish_one id h s = do
    (added, s') ← add_to_frame id h s
    if not added || s'.frame.lidar_num == 0 then done ([], s') else done (publish_frame s')

  -- Whether the device has a frame of points: its last point is at a multiple of the interval, and as
  -- far from the first one as the tolerance asks for. The interval is not 0.
  unfoldable pub is_due : PubHandler F → LidarPubHandler F → Bool
  unfolding get_recent_time_stamp get_lidar_base_time
  is_due s h =
      let recent_ms = get_recent_time_stamp h / 1000000 in
      let diff = (get_recent_time_stamp h + 2 ^ 64 - get_lidar_base_time h) % 2 ^ 64 in
      if not (recent_ms % s.publish_interval_ms == 0) || recent_ms == 0
      then false
      else not (ltb diff s.publish_interval_tolerance)

  -- With time synchronization.
  unfoldable pub check_synced : ℕ → PubHandler F → Outcome (Ran F)
  unfolding find_id is_due publish_one
  check_synced id s = elim (find_id s.lidar_process_handlers id) [
    | none ↦ fault null_deref
    | some h ↦
        if s.publish_interval_ms == 0
        then fault div_by_zero
        else if is_due s h
        then publish_one id h s
        else done ([], s)
  ]

  unfoldable pub add_all : List (ℕ × LidarPubHandler F) → PubHandler F → Outcome (PubHandler F)
  unfolding add_to_frame
  add_all [] s = done s
  add_all ((id, h) ∷ l) s = do (added, s') ← add_to_frame id h s; add_all l s'

  -- The next frame, of all devices, one interval later.
  unfoldable pub collect_frame : PubHandler F → Outcome (Ran F)
  unfolding add_all publish_frame
  collect_frame s = do
    s' ←
        add_all s.lidar_process_handlers
          (record s { last_pub_time = s.last_pub_time + s.publish_interval })
    done (publish_frame s')

  -- Without it, by the clock.
  unfoldable pub check_unsynced : ℕ → PubHandler F → Outcome (Ran F)
  unfolding collect_frame
  check_unsynced now s =
      if s.first
      then done ([], record s { last_pub_time = now; first = false })
      else if ltb now (s.last_pub_time + s.publish_interval)
      then done ([], s)
      else collect_frame s

  unfoldable pub check_timer : ℕ → ℕ → PubHandler F → Outcome (Ran F)
  check_timer now id s = if s.is_timestamp_sync then check_synced id s else check_unsynced now s

module _ (fl : Floats) (format : Format) where
  -- The handler of the device of a packet, made where there is none, with its extrinsics.
  unfoldable pub handler_for : PubHandler (fl.F) → ℕ → LidarPubHandler (fl.F)
  unfolding find_id new_handler set_lidars_ext_param
  handler_for s id =
      let h : LidarPubHandler (fl.F) = elim (find_id s.lidar_process_handlers id) [
        | none ↦ new_handler fl
        | some h ↦ h
      ] in
      elim (s.lidar_extrinsics id) [ none ↦ h | some e ↦ set_lidars_ext_param fl e h ]

  -- A packet goes to its device, and the timer is checked at a time of the clock.
  unfoldable pub process_packet :
      ℕ → ℕ → RawPacket → List RawPacket → PubHandler (fl.F) → Outcome (Ran (fl.F))
  unfolding handler_for check_timer put_id
  process_packet now id raw_data rest s =
      point_cloud_process fl format raw_data (handler_for s id) >>= λ h.
      check_timer now id (record s {
        raw_packet_queue = rest;
        lidar_process_handlers = put_id s.lidar_process_handlers id h;
      })

  unfoldable pub next_packet : ℕ → List RawPacket → PubHandler (fl.F) → Outcome (Ran (fl.F))
  unfolding get_lidar_id process_packet
  next_packet now [] s = done ([], s)
  next_packet now (raw_data ∷ rest) s =
      process_packet now (get_lidar_id raw_data.lidar_type raw_data.handle 0).1 raw_data rest s

  -- One round of `RawDataProcess`, which does nothing where no packet comes.
  unfoldable pub raw_data_round : ℕ → PubHandler (fl.F) → Outcome (Ran (fl.F))
  unfolding next_packet
  raw_data_round now s = next_packet now s.raw_packet_queue s

  -- The rounds of the loop, each at a time of the clock, until the thread has to quit.
  unfoldable pub raw_data_process : List ℕ → PubHandler (fl.F) → Outcome (Ran (fl.F))
  unfolding raw_data_round
  raw_data_process [] s = done ([], s)
  raw_data_process (now ∷ times) s = if s.is_quit then done ([], s) else (do
    (frames, s1) ← raw_data_round now s
    (frames', s2) ← raw_data_process times s1
    done (frames ++ frames', s2))
