-- ===== src/Livox/Tests/Source.antt =====
-- The device table and the data source with one known device.
use robot_nav.Prelude.{
  ℕ, zero, suc, ◌<◌, ◌≡◌, ◌≢◌, ◌↔◌, inl, refl, false, none, some, [], ◌∷◌, arith, get_elem?,
  replicate,
}
use robot_nav.Prelude.Int.{pos, negsuc}
use robot_nav.Livox.Fault.{done}
use robot_nav.Livox.Keys.{key_eq, handle_key}
use robot_nav.Livox.Ldq.{StoragePacket, PointPacket, null, used_size}
use robot_nav.Livox.Ldq.Window.{contents}
use robot_nav.Livox.CacheIndex.{
  CacheIndex, new, get_free_index, get_index, lvx_get_index, reset_index, max_source_lidar, lookup,
  insert, first_free,
}
use robot_nav.Livox.CacheIndex.Invariant.{IsTaken, new-IsValid}
use robot_nav.Livox.CacheIndex.Invariant as Table
use robot_nav.Livox.CacheIndex.Client.{get_free_index_lem, operations-IsValid}
use robot_nav.Livox.Lds.Defs.{
  Lds, LidarDevice, PointFrame, off, push_lidar_data, storage_point_data,
  calculate_packet_queue_size,
}
use robot_nav.Livox.Lds.Push.{Pushed, stored_at, push_lidar_data_lem}
use robot_nav.Livox.Lds.Frame.{IsValid, Stored, storage_point_data_lem}

abbrev pub known : CacheIndex
known = (get_free_index new 8 42).1

pub known-IsValid : Table.IsValid known
known-IsValid = (operations-IsValid new 8 42 new-IsValid).0

pub known_index : get_index known 8 42 ≡ some 0
unfolding get_index get_free_index new lookup insert first_free key_eq handle_key
known_index = refl

get_free_index_lem_example :
    let (r, s') = get_free_index new 8 42 in
    (get_index s' 8 42 ≡ r)
    × ((g : ℕ) → g ≢ 42 → get_index s' 8 g ≡ get_index new 8 g)
    × ((i : ℕ) → r ≡ some i → i < max_source_lidar)
    × ((r ≡ none)
        ↔ ((get_index new 8 42 ≡ none) × ((i : ℕ) → i < max_source_lidar → IsTaken new i)))
get_free_index_lem_example = get_free_index_lem new 42 new-IsValid

operations-IsValid_example :
    Table.IsValid (get_free_index known 8 43).1
    × Table.IsValid (lvx_get_index known 8 43).1
    × Table.IsValid (reset_index known 8 43)
operations-IsValid_example = operations-IsValid known 8 43 known-IsValid

abbrev pub idle_device : LidarDevice ℕ ℕ
idle_device = record {
  lidar_type = 8;
  handle = 42;
  data_src = 0;
  connect_state = off;
  points = record { storage_packet = null; rd_idx = 0; wr_idx = 0; mask = 0; size = 0 };
  imu_data = [];
  livox_config = record {
    handle = 42;
    pcl_data_type = pos 1;
    pattern_mode = negsuc 0;
    blind_spot_set = pos 50;
    dual_emit_en = negsuc 0;
    extrinsic_param = record { roll = 0; pitch = 0; yaw = 0; x = pos 0; y = pos 0; z = pos 0 };
    set_bits = 0;
  };
}

abbrev pub source : Lds ℕ ℕ
source = record {
  lidars = replicate 32 idle_device;
  pcd_semaphore = 0;
  imu_semaphore = 0;
  cache_index = known;
  publish_freq = record { above_ten = false; as_uint32 = 10 };
  request_exit = false;
}

nothing_held : contents (idle_device.points) ≡ []
unfolding contents used_size
nothing_held = refl

all_idle :
    (n i : ℕ) (d : LidarDevice ℕ ℕ)
    → get_elem? (replicate n idle_device) i ≡ some d
    → idle_device ≡ d
all_idle zero i d e = cc
all_idle (suc n) zero d e = cc
all_idle (suc n) (suc i) d e = all_idle n i d e

source-IsValid : IsValid source
unfolding calculate_packet_queue_size
source-IsValid = record {
  lidars_num = refl;
  ready = λ i d e. rw (← all_idle 32 i d e) (inl (refl, nothing_held));
  idle = omega arith;
  table = known-IsValid;
  queue_size = omega arith;
}

abbrev junk : StoragePacket ℕ
junk = record { base_time = 0; points_num = 0; points = [] }

abbrev packet : PointPacket ℕ
packet = record { handle = 42; lidar_type = 8; points_num = 1; points = 4 ∷ 5 ∷ [] }

push_lidar_data_lem_example :
    (d' : LidarDevice ℕ ℕ) × (push_lidar_data junk source (some packet) 3 77
      ≡ done (stored_at source 3 idle_device d'))
    × Pushed idle_device d' packet 77
unfolding calculate_packet_queue_size
push_lidar_data_lem_example =
    push_lidar_data_lem source 3 idle_device junk packet 77 refl (inl (refl, nothing_held))
      (omega arith) (omega arith) (omega arith)

abbrev frame : PointFrame ℕ
frame = record { base_time = 77 ∷ 78 ∷ []; lidar_num = 2; lidar_point = packet ∷ packet ∷ [] }

storage_point_data_lem_example : Stored source (storage_point_data junk source (some frame))
storage_point_data_lem_example =
    storage_point_data_lem junk source frame source-IsValid (omega arith) (omega arith)
      (omega arith)
