-- ===== src/Livox/Ldq.antt =====
-- comm/ldq.h and comm/ldq.cpp: the ring of point packets of one LiDAR, with the records of comm/comm.h
-- that it stores. A pointer argument that the code tests for null is an `Option`.
pub mod Bounds
pub mod Window
pub mod Invariant
pub mod Refine
pub mod Pop
pub mod Lifetime
use Prim.Native.Nat.{bit_and}
use robot_nav.Prelude.{
  ℕ, zero, suc, ◌+◌, ◌-◌, ◌*◌, ◌^◌, Bool, true, false, not, ◌&&◌, ◌||◌, Option, none, some, List,
  [], get_elem?, set, take, replicate, length, ltb, leb, ◌==◌, if◌then◌else◌,
}
use robot_nav.Prelude.Bits.{add32, sub32}
use robot_nav.Livox.Fault.{
  Fault, null_deref, double_free, use_after_free, out_of_bounds, Outcome, done, fault, ◌>>=◌, ◌>>◌,
}

-- `1 << i` for 0 ≤ i < 32, and the test of a power of two by its bits.
unfoldable pub is_power_of_2 : ℕ → Bool
is_power_of_2 size = not (size == 0) && bit_and size (sub32 size 1) == 0

-- The loop of `RoundupPowerOf2` with `fuel` rounds left at round `i`; `last` is `power2_val`.
unfoldable pub roundup_loop : ℕ → ℕ → ℕ → ℕ → ℕ
roundup_loop zero i size last = last
roundup_loop (suc fuel) i size last =
    let rest = roundup_loop fuel (i + 1) size (2 ^ i) in if leb size (2 ^ i) then 2 ^ i else rest

unfoldable pub roundup_power_of_2 : ℕ → ℕ
roundup_power_of_2 size = roundup_loop 32 0 size 0

-- `StoragePacket`, over the type of a point (`PointXyzlt`), which the queue only moves. The queue
-- never writes its `lidar_type` and `handle`.
pub record StoragePacket (P : Type 0) : Type 0 where
  pub base_time : ℕ
  pub points_num : ℕ
  pub points : List P

-- `PointPacket`: `points` is the array behind the pointer.
pub record PointPacket (P : Type 0) : Type 0 where
  pub handle : ℕ
  pub lidar_type : ℕ
  pub points_num : ℕ
  pub points : List P

-- What the pointer `storage_packet` is: null, an array, or an array that was given to `delete[]`.
pub data Storage (P : Type 0) : Type 0 where
  null : Storage P
  live : List (StoragePacket P) → Storage P
  freed : Storage P

pub record LidarDataQueue (P : Type 0) : Type 0 where
  pub storage_packet : Storage P
  pub rd_idx : ℕ
  pub wr_idx : ℕ
  pub mask : ℕ
  pub size : ℕ

module _ {P : Type 0} where
  -- `if (p) delete[] p;`
  unfoldable pub release : Storage P → Outcome (Unit {0})
  release null = done tt
  release (live buf) = done tt
  release freed = fault double_free

  -- `p[i]`
  unfoldable pub read : Storage P → ℕ → Outcome (StoragePacket P)
  read null i = fault null_deref
  read freed i = fault use_after_free
  read (live buf) i = elim (get_elem? buf i) [ none ↦ fault out_of_bounds | some s ↦ done s ]

  -- `p[i] = s`
  unfoldable pub write : Storage P → ℕ → StoragePacket P → Outcome (Storage P)
  write null i s = fault null_deref
  write freed i s = fault use_after_free
  write (live buf) i s =
      if ltb i (length buf) then done (live (set buf i s)) else fault out_of_bounds

  -- `memcpy` of `n` points from an array: reading past its end is a fault.
  unfoldable pub copy_points : ℕ → List P → Outcome (List P)
  copy_points n src = if leb n (length src) then done (take n src) else fault out_of_bounds

  unfoldable pub used_size : LidarDataQueue P → ℕ
  used_size q = sub32 q.wr_idx q.rd_idx

  unfoldable pub unused_size : LidarDataQueue P → ℕ
  unused_size q = sub32 q.size (used_size q)

  unfoldable pub is_full : LidarDataQueue P → Bool
  is_full q = ltb q.mask (sub32 q.wr_idx q.rd_idx)

  unfoldable pub is_empty : LidarDataQueue P → Bool
  is_empty q = q.rd_idx == q.wr_idx

  -- `new StoragePacket[n]` leaves the numbers indeterminate: `junk` is what they are.
  unfoldable pub init_queue :
      StoragePacket P → Option (LidarDataQueue P) → ℕ → Outcome (Bool × Option (LidarDataQueue P))
  unfolding release
  init_queue junk none queue_size = done (false, none)
  init_queue junk (some q) queue_size = do
    let n = if is_power_of_2 queue_size then queue_size else roundup_power_of_2 queue_size
    release q.storage_packet
    done (
      true,
      some (record {
        storage_packet = live (replicate n junk);
        rd_idx = 0;
        wr_idx = 0;
        mask = sub32 n 1;
        size = n;
      }),
    )

  -- The pointer keeps its value: after `delete[]` it dangles.
  after_delete : Storage P → Storage P
  after_delete null = null
  after_delete (live buf) = freed
  after_delete freed = freed

  unfoldable pub deinit_queue :
      Option (LidarDataQueue P) → Outcome (Bool × Option (LidarDataQueue P))
  unfolding release after_delete
  deinit_queue none = done (false, none)
  deinit_queue (some q) = do
    release q.storage_packet
    done (
      true,
      some (record {
        storage_packet = after_delete q.storage_packet;
        rd_idx = 0;
        wr_idx = 0;
        mask = 0;
        size = 0;
      }),
    )

  unfoldable pub reset_queue : LidarDataQueue P → LidarDataQueue P
  reset_queue q = record q { rd_idx = 0; wr_idx = 0 }

  -- The packet that goes through `storage_packet`; `none` for the return value false.
  unfoldable pub queue_pre_pop :
      Option (LidarDataQueue P) → Option (StoragePacket P) → Outcome (Option (StoragePacket P))
  unfolding read copy_points is_empty
  queue_pre_pop none out = done none
  queue_pre_pop (some q) none = done none
  queue_pre_pop (some q) (some out) = if is_empty q then done none else (do
    s ← read q.storage_packet (bit_and q.rd_idx q.mask)
    points ← copy_points s.points_num s.points
    done (some (record { base_time = s.base_time; points_num = s.points_num; points = points })))

  unfoldable pub queue_pop_update : LidarDataQueue P → LidarDataQueue P
  queue_pop_update q = record q { rd_idx = add32 q.rd_idx 1 }

  unfoldable pub queue_pop :
      LidarDataQueue P
      → Option (StoragePacket P)
      → Outcome (Option (StoragePacket P) × LidarDataQueue P)
  unfolding queue_pre_pop queue_pop_update
  queue_pop q out = do
    popped ← queue_pre_pop (some q) out
    elim popped [ none ↦ done (none, q) | some s ↦ done (some s, queue_pop_update q) ]

  unfoldable pub queue_push_any :
      LidarDataQueue P → PointPacket P → ℕ → Outcome (ℕ × LidarDataQueue P)
  unfolding write copy_points
  queue_push_any q pkt base_time = do
    points ← copy_points pkt.points_num pkt.points
    storage ←
        write q.storage_packet (bit_and q.wr_idx q.mask)
          (record { base_time = base_time; points_num = pkt.points_num; points = points })
    done (1, record q { storage_packet = storage; wr_idx = add32 q.wr_idx 1 })
