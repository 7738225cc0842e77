-- ===== src/Livox/Tests.antt =====
-- The driver's queues, device table and data source at concrete inputs. A point is a number.
mod Source
mod Publish
mod Devices
mod Document
mod Packets
mod Samples
use robot_nav.Prelude.{
  ℕ, zero, suc, ◌+◌, ◌-◌, ◌^◌, ◌≤◌, ◌<◌, ◌≡◌, ◌≢◌, ◌↔◌, ◌⊎◌, inl, inr, refl, Bool, true, false,
  Option, none, some, List, [], ◌∷◌, ◌++◌, arith, length, All, get_or, get_elem?, replicate, set,
}
use robot_nav.Livox.Fault.{done, fault, double_free, use_after_free}
use robot_nav.Livox.Keys.{handle_key, handle_key_injective}
use robot_nav.Livox.Ldq.{
  StoragePacket, PointPacket, null, live, freed, LidarDataQueue, is_power_of_2, roundup_loop,
  roundup_power_of_2, used_size, unused_size, is_full, is_empty, init_queue, deinit_queue,
  queue_pop, queue_push_any,
}
use robot_nav.Livox.Ldq.Bounds.{is_power_of_2_iff, roundup_power_of_2_least}
use robot_nav.Livox.Ldq.Window.{contents}
use robot_nav.Livox.Ldq.Invariant.{IsValid}
use robot_nav.Livox.Ldq.Refine.{stored_packet, sizes_lem, push_refines}
use robot_nav.Livox.Ldq.Pop.{pop_refines}
use robot_nav.Livox.Ldq.Lifetime.{init_queue_lem, deinit_queue_dangles}

-- A ring of two packets whose counters are about to wrap: packet 2^32 - 1 stands in slot 1.
abbrev packet : ℕ → StoragePacket ℕ
packet t = record { base_time = t; points_num = 2; points = 7 ∷ 8 ∷ [] }

abbrev blank_packet : StoragePacket ℕ
blank_packet = record { base_time = 0; points_num = 0; points = [] }

abbrev ring : LidarDataQueue ℕ
ring = record {
  storage_packet = live (blank_packet ∷ packet 5 ∷ []);
  rd_idx = 2 ^ 32 - 1;
  wr_idx = 0;
  mask = 1;
  size = 2;
}

ring-IsValid : IsValid ring
unfolding used_size contents
ring-IsValid = record {
  k = 1;
  buf = blank_packet ∷ packet 5 ∷ [];
  k_small = omega arith;
  size_pow = refl;
  mask_low = refl;
  stored = refl;
  slots_num = refl;
  rd_word = omega arith;
  wr_word = omega arith;
  used_fits = omega arith;
  whole = (refl, tt);
}

abbrev incoming : PointPacket ℕ
incoming = record { handle = 9; lidar_type = 8; points_num = 1; points = 4 ∷ 5 ∷ [] }

push_refines_example :
    (q' : LidarDataQueue ℕ) × (queue_push_any ring incoming 6 ≡ done (1, q'))
    × IsValid q'
    × (contents q' ≡ contents ring ++ (stored_packet incoming 6 ∷ []))
unfolding is_full
push_refines_example = push_refines ring-IsValid incoming 6 refl (omega arith)

pop_refines_example :
    ((contents ring ≡ []) × (queue_pop ring (some blank_packet) ≡ done (none, ring)))
    ⊎ ((s : StoragePacket ℕ) × (q' : LidarDataQueue ℕ) × (contents ring ≡ s ∷ contents q')
        × (queue_pop ring (some blank_packet) ≡ done (some s, q'))
        × IsValid q')
pop_refines_example = pop_refines ring-IsValid blank_packet

abbrev unallocated : LidarDataQueue ℕ
unallocated = record { storage_packet = null; rd_idx = 0; wr_idx = 0; mask = 0; size = 0 }

-- `CalculatePacketQueueSize` asks for 10 packets, and gets 16.
init_size : roundup_power_of_2 10 ≡ 16
unfolding roundup_power_of_2 roundup_loop
init_size = refl

deinit_queue_dangles_example :
    (q' : LidarDataQueue ℕ) × (deinit_queue (some ring) ≡ done (true, some q'))
    × (is_full q' ≡ false)
    × (deinit_queue (some q') ≡ fault double_free)
    × ((n : ℕ) → init_queue blank_packet (some q') n ≡ fault double_free)
    × ((pkt : PointPacket ℕ) (base_time : ℕ)
        → pkt.points_num ≤ length pkt.points
        → queue_push_any q' pkt base_time ≡ fault use_after_free)
deinit_queue_dangles_example =
    deinit_queue_dangles blank_packet ring (blank_packet ∷ packet 5 ∷ []) refl
