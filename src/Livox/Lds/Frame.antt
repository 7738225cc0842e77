-- ===== src/Livox/Lds/Frame.antt =====
-- `Lds::StoragePointData`: a whole frame into the queues of the devices that the table knows.
use robot_nav.Prelude.{
  ℕ, zero, suc, ◌+◌, ◌^◌, ◌≤◌, ◌≡◌, inl, inr, refl, ◌∙◌, some, List, [], ◌∷◌, arith, length,
  length-set, get_elem?, set, All, get_elem?_inside, All-get_elem?, Option-cases,
}
use mathlib.Core.Path.{subst}
use mathlib.Core.Option.{some-injective}
use robot_nav.Livox.Fault.{Outcome, done}
use robot_nav.Livox.Ldq.{StoragePacket, PointPacket}
use robot_nav.Livox.CacheIndex.{get_index, max_source_lidar}
use robot_nav.Livox.CacheIndex.Invariant.{IsValid as CacheIsValid}
use robot_nav.Livox.CacheIndex.Client.{get_index-lt}
use robot_nav.Livox.Lds.Defs.{
  Lds, LidarDevice, PointFrame, calculate_packet_queue_size, store_packet, store_from,
  storage_point_data,
}
use robot_nav.Livox.Lds.Push.{IsReady, stored_at, push_lidar_data_lem}

-- A packet that has the points it announces.
abbrev pub IsWhole : {P : Type 0} → PointPacket P → Type 0
IsWhole pkt = pkt.points_num ≤ length pkt.points

module _ {P F : Type 0} where
  -- Between two calls: 32 devices, each with a queue that is ready, a count of at most 1 in the
  -- semaphore, a valid device table, and a publishing frequency whose queue size is a power of two.
  pub record IsValid (s : Lds P F) : Type 0 where
    pub lidars_num : length s.lidars ≡ max_source_lidar
    pub ready : (i : ℕ) (d : LidarDevice P F) → get_elem? s.lidars i ≡ some d → IsReady d.points
    pub idle : s.pcd_semaphore ≤ 1
    pub table : CacheIsValid s.cache_index
    pub queue_size : calculate_packet_queue_size s.publish_freq ≤ 2 ^ 31

  All-set :
      (Q : LidarDevice P F → Type 0) (l : List (LidarDevice P F)) (i : ℕ) (d : LidarDevice P F)
      → Q d
      → ((j : ℕ) (e : LidarDevice P F) → get_elem? l j ≡ some e → Q e)
      → (j : ℕ) (e : LidarDevice P F) → get_elem? (set l i d) j ≡ some e
      → Q e
  All-set Q [] i d q all j e h = cc
  All-set Q (x ∷ l) zero d q all zero e h = subst Q (some-injective d e h) q
  All-set Q (x ∷ l) zero d q all (suc j) e h = all (suc j) e h
  All-set Q (x ∷ l) (suc i) d q all zero e h = all zero e h
  All-set Q (x ∷ l) (suc i) d q all (suc j) e h = All-set Q l i d q (λ k. all (suc k)) j e h

  stored-IsValid :
      {s : Lds P F} (i : ℕ) (old d : LidarDevice P F)
      → IsValid s
      → IsReady d.points
      → IsValid (stored_at s i old d)
  stored-IsValid {s} i old d v r = record {
    lidars_num = length-set s.lidars i d ∙ v.lidars_num;
    ready = All-set (λ e. IsReady e.points) s.lidars i d r v.ready;
    idle = omega arith;
    table = v.table;
    queue_size = v.queue_size;
  }

  -- A later state of the data source, valid and with the same table.
  abbrev pub Stored : Lds P F → Outcome (Lds P F) → Type 0
  Stored s r = (s' : Lds P F) × (r ≡ done s') × IsValid s' × (s'.cache_index ≡ s.cache_index)

  module _ (junk : StoragePacket P) where
    store_packet_lem :
        {s : Lds P F} (pkt : PointPacket P) (t : ℕ)
        → IsValid s
        → IsWhole pkt
        → Stored s (store_packet junk s pkt t)
    unfolding store_packet
    store_packet_lem {s} pkt t v w =
        elim (Option-cases (get_index s.cache_index pkt.lidar_type pkt.handle)) [
          | inl unknown ↦ (s, rw (unknown, store_packet), v, refl)
          | inr (i, known) ↦
              let (d, at) = get_elem?_inside s.lidars i (
                omega
                  (arith, v.lidars_num, get_index-lt v.table pkt.lidar_type pkt.handle known)) in
              let (d', ran, pushed) =
                push_lidar_data_lem s i d junk pkt t at (v.ready i d at) v.queue_size w v.idle in
              (
                stored_at s i d d',
                rw (known, store_packet) ran,
                stored-IsValid i d d' v (inr pushed.valid),
                refl,
              )
        ]

    step_equation :
        (rounds i : ℕ) (frame : PointFrame P) (s s1 : Lds P F) (pkt : PointPacket P) (t : ℕ)
        → get_elem? frame.lidar_point i ≡ some pkt
        → get_elem? frame.base_time i ≡ some t
        → store_packet junk s pkt t ≡ done s1
        → store_from junk (suc rounds) i frame s ≡ store_from junk rounds (i + 1) frame s1
    unfolding store_from
    step_equation rounds i frame s s1 pkt t at at' ran = rw (at, at', ran, store_from)

    store_from_lem :
        (rounds i : ℕ) (frame : PointFrame P) {s : Lds P F}
        → IsValid s
        → All IsWhole frame.lidar_point
        → i + rounds ≤ length frame.lidar_point
        → i + rounds ≤ length frame.base_time
        → Stored s (store_from junk rounds i frame s)
    unfolding store_from
    store_from_lem zero i frame {s} v w h h' = (s, refl, v, refl)
    store_from_lem (suc rounds) i frame {s} v w h h' =
        let (pkt, at) = get_elem?_inside frame.lidar_point i (omega arith) in
        let (t, at') = get_elem?_inside frame.base_time i (omega arith) in
        let (s1, ran1, v1, c1) =
          store_packet_lem pkt t v (All-get_elem? IsWhole frame.lidar_point i w at) in
        let (s2, ran2, v2, c2) =
          store_from_lem rounds (i + 1) frame v1 w (omega arith) (omega arith) in
        (s2, step_equation rounds i frame s s1 pkt t at at' ran1 ∙ ran2, v2, c2 ∙ c1)

    -- In a valid data source, a frame whose arrays are at least as long as its number of packets
    -- and whose packets have the points that they announce is stored with no fault: the data source
    -- stays valid and its table is as before.
    pub storage_point_data_lem :
        (s : Lds P F) (frame : PointFrame P)
        → IsValid s
        → All IsWhole frame.lidar_point
        → frame.lidar_num ≤ length frame.lidar_point
        → frame.lidar_num ≤ length frame.base_time
        → Stored s (storage_point_data junk s (some frame))
    unfolding storage_point_data
    storage_point_data_lem s frame v w h h' =
        store_from_lem frame.lidar_num 0 frame v w (omega arith) (omega arith)
