-- ===== src/Livox/Lds/Push.antt =====
-- `Lds::PushLidarData`: one packet into the queue of one device.
use robot_nav.Prelude.{
  ℕ, ◌^◌, ◌≤◌, ◌≡◌, ◌≢◌, ◌⊎◌, inl, inr, refl, sym, ap, ◌∙◌, Bool, false, some, List, [], ◌∷◌, ◌++◌,
  arith, length, length-append, get_elem?, set, Bool-cases,
}
use robot_nav.Livox.Fault.{done}
use robot_nav.Livox.Ldq.{
  StoragePacket, PointPacket, Storage, null, live, freed, LidarDataQueue, is_full, is_empty,
  init_queue,
}
use robot_nav.Livox.Ldq.Window.{contents}
use robot_nav.Livox.Ldq.Invariant.{IsValid}
use robot_nav.Livox.Ldq.Refine.{stored_packet, push_refines, sizes_lem}
use robot_nav.Livox.Ldq.Lifetime.{init_queue_lem}
use robot_nav.Livox.Semaphore.{signal_if_idle}
use robot_nav.Livox.Lds.Defs.{
  Lds, LidarDevice, Frequency, calculate_packet_queue_size, ensure_queue, push_or_drop,
  push_lidar_data, device,
}

module _ {P : Type 0} where
  -- A queue that is not allocated yet, and empty, or that is valid.
  abbrev pub IsReady : LidarDataQueue P → Type 0
  IsReady q = ((q.storage_packet ≡ null) × (contents q ≡ [])) ⊎ IsValid q

  -- What a call of `ensure_queue` leaves.
  pub record Ensured (junk : StoragePacket P) (f : Frequency) (q : LidarDataQueue P) : Type 0 where
    pub queue : LidarDataQueue P
    pub ran : ensure_queue junk f q q.storage_packet ≡ done queue
    pub valid : IsValid queue
    pub same : contents queue ≡ contents q

  ensure_null :
      (junk : StoragePacket P) (f : Frequency) (q q' : LidarDataQueue P) (p : Storage P) {b : Bool}
      → p ≡ null
      → init_queue junk (some q) (calculate_packet_queue_size f) ≡ done (b, some q')
      → ensure_queue junk f q p ≡ done q'
  unfolding ensure_queue
  ensure_null junk f q q' null e ran = rw ran
  ensure_null junk f q q' (live buf) e ran = cc
  ensure_null junk f q q' freed e ran = cc

  ensure_live :
      (junk : StoragePacket P) (f : Frequency) (q : LidarDataQueue P) (p : Storage P)
      → p ≢ null
      → ensure_queue junk f q p ≡ done q
  unfolding ensure_queue
  ensure_live junk f q null e = absurd (e refl)
  ensure_live junk f q (live buf) e = refl
  ensure_live junk f q freed e = refl

  ensured :
      (junk : StoragePacket P) (f : Frequency) (q : LidarDataQueue P)
      → calculate_packet_queue_size f ≤ 2 ^ 31
      → IsReady q
      → Ensured junk f q
  ensured junk f q h (inl (unallocated, nothing)) =
      let (q', ran, valid, empty, _) =
        init_queue_lem junk q (calculate_packet_queue_size f) (λ e. cc) h in
      record {
        queue = q';
        ran = ensure_null junk f q q' q.storage_packet unallocated ran;
        valid = valid;
        same = empty ∙ sym nothing;
      }
  ensured junk f q h (inr v) = record {
    queue = q;
    ran = ensure_live junk f q q.storage_packet (λ e. cc (v.stored));
    valid = v;
    same = refl;
  }

  busy_of_held :
      {q : LidarDataQueue P} (xs : List (StoragePacket P)) (x : StoragePacket P)
      → IsValid q
      → contents q ≡ xs ++ (x ∷ [])
      → is_empty q ≡ false
  busy_of_held {q} xs x v e = elim (Bool-cases (is_empty q)) [
    | inl none_held ↦
        absurd (
          omega (arith, ap length (sym e ∙ (sizes_lem v).3.0 none_held), length-append xs (x ∷ [])))
    | inr busy ↦ busy
  ]

-- How one packet fares in a device: it is the newest of its queue, or the queue was full and dropped it.
pub record Pushed {P F : Type 0} (d d' : LidarDevice P F) (pkt : PointPacket P) (t : ℕ)
    : Type 0 where
  pub valid : IsValid d'.points
  pub imu_kept : d'.imu_data ≡ d.imu_data
  pub handle_kept : d'.handle ≡ d.handle
  pub outcome :
      (contents d'.points ≡ contents d.points ++ (stored_packet pkt t ∷ []))
      ⊎ ((contents d'.points ≡ contents d.points) × (length (contents d.points) ≡ d'.points.size))

signal_once : (n : ℕ) → n ≤ 1 → signal_if_idle n ≡ 1
unfolding signal_if_idle
signal_once n h = ground arith

module _ {P F : Type 0} (s : Lds P F) (index : ℕ) (d : LidarDevice P F) where
  abbrev pub stored_at : LidarDevice P F → Lds P F
  stored_at d' = record s { lidars = set s.lidars index d'; pcd_semaphore = 1 }

  push_or_drop_lem :
      (q : LidarDataQueue P) (pkt : PointPacket P) (t : ℕ)
      → IsValid q
      → contents q ≡ contents d.points
      → pkt.points_num ≤ length pkt.points
      → s.pcd_semaphore ≤ 1
      → (d' : LidarDevice P F) × (push_or_drop s index d q pkt t ≡ done (stored_at d'))
        × Pushed d d' pkt t
  unfolding push_or_drop
  push_or_drop_lem q pkt t v same whole idle = elim (Bool-cases (is_full q)) [
    | inl full ↦ (
      record d { points = q },
      rw (full, signal_once s.pcd_semaphore idle),
      record {
        valid = v;
        imu_kept = refl;
        handle_kept = refl;
        outcome = inr (same, rw (← same) ((sizes_lem v).2.0 full));
      },
    )
    | inr room ↦
        let (q', ran, v', appended) = push_refines v pkt t room whole in
        let busy : is_empty q' ≡ false =
          busy_of_held (contents q) (stored_packet pkt t) v' appended in
        (
          record d { points = q' },
          rw (room, ran, busy, signal_once s.pcd_semaphore idle),
          record {
            valid = v';
            imu_kept = refl;
            handle_kept = refl;
            outcome = inl (rw (← same) appended);
          },
        )
  ]

  push_step :
      (junk : StoragePacket P) (q : LidarDataQueue P) (pkt : PointPacket P) (t : ℕ)
      → get_elem? s.lidars index ≡ some d
      → ensure_queue junk s.publish_freq d.points d.points.storage_packet ≡ done q
      → push_lidar_data junk s (some pkt) index t ≡ push_or_drop s index d q pkt t
  unfolding push_lidar_data
  push_step junk q pkt t at ran = rw (at, ran, push_lidar_data, device)

  -- A packet that has the points it announces, pushed to a device whose queue is allocated and
  -- valid or not yet allocated, with a queue size for the frequency of at most 2^31 and at most 1
  -- in the semaphore, faults nowhere: the queue is made where it is missing, the packet becomes its
  -- newest or is dropped exactly where the queue was full, no other device changes, and the
  -- publisher is woken.
  pub push_lidar_data_lem :
      (junk : StoragePacket P) (pkt : PointPacket P) (t : ℕ)
      → get_elem? s.lidars index ≡ some d
      → IsReady d.points
      → calculate_packet_queue_size s.publish_freq ≤ 2 ^ 31
      → pkt.points_num ≤ length pkt.points
      → s.pcd_semaphore ≤ 1
      → (d' : LidarDevice P F) × (push_lidar_data junk s (some pkt) index t ≡ done (stored_at d'))
        × Pushed d d' pkt t
  push_lidar_data_lem junk pkt t at ready small whole idle =
      let e = ensured junk s.publish_freq d.points small ready in
      let (d', ran, pushed) = push_or_drop_lem e.queue pkt t e.valid e.same whole idle in
      (d', push_step junk e.queue pkt t at e.ran ∙ ran, pushed)
