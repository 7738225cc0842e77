-- ===== src/Livox/Lddc/Drain.antt =====
-- Emptying a queue: what is published, and when the loop ends.
use mathlib.Core.List.{append_assoc, append-nil}
use robot_nav.Prelude.{
  ℕ, zero, suc, ◌<◌, ◌≡◌, refl, ap, ◌∙◌, inl, inr, Bool, true, false, List, [], ◌∷◌, ◌++◌, arith,
  length, Bool-cases, ◌⊎◌, if◌then◌else◌,
}
use robot_nav.Livox.Fault.{done}
use robot_nav.Livox.Ldq.{StoragePacket, Storage, LidarDataQueue, is_empty}
use robot_nav.Livox.Ldq.Window.{contents}
use robot_nav.Livox.Ldq.Invariant.{IsValid}
use robot_nav.Livox.Ldq.Refine.{sizes_lem}
use robot_nav.Livox.Ldq.Pop.{pop_refines}
use robot_nav.Livox.Lddc.{
  TransferFormat, point_cloud_2, custom_msg, pcl_pxyzi, ended, running, Publishing, goes_out,
  has_points, publish_packet, publish_all, publish_format, poll_from, poll_storage,
  polling_lidar_point_cloud_data,
}

module _ {P : Type 0} where
  -- The packets that are to be published.
  abbrev pub with_points : List (StoragePacket P) → List (StoragePacket P)
  with_points [] = []
  with_points (s ∷ l) = elim (has_points s) [ true ↦ s ∷ with_points l | false ↦ with_points l ]

  -- Those of them that are put out.
  abbrev pub put_out : ℕ → List (StoragePacket P) → List (StoragePacket P)
  put_out output_type l = if goes_out output_type then with_points l else []

  publish_packet-put_out :
      (output_type : ℕ) (published : List (StoragePacket P)) (s : StoragePacket P)
      (l : List (StoragePacket P))
      → publish_packet output_type published s ++ put_out output_type l
        ≡ published ++ put_out output_type (s ∷ l)
  unfolding publish_packet
  publish_packet-put_out output_type published s l = elim (Bool-cases (has_points s)) [
    | inl e ↦ elim (Bool-cases (goes_out output_type)) [
      | inl o ↦
          rw (e, o, publish_packet, with_points) (append_assoc published (s ∷ []) (with_points l))
      | inr o ↦ rw (e, o, publish_packet, with_points) refl
    ]
    | inr e ↦ rw (e, publish_packet, with_points) refl
  ]

  -- The queue is emptied, and just those packets are published.
  abbrev pub Drained : ℕ → List (StoragePacket P) → List (StoragePacket P) → Publishing P → Type 0
  Drained output_type published held r =
      (q' : LidarDataQueue P) × (r ≡ done (ended (published ++ put_out output_type held, q')))
      × IsValid q'
      × (contents q' ≡ [])

  module _ (fresh : StoragePacket P) (output_type : ℕ) where
    busy_of_cons :
        {q : LidarDataQueue P} {s : StoragePacket P} {l : List (StoragePacket P)}
        → IsValid q
        → contents q ≡ s ∷ l
        → is_empty q ≡ false
    busy_of_cons {q} v e = elim (Bool-cases (is_empty q)) [
      | inl empty ↦ let nil = (sizes_lem v).3.0 empty in cc
      | inr busy ↦ busy
    ]

    nothing_left :
        (published : List (StoragePacket P)) → published ++ put_out output_type [] ≡ published
    nothing_left published = elim (Bool-cases (goes_out output_type)) [
      | inl o ↦ rw o (append-nil published)
      | inr o ↦ rw o (append-nil published)
    ]

    publish_all-Drained :
        (fuel : ℕ) (published : List (StoragePacket P)) {q : LidarDataQueue P}
        → IsValid q
        → length (contents q) < fuel
        → Drained output_type published
            (contents q)
            (publish_all fresh output_type fuel published q)
    unfolding publish_all
    publish_all-Drained zero published v h = absurd (omega arith)
    publish_all-Drained (suc fuel) published {q} v h = elim (pop_refines v fresh) [
      | inl (nil, ran) ↦
          (q, rw ((sizes_lem v).3.1 nil, nil, nothing_left published, publish_all) refl, v, nil)
      | inr (s, q', e, ran, v') ↦
          let (q2, ran', v2, nil) =
            publish_all-Drained fuel (publish_packet output_type published s) v'
              (omega (arith, ap length e)) in
          (
            q2,
            rw (busy_of_cons v e, ran, publish_all)
                (ran' ∙ rw (publish_packet-put_out output_type published s (contents q'), e) refl),
            v2,
            nil,
          )
    ]

    module _ (fuel : ℕ) (format : TransferFormat) (request_exit : ℕ → Bool) where
      abbrev polled : ℕ → LidarDataQueue P → Publishing P
      polled = polling_lidar_point_cloud_data fresh output_type fuel format request_exit

      -- A round of a supported format empties a valid queue.
      round_lem :
          {q : LidarDataQueue P}
          → (format ≡ point_cloud_2) ⊎ (format ≡ custom_msg)
          → IsValid q
          → length (contents q) < fuel
          → Drained output_type [] (contents q) (publish_format fresh output_type fuel format [] q)
      unfolding publish_format
      round_lem (inl e) v h = rw e (publish_all-Drained fuel [] v h)
      round_lem (inr e) v h = rw e (publish_all-Drained fuel [] v h)

      polled_live :
          {q : LidarDataQueue P} (rounds : ℕ)
          → IsValid q
          → polled rounds q ≡ poll_from fresh output_type fuel format request_exit rounds 0 [] q
      unfolding polling_lidar_point_cloud_data poll_storage
      polled_live {q} rounds v =
          ap (λ (s : Storage P). poll_storage fresh output_type fuel format request_exit s rounds q)
            v.stored

      poll_ended :
          (rounds i : ℕ) (published : List (StoragePacket P)) {q : LidarDataQueue P}
          → is_empty q ≡ true
          → ((i : ℕ) → request_exit i ≡ false)
          → poll_from fresh output_type fuel format request_exit (suc rounds) i published q
            ≡ done (ended (published, q))
      unfolding poll_from
      poll_ended rounds i published empty stay = rw (stay i, empty, poll_from) refl

      -- For the formats PointCloud2 and CustomMsg, a valid queue, no request to exit, an inner loop of
      -- more rounds than the queue holds packets and an outer one of at least two, the polling of a
      -- device ends with no fault and leaves a valid empty queue. Where the output goes to ROS it
      -- publishes just the packets that have points, in the order in which they came, else nothing.
      pub polling_drains :
          (rounds : ℕ) (q : LidarDataQueue P)
          → (format ≡ point_cloud_2) ⊎ (format ≡ custom_msg)
          → IsValid q
          → length (contents q) < fuel
          → ((i : ℕ) → request_exit i ≡ false)
          → Drained output_type [] (contents q) (polled (suc (suc rounds)) q)
      unfolding poll_from
      polling_drains rounds q supported v h stay = elim (Bool-cases (is_empty q)) [
        | inl empty ↦
            let nil = (sizes_lem v).3.0 empty in
            (q, polled_live _ v ∙ rw (stay 0, empty, nil, nothing_left [], poll_from) refl, v, nil)
        | inr busy ↦
            let (q', ran, v', nil) = round_lem supported v h in
            let empty : is_empty q' ≡ true = (sizes_lem v').3.1 nil in
            (
              q',
              polled_live _ v
                  ∙ rw (stay 0, busy, ran, poll_from) (poll_ended rounds 1 _ empty stay),
              v',
              nil,
            )
      ]

    stuck_from :
        (fuel : ℕ) (request_exit : ℕ → Bool) (rounds i : ℕ) (q : LidarDataQueue P)
        → is_empty q ≡ false
        → ((i : ℕ) → request_exit i ≡ false)
        → poll_from fresh output_type fuel pcl_pxyzi request_exit rounds i [] q ≡ done running
    unfolding poll_from publish_format
    stuck_from fuel request_exit zero i q busy stay = refl
    stuck_from fuel request_exit (suc rounds) i q busy stay =
        rw (stay i, busy, poll_from) (stuck_from fuel request_exit rounds (suc i) q busy stay)

    -- With the format of PCL messages, which ROS 2 does not support, the polling of a valid queue that
    -- holds a packet never ends, as long as no exit is requested: no number of rounds is enough.
    pub polling_pcl_stuck :
        (fuel : ℕ) (request_exit : ℕ → Bool) (rounds : ℕ) (q : LidarDataQueue P)
        → IsValid q
        → 0 < length (contents q)
        → ((i : ℕ) → request_exit i ≡ false)
        → polling_lidar_point_cloud_data fresh output_type fuel pcl_pxyzi request_exit rounds q
          ≡ done running
    polling_pcl_stuck fuel request_exit rounds q v h stay = elim (Bool-cases (is_empty q)) [
      | inl empty ↦ absurd (omega (arith, ap length ((sizes_lem v).3.0 empty)))
      | inr busy ↦
          polled_live fuel pcl_pxyzi request_exit rounds v
          ∙ stuck_from fuel request_exit rounds 0 q busy stay
    ]
