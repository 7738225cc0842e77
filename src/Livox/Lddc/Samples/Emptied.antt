-- ===== src/Livox/Lddc/Samples/Emptied.antt =====
-- Every sample of a device that is sampling goes out, once and in order.
use mathlib.Core.List.{append_assoc, append-nil}
use robot_nav.Prelude.{
  ℕ, zero, suc, ◌<◌, ◌≡◌, sym, ap, ◌∙◌, Bool, true, false, some, List, [], ◌∷◌, ◌++◌, arith, length,
  All, Bool-cases, inl, inr, if◌then◌else◌,
}
use robot_nav.Livox.Imu.{ImuData}
use robot_nav.Livox.Imu as Imu
use robot_nav.Livox.Semaphore.{wait}
use robot_nav.Livox.Lds.Defs.{Lds, LidarDevice}
use robot_nav.Livox.Lddc.{goes_out, Loop, ended}
use robot_nav.Livox.Lddc.Messages.{ImuMsg, init_imu_msg}
use robot_nav.Livox.Lddc.Samples.{
  returned, ran, publish_imu_data, polling_lidar_imu_data, is_sampling, poll_if, poll_device,
  poll_devices, distribute_imu_data, with_samples, also, with_devices, after_wait,
}

module _ {F : Type 0} where
  -- The messages of some samples of one device.
  abbrev pub messages : ℕ → List (ImuData F) → List (ℕ × ImuMsg F)
  messages index [] = []
  messages index (x ∷ l) = (index, init_imu_msg x) ∷ messages index l

  -- Those that go out, where the device is sampling or not, and where the output goes to ROS or not.
  abbrev pub sent_if : Bool → ℕ → ℕ → List (ImuData F) → List (ℕ × ImuMsg F)
  sent_if true output_type index queue = if goes_out output_type then messages index queue else []
  sent_if false output_type index queue = []

  polling_empties :
      (output_type index rounds : ℕ) (queue : List (ImuData F)) (out : List (ℕ × ImuMsg F))
      → length queue < rounds
      → polling_lidar_imu_data output_type false index rounds queue out
        ≡ ended (out ++ sent_if true output_type index queue, [])
  unfolding polling_lidar_imu_data publish_imu_data Imu.empty
  polling_empties output_type index zero queue out h = absurd (omega arith)
  polling_empties output_type index (suc rounds) [] out h =
      elim (Bool-cases (goes_out output_type)) [
        | inl o ↦ rw o (ap (λ (l : List (ℕ × ImuMsg F)). ended (l, [])) (sym (append-nil out)))
        | inr o ↦ rw o (ap (λ (l : List (ℕ × ImuMsg F)). ended (l, [])) (sym (append-nil out)))
      ]
  polling_empties output_type index (suc rounds) (x ∷ queue) out h =
      elim (Bool-cases (goes_out output_type)) [
        | inl o ↦
            let out' = out ++ ((index, init_imu_msg x) ∷ []) in
            let rest = polling_empties output_type index rounds queue out' (omega arith) in
            rw o (
              (rw o at rest)
              ∙ ap (λ (l : List (ℕ × ImuMsg F)). ended (l, []))
                  (append_assoc out ((index, init_imu_msg x) ∷ []) (messages index queue)))
        | inr o ↦
            let rest = polling_empties output_type index rounds queue out (omega arith) in
            rw o (rw o at rest)
      ]

module _ {P F : Type 0} where
  -- What goes out of a device, and what is left of it.
  abbrev pub sent : ℕ → ℕ → LidarDevice P F → List (ℕ × ImuMsg F)
  sent output_type index d = sent_if (is_sampling d.connect_state) output_type index d.imu_data

  abbrev pub drained_if : Bool → LidarDevice P F → LidarDevice P F
  drained_if true d = record d { imu_data = [] }
  drained_if false d = d

  abbrev pub drained : LidarDevice P F → LidarDevice P F
  drained d = drained_if (is_sampling d.connect_state) d

  abbrev pub all_sent : ℕ → ℕ → List (LidarDevice P F) → List (ℕ × ImuMsg F)
  all_sent output_type index [] = []
  all_sent output_type index (d ∷ l) =
      sent output_type index d ++ all_sent output_type (suc index) l

  abbrev pub all_drained : List (LidarDevice P F) → List (LidarDevice P F)
  all_drained [] = []
  all_drained (d ∷ l) = drained d ∷ all_drained l

  poll_empties :
      (b : Bool) (output_type rounds index : ℕ) (d : LidarDevice P F) (out : List (ℕ × ImuMsg F))
      → length d.imu_data < rounds
      → poll_if output_type b false rounds index d out
        ≡ ended (out ++ sent_if b output_type index d.imu_data, drained_if b d)
  unfolding poll_if with_samples
  poll_empties false output_type rounds index d out h =
      ap (λ (t : List (ℕ × ImuMsg F)). ended (t, d)) (sym (append-nil out))
  poll_empties true output_type rounds index d out h =
      ap (with_samples d) (polling_empties output_type index rounds d.imu_data out h)

  device_empties :
      (output_type rounds index : ℕ) (d : LidarDevice P F) (out : List (ℕ × ImuMsg F))
      → length d.imu_data < rounds
      → poll_device output_type false rounds index d out
        ≡ ended (out ++ sent output_type index d, drained d)
  unfolding poll_device
  device_empties output_type rounds index d out h =
      poll_empties (is_sampling d.connect_state) output_type rounds index d out h

  devices_empty :
      (output_type rounds index : ℕ) (l : List (LidarDevice P F)) (out : List (ℕ × ImuMsg F))
      → All (λ (d : LidarDevice P F). length d.imu_data < rounds) l
      → poll_devices output_type false rounds index l out
        ≡ ended (out ++ all_sent output_type index l, all_drained l)
  unfolding poll_devices also
  devices_empty output_type rounds index [] out all =
      ap (λ (t : List (ℕ × ImuMsg F)). ended (t, [])) (sym (append-nil out))
  devices_empty output_type rounds index (d ∷ l) out (short, all) =
      rw
        (
          device_empties output_type rounds index d out short,
          poll_devices,
          devices_empty output_type rounds (suc index) l (out ++ sent output_type index d) all,
        )
        (ap (λ (t : List (ℕ × ImuMsg F)). ended (t, all_drained (d ∷ l)))
          (append_assoc out (sent output_type index d) (all_sent output_type (suc index) l)))

  -- With no request to exit, a positive count of the semaphore and more rounds for each device than its
  -- queue holds samples, `DistributeImuData` ends. Where the output goes to ROS, the messages that go
  -- out are those of all samples of the devices that are sampling, device by device and in their order,
  -- else none goes out. The queues of these devices are empty then, the other devices are as before, and
  -- the count is one less.
  pub distribute_imu_data_lem :
      (output_type rounds count : ℕ) (s : Lds P F)
      → s.request_exit ≡ false
      → s.imu_semaphore ≡ suc count
      → All (λ (d : LidarDevice P F). length d.imu_data < rounds) s.lidars
      → distribute_imu_data output_type rounds (some s)
        ≡ ran (
            ended (
              all_sent output_type 0 s.lidars,
              record s { imu_semaphore = count; lidars = all_drained s.lidars },
            ))
  unfolding distribute_imu_data after_wait with_devices wait
  distribute_imu_data_lem output_type rounds count s stays signalled short =
      let choose = λ (b : Bool).
        if b then returned else after_wait output_type rounds s (wait s.imu_semaphore) in
      let emptied =
        ap (λ (b : Bool). poll_devices output_type b rounds 0 s.lidars []) stays
        ∙ devices_empty output_type rounds 0 s.lidars [] short in
      ap choose stays
      ∙ ap (λ (n : ℕ). after_wait output_type rounds s (wait n)) signalled
      ∙ ap (λ (l : Loop _). ran (with_devices (record s { imu_semaphore = count }) l)) emptied
