-- ===== src/Livox/PubHandler/Conserve.antt =====
-- A round of `RawDataProcess`: each point of a packet goes out once, or waits.
use mathlib.Core.List.{append-nil}
use robot_nav.Prelude.{
  ℕ, ◌≤◌, ◌<◌, ◌≡◌, ◌≢◌, ◌⊎◌, refl, ap, ◌∙◌, inl, inr, true, Option, none, some, List, [], ◌∷◌,
  ◌++◌, arith, length, All, ◌==◌, if◌then◌else◌, Bool-cases,
}
use robot_nav.Livox.Fault.{done}
use robot_nav.Livox.Floats.{Floats}
use robot_nav.Livox.CacheIndex.{max_source_lidar, livox_lidar_type}
use robot_nav.Livox.LdsLidar.{LidarExtParameter}
use robot_nav.Livox.Points.{
  PointXyzlt, RawPacket, Format, ExtParameterDetailed, LidarPubHandler, Coordinates,
}
use robot_nav.Livox.Points.Formats.{new_handler, set_lidars_ext_param, point_cloud_process}
use robot_nav.Livox.Points.Converted.{ArePoints, IsFormat, point_cloud_process_lem}
use robot_nav.Livox.PubHandler.{PubHandler, find_id, put_id, get_lidar_id}
use robot_nav.Livox.PubHandler.Ids.{
  find_id-put_id, find_id-put_id_ne, put_id-IsSorted, length-put_id_known, length-put_id,
}
use robot_nav.Livox.PubHandler.Frame.{waiting, pending}
use robot_nav.Livox.PubHandler.Rounds.{check_timer_lem}
use robot_nav.Livox.PubHandler.Publish.{IsValid, IsStorable, published}
use robot_nav.Livox.PubHandler.Timer.{
  Ran, check_timer, handler_for, process_packet, next_packet, raw_data_round,
}

module _ (fl : Floats) (format : Format) where
  open fl use {F}

  -- A packet of a Livox device in one of the three formats, with a line and with its data.
  pub record IsConvertible (pkt : RawPacket) (e : ExtParameterDetailed F) : Type 0 where
    pub read : ℕ → Option (Coordinates F)
    pub livox : pkt.lidar_type ≡ livox_lidar_type
    pub lines : 0 < pkt.line_num
    pub is : IsFormat fl format pkt e read
    pub readable : (i : ℕ) → i < pkt.point_num → (c : Coordinates F) × (read i ≡ some c)

  -- The device is there, or there is room for one.
  abbrev pub HasRoom : PubHandler F → ℕ → Type 0
  HasRoom s id =
      ((h : LidarPubHandler F) × (find_id s.lidar_process_handlers id ≡ some h))
      ⊎ (length s.lidar_process_handlers < max_source_lidar)

  same_points :
      (e : LidarExtParameter F) (h : LidarPubHandler F)
      → (set_lidars_ext_param fl e h).points_clouds ≡ h.points_clouds
  unfolding set_lidars_ext_param
  same_points e h = elim (Bool-cases h.is_set_extrinsic_params) [
    | inl y ↦ rw (set_lidars_ext_param, y) refl
    | inr n ↦ rw (set_lidars_ext_param, n) refl
  ]

  with_extrinsics :
      (o : Option (LidarExtParameter F)) (h : LidarPubHandler F)
      → (elim o as (λ x. LidarPubHandler F) [
        | none ↦ h
        | some e ↦ set_lidars_ext_param fl e h
      ]).points_clouds
        ≡ h.points_clouds
  with_extrinsics none h = refl
  with_extrinsics (some e) h = same_points e h

  found_or_new :
      (o : Option (LidarPubHandler F))
      → (elim o as (λ x. LidarPubHandler F) [ none ↦ new_handler fl | some h ↦ h ]).points_clouds
        ≡ waiting o
  unfolding new_handler waiting
  found_or_new none = refl
  found_or_new (some h) = refl

  handler_for-points :
      (s : PubHandler F) (id : ℕ) → (handler_for fl format s id).points_clouds ≡ pending id s
  unfolding handler_for pending
  handler_for-points s id =
      with_extrinsics (s.lidar_extrinsics id)
        (elim (find_id s.lidar_process_handlers id) [ none ↦ new_handler fl | some h ↦ h ])
      ∙ found_or_new (find_id s.lidar_process_handlers id)

  -- The state in which the timer is checked.
  fed : List RawPacket → ℕ → LidarPubHandler F → PubHandler F → PubHandler F
  fed rest id h s = record s {
    raw_packet_queue = rest;
    lidar_process_handlers = put_id s.lidar_process_handlers id h;
  }

  fed-IsValid :
      (rest : List RawPacket) (id : ℕ) (h : LidarPubHandler F) (s : PubHandler F)
      → IsValid s
      → HasRoom s id
      → IsValid (fed rest id h s)
  unfolding fed
  fed-IsValid rest id h s v room = record {
    opened = record {
      base_times = v.opened.base_times;
      packets = v.opened.packets;
      whole = v.opened.whole;
      sorted = put_id-IsSorted s.lidar_process_handlers id h v.opened.sorted;
      few = few;
    };
    empty_frame = v.empty_frame;
    interval = v.interval;
  }
    where
      few : length (put_id s.lidar_process_handlers id h) ≤ max_source_lidar
      few = elim room [
        | inl (old, found) ↦ omega (
          arith,
          v.opened.few,
          length-put_id_known s.lidar_process_handlers id h v.opened.sorted found,
        )
        | inr less ↦ omega (arith, length-put_id s.lidar_process_handlers id h)
      ]

  fed-pending :
      (rest : List RawPacket) (id j : ℕ) (h : LidarPubHandler F) (l : List (PointXyzlt F))
      (s : PubHandler F)
      → h.points_clouds ≡ pending id s
      → pending j (fed rest id (record h { points_clouds = h.points_clouds ++ l }) s)
        ≡ pending j s ++ (if id == j then l else [])
  unfolding fed pending waiting
  fed-pending rest id j h l s old =
      let h' = record h { points_clouds = h.points_clouds ++ l } in
      elim (Bool-cases (id == j)) [
        | inl y ↦
            let same : id ≡ j = ground (arith, y) in
            rw (y, ← same, pending, find_id-put_id) (ap (λ (t : List (PointXyzlt F)). t ++ l) old)
        | inr n ↦
            let other : j ≢ id = ground (arith, n) in
            rw (n, append-nil, pending, find_id-put_id_ne s.lidar_process_handlers id j h' other)
              refl
      ]

  livox_id :
      (raw : RawPacket)
      → raw.lidar_type ≡ livox_lidar_type
      → (get_lidar_id raw.lidar_type raw.handle 0).1 ≡ raw.handle
  unfolding get_lidar_id
  livox_id raw livox = ap (λ (t : ℕ). (get_lidar_id t raw.handle 0).1) livox

  round_eq :
      (now : ℕ) (s : PubHandler F) (raw : RawPacket) (rest : List RawPacket) {h : LidarPubHandler F}
      → s.raw_packet_queue ≡ raw ∷ rest
      → raw.lidar_type ≡ livox_lidar_type
      → point_cloud_process fl format raw (handler_for fl format s raw.handle) ≡ done h
      → raw_data_round fl format now s ≡ check_timer now raw.handle (fed rest raw.handle h s)
  unfolding raw_data_round next_packet process_packet fed
  round_eq now s raw rest queue livox ran =
      ap (λ (q : List RawPacket). next_packet fl format now q s) queue
      ∙ ap (λ (id : ℕ). process_packet fl format now id raw rest s) (livox_id raw livox)
      ∙ rw (ran, process_packet) refl

  -- In a valid state with the points callback set, a round takes the first packet with no fault, where
  -- it is convertible and its device is there or has room. Its points are converted, and for every
  -- device the points in the frames that go out, and then those that wait, are in order those that
  -- waited before and then, for the device of the packet, the new ones. The state stays valid, and each
  -- frame is within its arrays.
  pub raw_data_round_lem :
      (now : ℕ) (s : PubHandler F) (raw : RawPacket) (rest : List RawPacket)
      → IsValid s
      → s.points_callback ≡ true
      → s.raw_packet_queue ≡ raw ∷ rest
      → (c : IsConvertible raw (handler_for fl format s raw.handle).extrinsic)
      → HasRoom s raw.handle
      → (l : List (PointXyzlt F)) × (out : Ran F) × (raw_data_round fl format now s ≡ done out)
        × (length l ≡ raw.point_num)
        × ArePoints (c.read) raw 0 l
        × IsValid (out.1)
        × All IsStorable (out.0)
        × ((j : ℕ)
            → published j (out.0) ++ pending j (out.1)
              ≡ pending j s ++ (if raw.handle == j then l else []))
  unfolding fed
  raw_data_round_lem now s raw rest v cb queue c room =
      let id = raw.handle in
      let h = handler_for fl format s id in
      let (l, ran, num, points) =
        point_cloud_process_lem fl format raw h c.read c.livox c.lines c.is c.readable in
      let h' = record h { points_clouds = h.points_clouds ++ l } in
      let s1 = fed rest id h' s in
      let (out, ran', checked) =
        check_timer_lem now id h' s1 (fed-IsValid rest id h' s v room) cb
          (find_id-put_id s.lidar_process_handlers id h') in
      (
        l,
        out,
        round_eq now s raw rest queue c.livox ran ∙ ran',
        num,
        points,
        checked.valid,
        checked.storable,
        (λ j. checked.kept j ∙ fed-pending rest id j h l s (handler_for-points s id)),
      )
