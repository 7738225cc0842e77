-- ===== src/Livox/PubHandler/Frame.antt =====
-- The points of a device, in the frame and waiting: adding to the frame only moves them.
use mathlib.Core.List.{append_assoc, append-nil}
use robot_nav.Prelude.{
  ℕ, zero, suc, ◌+◌, ◌%◌, ◌^◌, ◌≤◌, ◌<◌, ◌≡◌, ◌≢◌, refl, sym, ap, ◌∙◌, inl, inr, Bool, true, false,
  Option, none, some, List, [], ◌∷◌, ◌++◌, arith, length, length-set, set, take, All,
  get_elem?_inside, ◌==◌, if◌then◌else◌, Bool-cases,
}
use robot_nav.Livox.Fault.{done}
use robot_nav.Livox.Ldq.{PointPacket}
use robot_nav.Livox.Lds.Defs.{PointFrame}
use robot_nav.Livox.Lds.Frame.{IsWhole}
use robot_nav.Livox.CacheIndex.{max_source_lidar, livox_lidar_type}
use robot_nav.Livox.Points.{
  PointXyzlt, LidarPubHandler, get_lidar_base_time, get_lidar_point_clouds,
}
use robot_nav.Livox.PubHandler.{PubHandler, find_id, put_id, put, write}
use robot_nav.Livox.PubHandler.Ids.{
  find_id-put_id, find_id-put_id_ne, IsSorted, put_id-IsSorted, length-put_id_known,
}
use robot_nav.Livox.PubHandler.Timer.{add_packet, add_to_frame}

write_lem :
    {A : Type 0} (l : List A) (i : ℕ) (a : A) → i < length l → write l i a ≡ done (set l i a)
unfolding write
write_lem l i a h = let (old, at) = get_elem?_inside l i h in rw (at, write) refl

take-set :
    {A : Type 0} (l : List A) (i : ℕ) (a : A)
    → i < length l
    → take (suc i) (set l i a) ≡ take i l ++ (a ∷ [])
take-set [] i a h = absurd (omega arith)
take-set (x ∷ l) zero a h = refl
take-set (x ∷ l) (suc i) a h = ap (λ (t : List _). x ∷ t) (take-set l i a (omega arith))

All-set :
    {A : Type 0} (Q : A → Type 0) (l : List A) (i : ℕ) (a : A) → Q a → All Q l → All Q (set l i a)
All-set Q [] i a q all = tt
All-set Q (x ∷ l) zero a q (here, rest) = (q, rest)
All-set Q (x ∷ l) (suc i) a q (here, rest) = (here, All-set Q l i a q rest)

module _ {F : Type 0} where
  -- The points of the device `j` in some packets.
  unfoldable pub gather : ℕ → List (PointPacket (PointXyzlt F)) → List (PointXyzlt F)
  gather j [] = []
  gather j (pkt ∷ l) = let rest = gather j l in if pkt.handle == j then pkt.points ++ rest else rest

  gather-append :
      (j : ℕ) (l m : List (PointPacket (PointXyzlt F)))
      → gather j (l ++ m) ≡ gather j l ++ gather j m
  unfolding gather
  gather-append j [] m = refl
  gather-append j (pkt ∷ l) m = elim (Bool-cases (pkt.handle == j)) [
    | inl e ↦
        rw (e, gather, gather-append j l m)
          (sym (append_assoc pkt.points (gather j l) (gather j m)))
    | inr e ↦ rw (e, gather, gather-append j l m) refl
  ]

  -- Those in the packets that a frame has taken.
  unfoldable pub in_frame : ℕ → PointFrame (PointXyzlt F) → List (PointXyzlt F)
  unfolding gather
  in_frame j f = gather j (take f.lidar_num f.lidar_point)

  unfoldable pub waiting : Option (LidarPubHandler F) → List (PointXyzlt F)
  waiting none = []
  waiting (some h) = h.points_clouds

  unfoldable pub pending : ℕ → PubHandler F → List (PointXyzlt F)
  unfolding waiting find_id
  pending j s = waiting (find_id s.lidar_process_handlers j)

  unfoldable pub held : ℕ → PubHandler F → List (PointXyzlt F)
  unfolding in_frame pending
  held j s = in_frame j s.frame ++ pending j s

  pub record IsOpen (s : PubHandler F) : Type 0 where
    pub base_times : length s.frame.base_time ≡ max_source_lidar
    pub packets : length s.frame.lidar_point ≡ max_source_lidar
    pub whole : All IsWhole s.frame.lidar_point
    pub sorted : IsSorted s.lidar_process_handlers
    pub few : length s.lidar_process_handlers ≤ max_source_lidar

  emptied : LidarPubHandler F → LidarPubHandler F
  emptied h = record h { points_clouds = [] }

  -- What adding the device `id` to the frame gives.
  pub record Added (id : ℕ) (h : LidarPubHandler F) (s s' : PubHandler F) : Type 0 where
    pub opened : IsOpen s'
    pub num : s'.frame.lidar_num ≤ suc s.frame.lidar_num
    pub same : (j : ℕ) → held j s' ≡ held j s
    pub others :
        (j : ℕ) → j ≢ id → find_id s'.lidar_process_handlers j ≡ find_id s.lidar_process_handlers j
    pub callback : s'.points_callback ≡ s.points_callback
    pub interval : s'.publish_interval_ms ≡ s.publish_interval_ms

  -- The state after a device gave its points to the frame.
  moved : ℕ → LidarPubHandler F → PointFrame (PointXyzlt F) → PubHandler F → PubHandler F
  moved id h frame s = record s {
    frame = frame;
    points = put s.points id h.points_clouds;
    lidar_process_handlers = put_id s.lidar_process_handlers id (emptied h);
  }

  -- Either the frame has the points of the device or the device has them.
  held-moved :
      (id : ℕ) (h : LidarPubHandler F) (frame : PointFrame (PointXyzlt F)) (s : PubHandler F)
      → find_id s.lidar_process_handlers id ≡ some h
      → (j : ℕ) → in_frame j frame ≡ in_frame j s.frame ++ (if id == j then h.points_clouds else [])
      → held j (moved id h frame s) ≡ held j s
  unfolding held pending waiting moved emptied
  held-moved id h frame s found j e = elim (Bool-cases (id == j)) [
    | inl y ↦
        let same : id ≡ j = ground (arith, y) in
        let e' = rw y at e in
        rw (held, pending, e', ← same, find_id-put_id, found)
          (append-nil (in_frame id s.frame ++ h.points_clouds))
    | inr n ↦
        let other : j ≢ id = ground (arith, n) in
        let e' = rw (n, append-nil) at e in
        rw (held, pending, e', find_id-put_id_ne s.lidar_process_handlers id j (emptied h) other)
          refl
  ]

  moved-Added :
      (id : ℕ) (h : LidarPubHandler F) (frame : PointFrame (PointXyzlt F)) (s : PubHandler F)
      → IsOpen s
      → find_id s.lidar_process_handlers id ≡ some h
      → length frame.base_time ≡ max_source_lidar
      → length frame.lidar_point ≡ max_source_lidar
      → All IsWhole frame.lidar_point
      → frame.lidar_num ≤ suc s.frame.lidar_num
      → ((j : ℕ)
          → in_frame j frame ≡ in_frame j s.frame ++ (if id == j then h.points_clouds else []))
      → Added id h s (moved id h frame s)
  unfolding moved
  moved-Added id h frame s v found base_times packets whole num new = record {
    opened = record {
      base_times = base_times;
      packets = packets;
      whole = whole;
      sorted = put_id-IsSorted s.lidar_process_handlers id (emptied h) v.sorted;
      few = omega (
        arith,
        v.few,
        length-put_id_known s.lidar_process_handlers id (emptied h) v.sorted found,
      );
    };
    num = num;
    same = λ j. held-moved id h frame s found j (new j);
    others = λ j other. find_id-put_id_ne s.lidar_process_handlers id j (emptied h) other;
    callback = refl;
    interval = refl;
  }

  -- The packet that a device becomes.
  packet_of : ℕ → List (PointXyzlt F) → PointPacket (PointXyzlt F)
  packet_of id l = record {
    handle = id;
    lidar_type = livox_lidar_type;
    points_num = length l % 2 ^ 32;
    points = l;
  }

  -- The frame with the packet of a device, if it has points.
  grown : ℕ → List (PointXyzlt F) → PointFrame (PointXyzlt F) → PointFrame (PointXyzlt F)
  grown id [] f = f
  grown id (p ∷ l) f = record f {
    lidar_num = (f.lidar_num + 1) % 256;
    lidar_point = set f.lidar_point f.lidar_num (packet_of id (p ∷ l));
  }

  gather_one :
      (id j : ℕ) (l : List (PointXyzlt F))
      → gather j (packet_of id l ∷ []) ≡ (if id == j then l else [])
  unfolding gather packet_of
  gather_one id j l = elim (Bool-cases (id == j)) [
    | inl y ↦ rw (y, gather) (append-nil l)
    | inr n ↦ rw (n, gather) refl
  ]

  grown-in_frame :
      (id : ℕ) (l : List (PointXyzlt F)) (f : PointFrame (PointXyzlt F)) (j : ℕ)
      → f.lidar_num < length f.lidar_point
      → f.lidar_num < max_source_lidar
      → in_frame j (grown id l f) ≡ in_frame j f ++ (if id == j then l else [])
  unfolding in_frame grown
  grown-in_frame id [] f j inside room = elim (Bool-cases (id == j)) [
    | inl y ↦ rw y (sym (append-nil (in_frame j f)))
    | inr n ↦ rw n (sym (append-nil (in_frame j f)))
  ]
  grown-in_frame id (p ∷ l) f j inside room =
      let next : (f.lidar_num + 1) % 256 ≡ suc f.lidar_num = omega arith in
      let packet = packet_of id (p ∷ l) in
      rw
        (
          in_frame,
          next,
          take-set f.lidar_point f.lidar_num packet inside,
          gather-append j (take f.lidar_num f.lidar_point) (packet ∷ []),
          gather_one id j (p ∷ l),
        )
        refl

  grown-packets :
      (id : ℕ) (l : List (PointXyzlt F)) (f : PointFrame (PointXyzlt F))
      → All IsWhole f.lidar_point
      → (length (grown id l f).lidar_point ≡ length f.lidar_point)
        × ((grown id l f).lidar_num ≤ suc f.lidar_num)
        × All IsWhole (grown id l f).lidar_point
        × ((grown id l f).base_time ≡ f.base_time)
  unfolding grown packet_of
  grown-packets id [] f whole = (refl, omega arith, whole, refl)
  grown-packets id (p ∷ l) f whole =
      let packet = packet_of id (p ∷ l) in
      (
        length-set f.lidar_point f.lidar_num packet,
        omega arith,
        All-set IsWhole f.lidar_point f.lidar_num packet (omega arith) whole,
        refl,
      )

  add_packet_lem :
      (id : ℕ) (l : List (PointXyzlt F)) (s : PubHandler F)
      → s.frame.lidar_num < length s.frame.lidar_point
      → (b : Bool) × (add_packet id l s ≡ done (b, record s { frame = grown id l s.frame }))
        × (b ≡ false → (grown id l s.frame).lidar_num ≡ s.frame.lidar_num)
  unfolding add_packet grown packet_of
  add_packet_lem id [] s room = (false, refl, (λ e. refl))
  add_packet_lem id (p ∷ l) s room =
      let wrote = write_lem s.frame.lidar_point s.frame.lidar_num (packet_of id (p ∷ l)) room in
      (true, rw (add_packet, wrote) refl, (λ e. let clash : true ≡ false = e in cc))

  -- With room in the frame, and the device there, its points move into the frame with no fault.
  pub add_to_frame_lem :
      (id : ℕ) (h : LidarPubHandler F) (s : PubHandler F)
      → IsOpen s
      → s.frame.lidar_num < max_source_lidar
      → find_id s.lidar_process_handlers id ≡ some h
      → (b : Bool) × (s' : PubHandler F) × (add_to_frame id h s ≡ done (b, s'))
        × Added id h s s'
        × (b ≡ false → s'.frame.lidar_num ≡ s.frame.lidar_num)
  unfolding add_to_frame get_lidar_point_clouds moved emptied in_frame
  add_to_frame_lem id h s v room found =
      let t = get_lidar_base_time h in
      let wrote = write_lem s.frame.base_time s.frame.lidar_num t (omega (arith, v.base_times)) in
      let frame = record s.frame { base_time = set s.frame.base_time s.frame.lidar_num t } in
      let (num, less, whole, times) = grown-packets id h.points_clouds frame v.whole in
      let (b, ran, stays) =
        add_packet_lem id h.points_clouds (moved id h frame s) (omega (arith, v.packets)) in
      (
        b,
        moved id h (grown id h.points_clouds frame) s,
        rw (wrote, add_to_frame) ran,
        moved-Added id h (grown id h.points_clouds frame) s v found
            (ap length times ∙ length-set s.frame.base_time s.frame.lidar_num t ∙ v.base_times)
            (num ∙ v.packets) whole less
            (λ j. grown-in_frame id h.points_clouds frame j (omega (arith, v.packets)) room),
        stays,
      )
