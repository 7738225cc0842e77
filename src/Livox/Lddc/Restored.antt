-- ===== src/Livox/Lddc/Restored.antt =====
-- What a reader of a custom message gets back.
use robot_nav.Prelude.{
  ℕ, zero, suc, ◌+◌, ◌-◌, ◌%◌, ◌^◌, ◌≤◌, ◌<◌, ◌≡◌, refl, ap, ◌∙◌, List, [], ◌∷◌, arith, length,
  get_elem?, get_elem?_inside, All, take, drop, some, ◌==◌, if◌then◌else◌,
}
use mathlib.Core.Option.{some-injective}
use robot_nav.Livox.Fault.{done, ◌>>=◌}
use robot_nav.Livox.Ldq.{StoragePacket}
use robot_nav.Livox.Lds.Defs.{LidarDevice, device}
use robot_nav.Livox.CacheIndex.{livox_lidar_type}
use robot_nav.Livox.Points.{PointXyzlt}
use robot_nav.Livox.Lddc.Messages.{
  CustomPoint, CustomMsg, timestamp_of, fill_points, init_custom_msg, custom_point,
  fill_points_to_custom_msg,
}

abbrev pub mapped : {A B : Type 0} → (A → B) → List A → List B
mapped f [] = []
mapped f (x ∷ l) = f x ∷ mapped f l

pub length-mapped : {A B : Type 0} (f : A → B) (l : List A) → length (mapped f l) ≡ length l
length-mapped f [] = refl
length-mapped f (x ∷ l) = ap suc (length-mapped f l)

-- The rest of a list begins with the element there.
drop-get_elem? :
    {A : Type 0} (l : List A) (i : ℕ) {x : A}
    → get_elem? l i ≡ some x
    → drop i l ≡ x ∷ drop (suc i) l
drop-get_elem? [] i e = cc
drop-get_elem? (y ∷ l) zero {x} e = ap (λ (z : _). z ∷ l) (some-injective y x e)
drop-get_elem? (y ∷ l) (suc i) e = drop-get_elem? l i e

fill_points_lem :
    {A B : Type 0} (f : A → B) (l : List A) (rounds i : ℕ)
    → i + rounds ≤ length l
    → fill_points f l rounds i ≡ done (mapped f (take rounds (drop i l)))
unfolding fill_points
fill_points_lem f l zero i h = refl
fill_points_lem f l (suc rounds) i h =
    let (x, at) = get_elem?_inside l i (omega arith) in
    let next : suc i ≡ i + 1 = omega arith in
    let rest = drop-get_elem? l i at ∙ ap (λ (j : ℕ). x ∷ drop j l) next in
    rw (fill_points, at, fill_points_lem f l rounds (i + 1) (omega arith), rest) refl

take_all : {A : Type 0} (l : List A) → take (length l) l ≡ l
take_all [] = refl
take_all (x ∷ l) = ap (λ (t : List _). x ∷ t) (take_all l)

-- A point with its intensity as a byte.
pub record Seen (F : Type 0) : Type 0 where
  pub x : F
  pub y : F
  pub z : F
  pub reflectivity : ℕ
  pub tag : ℕ
  pub line : ℕ
  pub time : ℕ

module _ {F : Type 0} where
  unfoldable pub seen : (F → ℕ) → PointXyzlt F → Seen F
  seen to_uint8 p = record {
    x = p.x;
    y = p.y;
    z = p.z;
    reflectivity = to_uint8 p.intensity;
    tag = p.tag;
    line = p.line;
    time = p.offset_time;
  }

  -- What a reader makes of a point of a message.
  unfoldable pub restored : ℕ → CustomPoint F → Seen F
  restored timebase c = record {
    x = c.x;
    y = c.y;
    z = c.z;
    reflectivity = c.reflectivity;
    tag = c.tag;
    line = c.line;
    time = timebase + c.offset_time;
  }

  -- A point of the 2^32 nanoseconds from the packet's time on.
  abbrev pub IsNear : ℕ → PointXyzlt F → Type 0
  IsNear base_time p =
      (base_time ≤ p.offset_time) × (p.offset_time < base_time + 2 ^ 32) × (p.offset_time < 2 ^ 64)

  restored_point :
      (to_uint8 : F → ℕ) (base_time : ℕ) (p : PointXyzlt F)
      → IsNear base_time p
      → restored base_time (custom_point to_uint8 base_time p) ≡ seen to_uint8 p
  unfolding restored custom_point seen
  restored_point to_uint8 base_time p (after, before, small) =
      let time : base_time + (p.offset_time + 2 ^ 64 - base_time) % 2 ^ 64 % 2 ^ 32
          ≡ p.offset_time =
        omega arith in
      rw time refl

  restored_points :
      (to_uint8 : F → ℕ) (base_time : ℕ) (l : List (PointXyzlt F))
      → All (IsNear base_time) l
      → mapped (restored base_time) (mapped (custom_point to_uint8 base_time) l)
        ≡ mapped (seen to_uint8) l
  restored_points to_uint8 base_time [] all = refl
  restored_points to_uint8 base_time (p ∷ l) (near, all) =
      rw (restored_point to_uint8 base_time p near, restored_points to_uint8 base_time l all) refl

  restored_from :
      (to_uint8 : F → ℕ) (base_time : ℕ) (l : List (PointXyzlt F))
      → All (IsNear base_time) l
      → mapped (restored (timestamp_of l base_time 0)) (mapped (custom_point to_uint8 base_time) l)
        ≡ mapped (seen to_uint8) l
  unfolding timestamp_of
  restored_from to_uint8 base_time [] all = refl
  restored_from to_uint8 base_time (p ∷ l) all = restored_points to_uint8 base_time (p ∷ l) all

  -- The message that a packet becomes.
  abbrev pub message_of :
      {P : Type 0} → LidarDevice P F → (F → ℕ) → StoragePacket (PointXyzlt F) → CustomMsg F
  message_of d to_uint8 pkg = record {
    timebase = timestamp_of pkg.points pkg.base_time 0;
    point_num = pkg.points_num;
    lidar_id = if d.lidar_type == livox_lidar_type then d.handle else 0;
    points = mapped (custom_point to_uint8 pkg.base_time) pkg.points;
  }

  pub custom_msg_lem :
      {P : Type 0} (lidars : List (LidarDevice P F)) (index : ℕ) (d : LidarDevice P F)
      (to_uint8 : F → ℕ) (pkg : StoragePacket (PointXyzlt F))
      → get_elem? lidars index ≡ some d
      → pkg.points_num ≡ length pkg.points
      → (init_custom_msg lidars pkg index >>= λ m0. fill_points_to_custom_msg to_uint8 m0 pkg)
        ≡ done (message_of d to_uint8 pkg)
  unfolding init_custom_msg fill_points_to_custom_msg device
  custom_msg_lem lidars index d to_uint8 pkg at num =
      let f = custom_point to_uint8 pkg.base_time in
      let filled : fill_points f pkg.points pkg.points_num 0 ≡ done (mapped f pkg.points) =
        fill_points_lem f pkg.points pkg.points_num 0 (omega arith)
        ∙ ap (λ (n : ℕ). done (mapped f (take n pkg.points))) num
        ∙ ap (λ (l : List (PointXyzlt F)). done (mapped f l)) (take_all pkg.points) in
      rw (init_custom_msg, device, at, filled, fill_points_to_custom_msg) refl

  -- The custom message of a packet that has just the points it announces, each within 2^32 ns of the
  -- packet's time, is made with no fault for a device that is there. It announces as many points, and
  -- the points that a reader makes of it, with the time base and each offset added up, are those of the
  -- packet, in their order, each with its intensity as a byte.
  pub custom_msg_roundtrip :
      {P : Type 0} (lidars : List (LidarDevice P F)) (index : ℕ) (d : LidarDevice P F)
      (to_uint8 : F → ℕ) (pkg : StoragePacket (PointXyzlt F))
      → get_elem? lidars index ≡ some d
      → pkg.points_num ≡ length pkg.points
      → All (IsNear pkg.base_time) pkg.points
      → (m : CustomMsg F) × ((init_custom_msg lidars pkg index >>= λ m0.
            fill_points_to_custom_msg to_uint8 m0 pkg)
          ≡ done m)
        × (m.point_num ≡ length pkg.points)
        × (mapped (restored m.timebase) m.points ≡ mapped (seen to_uint8) pkg.points)
  custom_msg_roundtrip lidars index d to_uint8 pkg at num near = (
    message_of d to_uint8 pkg,
    custom_msg_lem lidars index d to_uint8 pkg at num,
    num,
    restored_from to_uint8 pkg.base_time pkg.points near,
  )
