-- ===== src/Preprocess/Judge.antt =====
-- preprocess.cpp, lines 917 to 1069: whether the points from one on lie in a plane, and whether an edge is
-- one where the distance jumps.
pub mod Bounds
pub mod Sorted
use robot_nav.Prelude.{
  ℕ, zero, suc, ◌+◌, ◌-◌, ◌/◌, Bool, not, ◌&&◌, ◌||◌, none, some, List, [], ◌∷◌, ◌++◌, length,
  get_elem?, ltb, ◌==◌, if◌then◌else◌,
}
use robot_nav.Livox.Fault.{Outcome, done, fault, out_of_bounds, ◌>>=◌}
use robot_nav.Preprocess.Arrays.{read}
use robot_nav.Preprocess.{
  Vec, Reals, PointType, OrgType, Surround, prev, next, Preprocess, avia, whole,
}

-- What `plane_judge` returns: its result, `i_nex` and `curr_direct`, and the member `vx`, `vy`, `vz`.
pub record Judged (D : Type 0) : Type 0 where
  pub plane_type : ℕ
  pub i_nex : ℕ
  pub curr_direct : Vec D
  pub way : Vec D

-- Where a loop over the points ends: at one in the blind zone, or with the distances that it collects.
pub data Grouped (D : Type 0) : Type 0 where
  blind_at : ℕ → Vec D → Grouped D
  collected : ℕ → Vec D → D → List D → Grouped D

-- The loop over k: the value that ends at place j, and those after it.
unfoldable pub exchange : {D : Type 0} → (D → D → Bool) → D → List D → D × List D
exchange lt a [] = (a, [])
exchange lt a (b ∷ l) =
    let (top, rest) = exchange lt (if lt a b then b else a) l in
    (top, (if lt a b then a else b) ∷ rest)

-- The loop over j, `n` being the values from place j on.
unfoldable pub exchange_sort : {D : Type 0} → (D → D → Bool) → ℕ → List D → List D
unfolding exchange
exchange_sort lt zero l = l
exchange_sort lt (suc n) [] = []
exchange_sort lt (suc n) (a ∷ l) =
    let (top, rest) = exchange lt a l in top ∷ exchange_sort lt n rest

module _ (re : Reals) where
  open re use {F, D, unset, decimal, widen, sub_float, add, sub, mul, div, sqrt, lt, le, normalize}

  abbrev pub zero_vec : Vec D
  zero_vec = record { vx = whole re 0; vy = whole re 0; vz = whole re 0 }

  -- From the first point to the second.
  unfoldable pub way_to : PointType F → PointType F → Vec D
  way_to p q = record {
    vx = widen (sub_float q.x p.x);
    vy = widen (sub_float q.y p.y);
    vz = widen (sub_float q.z p.z);
  }

  unfoldable pub square_sum : Vec D → D
  square_sum v = add (add (mul v.vx v.vx) (mul v.vy v.vy)) (mul v.vz v.vz)

  -- The `group_size` points from i_cur on.
  unfoldable pub group_from :
      Preprocess F D → List (OrgType D) → ℕ → ℕ → List D → Outcome (Grouped D)
  unfolding read
  group_from s types zero i disarr = done (collected i s.way unset disarr)
  group_from s types (suc n) i disarr = do
    t ← read types i
    (if lt t.range s.blind
        then done (blind_at i s.way)
        else group_from s types n (i + 1) (disarr ++ (t.dista ∷ [])))

  -- The points after them, up to one that is far enough; the number is that of the points left.
  unfoldable pub extend_from :
      Preprocess F D
      → List (PointType F)
      → List (OrgType D)
      → PointType F
      → D
      → ℕ
      → ℕ
      → Vec D
      → D
      → List D
      → Outcome (Grouped D)
  unfolding read way_to square_sum
  extend_from s pl types cur group_dis zero i v two_dis disarr = done (collected i v two_dis disarr)
  extend_from s pl types cur group_dis (suc n) i v two_dis disarr = do
    t ← read types i
    (if lt t.range s.blind then done (blind_at i v) else (do
      q ← read pl i
      let v' = way_to cur q
      let two_dis' = square_sum v'
      let further =
          extend_from s pl types cur group_dis n (i + 1) v' two_dis' (disarr ++ (t.dista ∷ []))
      (if le group_dis two_dis' then done (collected i v' two_dis' disarr) else further)))

  cross : Vec D → Vec D → Vec D
  cross v1 v = record {
    vx = sub (mul v1.vy v.vz) (mul v.vy v1.vz);
    vy = sub (mul v1.vz v.vx) (mul v1.vx v.vz);
    vz = sub (mul v1.vx v.vy) (mul v.vx v1.vy);
  }

  -- The greatest square of a distance from the line, over `n` points from j on.
  unfoldable pub width_from : List (PointType F) → PointType F → Vec D → ℕ → ℕ → D → D
  unfolding cross way_to square_sum
  width_from pl cur v zero j leng_wid = leng_wid
  width_from pl cur v (suc n) j leng_wid = elim (get_elem? pl j) [
    | none ↦ leng_wid
    | some q ↦
        let lw = square_sum (cross (way_to cur q) v) in
        width_from pl cur v n (j + 1) (if lt leng_wid lw then lw else leng_wid)
  ]

  -- Whether the distances, in descending order, are too different for a plane.
  unfoldable pub is_uneven : Preprocess F D → List D → Outcome Bool
  unfolding read
  is_uneven s disarr = do
    let n = length disarr
    first ← read disarr 0
    mid ← read disarr (n / 2)
    last ← read disarr (n - 2)
    done (
        if s.lidar_type == avia
        then le s.limit_maxmid (div first mid) || le s.limit_midmin (div mid last)
        else le s.limit_maxmin (div first last))

  -- What follows the loops.
  unfoldable pub judge :
      Preprocess F D → List (PointType F) → PointType F → ℕ → Grouped D → Outcome (Judged D)
  unfolding is_uneven
  judge s pl cur i_cur (blind_at i v) =
      done (record { plane_type = 2; i_nex = i; curr_direct = zero_vec; way = v })
  judge s pl cur i_cur (collected i v two_dis disarr) =
      let leng_wid = width_from pl cur v (i - (i_cur + 1)) (i_cur + 1) (whole re 0) in
      let no_plane : Judged D = record {
        plane_type = 0;
        i_nex = i;
        curr_direct = zero_vec;
        way = v;
      } in
      if lt (div (mul two_dis two_dis) leng_wid) s.p2l_ratio
      then done no_plane
      else if ltb (length disarr) 2
      then fault out_of_bounds
      else (do
        let sorted = exchange_sort lt (length disarr) disarr
        last ← read sorted (length disarr - 2)
        uneven ← is_uneven s sorted
        done (
            if lt last (decimal 1 16) || uneven
            then no_plane
            else record { plane_type = 1; i_nex = i; curr_direct = normalize v; way = v }))

  -- The second loop is entered where the first did not meet the blind zone.
  unfoldable pub extend :
      Preprocess F D
      → List (PointType F)
      → List (OrgType D)
      → PointType F
      → D
      → Grouped D
      → Outcome (Grouped D)
  extend s pl types cur group_dis (blind_at i v) = done (blind_at i v)
  extend s pl types cur group_dis (collected i v two_dis disarr) =
      extend_from s pl types cur group_dis (length pl - i) i v two_dis disarr

  -- A point i_cur that is not in the cloud is a fault; every caller has it there.
  unfoldable pub plane_judge :
      Preprocess F D → List (PointType F) → List (OrgType D) → ℕ → Outcome (Judged D)
  unfolding read group_from extend judge
  plane_judge s pl types i_cur = do
    t ← read types i_cur
    cur ← read pl i_cur
    let reach = add (mul s.dis_a t.range) s.dis_b
    group ← group_from s types s.group_size i_cur []
    found ← extend s pl types cur (mul reach reach) group
    judge s pl cur i_cur found

  -- Whether two distances, of which the values are squares, are alike.
  is_close : Preprocess F D → D → D → Bool
  is_close s a b =
      let d1 = sqrt (if lt a b then b else a) in
      let d2 = sqrt (if lt a b then a else b) in
      not (lt (mul s.edgea d2) d1 || lt s.edgeb (sub d1 d2))

  -- The two points on the side of `nor_dir`: their ranges, and the two distances there. Every caller has
  -- two points on each side, so that it makes no difference that both ranges are read.
  unfoldable pub edge_jump_judge : Preprocess F D → List (OrgType D) → ℕ → Surround → Outcome Bool
  unfolding read is_close
  edge_jump_judge s types i prev = do
    a ← read types (i - 1)
    b ← read types (i - 2)
    done (not (lt a.range s.blind || lt b.range s.blind) && is_close s a.dista b.dista)
  edge_jump_judge s types i next = do
    a ← read types (i + 1)
    b ← read types (i + 2)
    c ← read types i
    done (not (lt a.range s.blind || lt b.range s.blind) && is_close s c.dista a.dista)
