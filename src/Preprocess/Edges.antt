-- ===== src/Preprocess/Edges.antt =====
-- preprocess.cpp, lines 718 to 853: the second loop of `give_feature`, which finds edges and wires, and the
-- third, which finds small planes.
use robot_nav.Prelude.{ℕ, ◌+◌, ◌-◌, Bool, true, false, not, ◌&&◌, ◌||◌, List, if◌then◌else◌}
use robot_nav.Livox.Fault.{Outcome, done, ◌>>=◌}
use robot_nav.Preprocess.Arrays.{read, write}
use robot_nav.Preprocess.{
  Vec, Reals, PointType, OrgType, Feature, Surround, EJump, Preprocess, whole, nor, poss_plane,
  real_plane, edge_jump, wire, prev, next, nr_nor, nr_zero, nr_180, nr_inf, nr_blind,
}
use robot_nav.Preprocess.Judge.{edge_jump_judge}

abbrev pub is_nor : Feature → Bool
is_nor nor = true
is_nor _ = false

-- `Real_Plane` or a later one.
abbrev pub is_settled : Feature → Bool
is_settled nor = false
is_settled poss_plane = false
is_settled _ = true

abbrev is_nr_nor : EJump → Bool
is_nr_nor nr_nor = true
is_nr_nor _ = false

abbrev is_nr_zero : EJump → Bool
is_nr_zero nr_zero = true
is_nr_zero _ = false

abbrev is_nr_inf : EJump → Bool
is_nr_inf nr_inf = true
is_nr_inf _ = false

module _ (re : Reals) where
  open re use {F, D, unset, decimal, widen, mul, div, lt, dot, norm, minus}

  abbrev pub vec_of : PointType F → Vec D
  vec_of p = record { vx = widen p.x; vy = widen p.y; vz = widen p.z }

  abbrev unset_vec : Vec D
  unset_vec = record { vx = unset; vy = unset; vz = unset }

  -- One side of a point: the angle, the kind of jump, and the way to the neighbour.
  unfoldable pub side_of :
      Preprocess F D
      → List (PointType F)
      → List (OrgType D)
      → OrgType D
      → Vec D
      → ℕ
      → D × EJump
      → Outcome (D × EJump × Vec D)
  unfolding read
  side_of s pl types t vec_a k (angle, edj) = do
    o ← read types k
    (if lt o.range s.blind
        then done (angle, (if lt s.inf_bound t.range then nr_inf else nr_blind), unset_vec)
        else (do
          q ← read pl k
          let v = minus (vec_of q) vec_a
          let angle' = div (div (dot vec_a v) (norm vec_a)) (norm v)
          let edj' =
              if lt angle' s.jump_up_limit
              then nr_180
              else if lt s.jump_down_limit angle'
              then nr_zero
              else edj
          done (angle', edj', v)))

  -- The feature of a point where the distance may jump on the side `nor_dir`.
  unfoldable pub jump_of :
      Preprocess F D → List (OrgType D) → ℕ → OrgType D → Surround → Outcome Feature
  unfolding edge_jump_judge
  jump_of s types i t nor_dir = do
    jumps ← edge_jump_judge re s types i nor_dir
    done (if jumps then edge_jump else t.ftype)

  -- The four ways in which one side of a point is normal and the other is not; `dista` is the distance
  -- before the point.
  abbrev pub is_near_jump : OrgType D → D → Bool
  is_near_jump t dista =
      is_nr_nor t.edj_prev
      && is_nr_zero t.edj_next
      && lt (decimal 225 4) t.dista
      && lt (mul (whole re 4) dista) t.dista

  abbrev pub is_far_jump : OrgType D → D → Bool
  is_far_jump t dista =
      is_nr_zero t.edj_prev
      && is_nr_nor t.edj_next
      && lt (decimal 225 4) dista
      && lt (mul (whole re 4) t.dista) dista

  abbrev pub is_open_after : OrgType D → Bool
  is_open_after t = is_nr_nor t.edj_prev && is_nr_inf t.edj_next

  abbrev pub is_open_before : OrgType D → Bool
  is_open_before t = is_nr_inf t.edj_prev && is_nr_nor t.edj_next

  abbrev pub is_apart : OrgType D → Bool
  is_apart t = not (is_nr_nor t.edj_prev) && not (is_nr_nor t.edj_next)

  -- The chain of tests for the feature of point i.
  unfoldable pub edge_type : Preprocess F D → List (OrgType D) → ℕ → OrgType D → D → Outcome Feature
  unfolding jump_of
  edge_type s types i t dista =
      if is_near_jump t dista
      then (if lt s.cos160 t.intersect then jump_of s types i t prev else done t.ftype)
      else if is_far_jump t dista
      then (if lt s.cos160 t.intersect then jump_of s types i t next else done t.ftype)
      else if is_open_after t
      then jump_of s types i t prev
      else if is_open_before t
      then jump_of s types i t next
      else if is_apart t
      then done (if is_nor t.ftype then wire else t.ftype)
      else done t.ftype

  -- The point with what was found on its two sides.
  abbrev pub sided : OrgType D → D × EJump × Vec D → D × EJump × Vec D → OrgType D
  sided t (angle_prev, edj_prev, to_prev) (angle_next, edj_next, to_next) = record t {
    angle_prev = angle_prev;
    edj_prev = edj_prev;
    angle_next = angle_next;
    edj_next = edj_next;
    intersect = div (div (dot to_prev to_next) (norm to_prev)) (norm to_next);
  }

  -- The point put into the table, and then its feature.
  unfoldable pub settle :
      Preprocess F D → List (OrgType D) → ℕ → D → OrgType D → Outcome (List (OrgType D))
  unfolding write edge_type
  settle s types i dista t = do
    types' ← write types i t
    ftype ← edge_type s types' i t dista
    write types' i (record t { ftype = ftype })

  -- A round of the loop over the edges, after its first tests.
  unfoldable pub edge_here :
      Preprocess F D
      → List (PointType F)
      → List (OrgType D)
      → ℕ
      → OrgType D
      → OrgType D
      → Outcome (List (OrgType D))
  unfolding read side_of settle
  edge_here s pl types i before t = do
    p ← read pl i
    w ← side_of s pl types t (vec_of p) (i - 1) (t.angle_prev, t.edj_prev)
    w' ← side_of s pl types t (vec_of p) (i + 1) (t.angle_next, t.edj_next)
    settle s types i before.dista (sided t w w')

  unfoldable pub edge_round :
      Preprocess F D → List (PointType F) → ℕ → List (OrgType D) → Outcome (List (OrgType D))
  unfolding read edge_here
  edge_round s pl i types = do
    t ← read types i
    (if lt t.range s.blind || is_settled t.ftype then done types else (do
      before ← read types (i - 1)
      (if lt before.dista (decimal 1 16) || lt t.dista (decimal 1 16)
          then done types
          else edge_here s pl types i before t)))

  abbrev pub as_plane : OrgType D → OrgType D
  as_plane t = record t { ftype = if is_nor t.ftype then real_plane else t.ftype }

  -- Whether the distances on both sides are alike, and the angle between them is flat.
  is_flat : Preprocess F D → OrgType D → OrgType D → Bool
  is_flat s before t =
      let ratio =
        if lt t.dista before.dista then div before.dista t.dista else div t.dista before.dista in
      lt t.intersect s.smallp_intersect && lt ratio s.smallp_ratio

  -- Where a round of the loop over small planes changes nothing.
  abbrev pub stays_point : Preprocess F D → OrgType D → OrgType D → OrgType D → Bool
  unfolding is_flat
  stays_point s before t after =
      (lt t.range s.blind || lt before.range s.blind || lt after.range s.blind)
      || (lt before.dista (decimal 1 8) || lt t.dista (decimal 1 8))
      || not (is_nor t.ftype)
      || not (is_flat s before t)

  -- A round of the loop over small planes.
  unfoldable pub small_plane_round :
      Preprocess F D → List (PointType F) → ℕ → List (OrgType D) → Outcome (List (OrgType D))
  unfolding read write is_flat
  small_plane_round s pl i types = do
    t ← read types i
    before ← read types (i - 1)
    after ← read types (i + 1)
    (if stays_point s before t after then done types else (do
      types1 ← write types (i - 1) (as_plane before)
      types2 ← write types1 (i + 1) (as_plane after)
      write types2 i (record t { ftype = real_plane })))
