-- ===== src/Preprocess/Planes.antt =====
-- preprocess.cpp, lines 600 to 716: the first loop of `give_feature`, which finds the planes of a line. The
-- table of features of a line, `typess[j]`, is not read again, and so is no part of the state.
use robot_nav.Prelude.{
  ℕ, zero, suc, ◌+◌, ◌-◌, Bool, true, false, not, ◌&&◌, Option, none, some, List, [], ◌∷◌, ltb,
  ◌==◌, if◌then◌else◌,
}
use robot_nav.Livox.Fault.{Outcome, done, fault, out_of_bounds, ◌>>=◌}
use robot_nav.Preprocess.Arrays.{read, write}
use robot_nav.Preprocess.{
  Vec, Reals, PointType, OrgType, Preprocess, poss_plane, real_plane, edge_plane,
}
use robot_nav.Preprocess.Judge.{Judged, plane_judge}

-- The loop over the points of a plane, `n` from j on: its two ends are marked otherwise than the rest.
unfoldable pub mark_from :
    {D : Type 0} → ℕ → ℕ → ℕ → ℕ → List (OrgType D) → Outcome (List (OrgType D))
unfolding read write
mark_from i i_nex zero j types = done types
mark_from i i_nex (suc n) j types = do
  t ← read types j
  let inner = not (j == i) && not (j == i_nex)
  types' ← write types j (record t { ftype = if inner then real_plane else poss_plane })
  mark_from i i_nex n (j + 1) types'

-- What the loop over the surfaces carries along.
pub record Scanning (D : Type 0) : Type 0 where
  pub types : List (OrgType D)
  pub was_plane : Bool
  pub last_direct : Vec D
  pub way : Vec D

module _ (re : Reals) where
  open re use {F, D, decimal, neg, lt, dot, norm}

  -- Past the points in the blind zone, with no look at the end of the array.
  unfoldable pub head_from : D → List (OrgType D) → ℕ → Outcome ℕ
  head_from blind [] i = fault out_of_bounds
  head_from blind (t ∷ l) i = if lt t.range blind then head_from blind l (i + 1) else done i

  -- Two planes that meet at i.
  unfoldable pub corner_at : ℕ → Vec D → Scanning D → List (OrgType D) → Outcome (List (OrgType D))
  unfolding read write
  corner_at i curr_direct st types =
      if st.was_plane && lt (decimal 1 1) (norm st.last_direct)
      then (do
        let mod_dir = dot st.last_direct curr_direct
        let across = lt (neg (decimal 707 3)) mod_dir && lt mod_dir (decimal 707 3)
        t ← read types i
        write types i (record t { ftype = if across then edge_plane else real_plane }))
      else done types

  -- What a round does with the judgement, and where the next one begins.
  unfoldable pub take_plane : ℕ → Judged D → Scanning D → Outcome (ℕ × Scanning D)
  unfolding mark_from corner_at
  take_plane i j st =
      if j.plane_type == 1
      then (do
        marked ← mark_from i j.i_nex (j.i_nex + 1 - i) i st.types
        types' ← corner_at i j.curr_direct st marked
        done (
          j.i_nex,
          record { types = types'; was_plane = true; last_direct = j.curr_direct; way = j.way },
        ))
      else done
          (j.i_nex + 1, record st { was_plane = false; last_direct = j.curr_direct; way = j.way })

  unfoldable pub surface_round :
      Preprocess F D → List (PointType F) → ℕ → Scanning D → Outcome (ℕ × Scanning D)
  unfolding read take_plane
  surface_round s pl i st = do
    t ← read st.types i
    (if lt t.range s.blind
        then done (i + 1, st)
        else (do j ← plane_judge re (record s { way = st.way }) pl st.types i; take_plane i j st))

  -- The loop over the surfaces up to `end`, on fuel; `none` means that it ran out.
  unfoldable pub surfaces_from :
      Preprocess F D → List (PointType F) → ℕ → ℕ → ℕ → Scanning D → Outcome (Option (Scanning D))
  unfolding surface_round
  surfaces_from s pl end zero i st = done none
  surfaces_from s pl end (suc fuel) i st =
      if ltb i end
      then (do (i', st') ← surface_round s pl i st; surfaces_from s pl end fuel i' st')
      else done (some st)
