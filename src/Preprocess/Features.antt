-- ===== src/Preprocess/Features.antt =====
-- preprocess.cpp, lines 591 to 905: `give_feature`, which tells planes, edges and wires of a line of points
-- apart, and puts surfaces and corners into the clouds.
pub mod Rounds
pub mod Surfaces
pub mod Overruns
pub mod Results
pub mod Ends
use robot_nav.Prelude.{
  ℕ, zero, suc, ◌+◌, ◌-◌, Bool, true, false, Option, none, some, List, [], ◌∷◌, ◌++◌, length, ◌==◌,
  if◌then◌else◌,
}
use robot_nav.Livox.Fault.{Outcome, done, ◌>>=◌}
use robot_nav.Preprocess.Arrays.{read}
use robot_nav.Preprocess.{
  Reals, PointType, OrgType, Feature, Preprocess, blank, poss_plane, real_plane, edge_jump,
  edge_plane,
}
use robot_nav.Preprocess.Judge.{zero_vec}
use robot_nav.Preprocess.Planes.{Scanning, head_from, surfaces_from}
use robot_nav.Preprocess.Edges.{edge_round, small_plane_round}

abbrev pub is_surface : Feature → Bool
is_surface poss_plane = true
is_surface real_plane = true
is_surface _ = false

abbrev pub is_corner : Feature → Bool
is_corner edge_jump = true
is_corner edge_plane = true
is_corner _ = false

module _ (re : Reals) where
  open re use {F, D, float_of, add_float, div_float}

  -- A counted loop over a table: `n` rounds from i on.
  unfoldable pub rounds_from :
      (ℕ → List (OrgType D) → Outcome (List (OrgType D)))
      → ℕ
      → ℕ
      → List (OrgType D)
      → Outcome (List (OrgType D))
  rounds_from round zero i types = done types
  rounds_from round (suc n) i types = do types' ← round i types; rounds_from round n (i + 1) types'

  -- The sum of `n` points from k on.
  unfoldable pub sum_from : List (PointType F) → ℕ → ℕ → PointType F → Outcome (PointType F)
  unfolding read
  sum_from pl zero k ap = done ap
  sum_from pl (suc n) k ap = do
    p ← read pl k
    sum_from pl n (k + 1) (record {
      x = add_float ap.x p.x;
      y = add_float ap.y p.y;
      z = add_float ap.z p.z;
      intensity = add_float ap.intensity p.intensity;
      curvature = add_float ap.curvature p.curvature;
    })

  abbrev divided : PointType F → F → PointType F
  divided ap n = record {
    x = div_float ap.x n;
    y = div_float ap.y n;
    z = div_float ap.z n;
    intensity = div_float ap.intensity n;
    curvature = div_float ap.curvature n;
  }

  -- The mean of the points that wait, from `last_surface` to before j.
  end_surface : List (PointType F) → ℕ → Option ℕ → Preprocess F D → Outcome (Preprocess F D)
  unfolding sum_from
  end_surface pl j none s = done s
  end_surface pl j (some last_surface) s = do
    ap ← sum_from pl (j - last_surface) last_surface (blank re)
    done (record s { pl_surf = s.pl_surf ++ (divided ap (float_of (j - last_surface)) ∷ []) })

  -- A round of the loop over the results; `none` is a `last_surface` of -1.
  unfoldable pub collect_round :
      List (PointType F)
      → List (OrgType D)
      → ℕ
      → Option ℕ × Preprocess F D
      → Outcome (Option ℕ × Preprocess F D)
  unfolding read end_surface
  collect_round pl types j (last_surface, s) = do
    t ← read types j
    p ← read pl j
    (if is_surface t.ftype
        then (let first : ℕ = elim last_surface [ none ↦ j | some k ↦ k ] in
            done (
              if j + 1 == first + s.point_filter_num
              then (none, record s { pl_surf = s.pl_surf ++ (p ∷ []) })
              else (some first, s)))
        else (do
          let s1 = if is_corner t.ftype then record s { pl_corn = s.pl_corn ++ (p ∷ []) } else s
          s2 ← end_surface pl j last_surface s1
          done (none, s2)))

  unfoldable pub collect_from :
      List (PointType F)
      → List (OrgType D)
      → ℕ
      → ℕ
      → Option ℕ × Preprocess F D
      → Outcome (Preprocess F D)
  unfolding collect_round
  collect_from pl types zero j (last_surface, s) = done s
  collect_from pl types (suc n) j w = do
    w' ← collect_round pl types j w
    collect_from pl types n (j + 1) w'

  -- What follows the loop over the surfaces: the edges, the small planes and the results.
  unfoldable pub finish :
      List (PointType F)
      → ℕ
      → Option (Scanning D)
      → Preprocess F D
      → Outcome (Option (Preprocess F D))
  unfolding rounds_from edge_round small_plane_round collect_from
  finish pl head none s = done none
  finish pl head (some st) s = do
    let size = length pl
    let s1 = record s { way = st.way }
    edges ← rounds_from (edge_round re s1 pl) (size - 3 - (head + 3)) (head + 3) st.types
    types ← rounds_from (small_plane_round re s1 pl) (size - 1 - (head + 1)) (head + 1) edges
    s' ← collect_from pl types (size - head) head (none, s1)
    done (some s')

  -- `none` means that the fuel of the loop over the surfaces ran out.
  unfoldable pub classify :
      List (PointType F) → List (OrgType D) → Preprocess F D → Outcome (Option (Preprocess F D))
  unfolding head_from surfaces_from finish
  classify pl types s = do
    head ← head_from re s.blind types 0
    let start : Scanning D = record {
      types = types;
      was_plane = false;
      last_direct = zero_vec re;
      way = s.way;
    }
    scanned ← surfaces_from re s pl (length pl - s.group_size) (length pl + 1) head start
    finish pl head scanned s

  -- An empty line is only reported.
  unfoldable pub give_feature :
      List (PointType F) → List (OrgType D) → Preprocess F D → Outcome (Option (Preprocess F D))
  unfolding classify
  give_feature pl types s = if length pl == 0 then done (some s) else classify pl types s
