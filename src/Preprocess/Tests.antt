-- ===== src/Preprocess/Tests.antt =====
-- Scans at whole numbers, with a square root and a cosine that change nothing.
mod Received
use mathlib.Core.List.{Perm}
use robot_nav.Prelude.{
  ℕ, ◌+◌, ◌-◌, ◌*◌, ◌/◌, ◌^◌, ◌<◌, ◌≡◌, ◌≢◌, refl, ◌⊎◌, true, false, none, some, List, [], ◌∷◌,
  arith, length, drop, replicate, ltb, leb,
}
use robot_nav.Livox.Fault.{done, fault, out_of_bounds, Returns, Safe}
use robot_nav.Livox.Lddc.Messages.{CustomPoint, CustomMsg}
use robot_nav.Preprocess.Arrays.{read}
use robot_nav.Preprocess.{
  Reals, PointType, OrgType, Preprocess, new, is_far, blank, nor, real_plane, edge_jump, nr_nor,
}
use robot_nav.Preprocess.Judge.{Judged, plane_judge, extend_from, width_from, exchange_sort}
use robot_nav.Preprocess.Judge.Bounds.{IsAhead, plane_judge-IsAhead}
use robot_nav.Preprocess.Judge.Sorted.{IsTotal, IsDescending, exchange_sort_lem}
use robot_nav.Preprocess.Planes
use robot_nav.Preprocess.Features
use robot_nav.Preprocess.Planes.{Scanning}
use robot_nav.Preprocess.Features.{is_surface, is_corner}
use robot_nav.Preprocess.Features.Surfaces.{IsSome, Overruns, surface_round_overruns}
use robot_nav.Preprocess.Features.Results.{Kept, points_of, collect_from_lem}
use robot_nav.Preprocess.Features.Ends.{AllBlind, give_feature_lem}
use robot_nav.Preprocess.Clouds
use robot_nav.Preprocess.Clouds.Rings.{oust64_handler_empty_ring}
use robot_nav.Preprocess.Clouds.Decimated.{taken}
use robot_nav.Preprocess.Clouds.Avia.{spaced, avia_handler_lem, avia_handler-spaced}
use robot_nav.Preprocess.Sweep
use robot_nav.Preprocess.Sweep.{LivoxPointXyzitl}
use robot_nav.Preprocess.Sweep.Mid360.{places, later_places, mid360_handler_lem}
use robot_nav.Preprocess.Process.{Reader, process, process_custom}
use robot_nav.Preprocess.Process.Ends.{process_lem}

abbrev whole_numbers : Reals
whole_numbers = record {
  F = ℕ;
  D = ℕ;
  initial = 0;
  unset = 0;
  float_of = λ n. n;
  float_decimal = λ m k. m / 10 ^ k;
  decimal = λ m k. m / 10 ^ k;
  widen = λ a. a;
  narrow = λ a. a;
  add_float = λ a b. a + b;
  sub_float = λ a b. a - b;
  mul_float = λ a b. a * b;
  div_float = λ a b. a / b;
  abs_float = λ a. a;
  sqrt_float = λ a. a;
  atan2_float = λ a b. a;
  lt_float = ltb;
  add = λ a b. a + b;
  sub = λ a b. a - b;
  mul = λ a b. a * b;
  div = λ a b. a / b;
  neg = λ a. 0;
  sqrt = λ a. a;
  cos = λ a. a;
  pi = 3;
  lt = ltb;
  le = leb;
  dot = λ v w. v.vx * w.vx + v.vy * w.vy + v.vz * w.vz;
  norm = λ v. v.vx + v.vy + v.vz;
  normalize = λ v. v;
  minus = λ v w. v;
}

abbrev point_at : ℕ → PointType ℕ
point_at a = record { x = a; y = a; z = a; intensity = 5; curvature = 0 }

abbrev measured_at : ℕ → OrgType ℕ
measured_at a = record {
  range = a;
  dista = 1;
  angle_prev = 0;
  angle_next = 0;
  intersect = 2;
  edj_prev = nr_nor;
  edj_next = nr_nor;
  ftype = nor;
}

-- A preprocessor to which any points that are near one another are a plane.
abbrev easy : Preprocess ℕ ℕ
easy = record (new whole_numbers) {
  group_size = 2;
  dis_b = 100;
  p2l_ratio = 0;
  limit_maxmid = 100;
  limit_midmin = 100;
  blind = 1;
}

abbrev line : List (PointType ℕ)
line = point_at 3 ∷ point_at 4 ∷ point_at 5 ∷ point_at 6 ∷ []

abbrev line_types : List (OrgType ℕ)
line_types = measured_at 3 ∷ measured_at 4 ∷ measured_at 5 ∷ measured_at 6 ∷ []

-- The plane that begins at the first point, and ends past the last one.
abbrev long_plane : Judged ℕ
long_plane = record {
  plane_type = 1;
  i_nex = 4;
  curr_direct = record { vx = 3; vy = 3; vz = 3 };
  way = record { vx = 3; vy = 3; vz = 3 };
}

abbrev at_start : Scanning ℕ
at_start = record {
  types = line_types;
  was_plane = false;
  last_direct = record { vx = 0; vy = 0; vz = 0 };
  way = record { vx = 0; vy = 0; vz = 0 };
}

long_plane_judged :
    plane_judge whole_numbers (record easy { way = at_start.way }) line line_types 0
    ≡ done long_plane
unfolding plane_judge extend_from width_from exchange_sort new
long_plane_judged = refl

surface_round_overruns_example :
    Planes.surface_round whole_numbers easy line 0 at_start ≡ fault out_of_bounds
surface_round_overruns_example =
    surface_round_overruns whole_numbers easy line 0 at_start (measured_at 3) long_plane
      (omega arith) refl first_read refl long_plane_judged refl refl
  where
    first_read : read line_types 0 ≡ done (measured_at 3)
    first_read = unfold read in refl

plane_judge-IsAhead_example :
    Returns (IsAhead 0 2 4) (plane_judge whole_numbers easy line line_types 0)
unfolding new
plane_judge-IsAhead_example =
    plane_judge-IsAhead whole_numbers easy line line_types 0 (omega arith) (omega arith) refl

give_feature_lem_example :
    Safe
      (IsSome (Kept easy))
      (AllBlind whole_numbers 1 line_types ⊎ Overruns whole_numbers easy line line_types)
      (Features.give_feature whole_numbers line line_types easy)
    × (0 < length line
        → AllBlind whole_numbers 1 line_types ⊎ Overruns whole_numbers easy line line_types
        → Features.give_feature whole_numbers line line_types easy ≡ fault out_of_bounds)
unfolding new
give_feature_lem_example = give_feature_lem whole_numbers easy line line_types refl (omega arith)

abbrev found_types : List (OrgType ℕ)
found_types =
    record (measured_at 3) { ftype = real_plane }
    ∷ record (measured_at 4) { ftype = edge_jump }
    ∷ measured_at 5
    ∷ measured_at 6
    ∷ []

collect_from_lem_example :
    (s' : Preprocess ℕ ℕ) × (Features.collect_from whole_numbers line found_types 4 0 (none, easy)
      ≡ done s')
    × (s'.pl_corn ≡ points_of is_corner found_types line)
    × (s'.pl_surf ≡ points_of is_surface found_types line)
unfolding new
collect_from_lem_example =
    collect_from_lem whole_numbers line found_types refl 0 easy (omega arith) refl

abbrev ouster_at : ℕ → ℕ → Clouds.OusterPoint ℕ
ouster_at a ring = record { x = a; y = a; z = a; intensity = 1; t = 0; ring = ring }

oust64_handler_empty_ring_example :
    Clouds.oust64_handler whole_numbers
      (ouster_at 7 0 ∷ ouster_at 8 2 ∷ [])
      (record easy { feature_enabled = true; n_scans = 3 })
    ≡ fault out_of_bounds
unfolding new
oust64_handler_empty_ring_example =
    oust64_handler_empty_ring whole_numbers (ouster_at 7 0 ∷ ouster_at 8 2 ∷ [])
      (record easy { feature_enabled = true; n_scans = 3 }) 1 refl (omega arith) (omega arith)
      (λ e. absurd (omega arith), (λ e. absurd (omega arith), tt))

abbrev custom_at : ℕ → CustomPoint ℕ
custom_at a = record { offset_time = 0; x = a; y = a; z = a; reflectivity = 9; tag = 16; line = 1 }

abbrev message : CustomMsg ℕ
message = record {
  timebase = 0;
  point_num = 4;
  lidar_id = 0;
  points = custom_at 1 ∷ custom_at 2 ∷ custom_at 2 ∷ custom_at 3 ∷ [];
}

avia_handler_lem_example :
    (s' : Preprocess ℕ ℕ) × (Clouds.avia_handler whole_numbers message easy ≡ done (some s'))
    × (s'.pl_surf ≡ taken whole_numbers 6 1 1 0 (blank whole_numbers) (drop 1 message.points))
unfolding new
avia_handler_lem_example =
    avia_handler_lem whole_numbers message easy refl (omega arith) (omega arith) refl

avia_handler-spaced_example :
    (s' : Preprocess ℕ ℕ) × (Clouds.avia_handler whole_numbers message
        (record easy { point_filter_num = 2 })
      ≡ done (some s'))
    × (s'.pl_surf ≡ spaced whole_numbers 6 2 1 0 (drop 1 message.points))
unfolding new
avia_handler-spaced_example =
    avia_handler-spaced whole_numbers message (record easy { point_filter_num = 2 }) refl
      (omega arith) (omega arith) refl

abbrev scanned_at : ℕ → ℕ → LivoxPointXyzitl ℕ
scanned_at a line = record { x = a; y = a; z = a; intensity = 1; tag = 0; line = line }

abbrev scan : List (LivoxPointXyzitl ℕ)
scan = scanned_at 5 0 ∷ scanned_at 6 0 ∷ scanned_at 7 1 ∷ scanned_at 8 0 ∷ []

mid360_handler_lem_example :
    (s' : Preprocess ℕ ℕ) × (Sweep.mid360_handler whole_numbers scan easy ≡ done s')
    × (places whole_numbers s'.pl_surf ≡ later_places whole_numbers 1 (replicate 6 true) scan)
unfolding new
mid360_handler_lem_example =
    mid360_handler_lem whole_numbers scan easy
      (omega arith, (omega arith, (omega arith, (omega arith, tt))))

-- The first point of line 1 is not among those taken.
later_places_scan :
    later_places whole_numbers 1 (replicate 6 true) scan ≡ (6, 6, 6, 1) ∷ (8, 8, 8, 1) ∷ []
unfolding later_places is_far Sweep.livox_to_point
later_places_scan = refl

abbrev scans_only : Reader ℕ (List (LivoxPointXyzitl ℕ))
scans_only = record { plain = λ m. []; ouster = λ m. []; livox = λ m. m; velodyne = λ m. [] }

process_lem_example :
    (process whole_numbers scans_only scan easy ≢ done none)
    × (process_custom whole_numbers message easy ≢ done none)
unfolding new
process_lem_example = process_lem whole_numbers scans_only scan message easy (omega arith)

number_order : IsTotal ltb
number_order = record { asymm = ltb_asymm; trans = ltb_trans }
  where
    ltb_asymm : (a b : ℕ) → ltb a b ≡ true → ltb b a ≡ false
    ltb_asymm a b h = ground arith

    ltb_trans : (a b c : ℕ) → ltb a b ≡ false → ltb b c ≡ false → ltb a c ≡ false
    ltb_trans a b c h k = ground arith

exchange_sort_lem_example :
    IsDescending ltb (exchange_sort ltb 3 (4 ∷ 9 ∷ 6 ∷ []))
    × Perm (exchange_sort ltb 3 (4 ∷ 9 ∷ 6 ∷ [])) (4 ∷ 9 ∷ 6 ∷ [])
exchange_sort_lem_example = exchange_sort_lem ltb number_order (4 ∷ 9 ∷ 6 ∷ [])
