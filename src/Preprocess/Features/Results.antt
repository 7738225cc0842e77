-- ===== src/Preprocess/Features/Results.antt =====
-- The loop of `give_feature` over the results: what goes into the clouds.
use robot_nav.Prelude.{
  ℕ, zero, suc, ◌+◌, ◌-◌, ◌≤◌, ◌<◌, ◌≡◌, refl, sym, ap, ◌∙◌, Bool, true, false, Option, none, some,
  List, [], ◌∷◌, ◌++◌, inl, inr, arith, length, drop, ◌==◌, ==_iff, Bool-cases, if◌then◌else◌,
}
use mathlib.Core.List.{append_assoc, append-nil}
use robot_nav.Livox.Fault.{
  done, ◌>>=◌, Returns, returns, Returns-map, Returns-bind, Returns_value, done-injective,
}
use robot_nav.Preprocess.Arrays.{Any, read-Any, IsAt, read-IsAt, drop_all}
use robot_nav.Preprocess.{
  Reals, PointType, OrgType, Feature, Preprocess, blank, nor, poss_plane, real_plane, edge_jump,
  edge_plane, wire, zero_point,
}
use robot_nav.Preprocess.Features
use robot_nav.Preprocess.Features.{is_surface, is_corner}

-- The points of a line whose feature passes a test.
pub points_of :
    {F D : Type 0} → (Feature → Bool) → List (OrgType D) → List (PointType F) → List (PointType F)
points_of test [] pl = []
points_of test (t ∷ types) [] = []
points_of test (t ∷ types) (p ∷ pl) =
    let rest = points_of test types pl in if test t.ftype then p ∷ rest else rest

-- A surface that waits began before j.
abbrev Began : ℕ → Option ℕ → Type 0
Began j none = Unit {0}
Began j (some k) = k ≤ j

-- What the two kinds of features are not at once.
surface_not_corner : (f : Feature) → is_surface f ≡ true → is_corner f ≡ false
surface_not_corner nor h = refl
surface_not_corner poss_plane h = refl
surface_not_corner real_plane h = refl
surface_not_corner edge_jump h = cc
surface_not_corner edge_plane h = cc
surface_not_corner wire h = refl
surface_not_corner zero_point h = refl

-- The lines and the size of groups are as they were.
abbrev pub Kept : {F D : Type 0} → Preprocess F D → Preprocess F D → Type 0
Kept s s' = (s'.pl_buff ≡ s.pl_buff) × (s'.group_size ≡ s.group_size)

module _ (re : Reals) (pl : List (PointType re.F)) where
  open re use {F, D}

  sum_from-Any :
      (n k : ℕ) (ap : PointType F)
      → k + n ≤ length pl
      → Returns Any (Features.sum_from re pl n k ap)
  unfolding Features.sum_from
  sum_from-Any zero k ap h = returns tt
  sum_from-Any (suc n) k ap h =
      Returns-bind (read-Any pl k (omega arith)) λ p _. sum_from-Any n (k + 1) _ (omega arith)

  -- The corners and the rest of the state, but for the surfaces, are as they were.
  abbrev SameCorners : Preprocess F D → Preprocess F D → Type 0
  SameCorners s s' = (s'.pl_corn ≡ s.pl_corn) × Kept s s'

  end_surface-SameCorners :
      (j : ℕ) (last_surface : Option ℕ) (s : Preprocess F D)
      → Began j last_surface
      → j ≤ length pl
      → Returns (SameCorners s) (Features.end_surface re pl j last_surface s)
  unfolding Features.end_surface
  end_surface-SameCorners j none s b h = returns (refl, (refl, refl))
  end_surface-SameCorners j (some k) s b h =
      Returns-bind (sum_from-Any (j - k) k (blank re) (omega arith))
        λ ap _. returns (refl, (refl, refl))

  module _ (types : List (OrgType D)) (same : length types ≡ length pl) where
    -- The points from j on of a kind.
    abbrev from : (Feature → Bool) → ℕ → List (PointType F)
    from test j = points_of test (drop j types) (drop j pl)

    from_step :
        (test : Feature → Bool) (j : ℕ) (t : OrgType D) (p : PointType F)
        → IsAt types j t
        → IsAt pl j p
        → from test j ≡ (if test t.ftype then p ∷ from test (j + 1) else from test (j + 1))
    unfolding points_of
    from_step test j t p ht hp = let one : j + 1 ≡ suc j = omega arith in rw (ht, hp, one) refl

    -- What a round owes to the clouds is what is left of the line.
    abbrev Owes : ℕ → Preprocess F D → Option ℕ × Preprocess F D → Type 0
    Owes j s (last_surface, s') =
        Began (j + 1) last_surface
        × (s'.pl_corn ++ from is_corner (j + 1) ≡ s.pl_corn ++ from is_corner j)
        × Kept s s'

    -- A surface point, with its first one.
    surface_case :
        (j : ℕ) (last_surface : Option ℕ) (s : Preprocess F D)
        → Began j last_surface
        → (p : PointType F) → from is_corner j ≡ from is_corner (j + 1)
        → Returns (Owes j s) (
            let first : ℕ = elim last_surface [ none ↦ j | some k ↦ k ] in
            done (
              if j + 1 == first + s.point_filter_num
              then (none, record s { pl_surf = s.pl_surf ++ (p ∷ []) })
              else (some first, s)))
    surface_case j none s b p step = elim (Bool-cases (j + 1 == j + s.point_filter_num)) [
      | inl e ↦ rw e (returns (tt, ap (λ l. s.pl_corn ++ l) (sym step), (refl, refl)))
      | inr e ↦ rw e (returns (omega arith, ap (λ l. s.pl_corn ++ l) (sym step), (refl, refl)))
    ]
    surface_case j (some k) s b p step = elim (Bool-cases (j + 1 == k + s.point_filter_num)) [
      | inl e ↦ rw e (returns (tt, ap (λ l. s.pl_corn ++ l) (sym step), (refl, refl)))
      | inr e ↦ rw e (returns (omega arith, ap (λ l. s.pl_corn ++ l) (sym step), (refl, refl)))
    ]

    -- Any other point: it is a corner or not, and ends a surface that waits.
    other_case :
        (j : ℕ) (last_surface : Option ℕ) (s : Preprocess F D)
        → Began j last_surface
        → j < length pl
        → (t : OrgType D) (p : PointType F)
        → from is_corner j
          ≡ (if is_corner t.ftype then p ∷ from is_corner (j + 1) else from is_corner (j + 1))
        → Returns (Owes j s) (
            let s1 =
              if is_corner t.ftype then record s { pl_corn = s.pl_corn ++ (p ∷ []) } else s in
            Features.end_surface re pl j last_surface s1 >>= λ s2. done (none, s2))
    other_case j last_surface s b h t p step = elim (Bool-cases (is_corner t.ftype)) [
      | inl e ↦
          let s1 = record s { pl_corn = s.pl_corn ++ (p ∷ []) } in
          rw e (
            Returns-bind (end_surface-SameCorners j last_surface s1 b (omega arith)) λ s2 k.
              returns (
                tt,
                rw (k.0, step, e) (append_assoc s.pl_corn (p ∷ []) (from is_corner (j + 1))),
                k.1,
              ))
      | inr e ↦ rw e (
          Returns-bind (end_surface-SameCorners j last_surface s b (omega arith))
            λ s2 k. returns (tt, rw (k.0, step, e) refl, k.1))
    ]

    collect_round-Owes :
        (j : ℕ) (last_surface : Option ℕ) (s : Preprocess F D)
        → Began j last_surface
        → j < length pl
        → Returns (Owes j s) (Features.collect_round re pl types j (last_surface, s))
    unfolding Features.collect_round
    collect_round-Owes j last_surface s b h = Returns-bind (read-IsAt types j (omega arith)) λ t ht.
        Returns-bind (read-IsAt pl j h) λ p hp.
          let step = from_step is_corner j t p ht hp in
          elim (Bool-cases (is_surface t.ftype)) [
            | inl surface ↦
                let not_corner = surface_not_corner t.ftype surface in
                rw surface (surface_case j last_surface s b p (rw not_corner at step))
            | inr other ↦ rw other (other_case j last_surface s b h t p step)
          ]

    collect_from-corners :
        (n j : ℕ) (w : Option ℕ × Preprocess F D)
        → Began j w.0
        → j + n ≡ length pl
        → Returns
            (λ (s' : Preprocess F D). (s'.pl_corn ≡ w.1.pl_corn ++ from is_corner j) × Kept w.1 s')
            (Features.collect_from re pl types n j w)
    unfolding Features.collect_from points_of
    collect_from-corners zero j (last_surface, s) b e =
        returns (
          rw (drop_all types j (omega arith), points_of) (sym (append-nil s.pl_corn)),
          (refl, refl),
        )
    collect_from-corners (suc n) j (last_surface, s) b e =
        Returns-bind (collect_round-Owes j last_surface s b (omega arith)) λ w' owes.
          Returns-map (λ s' h. (h.0 ∙ owes.1, (h.1.0 ∙ owes.2.0, h.1.1 ∙ owes.2.1)))
            (collect_from-corners n (j + 1) w' owes.0 (omega arith))

    -- With a filter of 1 nothing waits.
    abbrev OwesSurface : ℕ → Preprocess F D → Option ℕ × Preprocess F D → Type 0
    OwesSurface j s (last_surface, s') =
        (last_surface ≡ none)
        × (s'.point_filter_num ≡ 1)
        × (s'.pl_surf ++ from is_surface (j + 1) ≡ s.pl_surf ++ from is_surface j)

    collect_round-OwesSurface :
        (j : ℕ) (s : Preprocess F D)
        → s.point_filter_num ≡ 1
        → j < length pl
        → Returns (OwesSurface j s) (Features.collect_round re pl types j (none, s))
    unfolding Features.collect_round Features.end_surface
    collect_round-OwesSurface j s one h = Returns-bind (read-IsAt types j (omega arith)) λ t ht.
        Returns-bind (read-IsAt pl j h) λ p hp.
          let step = from_step is_surface j t p ht hp in
          elim (Bool-cases (is_surface t.ftype)) [
            | inl e ↦
                let now = (==_iff (j + 1) (j + s.point_filter_num)).1 (omega arith) in
                rw (e, now)
                  (returns (
                    refl,
                    one,
                    rw (step, e) (append_assoc s.pl_surf (p ∷ []) (from is_surface (j + 1))),
                  ))
            | inr e ↦ rw e (elim (Bool-cases (is_corner t.ftype)) [
              | inl c ↦ rw c (returns (refl, one, rw (step, e) refl))
              | inr c ↦ rw c (returns (refl, one, rw (step, e) refl))
            ])
          ]

    collect_from-surfaces :
        (n j : ℕ) (last_surface : Option ℕ) (s : Preprocess F D)
        → last_surface ≡ none
        → s.point_filter_num ≡ 1
        → j + n ≡ length pl
        → Returns
            (λ (s' : Preprocess F D). s'.pl_surf ≡ s.pl_surf ++ from is_surface j)
            (Features.collect_from re pl types n j (last_surface, s))
    unfolding Features.collect_from points_of
    collect_from-surfaces zero j last_surface s waits one e =
        returns (rw (drop_all types j (omega arith), points_of) (sym (append-nil s.pl_surf)))
    collect_from-surfaces (suc n) j last_surface s waits one e = rw waits (
        Returns-bind (collect_round-OwesSurface j s one (omega arith)) λ w' owes.
          Returns-map (λ s' h. h ∙ owes.2)
            (collect_from-surfaces n (j + 1) w'.0 w'.1 owes.0 owes.1 (omega arith)))

    pub collect_from-Kept :
        (j : ℕ) (s : Preprocess F D)
        → j ≤ length pl
        → Returns (Kept s) (Features.collect_from re pl types (length pl - j) j (none, s))
    collect_from-Kept j s h =
        Returns-map (λ s' k. k.1)
          (collect_from-corners (length pl - j) j (none, s) tt (omega arith))

    -- With a filter of 1, the loop over the results from the point j on, of a line with a feature for each
    -- point, ends with no fault: it adds to the corners just the points whose feature is an edge and to the
    -- surfaces just those whose feature is a plane, in their order.
    pub collect_from_lem :
        (j : ℕ) (s : Preprocess F D)
        → j ≤ length pl
        → s.point_filter_num ≡ 1
        → (s' : Preprocess F D) × (Features.collect_from re pl types (length pl - j) j (none, s)
            ≡ done s')
          × (s'.pl_corn ≡ s.pl_corn ++ points_of is_corner (drop j types) (drop j pl))
          × (s'.pl_surf ≡ s.pl_surf ++ points_of is_surface (drop j types) (drop j pl))
    collect_from_lem j s h one =
        let (s', e, (corners, kept)) =
          Returns_value (collect_from-corners (length pl - j) j (none, s) tt (omega arith)) in
        let (s'', e', surfaces) =
          Returns_value (collect_from-surfaces (length pl - j) j none s refl one (omega arith)) in
        let same : s'' ≡ s' = done-injective _ _ (sym e' ∙ e) in
        (s', e, corners, rw (← same) surfaces)
