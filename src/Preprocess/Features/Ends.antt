-- ===== src/Preprocess/Features/Ends.antt =====
-- `give_feature` as a whole: it ends, and where it leaves an array.
use robot_nav.Prelude.{
  ℕ, ◌+◌, ◌-◌, ◌≤◌, ◌<◌, ◌≡◌, refl, ◌⊎◌, true, Option, none, some, List, [], ◌∷◌, inl, inr, arith,
  length, All, ◌==◌, ==_iff, Bool-cases,
}
use robot_nav.Livox.Fault.{
  fault, out_of_bounds, Returns, returns, Returns-bind, Safe, safe, faulty, Safe-map, Safe-bind,
  Safe-of_Returns, Safe-known,
}
use robot_nav.Preprocess.{Reals, PointType, OrgType, Preprocess}
use robot_nav.Preprocess.Planes
use robot_nav.Preprocess.Edges
use robot_nav.Preprocess.Features
use robot_nav.Preprocess.Planes.{Scanning}
use robot_nav.Preprocess.Features.Rounds.{
  edge_round-HasLength, small_plane_round-HasLength, rounds_from-HasLength,
}
use robot_nav.Preprocess.Features.Surfaces.{Overruns, IsSome, start_of, first, surfaces_from-Safe}
use robot_nav.Preprocess.Features.Overruns.{surfaces_overrun}
use robot_nav.Preprocess.Features.Results.{Kept, collect_from-Kept}

module _ (re : Reals) where
  open re use {F, D, lt}

  -- Every point of the line lies in the blind zone.
  abbrev pub AllBlind : D → List (OrgType D) → Type 0
  AllBlind blind = All (λ (t : OrgType D). lt t.range blind ≡ true)

  head_from-Safe :
      {C : Type 0} (blind : D) (types : List (OrgType D)) (i : ℕ)
      → (AllBlind blind types → C)
      → Safe (λ k. k < i + length types) C (Planes.head_from re blind types i)
  unfolding Planes.head_from
  head_from-Safe blind [] i cause = faulty (cause tt)
  head_from-Safe blind (t ∷ types) i cause = elim (Bool-cases (lt t.range blind)) [
    | inl e ↦
        let rest = head_from-Safe blind types (i + 1) (λ all. cause (e, all)) in
        rw e (Safe-map (λ k h. omega arith) (λ c. c) rest)
    | inr e ↦ rw e (safe (omega arith))
  ]

  head_from-fault :
      (blind : D) (types : List (OrgType D)) (i : ℕ)
      → AllBlind blind types
      → Planes.head_from re blind types i ≡ fault out_of_bounds
  unfolding Planes.head_from
  head_from-fault blind [] i h = refl
  head_from-fault blind (t ∷ types) i h = rw h.0 (head_from-fault blind types (i + 1) h.1)

  module _ (s : Preprocess F D) (pl : List (PointType F)) where
    finish-IsSome :
        (head : ℕ) (st : Scanning D) (r : Preprocess F D)
        → head ≤ length pl
        → length st.types ≡ length pl
        → Returns (IsSome (Kept r)) (Features.finish re pl head (some st) r)
    unfolding Features.finish
    finish-IsSome head st r low e =
        let r1 = record r { way = st.way } in
        let n = length pl in
        Returns-bind
          (rounds_from-HasLength re r1 pl (Edges.edge_round re r1 pl) (head + 3) (n - 3)
            (λ i l lo hi k. edge_round-HasLength re r1 pl i l (omega arith) (omega arith) k)
            (n - 3 - (head + 3)) (head + 3) st.types (omega arith) refl e)
          λ edges e1.
            Returns-bind
              (rounds_from-HasLength re r1 pl (Edges.small_plane_round re r1 pl) (head + 1) (n - 1)
                (λ i l lo hi k.
                  small_plane_round-HasLength re r1 pl i l (omega arith) (omega arith) k)
                (n - 1 - (head + 1)) (head + 1) edges (omega arith) refl e1)
              λ types e2.
                Returns-bind (collect_from-Kept re pl types e2 head r1 low) λ s' kept. returns kept

    finish_scanned-Safe :
        (types : List (OrgType D)) (head : ℕ) (scanned : Option (Scanning D))
        → head ≤ length pl
        → IsSome (λ (st : Scanning D). length st.types ≡ length pl) scanned
        → Safe (IsSome (Kept s)) (Overruns re s pl types) (Features.finish re pl head scanned s)
    finish_scanned-Safe types head none low h = elim h [ ]
    finish_scanned-Safe types head (some st) low h = Safe-of_Returns (finish-IsSome head st s low h)

    pub give_feature-Safe :
        (types : List (OrgType D))
        → length types ≡ length pl
        → 2 ≤ s.group_size
        → Safe
            (IsSome (Kept s))
            (AllBlind s.blind types ⊎ Overruns re s pl types)
            (Features.give_feature re pl types s)
    unfolding Features.give_feature Features.classify
    give_feature-Safe types same two = elim (Bool-cases (length pl == 0)) [
      | inl e ↦ rw e (safe (refl, refl))
      | inr e ↦ rw e (
          Safe-bind (Safe-known (head_from-Safe s.blind types 0 inl)) λ head (low, found).
            Safe-bind
              (Safe-map (λ o h. h) inr
                (surfaces_from-Safe re s pl types (length pl + 1) head (length pl - s.group_size)
                  (start_of re s pl types) two refl (omega arith) (omega arith) same (first found)))
              λ scanned h.
                Safe-map (λ o k. k) inr (finish_scanned-Safe types head scanned (omega arith) h))
    ]

    -- A line that is not empty, and of which every point lies in the blind zone, is a read past its end.
    pub give_feature-AllBlind :
        (types : List (OrgType D))
        → 0 < length pl
        → AllBlind s.blind types
        → Features.give_feature re pl types s ≡ fault out_of_bounds
    unfolding Features.give_feature Features.classify
    give_feature-AllBlind types some_points h = elim (Bool-cases (length pl == 0)) [
      | inl e ↦ absurd (ground arith)
      | inr e ↦ rw (e, head_from-fault s.blind types 0 h)
    ]

    give_feature-Overruns :
        (types : List (OrgType D))
        → length types ≡ length pl
        → 2 ≤ s.group_size
        → Overruns re s pl types
        → Features.give_feature re pl types s ≡ fault out_of_bounds
    unfolding Features.give_feature Features.classify
    give_feature-Overruns types same two o =
        let (head, found, overrun) = surfaces_overrun re s pl types two same o in
        elim (Bool-cases (length pl == 0)) [
          | inl e ↦ let none_left = (==_iff (length pl) 0).0 e in absurd (omega (arith, o.inside))
          | inr e ↦ rw (e, found, overrun) refl
        ]

    -- Of a line of points with a range and a distance for each, and groups of at least two points: the
    -- classification ends, and every access to an array is in range, but where every point of the line
    -- lies in the blind zone, or the loop over the surfaces comes, from the first point outside the
    -- blind zone on, to a point that it judges to begin a plane which goes on past the last point of
    -- the line. The buffers of lines stay as they are. In each of these two cases, if there is a
    -- point, an access is out of range.
    pub give_feature_lem :
        (types : List (OrgType D))
        → length types ≡ length pl
        → 2 ≤ s.group_size
        → Safe
            (IsSome (Kept s))
            (AllBlind s.blind types ⊎ Overruns re s pl types)
            (Features.give_feature re pl types s)
          × (0 < length pl
              → AllBlind s.blind types ⊎ Overruns re s pl types
              → Features.give_feature re pl types s ≡ fault out_of_bounds)
    give_feature_lem types same two = (
      give_feature-Safe types same two,
      λ some_points cause. elim cause [
        | inl blind ↦ give_feature-AllBlind types some_points blind
        | inr o ↦ give_feature-Overruns types same two o
      ],
    )
