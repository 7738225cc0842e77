-- ===== src/Preprocess/Clouds/Rings.antt =====
-- The features of all lines of a cloud: they are found in the end, but a ring with no point is a fault.
use robot_nav.Prelude.{
  ℕ, zero, suc, ◌+◌, ◌≤◌, ◌<◌, ◌≡◌, ◌≢◌, refl, ◌∙◌, inl, inr, Bool, true, false, not, ◌&&◌, Option,
  none, some, List, [], ◌∷◌, ◌++◌, arith, length, get_elem?, get_elem?-set_ne, get_elem?-set_self,
  set, All, ltb, ltb→lt, ◌==◌, ==_iff, Bool-cases, if_true, if◌then◌else◌,
}
use robot_nav.Livox.Fault.{
  Outcome, done, fault, out_of_bounds, Safe, safe, faulty, if-Safe, Safe-map, Safe-bind, Safe-fault,
}
use robot_nav.Preprocess.Arrays.{write, read-Safe, read_some}
use robot_nav.Preprocess.{Reals, PointType, Preprocess}
use robot_nav.Preprocess.Features.Surfaces.{IsSome}
use robot_nav.Preprocess.Features.Results.{Kept}
use robot_nav.Preprocess.Features.Ends.{give_feature-Safe}
use robot_nav.Preprocess.Clouds

false_ne_true : (b : Bool) → b ≡ false → b ≡ true → ⊥
false_ne_true b e f = cc

-- The rules for what follows a loop that may run out of fuel.
pub Safe-some :
    {A B : Type 0} {P : A → Type 0} {Q : Option B → Type 0} {C : Type 0}
    {f : A → Outcome (Option B)} (o : Option A)
    → IsSome P o
    → ((a : A) → P a → Safe Q C (f a))
    → Safe Q C (elim o [ none ↦ done none | some a ↦ f a ])
Safe-some none h k = elim h [ ]
Safe-some (some a) h k = k a h

some_fault :
    {A B : Type 0} {P : A → Type 0} {f : A → Outcome (Option B)} (o : Option A)
    → IsSome P o
    → ((a : A) → P a → f a ≡ fault out_of_bounds)
    → ◌≡◌ {A = Outcome (Option B)}
        (elim o [ none ↦ done none | some a ↦ f a ])
        (fault out_of_bounds)
some_fault none h k = elim h [ ]
some_fault (some a) h k = k a h

IsSome-Kept :
    {F D : Type 0} (s s' : Preprocess F D) (o : Option (Preprocess F D))
    → Kept s s'
    → IsSome (Kept s') o
    → IsSome (Kept s) o
IsSome-Kept s s' none k h = h
IsSome-Kept s s' (some a) k h = (h.0 ∙ k.0, h.1 ∙ k.1)

module _ (re : Reals) where
  open re use {F, D}

  length-measured :
      (of_square : D → D) (l : List (PointType F))
      → length (Clouds.measured re of_square l) ≡ length l
  unfolding Clouds.measured
  length-measured of_square [] = refl
  length-measured of_square (p ∷ []) = refl
  length-measured of_square (p ∷ q ∷ l) = omega (arith, length-measured of_square (q ∷ l))

  line_features-Safe :
      (of_square : D → D) (pl : List (PointType F)) (s : Preprocess F D)
      → 2 ≤ s.group_size
      → Safe (IsSome (Kept s)) (Unit {0}) (Clouds.line_features re of_square pl s)
  unfolding Clouds.line_features
  line_features-Safe of_square [] s two = faulty tt
  line_features-Safe of_square (p ∷ l) s two =
      Safe-map (λ o h. h) (λ c. tt)
        (give_feature-Safe re (record s { way = Clouds.last_way re s.way (p ∷ l) }) (p ∷ l)
          (Clouds.measured re of_square (p ∷ l)) (length-measured of_square (p ∷ l)) two)

  features_or_skip-Safe :
      (of_square : D → D) (least : ℕ) (pl : List (PointType F)) (s : Preprocess F D)
      → 2 ≤ s.group_size
      → Safe
          (IsSome (Kept s))
          (Unit {0})
          (if ltb (length pl) least then done (some s) else Clouds.line_features re of_square pl s)
  features_or_skip-Safe of_square least pl s two = elim (Bool-cases (ltb (length pl) least)) [
    | inl e ↦ rw e (safe (refl, refl))
    | inr e ↦ rw e (line_features-Safe of_square pl s two)
  ]

  pub lines_from-Safe :
      (of_square : D → D) (least n j : ℕ) (s : Preprocess F D)
      → 2 ≤ s.group_size
      → Safe (IsSome (Kept s)) (Unit {0}) (Clouds.lines_from re of_square least n j s)
  unfolding Clouds.lines_from
  lines_from-Safe of_square least zero j s two = safe (refl, refl)
  lines_from-Safe of_square least (suc n) j s two = Safe-bind (read-Safe s.pl_buff j) λ pl _.
      Safe-bind (features_or_skip-Safe of_square least pl s two) λ o h. Safe-some o h λ s' kept.
        Safe-map (λ o' h'. IsSome-Kept s s' o' kept h') (λ c. c)
          (lines_from-Safe of_square least n (j + 1) s' (omega arith))

  -- A line with no point, of those that are gone through with no least number of points, is a fault.
  lines_from_empty :
      (of_square : D → D) (n j k : ℕ) (s : Preprocess F D)
      → 2 ≤ s.group_size
      → j ≤ k
      → k < j + n
      → get_elem? s.pl_buff k ≡ some []
      → Clouds.lines_from re of_square 0 n j s ≡ fault out_of_bounds
  unfolding Clouds.lines_from Clouds.line_features
  lines_from_empty of_square zero j k s two low high e = absurd (omega arith)
  lines_from_empty of_square (suc n) j k s two low high e = elim (Bool-cases (j == k)) [
    | inl here ↦ let same = (==_iff j k).0 here in rw (same, read_some s.pl_buff k e) refl
    | inr later ↦ Safe-fault (read-Safe s.pl_buff j) λ pl _.
        Safe-fault (features_or_skip-Safe of_square 0 pl s two) λ o h. some_fault o h λ s' kept.
          lines_from_empty of_square n (j + 1) k s' (omega arith) (ground arith) (omega arith)
            (rw kept.0 e)
  ]

  clear_from-empties :
      (k n i : ℕ) (buff : List (List (PointType F)))
      → k < i + n
      → (k < i → get_elem? buff k ≡ some [])
      → Safe (λ b. get_elem? b k ≡ some []) (Unit {0}) (Clouds.clear_from n i buff)
  unfolding Clouds.clear_from write
  clear_from-empties k zero i buff h e = safe (e (omega arith))
  clear_from-empties k (suc n) i buff h e = elim (Bool-cases (ltb i (length buff))) [
    | inl inside ↦
        let lt = ltb→lt i (length buff) inside in
        rw inside (
          clear_from-empties k n (i + 1) (set buff i []) (omega arith) λ low.
            elim (Bool-cases (i == k)) [
              | inl here ↦ rw (← (==_iff i k).0 here) (get_elem?-set_self buff i [] lt)
              | inr other ↦
                  get_elem?-set_ne buff i k [] (λ same. cc (other, (==_iff i k).1 same))
                  ∙ e (ground arith)
            ])
    | inr outside ↦ rw outside (faulty tt)
  ]

  push_line-other :
      (k line : ℕ) (p : PointType F) (buff : List (List (PointType F)))
      → line ≢ k
      → get_elem? buff k ≡ some []
      → Safe (λ b. get_elem? b k ≡ some []) (Unit {0}) (Clouds.push_line buff line p)
  unfolding Clouds.push_line write
  push_line-other k line p buff other e = Safe-bind (read-Safe buff line) λ pl _.
      elim (Bool-cases (ltb line (length buff))) [
        | inl inside ↦ rw inside (safe (get_elem?-set_ne buff line k (pl ++ (p ∷ [])) other ∙ e))
        | inr outside ↦ rw outside (faulty tt)
      ]

  module _ (scale : F) (k : ℕ) where
    -- A point of the ring k lies in the blind zone.
    abbrev pub IsNearAt : D → Clouds.OusterPoint F → Type 0
    IsNearAt blind p =
        p.ring ≡ k → Clouds.is_near re blind (Clouds.ouster_to_point re scale p) ≡ true

    -- The ring k is empty, and the size of groups is as it was.
    abbrev StaysEmpty : ℕ → Preprocess F D → Type 0
    StaysEmpty group s' = (get_elem? s'.pl_buff k ≡ some []) × (s'.group_size ≡ group)

    -- One point that lies in the blind zone or goes to another ring.
    kept_out :
        (p : Clouds.OusterPoint F) (s : Preprocess F D)
        → IsNearAt s.blind p
        → get_elem? s.pl_buff k ≡ some []
        → Safe
            (λ b. get_elem? b k ≡ some [])
            (Unit {0})
            (let q = Clouds.ouster_to_point re scale p in
              if not (Clouds.is_near re s.blind q) && ltb p.ring s.n_scans
              then Clouds.push_line s.pl_buff p.ring q
              else done s.pl_buff)
    kept_out p s near e =
        let q = Clouds.ouster_to_point re scale p in
        elim (Bool-cases (Clouds.is_near re s.blind q)) [
          | inl z ↦ rw z (safe e)
          | inr z ↦
              let other : p.ring ≢ k = λ same. false_ne_true _ z (near same) in
              rw z (
                if-Safe (ltb p.ring s.n_scans) (push_line-other k p.ring q s.pl_buff other e)
                  (safe e))
        ]

    ring_points-empty :
        (pts : List (Clouds.OusterPoint F)) (s : Preprocess F D)
        → All (IsNearAt s.blind) pts
        → get_elem? s.pl_buff k ≡ some []
        → Safe (StaysEmpty s.group_size) (Unit {0}) (Clouds.ring_points re scale pts s)
    unfolding Clouds.ring_points
    ring_points-empty [] s near e = safe (e, refl)
    ring_points-empty (p ∷ pts) s near e =
        Safe-bind (kept_out p s near.0 e)
          λ buff e'. ring_points-empty pts (record s { pl_buff = buff }) near.1 e'

  -- With feature extraction on and groups of at least two points, an Ouster cloud is a fault where one of
  -- the rings has no point outside the blind zone.
  pub oust64_handler_empty_ring :
      (pts : List (Clouds.OusterPoint F)) (s : Preprocess F D) (k : ℕ)
      → s.feature_enabled ≡ true
      → 2 ≤ s.group_size
      → k < s.n_scans
      → All (IsNearAt s.time_unit_scale k s.blind) pts
      → Clouds.oust64_handler re pts s ≡ fault out_of_bounds
  unfolding Clouds.oust64_handler
  oust64_handler_empty_ring pts s k on two inside near =
      if_true _ _ on
      ∙ Safe-fault
          (clear_from-empties k s.n_scans 0 s.pl_buff (omega arith) (λ low. absurd (omega arith)))
          λ buff e.
            Safe-fault
              (ring_points-empty s.time_unit_scale k pts
                (record (Clouds.cleared s) { pl_buff = buff }) near e)
              λ s1 h.
                lines_from_empty (λ d. d) s.n_scans 0 k s1 (omega (arith, h.1)) (omega arith)
                  (omega arith) h.0
