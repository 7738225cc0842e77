-- ===== src/Controller/Target.antt =====
-- The target is a pose of the plan, and the goal stays in the plan.
use robot_nav.Prelude.{
  ℕ, zero, suc, ◌+◌, ◌-◌, ◌<◌, ◌≤◌, ◌≡◌, refl, ap, ◌∙◌, inl, inr, Option, some, List, [], ◌∷◌,
  arith, length, get_elem?, get_elem?_inside, drop, ltb, Bool-cases, ◌⊎◌, ◌==◌, not, ◌&&◌,
  if◌then◌else◌,
}
use robot_nav.Controller.{Distance, nearest_from, ahead_from, target_index, get_nearest_target_pose}

get_elem?-drop : {P : Type 0} (n i : ℕ) (l : List P) → get_elem? (drop n l) i ≡ get_elem? l (n + i)
get_elem?-drop zero i l = let e : i ≡ 0 + i = omega arith in ap (get_elem? l) e
get_elem?-drop (suc n) i [] = refl
get_elem?-drop (suc n) i (x ∷ l) =
    let e : suc (n + i) ≡ suc n + i = omega arith in get_elem?-drop n i l ∙ ap (get_elem? (x ∷ l)) e

length-drop : {P : Type 0} (n : ℕ) (l : List P) → length (drop n l) ≡ length l - n
length-drop zero l = omega arith
length-drop (suc n) [] = omega arith
length-drop (suc n) (x ∷ l) = omega (arith, length-drop n l)

-- The fallback of the second loop: an index that did not move becomes the last one.
adjusted :
    (t k n : ℕ)
    → k < n
    → (t ≡ k) ⊎ ((k < t) × (t < n))
    → (k ≤ (if t == k && not (n == 0) then n - 1 else t))
      × ((if t == k && not (n == 0) then n - 1 else t) < n)
adjusted t k n h ahead = elim (Bool-cases (t == k)) [
  | inl same ↦ rw same (elim (Bool-cases (n == 0)) [
    | inl none_left ↦ absurd (ground arith)
    | inr some_left ↦ rw some_left (omega arith, omega arith)
  ])
  | inr moved ↦ rw moved (ground arith, ground arith)
]

module _ {P : Type 0} (d : Distance P) where
  open d use {R}

  nearest_inside :
      (here : P) (l : List P) (i : ℕ) (min_dist : R) (nearest n : ℕ)
      → i + length l ≡ n
      → nearest < n
      → nearest_from d here l i min_dist nearest < n
  unfolding nearest_from
  nearest_inside here [] i m k n e h = h
  nearest_inside here (p ∷ l) i m k n e h = elim (Bool-cases (d.lt (d.hypot p here) m)) [
    | inl c ↦
        rw (c, nearest_from)
          (nearest_inside here l (suc i) (d.hypot p here) i n (omega arith) (omega arith))
    | inr c ↦ rw (c, nearest_from) (nearest_inside here l (suc i) m k n (omega arith) h)
  ]

  -- The index found is the fallback, or a later one that is inside the plan.
  ahead_inside :
      (look : R) (l : List P) (i : ℕ) (accum : R) (fallback n : ℕ)
      → i + length l ≡ n
      → (ahead_from d look l i accum fallback ≡ fallback)
        ⊎ ((i < ahead_from d look l i accum fallback) × (ahead_from d look l i accum fallback < n))
  unfolding ahead_from
  ahead_inside look [] i a k n e = inl refl
  ahead_inside look (p ∷ []) i a k n e = inl refl
  ahead_inside look (p ∷ q ∷ l) i a k n e =
      elim (Bool-cases (d.at_least (d.add a (d.hypot q p)) look)) [
        | inl c ↦ rw (c, ahead_from) (inr (omega arith, omega arith))
        | inr c ↦
            rw (c, ahead_from)
              (elim (ahead_inside look (q ∷ l) (suc i) (d.add a (d.hypot q p)) k n (omega arith)) [
                | inl same ↦ inl same
                | inr (after, inside) ↦ inr (omega arith, inside)
              ])
      ]

  target_inside :
      (look : R) (l : List P) (k : ℕ)
      → k < length l
      → (k ≤ target_index d look l k) × (target_index d look l k < length l)
  unfolding target_index
  target_inside look l k h =
      adjusted (ahead_from d look (drop k l) k d.zero_dist k) k (length l) h
        (ahead_inside look (drop k l) k d.zero_dist k (length l) (omega (arith, length-drop k l)))

  -- What is left of the plan, and the pose made for.
  abbrev pub Target : List P → Option P × List P → Type 0
  Target poses left =
      (k : ℕ) × (i : ℕ) × (p : P) × (k < length poses)
      × (left.1 ≡ drop k poses)
      × (k ≤ i)
      × (get_elem? poses i ≡ some p)
      × (left.0 ≡ some p)
      × (get_elem? left.1 (length left.1 - 1) ≡ get_elem? poses (length poses - 1))

  pruned :
      (poses : List P) (k i : ℕ)
      → k ≤ i
      → i < length poses
      → Target poses (get_elem? (drop k poses) (i - k), drop k poses)
  pruned poses k i h h' =
      let (p, at) = get_elem?_inside poses i h' in
      let there : k + (i - k) ≡ i = omega arith in
      let last : k + (length (drop k poses) - 1) ≡ length poses - 1 =
        omega (arith, length-drop k poses) in
      (
        k,
        i,
        p,
        omega arith,
        refl,
        h,
        at,
        get_elem?-drop k (i - k) poses ∙ ap (get_elem? poses) there ∙ at,
        get_elem?-drop k (length (drop k poses) - 1) poses ∙ ap (get_elem? poses) last,
      )

  kept : (poses : List P) (i : ℕ) → i < length poses → Target poses (get_elem? poses i, poses)
  kept poses i h =
      let (p, at) = get_elem?_inside poses i h in
      (0, i, p, omega arith, refl, omega arith, at, at, refl)

  -- With a plan that is not empty, whatever the distances are, no read is out of range: the target is a
  -- pose of the plan that is not pruned, a front part of the plan is pruned, never all of it, and its
  -- last pose, the goal, stays the last.
  pub get_nearest_target_pose_lem :
      (look : R) (here : P) (poses : List P)
      → 0 < length poses
      → Target poses (get_nearest_target_pose d look here poses)
  unfolding get_nearest_target_pose
  get_nearest_target_pose_lem look here poses h = elim (Bool-cases (ltb (length poses) 2)) [
    | inl short ↦ rw short (kept poses (length poses - 1) (omega arith))
    | inr long ↦
        let inside = nearest_inside here poses 0 d.far 0 (length poses) (omega arith) h in
        let (after, before) =
          target_inside look poses (nearest_from d here poses 0 d.far 0) inside in
        elim (Bool-cases (ltb 0 (nearest_from d here poses 0 d.far 0))) [
          | inl behind ↦ rw (long, behind) (pruned poses _ _ after before)
          | inr first ↦ rw (long, first) (kept poses _ before)
        ]
  ]
