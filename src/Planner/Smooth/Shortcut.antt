-- ===== src/Planner/Smooth/Shortcut.antt =====
-- The line-of-sight shortcuts: which poses are kept.
use robot_nav.Prelude.{
  ℕ, zero, suc, ◌+◌, ◌-◌, ◌≤◌, ◌<◌, ◌≡◌, ◌⊎◌, inl, inr, refl, Bool, true, Option, some, List, [],
  ◌∷◌, arith, length, get_elem?, get_elem?_inside, ltb, Bool-cases,
}
use robot_nav.Planner.Smooth.{Position, farthest, smooth_from}

module _ {R : Type 0} (sight : Position R → Position R → Bool) (path : List (Position R)) where
  -- From pose `i` on, the kept poses go strictly forward to the last one, each the next pose of the
  -- path or one that is in sight of the pose before.
  abbrev pub Hops : ℕ → List ℕ → Type 0
  Hops i [] = suc i ≡ length path
  Hops i (j ∷ l) =
      (i < j)
      × (j < length path)
      × ((j ≡ i + 1)
          ⊎ ((p : Position R) × (q : Position R) × (get_elem? path i ≡ some p)
              × (get_elem? path j ≡ some q)
              × (sight p q ≡ true)))
      × Hops j l

  -- What the inner loop gives: a pose ahead that is in sight, or the fallback.
  abbrev Ahead : Position R → ℕ → ℕ → Option ℕ → Type 0
  Ahead here current fallback r =
      (j : ℕ) × (r ≡ some j)
      × ((j ≡ fallback)
          ⊎ ((current < j)
              × (j < length path)
              × ((q : Position R) × (get_elem? path j ≡ some q) × (sight here q ≡ true))))

  farthest_lem :
      (here : Position R) (rounds current target fallback : ℕ)
      → target ≡ current + rounds
      → target < length path
      → Ahead here current fallback (farthest sight path here rounds target fallback)
  unfolding farthest
  farthest_lem here zero current target fallback e h = (fallback, refl, inl refl)
  farthest_lem here (suc rounds) current target fallback e h =
      let (q, at) = get_elem?_inside path target h in
      elim (Bool-cases (sight here q)) [
        | inl seen ↦ (target, rw (at, seen, farthest), inr (omega arith, h, (q, at, seen)))
        | inr hidden ↦
            let (j, ran, ahead) =
              farthest_lem here rounds current (target - 1) fallback (omega arith) (omega arith) in
            (j, rw (at, hidden, farthest) ran, ahead)
      ]

  abbrev Seen : ℕ → ℕ → Type 0
  Seen i j =
      (j ≡ i + 1)
      ⊎ ((p : Position R) × (q : Position R) × (get_elem? path i ≡ some p)
          × (get_elem? path j ≡ some q)
          × (sight p q ≡ true))

  hop :
      {i : ℕ} (here : Position R)
      → get_elem? path i ≡ some here
      → (j : ℕ)
      → (j ≡ i + 1)
        ⊎ ((i < j)
            × (j < length path)
            × ((q : Position R) × (get_elem? path j ≡ some q) × (sight here q ≡ true)))
      → i + 1 < length path
      → (i < j) × (j < length path) × Seen i j
  hop here at j (inl e) h = (omega arith, omega arith, inl e)
  hop here at j (inr (f, k, (q, at', s))) h = (f, k, inr (here, q, at, at', s))

  step_ran :
      (fuel current : ℕ) (here : Position R) (j : ℕ) (l : List ℕ)
      → ltb current (length path - 1) ≡ true
      → get_elem? path current ≡ some here
      → farthest sight path here (length path - 1 - current) (length path - 1) (current + 1)
        ≡ some j
      → smooth_from sight fuel path j ≡ some l
      → smooth_from sight (suc fuel) path current ≡ some (j ∷ l)
  unfolding smooth_from
  step_ran fuel current here j l more at ran ran' = rw (more, at, ran, ran', smooth_from)

  -- From a pose of the path and with more fuel than poses ahead, for any test of sight, the loop
  -- ends, reads no pose out of range, and keeps a row of poses that goes to the last one, each the
  -- next pose or one that is seen from the one before.
  pub smooth_from_lem :
      (fuel current : ℕ)
      → length path ≤ current + fuel
      → current < length path
      → (l : List ℕ) × (smooth_from sight fuel path current ≡ some l) × Hops current l
  unfolding smooth_from
  smooth_from_lem zero current f h = absurd (omega arith)
  smooth_from_lem (suc fuel) current f h = elim (Bool-cases (ltb current (length path - 1))) [
    | inr end ↦ ([], rw (end, smooth_from), ground arith)
    | inl more ↦
        let (here, at) = get_elem?_inside path current h in
        let (j, ran, ahead) =
          farthest_lem here (length path - 1 - current) current (length path - 1) (current + 1)
            (ground arith) (omega arith) in
        let (forward, inside, seen) = hop here at j ahead (ground arith) in
        let (l, ran', hops) = smooth_from_lem fuel j (omega arith) inside in
        (j ∷ l, step_ran fuel current here j l more at ran ran', (forward, inside, seen, hops))
  ]
