-- ===== src/Planner/Search/Expand.antt =====
-- The loop over the neighbours of a cell.
use robot_nav.Prelude.{
  ℕ, ◌*◌, ◌≤◌, ◌≡◌, ◌⊎◌, inl, inr, refl, ap, ◌∙◌, Bool, true, false, Option, some, List, [], ◌∷◌,
  arith, length, All, get_elem?, get_elem?_inside, Bool-cases,
}
use robot_nav.Prelude.Bits.{add32}
use robot_nav.Planner.Interface.{Real, Costmap}
use robot_nav.Planner.Search.{
  AStarNode, child, node_x, node_y, is_node_valid, cell_index, new_node, expand,
}
use robot_nav.Planner.Search.Cells.{is_node_valid-InMap, IsSmall, cell_index_lem, Among}
use robot_nav.Planner.Search.Picks.{Holds}

-- A node that hangs below `cur`, at a valid cell in one of the directions.
pub data Pushed {R : Type 0} (m : Costmap) (cur : AStarNode R) (dirs : List (ℕ × ℕ))
    : AStarNode R → Type 0 where
  pushed :
      (x y : ℕ) (g h : R) (dx dy : ℕ)
      → Among dx dy dirs
      → x ≡ add32 (node_x cur) dx
      → y ≡ add32 (node_y cur) dy
      → is_node_valid m x y ≡ true
      → Pushed m cur dirs (child x y g h cur)

-- What a call of `expand` gives.
pub record Expanded {R : Type 0} (m : Costmap) (cur : AStarNode R) (closed : List Bool)
    (dirs : List (ℕ × ℕ)) (r : Option (List (AStarNode R))) : Type 0 where
  pub nodes : List (AStarNode R)
  pub ran : r ≡ some nodes
  pub few : length nodes ≤ length dirs
  pub below : All (Pushed m cur dirs) nodes
  pub covered :
      (dx dy : ℕ)
      → Among dx dy dirs
      → is_node_valid m (add32 (node_x cur) dx) (add32 (node_y cur) dy) ≡ true
      → (get_elem? closed (cell_index m (add32 (node_x cur) dx) (add32 (node_y cur) dy))
          ≡ some true)
        ⊎ Holds nodes (add32 (node_x cur) dx) (add32 (node_y cur) dy)

module _ {R : Type 0} (m : Costmap) (cur : AStarNode R) (dx dy : ℕ) (dirs : List (ℕ × ℕ)) where
  widen :
      (l : List (AStarNode R)) → All (Pushed m cur dirs) l → All (Pushed m cur ((dx, dy) ∷ dirs)) l
  widen [] h = tt
  widen (n ∷ l) h = (wider n h.0, widen l h.1)
    where
      wider : (n : AStarNode R) → Pushed m cur dirs n → Pushed m cur ((dx, dy) ∷ dirs) n
      wider n (pushed x y g h a b among ex ey v) = pushed x y g h a b (inr among) ex ey v

module _ (r : Real) (m : Costmap) (goal_x goal_y : ℕ) (small : IsSmall m) where
  open r use {R}

  module _ (cur : AStarNode R) (closed : List Bool)
      (num : length closed ≡ m.size_x * m.size_y) where
    abbrev next_x : ℕ → ℕ
    next_x dx = add32 (node_x cur) dx

    abbrev next_y : ℕ → ℕ
    next_y dy = add32 (node_y cur) dy

    module _ (dx dy : ℕ) (dirs : List (ℕ × ℕ))
        (e : Expanded m cur closed dirs (expand r m goal_x goal_y cur closed dirs)) where
      -- The result stays what it is where the direction pushes nothing.
      kept :
          expand r m goal_x goal_y cur closed ((dx, dy) ∷ dirs)
            ≡ expand r m goal_x goal_y cur closed dirs
          → (is_node_valid m (next_x dx) (next_y dy) ≡ true
              → get_elem? closed (cell_index m (next_x dx) (next_y dy)) ≡ some true)
          → Expanded m cur closed
              ((dx, dy) ∷ dirs)
              (expand r m goal_x goal_y cur closed ((dx, dy) ∷ dirs))
      kept same closed_there = record {
        nodes = e.nodes;
        ran = same ∙ e.ran;
        few = omega (arith, e.few);
        below = widen m cur dx dy dirs e.nodes e.below;
        covered = covered;
      }
        where
          covered :
              (ax ay : ℕ)
              → Among ax ay ((dx, dy) ∷ dirs)
              → is_node_valid m (next_x ax) (next_y ay) ≡ true
              → (get_elem? closed (cell_index m (next_x ax) (next_y ay)) ≡ some true)
                ⊎ Holds e.nodes (next_x ax) (next_y ay)
          covered ax ay (inl (ex, ey)) v = inl (rw (← ex, ← ey) (closed_there (rw (ex, ey) v)))
          covered ax ay (inr among) v = e.covered ax ay among v

      grown :
          is_node_valid m (next_x dx) (next_y dy) ≡ true
          → get_elem? closed (cell_index m (next_x dx) (next_y dy)) ≡ some false
          → Expanded m cur closed
              ((dx, dy) ∷ dirs)
              (expand r m goal_x goal_y cur closed ((dx, dy) ∷ dirs))
      unfolding expand new_node
      grown v free = record {
        nodes = new_node r m goal_x goal_y cur (next_x dx) (next_y dy) ∷ e.nodes;
        ran = rw (v, free, e.ran);
        few = omega (arith, e.few);
        below = (
          pushed (next_x dx) (next_y dy) _ _ dx dy (inl (refl, refl)) refl refl v,
          widen m cur dx dy dirs e.nodes e.below,
        );
        covered = covered;
      }
        where
          covered :
              (ax ay : ℕ)
              → Among ax ay ((dx, dy) ∷ dirs)
              → is_node_valid m (next_x ax) (next_y ay) ≡ true
              → (get_elem? closed (cell_index m (next_x ax) (next_y ay)) ≡ some true)
                ⊎ Holds
                    (new_node r m goal_x goal_y cur (next_x dx) (next_y dy) ∷ e.nodes)
                    (next_x ax)
                    (next_y ay)
          covered ax ay (inl (ex, ey)) w =
              inr (inl (ap (λ (t : ℕ). next_x t) ex, ap (λ (t : ℕ). next_y t) ey))
          covered ax ay (inr among) w = elim (e.covered ax ay among w) [
            | inl c ↦ inl c
            | inr c ↦ inr (inr c)
          ]

      one_more :
          Expanded m cur closed
            ((dx, dy) ∷ dirs)
            (expand r m goal_x goal_y cur closed ((dx, dy) ∷ dirs))
      unfolding expand
      one_more = elim (Bool-cases (is_node_valid m (next_x dx) (next_y dy))) [
        | inr invalid ↦ kept (rw invalid) (λ v. cc)
        | inl v ↦
            let inside =
              (cell_index_lem m (next_x dx) (next_y dy) small (is_node_valid-InMap m _ _ v)).1 in
            let (b, at) =
              get_elem?_inside closed (cell_index m (next_x dx) (next_y dy))
                (omega (arith, num, inside)) in
            by_mark v b at
      ]
        where
          by_mark :
              is_node_valid m (next_x dx) (next_y dy) ≡ true
              → (b : Bool) → get_elem? closed (cell_index m (next_x dx) (next_y dy)) ≡ some b
              → Expanded m cur closed
                  ((dx, dy) ∷ dirs)
                  (expand r m goal_x goal_y cur closed ((dx, dy) ∷ dirs))
          by_mark v true at = kept (rw (v, at)) (λ _. at)
          by_mark v false at = grown v at

    -- Within a small map no read leaves `closed_list`: the loop pushes at most one node for each
    -- direction, all at valid cells, and every valid neighbour is closed or pushed.
    pub expand_lem :
        (dirs : List (ℕ × ℕ))
        → Expanded m cur closed dirs (expand r m goal_x goal_y cur closed dirs)
    unfolding expand
    expand_lem [] = record {
      nodes = [];
      ran = refl;
      few = omega arith;
      below = tt;
      covered = λ dx dy h. absurd h;
    }
    expand_lem ((dx, dy) ∷ dirs) = one_more dx dy dirs (expand_lem dirs)
