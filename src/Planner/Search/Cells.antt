-- ===== src/Planner/Search/Cells.antt =====
-- The cells of the map and their indices in `closed_list`.
use native.Mathlib.Nat.{mul-add-mod_self_right, mod-eq_of_lt}
use robot_nav.Prelude.{
  ℕ, ◌+◌, ◌*◌, ◌%◌, ◌^◌, ◌<◌, ◌≡◌, ◌⊎◌, ap, sym, ◌∙◌, true, List, [], ◌∷◌, arith,
}
use robot_nav.Prelude.Bits.{add32}
use robot_nav.Planner.Interface.{Costmap}
use robot_nav.Planner.Search.{is_node_valid, cell_index, hex_neighbors}

module _ (m : Costmap) where
  abbrev pub InMap : ℕ → ℕ → Type 0
  InMap x y = (x < m.size_x) × (y < m.size_y)

  pub is_node_valid-InMap : (x y : ℕ) → is_node_valid m x y ≡ true → InMap x y
  unfolding is_node_valid
  is_node_valid-InMap x y h = ground arith

  -- A map whose cells an `int` can number.
  abbrev pub IsSmall : Type 0
  IsSmall = m.size_x * m.size_y < 2 ^ 31

  index_bound : (x y : ℕ) → InMap x y → y * m.size_x + x < m.size_x * m.size_y
  index_bound x y h = grind arith

  pub cell_index_lem :
      (x y : ℕ)
      → IsSmall
      → InMap x y
      → (cell_index m x y ≡ y * m.size_x + x) × (cell_index m x y < m.size_x * m.size_y)
  unfolding cell_index
  cell_index_lem x y s h =
      let b = index_bound x y h in
      let e : (y * m.size_x + x) % 2 ^ 32 ≡ y * m.size_x + x = omega (arith, b) in
      (ground (arith, e, b), ground (arith, e, b))

  column : (x y : ℕ) → x < m.size_x → (y * m.size_x + x) % m.size_x ≡ x
  column x y h = mul-add-mod_self_right y m.size_x x ∙ mod-eq_of_lt h

  pub cell_index_injective :
      (x y x' y' : ℕ)
      → IsSmall
      → InMap x y
      → InMap x' y'
      → cell_index m x y ≡ cell_index m x' y'
      → (x ≡ x') × (y ≡ y')
  cell_index_injective x y x' y' s h h' e =
      let same : y * m.size_x + x ≡ y' * m.size_x + x' =
        sym (cell_index_lem x y s h).0 ∙ e ∙ (cell_index_lem x' y' s h').0 in
      let col : x ≡ x' =
        sym (column x y h.0) ∙ ap (λ (t : ℕ). t % m.size_x) same ∙ column x' y' h'.0 in
      (col, grind arith)

-- The steps that the search takes: to the cells round a cell that may be entered.
abbrev pub Among : ℕ → ℕ → List (ℕ × ℕ) → Type 0
Among a b [] = ⊥
Among a b ((c, d) ∷ l) = ((c ≡ a) × (d ≡ b)) ⊎ Among a b l

pub data Step (m : Costmap) (x y : ℕ) : ℕ → ℕ → Type 0 where
  step :
      {x' y' : ℕ} (dx dy : ℕ)
      → Among dx dy (hex_neighbors y)
      → x' ≡ add32 x dx
      → y' ≡ add32 y dy
      → is_node_valid m x' y' ≡ true
      → Step m x y x' y'

-- The cells that can be reached from a start.
pub data Reach (m : Costmap) (x0 y0 : ℕ) : ℕ → ℕ → Type 0 where
  start : Reach m x0 y0 x0 y0
  next : {x y x' y' : ℕ} → Reach m x0 y0 x y → Step m x y x' y' → Reach m x0 y0 x' y'
