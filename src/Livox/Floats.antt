-- ===== src/Livox/Floats.antt =====
-- `float` and `double` as the driver uses them. No law of their arithmetic is assumed.
use robot_nav.Prelude.{ℕ}
use robot_nav.Prelude.Int.{ℤ, pos}

pub record Floats : Type 1 where
  pub F : Type 0
  pub D : Type 0
  pub float_of : ℤ → F
  pub double_of : ℤ → D
  pub widen : F → D
  pub narrow : D → F
  pub add_float : F → F → F
  pub mul_float : F → F → F
  pub add : D → D → D
  pub sub : D → D → D
  pub mul : D → D → D
  pub div : D → D → D
  pub neg : D → D
  pub sin : D → D
  pub cos : D → D
  pub pi : D

module _ (fl : Floats) where
  -- A literal of type `double` that is a whole number.
  abbrev pub lit : ℕ → fl.D
  lit n = fl.double_of (pos n)
