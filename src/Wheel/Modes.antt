-- ===== src/Wheel/Modes.antt =====
-- The table of waypoints: which modes it knows.
use robot_nav.Prelude.{
  ℕ, zero, suc, ◌<◌, ◌≡◌, refl, sym, ap, ◌∙◌, inl, inr, some, List, [], ◌∷◌, arith, drop, All,
  Bool-cases,
}
use mathlib.Core.Path.{subst}
use mathlib.Core.Option.{some-injective}
use native.Mathlib.Decide.{ℕ_discrete}
use robot_nav.Livox.Keys.{Key, to_string, to_string_injective, digits_from, key_eq, key_eq_iff}
use robot_nav.Wheel.{Waypoint, mode_name, target_locations, find, find_target}

-- A row stands under the name of its own mode, and its mode is below 10.
abbrev IsRow : Key × Waypoint → Type 0
IsRow (k, w) = (k ≡ mode_name (to_string w.mode)) × (w.mode < 10)

target_locations-IsRow : All IsRow target_locations
unfolding target_locations mode_name to_string digits_from
target_locations-IsRow = (
  (refl, omega arith),
  (
    (refl, omega arith),
    (
      (refl, omega arith),
      (
        (refl, omega arith),
        (
          (refl, omega arith),
          (
            (refl, omega arith),
            (
              (refl, omega arith),
              ((refl, omega arith), ((refl, omega arith), ((refl, omega arith), tt))),
            ),
          ),
        ),
      ),
    ),
  ),
)

find-IsRow :
    (k : Key) (l : List (Key × Waypoint)) {w : Waypoint}
    → All IsRow l
    → find k l ≡ some w
    → IsRow (k, w)
unfolding find
find-IsRow k [] all e = cc
find-IsRow k ((j, v) ∷ l) {w} (row, all) e = elim (Bool-cases (key_eq j k)) [
  | inl same ↦
      let (name, small) = row in
      let here : v ≡ w = some-injective v w (rw same at e) in
      subst (λ (u : Waypoint). IsRow (k, u)) here (sym ((key_eq_iff j k).0 same) ∙ name, small)
  | inr other ↦ find-IsRow k l all (rw other at e)
]

mode_name_injective : (a b : ℕ) → mode_name (to_string a) ≡ mode_name (to_string b) → a ≡ b
unfolding mode_name
mode_name_injective a b h = to_string_injective a b (ap (drop 6) h)

-- A row that is found has the mode asked for, which is below 10.
pub find_target-mode :
    (mode : ℕ) {w : Waypoint} → find_target mode ≡ some w → (w.mode ≡ mode) × (mode < 10)
unfolding find_target
find_target-mode mode {w} e =
    let (name, small) =
      find-IsRow (mode_name (to_string mode)) target_locations target_locations-IsRow e in
    let same = mode_name_injective mode w.mode name in (sym same, omega arith)

-- A family over the numbers below `n`, the last first.
abbrev Upto : (ℕ → Type 0) → ℕ → Type 0
Upto Q zero = Unit
Upto Q (suc n) = Q n × Upto Q n

member : (Q : ℕ → Type 0) (n m : ℕ) → Upto Q n → m < n → Q m
member Q zero m all h = absurd (omega arith)
member Q (suc n) m (q, all) h = elim (ℕ_discrete n m) [
  | yes e ↦ subst Q e q
  | no ne ↦ member Q n m all (omega arith)
]

abbrev IsKnown : ℕ → Type 0
IsKnown mode = (w : Waypoint) × (find_target mode ≡ some w)

all-IsKnown : Upto IsKnown 10
unfolding find_target find target_locations mode_name to_string digits_from key_eq
all-IsKnown = (
  (_, refl),
  (
    (_, refl),
    (
      (_, refl),
      ((_, refl), ((_, refl), ((_, refl), ((_, refl), ((_, refl), ((_, refl), ((_, refl), tt))))))),
    ),
  ),
)

pub find_target-IsKnown : (mode : ℕ) → mode < 10 → IsKnown mode
find_target-IsKnown mode = member IsKnown 10 mode all-IsKnown
