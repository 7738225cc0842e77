-- ===== src/Preprocess/Judge/Bounds.antt =====
-- `plane_judge` reads nothing out of range where `group_size` points are there, and how far it gets.
use robot_nav.Prelude.{
  ℕ, zero, suc, ◌+◌, ◌-◌, ◌/◌, ◌≤◌, ◌<◌, ◌≡◌, refl, ◌⊎◌, Bool, true, false, ◌||◌, List, [], ◌∷◌,
  ◌++◌, inl, inr, arith, length, length-append, ltb, Bool-cases, if◌then◌else◌,
}
use robot_nav.Livox.Fault.{Returns, returns, Returns-map, Returns-bind}
use robot_nav.Preprocess.Arrays.{read_inside}
use robot_nav.Preprocess.{Vec, Reals, PointType, OrgType, Preprocess, whole}
use robot_nav.Preprocess.Judge.{
  Judged, Grouped, blind_at, collected, exchange, exchange_sort, group_from, extend_from, extend,
  is_uneven, judge, plane_judge, way_to, square_sum, width_from, zero_vec,
}

pub length-exchange :
    {D : Type 0} (lt : D → D → Bool) (a : D) (l : List D) → length (exchange lt a l).1 ≡ length l
unfolding exchange
length-exchange lt a [] = refl
length-exchange lt a (b ∷ l) = omega (arith, length-exchange lt (if lt a b then b else a) l)

pub length-exchange_sort :
    {D : Type 0} (lt : D → D → Bool) (n : ℕ) (l : List D) → length (exchange_sort lt n l) ≡ length l
unfolding exchange_sort
length-exchange_sort lt zero l = refl
length-exchange_sort lt (suc n) [] = refl
length-exchange_sort lt (suc n) (a ∷ l) =
    omega (arith, length-exchange_sort lt n (exchange lt a l).1, length-exchange lt a l)

-- Where a loop ends that began at `lo`: at a point of the blind zone before `hi`, or between `least`
-- and `hi`, with at least `len` distances.
abbrev pub EndsIn : {D : Type 0} → ℕ → ℕ → ℕ → ℕ → Grouped D → Type 0
EndsIn lo least hi len (blind_at k v) = (lo ≤ k) × (k < hi)
EndsIn lo least hi len (collected k v d l) = (least ≤ k) × (k ≤ hi) × (len ≤ length l)

-- The next point after a judgement at i: within the line or at its end, and past the group, but where a
-- point of the blind zone came before.
abbrev pub IsAhead : {D : Type 0} → ℕ → ℕ → ℕ → Judged D → Type 0
IsAhead i group size j =
    (i ≤ j.i_nex) × (j.i_nex ≤ size) × ((j.plane_type ≡ 2) ⊎ (i + group ≤ j.i_nex))

module _ (re : Reals) (s : Preprocess re.F re.D) (pl : List (PointType re.F)) where
  open re use {F, D, add, mul, div, decimal, normalize, lt, le}

  EndsIn-earlier :
      (lo least hi len : ℕ) (g : Grouped D)
      → EndsIn (lo + 1) least hi len g
      → EndsIn lo least hi len g
  EndsIn-earlier lo least hi len (blind_at k v) h = omega arith
  EndsIn-earlier lo least hi len (collected k v d l) h = omega arith

  group_from-EndsIn :
      (types : List (OrgType D)) (n i hi len : ℕ) (disarr : List D)
      → i + n ≡ hi
      → hi ≤ length types
      → length disarr + n ≡ len
      → Returns (EndsIn i hi hi len) (group_from re s types n i disarr)
  unfolding group_from
  group_from-EndsIn types zero i hi len disarr e h k = returns (omega arith)
  group_from-EndsIn types (suc n) i hi len disarr e h k =
      let (t, found) = read_inside types i (omega arith) in
      let longer = length-append disarr (t.dista ∷ []) in
      let rest =
        group_from-EndsIn types n (i + 1) hi len (disarr ++ (t.dista ∷ [])) (omega arith) h
          (omega arith) in
      rw found (elim (Bool-cases (lt t.range s.blind)) [
        | inl b ↦ rw b (returns (omega arith))
        | inr b ↦ rw b (Returns-map (λ g. EndsIn-earlier i hi hi len g) rest)
      ])

  extend_from_later :
      (types : List (OrgType D)) (cur : PointType F) (group_dis : D) (n i lo least size len : ℕ)
      (v : Vec D) (two_dis : D) (disarr : List D)
      → i + n ≡ size
      → lo ≤ i
      → least ≤ i
      → len ≤ length disarr
      → length pl ≡ size
      → length types ≡ size
      → Returns
          (EndsIn lo least size len)
          (extend_from re s pl types cur group_dis n i v two_dis disarr)
  unfolding extend_from
  extend_from_later types cur group_dis zero i lo least size len v two_dis disarr e a b c hp ht =
      returns (omega arith)
  extend_from_later types cur group_dis (suc n) i lo least size len v two_dis disarr e a b c hp ht =
      let (t, found) = read_inside types i (omega arith) in
      let (q, there) = read_inside pl i (omega arith) in
      let disarr' = disarr ++ (t.dista ∷ []) in
      let longer = length-append disarr (t.dista ∷ []) in
      let rest =
        extend_from_later types cur group_dis n (i + 1) lo least size len (way_to re cur q)
          (square_sum re (way_to re cur q)) disarr' (omega arith) (omega arith) (omega arith)
          (omega arith) hp ht in
      rw found (elim (Bool-cases (lt t.range s.blind)) [
        | inl z ↦ rw z (returns (omega arith))
        | inr z ↦
            rw (z, there)
              (elim (Bool-cases (le group_dis (square_sum re (way_to re cur q)))) [
                | inl y ↦ rw y (returns (omega arith))
                | inr y ↦ rw y rest
              ])
      ])

  not_short : (n : ℕ) → 2 ≤ n → ltb n 2 ≡ false
  not_short n h = ground arith

  is_uneven-Returns :
      (disarr : List D) → 2 ≤ length disarr → Returns (λ b. Unit {0}) (is_uneven re s disarr)
  unfolding is_uneven
  is_uneven-Returns disarr h =
      let (a, ea) = read_inside disarr 0 (omega arith) in
      let (b, eb) = read_inside disarr (length disarr / 2) (omega arith) in
      let (c, ec) = read_inside disarr (length disarr - 2) (omega arith) in
      rw (ea, eb, ec) (returns tt)

  extend-EndsIn :
      (types : List (OrgType D)) (cur : PointType F) (group_dis : D) (i : ℕ) (g : Grouped D)
      → i + s.group_size ≤ length pl
      → length types ≡ length pl
      → EndsIn i (i + s.group_size) (i + s.group_size) s.group_size g
      → Returns
          (EndsIn i (i + s.group_size) (length pl) s.group_size)
          (extend re s pl types cur group_dis g)
  unfolding extend
  extend-EndsIn types cur group_dis i (blind_at k v) inside same h = returns (omega arith)
  extend-EndsIn types cur group_dis i (collected k v d l) inside same h =
      extend_from_later types cur group_dis (length pl - k) k i (i + s.group_size) (length pl)
        s.group_size v d l (omega arith) (omega arith) (omega arith) (omega arith) refl same

  -- Both outcomes that the distances leave.
  judged :
      (b : Bool) (i group size k : ℕ) (v : Vec D)
      → (i + group ≤ k) × (k ≤ size)
      → IsAhead i group size (
          if b
          then record { plane_type = 0; i_nex = k; curr_direct = zero_vec re; way = v }
          else record { plane_type = 1; i_nex = k; curr_direct = normalize v; way = v })
  judged true i group size k v h = (omega arith, h.1, inr h.0)
  judged false i group size k v h = (omega arith, h.1, inr h.0)

  judge-IsAhead :
      (cur : PointType F) (i group size : ℕ) (g : Grouped D)
      → 2 ≤ group
      → EndsIn i (i + group) size group g
      → i + group ≤ size
      → Returns (IsAhead i group size) (judge re s pl cur i g)
  unfolding judge
  judge-IsAhead cur i group size (blind_at k v) two h fits = returns (h.0, omega arith, inl refl)
  judge-IsAhead cur i group size (collected k v d l) two h fits =
      let leng_wid = width_from re pl cur v (k - (i + 1)) (i + 1) (whole re 0) in
      let sorted = exchange_sort lt (length l) l in
      let same = length-exchange_sort lt (length l) l in
      let (last, found) = read_inside sorted (length l - 2) (omega arith) in
      elim (Bool-cases (lt (div (mul d d) leng_wid) s.p2l_ratio)) [
        | inl z ↦ rw z (returns (omega arith, h.1, inr h.0))
        | inr z ↦
            rw (z, not_short (length l) (omega arith), found)
              (Returns-bind (is_uneven-Returns sorted (omega arith)) λ uneven u.
                returns (judged (lt last (decimal 1 16) || uneven) i group size k v (omega arith)))
      ]

  -- From a point with a whole group of at least two points in the line, of which each has a range and a
  -- distance, plane_judge reads nothing out of range. The next point lies within the line or at its end,
  -- not before the point, and past the group, unless a point of the blind zone came before.
  pub plane_judge-IsAhead :
      (types : List (OrgType D)) (i : ℕ)
      → 2 ≤ s.group_size
      → i + s.group_size ≤ length pl
      → length types ≡ length pl
      → Returns (IsAhead i s.group_size (length pl)) (plane_judge re s pl types i)
  unfolding plane_judge
  plane_judge-IsAhead types i two inside same =
      let (t, here) = read_inside types i (omega arith) in
      let (cur, there) = read_inside pl i (omega arith) in
      let group = s.group_size in
      let size = length pl in
      let reach = add (mul s.dis_a t.range) s.dis_b in
      let dis = mul reach reach in
      rw (here, there)
        (Returns-bind
          (group_from-EndsIn types group i (i + group) group [] refl (omega arith) (omega arith))
          λ g in_group.
            Returns-bind (extend-EndsIn types cur dis i g inside same in_group)
              λ found h. judge-IsAhead cur i group size found two h inside)
