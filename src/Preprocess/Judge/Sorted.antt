-- ===== src/Preprocess/Judge/Sorted.antt =====
-- The two loops of `plane_judge` that put the distances in order.
use mathlib.Core.List.{Mem, Perm, Pairwise, forall_mem-cons, not-mem-nil}
use mathlib.Core.List.Perm
use robot_nav.Prelude.{
  ℕ, zero, suc, ◌≤◌, ◌≡◌, Bool, true, false, List, [], ◌∷◌, inl, inr, arith, length, Bool-cases,
  if◌then◌else◌,
}
use robot_nav.Preprocess.Judge.{exchange, exchange_sort}
use robot_nav.Preprocess.Judge.Bounds.{length-exchange}

-- A comparison as it is among numbers: with no NaN.
pub record IsTotal {D : Type 0} (lt : D → D → Bool) : Type 0 where
  pub asymm : (a b : D) → lt a b ≡ true → lt b a ≡ false
  pub trans : (a b c : D) → lt a b ≡ false → lt b c ≡ false → lt a c ≡ false

module _ {D : Type 0} (lt : D → D → Bool) where
  -- No element is less than a later one.
  abbrev pub IsDescending : List D → Type 0
  IsDescending = Pairwise (λ (a b : D). lt a b ≡ false)

  -- Nothing in the list is greater.
  abbrev IsTop : D → List D → Type 0
  IsTop a l = (x : D) → Mem x l → lt a x ≡ false

  false_prop : (b : Bool) → IsProp (b ≡ false)
  false_prop b = hlevel

  IsTop-cons : (a b : D) (l : List D) → lt a b ≡ false → IsTop a l → IsTop a (b ∷ l)
  IsTop-cons a b l h k = (forall_mem-cons (λ x. false_prop (lt a x))).1 (h, k)

  module _ (total : IsTotal lt) where
    irrefl : (a : D) → lt a a ≡ false
    irrefl a = elim (Bool-cases (lt a a)) [ inl e ↦ total.asymm a a e | inr e ↦ e ]

    -- The greater one of two is less than neither.
    greater :
        (a b : D)
        → (lt (if lt a b then b else a) a ≡ false)
          × (lt (if lt a b then b else a) (if lt a b then a else b) ≡ false)
    greater a b = elim (Bool-cases (lt a b)) [
      | inl e ↦ rw e (total.asymm a b e, total.asymm a b e)
      | inr e ↦ rw e (irrefl a, e)
    ]

    exchange-le : (a : D) (l : List D) → lt (exchange lt a l).0 a ≡ false
    unfolding exchange
    exchange-le a [] = irrefl a
    exchange-le a (b ∷ l) =
        total.trans _ _ _ (exchange-le (if lt a b then b else a) l) (greater a b).0

    exchange-IsTop : (a : D) (l : List D) → IsTop (exchange lt a l).0 (exchange lt a l).1
    unfolding exchange
    exchange-IsTop a [] x m = absurd (not-mem-nil m)
    exchange-IsTop a (b ∷ l) x m =
        IsTop-cons _ _ _
          (total.trans _ _ _ (exchange-le (if lt a b then b else a) l) (greater a b).1)
          (exchange-IsTop (if lt a b then b else a) l) x m

  both :
      (a b : D) (l : List D)
      → Perm ((if lt a b then a else b) ∷ (if lt a b then b else a) ∷ l) (a ∷ b ∷ l)
  both a b l = elim (Bool-cases (lt a b)) [
    | inl e ↦ rw e (Perm.refl (a ∷ b ∷ l))
    | inr e ↦ rw e (Perm.swap a b l)
  ]

  exchange-perm : (a : D) (l : List D) → Perm ((exchange lt a l).0 ∷ (exchange lt a l).1) (a ∷ l)
  unfolding exchange
  exchange-perm a [] = Perm.refl (a ∷ [])
  exchange-perm a (b ∷ l) =
      Perm.trans (Perm.swap _ _ _)
        (Perm.trans (Perm.cons _ (exchange-perm (if lt a b then b else a) l)) (both a b l))

  exchange_sort-perm : (n : ℕ) (l : List D) → Perm (exchange_sort lt n l) l
  unfolding exchange_sort
  exchange_sort-perm zero l = Perm.refl l
  exchange_sort-perm (suc n) [] = Perm.refl []
  exchange_sort-perm (suc n) (a ∷ l) =
      Perm.trans (Perm.cons _ (exchange_sort-perm n (exchange lt a l).1)) (exchange-perm a l)

  module _ (total : IsTotal lt) where
    exchange_sort-IsDescending :
        (n : ℕ) (l : List D) → length l ≤ n → IsDescending (exchange_sort lt n l)
    unfolding exchange_sort
    exchange_sort-IsDescending zero [] h = Pairwise.nil
    exchange_sort-IsDescending zero (a ∷ l) h = absurd (omega arith)
    exchange_sort-IsDescending (suc n) [] h = Pairwise.nil
    exchange_sort-IsDescending (suc n) (a ∷ l) h =
        let rest = (exchange lt a l).1 in
        Pairwise.cons
          (λ x m. exchange-IsTop total a l x ((Perm.mem_iff (exchange_sort-perm n rest)).0 m))
          (exchange_sort-IsDescending n rest (omega (arith, length-exchange lt a l)))

    -- Where the comparison of distances is total, the loops of plane_judge leave the distances that they were given, each
    -- as often, in descending order.
    pub exchange_sort_lem :
        (l : List D)
        → IsDescending (exchange_sort lt (length l) l) × Perm (exchange_sort lt (length l) l) l
    exchange_sort_lem l =
        (exchange_sort-IsDescending (length l) l (omega arith), exchange_sort-perm (length l) l)
