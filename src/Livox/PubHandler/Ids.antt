-- ===== src/Livox/PubHandler/Ids.antt =====
-- The maps from ids: what is found after a write, and that they stay sorted.
use mathlib.Core.Path.{subst}
use mathlib.Core.Option.{some-injective}
use robot_nav.Prelude.{
  ℕ, suc, ◌≤◌, ◌<◌, ◌≡◌, ◌≢◌, refl, ap, none, some, List, [], ◌∷◌, arith, length, ◌==◌, ltb, All,
  true, false, Bool-cases, inl, inr,
}
use robot_nav.Livox.PubHandler.{find_id, put_id}

module _ {A : Type 0} where
  pub find_id-put_id : (l : List (ℕ × A)) (id : ℕ) (a : A) → find_id (put_id l id a) id ≡ some a
  unfolding find_id put_id
  find_id-put_id [] id a = ground arith
  find_id-put_id ((k, b) ∷ l) id a = ground (arith, find_id-put_id l id a)

  pub find_id-put_id_ne :
      (l : List (ℕ × A)) (id j : ℕ) (a : A) → j ≢ id → find_id (put_id l id a) j ≡ find_id l j
  unfolding find_id put_id
  find_id-put_id_ne [] id j a h = ground (arith, h)
  find_id-put_id_ne ((k, b) ∷ l) id j a h = ground (arith, h, find_id-put_id_ne l id j a h)

  -- The ids are in increasing order.
  abbrev pub IsSorted : List (ℕ × A) → Type 0
  IsSorted [] = Unit
  IsSorted ((k, a) ∷ l) = All (λ (e : ℕ × A). k < e.0) l × IsSorted l

  pub All-put_id :
      (Q : ℕ × A → Type 0) (l : List (ℕ × A)) (id : ℕ) (a : A)
      → Q (id, a)
      → All Q l
      → All Q (put_id l id a)
  unfolding put_id
  All-put_id Q [] id a q all = (q, tt)
  All-put_id Q ((k, b) ∷ l) id a q (here, rest) = elim (Bool-cases (k == id)) [
    | inl e ↦ rw (e, put_id) (q, rest)
    | inr e ↦ elim (Bool-cases (ltb id k)) [
      | inl lt ↦ rw (e, lt, put_id) (q, (here, rest))
      | inr ge ↦ rw (e, ge, put_id) (here, All-put_id Q l id a q rest)
    ]
  ]

  All-raise :
      {i k : ℕ}
      → i < k
      → (l : List (ℕ × A)) → All (λ (e : ℕ × A). k < e.0) l
      → All (λ (e : ℕ × A). i < e.0) l
  All-raise h [] all = tt
  All-raise h (e ∷ l) (here, all) = (omega arith, All-raise h l all)

  pub put_id-IsSorted : (l : List (ℕ × A)) (id : ℕ) (a : A) → IsSorted l → IsSorted (put_id l id a)
  unfolding put_id
  put_id-IsSorted [] id a s = (tt, tt)
  put_id-IsSorted ((k, b) ∷ l) id a (above, s) = elim (Bool-cases (k == id)) [
    | inl e ↦ let same : k ≡ id = ground (arith, e) in rw (e, put_id, ← same) (above, s)
    | inr e ↦ elim (Bool-cases (ltb id k)) [
      | inl lt ↦
          let below : id < k = ground (arith, lt) in
          rw (e, lt, put_id) ((below, All-raise below l above), (above, s))
      | inr ge ↦
          let beyond : k < id = ground (arith, e, ge) in
          rw (e, ge, put_id)
            (All-put_id (λ (e : ℕ × A). k < e.0) l id a beyond above, put_id-IsSorted l id a s)
    ]
  ]

  pub find_id-All :
      (Q : A → Type 0) (l : List (ℕ × A)) (id : ℕ) {a : A}
      → All (λ (e : ℕ × A). Q (e.1)) l
      → find_id l id ≡ some a
      → Q a
  unfolding find_id
  find_id-All Q [] id all e = cc
  find_id-All Q ((k, b) ∷ l) id {a} (here, all) e = elim (Bool-cases (k == id)) [
    | inl same ↦ let found = rw (same, find_id) at e in subst Q (some-injective b a found) here
    | inr other ↦ let found = rw (other, find_id) at e in find_id-All Q l id all found
  ]

  -- Nothing is found under an id that is below all.
  pub find_id_below :
      (l : List (ℕ × A)) (id : ℕ) → All (λ (e : ℕ × A). id < e.0) l → find_id l id ≡ none
  unfolding find_id
  find_id_below [] id all = refl
  find_id_below ((k, b) ∷ l) id (here, all) = ground (arith, here, find_id_below l id all)

  pub length-put_id_known :
      (l : List (ℕ × A)) (id : ℕ) (a : A) {b : A}
      → IsSorted l
      → find_id l id ≡ some b
      → length (put_id l id a) ≡ length l
  unfolding put_id find_id
  length-put_id_known [] id a s e = cc
  length-put_id_known ((k, b) ∷ l) id a (above, s) e = elim (Bool-cases (k == id)) [
    | inl same ↦ rw (same, put_id) refl
    | inr other ↦ elim (Bool-cases (ltb id k)) [
      | inl lt ↦
          let below : id < k = ground (arith, lt) in
          let found = rw (other, find_id, find_id_below l id (All-raise below l above)) at e in
          let clash = found in cc
      | inr ge ↦
          let found = rw (other, find_id) at e in
          rw (other, ge, put_id) (ap suc (length-put_id_known l id a s found))
    ]
  ]

  pub length-put_id : (l : List (ℕ × A)) (id : ℕ) (a : A) → length (put_id l id a) ≤ suc (length l)
  unfolding put_id
  length-put_id [] id a = omega arith
  length-put_id ((k, b) ∷ l) id a = ground (arith, length-put_id l id a)

  -- In a sorted list every entry is found.
  pub find_id-IsSorted :
      (l : List (ℕ × A)) → IsSorted l → All (λ (e : ℕ × A). find_id l (e.0) ≡ some (e.1)) l
  unfolding find_id
  find_id-IsSorted [] s = tt
  find_id-IsSorted ((k, a) ∷ l) (above, s) =
      let here : (k == k) ≡ true = ground arith in
      (rw (here, find_id) refl, past l above (find_id-IsSorted l s))
    where
      past :
          (m : List (ℕ × A))
          → All (λ (e : ℕ × A). k < e.0) m
          → All (λ (e : ℕ × A). find_id l (e.0) ≡ some (e.1)) m
          → All (λ (e : ℕ × A). find_id ((k, a) ∷ l) (e.0) ≡ some (e.1)) m
      past [] up all = tt
      past (e ∷ m) (up, ups) (found, all) =
          let apart : (k == e.0) ≡ false = ground (arith, up) in
          (rw (apart, find_id) found, past m ups all)
