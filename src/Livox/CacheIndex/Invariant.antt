-- ===== src/Livox/CacheIndex/Invariant.antt =====
-- The device table: every handle known has a slot of its own, and just the slots given out are taken.
use robot_nav.Prelude.{
  ℕ, zero, suc, ◌<◌, ◌≡◌, inl, inr, refl, ◌∙◌, Bool, true, false, none, some, List, [], ◌∷◌, arith,
  length, get_or, length-set, set, ◌==◌, Bool-cases, replicate,
}
use robot_nav.Livox.Keys.{Key, key_eq_iff}
use robot_nav.Livox.CacheIndex.{CacheIndex, new, lookup, insert, erase, max_source_lidar}
use robot_nav.Livox.CacheIndex.Lookup.{lookup-insert, lookup-erase, get_or-set}

abbrev pub IsTaken : CacheIndex → ℕ → Type 0
IsTaken s i = get_or s.index_cache i false ≡ true

pub record IsValid (s : CacheIndex) : Type 0 where
  pub slots_num : length s.index_cache ≡ max_source_lidar
  pub taken : (k : Key) (i : ℕ) → lookup k s.map_index ≡ some i → IsTaken s i
  pub owned : (i : ℕ) → IsTaken s i → (k : Key) × (lookup k s.map_index ≡ some i)
  pub distinct :
      (j k : Key) (i : ℕ) → lookup j s.map_index ≡ some i → lookup k s.map_index ≡ some i → j ≡ k

taken_bound : (l : List Bool) (i : ℕ) → get_or l i false ≡ true → i < length l
taken_bound [] i h = cc
taken_bound (b ∷ l) zero h = omega arith
taken_bound (b ∷ l) (suc i) h = omega (arith, taken_bound l i h)

not_taken_new : (n i : ℕ) → get_or (replicate n false) i false ≡ false
not_taken_new zero i = refl
not_taken_new (suc n) zero = refl
not_taken_new (suc n) (suc i) = not_taken_new n i

-- The table that the constructor makes is valid.
pub new-IsValid : IsValid new
unfolding new lookup
new-IsValid = record {
  slots_num = refl;
  taken = λ k i h. cc;
  owned = λ i h. cc (not_taken_new 32 i);
  distinct = λ j k i h h'. cc;
}

-- Giving a free slot to a key that has none.
abbrev pub claimed : CacheIndex → Key → ℕ → CacheIndex
claimed s key i = record {
  map_index = insert key i s.map_index;
  index_cache = set s.index_cache i true;
}

module _ {s : CacheIndex} (v : IsValid s) (key : Key) (i : ℕ)
    (unknown : lookup key s.map_index ≡ none) (inside : i < length s.index_cache)
    (free : get_or s.index_cache i false ≡ false) where
  claimed-IsTaken :
      (k : Key) (j : ℕ) → lookup k (insert key i s.map_index) ≡ some j → IsTaken (claimed s key i) j
  claimed-IsTaken k j h =
      ground
        (arith, get_or-set s.index_cache i j true, lookup-insert k key i s.map_index, v.taken k j)

  claimed_owned :
      (j : ℕ)
      → IsTaken (claimed s key i) j
      → (k : Key) × (lookup k (insert key i s.map_index) ≡ some j)
  claimed_owned j h = elim (Bool-cases (i == j)) [
    | inl e ↦ (key, ground (arith, key_eq_iff key key, lookup-insert key key i s.map_index))
    | inr e ↦
        let old : IsTaken s j = ground (arith, get_or-set s.index_cache i j true) in
        let (k, found) = v.owned j old in
        (k, ground (arith, key_eq_iff key k, lookup-insert k key i s.map_index))
  ]

  claimed_distinct :
      (j k : Key) (n : ℕ)
      → lookup j (insert key i s.map_index) ≡ some n
      → lookup k (insert key i s.map_index) ≡ some n
      → j ≡ k
  claimed_distinct j k n h h' = ground (
    arith,
    lookup-insert j key i s.map_index,
    lookup-insert k key i s.map_index,
    key_eq_iff key j,
    key_eq_iff key k,
    v.taken j n,
    v.taken k n,
    v.distinct j k n,
  )

  pub claimed-IsValid : IsValid (claimed s key i)
  claimed-IsValid = record {
    slots_num = length-set s.index_cache i true ∙ v.slots_num;
    taken = claimed-IsTaken;
    owned = claimed_owned;
    distinct = claimed_distinct;
  }

-- Taking the slot of a key back.
abbrev pub returned : CacheIndex → Key → ℕ → CacheIndex
returned s key i = record {
  map_index = erase key s.map_index;
  index_cache = set s.index_cache i false;
}

module _ {s : CacheIndex} (v : IsValid s) (key : Key) (i : ℕ)
    (known : lookup key s.map_index ≡ some i) where
  inside : i < length s.index_cache
  inside = taken_bound s.index_cache i (v.taken key i known)

  returned_owned :
      (j : ℕ)
      → IsTaken (returned s key i) j
      → (k : Key) × (lookup k (erase key s.map_index) ≡ some j)
  returned_owned j h =
      let old : IsTaken s j = ground (arith, get_or-set s.index_cache i j false inside) in
      let (k, found) = v.owned j old in
      (
        k,
        ground (
          arith,
          get_or-set s.index_cache i j false inside,
          key_eq_iff key k,
          lookup-erase k key s.map_index,
        ),
      )

  pub returned-IsValid : IsValid (returned s key i)
  returned-IsValid = record {
    slots_num = length-set s.index_cache i false ∙ v.slots_num;
    taken = λ k j h. ground (
      arith,
      get_or-set s.index_cache i j false inside,
      lookup-erase k key s.map_index,
      key_eq_iff key k,
      v.taken k j,
      v.distinct key k i,
    );
    owned = returned_owned;
    distinct = λ j k n h h'.
        ground
          (arith, lookup-erase j key s.map_index, lookup-erase k key s.map_index, v.distinct j k n);
  }
