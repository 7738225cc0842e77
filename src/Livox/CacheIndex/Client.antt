-- ===== src/Livox/CacheIndex/Client.antt =====
-- What the driver may rely on: the calls of `CacheIndex`, on every branch.
use robot_nav.Prelude.{
  ℕ, zero, suc, ◌<◌, ◌≡◌, ◌≢◌, ◌==◌, ◌↔◌, ◌⊎◌, inl, inr, refl, sym, ◌∙◌, Bool, true, false, Option,
  none, some, List, [], ◌∷◌, arith, length, get_or, Bool-cases, Option-cases,
}
use robot_nav.Livox.Keys.{key_eq, key_eq_iff, handle_key, handle_key_injective}
use robot_nav.Livox.CacheIndex.{
  CacheIndex, lookup, first_free, get_free_index, get_index, lvx_get_index, reset_index,
  livox_lidar_type, max_source_lidar,
}
use robot_nav.Livox.CacheIndex.Lookup.{
  lookup-insert, lookup-erase, first_free_found, first_free-none, get_or-set,
}
use robot_nav.Livox.CacheIndex.Invariant.{
  IsTaken, IsValid, claimed, claimed-IsValid, returned-IsValid,
}

get_or_default : (l : List Bool) (i : ℕ) → i < length l → get_or l i true ≡ get_or l i false
get_or_default [] i h = absurd (omega arith)
get_or_default (b ∷ l) zero h = refl
get_or_default (b ∷ l) (suc i) h = get_or_default l i (omega arith)

-- The three ways in which a call for a free slot can go.
pub data Grant (s : CacheIndex) (handle : ℕ) : Type 0 where
  known :
      (i : ℕ)
      → lookup (handle_key handle) s.map_index ≡ some i
      → get_free_index s livox_lidar_type handle ≡ (some i, s)
      → Grant s handle
  granted :
      (i : ℕ)
      → lookup (handle_key handle) s.map_index ≡ none
      → i < length s.index_cache
      → get_or s.index_cache i false ≡ false
      → ((j : ℕ) → j < i → IsTaken s j)
      → get_free_index s livox_lidar_type handle ≡ (some i, claimed s (handle_key handle) i)
      → Grant s handle
  full :
      lookup (handle_key handle) s.map_index ≡ none
      → ((j : ℕ) → j < length s.index_cache → IsTaken s j)
      → get_free_index s livox_lidar_type handle ≡ (none, s)
      → Grant s handle

grant_unknown :
    (s : CacheIndex) (handle : ℕ)
    → length s.index_cache ≡ 32
    → lookup (handle_key handle) s.map_index ≡ none
    → (r : Option ℕ) → first_free s.index_cache 0 ≡ r
    → Grant s handle
unfolding get_free_index
grant_unknown s handle n u none e = full u (first_free-none s.index_cache 0 e) (ground arith)
grant_unknown s handle n u (some i) e =
    let (d, i_eq, inside, free, before) = first_free_found s.index_cache 0 e in
    let same : i ≡ d = omega arith in
    granted i u (omega arith) (rw same (sym (get_or_default s.index_cache d inside) ∙ free))
      (rw same before) (ground arith)

pub grant : {s : CacheIndex} → IsValid s → (handle : ℕ) → Grant s handle
unfolding get_free_index
grant {s} v handle = elim (Option-cases (lookup (handle_key handle) s.map_index)) [
  | inl u ↦ grant_unknown s handle v.slots_num u (first_free s.index_cache 0) refl
  | inr (i, k) ↦ known i k (ground arith)
]

taken_inside : (l : List Bool) (i : ℕ) → get_or l i false ≡ true → i < length l
taken_inside [] i h = cc
taken_inside (b ∷ l) zero h = omega arith
taken_inside (b ∷ l) (suc i) h = omega (arith, taken_inside l i h)

other_key : (g h : ℕ) → g ≢ h → key_eq (handle_key h) (handle_key g) ≡ false
other_key g h ne = elim (Bool-cases (key_eq (handle_key h) (handle_key g))) [
  | inl e ↦
      absurd (ne (sym (handle_key_injective h g ((key_eq_iff (handle_key h) (handle_key g)).0 e))))
  | inr e ↦ e
]

self_key : (h : ℕ) → key_eq (handle_key h) (handle_key h) ≡ true
self_key h = (key_eq_iff (handle_key h) (handle_key h)).1 refl

pub get_index-lookup :
    (s : CacheIndex) (handle : ℕ)
    → get_index s livox_lidar_type handle ≡ lookup (handle_key handle) s.map_index
unfolding get_index
get_index-lookup s handle = refl

-- What a call for a free slot of a valid table does, for a Livox LiDAR: the index that it returns
-- is what a look-up of the handle gives from then on, every other handle keeps its own, the index
-- is below 32, and the call fails just where the handle has no slot and all are taken.
pub get_free_index_lem :
    (s : CacheIndex) (handle : ℕ)
    → IsValid s
    → let (r, s') = get_free_index s livox_lidar_type handle in
      (get_index s' livox_lidar_type handle ≡ r)
      × ((g : ℕ) → g ≢ handle → get_index s' livox_lidar_type g ≡ get_index s livox_lidar_type g)
      × ((i : ℕ) → r ≡ some i → i < max_source_lidar)
      × ((r ≡ none) ↔ (
          (get_index s livox_lidar_type handle ≡ none)
          × ((i : ℕ) → i < max_source_lidar → IsTaken s i)))
unfolding get_index
get_free_index_lem s handle v = elim (grant v handle) [
  | known i k e ↦ rw e (
    k,
    (λ g ne. refl),
    (λ j h.
        ground
          (arith, taken_inside s.index_cache i (v.taken (handle_key handle) i k), v.slots_num)),
    ((λ h. cc), (λ h. cc)),
  )
  | granted i u inside free before e ↦ rw e (
    rw (lookup-insert, self_key) refl,
    (λ g ne. rw (lookup-insert, other_key g handle ne) refl),
    (λ j h. ground (arith, v.slots_num)),
    ((λ h. cc), (λ h. ground (arith, h.1 i (omega (arith, v.slots_num))))),
  )
  | full u all e ↦ rw e (
    u,
    (λ g ne. refl),
    (λ j h. cc),
    ((λ h. (u, λ j b. all j (omega (arith, v.slots_num)))), (λ h. refl)),
  )
]

-- Distinct handles of Livox LiDARs never share a slot of a valid table.
pub get_index_injective :
    (s : CacheIndex) (g h i : ℕ)
    → IsValid s
    → get_index s livox_lidar_type g ≡ some i
    → get_index s livox_lidar_type h ≡ some i
    → g ≡ h
unfolding get_index
get_index_injective s g h i v p q =
    handle_key_injective g h (v.distinct (handle_key g) (handle_key h) i p q)

type_cases : (t : ℕ) → (t ≡ livox_lidar_type) ⊎ ((t == livox_lidar_type) ≡ false)
type_cases t = elim (Bool-cases (t == livox_lidar_type)) [
  | inl e ↦ inl (ground arith)
  | inr e ↦ inr e
]

module _ {s : CacheIndex} (v : IsValid s) (handle : ℕ) where
  free-IsValid : IsValid (get_free_index s livox_lidar_type handle).1
  free-IsValid = elim (grant v handle) [
    | known i k e ↦ rw e v
    | granted i u inside free before e ↦
        rw e (claimed-IsValid v (handle_key handle) i u inside free)
    | full u all e ↦ rw e v
  ]

  lvx-IsValid : IsValid (lvx_get_index s livox_lidar_type handle).1
  unfolding lvx_get_index
  lvx-IsValid = elim (Option-cases (lookup (handle_key handle) s.map_index)) [
    | inl u ↦ rw u free-IsValid
    | inr (i, k) ↦ rw k v
  ]

  reset-IsValid : IsValid (reset_index s livox_lidar_type handle)
  unfolding reset_index
  reset-IsValid = elim (Option-cases (lookup (handle_key handle) s.map_index)) [
    | inl u ↦ rw u v
    | inr (i, k) ↦ rw k (returned-IsValid v (handle_key handle) i k)
  ]

-- A device of another type than a Livox LiDAR gets no slot and changes nothing.
pub other_type :
    (s : CacheIndex) (lidar_type handle : ℕ)
    → (lidar_type == livox_lidar_type) ≡ false
    → (get_free_index s lidar_type handle ≡ (none, s))
      × (lvx_get_index s lidar_type handle ≡ (none, s))
      × (get_index s lidar_type handle ≡ none)
      × (reset_index s lidar_type handle ≡ s)
unfolding get_free_index lvx_get_index get_index reset_index
other_type s lidar_type handle e = (ground arith, ground arith, ground arith, ground arith)

-- Every call that changes a valid table keeps it valid, for every device type and handle.
pub operations-IsValid :
    (s : CacheIndex) (lidar_type handle : ℕ)
    → IsValid s
    → IsValid (get_free_index s lidar_type handle).1
      × IsValid (lvx_get_index s lidar_type handle).1
      × IsValid (reset_index s lidar_type handle)
operations-IsValid s lidar_type handle v = elim (type_cases lidar_type) [
  | inl e ↦ rw e (free-IsValid v handle, lvx-IsValid v handle, reset-IsValid v handle)
  | inr e ↦
      let (free, lvx, _, reset) = other_type s lidar_type handle e in
      (rw free v, rw lvx v, rw reset v)
]

-- After `ResetIndex`, on a valid table, of a Livox LiDAR that has a slot its handle has none, the
-- slot is free, and every other handle keeps its own.
pub reset_index_lem :
    (s : CacheIndex) (handle i : ℕ)
    → IsValid s
    → get_index s livox_lidar_type handle ≡ some i
    → let s' = reset_index s livox_lidar_type handle in
      (get_index s' livox_lidar_type handle ≡ none)
      × (get_or s'.index_cache i false ≡ false)
      × ((g : ℕ) → g ≢ handle → get_index s' livox_lidar_type g ≡ get_index s livox_lidar_type g)
unfolding get_index reset_index
reset_index_lem s handle i v e = rw e (
  rw (lookup-erase, self_key) refl,
  ground (
    arith,
    get_or-set s.index_cache i i false,
    taken_inside s.index_cache i (v.taken (handle_key handle) i e),
  ),
  (λ g ne. rw (lookup-erase, other_key g handle ne) refl),
)

-- An index that the table gives is below 32, for every device type.
pub get_index-lt :
    {s : CacheIndex}
    → IsValid s
    → (lidar_type handle : ℕ) {i : ℕ} → get_index s lidar_type handle ≡ some i
    → i < max_source_lidar
unfolding get_index
get_index-lt {s} v lidar_type handle {i} e = elim (type_cases lidar_type) [
  | inl t ↦
      let found : lookup (handle_key handle) s.map_index ≡ some i = ground arith in
      omega (arith, v.slots_num, taken_inside s.index_cache i (v.taken (handle_key handle) i found))
  | inr t ↦ absurd (ground arith)
]
