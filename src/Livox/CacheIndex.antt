-- ===== src/Livox/CacheIndex.antt =====
-- comm/cache_index.h and comm/cache_index.cpp: which of the 32 device slots each handle has. A call
-- returns the index that it writes through its reference, or `none` where it returns -1.
pub mod Lookup
pub mod Invariant
pub mod Client
use robot_nav.Prelude.{
  ℕ, zero, suc, ◌+◌, ◌%◌, ◌^◌, Bool, true, false, Option, none, some, List, [], ◌∷◌, set, replicate,
  ◌==◌, if◌then◌else◌,
}
use robot_nav.Livox.Keys.{Key, key_eq, handle_key}

abbrev pub max_source_lidar : ℕ
max_source_lidar = 32

-- `kLivoxLidarType`
abbrev pub livox_lidar_type : ℕ
livox_lidar_type = 8

-- The `std::map` from keys to indices.
unfoldable pub lookup : Key → List (Key × ℕ) → Option ℕ
lookup k [] = none
lookup k ((j, i) ∷ m) = if key_eq j k then some i else lookup k m

unfoldable pub insert : Key → ℕ → List (Key × ℕ) → List (Key × ℕ)
insert k v [] = (k, v) ∷ []
insert k v ((j, i) ∷ m) = if key_eq j k then (k, v) ∷ m else (j, i) ∷ insert k v m

unfoldable pub erase : Key → List (Key × ℕ) → List (Key × ℕ)
erase k [] = []
erase k ((j, i) ∷ m) = if key_eq j k then erase k m else (j, i) ∷ erase k m

pub record CacheIndex : Type 0 where
  pub map_index : List (Key × ℕ)
  pub index_cache : List Bool

unfoldable pub new : CacheIndex
new = record { map_index = []; index_cache = replicate max_source_lidar false }

unfoldable pub generate_index_key : ℕ → ℕ → Option Key
generate_index_key lidar_type handle =
    if lidar_type == livox_lidar_type then some (handle_key handle) else none

-- The loop of `GetFreeIndex`: the first slot from `i` on that is not taken.
unfoldable pub first_free : List Bool → ℕ → Option ℕ
first_free [] i = none
first_free (false ∷ l) i = some i
first_free (true ∷ l) i = first_free l (i + 1)

claim : CacheIndex → Key → Option ℕ → Option ℕ × CacheIndex
claim s key none = (none, s)
claim s key (some i) = (
  some (i % 2 ^ 8),
  record { map_index = insert key (i % 2 ^ 8) s.map_index; index_cache = set s.index_cache i true },
)

find_or_claim : CacheIndex → Key → Option ℕ → Option ℕ × CacheIndex
unfolding claim
find_or_claim s key (some i) = (some i, s)
find_or_claim s key none = claim s key (first_free s.index_cache 0)

unfoldable pub get_free_index : CacheIndex → ℕ → ℕ → Option ℕ × CacheIndex
unfolding generate_index_key find_or_claim
get_free_index s lidar_type handle = elim (generate_index_key lidar_type handle) [
  | none ↦ (none, s)
  | some key ↦ find_or_claim s key (lookup key s.map_index)
]

unfoldable pub get_index : CacheIndex → ℕ → ℕ → Option ℕ
unfolding generate_index_key
get_index s lidar_type handle = elim (generate_index_key lidar_type handle) [
  | none ↦ none
  | some key ↦ lookup key s.map_index
]

lvx_or_free : CacheIndex → ℕ → ℕ → Option ℕ → Option ℕ × CacheIndex
unfolding get_free_index
lvx_or_free s lidar_type handle (some i) = (some i, s)
lvx_or_free s lidar_type handle none = get_free_index s lidar_type handle

unfoldable pub lvx_get_index : CacheIndex → ℕ → ℕ → Option ℕ × CacheIndex
unfolding generate_index_key lvx_or_free
lvx_get_index s lidar_type handle = elim (generate_index_key lidar_type handle) [
  | none ↦ (none, s)
  | some key ↦ lvx_or_free s lidar_type handle (lookup key s.map_index)
]

give_back : CacheIndex → Key → Option ℕ → CacheIndex
give_back s key none = s
give_back s key (some i) = record {
  map_index = erase key s.map_index;
  index_cache = set s.index_cache i false;
}

-- `ResetIndex` of a device with this type and handle.
unfoldable pub reset_index : CacheIndex → ℕ → ℕ → CacheIndex
unfolding generate_index_key give_back
reset_index s lidar_type handle = elim (generate_index_key lidar_type handle) [
  | none ↦ s
  | some key ↦ give_back s key (lookup key s.map_index)
]
