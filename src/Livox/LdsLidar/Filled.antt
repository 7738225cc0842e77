-- ===== src/Livox/LdsLidar/Filled.antt =====
-- The devices of the configuration in their slots.
use robot_nav.Prelude.{
  ℕ, ◌<◌, ◌≡◌, ◌≢◌, ◌⊎◌, refl, sym, ap, ◌∙◌, inl, inr, Bool, none, some, List, [], ◌∷◌, arith,
  length, length-set, get_elem?, set, All, get_elem?_inside, get_elem?-set_self, get_elem?-set_ne,
}
use native.Mathlib.Decide.{ℕ_discrete}
use mathlib.Core.Path.{subst}
use mathlib.Core.Option.{some-injective}
use robot_nav.Prelude.Int.{ℤ}
use robot_nav.Livox.Fault.{Outcome, done}
use robot_nav.Livox.Config.{UserLivoxLidarConfig}
use robot_nav.Livox.CacheIndex.{
  CacheIndex, get_index, get_free_index, livox_lidar_type, max_source_lidar,
}
use robot_nav.Livox.CacheIndex.Invariant.{IsValid as CacheIsValid, IsTaken}
use robot_nav.Livox.CacheIndex.Client.{
  grant, known, granted, full, get_index-lookup, get_free_index_lem, get_index_injective,
  operations-IsValid,
}
use robot_nav.Livox.Lds.Defs.{Lds, LidarDevice, device}
use robot_nav.Livox.LdsLidar.{LidarExtParameter, Filling, fill_at, fill_devices, ext_param}

-- Every slot is taken.
abbrev pub IsFull : CacheIndex → Type 0
IsFull c = (j : ℕ) → j < max_source_lidar → IsTaken c j

module _ {P F : Type 0} where
  -- A device with its type, in the slot of its handle, configured for it.
  pub record IsOwn (h : ℕ) (d : LidarDevice P F) : Type 0 where
    pub type_livox : d.lidar_type ≡ livox_lidar_type
    pub own : d.handle ≡ h
    pub configured : d.livox_config.handle ≡ h

  pub record IsFilled (s : Lds P F) : Type 0 where
    pub table : CacheIsValid s.cache_index
    pub num : length s.lidars ≡ max_source_lidar
    pub filled :
        (h i : ℕ)
        → get_index s.cache_index livox_lidar_type h ≡ some i
        → (d : LidarDevice P F) × (get_elem? s.lidars i ≡ some d) × IsOwn h d

  -- The handle is known, unless every slot is taken.
  abbrev pub IsSettled : Lds P F → ℕ → Type 0
  IsSettled s h =
      ((i : ℕ) × (get_index s.cache_index livox_lidar_type h ≡ some i)) ⊎ IsFull s.cache_index

  -- Every handle that was known still is, and a full table stays full.
  record Grown (s s' : Lds P F) : Type 0 where
    kept :
        (g i : ℕ)
        → get_index s.cache_index livox_lidar_type g ≡ some i
        → get_index s'.cache_index livox_lidar_type g ≡ some i
    full : IsFull s.cache_index → IsFull s'.cache_index

  -- What a granted slot gives: the table after it and the slot.
  record Slot (s : Lds P F) (h i : ℕ) (c : CacheIndex) : Type 0 where
    table : CacheIsValid c
    here : get_index c livox_lidar_type h ≡ some i
    inside : i < max_source_lidar
    others :
        (g : ℕ)
        → g ≢ h
        → get_index c livox_lidar_type g ≡ get_index s.cache_index livox_lidar_type g
    kept :
        (g j : ℕ)
        → get_index s.cache_index livox_lidar_type g ≡ some j
        → get_index c livox_lidar_type g ≡ some j
    full : IsFull s.cache_index → IsFull c

  abbrev slotted : Lds P F → CacheIndex → ℕ → LidarDevice P F → Lds P F
  slotted s c i d = record s { cache_index = c; lidars = set s.lidars i d }

  slotted_filled :
      {s : Lds P F} {h i : ℕ} {c : CacheIndex}
      → Slot s h i c
      → IsFilled s
      → (d : LidarDevice P F) → IsOwn h d
      → (g j : ℕ) → get_index c livox_lidar_type g ≡ some j
      → (e : LidarDevice P F) × (get_elem? (set s.lidars i d) j ≡ some e) × IsOwn g e
  slotted_filled {s} {h} {i} {c} k v d own g j at = elim (ℕ_discrete g h) [
    | yes same ↦
        let j_eq : j ≡ i =
          some-injective j i (sym at ∙ ap (get_index c livox_lidar_type) same ∙ k.here) in
        rw j_eq (
          d,
          get_elem?-set_self s.lidars i d (omega (arith, v.num, k.inside)),
          subst (λ (x : ℕ). IsOwn x d) (sym same) own,
        )
    | no other ↦
        let (e, there, owned) = v.filled g j (sym (k.others g other) ∙ at) in
        let apart : i ≢ j =
          λ same. other (get_index_injective c g h j k.table at (k.here ∙ ap some same)) in
        (e, get_elem?-set_ne s.lidars i j d apart ∙ there, owned)
  ]

  slotted-IsFilled :
      {s : Lds P F} {h i : ℕ} {c : CacheIndex}
      → Slot s h i c
      → IsFilled s
      → (d : LidarDevice P F) → IsOwn h d
      → IsFilled (slotted s c i d)
  slotted-IsFilled {s} {h} {i} {c} k v d own = record {
    table = k.table;
    num = length-set s.lidars i d ∙ v.num;
    filled = slotted_filled k v d own;
  }

  -- The slot that a call gives, where it does.
  Slot-of :
      {s : Lds P F} {h i : ℕ} {c : CacheIndex}
      → CacheIsValid s.cache_index
      → get_free_index s.cache_index livox_lidar_type h ≡ (some i, c)
      → ((j : ℕ)
          → get_index s.cache_index livox_lidar_type h ≡ some j
          → get_index c livox_lidar_type h ≡ some j)
      → (IsFull s.cache_index → IsFull c)
      → Slot s h i c
  Slot-of {s} {h} {i} {c} v ran old stays =
      let lem = rw ran at (get_free_index_lem s.cache_index h v) in
      record {
        table = rw ran at (operations-IsValid s.cache_index livox_lidar_type h v).0;
        here = lem.0;
        inside = lem.2 i refl;
        others = lem.1;
        kept = λ g j e. elim (ℕ_discrete g h) [
          | yes same ↦
              ap (get_index c livox_lidar_type) same
              ∙ old j (ap (get_index s.cache_index livox_lidar_type) (sym same) ∙ e)
          | no other ↦ lem.1 g other ∙ e
        ];
        full = stays;
      }

  module _ (is_low_data : ℤ → Bool) where
    abbrev Filled : UserLivoxLidarConfig F → Lds P F → Outcome (Filling P F) → Type 0
    Filled config s r =
        (f : Filling P F) × (r ≡ done f)
        × IsFilled (f.0)
        × Grown s (f.0)
        × IsSettled (f.0) config.handle

    fill-Slot :
        (config : UserLivoxLidarConfig F) (s : Lds P F) (ext : List (LidarExtParameter F)) {i : ℕ}
        {c : CacheIndex}
        → IsFilled s
        → Slot s config.handle i c
        → Filled config s (fill_at is_low_data config (s, ext) (some i, c))
    unfolding fill_at device
    fill-Slot config s ext {i} {c} v k =
        let (d, at) = get_elem?_inside s.lidars i (omega (arith, v.num, k.inside)) in
        let d' = record d {
          lidar_type = livox_lidar_type;
          livox_config = config;
          handle = config.handle;
        } in
        let own : IsOwn config.handle d' = record {
          type_livox = refl;
          own = refl;
          configured = refl;
        } in
        let low = is_low_data config.pcl_data_type in
        (
          (
            slotted s c i d',
            record {
              lidar_type = livox_lidar_type;
              handle = config.handle;
              param = ext_param low config.extrinsic_param;
            }
                ∷ ext,
          ),
          rw (at, fill_at, device) refl,
          slotted-IsFilled k v d' own,
          record { kept = k.kept; full = k.full },
          inl (i, k.here),
        )

    fill_one :
        (config : UserLivoxLidarConfig F) (s : Lds P F) (ext : List (LidarExtParameter F))
        → IsFilled s
        → Filled config s (
            fill_at is_low_data config
              (s, ext)
              (get_free_index s.cache_index livox_lidar_type config.handle))
    unfolding fill_at
    fill_one config s ext v = elim (grant v.table config.handle) [
      | known i e ran ↦
          rw ran (fill-Slot config s ext v (Slot-of v.table ran (λ j at. at) (λ all. all)))
      | granted i e inside free before ran ↦ rw ran (
          fill-Slot config s ext v (
            Slot-of v.table ran
              (λ j at.
                let clash : none ≡ some j =
                  sym e ∙ sym (get_index-lookup s.cache_index config.handle) ∙ at in
                cc)
              (λ all. let taken = all i (omega (arith, v.table.slots_num)) in cc)))
      | full e all ran ↦ rw ran (
        (s, ext),
        refl,
        v,
        record { kept = λ g j at. at; full = λ h. h },
        inr (λ j lt. all j (omega (arith, v.table.slots_num))),
      )
    ]

    Grown-IsSettled : (s s' : Lds P F) → Grown s s' → (h : ℕ) → IsSettled s h → IsSettled s' h
    Grown-IsSettled s s' g h (inl (i, at)) = inl (i, g.kept h i at)
    Grown-IsSettled s s' g h (inr all) = inr (g.full all)

    -- Filling in the devices of a configuration, from a data source with a valid table of 32 devices in
    -- which every known handle has a device of its own: no call faults, the same holds of the result,
    -- whatever was known or full stays so, and every configured handle is known then, unless every slot
    -- is taken.
    pub fill_devices-IsFilled :
        (l : List (UserLivoxLidarConfig F)) (s : Lds P F) (ext : List (LidarExtParameter F))
        → IsFilled s
        → (f : Filling P F) × (fill_devices is_low_data l (s, ext) ≡ done f)
          × IsFilled (f.0)
          × ((h : ℕ) → IsSettled s h → IsSettled (f.0) h)
          × All (λ config. IsSettled (f.0) config.handle) l
    unfolding fill_devices
    fill_devices-IsFilled [] s ext v = ((s, ext), refl, v, (λ h a. a), tt)
    fill_devices-IsFilled (config ∷ l) s ext v =
        let ((s1, ext1), ran1, v1, g1, here) = fill_one config s ext v in
        let (f2, ran2, v2, g2, rest) = fill_devices-IsFilled l s1 ext1 v1 in
        (
          f2,
          rw (ran1, fill_devices) ran2,
          v2,
          (λ h a. g2 h (Grown-IsSettled s s1 g1 h a)),
          (g2 config.handle here, rest),
        )
