-- ===== src/Livox/Callback/Connect.antt =====
-- How a device gets to the state in which its points are published.
use robot_nav.Prelude.{
  ℕ, ◌≡◌, ◌≢◌, refl, sym, ap, ◌∙◌, inl, inr, false, none, some, All, List, [], ◌∷◌, ◌++◌, arith,
  get_elem?, get_or, set, if◌then◌else◌, length, set_twice, get_elem?_inside, ◌<◌, ◌⊎◌,
}
use robot_nav.Livox.Fault.{done}
use robot_nav.Livox.Config.{
  UserLivoxLidarConfig, Setting, data_type, scan_pattern, blind_spot, dual_emit, value_of, is_set,
}
use robot_nav.Livox.Keys.{handle_key}
use robot_nav.Livox.CacheIndex.{
  CacheIndex, get_index, get_free_index, livox_lidar_type, max_source_lidar,
}
use robot_nav.Livox.CacheIndex.Invariant.{IsValid as CacheIsValid, IsTaken, claimed}
use robot_nav.Livox.CacheIndex.Client.{
  grant, known, granted, full, get_free_index_lem, get_index-lookup,
}
use robot_nav.Livox.Lds.Defs.{Lds, LidarDevice, sampling, device}
use robot_nav.Livox.Callback.{
  Request, set_install_attitude, set_work_mode_normal, enable_imu_data, request, request_settings,
  with_bits, start_device, get_lidar_device, add_device, add_at, lidar_info_change,
}
use robot_nav.Livox.Callback.Flags.{Flags, encode}
use robot_nav.Livox.Callback.Answers.{
  Answer, HasResponse, still, is_ready, bits, put_device, Knows, found, put-Knows, answer_all,
  answer_calls, answer_calls_lem, answered_bits, answered_state,
}

-- What the user asks for: every setting with a value.
abbrev pub wanted : {F : Type 0} → UserLivoxLidarConfig F → Flags
wanted c s = is_set (value_of c s)

-- The requests for the settings of a list that are wanted.
abbrev pub requests_for :
    {F : Type 0} → ℕ → UserLivoxLidarConfig F → List Setting → List (Request F)
requests_for h c [] = []
requests_for h c (s ∷ l) =
    let rest = requests_for h c l in if wanted c s then request h c s ∷ rest else rest

abbrev pub all_settings : List Setting
all_settings = data_type ∷ scan_pattern ∷ blind_spot ∷ dual_emit ∷ []

no_flags : Flags
no_flags s = false

-- The first slot that is not taken.
abbrev pub FirstFree : CacheIndex → ℕ → Type 0
FirstFree c i = (i < max_source_lidar) × (¬ IsTaken c i) × ((j : ℕ) → j < i → IsTaken c j)

-- Every handle but one has the slot that it had before.
abbrev pub KeepsOthers : CacheIndex → CacheIndex → ℕ → Type 0
KeepsOthers c c' h =
    (g : ℕ) → g ≢ h → get_index c' livox_lidar_type g ≡ get_index c livox_lidar_type g

not_taken : (c : CacheIndex) (i : ℕ) → get_or c.index_cache i false ≡ false → ¬ IsTaken c i
not_taken c i free taken = cc

module _ {P F : Type 0} where
  requested :
      (h : ℕ) (d : LidarDevice P F)
      → request_settings h d ≡ (
        with_bits d ((request_settings h d).0.livox_config.set_bits),
        requests_for h d.livox_config all_settings,
      )
  unfolding request_settings with_bits request
  requested h d = ground arith

  requested_bits :
      (h : ℕ) (d : LidarDevice P F)
      → bits d ≡ 0
      → bits ((request_settings h d).0) ≡ encode (wanted d.livox_config)
  unfolding request_settings with_bits
  requested_bits h d e = ground arith

  -- What a known device is sent when it appears: the wanted settings, in the order of the code, its
  -- attitude, the normal work mode and the inertial samples.
  abbrev pub sent_to : ℕ → LidarDevice P F → List (Request F)
  sent_to h d =
      let c = d.livox_config in
      requests_for h c all_settings
      ++ (set_install_attitude c.handle c.extrinsic_param
          ∷ set_work_mode_normal h
          ∷ enable_imu_data h
          ∷ [])

  appeared :
      {s : Lds P F} {h i : ℕ} {d : LidarDevice P F}
      → Knows s h i d
      → lidar_info_change s h ≡ done (put_device s i (request_settings h d).0, sent_to h d)
  unfolding lidar_info_change start_device
  appeared {s} {h} {i} {d} k =
      rw (found k, lidar_info_change)
        (ap
          (λ (l : List (Request F)). done (
            put_device s i (request_settings h d).0,
            l
                ++ (set_install_attitude d.livox_config.handle d.livox_config.extrinsic_param
                    ∷ set_work_mode_normal h
                    ∷ enable_imu_data h
                    ∷ []),
          ))
          (ap (λ (r : LidarDevice P F × List (Request F)). r.1) (requested h d)))

  -- A device that the table knows and that waits for no answer, when it appears and then gets answers
  -- to its settings in any order and number, each error but a timeout with a response that is not
  -- null: no call faults, it is sent just the wanted settings with its attitude, the work mode and the
  -- inertial samples, `set_bits` ends as the wanted settings that no answer has granted, and it is
  -- sampling exactly where it was before or some setting was granted and every wanted one was; no
  -- other device and no other field of the data source changes.
  pub connects :
      {s : Lds P F} {h i : ℕ} {d : LidarDevice P F} (answers : List Answer)
      → Knows s h i d
      → bits d ≡ 0
      → All HasResponse answers
      → (s1 : Lds P F) × (d' : LidarDevice P F) × (lidar_info_change s h ≡ done (s1, sent_to h d))
        × (answer_calls answers s1 h ≡ done (put_device s i d'))
        × (bits d' ≡ encode (still (wanted d.livox_config) answers))
        × (d'.connect_state
            ≡ (if is_ready (wanted d.livox_config) answers then sampling else d.connect_state))
  unfolding with_bits
  connects {s} {h} {i} {d} answers k idle responded =
      let d1 = (request_settings h d).0 in
      let e = requested_bits h d idle in
      (
        put_device s i d1,
        answer_all answers d1,
        appeared k,
        answer_calls_lem answers responded (put-Knows d1 k)
            ∙ ap (λ (l : List (LidarDevice P F)). done (record s { lidars = l }))
                (set_twice s.lidars i d1 (answer_all answers d1)),
        answered_bits answers d1 (wanted d.livox_config) e,
        answered_state answers d1 (wanted d.livox_config) e
            ∙ ap
                (λ (x : LidarDevice P F).
                  if is_ready (wanted d.livox_config) answers then sampling else x.connect_state)
                (ap (λ (r : LidarDevice P F × List (Request F)). r.0) (requested h d)),
      )

  absent :
      (s : Lds P F) (h : ℕ)
      → get_index s.cache_index livox_lidar_type h ≡ none
      → get_lidar_device s h ≡ done none
  unfolding get_lidar_device
  absent s h e = rw (e, get_lidar_device) refl

  -- The data source after a slot was given to a handle, with the table `c` and the device of the slot.
  abbrev pub with_slot : Lds P F → CacheIndex → ℕ → LidarDevice P F → Lds P F
  with_slot s c i d = record s {
    cache_index = c;
    lidars = set s.lidars i (record d { lidar_type = livox_lidar_type });
  }

  added :
      (s : Lds P F) (h : ℕ) {i : ℕ} {c : CacheIndex} {d : LidarDevice P F}
      → get_index s.cache_index livox_lidar_type h ≡ none
      → get_free_index s.cache_index livox_lidar_type h ≡ (some i, c)
      → get_elem? s.lidars i ≡ some d
      → lidar_info_change s h
        ≡ done (with_slot s c i d, set_work_mode_normal h ∷ enable_imu_data h ∷ [])
  unfolding lidar_info_change add_device start_device device
  added s h unknown ran at =
      rw (absent s h unknown, ran, device, at, lidar_info_change, add_device, add_at) refl

  -- A device that a valid table of 32 devices does not know, when it appears: it is ignored where
  -- every slot is taken; else it gets the first slot that is not taken, its type and the start of its
  -- work and nothing more, so that its handle and its connection state stay those of the unused slot,
  -- and every other handle keeps its own.
  pub stranger :
      (s : Lds P F) (h : ℕ)
      → CacheIsValid s.cache_index
      → length s.lidars ≡ max_source_lidar
      → get_index s.cache_index livox_lidar_type h ≡ none
      → (((j : ℕ) → j < max_source_lidar → IsTaken s.cache_index j)
          × (lidar_info_change s h ≡ done (s, [])))
        ⊎ ((i : ℕ) × (d : LidarDevice P F) × (c : CacheIndex) × (get_elem? s.lidars i ≡ some d)
            × FirstFree s.cache_index i
            × (get_index c livox_lidar_type h ≡ some i)
            × KeepsOthers s.cache_index c h
            × (lidar_info_change s h
                ≡ done (with_slot s c i d, set_work_mode_normal h ∷ enable_imu_data h ∷ [])))
  unfolding lidar_info_change add_device
  stranger s h v n unknown =
      let same = get_free_index_lem s.cache_index h v in
      elim (grant v h) [
        | known i e ran ↦
            let clash : some i ≡ none = sym e ∙ sym (get_index-lookup s.cache_index h) ∙ unknown in
            cc
        | granted i e inside free before ran ↦
            let (d, at) = get_elem?_inside s.lidars i (omega (arith, n, v.slots_num)) in
            inr (
              i,
              d,
              claimed s.cache_index (handle_key h) i,
              at,
              (omega (arith, v.slots_num), not_taken s.cache_index i free, before),
              rw ran at same.0,
              rw ran at same.1,
              added s h unknown ran at,
            )
        | full e all ran ↦ inl (
          λ j lt. all j (omega (arith, v.slots_num)),
          rw (absent s h unknown, ran, lidar_info_change, add_device, add_at) refl,
        )
      ]
