-- ===== src/Livox/Tests/Devices.antt =====
-- A device that asks for its data type and its blind spot, and one that is not known.
use robot_nav.Prelude.{
  ℕ, ◌<◌, ◌≡◌, ◌⊎◌, refl, true, false, none, some, List, [], ◌∷◌, All, get_elem?, if◌then◌else◌,
}
use robot_nav.Livox.Fault.{done}
use robot_nav.Livox.Keys.{key_eq, handle_key}
use robot_nav.Livox.Config.{UserLivoxLidarConfig, data_type, blind_spot, dual_emit}
use robot_nav.Livox.CacheIndex.{
  CacheIndex, new, get_free_index, get_index, livox_lidar_type, max_source_lidar, lookup, insert,
  first_free,
}
use robot_nav.Livox.CacheIndex.Invariant.{IsTaken, new-IsValid}
use robot_nav.Livox.LdsLidar.{Filling, fill_devices}
use robot_nav.Livox.LdsLidar.Filled.{IsFilled, IsSettled, fill_devices-IsFilled}
use robot_nav.Livox.Lds.Defs.{Lds, LidarDevice, off, sampling}
use robot_nav.Livox.Callback.{
  set_work_mode_normal, enable_imu_data, success, timeout, failure, lidar_info_change,
}
use robot_nav.Livox.Callback.Flags.{encode}
use robot_nav.Livox.Callback.Answers.{
  Answer, still, is_ready, bits, put_device, Knows, answer_calls,
}
use robot_nav.Livox.Callback.Connect.{
  wanted, sent_to, with_slot, FirstFree, KeepsOthers, connects, stranger,
}
use robot_nav.Livox.Tests.Source.{known-IsValid, known_index, idle_device, source}

abbrev answers : List Answer
answers =
    (blind_spot, timeout, false)
    ∷ (dual_emit, failure, true)
    ∷ (data_type, success, true)
    ∷ (blind_spot, success, true)
    ∷ []

source-Knows : Knows source 42 0 idle_device
source-Knows = record { index = known_index; here = refl }

connects_example :
    (s1 : Lds ℕ ℕ) × (d' : LidarDevice ℕ ℕ) × (lidar_info_change source 42
      ≡ done (s1, sent_to 42 idle_device))
    × (answer_calls answers s1 42 ≡ done (put_device source 0 d'))
    × (bits d' ≡ encode (still (wanted idle_device.livox_config) answers))
    × (d'.connect_state
        ≡ (if is_ready (wanted idle_device.livox_config) answers then sampling else off))
connects_example = connects answers source-Knows refl (tt, (refl, (tt, (tt, tt))))

both_granted : is_ready (wanted idle_device.livox_config) answers ≡ true
both_granted = refl

one_failed :
    is_ready
      (wanted idle_device.livox_config)
      ((blind_spot, failure, true) ∷ (data_type, success, true) ∷ [])
    ≡ false
one_failed = refl

unknown_handle : get_index source.cache_index livox_lidar_type 43 ≡ none
unfolding get_index get_free_index new lookup insert first_free key_eq handle_key
unknown_handle = refl

stranger_example :
    (((j : ℕ) → j < max_source_lidar → IsTaken source.cache_index j)
      × (lidar_info_change source 43 ≡ done (source, [])))
    ⊎ ((i : ℕ) × (d : LidarDevice ℕ ℕ) × (c : CacheIndex) × (get_elem? source.lidars i ≡ some d)
        × FirstFree source.cache_index i
        × (get_index c livox_lidar_type 43 ≡ some i)
        × KeepsOthers source.cache_index c 43
        × (lidar_info_change source 43
            ≡ done (with_slot source c i d, set_work_mode_normal 43 ∷ enable_imu_data 43 ∷ [])))
stranger_example = stranger source 43 known-IsValid refl unknown_handle

nothing_known : (h : ℕ) → get_index new livox_lidar_type h ≡ none
unfolding get_index new lookup
nothing_known h = refl

abbrev fresh : Lds ℕ ℕ
fresh = record source { cache_index = new }

fresh-IsFilled : IsFilled fresh
fresh-IsFilled = record {
  table = new-IsValid;
  num = refl;
  filled = λ h i e. let clash = nothing_known h in cc;
}

abbrev two_configs : List (UserLivoxLidarConfig ℕ)
two_configs = idle_device.livox_config ∷ record idle_device.livox_config { handle = 43 } ∷ []

fill_devices-IsFilled_example :
    (f : Filling ℕ ℕ) × (fill_devices (λ z. false) two_configs (fresh, []) ≡ done f)
    × IsFilled (f.0)
    × ((h : ℕ) → IsSettled fresh h → IsSettled (f.0) h)
    × All (λ config. IsSettled (f.0) config.handle) two_configs
fill_devices-IsFilled_example =
    fill_devices-IsFilled (λ z. false) two_configs fresh [] fresh-IsFilled
