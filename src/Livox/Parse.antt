-- ===== src/Livox/Parse.antt =====
-- parse_cfg_file/parse_cfg_file.cpp and parse_livox_lidar_cfg.cpp: what is read of the configuration.
pub mod Typed
pub mod Configs
use Prim.Native.String.{String}
use robot_nav.Prelude.{
  ℕ, zero, suc, ◌%◌, Bool, true, false, not, ◌&&◌, ◌||◌, Option, none, some, List, [], ◌∷◌, ◌++◌,
  ◌==◌, if◌then◌else◌, length,
}
use robot_nav.Prelude.Int.{ℤ, pos, negsuc, to_byte, of_byte, to_int8}
use robot_nav.Livox.Fault.{Outcome, done, fault, failed_assertion, ◌>>=◌}
use robot_nav.Livox.Config.{ExtParameter, UserLivoxLidarConfig}

-- `rapidjson::Value`, as the code calls it. `none` is a failed assertion of the library: a member of
-- what is no object or has none of that name, a value of another type.
pub record Json (F : Type 0) : Type 1 where
  pub V : Type 0
  pub has_member : V → String → Option Bool
  pub member : V → String → Option V
  pub is_array : V → Bool
  pub is_object : V → Bool
  pub is_uint : V → Bool
  pub elements : V → Option (List V)
  pub get_string : V → Option String
  pub get_int : V → Option ℤ
  pub get_uint : V → Option ℕ
  pub get_float : V → Option F
  pub zero_float : F
  pub ip_to_num : String → ℕ

abbrev pub checked {ℓ} : {A : Type ℓ} → Option A → Outcome A
checked none = fault failed_assertion
checked (some a) = done a

module _ {F : Type 0} (j : Json F) where
  open j use {
    V, has_member, member, is_array, is_object, is_uint, elements, get_string, get_int, get_uint,
    get_float, zero_float, ip_to_num,
  }

  -- `v.HasMember(name) ? read(v[name]) : missing`
  unfoldable pub member_or : {A : Type 0} → V → String → A → (V → Outcome A) → Outcome A
  member_or v name missing read = do
    has ← checked (has_member v name)
    elim has [ true ↦ checked (member v name) >>= read | false ↦ done missing ]

  unfoldable pub read_int : V → Outcome ℤ
  read_int v = checked (get_int v)

  unfoldable pub read_float : V → Outcome F
  read_float v = checked (get_float v)

  -- A member that becomes an `int8_t`, or -1.
  int8_member : V → String → Outcome ℤ
  unfolding member_or read_int
  int8_member v name = member_or v name (negsuc 0) (λ w. read_int w >>= λ z. done (to_int8 z))

  uint8_member : V → String → Outcome ℤ
  unfolding member_or read_int
  uint8_member v name =
      member_or v name (negsuc 0) (λ w. read_int w >>= λ z. done (to_int8 (pos (to_byte z))))

  unfoldable pub parse_extrinsics : V → Outcome (ExtParameter F)
  unfolding member_or read_int read_float
  parse_extrinsics v = do
    roll ← member_or v "roll" zero_float read_float
    pitch ← member_or v "pitch" zero_float read_float
    yaw ← member_or v "yaw" zero_float read_float
    x ← member_or v "x" (pos 0) read_int
    y ← member_or v "y" (pos 0) read_int
    z ← member_or v "z" (pos 0) read_int
    done (record { roll = roll; pitch = pitch; yaw = yaw; x = x; y = y; z = z })

  no_extrinsics : ExtParameter F
  no_extrinsics = record {
    roll = zero_float;
    pitch = zero_float;
    yaw = zero_float;
    x = pos 0;
    y = pos 0;
    z = pos 0;
  }

  -- One element of "lidar_configs" that has an "ip".
  unfoldable pub parse_user_config : V → Outcome (UserLivoxLidarConfig F)
  unfolding int8_member uint8_member member_or parse_extrinsics no_extrinsics
  parse_user_config v = do
    ip ← checked (member v "ip")
    name ← checked (get_string ip)
    pcl_data_type ← int8_member v "pcl_data_type"
    pattern_mode ← int8_member v "pattern_mode"
    blind_spot_set ← int8_member v "blind_spot_set"
    dual_emit_en ← uint8_member v "dual_emit_en"
    extrinsic_param ← member_or v "extrinsic_parameter" no_extrinsics parse_extrinsics
    done (record {
      handle = ip_to_num name;
      pcl_data_type = pcl_data_type;
      pattern_mode = pattern_mode;
      blind_spot_set = blind_spot_set;
      dual_emit_en = dual_emit_en;
      extrinsic_param = extrinsic_param;
      set_bits = 0;
    })

  parse_elements : List V → Outcome (List (UserLivoxLidarConfig F))
  unfolding parse_user_config
  parse_elements [] = done []
  parse_elements (v ∷ l) = do
    has ← checked (has_member v "ip")
    elim has [
      | true ↦ parse_user_config v >>= λ c. parse_elements l >>= λ rest. done (c ∷ rest)
      | false ↦ parse_elements l
    ]

  unfoldable pub is_some : List (UserLivoxLidarConfig F) → Bool
  is_some [] = false
  is_some (c ∷ l) = true

  unfoldable pub parse_user_configs : V → Outcome (Bool × List (UserLivoxLidarConfig F))
  unfolding parse_elements is_some
  parse_user_configs doc = do
    configs ← checked (member doc "lidar_configs")
    l ← checked (elements configs)
    parsed ← parse_elements l
    done (is_some parsed, parsed)

  -- `HasMember`, `IsArray` and `Size` of "lidar_configs".
  has_configs : V → Outcome Bool
  has_configs doc = do
    has ← checked (has_member doc "lidar_configs")
    elim has [
      | false ↦ done false
      | true ↦ checked (member doc "lidar_configs") >>= λ configs. elim (is_array configs) [
        | false ↦ done false
        | true ↦ checked (elements configs) >>= λ l. done (not (length l == 0))
      ]
    ]

  -- What `Parse` leaves behind: its result, the configurations and whether the file is closed. The
  -- file is none where it cannot be opened, and a document where it is well formed.
  pub record Parsed : Type 0 where
    pub ok : Bool
    pub configs : List (UserLivoxLidarConfig F)
    pub closed : Bool

  finish_parse : Bool × List (UserLivoxLidarConfig F) → Outcome Parsed
  finish_parse (ok, l) = done (record { ok = ok; configs = l; closed = not ok })

  unfoldable pub parse : Option (Option V) → List (UserLivoxLidarConfig F) → Outcome Parsed
  unfolding has_configs parse_user_configs finish_parse
  parse none configs = done (record { ok = false; configs = configs; closed = true })
  parse (some none) configs = done (record { ok = false; configs = []; closed = true })
  parse (some (some doc)) configs = has_configs doc >>= λ has. elim has [
    | false ↦ done (record { ok = false; configs = []; closed = true })
    | true ↦ parse_user_configs doc >>= finish_parse
  ]

  summary_of : V → Outcome (Option ℕ)
  summary_of object = do
    has ← checked (has_member object "lidar_type")
    elim has [
      | false ↦ done none
      | true ↦ checked (member object "lidar_type") >>= λ w. elim (is_uint w) [
        | false ↦ done none
        | true ↦ checked (get_uint w) >>= λ n. done (some (n % 256))
      ]
    ]

  -- `ParseSummaryInfo`: the type of the LiDAR, a `uint8_t`.
  unfoldable pub parse_summary_info : Option (Option V) → Outcome (Option ℕ)
  unfolding summary_of
  parse_summary_info none = done none
  parse_summary_info (some none) = done none
  parse_summary_info (some (some doc)) = do
    has ← checked (has_member doc "lidar_summary_info")
    elim has [
      | false ↦ done none
      | true ↦ checked (member doc "lidar_summary_info") >>= λ object. elim (is_object object) [
        | false ↦ done none
        | true ↦ summary_of object
      ]
    ]
