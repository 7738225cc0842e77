-- ===== src/Livox/Tests/Document.antt =====
-- A document with one device, whose blind spot is 200 and whose "ip" stands for 42.
use Prim.Native.String.{String}
use text.Mathlib.Text.{◌==◌}
use robot_nav.Prelude.{
  ℕ, ◌≡◌, refl, inl, Bool, true, false, not, Option, none, some, List, [], ◌∷◌, arith,
  if◌then◌else◌,
}
use robot_nav.Prelude.Int.{ℤ, pos}
use robot_nav.Livox.Fault.{done}
use robot_nav.Livox.Config.{UserLivoxLidarConfig}
use robot_nav.Livox.Parse.{Json, read_int, parse, parse_user_config, is_some}
use robot_nav.Livox.Parse.Typed.{missing, there, IsConfig, IsRead, parse_user_config_lem}
use robot_nav.Livox.Parse.Configs.{IsDocument, element, parse_lem, Reads}

data Node : Type 0 where
  root configs config ip blind : Node

abbrev member_of : Node → String → Option Node
member_of root name = if name == "lidar_configs" then some configs else none
member_of config name =
    if name == "ip" then some ip else if name == "blind_spot_set" then some blind else none
member_of configs name = none
member_of ip name = none
member_of blind name = none

abbrev has : Option Node → Bool
has none = false
has (some v) = true

abbrev elements_of : Node → Option (List Node)
elements_of configs = some (config ∷ [])
elements_of root = none
elements_of config = none
elements_of ip = none
elements_of blind = none

abbrev text_of : Node → Option String
text_of ip = some "192.168.1.12"
text_of root = none
text_of configs = none
text_of config = none
text_of blind = none

abbrev number_of : Node → Option ℤ
number_of blind = some (pos 200)
number_of root = none
number_of configs = none
number_of config = none
number_of ip = none

abbrev json : Json ℕ
json = record {
  V = Node;
  has_member = λ v name. some (has (member_of v name));
  member = member_of;
  is_array = λ v. elim (elements_of v) [ none ↦ false | some l ↦ true ];
  is_object = λ v. true;
  is_uint = λ v. false;
  elements = elements_of;
  get_string = text_of;
  get_int = number_of;
  get_uint = λ v. none;
  get_float = λ v. none;
  zero_float = 0;
  ip_to_num = λ name. 42;
}

config_typed : IsConfig json config
unfolding read_int
config_typed = record {
  ip = ip;
  name = "192.168.1.12";
  ip_there = refl;
  ip_member = refl;
  ip_string = refl;
  pcl_data_type = missing refl;
  pattern_mode = missing refl;
  blind_spot_set = there blind (pos 200) refl refl refl;
  dual_emit_en = missing refl;
  extrinsic_parameter = inl refl;
}

document : IsDocument json root (config ∷ [])
document = record {
  configs = configs;
  there = refl;
  here = refl;
  array = refl;
  all = refl;
  some_element = omega arith;
  typed = (element config_typed, tt);
}

parse_user_config_lem_example :
    (c : UserLivoxLidarConfig ℕ) × (parse_user_config json config ≡ done c)
    × IsRead json config (config_typed.name) c
parse_user_config_lem_example = parse_user_config_lem json config config_typed

parse_lem_example :
    (cs : List (UserLivoxLidarConfig ℕ)) × (parse json (some (some root)) []
      ≡ done (record { ok = is_some json cs; configs = cs; closed = not (is_some json cs) }))
    × Reads json (config ∷ []) cs
parse_lem_example = parse_lem json root (config ∷ []) [] document
