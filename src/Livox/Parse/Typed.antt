-- ===== src/Livox/Parse/Typed.antt =====
-- What a well typed element of the configuration gives.
use Prim.Native.String.{String}
use robot_nav.Prelude.{◌≡◌, ◌⊎◌, inl, inr, refl, true, false, some, arith, Option-cases}
use robot_nav.Prelude.Int.{ℤ, pos, negsuc, to_byte, to_int8}
use robot_nav.Livox.Fault.{Outcome, done, ◌>>=◌}
use robot_nav.Livox.Config.{ExtParameter, UserLivoxLidarConfig}
use robot_nav.Livox.Parse.{
  Json, member_or, read_int, read_float, int8_member, uint8_member, parse_extrinsics, no_extrinsics,
  parse_user_config,
}

module _ {F : Type 0} (j : Json F) where
  open j use {V, has_member, member, elements, get_string, get_int}

  -- A member is missing, or there and of the type that is read.
  pub data IsMember {A : Type 0} (v : V) (name : String) (read : V → Outcome A) : Type 0 where
    missing : has_member v name ≡ some false → IsMember v name read
    there :
        (w : V) (a : A)
        → has_member v name ≡ some true
        → member v name ≡ some w
        → read w ≡ done a
        → IsMember v name read

  pub record IsExtrinsics (v : V) : Type 0 where
    pub roll : IsMember v "roll" (read_float j)
    pub pitch : IsMember v "pitch" (read_float j)
    pub yaw : IsMember v "yaw" (read_float j)
    pub x : IsMember v "x" (read_int j)
    pub y : IsMember v "y" (read_int j)
    pub z : IsMember v "z" (read_int j)

  pub record IsConfig (v : V) : Type 0 where
    pub ip : V
    pub name : String
    pub ip_there : has_member v "ip" ≡ some true
    pub ip_member : member v "ip" ≡ some ip
    pub ip_string : get_string ip ≡ some name
    pub pcl_data_type : IsMember v "pcl_data_type" (read_int j)
    pub pattern_mode : IsMember v "pattern_mode" (read_int j)
    pub blind_spot_set : IsMember v "blind_spot_set" (read_int j)
    pub dual_emit_en : IsMember v "dual_emit_en" (read_int j)
    pub extrinsic_parameter :
        (has_member v "extrinsic_parameter" ≡ some false)
        ⊎ ((w : V) × (has_member v "extrinsic_parameter" ≡ some true)
            × (member v "extrinsic_parameter" ≡ some w)
            × IsExtrinsics w)

  member_or_total :
      {A B : Type 0} {v : V} {name : String} (read : V → Outcome A) (d : B) (f : A → Outcome B)
      → ((a : A) → (b : B) × (f a ≡ done b))
      → IsMember v name read
      → (b : B) × (member_or j v name d (λ w. read w >>= f) ≡ done b)
  unfolding member_or
  member_or_total read d f g (missing e) = (d, rw (e, member_or) refl)
  member_or_total read d f g (there w a e m r) =
      let (b, ran) = g a in (b, rw (e, m, r, member_or) ran)

  plain_total :
      {A : Type 0} {v : V} {name : String} (read : V → Outcome A) (d : A)
      → IsMember v name read
      → (a : A) × (member_or j v name d read ≡ done a)
  unfolding member_or
  plain_total read d (missing e) = (d, rw (e, member_or) refl)
  plain_total read d (there w a e m r) = (a, rw (e, m, r, member_or) refl)

  extrinsics_total :
      {v : V} → IsExtrinsics v → (e : ExtParameter F) × (parse_extrinsics j v ≡ done e)
  unfolding parse_extrinsics
  extrinsics_total v =
      let (roll, r1) = plain_total (read_float j) j.zero_float v.roll in
      let (pitch, r2) = plain_total (read_float j) j.zero_float v.pitch in
      let (yaw, r3) = plain_total (read_float j) j.zero_float v.yaw in
      let (x, r4) = plain_total (read_int j) (pos 0) v.x in
      let (y, r5) = plain_total (read_int j) (pos 0) v.y in
      let (z, r6) = plain_total (read_int j) (pos 0) v.z in
      (
        record { roll = roll; pitch = pitch; yaw = yaw; x = x; y = y; z = z },
        rw (r1, r2, r3, r4, r5, r6, parse_extrinsics) refl,
      )

  -- The value of a setting: -1 where it is missing, else the number with its upper bits cut off.
  abbrev pub IsSetting : V → String → ℤ → Type 0
  IsSetting v name value =
      ((has_member v name ≡ some false) × (value ≡ negsuc 0))
      ⊎ ((w : V) × (z : ℤ) × (member v name ≡ some w) × (get_int w ≡ some z) × (value ≡ to_int8 z))

  int_of_read : (w : V) (z : ℤ) → read_int j w ≡ done z → get_int w ≡ some z
  unfolding read_int
  int_of_read w z e = elim (Option-cases (get_int w)) [
    | inl u ↦ let clash = rw u at e in cc
    | inr (a, u) ↦ let same = rw u at e in ground (arith, u)
  ]

  IsSetting-total :
      {v : V} (name : String) (convert : ℤ → ℤ)
      → ((z : ℤ) → convert z ≡ to_int8 z)
      → IsMember v name (read_int j)
      → (z : ℤ) × (member_or j v name (negsuc 0) (λ w. read_int j w >>= λ n. done (convert n))
          ≡ done z)
        × IsSetting v name z
  unfolding member_or
  IsSetting-total name convert g (missing e) = (negsuc 0, rw (e, member_or) refl, inl (e, refl))
  IsSetting-total name convert g (there w a e m r) =
      (convert a, rw (e, m, r, member_or) refl, inr (w, a, m, int_of_read w a r, g a))

  pub record IsRead (v : V) (ip_name : String) (c : UserLivoxLidarConfig F) : Type 0 where
    pub handle : c.handle ≡ j.ip_to_num ip_name
    pub pcl_data_type : IsSetting v "pcl_data_type" c.pcl_data_type
    pub pattern_mode : IsSetting v "pattern_mode" c.pattern_mode
    pub blind_spot_set : IsSetting v "blind_spot_set" c.blind_spot_set
    pub dual_emit_en : IsSetting v "dual_emit_en" c.dual_emit_en
    pub idle : c.set_bits ≡ 0

  extrinsic_member_total :
      {v : V} (d : ExtParameter F)
      → (has_member v "extrinsic_parameter" ≡ some false)
        ⊎ ((w : V) × (has_member v "extrinsic_parameter" ≡ some true)
            × (member v "extrinsic_parameter" ≡ some w)
            × IsExtrinsics w)
      → (e : ExtParameter F) × (member_or j v "extrinsic_parameter" d (parse_extrinsics j) ≡ done e)
  unfolding member_or
  extrinsic_member_total d (inl e) = (d, rw (e, member_or) refl)
  extrinsic_member_total d (inr (w, e, m, x)) =
      let (p, ran) = extrinsics_total x in (p, rw (e, m, ran, member_or) refl)

  byte_twice : (z : ℤ) → to_int8 (pos (to_byte z)) ≡ to_int8 z
  byte_twice (pos n) = ground arith
  byte_twice (negsuc n) = ground arith

  -- A well typed element with an "ip" is read with no failed assertion: each of its settings is -1 where
  -- it is missing and else the lowest byte of its number, as a signed one; the handle is that of the
  -- "ip", and no setting is under way.
  pub parse_user_config_lem :
      (v : V) (c : IsConfig v)
      → (config : UserLivoxLidarConfig F) × (parse_user_config j v ≡ done config)
        × IsRead v (c.name) config
  unfolding parse_user_config int8_member uint8_member
  parse_user_config_lem v c =
      let (a1, r1, s1) =
        IsSetting-total "pcl_data_type" (λ z. to_int8 z) (λ z. refl) c.pcl_data_type in
      let (a2, r2, s2) =
        IsSetting-total "pattern_mode" (λ z. to_int8 z) (λ z. refl) c.pattern_mode in
      let (a3, r3, s3) =
        IsSetting-total "blind_spot_set" (λ z. to_int8 z) (λ z. refl) c.blind_spot_set in
      let (a4, r4, s4) =
        IsSetting-total "dual_emit_en" (λ z. to_int8 (pos (to_byte z))) byte_twice c.dual_emit_en in
      let (e, r5) = extrinsic_member_total (no_extrinsics j) c.extrinsic_parameter in
      (
        record {
          handle = j.ip_to_num c.name;
          pcl_data_type = a1;
          pattern_mode = a2;
          blind_spot_set = a3;
          dual_emit_en = a4;
          extrinsic_param = e;
          set_bits = 0;
        },
        rw
            (
              c.ip_member, c.ip_string, r1, r2, r3, r4, r5, parse_user_config, int8_member,
              uint8_member,
            )
            refl,
        record {
          handle = refl;
          pcl_data_type = s1;
          pattern_mode = s2;
          blind_spot_set = s3;
          dual_emit_en = s4;
          idle = refl;
        },
      )
