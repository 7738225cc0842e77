-- ===== src/Livox/Parse/Configs.antt =====
-- What a well typed document gives: the configurations, the result and the file.
use Prim.Native.String.{String}
use robot_nav.Prelude.{
  ℕ, ◌-◌, ◌<◌, ◌≤◌, ◌≡◌, ◌⊎◌, inl, inr, refl, sym, ap, ◌∙◌, ◌==◌, true, false, not, some, List, [],
  ◌∷◌, arith, length, All,
}
use robot_nav.Prelude.Int.{ℤ, pos, negsuc, to_int8}
use robot_nav.Livox.Fault.{done}
use robot_nav.Livox.Config.{UserLivoxLidarConfig}
use robot_nav.Livox.Parse.Typed.{IsConfig, IsRead, parse_user_config_lem}
use mathlib.Core.Option.{some-injective}
use robot_nav.Livox.Parse.{
  Json, parse_user_config, parse_elements, is_some, parse_user_configs, finish_parse, has_configs,
  parse,
}

upper_half : (n : ℕ) → 128 ≤ n → n < 256 → to_int8 (pos n) ≡ negsuc (255 - n)
upper_half n h h' = ground arith

module _ {F : Type 0} (j : Json F) where
  open j use {V, has_member, member, elements, get_int}

  -- An element with no "ip", which is passed over, or a well typed one.
  pub data IsElement (v : V) : Type 0 where
    skipped : has_member v "ip" ≡ some false → IsElement v
    element : IsConfig j v → IsElement v

  -- One configuration for each element with an "ip", in their order.
  abbrev pub Reads : List V → List (UserLivoxLidarConfig F) → Type 0
  Reads [] [] = Unit
  Reads [] (c ∷ cs) = ⊥
  Reads (v ∷ l) [] = (has_member v "ip" ≡ some false) × Reads l []
  Reads (v ∷ l) (c ∷ cs) =
      ((has_member v "ip" ≡ some false) × Reads l (c ∷ cs))
      ⊎ ((has_member v "ip" ≡ some true) × ((name : String) × IsRead j v name c) × Reads l cs)

  skip-Reads :
      (v : V) (l : List V) (cs : List (UserLivoxLidarConfig F))
      → has_member v "ip" ≡ some false
      → Reads l cs
      → Reads (v ∷ l) cs
  skip-Reads v l [] e r = (e, r)
  skip-Reads v l (c ∷ cs) e r = inl (e, r)

  elements_total :
      (l : List V)
      → All IsElement l
      → (cs : List (UserLivoxLidarConfig F)) × (parse_elements j l ≡ done cs) × Reads l cs
  unfolding parse_elements
  elements_total [] all = ([], refl, tt)
  elements_total (v ∷ l) (skipped e, all) =
      let (cs, ran, r) = elements_total l all in
      (cs, rw (e, parse_elements) ran, skip-Reads v l cs e r)
  elements_total (v ∷ l) (element c, all) =
      let (config, ran, read) = parse_user_config_lem j v c in
      let (cs, ran', r) = elements_total l all in
      (
        config ∷ cs,
        rw (c.ip_there, ran, ran', parse_elements) refl,
        inr (c.ip_there, (c.name, read), r),
      )

  pub record IsDocument (doc : V) (l : List V) : Type 0 where
    pub configs : V
    pub there : has_member doc "lidar_configs" ≡ some true
    pub here : member doc "lidar_configs" ≡ some configs
    pub array : j.is_array configs ≡ true
    pub all : elements configs ≡ some l
    pub some_element : 0 < length l
    pub typed : All IsElement l

  read_configs :
      {doc : V} {l : List V} (d : IsDocument doc l) {cs : List (UserLivoxLidarConfig F)}
      → parse_elements j l ≡ done cs
      → parse_user_configs j doc ≡ done (is_some j cs, cs)
  unfolding parse_user_configs
  read_configs d ran = rw (d.here, d.all, ran, parse_user_configs) refl

  -- A document whose "lidar_configs" is an array that is not empty, of well typed elements, is read with
  -- no failed assertion: there is one configuration for each element with an "ip", in their order, and
  -- the call succeeds exactly where there is one. Then, and only then, the file is left open.
  pub parse_lem :
      (doc : V) (l : List V) (old : List (UserLivoxLidarConfig F))
      → IsDocument doc l
      → (cs : List (UserLivoxLidarConfig F)) × (parse j (some (some doc)) old
          ≡ done (record { ok = is_some j cs; configs = cs; closed = not (is_some j cs) }))
        × Reads l cs
  unfolding parse has_configs finish_parse
  parse_lem doc l old d =
      let (cs, ran, r) = elements_total l d.typed in
      let more : (length l == 0) ≡ false = ground (arith, d.some_element) in
      (
        cs,
        rw
            (
              d.there,
              d.here,
              d.array,
              d.all,
              more,
              parse,
              has_configs,
              read_configs d ran,
              finish_parse,
            )
            refl,
        r,
      )

  -- A blind spot of 128 to 255 that the user asks for is stored as a negative number, and one of 255 as
  -- -1, which asks for nothing.
  pub blind_spot_wraps :
      (v w : V) (c : IsConfig j v) (n : ℕ)
      → has_member v "blind_spot_set" ≡ some true
      → member v "blind_spot_set" ≡ some w
      → get_int w ≡ some (pos n)
      → 128 ≤ n
      → n < 256
      → (config : UserLivoxLidarConfig F) × (parse_user_config j v ≡ done config)
        × (config.blind_spot_set ≡ negsuc (255 - n))
  blind_spot_wraps v w c n has m g h h' =
      let (config, ran, read) = parse_user_config_lem j v c in
      (
        config,
        ran,
        elim read.blind_spot_set [
          | inl (e, _) ↦ let clash : some false ≡ some true = sym e ∙ has in cc
          | inr (w', z, m', g', value) ↦
              let w_eq = some-injective w' w (sym m' ∙ m) in
              let z_eq = some-injective z (pos n) (sym g' ∙ ap get_int w_eq ∙ g) in
              value ∙ ap (λ (x : ℤ). to_int8 x) z_eq ∙ upper_half n h h'
        ],
      )
