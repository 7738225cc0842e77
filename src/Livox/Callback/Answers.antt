-- ===== src/Livox/Callback/Answers.antt =====
-- The answers of the SDK to the settings of one device, in any order and number.
use Prim.Native.Nat.{bit_and}
use robot_nav.Prelude.{
  ℕ, ◌-◌, ◌^◌, ◌≡◌, refl, sym, ap, ◌∙◌, inl, inr, Bool, true, false, not, ◌&&◌, ◌||◌, some, All,
  List, [], ◌∷◌, arith, get_elem?, set, get_elem?-set_self, set_same, set_twice,
  inside_of_get_elem?, ◌==◌, if◌then◌else◌, Bool-cases, ==_iff,
}
use robot_nav.Livox.Fault.{Outcome, done, ◌>>=◌}
use robot_nav.Livox.Config.{Setting, bit_of}
use robot_nav.Livox.CacheIndex.{get_index, livox_lidar_type}
use robot_nav.Livox.Lds.Defs.{Lds, LidarDevice, LidarConnectState, sampling, device}
use robot_nav.Livox.Callback.{
  Request, Status, success, timeout, failure, request, get_lidar_device, clear_setting,
  answer_setting, set_setting_callback,
}
use robot_nav.Livox.Callback.Flags.{
  Flags, encode, same_setting, lower, bit_and-encode, encode_cong, encode_none, none_of_encode,
}

-- The setting, the status, and whether the response is not null.
abbrev pub Answer : Type 0
Answer = Setting × Status × Bool

-- An error but a timeout comes with a response.
abbrev pub HasResponse : Answer → Type 0
HasResponse (s, success, response) = Unit {0}
HasResponse (s, timeout, response) = Unit {0}
HasResponse (s, failure, response) = response ≡ true

abbrev pub succeeds : Setting → Answer → Bool
succeeds t (s, success, response) = same_setting s t
succeeds t (s, timeout, response) = false
succeeds t (s, failure, response) = false

abbrev pub succeeded : List Answer → Setting → Bool
succeeded [] t = false
succeeded (a ∷ l) t = succeeds t a || succeeded l t

-- The settings of `f` that no answer has granted.
abbrev pub still : Flags → List Answer → Flags
still f l t = f t && not (succeeded l t)

abbrev pub any_success : List Answer → Bool
any_success [] = false
any_success ((s, success, response) ∷ l) = true
any_success ((s, timeout, response) ∷ l) = any_success l
any_success ((s, failure, response) ∷ l) = any_success l

-- The device is ready where some setting was granted and none is left.
abbrev pub is_ready : Flags → List Answer → Bool
is_ready f l = any_success l && encode (still f l) == 0

still_success :
    (f : Flags) (s : Setting) (response : Bool) (l : List Answer) (t : Setting)
    → still (lower s f) l t ≡ still f ((s, success, response) ∷ l) t
still_success f s response l t = ground arith

no_success : (l : List Answer) → any_success l ≡ false → (t : Setting) → succeeded l t ≡ false
no_success [] e t = refl
no_success ((s, success, response) ∷ l) e t = cc
no_success ((s, timeout, response) ∷ l) e t = no_success l e t
no_success ((s, failure, response) ∷ l) e t = no_success l e t

still_zero : (f : Flags) (l : List Answer) → encode f ≡ 0 → encode (still f l) ≡ 0
still_zero f l e = encode_none (still f l) (λ (t : Setting). ground (arith, none_of_encode f e t))

still_no_success :
    (f : Flags) (l : List Answer) → any_success l ≡ false → encode (still f l) ≡ encode f
still_no_success f l e =
    encode_cong (still f l) f (λ (t : Setting). ground (arith, no_success l e t))

-- A choice by `a && z` before one by `w` is one by `z`, where `w` gives `z` and, without `a`, is `z`.
joined_tests :
    {A : Type 0} (a z w : Bool) (s c : A)
    → (w ≡ true → z ≡ true)
    → (a ≡ false → z ≡ w)
    → (if a && z then s else (if w then s else c)) ≡ (if z then s else c)
joined_tests true true w s c up same = refl
joined_tests true false true s c up same = cc (up refl)
joined_tests true false false s c up same = refl
joined_tests false z w s c up same =
    rw (same refl) (elim (Bool-cases w) [ inl e ↦ rw e refl | inr e ↦ rw e refl ])

-- Once ready a device stays so; a success that leaves no setting makes it ready.
ready_step :
    (s : Setting) (response : Bool) (l : List Answer) (f : Flags) (c : LidarConnectState)
    → (if is_ready (lower s f) l
        then sampling
        else (if encode (lower s f) == 0 then sampling else c))
      ≡ (if is_ready f ((s, success, response) ∷ l) then sampling else c)
ready_step s response l f c =
    let same =
      encode_cong (still (lower s f) l) (still f ((s, success, response) ∷ l))
        (still_success f s response l) in
    joined_tests (any_success l) (encode (still (lower s f) l) == 0) (encode (lower s f) == 0)
      sampling c (λ e. (==_iff _ 0).1 (still_zero (lower s f) l ((==_iff _ 0).0 e)))
      (λ e. ap (λ (n : ℕ). n == 0) (still_no_success (lower s f) l e))
    ∙ ap (λ (n : ℕ). if n == 0 then sampling else c) same

module _ {P F : Type 0} where
  abbrev answer_device : Answer → LidarDevice P F → LidarDevice P F
  answer_device (s, success, response) d = clear_setting s d
  answer_device (s, timeout, response) d = d
  answer_device (s, failure, response) d = d

  abbrev pub answer_all : List Answer → LidarDevice P F → LidarDevice P F
  answer_all [] d = d
  answer_all (a ∷ l) d = answer_all l (answer_device a d)

  abbrev pub bits : LidarDevice P F → ℕ
  bits d = d.livox_config.set_bits

  masked :
      (s : Setting) (d : LidarDevice P F) (f : Flags)
      → bits d ≡ encode f
      → bit_and (bits d) (2 ^ 32 - 1 - bit_of s) ≡ encode (lower s f)
  masked s d f e = ap (λ (b : ℕ). bit_and b (2 ^ 32 - 1 - bit_of s)) e ∙ bit_and-encode s f

  cleared_bits :
      (s : Setting) (d : LidarDevice P F) (f : Flags)
      → bits d ≡ encode f
      → bits (clear_setting s d) ≡ encode (lower s f)
  unfolding clear_setting
  cleared_bits s d f e = elim (Bool-cases (bit_and (bits d) (2 ^ 32 - 1 - bit_of s) == 0)) [
    | inl none_left ↦ rw (none_left, clear_setting) (masked s d f e)
    | inr some_left ↦ rw (some_left, clear_setting) (masked s d f e)
  ]

  cleared_state :
      (s : Setting) (d : LidarDevice P F) (f : Flags)
      → bits d ≡ encode f
      → (clear_setting s d).connect_state
        ≡ (if encode (lower s f) == 0 then sampling else d.connect_state)
  unfolding clear_setting
  cleared_state s d f e =
      rw (← masked s d f e) (elim (Bool-cases (bit_and (bits d) (2 ^ 32 - 1 - bit_of s) == 0)) [
        | inl none_left ↦ rw (none_left, clear_setting) refl
        | inr some_left ↦ rw (some_left, clear_setting) refl
      ])

  pub answered_bits :
      (l : List Answer) (d : LidarDevice P F) (f : Flags)
      → bits d ≡ encode f
      → bits (answer_all l d) ≡ encode (still f l)
  answered_bits [] d f e = e ∙ encode_cong f (still f []) (λ (t : Setting). ground arith)
  answered_bits ((s, success, response) ∷ l) d f e =
      answered_bits l (clear_setting s d) (lower s f) (cleared_bits s d f e)
      ∙ encode_cong (still (lower s f) l) (still f ((s, success, response) ∷ l))
          (still_success f s response l)
  answered_bits ((s, timeout, response) ∷ l) d f e = answered_bits l d f e
  answered_bits ((s, failure, response) ∷ l) d f e = answered_bits l d f e

  pub answered_state :
      (l : List Answer) (d : LidarDevice P F) (f : Flags)
      → bits d ≡ encode f
      → (answer_all l d).connect_state ≡ (if is_ready f l then sampling else d.connect_state)
  answered_state [] d f e = refl
  answered_state ((s, success, response) ∷ l) d f e =
      answered_state l (clear_setting s d) (lower s f) (cleared_bits s d f e)
      ∙ ap (λ (c : LidarConnectState). if is_ready (lower s f) l then sampling else c)
          (cleared_state s d f e)
      ∙ ready_step s response l f d.connect_state
  answered_state ((s, timeout, response) ∷ l) d f e = answered_state l d f e
  answered_state ((s, failure, response) ∷ l) d f e = answered_state l d f e

  -- The calls by which the SDK answers, one after another; what they send is left to it.
  unfoldable pub answer_calls : List Answer → Lds P F → ℕ → Outcome (Lds P F)
  answer_calls [] s h = done s
  answer_calls ((setting, status, response) ∷ l) s h =
      set_setting_callback setting s status h response >>= λ (s', sent). answer_calls l s' h

  -- The data source with another device at an index.
  abbrev pub put_device : Lds P F → ℕ → LidarDevice P F → Lds P F
  put_device s i d = record s { lidars = set s.lidars i d }

  put_same :
      (s : Lds P F) (i : ℕ) (d : LidarDevice P F)
      → get_elem? s.lidars i ≡ some d
      → s ≡ put_device s i d
  put_same s i d at =
      ap (λ (l : List (LidarDevice P F)). record s { lidars = l }) (sym (set_same s.lidars i d at))

  -- The table knows the handle, at the index of this device.
  pub record Knows (s : Lds P F) (h i : ℕ) (d : LidarDevice P F) : Type 0 where
    pub index : get_index s.cache_index livox_lidar_type h ≡ some i
    pub here : get_elem? s.lidars i ≡ some d

  pub found :
      {s : Lds P F} {h i : ℕ} {d : LidarDevice P F}
      → Knows s h i d
      → get_lidar_device s h ≡ done (some (i, d))
  unfolding get_lidar_device
  found k = rw (k.index, k.here, get_lidar_device, device) refl

  pub put-Knows :
      {s : Lds P F} {h i : ℕ} {d : LidarDevice P F} (e : LidarDevice P F)
      → Knows s h i d
      → Knows (put_device s i e) h i e
  put-Knows {s} {i = i} e k = record {
    index = k.index;
    here = get_elem?-set_self s.lidars i e (inside_of_get_elem? s.lidars i k.here);
  }

  one_answer :
      (setting : Setting) (status : Status) (response : Bool) {s : Lds P F} {h i : ℕ}
      {d : LidarDevice P F}
      → HasResponse (setting, status, response)
      → Knows s h i d
      → (sent : List (Request F)) × (set_setting_callback setting s status h response
          ≡ done (put_device s i (answer_device (setting, status, response) d), sent))
  unfolding set_setting_callback answer_setting
  one_answer setting success response {s} {h} {i} {d} e k =
      ([], rw (found k, set_setting_callback) refl)
  one_answer setting timeout response {s} {h} {i} {d} e k = (
    request h d.livox_config setting ∷ [],
    rw (found k, set_setting_callback)
        (ap (λ (s' : Lds P F). done (s', request h d.livox_config setting ∷ []))
          (put_same s i d k.here)),
  )
  one_answer setting failure response {s} {h} {i} {d} e k = (
    [],
    rw (found k, e, set_setting_callback)
        (ap (λ (s' : Lds P F). done (s', [])) (put_same s i d k.here)),
  )

  pub answer_calls_lem :
      (l : List Answer) {s : Lds P F} {h i : ℕ} {d : LidarDevice P F}
      → All HasResponse l
      → Knows s h i d
      → answer_calls l s h ≡ done (put_device s i (answer_all l d))
  unfolding answer_calls
  answer_calls_lem [] {s} {h} {i} {d} all k = ap done (put_same s i d k.here)
  answer_calls_lem ((setting, status, response) ∷ l) {s} {h} {i} {d} (has, all) k =
      let (sent, ran) = one_answer setting status response has k in
      let d' = answer_device (setting, status, response) d in
      rw (ran, answer_calls)
        (answer_calls_lem l all (put-Knows d' k)
          ∙ ap (λ (x : List (LidarDevice P F)). done (record s { lidars = x }))
              (set_twice s.lidars i d' (answer_all l d')))
