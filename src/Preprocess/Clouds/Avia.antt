-- ===== src/Preprocess/Clouds/Avia.antt =====
-- The handler of custom messages, with no extraction of features.
use native.Mathlib.Nat.{mod-add-mod, mod-eq_of_lt}
use mathlib.Core.List.{append-nil}
use robot_nav.Prelude.{
  ℕ, zero, suc, ◌+◌, ◌-◌, ◌%◌, ◌≤◌, ◌<◌, ◌≡◌, refl, sym, ap, ◌∙◌, ◌⊎◌, inl, inr, Bool, true, false,
  not, ◌&&◌, some, List, [], ◌∷◌, ◌++◌, arith, length, get_elem?, drop, replicate, length-replicate,
  ◌==◌, ==_iff, Bool-cases, if_false, if◌then◌else◌,
}
use robot_nav.Livox.Fault.{done, bind_done, Returns, returns, Returns-bind, Returns_value}
use robot_nav.Livox.Lddc.Messages.{CustomPoint, CustomMsg}
use robot_nav.Preprocess.Arrays.{HasLength, write-HasLength, drop_all}
use robot_nav.Preprocess.{Reals, PointType, Preprocess, blank, is_far}
use robot_nav.Preprocess.Clouds
use robot_nav.Preprocess.Clouds.Decimated.{taken, decimate_from-Owes}

clear_from-HasLength :
    {P : Type 0} (n i size : ℕ) (buff : List (List P))
    → i + n ≤ size
    → length buff ≡ size
    → Returns (HasLength size) (Clouds.clear_from n i buff)
unfolding Clouds.clear_from
clear_from-HasLength zero i size buff h e = returns e
clear_from-HasLength (suc n) i size buff h e =
    Returns-bind (write-HasLength buff i size [] e (omega arith))
      λ buff' e'. clear_from-HasLength n (i + 1) size buff' (omega arith) e'

get_elem?-replicate : {A : Type 0} (n i : ℕ) (a : A) → i < n → get_elem? (replicate n a) i ≡ some a
get_elem?-replicate zero i a h = absurd (omega arith)
get_elem?-replicate (suc n) zero a h = refl
get_elem?-replicate (suc n) (suc i) a h = get_elem?-replicate n i a (omega arith)

-- Numbers that follow one another are not both multiples of a number above 1.
next_multiple : (a k : ℕ) → 2 ≤ k → a % k ≡ 0 → ((a + 1) % k == 0) ≡ false
next_multiple a k h e =
    let one_more : 1 % k ≡ (a + 1) % k = rw e at (mod-add-mod a k 1) in
    let is_one : (a + 1) % k ≡ 1 = sym one_more ∙ mod-eq_of_lt (omega arith) in rw is_one refl

true_ne_false : {b : Bool} → b ≡ true → b ≡ false → ⊥
true_ne_false e f = cc

module _ (re : Reals) where
  open re use {F, D}

  -- Every `filter_num`-th of the valid points, if it lies beyond the blind zone and is not a blank one.
  pub spaced : ℕ → ℕ → D → ℕ → List (CustomPoint F) → List (PointType F)
  spaced n_scans filter_num blind count [] = []
  spaced n_scans filter_num blind count (p ∷ pts) =
      let q = Clouds.custom_to_point re p in
      let later = spaced n_scans filter_num blind (count + 1) pts in
      let unchanged = spaced n_scans filter_num blind count pts in
      let chosen = (count + 1) % filter_num == 0 in
      if not (Clouds.is_valid_point re n_scans p)
      then unchanged
      else if chosen && Clouds.differs re q (blank re) && is_far re blind q
      then q ∷ later
      else later

  taken_spaced :
      (n_scans k : ℕ) (blind : D) (count : ℕ) (before : PointType F) (pts : List (CustomPoint F))
      → 2 ≤ k
      → (before ≡ blank re) ⊎ (count % k ≡ 0)
      → taken re n_scans k blind count before pts ≡ spaced n_scans k blind count pts
  unfolding taken spaced
  taken_spaced n_scans k blind count before [] h w = refl
  taken_spaced n_scans k blind count before (p ∷ pts) h w =
      let q = Clouds.custom_to_point re p in
      let b = blank re in
      elim (Bool-cases (Clouds.is_valid_point re n_scans p)) [
        | inr v ↦ rw v (taken_spaced n_scans k blind count b pts h (inl refl))
        | inl v ↦ elim (Bool-cases ((count + 1) % k == 0)) [
          | inr c ↦ rw (v, c) (taken_spaced n_scans k blind (count + 1) b pts h (inl refl))
          | inl c ↦
              let multiple = (==_iff ((count + 1) % k) 0).0 c in
              let later = taken_spaced n_scans k blind (count + 1) q pts h (inr multiple) in
              elim w [
                | inl e ↦ rw (v, c, later, ap (λ x. Clouds.differs re q x) e) refl
                | inr e ↦ absurd (true_ne_false c (next_multiple count k h e))
              ]
        ]
      ]

  from_start :
      (msg : CustomMsg F) (s : Preprocess F D)
      → 0 < s.point_filter_num
      → s.pl_full ≡ replicate msg.point_num (blank re)
      → length msg.points ≡ msg.point_num
      → Returns
          (λ (w : ℕ × Preprocess F D).
            w.1.pl_surf
            ≡ s.pl_surf
              ++ taken re s.n_scans s.point_filter_num s.blind 0 (blank re) (drop 1 msg.points))
          (Clouds.decimate_from re msg.points (msg.point_num - 1) 1 (0, s))
  unfolding Clouds.decimate_from taken
  from_start msg s positive full whole = elim (Bool-cases (msg.point_num == 0)) [
    | inl e ↦
        let zero_points = (==_iff msg.point_num 0).0 e in
        let no_rounds : msg.point_num - 1 ≡ 0 = omega arith in
        rw (no_rounds, drop_all msg.points 1 (omega arith)) (returns (sym (append-nil s.pl_surf)))
    | inr e ↦
        let some_points : 0 < msg.point_num = ground arith in
        let n = msg.point_num in
        let blank_at : (m : ℕ) → m < n → get_elem? s.pl_full m ≡ some (blank re) =
          λ m h. rw full (get_elem?-replicate n m (blank re) h) in
        decimate_from-Owes re s.n_scans s.point_filter_num s.blind n positive msg.points whole
          (n - 1) 1 (blank re) (0, s) (omega arith) (omega arith)
          (record {
            scans = refl;
            filter = refl;
            zone = refl;
            size_is = rw full (length-replicate n (blank re));
            entry = blank_at 0 some_points;
            rest = λ m low high. blank_at m high;
          })
  ]

  -- With no extraction of features, a filter that is not 0, a buffer for each line and a message of as many
  -- points as it announces, a custom message is handled with no fault: the cloud is every point, but the
  -- first of the message, whose number among the valid ones is a multiple of the filter, if it lies beyond
  -- the blind zone and is not at the place of the point before it, in their order. A point that was not
  -- itself chosen counts as a blank one there.
  pub avia_handler_lem :
      (msg : CustomMsg F) (s : Preprocess F D)
      → s.feature_enabled ≡ false
      → 0 < s.point_filter_num
      → s.n_scans ≤ length s.pl_buff
      → length msg.points ≡ msg.point_num
      → (s' : Preprocess F D) × (Clouds.avia_handler re msg s ≡ done (some s'))
        × (s'.pl_surf
            ≡ taken re s.n_scans s.point_filter_num s.blind 0 (blank re) (drop 1 msg.points))
  unfolding Clouds.avia_handler
  avia_handler_lem msg s off positive lines whole =
      let (buff, eb, _) =
        Returns_value
          (clear_from-HasLength s.n_scans 0 (length s.pl_buff) s.pl_buff (omega arith) refl) in
      let s1 : Preprocess F D = record (Clouds.cleared s) {
        pl_full = replicate msg.point_num (blank re);
        pl_buff = buff;
      } in
      let (w, ew, surf) = Returns_value (from_start msg s1 positive refl whole) in
      (w.1, bind_done _ eb ∙ if_false _ _ off ∙ bind_done _ ew, surf)

  -- Likewise with a filter of at least 2: a point is compared with a blank one, and never with the point before
  -- it, so that points at one place are all taken.
  pub avia_handler-spaced :
      (msg : CustomMsg F) (s : Preprocess F D)
      → s.feature_enabled ≡ false
      → 2 ≤ s.point_filter_num
      → s.n_scans ≤ length s.pl_buff
      → length msg.points ≡ msg.point_num
      → (s' : Preprocess F D) × (Clouds.avia_handler re msg s ≡ done (some s'))
        × (s'.pl_surf ≡ spaced s.n_scans s.point_filter_num s.blind 0 (drop 1 msg.points))
  avia_handler-spaced msg s off two lines whole =
      let (s', e, surf) = avia_handler_lem msg s off (omega arith) lines whole in
      let same =
        taken_spaced s.n_scans s.point_filter_num s.blind 0 (blank re) (drop 1 msg.points) two
          (inl refl) in
      (s', e, surf ∙ same)
