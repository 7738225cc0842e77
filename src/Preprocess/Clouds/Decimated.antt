-- ===== src/Preprocess/Clouds/Decimated.antt =====
-- Which points of a custom message are taken, with no extraction of features: an account of the handler with
-- no array and no indices.
use robot_nav.Prelude.{
  ℕ, zero, suc, ◌+◌, ◌-◌, ◌%◌, ◌≤◌, ◌<◌, ◌≡◌, refl, sym, ap, ◌∙◌, inl, inr, Bool, true, false, not,
  ◌&&◌, some, List, [], ◌∷◌, ◌++◌, arith, length, length-set, get_elem?, get_elem?-set_ne,
  get_elem?-set_self, set, drop, lt→ltb, ◌==◌, Bool-cases, if◌then◌else◌,
}
use mathlib.Core.List.{append_assoc, append-nil}
use robot_nav.Livox.Fault.{done, Returns, returns, Returns-map, Returns-bind}
use robot_nav.Livox.Lddc.Messages.{CustomPoint}
use robot_nav.Preprocess.Arrays.{read-IsAt, drop_all, read_some}
use robot_nav.Preprocess.{Reals, PointType, Preprocess, blank, is_far}
use robot_nav.Preprocess.Clouds

module _ (re : Reals) (n_scans filter_num : ℕ) (blind : re.D) where
  open re use {F, D}

  -- The points taken of a list, where `count` valid points came before, and `before` stands for the point
  -- before the first one: the point, if it was a multiple of the filter, and else a blank one.
  unfoldable pub taken : ℕ → PointType F → List (CustomPoint F) → List (PointType F)
  taken count before [] = []
  taken count before (p ∷ pts) =
      let q = Clouds.custom_to_point re p in
      let chosen = (count + 1) % filter_num == 0 in
      let later = taken (count + 1) (if chosen then q else blank re) pts in
      let unchanged = taken count (blank re) pts in
      if not (Clouds.is_valid_point re n_scans p)
      then unchanged
      else if chosen && Clouds.differs re q before && is_far re blind q
      then q ∷ later
      else later

  -- The options that stay as they are, the number of entries of the unfiltered cloud, the entry before i,
  -- and those from i on, which are blank.
  pub record Fits (size i : ℕ) (before : PointType F) (s : Preprocess F D) : Type 0 where
    pub scans : s.n_scans ≡ n_scans
    pub filter : s.point_filter_num ≡ filter_num
    pub zone : s.blind ≡ blind
    pub size_is : length s.pl_full ≡ size
    pub entry : get_elem? s.pl_full (i - 1) ≡ some before
    pub rest : (m : ℕ) → i ≤ m → m < size → get_elem? s.pl_full m ≡ some (blank re)

  -- What a round owes to the cloud is what is taken of the points that are left.
  abbrev Owes : ℕ → ℕ → List (CustomPoint F) → List (PointType F) → ℕ × Preprocess F D → Type 0
  Owes size i pts goal (count, s') =
      (before : PointType F) × Fits size i before s' × (s'.pl_surf ++ taken count before pts ≡ goal)

  module _ (size : ℕ) (positive : 0 < filter_num) where
    -- The entry of a point that is not written stays blank.
    skipped :
        (i : ℕ) (before : PointType F) (s : Preprocess F D)
        → i < size
        → Fits size i before s
        → Fits size (i + 1) (blank re) s
    skipped i before s h fits = record {
      scans = fits.scans;
      filter = fits.filter;
      zone = fits.zone;
      size_is = fits.size_is;
      entry = let same : i + 1 - 1 ≡ i = omega arith in rw same (fits.rest i (omega arith) h);
      rest = λ m low high. fits.rest m (omega arith) high;
    }

    written :
        (i : ℕ) (before q : PointType F) (surf : List (PointType F)) (s : Preprocess F D)
        → i < size
        → Fits size i before s
        → Fits size (i + 1) q (record s { pl_full = set s.pl_full i q; pl_surf = surf })
    written i before q surf s h fits = record {
      scans = fits.scans;
      filter = fits.filter;
      zone = fits.zone;
      size_is = length-set s.pl_full i q ∙ fits.size_is;
      entry =
          let same : i + 1 - 1 ≡ i = omega arith in
          rw same (get_elem?-set_self s.pl_full i q (omega (arith, fits.size_is)));
      rest = λ m low high.
          get_elem?-set_ne s.pl_full i m q (λ e. absurd (omega arith))
          ∙ fits.rest m (omega arith) high;
    }

    -- Whether the point is put into the cloud.
    put :
        (i count : ℕ) (p : CustomPoint F) (pts : List (CustomPoint F)) (before : PointType F)
        (s : Preprocess F D)
        → i < size
        → Fits size i before s
        → (b : Bool)
        → Returns
            (Owes size (i + 1) pts (
              let q = Clouds.custom_to_point re p in
              let later = taken (count + 1) q pts in s.pl_surf ++ (if b then q ∷ later else later)))
            (let q = Clouds.custom_to_point re p in
              let surf = if b then s.pl_surf ++ (q ∷ []) else s.pl_surf in
              done (count + 1, record s { pl_full = set s.pl_full i q; pl_surf = surf }))
    put i count p pts before s h fits true =
        let q = Clouds.custom_to_point re p in
        returns (
          q,
          written i before q (s.pl_surf ++ (q ∷ [])) s h fits,
          append_assoc s.pl_surf (q ∷ []) (taken (count + 1) q pts),
        )
    put i count p pts before s h fits false =
        let q = Clouds.custom_to_point re p in
        returns (q, written i before q s.pl_surf s h fits, refl)

    decimate_round-Owes :
        (i count : ℕ) (p : CustomPoint F) (pts : List (CustomPoint F)) (before : PointType F)
        (s : Preprocess F D)
        → 1 ≤ i
        → i < size
        → Fits size i before s
        → Returns
            (Owes size (i + 1) pts (s.pl_surf ++ taken count before (p ∷ pts)))
            (Clouds.decimate_round re i p (count, s))
    unfolding Clouds.decimate_round taken
    decimate_round-Owes i count p pts before s low h fits =
        let q = Clouds.custom_to_point re p in
        let same_valid = ap (λ k. Clouds.is_valid_point re k p) fits.scans in
        let same_rest = ap (λ k. (count + 1) % k == 0) fits.filter in
        let same_zone = ap (λ b. is_far re b q) fits.zone in
        let nonzero : (s.point_filter_num == 0) ≡ false = not_zero (omega (arith, fits.filter)) in
        elim (Bool-cases (Clouds.is_valid_point re n_scans p)) [
          | inr e ↦ rw (e, same_valid ∙ e) (returns (blank re, skipped i before s h fits, refl))
          | inl e ↦ elim (Bool-cases ((count + 1) % filter_num == 0)) [
            | inr c ↦
                rw (e, same_valid ∙ e, nonzero, c, same_rest ∙ c)
                  (returns (blank re, skipped i before s h fits, refl))
            | inl c ↦
                let inside = lt→ltb i (length s.pl_full) (omega (arith, fits.size_is)) in
                let kept =
                  get_elem?-set_ne s.pl_full i (i - 1) q (λ k. absurd (omega arith)) ∙ fits.entry in
                rw
                  (
                    e,
                    same_valid ∙ e,
                    nonzero,
                    c,
                    same_rest ∙ c,
                    inside,
                    read_some (set s.pl_full i q) (i - 1) kept,
                    same_zone,
                  )
                  (put i count p pts before s h fits
                    (Clouds.differs re q before && is_far re blind q))
          ]
        ]
      where
        not_zero : {n : ℕ} → 0 < n → (n == 0) ≡ false
        not_zero {n} k = ground arith

    pub decimate_from-Owes :
        (pts : List (CustomPoint F))
        → length pts ≡ size
        → (n i : ℕ) (before : PointType F) (w : ℕ × Preprocess F D) → 1 ≤ i
        → i + n ≡ size
        → Fits size i before w.1
        → Returns
            (λ (w' : ℕ × Preprocess F D).
              w'.1.pl_surf ≡ w.1.pl_surf ++ taken w.0 before (drop i pts))
            (Clouds.decimate_from re pts n i w)
    unfolding Clouds.decimate_from taken
    decimate_from-Owes pts same zero i before (count, s) low e fits =
        returns (rw (drop_all pts i (omega arith), taken) (sym (append-nil s.pl_surf)))
    decimate_from-Owes pts same (suc n) i before (count, s) low e fits =
        Returns-bind (read-IsAt pts i (omega arith)) λ p at.
          let one : i + 1 ≡ suc i = omega arith in
          rw at (
            Returns-bind
              (decimate_round-Owes i count p (drop (suc i) pts) before s low (omega arith) fits)
              λ w' (before', fits', owes).
                Returns-map (λ w'' h. h ∙ rw one owes)
                  (decimate_from-Owes pts same n (i + 1) before' w' (omega arith) (omega arith)
                    fits'))
