-- ===== src/Preprocess/Sweep/Mid360.antt =====
-- The handler of Mid360 clouds: which points it takes, and where it leaves the vectors of lines.
use robot_nav.Prelude.{
  ℕ, ◌≤◌, ◌<◌, ◌≡◌, refl, sym, ap, ◌∙◌, inl, inr, Bool, true, false, Option, none, some, List, [],
  ◌∷◌, ◌++◌, arith, length, length-append, length-set, get_or, set, replicate, length-replicate,
  All, ltb, ltb→lt, ◌==◌, Bool-cases, if_false, if◌then◌else◌,
}
use mathlib.Core.List.{append_assoc, append-nil}
use robot_nav.Livox.Fault.{
  done, fault, out_of_bounds, ◌>>=◌, bind_done, Returns, returns, Returns-map, Returns-bind,
  Returns_value, Safe, faulty, Safe-of_Returns, Safe-fault,
}
use robot_nav.Preprocess.Arrays.{read-Any, read_past, write-set, read_get_or}
use robot_nav.Preprocess.{Reals, PointType, Preprocess, whole, is_far}
use robot_nav.Preprocess.Clouds.{cleared}
use robot_nav.Preprocess.Sweep
use robot_nav.Preprocess.Sweep.{LivoxPointXyzitl, Lines}

not_zero : (n : ℕ) → 0 < n → (n == 0) ≡ false
not_zero n h = ground arith

module _ (re : Reals) where
  open re use {F, D, float_decimal, initial}

  -- A point without its time.
  abbrev pub Place : Type 0
  Place = F × F × F × F

  abbrev pub place : PointType F → Place
  place p = (p.x, p.y, p.z, p.intensity)

  pub places : List (PointType F) → List Place
  places [] = []
  places (p ∷ l) = place p ∷ places l

  -- The places of the points beyond the blind zone, without the first one of each line of which no point
  -- came before.
  unfoldable pub later_places : D → List Bool → List (LivoxPointXyzitl F) → List Place
  later_places blind is_first [] = []
  later_places blind is_first (p ∷ pts) =
      let q = Sweep.livox_to_point re p initial in
      let rest = later_places blind is_first pts in
      let others = later_places blind (set is_first p.line false) pts in
      if get_or is_first p.line false
      then others
      else if is_far re blind q
      then place q ∷ rest
      else rest

  places-append : (l m : List (PointType F)) → places (l ++ m) ≡ places l ++ places m
  unfolding places
  places-append [] m = refl
  places-append (p ∷ l) m = ap (λ (r : List Place). place p ∷ r) (places-append l m)

  -- The vectors have an entry for each line.
  abbrev HasLines : ℕ → Lines F D → Type 0
  HasLines n w = (length w.is_first ≡ n) × (length w.yaw_fp ≡ n) × (length w.time_last ≡ n)

  -- What is known of a time that was worked out.
  abbrev Times : ℕ → ℕ → Lines F D → Option F × Lines F D → Type 0
  Times n layer w (none, w') =
      HasLines n w'
      × (get_or w.is_first layer false ≡ true)
      × (w'.is_first ≡ set w.is_first layer false)
  Times n layer w (some c, w') =
      HasLines n w' × (get_or w.is_first layer false ≡ false) × (w'.is_first ≡ w.is_first)

  Times-HasLines :
      (n layer : ℕ) (w : Lines F D) (time : Option F) (w' : Lines F D)
      → Times n layer w (time, w')
      → HasLines n w'
  Times-HasLines n layer w none w' h = h.0
  Times-HasLines n layer w (some c) w' h = h.0

  timed-Times :
      (n : ℕ) (omega_l yaw : D) (layer : ℕ) (w : Lines F D)
      → HasLines n w
      → layer < n
      → Returns (Times n layer w) (Sweep.timed re omega_l layer yaw w)
  unfolding Sweep.timed
  timed-Times n omega_l yaw layer w sizes h = elim (Bool-cases (get_or w.is_first layer false)) [
    | inl e ↦ rw (read_get_or w.is_first layer false (omega arith) ∙ ap done e) (
        Returns-bind (write-set w.yaw_fp layer yaw (omega arith)) λ yaw_fp ey.
          Returns-bind (write-set w.is_first layer false (omega arith)) λ firsts ef.
            Returns-bind (write-set w.time_last layer (float_decimal 0 0) (omega arith)) λ times et.
              returns (
                (
                  ap length ef ∙ length-set w.is_first layer false ∙ sizes.0,
                  ap length ey ∙ length-set w.yaw_fp layer yaw ∙ sizes.1,
                  ap length et ∙ length-set w.time_last layer (float_decimal 0 0) ∙ sizes.2,
                ),
                e,
                ef,
              ))
    | inr e ↦ rw (read_get_or w.is_first layer false (omega arith) ∙ ap done e) (
        Returns-bind (read-Any w.yaw_fp layer (omega arith)) λ first _.
          Returns-bind (read-Any w.time_last layer (omega arith)) λ last _.
            let c = Sweep.turned re omega_l yaw first last in
            Returns-bind (write-set w.time_last layer c (omega arith)) λ times et. returns (
              (sizes.0, sizes.1, ap length et ∙ length-set w.time_last layer c ∙ sizes.2),
              e,
              refl,
            ))
  ]

  push_timed-places :
      (n : ℕ) (blind : D) (p : LivoxPointXyzitl F) (pts : List (LivoxPointXyzitl F))
      (w w' : Lines F D) (time : Option F) (surf : List (PointType F))
      → Times n p.line w (time, w')
      → places (Sweep.push_timed re blind p time surf) ++ later_places blind w'.is_first pts
        ≡ places surf ++ later_places blind w.is_first (p ∷ pts)
  unfolding places later_places Sweep.push_timed Sweep.livox_to_point is_far
  push_timed-places n blind p pts w w' none surf h = rw (h.1, h.2) refl
  push_timed-places n blind p pts w w' (some c) surf h =
      let q = Sweep.livox_to_point re p c in
      elim (Bool-cases (is_far re blind (Sweep.livox_to_point re p initial))) [
        | inl e ↦
            rw (h.1, h.2, e, places-append surf (q ∷ []))
              (append_assoc (places surf) (place q ∷ []) (later_places blind w.is_first pts))
        | inr e ↦ rw (h.1, h.2, e) refl
      ]

  mid360_from-places :
      (n : ℕ) (omega_l blind : D) (pts : List (LivoxPointXyzitl F)) (w : Lines F D)
      (surf : List (PointType F))
      → HasLines n w
      → All (λ (p : LivoxPointXyzitl F). p.line < n) pts
      → Returns
          (λ surf'. places surf' ≡ places surf ++ later_places blind w.is_first pts)
          (Sweep.mid360_from re omega_l blind pts w surf)
  unfolding Sweep.mid360_from later_places
  mid360_from-places n omega_l blind [] w surf sizes inside =
      returns (sym (append-nil (places surf)))
  mid360_from-places n omega_l blind (p ∷ pts) w surf sizes inside =
      Returns-bind (timed-Times n omega_l (Sweep.yaw_angle re p.x p.y) p.line w sizes inside.0)
        λ (time, w') h.
          Returns-map (λ surf' e. e ∙ push_timed-places n blind p pts w w' time surf h)
            (mid360_from-places n omega_l blind pts w' (Sweep.push_timed re blind p time surf)
              (Times-HasLines n p.line w time w' h) inside.1)

  new_lines-HasLines : (n : ℕ) → HasLines n (Sweep.new_lines re n)
  new_lines-HasLines n = (
    length-replicate n true,
    length-replicate n (whole re 0),
    length-replicate n (float_decimal 0 0),
  )

  with_points :
      (pts : List (LivoxPointXyzitl F)) (s : Preprocess F D)
      → 0 < length pts
      → Sweep.mid360_handler re pts s ≡ (
          Sweep.mid360_from re
            (Sweep.omega_l re s.scan_rate)
            s.blind
            pts
            (Sweep.new_lines re s.n_scans)
            []
          >>= λ surf. done (record (cleared s) { pl_surf = surf; given_offset_time = false }))
  unfolding Sweep.mid360_handler
  with_points pts s h = if_false _ _ (not_zero (length pts) h)

  -- A cloud of which every line has its entry in the vectors is handled with no fault. It becomes the
  -- points beyond the blind zone without the first point of each line, in their order and at their places.
  pub mid360_handler_lem :
      (pts : List (LivoxPointXyzitl F)) (s : Preprocess F D)
      → All (λ (p : LivoxPointXyzitl F). p.line < s.n_scans) pts
      → (s' : Preprocess F D) × (Sweep.mid360_handler re pts s ≡ done s')
        × (places s'.pl_surf ≡ later_places s.blind (replicate s.n_scans true) pts)
  unfolding Sweep.mid360_handler places later_places
  mid360_handler_lem [] s inside = (cleared s, refl, refl)
  mid360_handler_lem (p ∷ pts) s inside =
      let (surf, e, h) = Returns_value (
        mid360_from-places s.n_scans (Sweep.omega_l re s.scan_rate) s.blind (p ∷ pts)
          (Sweep.new_lines re s.n_scans) [] (new_lines-HasLines s.n_scans) inside) in
      (
        record (cleared s) { pl_surf = surf; given_offset_time = false },
        with_points (p ∷ pts) s (omega arith) ∙ bind_done _ e,
        h,
      )

  timed-Safe :
      (n : ℕ) (omega_l yaw : D) (layer : ℕ) (w : Lines F D)
      → HasLines n w
      → Safe (λ x. HasLines n x.1) (Unit {0}) (Sweep.timed re omega_l layer yaw w)
  unfolding Sweep.timed
  timed-Safe n omega_l yaw layer w sizes = elim (Bool-cases (ltb layer n)) [
    | inl e ↦ Safe-of_Returns (
        Returns-map (λ x h. Times-HasLines n layer w x.0 x.1 h)
          (timed-Times n omega_l yaw layer w sizes (ltb→lt layer n e)))
    | inr e ↦ rw (read_past w.is_first layer (ground arith)) (faulty tt)
  ]

  mid360_from_fault :
      (n : ℕ) (omega_l blind : D) (front rest : List (LivoxPointXyzitl F)) (p : LivoxPointXyzitl F)
      (w : Lines F D) (surf : List (PointType F))
      → HasLines n w
      → n ≤ p.line
      → Sweep.mid360_from re omega_l blind (front ++ (p ∷ rest)) w surf ≡ fault out_of_bounds
  unfolding Sweep.mid360_from
  mid360_from_fault n omega_l blind [] rest p w surf sizes h =
      let past = read_past w.is_first p.line (omega (arith, sizes.0)) in
      unfold Sweep.timed in rw past refl
  mid360_from_fault n omega_l blind (q ∷ front) rest p w surf sizes h =
      Safe-fault (timed-Safe n omega_l (Sweep.yaw_angle re q.x q.y) q.line w sizes) λ x sizes'.
        mid360_from_fault n omega_l blind front rest p x.1 (Sweep.push_timed re blind q x.0 surf)
          sizes' h

  -- A cloud with a point whose line has no entry in the vectors is an access out of range.
  pub mid360_handler_bad_line :
      (front rest : List (LivoxPointXyzitl F)) (p : LivoxPointXyzitl F) (s : Preprocess F D)
      → s.n_scans ≤ p.line
      → Sweep.mid360_handler re (front ++ (p ∷ rest)) s ≡ fault out_of_bounds
  mid360_handler_bad_line front rest p s h =
      let some_points : 0 < length (front ++ (p ∷ rest)) =
        omega (arith, length-append front (p ∷ rest)) in
      let past =
        mid360_from_fault s.n_scans (Sweep.omega_l re s.scan_rate) s.blind front rest p
          (Sweep.new_lines re s.n_scans) [] (new_lines-HasLines s.n_scans) h in
      with_points (front ++ (p ∷ rest)) s some_points
      ∙ ap
          (λ m.
            m >>= λ surf. done (record (cleared s) { pl_surf = surf; given_offset_time = false }))
          past
