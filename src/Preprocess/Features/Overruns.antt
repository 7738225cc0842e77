-- ===== src/Preprocess/Features/Overruns.antt =====
-- Where the loop of `give_feature` over the surfaces comes to a plane that goes on past the end of the line,
-- it is a fault.
use robot_nav.Prelude.{
  ℕ, zero, suc, ◌+◌, ◌-◌, ◌≤◌, ◌<◌, ◌≡◌, ◌∙◌, refl, List, arith, length, lt→ltb,
}
use robot_nav.Livox.Fault.{done, fault, out_of_bounds, Safe_value, bind_done, ◌>>=◌}
use robot_nav.Preprocess.{Reals, PointType, OrgType, Preprocess}
use robot_nav.Preprocess.Planes
use robot_nav.Preprocess.Planes.{Scanning}
use robot_nav.Preprocess.Features.Surfaces.{
  Reached, first, round, start_of, Overruns, surface_round-Safe, surface_round_overruns,
}

module _ (re : Reals) (s : Preprocess re.F re.D) (pl : List (PointType re.F)) where
  open re use {F, D}

  -- Where the loop comes to a place, it does from its beginning what it does from there, with rounds enough.
  record Continues (types : List (OrgType D)) (i : ℕ) (st : Scanning D) : Type 0 where
    head : ℕ
    begins : Planes.head_from re s.blind types 0 ≡ done head
    fuel : ℕ
    enough : length pl - s.group_size < i + fuel
    long : length st.types ≡ length pl
    same :
        Planes.surfaces_from re s pl
          (length pl - s.group_size)
          (length pl + 1)
          head
          (start_of re s pl types)
        ≡ Planes.surfaces_from re s pl (length pl - s.group_size) fuel i st

  next_round :
      (i end fuel : ℕ) (st : Scanning D)
      → i < end
      → end < i + fuel
      → (k : ℕ) × (end < suc i + k)
        × (Planes.surfaces_from re s pl end fuel i st ≡ (
            Planes.surface_round re s pl i st >>= λ w. Planes.surfaces_from re s pl end k w.0 w.1))
  unfolding Planes.surfaces_from
  next_round i end zero st inside enough = absurd (omega arith)
  next_round i end (suc k) st inside enough = (k, omega arith, rw (lt→ltb i end inside) refl)

  Reached-Continues :
      {types : List (OrgType D)} {i : ℕ} {st : Scanning D}
      → 2 ≤ s.group_size
      → length types ≡ length pl
      → Reached re s pl types i st
      → Continues types i st
  Reached-Continues two whole (first {head} found) = record {
    head = head;
    begins = found;
    fuel = length pl + 1;
    enough = omega arith;
    long = whole;
    same = refl;
  }
  Reached-Continues {types} two whole (round {i} {i'} {st} {st'} reached inside ran) =
      let c = Reached-Continues two whole reached in
      let (k, enough, same) = next_round i _ c.fuel st inside c.enough in
      let on =
        Safe_value (surface_round-Safe re s pl types i st two (omega arith) c.long reached) ran in
      record {
        head = c.head;
        begins = c.begins;
        fuel = k;
        enough = omega (arith, on.0);
        long = on.1;
        same = c.same ∙ same ∙ bind_done _ ran;
      }

  -- Where such a plane is found the loop is a fault.
  pub surfaces_overrun :
      (types : List (OrgType D))
      → 2 ≤ s.group_size
      → length types ≡ length pl
      → Overruns re s pl types
      → (head : ℕ) × (Planes.head_from re s.blind types 0 ≡ done head)
        × (Planes.surfaces_from re s pl
              (length pl - s.group_size)
              (length pl + 1)
              head
              (start_of re s pl types)
            ≡ fault out_of_bounds)
  surfaces_overrun types two whole o =
      let c = Reached-Continues two whole o.reached in
      let (k, enough, same) = next_round o.i _ c.fuel o.st o.inside c.enough in
      let faults =
        surface_round_overruns re s pl o.i o.st o.t o.judged (omega (arith, o.inside)) c.long o.here
          o.far o.found o.plane o.past in
      (c.head, c.begins, c.same ∙ same ∙ rw faults refl)
