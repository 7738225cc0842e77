-- ===== src/Preprocess/Features/Surfaces.antt =====
-- The loop of `give_feature` over the surfaces: it goes forward, and leaves the table only where a plane
-- goes on to the end of the line.
use robot_nav.Prelude.{
  ℕ, zero, suc, ◌+◌, ◌-◌, ◌≤◌, ◌<◌, ◌≡◌, false, not, ◌&&◌, Option, none, some, List, ◌⊎◌, inl, inr,
  arith, length, ltb, ltb→lt, ◌==◌, ==_iff, Bool-cases, if◌then◌else◌,
}
use robot_nav.Livox.Fault.{
  done, fault, out_of_bounds, Returns, returns, Returns-bind, Returns_value, if-Returns, Safe, safe,
  faulty, Safe-bind, Safe-of_Returns, Safe-known, bind_fault,
}
use robot_nav.Preprocess.Arrays.{read, HasLength, write-HasLength, read-Any, read_past}
use robot_nav.Preprocess.{
  Vec, Reals, PointType, OrgType, Preprocess, real_plane, poss_plane, edge_plane,
}
use robot_nav.Preprocess.Judge.{Judged, plane_judge, zero_vec}
use robot_nav.Preprocess.Judge.Bounds.{IsAhead, plane_judge-IsAhead}
use robot_nav.Preprocess.Planes
use robot_nav.Preprocess.Planes.{Scanning}

mark_from-HasLength :
    {D : Type 0} (i i_nex n j size : ℕ) (types : List (OrgType D))
    → j + n ≤ size
    → length types ≡ size
    → Returns (HasLength size) (Planes.mark_from i i_nex n j types)
unfolding Planes.mark_from
mark_from-HasLength i i_nex zero j size types h e = returns e
mark_from-HasLength i i_nex (suc n) j size types h e =
    Returns-bind (read-Any types j (omega arith)) λ t _.
      Returns-bind
        (write-HasLength types j size
          (record t { ftype = if not (j == i) && not (j == i_nex) then real_plane else poss_plane })
          e (omega arith))
        λ types' e'. mark_from-HasLength i i_nex n (j + 1) size types' (omega arith) e'

mark_from_past :
    {D : Type 0} (i i_nex n j size : ℕ) (types : List (OrgType D))
    → j ≤ size
    → size < j + n
    → length types ≡ size
    → Planes.mark_from i i_nex n j types ≡ fault out_of_bounds
unfolding Planes.mark_from
mark_from_past i i_nex zero j size types low h e = absurd (omega arith)
mark_from_past i i_nex (suc n) j size types low h e = elim (Bool-cases (ltb j size)) [
  | inl inside ↦
      let lt = ltb→lt j size inside in
      bind_fault (read-Any types j (omega arith)) λ t _.
        bind_fault
          (write-HasLength types j size
            (record t {
              ftype = if not (j == i) && not (j == i_nex) then real_plane else poss_plane;
            })
            e lt)
          λ types' e'. mark_from_past i i_nex n (j + 1) size types' (omega arith) (omega arith) e'
  | inr past ↦ rw (read_past types j (ground arith))
]

abbrev pub IsSome : {A : Type 0} → (A → Type 0) → Option A → Type 0
IsSome P none = ⊥
IsSome P (some a) = P a

module _ (re : Reals) (s : Preprocess re.F re.D) (pl : List (PointType re.F)) where
  open re use {F, D, decimal, neg, lt, norm, dot}

  -- What the loop begins with.
  abbrev pub start_of : List (OrgType D) → Scanning D
  start_of types = record {
    types = types;
    was_plane = false;
    last_direct = zero_vec re;
    way = s.way;
  }

  -- The places, with what is carried along, to which the loop over the surfaces of a line comes: the first
  -- is that of the first point outside the blind zone.
  pub data Reached (types : List (OrgType D)) : ℕ → Scanning D → Type 0 where
    first :
        {head : ℕ}
        → Planes.head_from re s.blind types 0 ≡ done head
        → Reached types head (start_of types)
    round :
        {i i' : ℕ} {st st' : Scanning D}
        → Reached types i st
        → i < length pl - s.group_size
        → Planes.surface_round re s pl i st ≡ done (i', st')
        → Reached types i' st'

  -- The loop comes to a point outside the blind zone that is judged to begin a plane which goes on past the
  -- last point of the line.
  pub record Overruns (types : List (OrgType D)) : Type 0 where
    pub i : ℕ
    pub st : Scanning D
    pub t : OrgType D
    pub judged : Judged D
    pub reached : Reached types i st
    pub inside : i < length pl - s.group_size
    pub here : read st.types i ≡ done t
    pub far : lt t.range s.blind ≡ false
    pub found : plane_judge re (record s { way = st.way }) pl st.types i ≡ done judged
    pub plane : judged.plane_type ≡ 1
    pub past : judged.i_nex ≡ length pl

  -- The next round is further on, and the table is as long as before.
  abbrev pub GoesOn : ℕ → ℕ × Scanning D → Type 0
  GoesOn i (i', st) = (i < i') × (length st.types ≡ length pl)

  corner_at-HasLength :
      (i : ℕ) (dir : Vec D) (st : Scanning D) (types : List (OrgType D))
      → i < length pl
      → length types ≡ length pl
      → Returns (HasLength (length pl)) (Planes.corner_at re i dir st types)
  unfolding Planes.corner_at
  corner_at-HasLength i dir st types h e =
      let across =
        lt (neg (decimal 707 3)) (dot st.last_direct dir)
        && lt (dot st.last_direct dir) (decimal 707 3) in
      if-Returns (st.was_plane && lt (decimal 1 1) (norm st.last_direct))
        (Returns-bind (read-Any types i (omega arith)) λ t _.
          write-HasLength types i (length pl)
            (record t { ftype = if across then edge_plane else real_plane }) e h)
        (returns e)

  past_group :
      (j : Judged D) (i group : ℕ)
      → j.plane_type ≡ 1
      → (j.plane_type ≡ 2) ⊎ (i + group ≤ j.i_nex)
      → i + group ≤ j.i_nex
  past_group j i group one (inl two) = absurd (omega arith)
  past_group j i group one (inr h) = h

  take_plane-Safe :
      (C : Type 0) (i group : ℕ) (j : Judged D) (st : Scanning D)
      → 2 ≤ group
      → IsAhead i group (length pl) j
      → i < length pl
      → length st.types ≡ length pl
      → (j.plane_type ≡ 1 → j.i_nex ≡ length pl → C)
      → Safe (GoesOn i) C (Planes.take_plane re i j st)
  unfolding Planes.take_plane
  take_plane-Safe C i group j st two ahead h e cause = elim (Bool-cases (j.plane_type == 1)) [
    | inl plane ↦
        let is_plane = (==_iff j.plane_type 1).0 plane in
        let far = past_group j i group is_plane ahead.2 in
        elim (Bool-cases (ltb j.i_nex (length pl))) [
          | inl before ↦
              let lt_end = ltb→lt j.i_nex (length pl) before in
              rw plane (
                Safe-of_Returns (
                  Returns-bind
                    (mark_from-HasLength i j.i_nex (j.i_nex + 1 - i) i (length pl) st.types
                      (omega arith) e)
                    λ marked e1.
                      Returns-bind (corner_at-HasLength i j.curr_direct st marked h e1)
                        λ types' e2. returns (omega arith, e2)))
          | inr at_end ↦
              rw
                (
                  plane,
                  mark_from_past i j.i_nex (j.i_nex + 1 - i) i (length pl) st.types (omega arith)
                      (ground arith) e,
                )
                (faulty (cause is_plane (ground arith)))
        ]
    | inr other ↦ rw other (safe (omega arith, e))
  ]

  pub surface_round-Safe :
      (types : List (OrgType D)) (i : ℕ) (st : Scanning D)
      → 2 ≤ s.group_size
      → i + s.group_size < length pl
      → length st.types ≡ length pl
      → Reached types i st
      → Safe (GoesOn i) (Overruns types) (Planes.surface_round re s pl i st)
  unfolding Planes.surface_round
  surface_round-Safe types i st two inside e reached =
      Safe-bind (Safe-known (Safe-of_Returns (read-Any st.types i (omega arith)))) λ t (_, here).
        elim (Bool-cases (lt t.range s.blind)) [
          | inl z ↦ rw z (safe (omega arith, e))
          | inr z ↦
              let (j, ej, ahead) = Returns_value (
                plane_judge-IsAhead re (record s { way = st.way }) pl st.types i two (omega arith)
                  e) in
              rw (z, ej)
                (take_plane-Safe (Overruns types) i s.group_size j st two ahead (omega arith) e
                  (λ p q. record {
                    i = i;
                    st = st;
                    t = t;
                    judged = j;
                    reached = reached;
                    inside = omega arith;
                    here = here;
                    far = z;
                    found = ej;
                    plane = p;
                    past = q;
                  }))
        ]

  -- In a line with a table of as many points: where a point that is not in the blind zone is judged to begin
  -- a plane that goes on past the last point of the line, the round writes past the end of the table.
  pub surface_round_overruns :
      (i : ℕ) (st : Scanning D) (t : OrgType D) (j : Judged D)
      → i ≤ length pl
      → length st.types ≡ length pl
      → read st.types i ≡ done t
      → lt t.range s.blind ≡ false
      → plane_judge re (record s { way = st.way }) pl st.types i ≡ done j
      → j.plane_type ≡ 1
      → j.i_nex ≡ length pl
      → Planes.surface_round re s pl i st ≡ fault out_of_bounds
  unfolding Planes.surface_round Planes.take_plane
  surface_round_overruns i st t j inside same here far found plane past = rw (
    here,
    far,
    found,
    (==_iff j.plane_type 1).1 plane,
    mark_from_past i j.i_nex (j.i_nex + 1 - i) i (length pl) st.types inside (omega arith) same,
  )

  -- More rounds than points to go through are enough.
  pub surfaces_from-Safe :
      (types : List (OrgType D)) (fuel i end : ℕ) (st : Scanning D)
      → 2 ≤ s.group_size
      → end ≡ length pl - s.group_size
      → end < i + fuel
      → 0 < fuel
      → length st.types ≡ length pl
      → Reached types i st
      → Safe
          (IsSome (λ (st' : Scanning D). length st'.types ≡ length pl))
          (Overruns types)
          (Planes.surfaces_from re s pl end fuel i st)
  unfolding Planes.surfaces_from
  surfaces_from-Safe types zero i end st two fits enough some_left e reached = absurd (omega arith)
  surfaces_from-Safe types (suc fuel) i end st two fits enough some_left e reached =
      elim (Bool-cases (ltb i end)) [
        | inl more ↦
            let lt_end = ltb→lt i end more in
            rw more (
              Safe-bind (Safe-known (surface_round-Safe types i st two (omega arith) e reached))
                λ w (on, ran).
                  surfaces_from-Safe types fuel w.0 end w.1 two fits (omega arith) (omega arith)
                    on.1 (round reached (omega arith) ran))
        | inr over ↦ rw over (safe e)
      ]
