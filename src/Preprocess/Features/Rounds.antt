-- ===== src/Preprocess/Features/Rounds.antt =====
-- The loops of `give_feature` over the edges, over the small planes and over the results stay within a line.
use robot_nav.Prelude.{ℕ, zero, suc, ◌+◌, ◌-◌, ◌≤◌, ◌<◌, ◌≡◌, ◌||◌, List, arith, length}
use robot_nav.Livox.Fault.{Outcome, Returns, returns, Returns-bind, if-Returns}
use robot_nav.Preprocess.Arrays.{read_inside, HasLength, Any, write-HasLength, read-Any}
use robot_nav.Preprocess.{
  Vec, Reals, PointType, OrgType, Surround, EJump, Preprocess, prev, next, real_plane,
}
use robot_nav.Preprocess.Judge.{edge_jump_judge}
use robot_nav.Preprocess.Edges
use robot_nav.Preprocess.Features

module _ (re : Reals) (s : Preprocess re.F re.D) (pl : List (PointType re.F)) where
  open re use {F, D, decimal, lt}

  jump_of-Any :
      (types : List (OrgType D)) (i : ℕ) (t : OrgType D) (side : Surround)
      → 3 ≤ i
      → i + 3 < length types
      → Returns Any (Edges.jump_of re s types i t side)
  unfolding Edges.jump_of edge_jump_judge
  jump_of-Any types i t prev low high =
      let (a, ea) = read_inside types (i - 1) (omega arith) in
      let (b, eb) = read_inside types (i - 2) (omega arith) in rw (ea, eb) (returns tt)
  jump_of-Any types i t next low high =
      let (a, ea) = read_inside types (i + 1) (omega arith) in
      let (b, eb) = read_inside types (i + 2) (omega arith) in
      let (c, ec) = read_inside types i (omega arith) in rw (ea, eb, ec) (returns tt)

  edge_type-Any :
      (types : List (OrgType D)) (i : ℕ) (t : OrgType D) (dista : D)
      → 3 ≤ i
      → i + 3 < length types
      → Returns Any (Edges.edge_type re s types i t dista)
  unfolding Edges.edge_type
  edge_type-Any types i t dista low high =
      let jump = λ (side : Surround). jump_of-Any types i t side low high in
      let cosine = lt s.cos160 t.intersect in
      if-Returns (Edges.is_near_jump re t dista) (if-Returns cosine (jump prev) (returns tt)) (
        if-Returns (Edges.is_far_jump re t dista) (if-Returns cosine (jump next) (returns tt)) (
          if-Returns (Edges.is_open_after re t) (jump prev) (
            if-Returns (Edges.is_open_before re t) (jump next)
              (if-Returns (Edges.is_apart re t) (returns tt) (returns tt)))))

  side_of-Any :
      (types : List (OrgType D)) (t : OrgType D) (a : Vec D) (k : ℕ) (w : D × EJump)
      → length types ≡ length pl
      → k < length pl
      → Returns Any (Edges.side_of re s pl types t a k w)
  unfolding Edges.side_of
  side_of-Any types t a k w same h =
      let (o, eo) = read_inside types k (omega arith) in
      let (q, eq) = read_inside pl k h in
      rw (eo, eq) (if-Returns (lt o.range s.blind) (returns tt) (returns tt))

  settle-HasLength :
      (types : List (OrgType D)) (i : ℕ) (dista : D) (t : OrgType D)
      → length types ≡ length pl
      → 3 ≤ i
      → i + 3 < length pl
      → Returns (HasLength (length pl)) (Edges.settle re s types i dista t)
  unfolding Edges.settle
  settle-HasLength types i dista t same low high =
      Returns-bind (write-HasLength types i (length pl) t same (omega arith)) λ types' e.
        Returns-bind (edge_type-Any types' i t dista low (omega arith))
          λ f _. write-HasLength types' i (length pl) (record t { ftype = f }) e (omega arith)

  edge_here-HasLength :
      (types : List (OrgType D)) (i : ℕ) (before t : OrgType D)
      → length types ≡ length pl
      → 3 ≤ i
      → i + 3 < length pl
      → Returns (HasLength (length pl)) (Edges.edge_here re s pl types i before t)
  unfolding Edges.edge_here
  edge_here-HasLength types i before t same low high =
      let (p, ep) = read_inside pl i (omega arith) in
      let a = Edges.vec_of re p in
      rw ep (
        Returns-bind (side_of-Any types t a (i - 1) (t.angle_prev, t.edj_prev) same (omega arith))
          λ w _.
            Returns-bind
              (side_of-Any types t a (i + 1) (t.angle_next, t.edj_next) same (omega arith))
              λ w' _. settle-HasLength types i before.dista (Edges.sided re t w w') same low high)

  pub edge_round-HasLength :
      (i : ℕ) (types : List (OrgType D))
      → 3 ≤ i
      → i + 3 < length pl
      → length types ≡ length pl
      → Returns (HasLength (length pl)) (Edges.edge_round re s pl i types)
  unfolding Edges.edge_round
  edge_round-HasLength i types low high same = Returns-bind (read-Any types i (omega arith)) λ t _.
      if-Returns (lt t.range s.blind || Edges.is_settled t.ftype) (returns same) (
        Returns-bind (read-Any types (i - 1) (omega arith)) λ b _.
          if-Returns (lt b.dista (decimal 1 16) || lt t.dista (decimal 1 16)) (returns same)
            (edge_here-HasLength types i b t same low high))

  pub small_plane_round-HasLength :
      (i : ℕ) (types : List (OrgType D))
      → 1 ≤ i
      → i + 1 < length pl
      → length types ≡ length pl
      → Returns (HasLength (length pl)) (Edges.small_plane_round re s pl i types)
  unfolding Edges.small_plane_round
  small_plane_round-HasLength i types low high same =
      let n = length pl in
      let (t, et) = read_inside types i (omega arith) in
      let (b, eb) = read_inside types (i - 1) (omega arith) in
      let (a, ea) = read_inside types (i + 1) (omega arith) in
      rw (et, eb, ea)
        (if-Returns (Edges.stays_point re s b t a) (returns same) (
          Returns-bind (write-HasLength types (i - 1) n (Edges.as_plane re b) same (omega arith))
            λ types1 e1.
              Returns-bind (write-HasLength types1 (i + 1) n (Edges.as_plane re a) e1 high)
                λ types2 e2.
                  write-HasLength types2 i n (record t { ftype = real_plane }) e2 (omega arith)))

  pub rounds_from-HasLength :
      (round : ℕ → List (OrgType D) → Outcome (List (OrgType D))) (lo hi : ℕ)
      → ((i : ℕ) (l : List (OrgType D))
          → lo ≤ i
          → i < hi
          → length l ≡ length pl
          → Returns (HasLength (length pl)) (round i l))
      → (n i : ℕ) (l : List (OrgType D)) → lo ≤ i
      → n ≡ hi - i
      → length l ≡ length pl
      → Returns (HasLength (length pl)) (Features.rounds_from re round n i l)
  unfolding Features.rounds_from
  rounds_from-HasLength round lo hi keep zero i l a b e = returns e
  rounds_from-HasLength round lo hi keep (suc n) i l a b e =
      Returns-bind (keep i l a (omega arith) e)
        λ l' e'. rounds_from-HasLength round lo hi keep n (i + 1) l' (omega arith) (omega arith) e'
