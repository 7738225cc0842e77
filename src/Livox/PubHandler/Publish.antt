-- ===== src/Livox/PubHandler/Publish.antt =====
-- What goes out of a valid state: frames within their arrays, and all the points that were held.
use mathlib.Core.List.{append-nil}
use robot_nav.Prelude.{
  ℕ, ◌≤◌, ◌<◌, ◌≡◌, refl, sym, ◌∙◌, inl, inr, true, not, ◌||◌, some, List, [], ◌∷◌, ◌++◌, arith,
  length, All, ◌==◌, Bool-cases,
}
use robot_nav.Livox.Fault.{done}
use robot_nav.Livox.Lds.Defs.{PointFrame}
use robot_nav.Livox.Lds.Frame.{IsWhole}
use robot_nav.Livox.CacheIndex.{max_source_lidar}
use robot_nav.Livox.Points.{PointXyzlt, LidarPubHandler}
use robot_nav.Livox.PubHandler.{PubHandler, find_id, publish_point_cloud}
use robot_nav.Livox.PubHandler.Frame.{gather, in_frame, pending, held, IsOpen, add_to_frame_lem}
use robot_nav.Livox.PubHandler.Timer.{Ran, publish_frame, publish_one}

module _ {F : Type 0} where
  -- Between two rounds: an empty frame with room for 32 devices, at most 32 devices, in order, and an
  -- interval of at least a millisecond.
  pub record IsValid (s : PubHandler F) : Type 0 where
    pub opened : IsOpen s
    pub empty_frame : s.frame.lidar_num ≡ 0
    pub interval : 0 < s.publish_interval_ms

  -- A frame within its arrays, whose packets have the points that they announce.
  pub record IsStorable (f : PointFrame (PointXyzlt F)) : Type 0 where
    pub num : f.lidar_num ≤ max_source_lidar
    pub base_times : length f.base_time ≡ max_source_lidar
    pub packets : length f.lidar_point ≡ max_source_lidar
    pub whole : All IsWhole f.lidar_point

  -- The points of the device `j` in the frames that went out.
  unfoldable pub published : ℕ → List (PointFrame (PointXyzlt F)) → List (PointXyzlt F)
  unfolding in_frame
  published j [] = []
  published j (f ∷ l) = in_frame j f ++ published j l

  pub record Checked (before : ℕ → List (PointXyzlt F)) (out : Ran F) : Type 0 where
    pub valid : IsValid (out.1)
    pub storable : All IsStorable (out.0)
    pub kept : (j : ℕ) → published j (out.0) ++ pending j (out.1) ≡ before j
    pub callback : (out.1).points_callback ≡ true

  pub frame_empty : (s : PubHandler F) → s.frame.lidar_num ≡ 0 → (j : ℕ) → held j s ≡ pending j s
  unfolding held in_frame gather
  frame_empty s e j = rw (held, in_frame, e) refl

  pub publish_frame_lem :
      (s : PubHandler F)
      → IsOpen s
      → s.frame.lidar_num ≤ max_source_lidar
      → s.points_callback ≡ true
      → 0 < s.publish_interval_ms
      → Checked (λ j. held j s) (publish_frame s)
  unfolding publish_frame publish_point_cloud published held pending
  publish_frame_lem s v num cb interval = record {
    valid = record {
      opened = record {
        base_times = v.base_times;
        packets = v.packets;
        whole = v.whole;
        sorted = v.sorted;
        few = v.few;
      };
      empty_frame = refl;
      interval = interval;
    };
    storable =
        rw cb (
          record { num = num; base_times = v.base_times; packets = v.packets; whole = v.whole },
          tt,
        );
    kept = λ j. rw (cb, published, append-nil) refl;
    callback = cb;
  }

  pub quiet :
      (s : PubHandler F) → IsValid s → s.points_callback ≡ true → Checked (λ j. pending j s) ([], s)
  unfolding published
  quiet s v cb = record { valid = v; storable = tt; kept = λ j. refl; callback = cb }

  -- The points that were held before are those that went out and those that wait.
  pub Checked-by :
      {before before' : ℕ → List (PointXyzlt F)} {out : Ran F}
      → ((j : ℕ) → before j ≡ before' j)
      → Checked before out
      → Checked before' out
  Checked-by e c = record {
    valid = c.valid;
    storable = c.storable;
    kept = λ j. c.kept j ∙ e j;
    callback = c.callback;
  }

  pub publish_one_lem :
      (id : ℕ) (h : LidarPubHandler F) (s : PubHandler F)
      → IsValid s
      → s.points_callback ≡ true
      → find_id s.lidar_process_handlers id ≡ some h
      → (out : Ran F) × (publish_one id h s ≡ done out) × Checked (λ j. pending j s) out
  unfolding publish_one
  publish_one_lem id h s v cb found =
      let (b, s', ran, a, stays) =
        add_to_frame_lem id h s v.opened (omega (arith, v.empty_frame)) found in
      let before = λ (j : ℕ). a.same j ∙ frame_empty s v.empty_frame j in
      let interval : 0 < s'.publish_interval_ms = omega (arith, a.interval, v.interval) in
      elim (Bool-cases (not b || s'.frame.lidar_num == 0)) [
        | inl e ↦
            let empty : s'.frame.lidar_num ≡ 0 = elim (Bool-cases b) [
              | inl y ↦ let e' = rw y at e in ground (arith, e')
              | inr n ↦ stays n ∙ v.empty_frame
            ] in
            (
              ([], s'),
              rw (ran, e, publish_one) refl,
              Checked-by (λ j. sym (frame_empty s' empty j) ∙ before j)
                  (quiet s' (record { opened = a.opened; empty_frame = empty; interval = interval })
                    (a.callback ∙ cb)),
            )
        | inr e ↦ (
          publish_frame s',
          rw (ran, e, publish_one) refl,
          Checked-by before (
              publish_frame_lem s' a.opened (omega (arith, a.num, v.empty_frame)) (a.callback ∙ cb)
                interval),
        )
      ]
