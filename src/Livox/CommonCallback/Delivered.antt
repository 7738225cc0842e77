-- ===== src/Livox/CommonCallback/Delivered.antt =====
-- From a packet of the SDK's thread to the queues of the devices.
use robot_nav.Prelude.{
  ℕ, ◌≡◌, ◌∙◌, refl, inl, inr, true, some, List, [], ◌∷◌, arith, All, ◌==◌, Bool-cases,
}
use robot_nav.Livox.Fault.{done}
use robot_nav.Livox.Floats.{Floats}
use robot_nav.Livox.Ldq.{StoragePacket}
use robot_nav.Livox.Lds.Defs.{Lds, PointFrame}
use robot_nav.Livox.Lds.Frame.{IsValid as SourceIsValid, storage_point_data_lem}
use robot_nav.Livox.Points.{PointXyzlt, RawPacket, Format}
use robot_nav.Livox.PubHandler.{PubHandler}
use robot_nav.Livox.PubHandler.Publish.{IsValid, IsStorable}
use robot_nav.Livox.PubHandler.Timer.{Ran, raw_data_round, handler_for}
use robot_nav.Livox.PubHandler.Conserve.{IsConvertible, HasRoom, raw_data_round_lem}
use robot_nav.Livox.CommonCallback.{on_lidar_point_cloun_cb, deliver}

module _ {F G : Type 0} (junk : StoragePacket (PointXyzlt F)) where
  -- A later state of the data source, valid and with the same table.
  abbrev pub Took : Lds (PointXyzlt F) G → Lds (PointXyzlt F) G → Type 0
  Took s s' = SourceIsValid s' × (s'.cache_index ≡ s.cache_index)

  one_delivered :
      (f : PointFrame (PointXyzlt F)) (s : Lds (PointXyzlt F) G)
      → IsStorable f
      → SourceIsValid s
      → (s' : Lds (PointXyzlt F) G) × (on_lidar_point_cloun_cb junk (some f) (some s)
          ≡ done (some s'))
        × Took s s'
  unfolding on_lidar_point_cloun_cb
  one_delivered f s i v = elim (Bool-cases (f.lidar_num == 0)) [
    | inl e ↦ (s, rw (e, on_lidar_point_cloun_cb) refl, (v, refl))
    | inr n ↦
        let (s', ran, v', same) =
          storage_point_data_lem junk s f v i.whole (omega (arith, i.num, i.packets))
            (omega (arith, i.num, i.base_times)) in
        (s', rw (n, ran, on_lidar_point_cloun_cb) refl, (v', same))
  ]

  deliver_lem :
      (l : List (PointFrame (PointXyzlt F))) (s : Lds (PointXyzlt F) G)
      → All IsStorable l
      → SourceIsValid s
      → (s' : Lds (PointXyzlt F) G) × (deliver junk l (some s) ≡ done (some s')) × Took s s'
  unfolding deliver
  deliver_lem [] s all v = (s, refl, (v, refl))
  deliver_lem (f ∷ l) s (i, all) v =
      let (s1, ran1, (v1, c1)) = one_delivered f s i v in
      let (s2, ran2, (v2, c2)) = deliver_lem l s1 all v1 in
      (s2, rw (ran1, deliver) ran2, (v2, c2 ∙ c1))

-- From valid states of the handler and the data source, with the points callback set, the first packet
-- convertible and its device there or with room: the round and the storing of every frame that goes
-- out end with no fault, both states stay valid, and the device table is as before.
pub packet_delivered :
    (fl : Floats) (format : Format) (junk : StoragePacket (PointXyzlt (fl.F))) (now : ℕ)
    (h : PubHandler (fl.F)) (raw : RawPacket) (rest : List RawPacket)
    (s : Lds (PointXyzlt (fl.F)) (fl.F))
    → IsValid h
    → h.points_callback ≡ true
    → h.raw_packet_queue ≡ raw ∷ rest
    → IsConvertible fl format raw (handler_for fl format h raw.handle).extrinsic
    → HasRoom fl format h raw.handle
    → SourceIsValid s
    → (out : Ran (fl.F)) × (s' : Lds (PointXyzlt (fl.F)) (fl.F)) × (raw_data_round fl format now h
        ≡ done out)
      × (deliver junk (out.0) (some s) ≡ done (some s'))
      × IsValid (out.1)
      × SourceIsValid s'
      × (s'.cache_index ≡ s.cache_index)
packet_delivered fl format junk now h raw rest s v cb queue c room w =
    let (l, out, ran, num, points, v', storable, kept) =
      raw_data_round_lem fl format now h raw rest v cb queue c room in
    let (s', ran', (w', same)) = deliver_lem junk (out.0) s storable w in
    (out, s', ran, ran', v', w', same)
