-- ===== src/Livox/Ldq/Pop.antt =====
-- `QueuePop` against the first-in first-out list of packets.
use Prim.Native.Nat.{bit_and}
use native.Mathlib.Nat.{mod-lt}
use robot_nav.Prelude.{
  suc, ◌+◌, ◌%◌, ◌<◌, ◌≡◌, ◌⊎◌, inl, inr, ap, sym, true, false, some, none, [], ◌∷◌, arith, length,
  get_or, get_elem?-eq-get_or, Bool-cases,
}
use robot_nav.Prelude.Bits.{add32, sub32}
use robot_nav.Livox.Fault.{done}
use robot_nav.Livox.Ldq.{
  StoragePacket, LidarDataQueue, used_size, is_empty, queue_pop, queue_pop_update, read,
  copy_points,
}
use robot_nav.Livox.Ldq.Window.{blank, slots, contents, window_cong}
use robot_nav.Livox.Ldq.Invariant.{IsWhole, IsValid, size_bounds, slot, slot-add32}
use robot_nav.Livox.Ldq.Refine.{take_all, sizes_lem}

module _ {P : Type 0} {q : LidarDataQueue P} (v : IsValid q) where
  popped_next : 0 < used_size q → suc (sub32 q.wr_idx (add32 q.rd_idx 1)) ≡ used_size q
  unfolding used_size
  popped_next h = omega (arith, v.rd_word, v.wr_word, size_bounds v)

  front : StoragePacket P
  front = get_or (slots q.storage_packet) (q.rd_idx % q.size) blank

  contents-popped : 0 < used_size q → contents q ≡ front ∷ contents (queue_pop_update q)
  unfolding contents queue_pop_update used_size front
  contents-popped h = rw (← popped_next h) (
      ap (λ l. front ∷ l)
        (window_cong (slots q.storage_packet) q.size (q.rd_idx + 1) (add32 q.rd_idx 1)
          (sub32 q.wr_idx (add32 q.rd_idx 1)) (sym (slot-add32 v q.rd_idx))))

  popped-IsValid : 0 < used_size q → IsValid (queue_pop_update q)
  unfolding queue_pop_update used_size
  popped-IsValid h = record {
    k = v.k;
    buf = v.buf;
    k_small = v.k_small;
    size_pow = v.size_pow;
    mask_low = v.mask_low;
    stored = v.stored;
    slots_num = v.slots_num;
    rd_word = omega arith;
    wr_word = v.wr_word;
    used_fits = omega (arith, popped_next h, v.used_fits);
    whole = (rw (contents-popped h) at v.whole).1;
  }

  front-IsWhole : 0 < used_size q → IsWhole front
  front-IsWhole h = (rw (contents-popped h) at v.whole).0

  front-read : read q.storage_packet (bit_and q.rd_idx q.mask) ≡ done front
  unfolding read front
  front-read =
      let inside : q.rd_idx % q.size < length v.buf = rw v.slots_num (mod-lt _ (size_bounds v).0) in
      rw (
        v.stored,
        slot v q.rd_idx,
        get_elem?-eq-get_or v.buf (q.rd_idx % q.size) blank inside,
        read,
      )

  front_copied : 0 < used_size q → copy_points front.points_num front.points ≡ done front.points
  unfolding copy_points
  front_copied h =
      let e = front-IsWhole h in ground (arith, take_all front.points_num front.points e)

  pop_none : (out : StoragePacket P) → is_empty q ≡ true → queue_pop q (some out) ≡ done (none, q)
  unfolding queue_pop
  pop_none out e = rw e

  pop_some :
      (out : StoragePacket P)
      → is_empty q ≡ false
      → 0 < used_size q
      → queue_pop q (some out) ≡ done (some front, queue_pop_update q)
  unfolding queue_pop
  pop_some out e h = rw (e, front-read, front_copied h)

  used_of_not_empty : is_empty q ≡ false → 0 < used_size q
  unfolding is_empty used_size
  used_of_not_empty h = ground (arith, v.rd_word, v.wr_word)

  -- A pop of a valid queue faults nowhere. Where the queue holds nothing it returns false and
  -- changes nothing; else it returns the oldest packet held, keeps the queue valid and leaves the
  -- others in their order.
  pub pop_refines :
      (out : StoragePacket P)
      → ((contents q ≡ []) × (queue_pop q (some out) ≡ done (none, q)))
        ⊎ ((s : StoragePacket P) × (q' : LidarDataQueue P) × (contents q ≡ s ∷ contents q')
            × (queue_pop q (some out) ≡ done (some s, q'))
            × IsValid q')
  pop_refines out = elim (Bool-cases (is_empty q)) [
    | inl e ↦ inl ((sizes_lem v).3.0 e, pop_none out e)
    | inr e ↦
        let h = used_of_not_empty e in
        inr (front, queue_pop_update q, contents-popped h, pop_some out e h, popped-IsValid h)
  ]
