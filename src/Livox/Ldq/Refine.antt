-- ===== src/Livox/Ldq/Refine.antt =====
-- The ring against a first-in first-out list of packets, for its client `Lds::PushLidarData`, which
-- pushes only where the queue is not full.
use Prim.Native.Nat.{bit_and}
use native.Mathlib.Nat.{mod-lt}
use robot_nav.Prelude.{
  ℕ, zero, suc, ◌+◌, ◌≤◌, ◌<◌, ◌≡◌, refl, ap, sym, ◌∙◌, true, false, ◌↔◌, List, [], ◌∷◌, ◌++◌,
  arith, length, All-append, take, set, length-set,
}
use robot_nav.Prelude.Bits.{add32, sub32}
use robot_nav.Livox.Fault.{done}
use robot_nav.Livox.Ldq.{
  StoragePacket, PointPacket, live, LidarDataQueue, used_size, unused_size, is_full, is_empty,
  queue_push_any,
}
use robot_nav.Livox.Ldq.Window.{slots, contents, length-window, window-set}
use robot_nav.Livox.Ldq.Invariant.{IsWhole, IsValid, size_bounds, slot, slot_tail}

module _ {P : Type 0} where
  -- What `QueuePushAny` stores of a packet: its first `points_num` points.
  abbrev pub stored_packet : PointPacket P → ℕ → StoragePacket P
  stored_packet pkt base_time = record {
    base_time = base_time;
    points_num = pkt.points_num;
    points = take pkt.points_num pkt.points;
  }

  length-take_of_le : (n : ℕ) (xs : List P) → n ≤ length xs → length (take n xs) ≡ n
  length-take_of_le zero xs h = refl
  length-take_of_le (suc n) [] h = absurd (omega arith)
  length-take_of_le (suc n) (x ∷ xs) h = ap suc (length-take_of_le n xs (omega arith))

  pub take_all : (n : ℕ) (xs : List P) → n ≡ length xs → take n xs ≡ xs
  take_all zero [] h = refl
  take_all zero (x ∷ xs) h = absurd (omega arith)
  take_all (suc n) [] h = refl
  take_all (suc n) (x ∷ xs) h = ap (λ l. x ∷ l) (take_all n xs (omega arith))

  nil_of_length : (l : List (StoragePacket P)) → length l ≡ 0 → l ≡ []
  nil_of_length [] h = refl
  nil_of_length (x ∷ l) h = absurd (omega arith)

  length-contents : (q : LidarDataQueue P) → length (contents q) ≡ used_size q
  unfolding contents
  length-contents q = length-window (slots q.storage_packet) q.size q.rd_idx (used_size q)

  module _ {q : LidarDataQueue P} (v : IsValid q) where
    full_iff : (is_full q ≡ true) ↔ (used_size q ≡ q.size)
    unfolding is_full used_size
    full_iff = (
      λ h. ground (arith, v.used_fits, v.mask_low, v.size_pow, size_bounds v),
      λ h. ground (arith, v.mask_low, v.size_pow, size_bounds v),
    )

    empty_iff : (is_empty q ≡ true) ↔ (used_size q ≡ 0)
    unfolding is_empty used_size
    empty_iff =
        (λ h. ground (arith, v.rd_word, v.wr_word), λ h. ground (arith, v.rd_word, v.wr_word))

    -- In a valid queue, `QueueUsedSize` is the number of packets held and `QueueUnusedSize` that of
    -- free slots; the two tests tell exactly the full and the empty queue.
    pub sizes_lem :
        (used_size q ≡ length (contents q))
        × (unused_size q + length (contents q) ≡ q.size)
        × ((is_full q ≡ true) ↔ (length (contents q) ≡ q.size))
        × ((is_empty q ≡ true) ↔ (contents q ≡ []))
    unfolding unused_size
    sizes_lem =
        let e = length-contents q in
        (
          omega (arith, e),
          omega (arith, e, v.used_fits, size_bounds v),
          rw e full_iff,
          (
            λ h. nil_of_length (contents q) (omega (arith, e, empty_iff.0 h)),
            λ h. empty_iff.1 (omega (arith, e, ap length h)),
          ),
        )

    used_of_not_full : is_full q ≡ false → used_size q < q.size
    unfolding is_full used_size
    used_of_not_full h = ground (arith, v.mask_low, v.size_pow, size_bounds v)

    used_next : used_size q < q.size → sub32 (add32 q.wr_idx 1) q.rd_idx ≡ suc (used_size q)
    unfolding used_size
    used_next h = omega (arith, v.rd_word, v.wr_word, size_bounds v)

    abbrev pushed : StoragePacket P → LidarDataQueue P
    pushed s = record q {
      storage_packet = live (set v.buf (bit_and q.wr_idx q.mask) s);
      wr_idx = add32 q.wr_idx 1;
    }

    contents-pushed :
        (s : StoragePacket P) → used_size q < q.size → contents (pushed s) ≡ contents q ++ (s ∷ [])
    unfolding contents used_size
    contents-pushed s h =
        let extended =
          window-set v.buf q.size q.rd_idx (used_size q) (bit_and q.wr_idx q.mask) s
            (omega (arith, v.slots_num)) h (slot v q.wr_idx ∙ slot_tail v) in
        rw (used_next h, v.stored) extended

    tail_in : bit_and q.wr_idx q.mask < length v.buf
    tail_in = rw (slot v, v.slots_num) (mod-lt _ (size_bounds v).0)

    pushed-IsValid : (s : StoragePacket P) → IsWhole s → used_size q < q.size → IsValid (pushed s)
    unfolding used_size
    pushed-IsValid s w h = record {
      k = v.k;
      buf = set v.buf (bit_and q.wr_idx q.mask) s;
      k_small = v.k_small;
      size_pow = v.size_pow;
      mask_low = v.mask_low;
      stored = refl;
      slots_num = length-set v.buf _ s ∙ v.slots_num;
      rd_word = v.rd_word;
      wr_word = omega arith;
      used_fits = omega (arith, used_next h);
      whole = rw (contents-pushed s h) (All-append IsWhole (contents q) (s ∷ []) v.whole (w, tt));
    }

    -- A push to a valid queue that is not full, of a packet that has the points it announces,
    -- faults nowhere, returns 1, keeps the queue valid and appends just that packet to what it
    -- holds.
    pub push_refines :
        (pkt : PointPacket P) (base_time : ℕ)
        → is_full q ≡ false
        → pkt.points_num ≤ length pkt.points
        → (q' : LidarDataQueue P) × (queue_push_any q pkt base_time ≡ done (1, q'))
          × IsValid q'
          × (contents q' ≡ contents q ++ (stored_packet pkt base_time ∷ []))
    unfolding queue_push_any
    push_refines pkt base_time room points =
        let s = stored_packet pkt base_time in
        let h = used_of_not_full room in
        (
          pushed s,
          ground (arith, tail_in, v.stored),
          pushed-IsValid s (sym (length-take_of_le pkt.points_num pkt.points points)) h,
          contents-pushed s h,
        )
