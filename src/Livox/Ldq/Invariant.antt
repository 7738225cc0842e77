-- ===== src/Livox/Ldq/Invariant.antt =====
-- The well-formedness of the ring, and where its counters point.
use Prim.Native.Nat.{bit_and, ◌∣◌}
use native.Mathlib.Nat.{
  mod-mod_of_dvd, dvd_refl, dvd-mul_right_of_dvd, one-le-pow, pow-suc, pow-le-pow_right,
}
use robot_nav.Prelude.{
  ℕ, zero, suc, ◌+◌, ◌-◌, ◌%◌, ◌^◌, ◌≤◌, ◌<◌, ◌≡◌, ap, ◌∙◌, List, arith, length, All,
}
use robot_nav.Prelude.Bits.{add32, sub32, bit_and_mask}
use robot_nav.Livox.Ldq.{StoragePacket, live, LidarDataQueue, used_size}
use robot_nav.Livox.Ldq.Window.{contents}

pow_dvd : (d k : ℕ) → 2 ^ k ∣ 2 ^ (d + k)
pow_dvd zero k = let e : 0 + k ≡ k = omega arith in rw (ap (λ (t : ℕ). 2 ^ t) e) (dvd_refl (2 ^ k))
pow_dvd (suc d) k =
    let e : suc d + k ≡ suc (d + k) = omega arith in
    rw (ap (λ (t : ℕ). 2 ^ t) e, pow-suc) (dvd-mul_right_of_dvd (2 ^ k) (pow_dvd d k) 2)

module _ {P : Type 0} where
  abbrev pub IsWhole : StoragePacket P → Type 0
  IsWhole s = s.points_num ≡ length s.points

  -- The storage is allocated and of the power-of-two size, the counters are words that are at most
  -- the size apart, and the packets between them have as many points as they say.
  pub record IsValid (q : LidarDataQueue P) : Type 0 where
    pub k : ℕ
    pub buf : List (StoragePacket P)
    pub k_small : k ≤ 31
    pub size_pow : q.size ≡ 2 ^ k
    pub mask_low : q.mask ≡ 2 ^ k - 1
    pub stored : q.storage_packet ≡ live buf
    pub slots_num : length buf ≡ q.size
    pub rd_word : q.rd_idx < 2 ^ 32
    pub wr_word : q.wr_idx < 2 ^ 32
    pub used_fits : used_size q ≤ q.size
    pub whole : All IsWhole (contents q)

  module _ {q : LidarDataQueue P} (v : IsValid q) where
    pub size_bounds : (0 < q.size) × (q.size ≤ 2 ^ 31)
    size_bounds = (
      rw (v.size_pow) (one-le-pow v.k 2 (omega arith)),
      rw (v.size_pow) (pow-le-pow_right {n = 2} (omega arith) v.k_small),
    )

    size_dvd : q.size ∣ 2 ^ 32
    size_dvd =
        let e : 32 - v.k + v.k ≡ 32 = omega (arith, v.k_small) in
        rw v.size_pow (rw (ap (λ (t : ℕ). 2 ^ t) e) at (pow_dvd (32 - v.k) v.k))

    -- The slot that a counter points at.
    pub slot : (c : ℕ) → bit_and c q.mask ≡ c % q.size
    slot c = rw (v.mask_low, v.size_pow) (bit_and_mask v.k c)

    -- The wrap of a counter at 2^32 is not seen in its slot.
    pub slot-add32 : (c : ℕ) → add32 c 1 % q.size ≡ (c + 1) % q.size
    slot-add32 c = mod-mod_of_dvd q.size (c + 1) size_dvd

    pub slot_tail : q.wr_idx % q.size ≡ (q.rd_idx + used_size q) % q.size
    unfolding used_size
    slot_tail =
        let e : q.wr_idx ≡ (q.rd_idx + sub32 q.wr_idx q.rd_idx) % 2 ^ 32 =
          omega (arith, v.rd_word, v.wr_word) in
        ap (λ (t : ℕ). t % q.size) e ∙ mod-mod_of_dvd q.size _ size_dvd
