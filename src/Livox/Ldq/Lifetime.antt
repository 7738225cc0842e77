-- ===== src/Livox/Ldq/Lifetime.antt =====
-- The life of the storage of a queue: `InitQueue` and `DeInitQueue`.
use native.Mathlib.Nat.{one-le-pow, pow-le-pow_right}
use native.Mathlib.Decide.{dec_le}
use robot_nav.Prelude.{
  ℕ, ◌^◌, ◌≤◌, ◌≡◌, ◌≢◌, refl, true, false, some, List, [], arith, length, replicate,
  length-replicate, if◌then◌else◌, Bool-cases, inl, inr,
}
use robot_nav.Prelude.Bits.{sub32}
use robot_nav.Livox.Fault.{done, fault, double_free, use_after_free}
use robot_nav.Livox.Ldq.{
  StoragePacket, PointPacket, Storage, null, live, freed, LidarDataQueue, init_queue, deinit_queue,
  queue_push_any, is_power_of_2, roundup_power_of_2, used_size, is_full, release,
}
use robot_nav.Livox.Ldq.Bounds.{is_power_of_2_iff, roundup_power_of_2_least}
use robot_nav.Livox.Ldq.Window.{contents}
use robot_nav.Livox.Ldq.Invariant.{IsValid}

-- The size that `InitQueue` takes for a query.
abbrev pub real_size : ℕ → ℕ
real_size n = if is_power_of_2 n then n else roundup_power_of_2 n

abbrev Exponent : ℕ → Type 0
Exponent n = (k : ℕ) × (real_size n ≡ 2 ^ k) × (k ≤ 31) × (n ≤ 2 ^ k)

exponent_small : (n k : ℕ) → n ≤ 2 ^ 31 → n ≡ 2 ^ k → k ≤ 31
exponent_small n k h e = elim (dec_le k 31) [
  | yes small ↦ small
  | no big ↦
      absurd (omega (arith, pow-le-pow_right {n = 2} (omega arith) {i = 32} {j = k} (omega arith)))
]

real_size_pow : (n : ℕ) → n ≤ 2 ^ 31 → Exponent n
real_size_pow n h = elim (Bool-cases (is_power_of_2 n)) [
  | inl e ↦
      let (k, p) = (is_power_of_2_iff n (omega arith)).0 e in
      (k, rw e p, exponent_small n k h p, omega arith)
  | inr e ↦
      let (k, p, small, fits, _) = (roundup_power_of_2_least n).0 h in (k, rw e p, small, fits)
]

module _ {P : Type 0} where
  abbrev fresh_queue : StoragePacket P → ℕ → LidarDataQueue P
  fresh_queue junk n = record {
    storage_packet = live (replicate (real_size n) junk);
    rd_idx = 0;
    wr_idx = 0;
    mask = sub32 (real_size n) 1;
    size = real_size n;
  }

  contents-fresh_queue : (junk : StoragePacket P) (n : ℕ) → contents (fresh_queue junk n) ≡ []
  unfolding contents used_size
  contents-fresh_queue junk n = refl

  fresh_queue-IsValid : (junk : StoragePacket P) (n : ℕ) → n ≤ 2 ^ 31 → IsValid (fresh_queue junk n)
  unfolding used_size
  fresh_queue-IsValid junk n h =
      let (k, p, small, fits) = real_size_pow n h in
      let low : 1 ≤ 2 ^ k = one-le-pow k 2 (omega arith) in
      let high : 2 ^ k ≤ 2 ^ 31 = pow-le-pow_right {n = 2} (omega arith) small in
      record {
        k = k;
        buf = replicate (real_size n) junk;
        k_small = small;
        size_pow = p;
        mask_low = omega arith;
        stored = refl;
        slots_num = length-replicate (real_size n) junk;
        rd_word = omega arith;
        wr_word = omega arith;
        used_fits = omega arith;
        whole = rw (contents-fresh_queue junk n) tt;
      }

  release_ok : (s : Storage P) → s ≢ freed → release s ≡ done tt
  unfolding release
  release_ok null h = refl
  release_ok (live buf) h = refl
  release_ok freed h = absurd (h refl)

  -- `InitQueue` of a queue whose storage does not dangle, for at most 2^31 packets, returns true and
  -- leaves a valid empty queue that is large enough.
  pub init_queue_lem :
      (junk : StoragePacket P) (q : LidarDataQueue P) (n : ℕ)
      → q.storage_packet ≢ freed
      → n ≤ 2 ^ 31
      → (q' : LidarDataQueue P) × (init_queue junk (some q) n ≡ done (true, some q'))
        × IsValid q'
        × (contents q' ≡ [])
        × (n ≤ q'.size)
  unfolding init_queue
  init_queue_lem junk q n h small = (
    fresh_queue junk n,
    rw (release_ok q.storage_packet h),
    fresh_queue-IsValid junk n small,
    contents-fresh_queue junk n,
    (let (k, p, _, fits) = real_size_pow n small in omega arith),
  )

  -- After `DeInitQueue` of an allocated queue the pointer dangles though the queue reads as empty and
  -- not full: a push writes through it, and a second `DeInitQueue` or an `InitQueue` deletes it again.
  pub deinit_queue_dangles :
      (junk : StoragePacket P) (q : LidarDataQueue P) (buf : List (StoragePacket P))
      → q.storage_packet ≡ live buf
      → (q' : LidarDataQueue P) × (deinit_queue (some q) ≡ done (true, some q'))
        × (is_full q' ≡ false)
        × (deinit_queue (some q') ≡ fault double_free)
        × ((n : ℕ) → init_queue junk (some q') n ≡ fault double_free)
        × ((pkt : PointPacket P) (base_time : ℕ)
            → pkt.points_num ≤ length pkt.points
            → queue_push_any q' pkt base_time ≡ fault use_after_free)
  unfolding deinit_queue init_queue queue_push_any is_full
  deinit_queue_dangles junk q buf e = (
    record { storage_packet = freed; rd_idx = 0; wr_idx = 0; mask = 0; size = 0 },
    rw e,
    refl,
    refl,
    (λ n. refl),
    (λ pkt base_time h. ground arith),
  )
