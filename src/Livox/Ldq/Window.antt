-- ===== src/Livox/Ldq/Window.antt =====
-- The packets between the read and the write counter of the ring, oldest first.
use native.Mathlib.Nat.{mod-add-mod, mod-eq_of_lt, mod-eq-sub-mod}
use native.Mathlib.Decide.{dec_lt}
use mathlib.Core.Path.{ap₂}
use robot_nav.Prelude.{
  ℕ, zero, suc, ◌+◌, ◌%◌, ◌≤◌, ◌<◌, ◌≡◌, ◌≢◌, refl, ap, ◌∙◌, ◌-◌, List, [], ◌∷◌, ◌++◌, arith,
  length, get_or, set, get_or-set_self, get_or-set_ne,
}
use robot_nav.Livox.Ldq.{StoragePacket, Storage, null, live, freed, LidarDataQueue, used_size}

module _ {P : Type 0} where
  abbrev pub blank : StoragePacket P
  blank = record { base_time = 0; points_num = 0; points = [] }

  -- The `n` packets from the free-running counter `c` on; slot `c % m` holds packet `c`.
  abbrev pub window : List (StoragePacket P) → ℕ → ℕ → ℕ → List (StoragePacket P)
  window buf m c zero = []
  window buf m c (suc n) = get_or buf (c % m) blank ∷ window buf m (c + 1) n

  abbrev pub slots : Storage P → List (StoragePacket P)
  slots null = []
  slots (live buf) = buf
  slots freed = []

  -- What the queue holds, for its client.
  unfoldable pub contents : LidarDataQueue P → List (StoragePacket P)
  contents q = window (slots q.storage_packet) q.size q.rd_idx (used_size q)

  pub length-window : (buf : List (StoragePacket P)) (m c n : ℕ) → length (window buf m c n) ≡ n
  length-window buf m c zero = refl
  length-window buf m c (suc n) = ap suc (length-window buf m (c + 1) n)

  pub window_cong :
      (buf : List (StoragePacket P)) (m c d n : ℕ)
      → c % m ≡ d % m
      → window buf m c n ≡ window buf m d n
  window_cong buf m c d zero e = refl
  window_cong buf m c d (suc n) e =
      let next : (c + 1) % m ≡ (d + 1) % m =
        rw (← mod-add-mod c m 1, ← mod-add-mod d m 1) (ap (λ (t : ℕ). (t + 1) % m) e) in
      cc (window_cong buf m (c + 1) (d + 1) n next)

-- Fewer than `m` steps round the ring do not come back to the start.
round_ne : (m c j : ℕ) → 0 < j → j < m → (c + j) % m ≢ c % m
round_ne m c j pos h = elim (dec_lt (c % m + j) m) [
  | yes p ↦ omega (arith, mod-add-mod c m j, mod-eq_of_lt p)
  | no p ↦ omega (
    arith,
    mod-add-mod c m j,
    mod-eq-sub-mod {n = c % m + j} {m = m} (omega arith),
    mod-eq_of_lt {n = c % m + j - m} {m = m} (omega arith),
  )
]

module _ {P : Type 0} where
  -- A write just past the window extends it by the packet written.
  pub window-set :
      (buf : List (StoragePacket P)) (m c n i : ℕ) (s : StoragePacket P)
      → m ≤ length buf
      → n < m
      → i ≡ (c + n) % m
      → window (set buf i s) m c (suc n) ≡ window buf m c n ++ (s ∷ [])
  window-set buf m c zero i s hl hn e =
      let at_start : i ≡ c % m = e ∙ ap (λ (t : ℕ). t % m) (omega arith) in
      rw (← at_start) (cc (get_or-set_self buf i s blank (omega arith)))
  window-set buf m c (suc n) i s hl hn e =
      ap₂ ◌∷◌ (get_or-set_ne buf i (c % m) s blank (rw e (round_ne m c (suc n) (omega arith) hn)))
        (window-set buf m (c + 1) n i s hl (omega arith) (e ∙ ap (λ (t : ℕ). t % m) (omega arith)))
