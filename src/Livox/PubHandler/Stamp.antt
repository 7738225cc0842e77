-- ===== src/Livox/PubHandler/Stamp.antt =====
-- Time stamps of packets: eight bytes, the lowest first.
use robot_nav.Prelude.{
  ℕ, zero, suc, ◌+◌, ◌*◌, ◌/◌, ◌%◌, ◌^◌, ◌<◌, ◌≡◌, ◌⊎◌, refl, inl, inr, ap, sym, ◌∙◌, List, [], ◌∷◌,
  arith, length, All,
}
use robot_nav.Livox.PubHandler.{lds_stamp, get_eth_packet_timestamp, gptp_or_ptp, gps}

-- A number as `k` bytes.
abbrev pub stamp_bytes : ℕ → ℕ → List ℕ
stamp_bytes zero n = []
stamp_bytes (suc k) n = n % 256 ∷ stamp_bytes k (n / 256)

bytes_of_stamp : (l : List ℕ) → All (λ b. b < 256) l → stamp_bytes (length l) (lds_stamp l) ≡ l
unfolding lds_stamp
bytes_of_stamp [] all = refl
bytes_of_stamp (b ∷ l) (small, all) =
    let low : (b + 256 * lds_stamp l) % 256 ≡ b = omega arith in
    let high : (b + 256 * lds_stamp l) / 256 ≡ lds_stamp l = omega arith in
    rw (lds_stamp, low, high, bytes_of_stamp l all) refl

stamp_of_bytes : (n : ℕ) → n < 2 ^ 64 → lds_stamp (stamp_bytes 8 n) ≡ n
unfolding lds_stamp
stamp_of_bytes n h = omega arith

synced_stamp :
    (t now : ℕ) (l : List ℕ)
    → (t ≡ gptp_or_ptp) ⊎ (t ≡ gps)
    → get_eth_packet_timestamp t l now ≡ lds_stamp l
unfolding get_eth_packet_timestamp
synced_stamp t now l (inl e) = ap (λ (x : ℕ). get_eth_packet_timestamp x l now) e
synced_stamp t now l (inr e) = ap (λ (x : ℕ). get_eth_packet_timestamp x l now) e

-- With a clock that is synchronized by PTP or by GPS, a time below 2^64 that is written as eight bytes is
-- read back from them, and eight bytes are those of the time that is read.
pub get_eth_packet_timestamp_roundtrip :
    (t n now : ℕ) (l : List ℕ)
    → (t ≡ gptp_or_ptp) ⊎ (t ≡ gps)
    → n < 2 ^ 64
    → length l ≡ 8
    → All (λ b. b < 256) l
    → (get_eth_packet_timestamp t (stamp_bytes 8 n) now ≡ n)
      × (stamp_bytes 8 (get_eth_packet_timestamp t l now) ≡ l)
get_eth_packet_timestamp_roundtrip t n now l clock h eight all = (
  synced_stamp t now (stamp_bytes 8 n) clock ∙ stamp_of_bytes n h,
  ap (λ (x : ℕ). stamp_bytes 8 x) (synced_stamp t now l clock)
      ∙ ap (λ (k : ℕ). stamp_bytes k (lds_stamp l)) (sym eight)
      ∙ bytes_of_stamp l all,
)
