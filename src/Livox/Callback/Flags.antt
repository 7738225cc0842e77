-- ===== src/Livox/Callback/Flags.antt =====
-- `set_bits` as a set of settings.
use Prim.Native.Nat.{bit_and, bit_or}
use robot_nav.Prelude.{
  ℕ, ◌+◌, ◌-◌, ◌^◌, ◌≡◌, refl, Bool, true, false, not, ◌&&◌, ◌||◌, arith, if◌then◌else◌,
}
use robot_nav.Livox.Config.{Setting, data_type, scan_pattern, blind_spot, dual_emit, bit_of}

abbrev pub Flags : Type 0
Flags = Setting → Bool

abbrev flag : Bool → ℕ → ℕ
flag b n = if b then n else 0

abbrev pub encode : Flags → ℕ
encode f =
    flag (f data_type) 1 + flag (f scan_pattern) 2 + flag (f blind_spot) 4 + flag (f dual_emit) 8

abbrev pub same_setting : Setting → Setting → Bool
same_setting data_type data_type = true
same_setting scan_pattern scan_pattern = true
same_setting blind_spot blind_spot = true
same_setting dual_emit dual_emit = true
same_setting s t = false

abbrev pub raise : Setting → Flags → Flags
raise s f t = f t || same_setting s t

abbrev pub lower : Setting → Flags → Flags
lower s f t = f t && not (same_setting s t)

pub bit_or-encode : (s : Setting) (f : Flags) → bit_or (encode f) (bit_of s) ≡ encode (raise s f)
bit_or-encode data_type f = ground arith
bit_or-encode scan_pattern f = ground arith
bit_or-encode blind_spot f = ground arith
bit_or-encode dual_emit f = ground arith

pub bit_and-encode :
    (s : Setting) (f : Flags) → bit_and (encode f) (2 ^ 32 - 1 - bit_of s) ≡ encode (lower s f)
bit_and-encode data_type f = ground arith
bit_and-encode scan_pattern f = ground arith
bit_and-encode blind_spot f = ground arith
bit_and-encode dual_emit f = ground arith

pub encode_cong : (f g : Flags) → ((s : Setting) → f s ≡ g s) → encode f ≡ encode g
encode_cong f g h = cc (h data_type, h scan_pattern, h blind_spot, h dual_emit)

pub encode_none : (f : Flags) → ((s : Setting) → f s ≡ false) → encode f ≡ 0
encode_none f h = simp (h data_type, h scan_pattern, h blind_spot, h dual_emit) refl

pub none_of_encode : (f : Flags) → encode f ≡ 0 → (s : Setting) → f s ≡ false
none_of_encode f e data_type = ground arith
none_of_encode f e scan_pattern = ground arith
none_of_encode f e blind_spot = ground arith
none_of_encode f e dual_emit = ground arith
