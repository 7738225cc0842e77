-- ===== src/Prelude/Int.antt =====
-- Signed integers over the native numbers, and their conversions to narrower types.
use Prim.Native.Nat.{ℕ, zero, suc, ◌-◌, ◌/◌, ◌%◌}
use robot_nav.Prelude.Tests.{ltb, if◌then◌else◌}

-- `negsuc n` is -(n + 1).
pub data ℤ : Type 0 where
  pos : ℕ → ℤ
  negsuc : ℕ → ℤ

abbrev pub neg_of : ℕ → ℤ
neg_of zero = pos 0
neg_of (suc n) = negsuc n

-- The byte with which a `char` stands for an integer, and back.
abbrev pub to_byte : ℤ → ℕ
to_byte (pos n) = n % 256
to_byte (negsuc n) = 255 - n % 256

abbrev pub of_byte : ℕ → ℤ
of_byte b = if ltb b 128 then pos b else negsuc (255 - b)

abbrev pub to_int8 : ℤ → ℤ
to_int8 z = of_byte (to_byte z)

-- Division by a positive number, towards 0.
abbrev pub quot : ℤ → ℕ → ℤ
quot (pos n) k = pos (n / k)
quot (negsuc n) k = neg_of (suc n / k)
