-- ===== src/Qlib/Int.antt =====
-- The int64 of qlib/qlib.go and qlib/openid.go.
use mnm.Prelude.{ℕ, ◌-◌, ◌==◌, Bool, true, false, ltb, if◌then◌else◌}

-- int64: `negsuc n` is -(n + 1).
pub data ℤ : Type 0 where
  pos : ℕ → ℤ
  negsuc : ℕ → ℤ

abbrev pub lt_int : ℤ → ℤ → Bool
lt_int (pos a) (pos b) = ltb a b
lt_int (pos a) (negsuc b) = false
lt_int (negsuc a) (pos b) = true
lt_int (negsuc a) (negsuc b) = ltb b a

abbrev pub is_zero : ℤ → Bool
is_zero (pos n) = n == 0
is_zero (negsuc n) = false

-- The sum of a position and a length, which wraps at 2 ^ 63.
abbrev pub int64 : ℕ → ℤ
int64 n = if ltb n 0x8000000000000000 then pos n else negsuc (0xFFFFFFFFFFFFFFFF - n)
