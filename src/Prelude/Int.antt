-- ===== src/Prelude/Int.antt =====
-- The program's signed integers, `int` and `int64_t`, and their conversion to `size_t`.
use Prim.Native.Nat.{ℕ, zero, suc, ◌-◌, ◌^◌}
use mathlib.Core.Bool.{Bool, true, false}

-- `negsuc n` is -(n + 1).
pub data ℤ : Type 0 where
  pos : ℕ → ℤ
  negsuc : ℕ → ℤ

abbrev pub size_mod : ℕ
size_mod = 2 ^ 64

-- static_cast<size_t> of a value in range
abbrev pub to_size : ℤ → ℕ
to_size (pos n) = n
to_size (negsuc n) = size_mod - suc n

abbrev pub is_negative : ℤ → Bool
is_negative (pos n) = false
is_negative (negsuc n) = true

-- `k <= 0`
abbrev pub not_positive : ℤ → Bool
not_positive (pos n) = elim n [ zero ↦ true | suc m ↦ false ]
not_positive (negsuc n) = true
