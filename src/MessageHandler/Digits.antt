-- ===== src/MessageHandler/Digits.antt =====
-- The numbers in messages: what a stream in hexadecimal mode writes, and std::stoi and std::stoull.
use dann.Prelude.{
  ℕ, zero, suc, ◌+◌, ◌-◌, ◌*◌, ◌/◌, ◌%◌, ◌^◌, Bool, true, false, ◌&&◌, ◌||◌, Option, none, some, [],
  ◌∷◌, ltb, leb, ◌==◌, if◌then◌else◌, ℤ, pos, negsuc, size_mod,
}
use dann.Dict.{Text, hex_digit}

-- The digits of n before those that are there; a 64-bit number has at most 16.
unfoldable pub hex_from : ℕ → ℕ → Text → Text
hex_from zero n digits = digits
hex_from (suc rounds) n digits =
    let rest = hex_from rounds (n / 16) (hex_digit (n % 16) ∷ digits) in
    if n / 16 == 0 then hex_digit (n % 16) ∷ digits else rest

unfoldable pub hex_of_size : ℕ → Text
unfolding hex_from
hex_of_size n = hex_from 16 n []

-- An int is written as the unsigned number with the same bits.
unfoldable pub hex_of_int : ℤ → Text
unfolding hex_of_size
hex_of_int (pos n) = hex_of_size n
hex_of_int (negsuc n) = hex_of_size (2 ^ 32 - suc n)

abbrev pub is_digit : ℕ → Bool
is_digit c = leb 48 c && leb c 57

-- The value of the digits at the front.
unfoldable pub leading : Text → ℕ → ℕ
leading [] n = n
leading (c ∷ t) n = let rest = leading t (n * 10 + (c - 48)) in if is_digit c then rest else n

-- Without a digit there is no number.
unfoldable pub magnitude : Text → Option ℕ
unfolding leading
magnitude [] = none
magnitude (c ∷ t) = if is_digit c then some (leading (c ∷ t) 0) else none

abbrev is_space : ℕ → Bool
is_space c = (c == 32) || (leb 9 c && leb c 13)

unfoldable pub skip_spaces : Text → Text
skip_spaces [] = []
skip_spaces (c ∷ t) = let rest = skip_spaces t in if is_space c then rest else c ∷ t

-- Whether there is a minus sign, and what is behind the sign.
unfoldable pub signed : Text → Bool × Text
signed [] = (false, [])
signed (c ∷ t) = if c == 45 then (true, t) else if c == 43 then (false, t) else (false, c ∷ t)

abbrev below : ℕ → Option ℕ → Option ℕ
below bound none = none
below bound (some n) = if ltb n bound then some n else none

abbrev negated : ℕ → ℤ
negated zero = pos 0
negated (suc n) = negsuc n

abbrev as_int : Bool → Option ℕ → Option ℤ
as_int negative none = none
as_int false (some n) = some (pos n)
as_int true (some n) = some (negated n)

-- Without a number, and for a value that does not fit, an exception is thrown.
unfoldable pub stoi : Text → Option ℤ
unfolding skip_spaces signed magnitude
stoi t =
    let r = signed (skip_spaces t) in
    as_int r.0 (below (if r.0 then 2 ^ 31 + 1 else 2 ^ 31) (magnitude r.1))

abbrev as_size : Bool → Option ℕ → Option ℕ
as_size negative none = none
as_size false (some n) = some n
as_size true (some n) = some ((size_mod - n) % size_mod)

-- A negative number wraps round.
unfoldable pub stoull : Text → Option ℕ
unfolding skip_spaces signed magnitude
stoull t = let r = signed (skip_spaces t) in as_size r.0 (below size_mod (magnitude r.1))
