-- ===== src/LocalStorage/Bytes.antt =====
-- The bytes of vectors and of key hashes in src/storage/local_storage.cpp, on a machine whose words are
-- little-endian.
use native.Mathlib.Nat.{mul-mod_left}
use dann.Prelude.{
  ℕ, ◌+◌, ◌*◌, ◌/◌, ◌%◌, ◌^◌, ◌<◌, ◌≡◌, refl, ap, List, [], ◌∷◌, ◌++◌, All, length, ◌==◌,
  if◌then◌else◌, arith,
}
use dann.Dict.{Text, hex_digit}
use dann.Types.{Float}

-- The four bytes of a float's pattern.
abbrev bytes_of : Float → Text
bytes_of x = x % 256 ∷ x / 256 % 256 ∷ x / 65536 % 256 ∷ x / 16777216 % 256 ∷ []

unfoldable pub serialize_vector : List Float → Text
serialize_vector [] = []
serialize_vector (x ∷ vector) = bytes_of x ++ serialize_vector vector

unfoldable pub floats_from : Text → List Float
floats_from (a ∷ b ∷ c ∷ d ∷ bytes) = (a + b * 256 + c * 65536 + d * 16777216) ∷ floats_from bytes
floats_from bytes = []

unfoldable pub deserialize_vector : Text → List Float
unfolding floats_from
deserialize_vector bytes = if length bytes % 4 == 0 then floats_from bytes else []

-- Each byte of the digest as two digits.
unfoldable pub hex_of : List ℕ → Text
hex_of [] = []
hex_of (b ∷ digest) = hex_digit (b / 16) ∷ hex_digit (b % 16) ∷ hex_of digest

length-serialize_vector :
    (vector : List Float) → length (serialize_vector vector) ≡ length vector * 4
unfolding serialize_vector
length-serialize_vector [] = refl
length-serialize_vector (x ∷ vector) = omega (arith, length-serialize_vector vector)

floats_from-serialize_vector :
    (vector : List Float)
    → All (λ x. x < 2 ^ 32) vector
    → floats_from (serialize_vector vector) ≡ vector
unfolding floats_from serialize_vector
floats_from-serialize_vector [] h = refl
floats_from-serialize_vector (x ∷ vector) h =
    rw (floats_from-serialize_vector vector h.1) (ap (λ y. y ∷ vector) (omega (arith, h.0)))

-- A vector of 32-bit floats is read back from the bytes that it is written to, which are four for each
-- float.
pub deserialize_vector-serialize_vector :
    (vector : List Float)
    → All (λ x. x < 2 ^ 32) vector
    → (deserialize_vector (serialize_vector vector) ≡ vector)
      × (length (serialize_vector vector) ≡ length vector * 4)
unfolding deserialize_vector
deserialize_vector-serialize_vector vector h = (
  rw (length-serialize_vector vector, mul-mod_left (length vector) 4)
      (floats_from-serialize_vector vector h),
  length-serialize_vector vector,
)
