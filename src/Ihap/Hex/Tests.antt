-- ===== src/Ihap/Hex/Tests.antt =====
-- Runs of the two conversions.
use home_automation_bridge_z.Prelude.{
  ℕ, ◌+◌, ◌*◌, ◌%◌, ◌<◌, ◌≡◌, inl, refl, arith, none, some, ◌==◌, if◌then◌else◌,
}
use home_automation_bridge_z.Ihap.Hex.{
  Memory, hexbinary_to_binary, binary_to_hexbinary, shift_digit,
}
use home_automation_bridge_z.Ihap.Hex.Encode.{
  Encoded, binary_to_hexbinary-Encoded, binary_to_hexbinary_diverges,
}
use home_automation_bridge_z.Ihap.Hex.RoundTrip.{hexbinary_to_binary-binary_to_hexbinary}

-- The byte 171 at address 0.
abbrev one_byte : Memory
one_byte a = if a == 0 then 171 else 0

-- The characters `4B` at address 0.
abbrev two_digits : Memory
two_digits a = if a == 0 then 52 else if a == 1 then 66 else 0

-- A character that is no digit leaves the byte as it was.
no_digit : shift_digit 7 103 ≡ 7
unfolding shift_digit
no_digit = refl

hexbinary_to_binary-binary_to_hexbinary_example :
    (m' : Memory) × (m'' : Memory) × (binary_to_hexbinary 256 0 10 1 one_byte
      ≡ some (1 * 2 % 256, m'))
    × (hexbinary_to_binary 512 10 10 m' ≡ some (1, m''))
    × ((k : ℕ) → k < 1 → m'' (10 + k) ≡ one_byte (0 + k))
hexbinary_to_binary-binary_to_hexbinary_example =
    hexbinary_to_binary-binary_to_hexbinary 0 10 10 1 one_byte (omega arith) (inl (omega arith))
      (λ k lt. ground arith) refl (omega arith)

binary_to_hexbinary-Encoded_example :
    (m' : Memory) × (binary_to_hexbinary 256 0 10 1 one_byte ≡ some (1 * 2 % 256, m'))
    × Encoded 0 10 1 one_byte m'
binary_to_hexbinary-Encoded_example =
    binary_to_hexbinary-Encoded 0 10 1 one_byte (omega arith) (inl (omega arith))

binary_to_hexbinary_diverges_example : binary_to_hexbinary 1000 0 10 256 one_byte ≡ none
binary_to_hexbinary_diverges_example =
    binary_to_hexbinary_diverges 1000 0 10 256 one_byte (omega arith)
