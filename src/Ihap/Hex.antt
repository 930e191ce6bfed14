-- ===== src/Ihap/Hex.antt =====
-- ihaplite/auxfunctions.c: conversion between bytes and hexadecimal text. Both functions work on
-- one memory of bytes, since iptask.c converts a buffer in place.
pub mod Decode
pub mod Encode
pub mod RoundTrip
mod Tests
use home_automation_bridge_z.Prelude.{
  ℕ, zero, suc, ◌+◌, ◌-◌, ◌*◌, ◌/◌, ◌%◌, ◌≡◌, ◌<◌, Bool, ◌&&◌, Option, none, some, true, false,
  ◌==◌, ltb, leb, if◌then◌else◌, update,
}

-- The byte at each address.
abbrev pub Memory : Type 0
Memory = ℕ → ℕ

-- The standard library's `strlen`; the first argument bounds the bytes that are looked at.
pub strlen : ℕ → Memory → ℕ → Option ℕ
strlen zero m p = none
strlen (suc f) m p = elim (m p == 0) [
  | true ↦ some 0
  | false ↦ elim (strlen f m (suc p)) [ none ↦ none | some n ↦ some (suc n) ]
]

-- `value = (value << 4) + digit`, in an `unsigned char`; any other character leaves `value` alone.
pub shift_digit : ℕ → ℕ → ℕ
shift_digit value c =
    if leb 48 c && leb c 57
    then (value * 16 + (c - 48)) % 256
    else if leb 65 c && leb c 70
    then (value * 16 + (c - 65 + 10)) % 256
    else if leb 97 c && leb c 102
    then (value * 16 + (c - 97 + 10)) % 256
    else value

-- The byte that two characters stand for.
pub digit_pair : ℕ → ℕ → ℕ
unfolding shift_digit
digit_pair c d = shift_digit (shift_digit 0 c) d

-- `for (j = 0; j < length; j++)`, with the rounds left as the first argument; behind the loop the
-- terminating zero.
hexbinary_loop : ℕ → ℕ → ℕ → ℕ → Memory → Memory
hexbinary_loop zero j input output m = update m (output + j) 0
hexbinary_loop (suc r) j input output m =
    hexbinary_loop r (suc j) (input + 2) output
      (update m (output + j) (digit_pair (m input) (m (input + 1))))

-- The length is `strlen(input) / 2` in an `unsigned char`. `none`: no zero within `fuel` bytes.
pub hexbinary_to_binary : ℕ → ℕ → ℕ → Memory → Option (ℕ × Memory)
unfolding hexbinary_loop strlen
hexbinary_to_binary fuel input output m = elim (strlen fuel m input) [
  | none ↦ none
  | some n ↦ let length = n / 2 % 256 in some (length, hexbinary_loop length 0 input output m)
]

-- The character of a digit: `value + '0'` or `value + 55`.
pub hex_char : ℕ → ℕ
hex_char value = if ltb value 10 then value + 48 else value + 55

-- One round: the high digit is written before `*input` is read again for the low one.
abbrev pub write_pair : ℕ → ℕ → Memory → Memory
write_pair input output m =
    let m' = update m output (hex_char (m input / 16)) in
    update m' (output + 1) (hex_char (m' input % 16))

-- `for (j = 0; j < input_length; j++)` with `j` an `unsigned char` and `input_length` an
-- `unsigned int`. `output` moves along, and the zero goes to `output[j]`.
binary_loop : ℕ → ℕ → ℕ → ℕ → ℕ → Memory → Option Memory
binary_loop zero j n input output m = none
binary_loop (suc f) j n input output m =
    let rest =
      binary_loop f ((j + 1) % 256) n (input + 1) (output + 2) (write_pair input output m) in
    if ltb j n then rest else some (update m (output + j) 0)

-- Returns `input_length * 2` as an `unsigned char`. `none`: the loop does not end in `fuel` rounds.
pub binary_to_hexbinary : ℕ → ℕ → ℕ → ℕ → Memory → Option (ℕ × Memory)
unfolding binary_loop hex_char
binary_to_hexbinary fuel input output n m = elim (binary_loop fuel 0 n input output m) [
  | none ↦ none
  | some m' ↦ some (n * 2 % 256, m')
]
