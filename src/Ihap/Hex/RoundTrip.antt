-- ===== src/Ihap/Hex/RoundTrip.antt =====
-- The two conversions one after the other.
use home_automation_bridge_z.Prelude.{
  ℕ, zero, suc, ◌+◌, ◌-◌, ◌*◌, ◌/◌, ◌%◌, ◌≤◌, ◌<◌, ◌≡◌, ◌≢◌, refl, ap, ◌∙◌, sym, inl, inr, some,
  true, false, arith, ◌==◌, Bool-cases, ==_iff, every_less, every_less_lem,
}
use home_automation_bridge_z.Ihap.Hex.{
  Memory, strlen, hex_char, digit_pair, binary_to_hexbinary, hexbinary_to_binary,
}
use home_automation_bridge_z.Ihap.Hex.Decode.{hexbinary_to_binary-Decoded}
use home_automation_bridge_z.Ihap.Hex.Encode.{Disjoint, Encoded, binary_to_hexbinary-Encoded}

pair_table : every_less (λ x. digit_pair (hex_char (x / 16)) (hex_char (x % 16)) == x) 256 ≡ true
unfolding every_less digit_pair hex_char
pair_table = refl

digit_pair-hex_char : (x : ℕ) → x < 256 → digit_pair (hex_char (x / 16)) (hex_char (x % 16)) ≡ x
digit_pair-hex_char x h = (==_iff _ x).0 (every_less_lem _ 256 x h pair_table)

hex_char-ne_zero : (v : ℕ) → hex_char v ≢ 0
unfolding hex_char
hex_char-ne_zero v = ground arith

strlen_lem :
    (n f p : ℕ) (m : Memory)
    → n < f
    → ((k : ℕ) → p ≤ k → k < p + n → m k ≢ 0)
    → m (p + n) ≡ 0
    → strlen f m p ≡ some n
unfolding strlen
strlen_lem n zero p m fuel text end = absurd (omega arith)
strlen_lem zero (suc f) p m fuel text end =
    let here : m p ≡ 0 = ap m (omega arith) ∙ end in rw (here, strlen)
strlen_lem (suc n) (suc f) p m fuel text end =
    let more : (m p == 0) ≡ false = ground (arith, text p) in
    let ih : strlen f m (suc p) ≡ some n =
      strlen_lem n f (suc p) m (omega arith) (λ k a b. text k (omega arith) (omega arith))
        (ap m (omega arith) ∙ end) in
    rw (more, strlen) (rw ih)

digits_text :
    (input output n : ℕ) (m m' : Memory)
    → Encoded input output n m m'
    → (k : ℕ) → output ≤ k
    → k < output + 2 * n
    → m' k ≢ 0
digits_text input output n m m' enc k lo hi e =
    let i = (k - output) / 2 in
    elim (Bool-cases (output + 2 * i == k)) [
      | inl even ↦
          hex_char-ne_zero (m (input + i) / 16)
            (sym (enc.high i (omega arith)) ∙ ap m' (ground arith) ∙ e)
      | inr odd ↦
          hex_char-ne_zero (m (input + i) % 16)
            (sym (enc.low i (omega arith)) ∙ ap m' (ground arith) ∙ e)
    ]

end_kept :
    (input output n : ℕ) (m m' : Memory)
    → Encoded input output n m m'
    → m (output + 2 * n) ≡ 0
    → m' (output + 2 * n) ≡ 0
end_kept input output zero m m' enc e = ap m' (omega arith) ∙ enc.terminator
end_kept input output (suc n) m m' enc e =
    enc.outside (output + 2 * suc n) (inr (omega arith)) (λ p. omega arith) ∙ e

-- At most 255 bytes, written as digits into a buffer that holds a zero behind them beforehand, are
-- read back by `hexbinary_to_binary`, which returns their number; it may write them over the
-- digits.
pub hexbinary_to_binary-binary_to_hexbinary :
    (input output back n : ℕ) (m : Memory)
    → n < 256
    → Disjoint input output n
    → ((k : ℕ) → k < n → m (input + k) < 256)
    → m (output + 2 * n) ≡ 0
    → back ≤ output
    → (m' : Memory) × (m'' : Memory) × (binary_to_hexbinary 256 input output n m
        ≡ some (n * 2 % 256, m'))
      × (hexbinary_to_binary 512 output back m' ≡ some (n, m''))
      × ((k : ℕ) → k < n → m'' (back + k) ≡ m (input + k))
hexbinary_to_binary-binary_to_hexbinary input output back n m small apart bytes zeroed before =
    let (m', run, enc) = binary_to_hexbinary-Encoded input output n m small apart in
    let len : strlen 512 m' output ≡ some (2 * n) =
      strlen_lem (2 * n) 512 output m' (omega arith) (digits_text input output n m m' enc)
        (end_kept input output n m m' enc zeroed) in
    let half : 2 * n / 2 % 256 ≡ n = omega arith in
    let (m'', run', dec) =
      hexbinary_to_binary-Decoded 512 output back (2 * n) m' len (inl before) in
    (
      m',
      m'',
      run,
      run' ∙ ap (λ l. some (l, m'')) half,
      λ k lt.
          dec.bytes k (omega arith)
          ∙ cc (enc.high k lt, enc.low k lt)
          ∙ digit_pair-hex_char (m (input + k)) (bytes k lt),
    )
