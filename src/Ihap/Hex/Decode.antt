-- ===== src/Ihap/Hex/Decode.antt =====
-- `hexbinary_to_binary`: what it writes, and that it may convert a buffer in place.
use home_automation_bridge_z.Prelude.{
  ℕ, zero, suc, ◌+◌, ◌*◌, ◌/◌, ◌%◌, ◌≤◌, ◌<◌, ◌≡◌, refl, ◌∙◌, ◌⊎◌, inl, some, arith, update,
}
use home_automation_bridge_z.Ihap.Hex.{
  Memory, strlen, digit_pair, hexbinary_loop, hexbinary_to_binary,
}

-- The output lies before the input, or at the same place, or behind the input.
abbrev pub Apart : ℕ → ℕ → ℕ → Type 0
Apart input output n = (output ≤ input) ⊎ (input + 2 * n ≤ output)

-- `m'` holds, from `output` on, the bytes for the `n` pairs of characters at `input` in `m` and a
-- zero; everywhere else it is `m`.
pub record Decoded (input output n : ℕ) (m m' : Memory) : Type 0 where
  pub bytes :
      (k : ℕ) → k < n → m' (output + k) ≡ digit_pair (m (input + 2 * k)) (m (input + 2 * k + 1))
  pub terminator : m' (output + n) ≡ 0
  pub outside : (p : ℕ) → (p < output) ⊎ (output + n < p) → m' p ≡ m p

-- From round `j` on, with `q` for `output + j`.
record Rest (input q r : ℕ) (m m' : Memory) : Type 0 where
  bytes : (k p s : ℕ) → k < r → p ≡ q + k → s ≡ input + 2 * k → m' p ≡ digit_pair (m s) (m (s + 1))
  terminator : (p : ℕ) → p ≡ q + r → m' p ≡ 0
  outside : (p : ℕ) → (p < q) ⊎ (q + r < p) → m' p ≡ m p

Rest-cons :
    (r input o q : ℕ) (m m' : Memory)
    → q ≡ o
    → (q ≤ input) ⊎ (input + 2 * suc r ≤ q)
    → Rest (input + 2) (suc q) r (update m o (digit_pair (m input) (m (input + 1)))) m'
    → Rest input q (suc r) m m'
Rest-cons r input o q m m' eq apart ih = record {
  bytes = cases;
  terminator = λ p e. ih.terminator p (omega arith);
  outside = λ p e. ih.outside p (omega arith) ∙ ground arith;
}
  where
    cases :
        (k p s : ℕ)
        → k < suc r
        → p ≡ q + k
        → s ≡ input + 2 * k
        → m' p ≡ digit_pair (m s) (m (s + 1))
    cases zero p s lt ep es =
        let here : s ≡ input = omega arith in
        ih.outside p (inl (omega arith)) ∙ rw here (ground arith)
    cases (suc k) p s lt ep es =
        ih.bytes k p s (omega arith) (omega arith) (omega arith) ∙ ground arith

loop_Rest :
    (r j input output q : ℕ) (m : Memory)
    → q ≡ output + j
    → (q ≤ input) ⊎ (input + 2 * r ≤ q)
    → Rest input q r m (hexbinary_loop r j input output m)
unfolding hexbinary_loop
loop_Rest zero j input output q m eq apart = record {
  bytes = λ k p s lt. absurd (omega arith);
  terminator = λ p e. ground arith;
  outside = λ p e. ground arith;
}
loop_Rest (suc r) j input output q m eq apart = Rest-cons r input (output + j) q m _ eq apart (
    loop_Rest r (suc j) (input + 2) output (suc q)
      (update m (output + j) (digit_pair (m input) (m (input + 1)))) (omega arith) (omega arith))

-- `hexbinary_to_binary` on a string of `n` characters returns half their number, as a byte, and
-- writes that many converted pairs and a zero, and nothing else. The output may overlap the input,
-- as in the conversion of a buffer in place, unless it begins inside the characters that it reads.
pub hexbinary_to_binary-Decoded :
    (fuel input output n : ℕ) (m : Memory)
    → strlen fuel m input ≡ some n
    → Apart input output (n / 2 % 256)
    → (m' : Memory) × (hexbinary_to_binary fuel input output m ≡ some (n / 2 % 256, m'))
      × Decoded input output (n / 2 % 256) m m'
unfolding hexbinary_to_binary
hexbinary_to_binary-Decoded fuel input output n m len apart =
    let length = n / 2 % 256 in
    let m' = hexbinary_loop length 0 input output m in
    let done = loop_Rest length 0 input output output m (omega arith) apart in
    (
      m',
      rw (len, hexbinary_to_binary),
      record {
        bytes = λ k lt. done.bytes k (output + k) (input + 2 * k) lt refl refl;
        terminator = done.terminator (output + length) refl;
        outside = done.outside;
      },
    )
