-- ===== src/Ihap/Hex/Encode.antt =====
-- `binary_to_hexbinary`: the digits that it writes, where its terminating zero goes, and when the
-- loop does not end.
use home_automation_bridge_z.Prelude.{
  ℕ, zero, suc, ◌+◌, ◌*◌, ◌/◌, ◌%◌, ◌≤◌, ◌<◌, ◌≡◌, ◌≢◌, refl, ◌∙◌, ◌⊎◌, inl, none, some, true,
  false, arith, ltb, lt→ltb, update,
}
use home_automation_bridge_z.Ihap.Hex.{
  Memory, hex_char, write_pair, binary_loop, binary_to_hexbinary,
}

-- The bytes that are read and those that are written do not overlap.
abbrev pub Disjoint : ℕ → ℕ → ℕ → Type 0
Disjoint input output n = (input + n ≤ output) ⊎ (output + 2 * n ≤ input)

-- `m'` holds, from `output` on, two digits for each of the `n` bytes at `input` in `m`, and a zero
-- at `output + 3 * n`; everywhere else it is `m`.
pub record Encoded (input output n : ℕ) (m m' : Memory) : Type 0 where
  pub high : (k : ℕ) → k < n → m' (output + 2 * k) ≡ hex_char (m (input + k) / 16)
  pub low : (k : ℕ) → k < n → m' (output + 2 * k + 1) ≡ hex_char (m (input + k) % 16)
  pub terminator : m' (output + 3 * n) ≡ 0
  pub outside : (p : ℕ) → (p < output) ⊎ (output + 2 * n ≤ p) → p ≢ output + 3 * n → m' p ≡ m p

-- The last `r` rounds, with the output pointer at `q` and the zero for the address `z`.
record Rest (input q r z : ℕ) (m m' : Memory) : Type 0 where
  high : (k p s : ℕ) → k < r → p ≡ q + 2 * k → s ≡ input + k → m' p ≡ hex_char (m s / 16)
  low : (k p s : ℕ) → k < r → p ≡ q + 2 * k + 1 → s ≡ input + k → m' p ≡ hex_char (m s % 16)
  terminator : m' z ≡ 0
  outside : (p : ℕ) → (p < q) ⊎ (q + 2 * r ≤ p) → p ≢ z → m' p ≡ m p

Rest-cons :
    (r input q z : ℕ) (m m' : Memory)
    → (input + suc r ≤ q) ⊎ (q + 2 * suc r ≤ input)
    → q + 2 * suc r ≤ z
    → Rest (input + 1) (q + 2) r z (write_pair input q m) m'
    → Rest input q (suc r) z m m'
Rest-cons r input q z m m' apart far ih = record {
  high = highs;
  low = lows;
  terminator = ih.terminator;
  outside = λ p e ne. ih.outside p (omega arith) ne ∙ ground arith;
}
  where
    highs : (k p s : ℕ) → k < suc r → p ≡ q + 2 * k → s ≡ input + k → m' p ≡ hex_char (m s / 16)
    highs zero p s lt ep es =
        let here : s ≡ input = omega arith in
        ih.outside p (inl (omega arith)) (λ e. omega arith) ∙ rw here (ground arith)
    highs (suc k) p s lt ep es =
        ih.high k p s (omega arith) (omega arith) (omega arith) ∙ ground arith

    lows : (k p s : ℕ) → k < suc r → p ≡ q + 2 * k + 1 → s ≡ input + k → m' p ≡ hex_char (m s % 16)
    lows zero p s lt ep es =
        let here : s ≡ input = omega arith in
        ih.outside p (inl (omega arith)) (λ e. omega arith) ∙ rw here (ground arith)
    lows (suc k) p s lt ep es =
        ih.low k p s (omega arith) (omega arith) (omega arith) ∙ ground arith

loop_step :
    (f j n input q : ℕ) (m : Memory)
    → j < n
    → n < 256
    → binary_loop (suc f) j n input q m
      ≡ binary_loop f (j + 1) n (input + 1) (q + 2) (write_pair input q m)
unfolding binary_loop
loop_step f j n input q m lt small =
    let go : ltb j n ≡ true = lt→ltb j n lt in
    let next : (j + 1) % 256 ≡ j + 1 = omega arith in rw (go, next)

loop_Rest :
    (f r j n input q z : ℕ) (m : Memory)
    → r < f
    → j + r ≡ n
    → n < 256
    → z ≡ q + 2 * r + n
    → (input + r ≤ q) ⊎ (q + 2 * r ≤ input)
    → (m' : Memory) × (binary_loop f j n input q m ≡ some m') × Rest input q r z m m'
unfolding binary_loop
loop_Rest zero r j n input q z m fuel sum small ez apart = absurd (omega arith)
loop_Rest (suc f) zero j n input q z m fuel sum small ez apart =
    let stop : ltb j n ≡ false = ground arith in
    (
      update m (q + j) 0,
      rw stop,
      record {
        high = λ k p s lt. absurd (omega arith);
        low = λ k p s lt. absurd (omega arith);
        terminator = ground arith;
        outside = λ p e ne. ground arith;
      },
    )
loop_Rest (suc f) (suc r) j n input q z m fuel sum small ez apart =
    let (m', run, rest) =
      loop_Rest f r (j + 1) n (input + 1) (q + 2) z (write_pair input q m) (omega arith)
        (omega arith) small (omega arith) (omega arith) in
    (
      m',
      loop_step f j n input q m (omega arith) small ∙ run,
      Rest-cons r input q z m m' apart (omega arith) rest,
    )

-- For at most 255 bytes, apart from the output, the loop ends; the result is twice their number as
-- a byte, and the digits are written in upper case, two for each byte. The zero is not written
-- behind the digits, at `output + 2 * n`, but at `output + 3 * n`.
pub binary_to_hexbinary-Encoded :
    (input output n : ℕ) (m : Memory)
    → n < 256
    → Disjoint input output n
    → (m' : Memory) × (binary_to_hexbinary 256 input output n m ≡ some (n * 2 % 256, m'))
      × Encoded input output n m m'
unfolding binary_to_hexbinary
binary_to_hexbinary-Encoded input output n m small apart =
    let (m', run, rest) =
      loop_Rest 256 n 0 n input output (output + 3 * n) m small (omega arith) small (omega arith)
        apart in
    (
      m',
      rw (run, binary_to_hexbinary),
      record {
        high = λ k lt. rest.high k (output + 2 * k) (input + k) lt refl refl;
        low = λ k lt. rest.low k (output + 2 * k + 1) (input + k) lt refl refl;
        terminator = rest.terminator;
        outside = rest.outside;
      },
    )

never_ends :
    (f j n input output : ℕ) (m : Memory)
    → j < 256
    → 256 ≤ n
    → binary_loop f j n input output m ≡ none
unfolding binary_loop
never_ends zero j n input output m lt big = refl
never_ends (suc f) j n input output m lt big =
    let go : ltb j n ≡ true = lt→ltb j n (omega arith) in
    rw go (
      never_ends f ((j + 1) % 256) n (input + 1) (output + 2) (write_pair input output m)
        (omega arith) big)

-- With 256 bytes or more the `unsigned char` counter wraps before it reaches the length, and no
-- number of rounds is enough.
pub binary_to_hexbinary_diverges :
    (fuel input output n : ℕ) (m : Memory)
    → 256 ≤ n
    → binary_to_hexbinary fuel input output n m ≡ none
unfolding binary_to_hexbinary
binary_to_hexbinary_diverges fuel input output n m big =
    rw (never_ends fuel 0 n input output m (omega arith) big, binary_to_hexbinary)
