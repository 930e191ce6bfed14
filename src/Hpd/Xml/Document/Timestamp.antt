-- ===== src/Hpd/Xml/Document/Timestamp.antt =====
-- The size of a timestamp.
use native.Mathlib.Numerals.{unary_clauses}
use home_automation_bridge_z.Prelude.{
  ℕ, zero, suc, ◌+◌, ◌/◌, ◌%◌, ◌*◌, ◌^◌, ◌≤◌, ◌<◌, ◌≡◌, refl, Bool, true, false, Option, none, some,
  List, [], ◌∷◌, ◌++◌, ltb, Text, codes, length, length-append, get_elem?, every_less,
  every_less_lem, ◌==◌, arith, tests,
}
use home_automation_bridge_z.Hpd.Xml.Document.{
  Tm, digits, decimal, pad, wday_name, mon_name, stamp, timestamp,
}

abbrev fills : (fill width : ℕ) → ℕ → Bool
fills fill width n = length (pad fill width (decimal n)) == width

pad-mday : (n : ℕ) → n < 32 → length (pad 32 3 (decimal n)) ≡ 3
unfolding every_less digits
pad-mday n less = let e = every_less_lem (fills 32 3) 32 n less refl in ground arith

pad-time : (n : ℕ) → n < 61 → length (pad 48 2 (decimal n)) ≡ 2
unfolding every_less digits
pad-time n less = let e = every_less_lem (fills 48 2) 61 n less refl in ground arith

-- A number of k + 1 digits is printed with as many.
length-digits :
    (k fuel n p : ℕ)
    → p ≡ 10 ^ k
    → 1 ≤ p
    → p ≤ n
    → n < 10 * p
    → k < fuel
    → length (digits fuel n) ≡ suc k
unfolding digits
length-digits k zero n p e one low high enough = absurd (omega arith)
length-digits zero (suc fuel) n p e one low high enough =
    let small : ltb n 10 ≡ true = omega (tests, e) in rw small refl
length-digits (suc k) (suc fuel) n p e one low high enough =
    let p' = 10 ^ k in
    let power : p ≡ p' * 10 = simp unary_clauses at e in
    let e' : p ≡ 10 * p' = omega (arith, power) in
    let ten : 10 ≤ n = omega (arith, e') in
    let large : ltb n 10 ≡ false = ground arith in
    let rest =
      length-digits k fuel (n / 10) p' refl (omega (arith, e')) (omega (arith, e'))
        (omega (arith, e')) (omega arith) in
    rw large (omega (arith, length-append (digits fuel (n / 10)) ((48 + n % 10) ∷ []), rest))

-- Each `%.3s` prints three bytes.
abbrev three : Option Text → Bool
three none = false
three (some t) = length t == 3

three_lem : (o : Option Text) → three o ≡ true → (t : Text) × (o ≡ some t) × (length t ≡ 3)
three_lem none e = cc
three_lem (some t) e = (t, refl, ground arith)

name_three :
    (names : List Text) (bound i : ℕ)
    → every_less (λ k. three (get_elem? names k)) bound ≡ true
    → i < bound
    → (t : Text) × (get_elem? names i ≡ some t) × (length t ≡ 3)
name_three names bound i all less =
    three_lem (get_elem? names i) (every_less_lem (λ k. three (get_elem? names k)) bound i less all)

length-stamp :
    (w m a b c d e : Text)
    → length (
        w
        ++ codes " "
        ++ m
        ++ a
        ++ codes " "
        ++ b
        ++ codes ":"
        ++ c
        ++ codes ":"
        ++ d
        ++ codes " "
        ++ e)
      ≡ length w + length m + length a + length b + length c + length d + length e + 5
length-stamp w m a b c d e = simp (length-append) (omega arith)

-- A time of the calendar, in a year of four digits, is printed with 24 bytes, so that the timestamp
-- and its terminating zero are just as long as the array of 25 that they are printed into.
pub timestamp-Fits :
    (tm : Tm)
    → tm.tm_wday < 7
    → tm.tm_mon < 12
    → tm.tm_mday < 32
    → tm.tm_hour < 24
    → tm.tm_min < 60
    → tm.tm_sec < 61
    → tm.tm_year < 8100
    → (t : Text) × (timestamp tm ≡ some t) × (length t + 1 ≡ 25)
unfolding timestamp every_less
timestamp-Fits tm wday mon mday hour min sec year =
    let (w, w_is, w_three) = name_three wday_name 7 tm.tm_wday refl wday in
    let (m, m_is, m_three) = name_three mon_name 12 tm.tm_mon refl mon in
    let day = pad-mday tm.tm_mday mday in
    let hour_two = pad-time tm.tm_hour (omega arith) in
    let min_two = pad-time tm.tm_min (omega arith) in
    let sec_two = pad-time tm.tm_sec sec in
    let year_four =
      length-digits 3 10 (1900 + tm.tm_year) 1000 refl (omega arith) (omega arith) (omega arith)
        (omega arith) in
    let whole =
      length-stamp w m (pad 32 3 (decimal tm.tm_mday)) (pad 48 2 (decimal tm.tm_hour))
        (pad 48 2 (decimal tm.tm_min)) (pad 48 2 (decimal tm.tm_sec))
        (decimal (1900 + tm.tm_year)) in
    (stamp w m tm, rw (w_is, m_is) refl, omega arith)
