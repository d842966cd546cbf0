-- ===== src/Timestamp/Printf.antt =====
-- The two conversions of `snprintf` that the program uses, and what they print of numbers in range.
use reactor_server.Base.{
  ℕ, zero, suc, ◌+◌, ◌-◌, ◌/◌, ◌%◌, ◌≤◌, ◌<◌, ◌≡◌, arith, ltb, if◌then◌else◌, ℤ, pos, negsuc, List,
  [], ◌∷◌, length,
}

-- The decimal digits of a number; an `int` has at most ten.
abbrev pub digits_on : ℕ → ℕ → List ℕ → List ℕ
digits_on zero n out = out
digits_on (suc fuel) n out =
    let more = digits_on fuel (n / 10) ((b'0' + n % 10) ∷ out) in
    if ltb n 10 then (b'0' + n) ∷ out else more

abbrev pub digits : ℕ → List ℕ
digits n = digits_on 10 n []

abbrev pub pad : ℕ → ℕ → List ℕ → List ℕ
pad c zero s = s
pad c (suc n) s = c ∷ pad c n s

abbrev pub decimal : ℤ → List ℕ
decimal (pos n) = digits n
decimal (negsuc n) = b'-' ∷ digits (suc n)

abbrev pub percent_4d : ℤ → List ℕ
percent_4d z = let s = decimal z in pad b' ' (4 - length s) s

abbrev pub percent_02d : ℕ → List ℕ
percent_02d n = let s = digits n in pad b'0' (2 - length s) s

pub two_digits : (n : ℕ) → n < 100 → percent_02d n ≡ (b'0' + n / 10) ∷ (b'0' + n % 10) ∷ []
two_digits n h = ground arith

pub four_digits :
    (n : ℕ)
    → 1000 ≤ n
    → n < 10000
    → percent_4d (pos n)
      ≡ (b'0' + n / 1000) ∷ (b'0' + n / 100 % 10) ∷ (b'0' + n / 10 % 10) ∷ (b'0' + n % 10) ∷ []
four_digits n h h' = ground arith
