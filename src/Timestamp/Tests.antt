-- ===== src/Timestamp/Tests.antt =====
-- The 9th of March 2024 and the 10th of December 2023, by a calendar that knows two times.
use reactor_server.Base.{
  ℕ, zero, suc, ◌≡◌, refl, true, ℤ, pos, negsuc, Option, none, some, List, [], ◌∷◌, length, ok,
  arith,
}
use reactor_server.Timestamp.{Timestamp, Tm, print, tostring}
use reactor_server.Timestamp.Order.{InRange, IsAtMost, lt_text, tostring-length, tostring-lt_text}

abbrev march : Tm
march = record { tm_year = pos 124; tm_mon = 2; tm_mday = 9; tm_hour = 7; tm_min = 5; tm_sec = 60 }

abbrev december : Tm
december = record {
  tm_year = pos 123;
  tm_mon = 11;
  tm_mday = 10;
  tm_hour = 23;
  tm_min = 59;
  tm_sec = 0;
}

abbrev calendar : ℤ → Option Tm
calendar (negsuc n) = none
calendar (pos zero) = some december
calendar (pos (suc n)) = some march

abbrev before : Timestamp
before = record { secsinceepoch = pos 0 }

abbrev after : Timestamp
after = record { secsinceepoch = pos 8000000 }

march-InRange : InRange march 2024
march-InRange = record {
  year_of = refl;
  from_1000 = omega arith;
  to_9999 = omega arith;
  mon = omega arith;
  mday = omega arith;
  hour = omega arith;
  min = omega arith;
  sec = omega arith;
}

december-InRange : InRange december 2023
december-InRange = record {
  year_of = refl;
  from_1000 = omega arith;
  to_9999 = omega arith;
  mon = omega arith;
  mday = omega arith;
  hour = omega arith;
  min = omega arith;
  sec = omega arith;
}

-- "2024-03-09 07:05:60"
print-march :
    print march
    ≡ b'2' ∷ b'0' ∷ b'2' ∷ b'4' ∷ b'-' ∷ b'0' ∷ b'3' ∷ b'-' ∷ b'0' ∷ b'9' ∷ b' ' ∷ b'0' ∷ b'7'
      ∷ b':' ∷ b'0' ∷ b'5' ∷ b':' ∷ b'6' ∷ b'0' ∷ []
unfolding print
print-march = refl

tostring-length_example :
    (u : List ℕ) × (tostring calendar after ≡ ok u)
    × (length u ≡ 19)
    × IsAtMost 19 (tostring calendar before)
tostring-length_example = tostring-length calendar before after march 2024 refl march-InRange

tostring-lt_text_example :
    (u v : List ℕ) × (tostring calendar before ≡ ok u)
    × (tostring calendar after ≡ ok v)
    × (lt_text u v ≡ true)
tostring-lt_text_example =
    tostring-lt_text calendar before after december march 2023 2024 refl refl december-InRange
      march-InRange
