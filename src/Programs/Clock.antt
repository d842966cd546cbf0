-- ===== src/Programs/Clock.antt =====
-- timestamp.cpp, which shows the time twice. The class in it is that of Timestamp.cpp.
use reactor_server.Base.{
  ℕ, suc, ◌≡◌, refl, ℤ, pos, negsuc, Option, some, List, [], ◌∷◌, Outcome, ok, ◌>>=◌,
}
use reactor_server.Timestamp.{Tm, now, toint, tostring}
use reactor_server.Timestamp.Order.{InRange, lt_text, earlier, tostring-lt_text}
use reactor_server.Timestamp.Printf.{digits_on}

-- `std::cout << n`, of a number of 64 bits, which has at most nineteen digits.
unfoldable pub shown : ℤ → List ℕ
shown (pos n) = digits_on 20 n []
shown (negsuc n) = b'-' ∷ digits_on 20 (suc n) []

-- The lines that `main` prints; `time` tells what the calls of `time(0)` answer, in their order.
unfoldable pub main : (ℤ → Option Tm) → (ℕ → ℤ) → Outcome (List (List ℕ))
unfolding now toint tostring
main localtime time = do
  let ts = now (time 0)
  date ← tostring localtime ts
  date' ← tostring localtime (now (time 2))
  ok (shown (toint ts) ∷ date ∷ shown (toint (now (time 1))) ∷ date' ∷ [])

-- The fields of the two times that are shown as dates are as localtime(3) promises, and their years
-- have four digits. The program prints four lines, and to compare the dates in them as texts is to
-- compare the times.
pub main-lt_text :
    (localtime : ℤ → Option Tm) (time : ℕ → ℤ) (a b : Tm) (y z : ℕ)
    → localtime (time 0) ≡ some a
    → localtime (time 2) ≡ some b
    → InRange a y
    → InRange b z
    → (u v : List ℕ) × (main localtime time ≡ ok (shown (time 0) ∷ u ∷ shown (time 1) ∷ v ∷ []))
      × (lt_text u v ≡ earlier a y b z)
unfolding main now toint
main-lt_text localtime time a b y z e e' h h' =
    let (u, v, first, second, order) =
      tostring-lt_text localtime (now (time 0)) (now (time 2)) a b y z e e' h h' in
    (u, v, rw (first, second) refl, order)
