-- ===== src/Timestamp.antt =====
-- Timestamp.h and Timestamp.cpp: a time, as a number and as a text.
pub mod Printf
pub mod Order
mod Tests
use reactor_server.Base.{
  ℕ, suc, ◌-◌, ◌<◌, ◌^◌, ltb, ℤ, pos, negsuc, ◌+ℤ◌, Option, none, some, List, [], ◌∷◌, ◌++◌, take,
  Outcome, ok, fault, undefined, guard, ◌>>=◌, ◌>>◌, true, false, Bool,
}
use reactor_server.Timestamp.Printf.{percent_4d, percent_02d}

-- The class.
pub record Timestamp : Type 0 where
  pub secsinceepoch : ℤ

-- The constructor of a given time, and the one of the current time, the answer of `time(0)`.
unfoldable pub create : ℤ → Timestamp
create secsinceepoch = record { secsinceepoch = secsinceepoch }

unfoldable pub now : ℤ → Timestamp
unfolding create
now time = create time

unfoldable pub toint : Timestamp → ℤ
toint t = t.secsinceepoch

-- `struct tm`, as far as it is read; of its fields only `tm_year`, the years since 1900, may be
-- negative.
pub record Tm : Type 0 where
  pub tm_year : ℤ
  pub tm_mon : ℕ
  pub tm_mday : ℕ
  pub tm_hour : ℕ
  pub tm_min : ℕ
  pub tm_sec : ℕ

-- The sum of two `int`s: an overflow has no meaning.
abbrev fits : ℤ → Bool
fits (pos n) = ltb n (2 ^ 31)
fits (negsuc n) = ltb n (2 ^ 31)

-- The text of `"%4d-%02d-%02d %02d:%02d:%02d"`.
unfoldable pub print : Tm → List ℕ
print tm =
    percent_4d (tm.tm_year +ℤ pos 1900)
    ++ (b'-'
        ∷ (percent_02d (suc tm.tm_mon)
            ++ (b'-'
                ∷ (percent_02d tm.tm_mday
                    ++ (b' '
                        ∷ (percent_02d tm.tm_hour
                            ++ (b':'
                                ∷ (percent_02d tm.tm_min ++ (b':' ∷ percent_02d tm.tm_sec)))))))))

-- `localtime` gives a null pointer for a year that is no `int`. `snprintf` writes at most 19
-- characters and the end of the string.
unfoldable pub tostring : (ℤ → Option Tm) → Timestamp → Outcome (List ℕ)
unfolding print
tostring localtime t = elim (localtime t.secsinceepoch) [
  | none ↦ fault undefined
  | some tm ↦ do guard (fits (tm.tm_year +ℤ pos 1900)) undefined; ok (take 19 (print tm))
]
