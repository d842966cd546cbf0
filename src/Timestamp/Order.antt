-- ===== src/Timestamp/Order.antt =====
-- The texts of times: how long they are, and that they stand in the order of the times.
use reactor_server.Base.{
  ℕ, suc, ◌+◌, ◌*◌, ◌/◌, ◌%◌, ◌≤◌, ◌<◌, ◌^◌, ◌≡◌, refl, ap, ◌∙◌, Bool, true, false, Option, some,
  Option-cases, lt→ltb, inl, inr, ltb, if◌then◌else◌, ℤ, pos, ◌+ℤ◌, List, [], ◌∷◌, ◌++◌, length,
  length-take, take-all, Outcome, ok, fault, arith,
}
use reactor_server.Timestamp.Printf.{percent_4d, percent_02d, two_digits, four_digits}
use reactor_server.Timestamp.{Timestamp, Tm, fits, print, tostring}

-- What localtime(3) says of the fields, for the years of four digits.
pub record InRange (tm : Tm) (year : ℕ) : Type 0 where
  pub year_of : tm.tm_year +ℤ pos 1900 ≡ pos year
  pub from_1000 : 1000 ≤ year
  pub to_9999 : year < 10000
  pub mon : tm.tm_mon < 12
  pub mday : tm.tm_mday ≤ 31
  pub hour : tm.tm_hour < 24
  pub min : tm.tm_min < 60
  pub sec : tm.tm_sec ≤ 60

-- One comparison, and what decides if the two are equal.
abbrev pub first : ℕ → ℕ → Bool → Bool
first a b rest = if ltb a b then true else if ltb b a then false else rest

-- `std::string::operator<`
abbrev pub lt_text : List ℕ → List ℕ → Bool
lt_text [] [] = false
lt_text [] (y ∷ v) = true
lt_text (x ∷ u) [] = false
lt_text (x ∷ u) (y ∷ v) = first x y (lt_text u v)

-- Which of two times is earlier, by their fields.
abbrev pub earlier : Tm → ℕ → Tm → ℕ → Bool
earlier s y t z = first y z (
    first s.tm_mon t.tm_mon (
      first s.tm_mday t.tm_mday
        (first s.tm_hour t.tm_hour (first s.tm_min t.tm_min (first s.tm_sec t.tm_sec false)))))

two-lt_text :
    (a b : ℕ) (u v : List ℕ)
    → a < 100
    → b < 100
    → lt_text (percent_02d a ++ u) (percent_02d b ++ v) ≡ first a b (lt_text u v)
two-lt_text a b u v ha hb = rw (two_digits a ha, two_digits b hb) (ground arith)

first-shift : (m n : ℕ) (r : Bool) → first (b'0' + m) (b'0' + n) r ≡ first m n r
first-shift m n r = ground arith

-- One more digit.
first-join :
    (m n m' n' x y : ℕ) (r : Bool)
    → x < 10
    → y < 10
    → m' ≡ m * 10 + x
    → n' ≡ n * 10 + y
    → first m n (first (b'0' + x) (b'0' + y) r) ≡ first m' n' r
first-join m n m' n' x y r hx hy e e' = ground arith

four-lt_text :
    (a b : ℕ) (u v : List ℕ)
    → 1000 ≤ a
    → a < 10000
    → 1000 ≤ b
    → b < 10000
    → lt_text (percent_4d (pos a) ++ u) (percent_4d (pos b) ++ v) ≡ first a b (lt_text u v)
four-lt_text a b u v ha ha' hb hb' =
    let r = lt_text u v in
    rw (four_digits a ha ha', four_digits b hb hb')
      (first-shift (a / 1000) (b / 1000) _
        ∙ first-join (a / 1000) (b / 1000) (a / 100) (b / 100) (a / 100 % 10) (b / 100 % 10) _
            (omega arith) (omega arith) (omega arith) (omega arith)
        ∙ first-join (a / 100) (b / 100) (a / 10) (b / 10) (a / 10 % 10) (b / 10 % 10) _
            (omega arith) (omega arith) (omega arith) (omega arith)
        ∙ first-join (a / 10) (b / 10) a b (a % 10) (b % 10) r (omega arith) (omega arith)
            (omega arith) (omega arith))

first-same : (c : ℕ) (r : Bool) → first c c r ≡ r
first-same c r = ground arith

-- A two-digit field behind a separator.
field-lt_text :
    (c a b : ℕ) (u v : List ℕ)
    → a < 100
    → b < 100
    → lt_text (c ∷ (percent_02d a ++ u)) (c ∷ (percent_02d b ++ v)) ≡ first a b (lt_text u v)
field-lt_text c a b u v ha hb =
    first-same c (lt_text (percent_02d a ++ u) (percent_02d b ++ v)) ∙ two-lt_text a b u v ha hb

last-lt_text :
    (c a b : ℕ)
    → a < 100
    → b < 100
    → lt_text (c ∷ percent_02d a) (c ∷ percent_02d b) ≡ first a b false
last-lt_text c a b ha hb = rw (two_digits a ha, two_digits b hb) (ground arith)

first-suc : (a b : ℕ) (r : Bool) → first (suc a) (suc b) r ≡ first a b r
first-suc a b r = ground arith

print-lt_text :
    (s t : Tm) (y z : ℕ) → InRange s y → InRange t z → lt_text (print s) (print t) ≡ earlier s y t z
unfolding print
print-lt_text s t y z hs ht =
    let min_sec =
      field-lt_text b':' s.tm_min t.tm_min (b':' ∷ percent_02d s.tm_sec)
        (b':' ∷ percent_02d t.tm_sec) (omega (arith, hs.min)) (omega (arith, ht.min))
      ∙ ap (first s.tm_min t.tm_min)
          (last-lt_text b':' s.tm_sec t.tm_sec (omega (arith, hs.sec)) (omega (arith, ht.sec))) in
    rw (hs.year_of, ht.year_of)
      (four-lt_text y z _ _ hs.from_1000 hs.to_9999 ht.from_1000 ht.to_9999
        ∙ ap (first y z) (
            field-lt_text b'-' (suc s.tm_mon) (suc t.tm_mon) _ _ (omega (arith, hs.mon))
              (omega (arith, ht.mon))
            ∙ first-suc s.tm_mon t.tm_mon _
            ∙ ap (first s.tm_mon t.tm_mon) (
                field-lt_text b'-' s.tm_mday t.tm_mday _ _ (omega (arith, hs.mday))
                  (omega (arith, ht.mday))
                ∙ ap (first s.tm_mday t.tm_mday) (
                    field-lt_text b' ' s.tm_hour t.tm_hour _ _ (omega (arith, hs.hour))
                      (omega (arith, ht.hour))
                    ∙ ap (first s.tm_hour t.tm_hour) min_sec))))

print-length : (tm : Tm) (y : ℕ) → InRange tm y → length (print tm) ≡ 19
unfolding print
print-length tm y h =
    rw
      (
        h.year_of,
        four_digits y h.from_1000 h.to_9999,
        two_digits (suc tm.tm_mon) (omega (arith, h.mon)),
        two_digits tm.tm_mday (omega (arith, h.mday)),
        two_digits tm.tm_hour (omega (arith, h.hour)),
        two_digits tm.tm_min (omega (arith, h.min)),
        two_digits tm.tm_sec (omega (arith, h.sec)),
      )
      refl

-- A year of four digits is printed whole.
tostring-print :
    (localtime : ℤ → Option Tm) (t : Timestamp) (tm : Tm) (y : ℕ)
    → localtime t.secsinceepoch ≡ some tm
    → InRange tm y
    → tostring localtime t ≡ ok (print tm)
unfolding tostring
tostring-print localtime t tm y e h =
    let whole : fits (tm.tm_year +ℤ pos 1900) ≡ true =
      rw h.year_of (lt→ltb y (2 ^ 31) (omega (arith, h.to_9999))) in
    rw (tostring, e, whole) (ap ok (take-all 19 (print tm) (omega (arith, print-length tm y h))))

tostring-short :
    (localtime : ℤ → Option Tm) (t : Timestamp) (u : List ℕ)
    → tostring localtime t ≡ ok u
    → length u ≤ 19
unfolding tostring
tostring-short localtime t u e = elim (Option-cases (localtime t.secsinceepoch)) [
  | inl nothing ↦ ground (arith, e, nothing)
  | inr (tm, found) ↦ ground (arith, e, found, length-take 19 (print tm))
]

abbrev pub IsAtMost : ℕ → Outcome (List ℕ) → Type 0
IsAtMost n (ok u) = length u ≤ n
IsAtMost n (fault e) = Unit

tostring-IsAtMost : (localtime : ℤ → Option Tm) (t : Timestamp) → IsAtMost 19 (tostring localtime t)
tostring-IsAtMost localtime t = short (tostring localtime t) (tostring-short localtime t)
  where
    short : (o : Outcome (List ℕ)) → ((u : List ℕ) → o ≡ ok u → length u ≤ 19) → IsAtMost 19 o
    short (ok u) h = h u refl
    short (fault e) h = tt

-- A time whose fields are as localtime(3) promises, with a year of four digits, has a text, of 19
-- characters, so that nothing is cut off; and no time has a longer one, so that `snprintf`'s 20 and
-- the buffer's 32 are enough.
pub tostring-length :
    (localtime : ℤ → Option Tm) (s t : Timestamp) (tm : Tm) (y : ℕ)
    → localtime t.secsinceepoch ≡ some tm
    → InRange tm y
    → (u : List ℕ) × (tostring localtime t ≡ ok u)
      × (length u ≡ 19)
      × IsAtMost 19 (tostring localtime s)
tostring-length localtime s t tm y e h = (
  print tm,
  tostring-print localtime t tm y e h,
  print-length tm y h,
  tostring-IsAtMost localtime s,
)

-- Two times whose fields are as localtime(3) promises and whose years have four digits: both have
-- texts, and to compare the texts is to compare the fields, from the year down to the second.
pub tostring-lt_text :
    (localtime : ℤ → Option Tm) (s t : Timestamp) (a b : Tm) (y z : ℕ)
    → localtime s.secsinceepoch ≡ some a
    → localtime t.secsinceepoch ≡ some b
    → InRange a y
    → InRange b z
    → (u v : List ℕ) × (tostring localtime s ≡ ok u)
      × (tostring localtime t ≡ ok v)
      × (lt_text u v ≡ earlier a y b z)
tostring-lt_text localtime s t a b y z e e' h h' = (
  print a,
  print b,
  tostring-print localtime s a y e h,
  tostring-print localtime t b z e' h',
  print-lt_text a b y z h h',
)
