-- ===== src/Base/Lists.antt =====
-- Lists measured and cut by native numbers, under the library's names.
use Prim.Native.Nat.{ℕ, zero, suc, ◌+◌, ◌-◌, ◌≤◌, ◌<◌, min}
use mathlib.Core.Path.{◌≡◌, refl, sym, ap}
use mathlib.Core.Logic.{inl, inr}
use mathlib.Core.List.{List, [], ◌∷◌, ◌++◌}
use mathlib.Core.Option.{Option, none, some, some-injective}
use reactor_server.Base.Tests.{Option-cases}
use native.Mathlib.Omega.{arith}

module _ {ℓ} {A : Type ℓ} where
  abbrev pub length : List A → ℕ
  length [] = 0
  length (x ∷ xs) = suc (length xs)

  abbrev pub get_elem? : List A → ℕ → Option A
  get_elem? [] i = none
  get_elem? (x ∷ xs) zero = some x
  get_elem? (x ∷ xs) (suc i) = get_elem? xs i

  -- A write out of bounds changes nothing.
  abbrev pub set : List A → ℕ → A → List A
  set [] i v = []
  set (x ∷ xs) zero v = v ∷ xs
  set (x ∷ xs) (suc i) v = x ∷ set xs i v

  abbrev pub take : ℕ → List A → List A
  take zero xs = []
  take (suc n) [] = []
  take (suc n) (x ∷ xs) = x ∷ take n xs

  abbrev pub drop : ℕ → List A → List A
  drop zero xs = xs
  drop (suc n) [] = []
  drop (suc n) (x ∷ xs) = drop n xs

  -- The element at a place, and the others.
  abbrev pub pull : ℕ → List A → Option (A × List A)
  pull j [] = none
  pull zero (x ∷ xs) = some (x, xs)
  pull (suc j) (x ∷ xs) = elim (pull j xs) [ none ↦ none | some (y, ys) ↦ some (y, x ∷ ys) ]

  nothing : {x : A × List A} → none ≡ some x → ⊥
  nothing h = cc

  pulled : {p q : A × List A} → some p ≡ some q → (p.0 ≡ q.0) × (p.1 ≡ q.1)
  pulled h = let same = some-injective _ _ h in (ap (λ r. r.0) same, ap (λ r. r.1) same)

  -- Where it stood.
  pub pull-parts :
      (j : ℕ) (xs rest : List A) (x : A)
      → pull j xs ≡ some (x, rest)
      → (front back : List A) × (xs ≡ front ++ x ∷ back)
        × (rest ≡ front ++ back)
        × (length front ≡ j)
  pull-parts j [] rest x e = absurd (nothing e)
  pull-parts zero (y ∷ xs) rest x e =
      let (same, left) = pulled e in ([], xs, rw same refl, sym left, refl)
  pull-parts (suc j) (y ∷ xs) rest x e = elim (Option-cases (pull j xs)) [
    | inl none_ ↦ absurd (nothing (rw none_ at e))
    | inr ((z, others), some_) ↦
        let (same, left) = pulled (rw some_ at e) in
        let (front, back, at, rest_, place) = pull-parts j xs others z some_ in
        (y ∷ front, back, rw (at, same) refl, rw (← left, rest_) refl, omega (arith, place))
  ]

  pub pull-some :
      (j : ℕ) (xs : List A)
      → j < length xs
      → (x : A) × (rest : List A) × (pull j xs ≡ some (x, rest))
  pull-some j [] h = absurd (omega arith)
  pull-some zero (x ∷ xs) h = (x, xs, refl)
  pull-some (suc j) (y ∷ xs) h =
      let (x, rest, e) = pull-some j xs (omega arith) in (x, y ∷ rest, rw e refl)

  pub length-append : (xs ys : List A) → length (xs ++ ys) ≡ length xs + length ys
  length-append [] ys = omega arith
  length-append (x ∷ xs) ys = omega (arith, length-append xs ys)

  pub take-append-drop : (n : ℕ) (xs : List A) → take n xs ++ drop n xs ≡ xs
  take-append-drop zero xs = refl
  take-append-drop (suc n) [] = refl
  take-append-drop (suc n) (x ∷ xs) = ap (◌∷◌ x) (take-append-drop n xs)

  pub length-take : (n : ℕ) (xs : List A) → length (take n xs) ≡ min n (length xs)
  length-take zero xs = omega arith
  length-take (suc n) [] = omega arith
  length-take (suc n) (x ∷ xs) = omega (arith, length-take n xs)

  pub length-drop : (n : ℕ) (xs : List A) → length (drop n xs) ≡ length xs - n
  length-drop zero xs = omega arith
  length-drop (suc n) [] = omega arith
  length-drop (suc n) (x ∷ xs) = omega (arith, length-drop n xs)

  pub take-all : (n : ℕ) (xs : List A) → length xs ≤ n → take n xs ≡ xs
  take-all zero [] h = refl
  take-all zero (x ∷ xs) h = absurd (omega arith)
  take-all (suc n) [] h = refl
  take-all (suc n) (x ∷ xs) h = ap (◌∷◌ x) (take-all n xs (omega arith))

  pub drop-all : (n : ℕ) (xs : List A) → length xs ≤ n → drop n xs ≡ []
  drop-all zero [] h = refl
  drop-all zero (x ∷ xs) h = absurd (omega arith)
  drop-all (suc n) [] h = refl
  drop-all (suc n) (x ∷ xs) h = drop-all n xs (omega arith)

  -- A prefix of the given length, taken off.
  pub take-append : (xs ys : List A) → take (length xs) (xs ++ ys) ≡ xs
  take-append [] ys = refl
  take-append (x ∷ xs) ys = ap (◌∷◌ x) (take-append xs ys)

  pub drop-append : (xs ys : List A) → drop (length xs) (xs ++ ys) ≡ ys
  drop-append [] ys = refl
  drop-append (x ∷ xs) ys = drop-append xs ys
