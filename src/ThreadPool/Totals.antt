-- ===== src/ThreadPool/Totals.antt =====
-- Sums over the workers of a pool, and searches among them.
use reactor_server.Base.{
  ℕ, subst, zero, suc, ◌+◌, ◌≤◌, ◌<◌, ◌≡◌, ◌⊎◌, inl, inr, refl, arith, dec_lt,
}
use reactor_server.ThreadPool.System.{Pc, update}

-- Some worker below `n` is of the one kind, or all are of the other.
pub workers-cases :
    {P Q : ℕ → Type 0}
    → ((i : ℕ) → P i ⊎ Q i)
    → (n : ℕ) → ((i : ℕ) × (i < n) × P i) ⊎ ((i : ℕ) → i < n → Q i)
workers-cases one zero = inr (λ i lt. absurd (omega arith))
workers-cases {P = P} {Q = Q} one (suc n) = elim (workers-cases {P = P} {Q = Q} one n) [
  | inl (i, lt, at) ↦ inl (i, omega arith, at)
  | inr all ↦ elim (one n) [
    | inl at ↦ inl (n, omega arith, at)
    | inr last ↦ inr (λ i lt. elim (dec_lt i n) [
      | yes below ↦ all i below
      | no last_one ↦ subst Q (omega (arith, lt, last_one)) last
    ])
  ]
]

module _ {A : Type 0} (f : Pc A → ℕ) where
  unfoldable pub total : ℕ → (ℕ → Pc A) → ℕ
  total zero pc = 0
  total (suc n) pc = total n pc + f (pc n)

  total-above :
      (n : ℕ) (pc : ℕ → Pc A) (i : ℕ) (p : Pc A) → n ≤ i → total n (update pc i p) ≡ total n pc
  unfolding total
  total-above zero pc i p h = refl
  total-above (suc n) pc i p h = ground (arith, total-above n pc i p)

  -- A worker that moves.
  pub total-update :
      (n : ℕ) (pc : ℕ → Pc A) (i : ℕ) (p : Pc A)
      → i < n
      → total n (update pc i p) + f (pc i) ≡ total n pc + f p
  unfolding total
  total-update zero pc i p h = absurd (omega arith)
  total-update (suc n) pc i p h = elim (dec_lt i n) [
    | yes below ↦ ground (arith, total-update n pc i p below)
    | no last ↦ ground (arith, total-above n pc i p)
  ]

  -- A sum that is not zero has a part that is not.
  pub total-positive : (n : ℕ) (pc : ℕ → Pc A) → 0 < total n pc → (i : ℕ) × (i < n) × (0 < f (pc i))
  unfolding total
  total-positive zero pc h = absurd (omega arith)
  total-positive (suc n) pc h = elim (dec_lt 0 (f (pc n))) [
    | yes last ↦ (n, omega arith, last)
    | no none_ ↦
        let (i, lt, g) = total-positive n pc (omega (arith, h, none_)) in (i, omega arith, g)
  ]
