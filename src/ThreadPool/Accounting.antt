-- ===== src/ThreadPool/Accounting.antt =====
-- Every task that was started is in the hands of one worker or has returned. A bag of tasks is told
-- by the weights that it has: with the weight 1 for one task and 0 for the others, by how often it
-- holds that task.
use reactor_server.Base.{
  ℕ, zero, suc, ◌+◌, ◌≤◌, ◌<◌, ◌≡◌, refl, subst, dec_lt, true, List, [], ◌∷◌, ◌++◌, length, arith,
}
use reactor_server.ThreadPool.Moves.{actor, guard}
use reactor_server.ThreadPool.Totals.{total, total-update}
use reactor_server.ThreadPool.Safety.{in_task}
use reactor_server.ThreadPool.System.{
  Pc, head, running, System, Step, push, raise, notify_nobody, notify_all, take_task, finish, Reach,
  here, next, wake, init,
}

module _ {A : Type 0} (w : A → ℕ) where
  pub weight : List A → ℕ
  weight [] = 0
  weight (x ∷ xs) = w x + weight xs

  -- What one worker has in hand.
  abbrev pub in_hand : Pc A → ℕ
  in_hand (running x) = w x
  in_hand p = 0

  abbrev pub in_hands : ℕ → (ℕ → Pc A) → ℕ
  in_hands = total in_hand

  weight-append : (xs ys : List A) → weight (xs ++ ys) ≡ weight xs + weight ys
  unfolding weight
  weight-append [] ys = omega arith
  weight-append (x ∷ xs) ys = omega (arith, weight-append xs ys)

  weight-one : (x : A) → weight (x ∷ []) ≡ w x
  unfolding weight
  weight-one x = omega arith

  in_hands-init : (n : ℕ) → in_hands n (λ i. head) ≡ 0
  unfolding total
  in_hands-init zero = refl
  in_hands-init (suc n) = omega (arith, in_hands-init n)

  in_hands-wake : (n : ℕ) (pc : ℕ → Pc A) → in_hands n (λ j. wake (pc j)) ≡ in_hands n pc
  unfolding total
  in_hands-wake zero pc = refl
  in_hands-wake (suc n) pc = ground (arith, in_hands-wake n pc)

  abbrev Balanced : ℕ → System A → Type 0
  Balanced n s = weight s.started ≡ weight s.finished + in_hands n s.pc

  init-Balanced : (n : ℕ) → Balanced n init
  unfolding weight
  init-Balanced n = omega (arith, in_hands-init n)

  Step-Balanced : {n : ℕ} {s t : System A} → Step n s t → Balanced n s → Balanced n t
  unfolding actor
  Step-Balanced (push x e) b = b
  Step-Balanced (raise e) b = b
  Step-Balanced (notify_nobody m e f) b = b
  Step-Balanced {n} {s} (notify_all e) b = omega (arith, b, in_hands-wake n s.pc)
  Step-Balanced {n} {s} (take_task i x q lt at e) b = ground (
    arith,
    weight-append s.started (x ∷ []),
    weight-one x,
    total-update in_hand n s.pc i (running x) lt,
  )
  Step-Balanced {n} {s} (finish i x lt at) b = ground (
    arith,
    weight-append s.finished (x ∷ []),
    weight-one x,
    total-update in_hand n s.pc i head lt,
  )
  Step-Balanced {n} {s} {t} st b =
      ground (arith, guard st, total-update in_hand n s.pc (actor st) (t.pc (actor st)))

  -- In every reachable state, and by whatever weight tasks are counted, those that were started
  -- weigh as much as those that have returned together with those that the workers are running.
  pub started-finished :
      {n : ℕ} {s : System A} → Reach n s → weight s.started ≡ weight s.finished + in_hands n s.pc
  started-finished {n} here = init-Balanced n
  started-finished (next r st) = Step-Balanced st (started-finished r)

module _ {A : Type 0} where
  pub length-weight : (l : List A) → weight (λ x. 1) l ≡ length l
  unfolding weight
  length-weight [] = refl
  length-weight (x ∷ l) = omega (arith, length-weight l)

  in_hand-one : (p : Pc A) → in_task p ≡ true → in_hand (λ x. 1) p ≡ 1
  in_hand-one (running x) h = refl
  in_hand-one p h = cc

  -- As many tasks are in hand as there are workers, if every worker runs one.
  pub in_hands-full :
      (n : ℕ) (pc : ℕ → Pc A)
      → ((i : ℕ) → i < n → in_task (pc i) ≡ true)
      → in_hands (λ x. 1) n pc ≡ n
  unfolding total
  in_hands-full zero pc h = refl
  in_hands-full (suc n) pc h = omega (
    arith,
    in_hands-full n pc (λ i lt. h i (omega (arith, lt))),
    in_hand-one (pc n) (h n (omega arith)),
  )

  in_hand-le : (p : Pc A) → in_hand (λ x. 1) p ≤ 1
  in_hand-le (running x) = omega arith
  in_hand-le p = omega arith

  in_hands-le : (n : ℕ) (pc : ℕ → Pc A) → in_hands (λ x. 1) n pc ≤ n
  unfolding total
  in_hands-le zero pc = omega arith
  in_hands-le (suc n) pc = omega (arith, in_hands-le n pc, in_hand-le (pc n))

  in_hand-task : (p : Pc A) → in_hand (λ x. 1) p ≡ 1 → in_task p ≡ true
  in_hand-task (running x) h = refl
  in_hand-task p h = absurd (omega (arith, h))

  -- Only if every worker runs a task are as many in hand as there are workers.
  pub full-in_hands :
      (n : ℕ) (pc : ℕ → Pc A) → in_hands (λ x. 1) n pc ≡ n → (i : ℕ) → i < n → in_task (pc i) ≡ true
  unfolding total
  full-in_hands zero pc h i lt = absurd (omega (arith, lt))
  full-in_hands (suc n) pc h i lt =
      let le = in_hands-le n pc in
      let le' = in_hand-le (pc n) in
      elim (dec_lt i n) [
        | yes below ↦ full-in_hands n pc (omega (arith, h, le, le')) i below
        | no last ↦
            let same : n ≡ i = omega (arith, lt, last) in
            subst (λ j. in_task (pc j) ≡ true) same
              (in_hand-task (pc n) (omega (arith, h, le, le')))
      ]
