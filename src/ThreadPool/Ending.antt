-- ===== src/ThreadPool/Ending.antt =====
-- The end of a pool whose workers have all noticed the call of `Stop`.
use reactor_server.Base.{
  ℕ, suc, ◌+◌, ◌≤◌, ◌<◌, ◌≡◌, ◌≢◌, ◌⊎◌, inl, inr, refl, Bool, true, false, Option, none, some, List,
  [], ◌∷◌, arith,
}
use reactor_server.ThreadPool.Invariant.{inside, Inv, Reach-Inv, Step-Inv}
use reactor_server.ThreadPool.Moves.{actor, guard}
use reactor_server.ThreadPool.Safety.{own, CanGoOn}
use reactor_server.ThreadPool.Shutdown.{Own, stay, go}
use reactor_server.ThreadPool.System.{
  Pc, head, enter, check, park, blocked, woken, ready, running, exited, System, joining, Step, push,
  quit, acquire, pass, leave, take_task, finish, Reach,
}
use reactor_server.ThreadPool.Totals.{total, total-update, workers-cases}

module _ {A : Type 0} where
  -- Neither asleep nor about to be.
  abbrev pub up : Pc A → Bool
  up park = false
  up blocked = false
  up p = true

  -- `Stop` is in its joins, and no worker has missed its notification.
  pub record IsEnding (n : ℕ) (s : System A) : Type 0 where
    pub stopped : s.stop ≡ true
    pub in_joins : s.stopper ≡ joining
    pub all_up : (i : ℕ) → i < n → up (s.pc i) ≡ true

  abbrev pub AllExited : ℕ → System A → Type 0
  AllExited n s = (i : ℕ) → i < n → s.pc i ≡ exited

  -- How many steps a worker has left at most.
  abbrev pub rank : Pc A → ℕ
  rank exited = 0
  rank head = 1
  rank (running x) = 2
  rank ready = 3
  rank check = 4
  rank enter = 5
  rank woken = 5
  rank blocked = 6
  rank park = 7

  abbrev pub measure : ℕ → System A → ℕ
  measure n s = total rank n s.pc + s.owed

  module _ {n : ℕ} {s : System A} (c : IsEnding n s) where
    open c use {stopped, in_joins, all_up}

    Step-IsEnding : {t : System A} (st : Step n s t) → own st ≡ true → IsEnding n t
    unfolding actor
    Step-IsEnding (push x e) o = cc
    Step-IsEnding st o = record {
      stopped = ground (arith, guard st);
      in_joins = ground (arith, guard st);
      all_up = λ j lt. ground (arith, guard st, stopped, all_up j lt, all_up (actor st));
    }

    Step-measure : {t : System A} (st : Step n s t) → own st ≡ true → measure n t < measure n s
    unfolding actor
    Step-measure (push x e) o = cc
    Step-measure {t} st o = ground (
      arith,
      guard st,
      stopped,
      in_joins,
      all_up (actor st),
      total-update rank n s.pc (actor st) (t.pc (actor st)),
    )

  exited-cases : (p : Pc A) → (p ≢ exited) ⊎ (p ≡ exited)
  exited-cases exited = inr refl
  exited-cases _ = inl (λ e. cc)

  module _ {n : ℕ} {s : System A} (inv : Inv n s) (c : IsEnding n s) where
    -- Who holds the mutex goes on.
    holder_ends :
        (i : ℕ) → i < n → (p : Pc A) → s.pc i ≡ p → up p ≡ true → inside p ≡ true → CanGoOn n s
    holder_ends i lt check at u h = (_, pass i lt at (inl c.stopped), refl)
    holder_ends i lt ready at u h = by_queue s.queue refl
      where
        by_queue : (q : List A) → s.queue ≡ q → CanGoOn n s
        by_queue [] e = (_, leave i lt at c.stopped e, refl)
        by_queue (x ∷ q) e = (_, take_task i x q lt at e, refl)
    holder_ends i lt park at u h = cc
    holder_ends i lt head at u h = cc
    holder_ends i lt enter at u h = cc
    holder_ends i lt blocked at u h = cc
    holder_ends i lt woken at u h = cc
    holder_ends i lt (running x) at u h = cc
    holder_ends i lt exited at u h = cc

    waiter_ends :
        (i : ℕ)
        → i < n
        → (s.pc i ≡ enter) ⊎ (s.pc i ≡ woken)
        → (o : Option ℕ) → s.lock ≡ o
        → CanGoOn n s
    waiter_ends i lt at none l = (_, acquire i lt at l, refl)
    waiter_ends i lt at (some j) l =
        let (held, below) = inv.owner j l in
        holder_ends j below (s.pc j) refl (c.all_up j below) held

    worker_ends : (i : ℕ) → i < n → (p : Pc A) → s.pc i ≡ p → up p ≡ true → p ≢ exited → CanGoOn n s
    worker_ends i lt head at u h = (_, quit i lt at c.stopped, refl)
    worker_ends i lt enter at u h = waiter_ends i lt (inl at) s.lock refl
    worker_ends i lt woken at u h = waiter_ends i lt (inr at) s.lock refl
    worker_ends i lt check at u h = holder_ends i lt check at refl refl
    worker_ends i lt ready at u h = holder_ends i lt ready at refl refl
    worker_ends i lt (running x) at u h = (_, finish i x lt at, refl)
    worker_ends i lt park at u h = cc
    worker_ends i lt blocked at u h = cc
    worker_ends i lt exited at u h = absurd (h refl)

    AllExited-cases : AllExited n s ⊎ CanGoOn n s
    AllExited-cases = elim (workers-cases (λ i. exited-cases (s.pc i)) n) [
      | inl (i, lt, not_yet) ↦ inr (worker_ends i lt (s.pc i) refl (c.all_up i lt) not_yet)
      | inr all ↦ inl all
    ]

  -- How many steps a run has.
  pub steps : {n : ℕ} {s t : System A} → Own n s t → ℕ
  steps stay = 0
  steps (go r st o) = suc (steps r)

  Own-IsEnding :
      {n : ℕ} {s t : System A} (r : Own n s t)
      → Inv n s
      → IsEnding n s
      → Inv n t × IsEnding n t × (steps r + measure n t ≤ measure n s)
  unfolding steps
  Own-IsEnding stay inv c = (inv, c, omega arith)
  Own-IsEnding (go r st o) inv c =
      let (inv', c', less) = Own-IsEnding r inv c in
      (Step-Inv inv' st, Step-IsEnding c' st o, omega (arith, less, Step-measure c' st o))

  -- From a reachable state in which `Stop` is in its joins and no worker is asleep or about to be, every
  -- run of the program's own steps is finite, of no more steps than the workers' places allow, and
  -- wherever such a run stands, either every worker has left, so that the joins return, or the run can
  -- go on.
  pub IsEnding-AllExited :
      {n : ℕ} {s : System A}
      → Reach n s
      → IsEnding n s
      → (t : System A) (r : Own n s t) → (steps r ≤ measure n s) × (AllExited n t ⊎ CanGoOn n t)
  IsEnding-AllExited reach c t r =
      let (inv, c', less) = Own-IsEnding r (Reach-Inv reach) c in
      (omega (arith, less), AllExited-cases inv c')
