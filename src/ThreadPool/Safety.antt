-- ===== src/ThreadPool/Safety.antt =====
-- What the queue, the mutex and the condition variable of a pool give the callers of `addtask`.
use reactor_server.Base.{
  ℕ, suc, ◌<◌, ◌≡◌, ◌≢◌, refl, ◌⊎◌, inl, inr, Bool, true, false, Option, none, some, List, [], ◌∷◌,
  ◌++◌, ◌-◌, arith,
}
use reactor_server.ThreadPool.System.{
  Pc, head, enter, check, park, blocked, woken, ready, running, exited, System, Step, push,
  notify_one, notify_nobody, raise, spurious, again, acquire, pass, sleep, take_task, finish, Reach,
}
use reactor_server.ThreadPool.Totals.{workers-cases}
use reactor_server.ThreadPool.Invariant.{inside, active, Inv, Reach-Inv}

module _ {A : Type 0} where
  -- In every reachable state, tasks were taken in the order in which `addtask` pushed them, each
  -- once: those taken, followed by those still in the queue, are those submitted.
  pub started-append-queue : {n : ℕ} {s : System A} → Reach n s → s.submitted ≡ s.started ++ s.queue
  started-append-queue r = (Reach-Inv r).fifo

  -- In every reachable state at most one worker is in the part of its loop that holds the mutex.
  pub mutual_exclusion :
      {n : ℕ} {s : System A}
      → Reach n s
      → (i j : ℕ) → inside (s.pc i) ≡ true
      → inside (s.pc j) ≡ true
      → i ≡ j
  mutual_exclusion r i j hi hj = ground (arith, (Reach-Inv r).held i hi, (Reach-Inv r).held j hj)

  -- In every reachable state, a worker behind `wait` finds a task in the queue, or else the pool is
  -- stopped and the queue empty, so that it leaves; it never takes the front of an empty queue.
  pub ready-cases :
      {n : ℕ} {s : System A}
      → Reach n s
      → (i : ℕ) → s.pc i ≡ ready
      → ((x : A) × (q : List A) × (s.queue ≡ x ∷ q)) ⊎ ((s.stop ≡ true) × (s.queue ≡ []))
  ready-cases {s = s} r i at = by_queue s.queue refl
    where
      by_queue :
          (l : List A)
          → s.queue ≡ l
          → ((x : A) × (q : List A) × (s.queue ≡ x ∷ q)) ⊎ ((s.stop ≡ true) × (s.queue ≡ []))
      by_queue [] e = inr (ground (arith, (Reach-Inv r).allowed i at), e)
      by_queue (x ∷ q) e = inl (x, q, e)

  -- A step of the program itself: no new call of `addtask` or `Stop`, and no spurious wakeup.
  abbrev pub own : {n : ℕ} {s t : System A} → Step n s t → Bool
  own (push x e) = false
  own (raise e) = false
  own (spurious i lt at) = false
  own st = true

  abbrev pub CanGoOn : ℕ → System A → Type 0
  CanGoOn n s = (t : System A) × (st : Step n s t) × (own st ≡ true)

  -- A step of the program that is not the return of a task either.
  abbrev pub alone : {n : ℕ} {s t : System A} → Step n s t → Bool
  alone (finish i x lt at) = false
  alone st = own st

  abbrev pub Advances : ℕ → System A → Type 0
  Advances n s = (t : System A) × (st : Step n s t) × (alone st ≡ true)

  alone-own : {n : ℕ} {s t : System A} (st : Step n s t) → alone st ≡ true → own st ≡ true
  alone-own (finish i x lt at) a = refl
  alone-own st a = a

  Advances-CanGoOn : {n : ℕ} {s : System A} → Advances n s → CanGoOn n s
  Advances-CanGoOn (t, st, a) = (t, st, alone-own st a)

  -- The worker runs a task.
  abbrev pub in_task : Pc A → Bool
  in_task (running x) = true
  in_task p = false

  is-blocked : (p : Pc A) → (p ≡ blocked) ⊎ (p ≢ blocked)
  is-blocked blocked = inl refl
  is-blocked _ = inr (λ e. cc)

  module _ {n : ℕ} {s : System A} (inv : Inv n s) where
    open inv use {held, owner, awake}

    -- Who holds the mutex can go on: to sleep, out of `wait`, or out of the critical section.
    holder_goes_on :
        (x : A) (q : List A) (i : ℕ)
        → i < n
        → s.queue ≡ x ∷ q
        → (p : Pc A) → s.pc i ≡ p
        → inside p ≡ true
        → Advances n s
    holder_goes_on x q i lt e check at h = (_, pass i lt at (inr (λ e'. cc)), refl)
    holder_goes_on x q i lt e park at h = (_, sleep i lt at, refl)
    holder_goes_on x q i lt e ready at h = (_, take_task i x q lt at e, refl)
    holder_goes_on x q i lt e head at h = cc
    holder_goes_on x q i lt e enter at h = cc
    holder_goes_on x q i lt e blocked at h = cc
    holder_goes_on x q i lt e woken at h = cc
    holder_goes_on x q i lt e (running y) at h = cc
    holder_goes_on x q i lt e exited at h = cc

    -- Who waits for the mutex gets it, or its holder can go on.
    waiter_goes_on :
        (x : A) (q : List A) (i : ℕ)
        → i < n
        → s.queue ≡ x ∷ q
        → (s.pc i ≡ enter) ⊎ (s.pc i ≡ woken)
        → (o : Option ℕ) → s.lock ≡ o
        → Advances n s
    waiter_goes_on x q i lt e at none l = (_, acquire i lt at l, refl)
    waiter_goes_on x q i lt e at (some j) l =
        holder_goes_on x q j (owner j l).1 e (s.pc j) refl (owner j l).0

    pub active_goes_on :
        (x : A) (q : List A) (i : ℕ)
        → i < n
        → s.queue ≡ x ∷ q
        → s.stop ≡ false
        → (p : Pc A) → s.pc i ≡ p
        → active p ≡ true
        → in_task p ≡ false
        → Advances n s
    active_goes_on x q i lt e f head at h o = (_, again i lt at f, refl)
    active_goes_on x q i lt e f enter at h o = waiter_goes_on x q i lt e (inl at) s.lock refl
    active_goes_on x q i lt e f woken at h o = waiter_goes_on x q i lt e (inr at) s.lock refl
    active_goes_on x q i lt e f check at h o = holder_goes_on x q i lt e check at refl
    active_goes_on x q i lt e f ready at h o = holder_goes_on x q i lt e ready at refl
    active_goes_on x q i lt e f (running y) at h o = cc
    active_goes_on x q i lt e f park at h o = cc
    active_goes_on x q i lt e f blocked at h o = cc
    active_goes_on x q i lt e f exited at h o = cc

    pub notify_goes_on : (m : ℕ) → s.owed ≡ suc m → Advances n s
    notify_goes_on m e = elim (workers-cases (λ i. is-blocked (s.pc i)) n) [
      | inl (i, lt, at) ↦ (_, notify_one i m lt e at, refl)
      | inr none_ ↦ (_, notify_nobody m e none_, refl)
    ]

  -- A reachable state of a pool with at least one worker, not stopped and with a task in its queue,
  -- is never stuck: the pool can make a step of its own, with no further call and no spurious
  -- wakeup.
  pub queue-CanGoOn :
      {n : ℕ} {s : System A}
      → Reach n s
      → 0 < n
      → s.stop ≡ false
      → (x : A) (q : List A) → s.queue ≡ x ∷ q
      → CanGoOn n s
  queue-CanGoOn {n} {s} r pos f x q e = elim ((Reach-Inv r).awake pos (λ e'. cc) f) [
    | inl o ↦ Advances-CanGoOn (notify_goes_on (Reach-Inv r) (s.owed - 1) (omega arith))
    | inr (i, lt, a) ↦ goes_on i lt (s.pc i) refl a
  ]
    where
      goes_on : (i : ℕ) → i < n → (p : Pc A) → s.pc i ≡ p → active p ≡ true → CanGoOn n s
      goes_on i lt (running y) at a = (_, finish i y lt at, refl)
      goes_on i lt p at a = Advances-CanGoOn (active_goes_on (Reach-Inv r) x q i lt e f p at a refl)
