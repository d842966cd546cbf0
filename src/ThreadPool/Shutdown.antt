-- ===== src/ThreadPool/Shutdown.antt =====
-- What `Stop` does to a pool.
use reactor_server.Base.{ℕ, ◌<◌, ◌≡◌, refl, Bool, true, false, arith, ◌∙◌}
use reactor_server.ThreadPool.System.{
  Pc, head, park, blocked, running, exited, joining, System, Step, push, raise, notify_all, sleep,
  take_task, Reach, From, here, next,
}
use reactor_server.ThreadPool.Moves.{actor, guard}
use reactor_server.ThreadPool.Safety.{own}

module _ {A : Type 0} where
  -- Outside the wait for a task: in one, or on the way from one to the test of `stop_`.
  abbrev pub busy : Pc A → Bool
  busy head = true
  busy (running x) = true
  busy exited = true
  busy p = false

  -- The pool is stopped while every worker is busy.
  pub record IsCutOff (n : ℕ) (s : System A) : Type 0 where
    pub stopped : s.stop ≡ true
    pub all_busy : (i : ℕ) → i < n → busy (s.pc i) ≡ true

  module _ {n : ℕ} {s : System A} (c : IsCutOff n s) where
    open c use {stopped, all_busy}

    Step-stopped : {t : System A} → Step n s t → t.stop ≡ true
    Step-stopped (raise e) = refl
    Step-stopped st = stopped

    Step-all_busy : {t : System A} → Step n s t → (j : ℕ) → j < n → busy (t.pc j) ≡ true
    unfolding actor
    Step-all_busy (push x e) j lt = all_busy j lt
    Step-all_busy st j lt = ground (arith, guard st, stopped, all_busy j lt, all_busy (actor st))

    Step-started : {t : System A} → Step n s t → t.started ≡ s.started
    unfolding actor
    Step-started (take_task i x q lt at e) = ground (arith, all_busy i lt)
    Step-started st = refl

  From-IsCutOff : {n : ℕ} {s t : System A} → IsCutOff n s → From n s t → IsCutOff n t
  From-IsCutOff c here = c
  From-IsCutOff c (next r st) =
      let d = From-IsCutOff c r in
      record { stopped = Step-stopped d st; all_busy = Step-all_busy d st }

  -- Once `stop_` is set while every worker is in a task, at the test of the flag, or has left, no
  -- task is started any more, whatever the threads do: what the queue holds is dropped.
  pub IsCutOff-started :
      {n : ℕ} {s t : System A} → IsCutOff n s → From n s t → t.started ≡ s.started
  IsCutOff-started c here = refl
  IsCutOff-started c (next r st) = Step-started (From-IsCutOff c r) st ∙ IsCutOff-started c r

  -- A worker that missed the call of `notify_all` in `Stop`.
  pub record IsLost (n i : ℕ) (s : System A) : Type 0 where
    pub asleep : s.pc i ≡ blocked
    pub notified : s.stopper ≡ joining
    pub quiet : s.owed ≡ 0

  -- Steps of the program itself.
  pub data Own (n : ℕ) (s : System A) : System A → Type 0 where
    stay : Own n s s
    go : {t u : System A} → Own n s t → (st : Step n t u) → own st ≡ true → Own n s u

  Step-IsLost :
      {n i : ℕ} {s t : System A} (st : Step n s t) → own st ≡ true → IsLost n i s → IsLost n i t
  unfolding actor
  Step-IsLost (push x e) o l = cc
  Step-IsLost {i = i} st o l = record {
    asleep = ground (arith, guard st);
    notified = ground (arith, guard st);
    quiet = ground (arith, guard st);
  }

  -- A worker that goes to sleep after `notify_all` has been called stays asleep, whatever the pool
  -- does: the `join` of it does not return.
  pub IsLost-asleep : {n i : ℕ} {s t : System A} → IsLost n i s → Own n s t → IsLost n i t
  IsLost-asleep l stay = l
  IsLost-asleep l (go r st o) = Step-IsLost st o (IsLost-asleep l r)

  -- `Stop` sets the flag and notifies without the mutex. From any reachable state in which a worker
  -- has found its predicate false and is not yet asleep, with no notification owed, a state is
  -- reachable in which the pool is stopped, that worker sleeps, and `Stop` is in its joins, and
  -- stays so by whatever steps the program makes itself.
  pub Stop-may_hang :
      {n : ℕ} {s : System A}
      → Reach n s
      → (i : ℕ) → i < n
      → s.pc i ≡ park
      → s.stop ≡ false
      → s.owed ≡ 0
      → (t : System A) × Reach n t
        × (t.stop ≡ true)
        × ((u : System A) → Own n t u → (u.pc i ≡ blocked) × (u.stopper ≡ joining))
  Stop-may_hang {n} {s} r i lt at f quiet =
      let t₁ = next r (raise f) in
      let t₂ = next t₁ (notify_all refl) in
      let t₃ = next t₂ (sleep i lt (ground arith)) in
      (
        _,
        t₃,
        refl,
        λ u o.
            let l =
              IsLost-asleep {n = n} {i = i}
                (record { asleep = ground arith; notified = refl; quiet = quiet }) o in
            (l.asleep, l.notified),
      )
