-- ===== src/ThreadPool/Roused.antt =====
-- How many workers are on their way to the queue. While one sleeps, there are at least as many of them,
-- together with the notifications that `addtask` owes, as there are tasks in the queue.
use reactor_server.Base.{ℕ, ◌+◌, ◌≤◌, ◌<◌, ◌≡◌, ◌≢◌, false, [], ◌∷◌, length, length-append, arith}
use reactor_server.ThreadPool.Invariant.{Inv, Reach-Inv}
use reactor_server.ThreadPool.Moves.{actor, guard}
use reactor_server.ThreadPool.System.{
  Pc, head, enter, check, blocked, woken, ready, System, wake, Step, push, raise, notify_nobody,
  notify_all, sleep, Reach, here, next,
}
use reactor_server.ThreadPool.Totals.{total, total-update}

module _ {A : Type 0} where
  -- One for a worker that will look at the queue before it sleeps or takes a task.
  abbrev pub rousing : Pc A → ℕ
  rousing head = 1
  rousing enter = 1
  rousing check = 1
  rousing woken = 1
  rousing ready = 1
  rousing p = 0

  abbrev pub Roused : ℕ → System A → Type 0
  Roused n s =
      s.stop ≡ false
      → (i : ℕ) → i < n
      → s.pc i ≡ blocked
      → length s.queue ≤ s.owed + total rousing n s.pc

  wake-blocked : (p : Pc A) → wake p ≢ blocked
  wake-blocked blocked e = cc
  wake-blocked p e = cc

  Step-Roused : {n : ℕ} {s t : System A} → Inv n s → Step n s t → Roused n s → Roused n t
  unfolding actor
  Step-Roused {s = s} inv (push x e) b f i lt at =
      omega (arith, b f i lt at, length-append s.queue (x ∷ []))
  Step-Roused inv (raise e) b f i lt at = cc
  Step-Roused inv (notify_nobody m e none_) b f i lt at = absurd (none_ i lt at)
  Step-Roused {s = s} inv (notify_all e) b f i lt at = absurd (wake-blocked (s.pc i) at)
  Step-Roused inv (sleep j lt' at') b f i lt at = rw (inv.parked j at') (omega arith)
  Step-Roused {n} {s} {t} inv st b f i lt at =
      ground (arith, guard st, b f i lt, total-update rousing n s.pc (actor st) (t.pc (actor st)))

  pub Reach-Roused : {n : ℕ} {s : System A} → Reach n s → Roused n s
  Reach-Roused here = λ f i lt at. cc
  Reach-Roused (next r st) = Step-Roused (Reach-Inv r) st (Reach-Roused r)
