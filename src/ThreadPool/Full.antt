-- ===== src/ThreadPool/Full.antt =====
-- `Stop` of a pool whose workers all run a task, such as the event loops.
use reactor_server.Base.{
  ℕ, zero, suc, ◌+◌, ◌*◌, ◌≤◌, ◌<◌, ◌≡◌, ◌⊎◌, refl, ap, true, false, [], length, arith,
}
use reactor_server.ThreadPool.Accounting.{started-finished, length-weight, full-in_hands}
use reactor_server.ThreadPool.Ending.{up, rank, steps, AllExited, IsEnding-AllExited}
use reactor_server.ThreadPool.Filling.{AllInTask}
use reactor_server.ThreadPool.Safety.{CanGoOn, in_task}
use reactor_server.ThreadPool.Shutdown.{Own}
use reactor_server.ThreadPool.System.{
  Pc, running, System, wake, joining, raise, notify_all, Reach, next,
}
use reactor_server.ThreadPool.Totals.{total}

module _ {A : Type 0} where
  -- `Stop`, up to its joins.
  abbrev pub stop_called : System A → System A
  stop_called s = record s { stop = true; stopper = joining; pc = λ j. wake (s.pc j) }

  task-up : (p : Pc A) → in_task p ≡ true → (up (wake p) ≡ true) × (rank (wake p) ≡ 2)
  task-up (running x) h = (refl, refl)
  task-up p h = cc

  rank-full :
      (n : ℕ) (pc : ℕ → Pc A)
      → ((i : ℕ) → i < n → in_task (pc i) ≡ true)
      → total rank n (λ j. wake (pc j)) ≡ 2 * n
  unfolding total
  rank-full zero pc h = refl
  rank-full (suc n) pc h = omega (
    arith,
    rank-full n pc (λ i lt. h i (omega (arith, lt))),
    (task-up (pc n) (h n (omega arith))).1,
  )

  -- As many tasks as there are workers were started, and none has returned.
  started-AllInTask :
      {n : ℕ} {s : System A} → Reach n s → length s.started ≡ n → s.finished ≡ [] → AllInTask n s
  started-AllInTask {n} {s} r all none_ = full-in_hands n s.pc (
      omega (
        arith,
        all,
        length-weight s.started,
        started-finished (λ (x : A). 1) r,
        length-weight s.finished,
        ap length none_,
      ))

  -- A pool has as many tasks in hand as workers, none of which has returned, and is not stopped. Then
  -- `Stop` cannot miss a worker: when it is in its joins, the program has two steps for each worker
  -- and one for each call of `notify_one` that is owed before it, at most, and wherever it stands,
  -- every worker has left, so that the joins return, or the program can go on.
  pub full-AllExited :
      {n : ℕ} {s : System A}
      → Reach n s
      → length s.started ≡ n
      → s.finished ≡ []
      → s.stop ≡ false
      → Reach n (stop_called s)
        × ((t : System A) (r : Own n (stop_called s) t)
            → (steps r ≤ 2 * n + s.owed) × (AllExited n t ⊎ CanGoOn n t))
  full-AllExited {n} {s} r all none_ f =
      let reached : Reach n (stop_called s) = next (next r (raise f)) (notify_all refl) in
      let busy = started-AllInTask r all none_ in
      (
        reached,
        λ t own_.
            let (few, ends) =
              IsEnding-AllExited reached
                (record {
                  stopped = refl;
                  in_joins = refl;
                  all_up = λ i lt. (task-up (s.pc i) (busy i lt)).0;
                })
                t own_ in
            (omega (arith, few, rank-full n s.pc busy), ends),
      )
