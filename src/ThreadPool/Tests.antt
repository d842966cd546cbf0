-- ===== src/ThreadPool/Tests.antt =====
-- Runs of a pool with one worker, and the theorems about it at them.
use reactor_server.Base.{
  ◌≤◌, ◌<◌, ℕ, ◌+◌, ◌≡◌, ◌⊎◌, refl, inl, inr, true, List, [], ◌∷◌, ◌++◌, arith,
}
use reactor_server.ThreadPool.System.{
  notify_all, blocked, System, Step, push, raise, again, quit, acquire, pass, hold, take_task,
  finish, Reach, here, next, init, joining,
}
use reactor_server.ThreadPool.Safety.{started-append-queue, mutual_exclusion, CanGoOn, Advances}
use reactor_server.ThreadPool.Filling.{Alone, AllInTask, start, then_, moves, bound, Alone-fills}
use reactor_server.ThreadPool.Accounting.{weight, in_hands, started-finished}
use reactor_server.ThreadPool.Ending.{IsEnding, AllExited, measure, steps, IsEnding-AllExited}
use reactor_server.ThreadPool.Shutdown.{go, stay, IsCutOff-started, Own, Stop-may_hang}

record Run : Type 0 where
  last : System ℕ
  reach : Reach 1 last

abbrev fresh : Run
fresh = record { last = init; reach = here }

abbrev then_step : (r : Run) {t : System ℕ} → Step 1 r.last t → Run
then_step r {t} st = record { last = t; reach = next r.reach st }

-- Tasks 7 and 8 are submitted, and the worker is behind `wait`.
abbrev offered : Run
offered =
    let a = then_step fresh (push 7 refl) in
    let b = then_step a (push 8 refl) in
    let c = then_step b (again 0 (omega arith) refl refl) in
    let d = then_step c (acquire 0 (omega arith) (inl refl) refl) in
    then_step d (pass 0 (omega arith) refl (inr (λ h. cc)))

-- It takes task 7.
abbrev taken : Run
taken = then_step offered (take_task 0 7 (8 ∷ []) (omega arith) refl refl)

-- `Stop` raises its flag meanwhile.
abbrev cut_off : Run
cut_off = then_step taken (raise refl)

-- The worker found no task, and is about to sleep.
abbrev parked : Run
parked =
    let a = then_step fresh (again 0 (omega arith) refl refl) in
    let b = then_step a (acquire 0 (omega arith) (inl refl) refl) in
    then_step b (hold 0 (omega arith) refl refl refl)

started-append-queue_example : taken.last.submitted ≡ taken.last.started ++ 8 ∷ []
started-append-queue_example = started-append-queue taken.reach

mutual_exclusion_example : ◌≡◌ {A = ℕ} 0 0
mutual_exclusion_example = mutual_exclusion offered.reach 0 0 refl refl

abbrev to_taken : Alone 1 offered.last taken.last
to_taken = then_ start (take_task 0 7 (8 ∷ []) (omega arith) refl refl) refl

-- With task 7 in its hands the worker does not come to task 8.
Alone-fills_example :
    (moves to_taken ≤ bound 1 offered.last)
    × ((taken.last.started ≡ 7 ∷ 8 ∷ [])
        ⊎ ((1 < 2) × AllInTask 1 taken.last)
        ⊎ Advances 1 taken.last)
Alone-fills_example = Alone-fills offered.reach refl taken.last to_taken

started-finished_example :
    weight (λ x. x) taken.last.started
    ≡ weight (λ x. x) taken.last.finished + in_hands (λ x. x) 1 taken.last.pc
started-finished_example = started-finished (λ x. x) taken.reach

-- The worker returns from task 7 and leaves; task 8 is still in the queue.
IsCutOff-started_example : ◌≡◌ {A = List ℕ} (7 ∷ []) (7 ∷ [])
IsCutOff-started_example =
    IsCutOff-started {n = 1} {s = cut_off.last}
      (record { stopped = refl; all_busy = λ i lt. ground arith })
      (next (next here (finish 0 7 (omega arith) refl)) (quit 0 (omega arith) refl refl))

Stop-may_hang_example :
    (t : System ℕ) × Reach 1 t
    × (t.stop ≡ true)
    × ((u : System ℕ) → Own 1 t u → (u.pc 0 ≡ blocked) × (u.stopper ≡ joining))
Stop-may_hang_example = Stop-may_hang parked.reach 0 (omega arith) refl refl refl

-- `Stop` has notified, while the worker runs task 7.
abbrev joined : Run
joined = then_step cut_off (notify_all refl)

abbrev back : Run
back = then_step joined (finish 0 7 (omega arith) refl)

abbrev gone : Run
gone = then_step back (quit 0 (omega arith) refl refl)

joined-IsEnding : IsEnding 1 joined.last
joined-IsEnding = record { stopped = refl; in_joins = refl; all_up = λ i lt. ground arith }

abbrev to_gone : Own 1 joined.last gone.last
to_gone = go (go stay (finish 0 7 (omega arith) refl) refl) (quit 0 (omega arith) refl refl) refl

IsEnding-AllExited_example :
    (steps to_gone ≤ measure 1 joined.last) × (AllExited 1 gone.last ⊎ CanGoOn 1 gone.last)
IsEnding-AllExited_example = IsEnding-AllExited joined.reach joined-IsEnding gone.last to_gone
