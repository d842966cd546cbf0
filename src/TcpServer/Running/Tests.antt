-- ===== src/TcpServer/Running/Tests.antt =====
-- The IO pool of a server with two sub loops.
use reactor_server.Base.{ℕ, ◌+◌, ◌*◌, ◌≤◌, ◌≡◌, ◌≢◌, ◌⊎◌, inl, inr, refl, [], ◌∷◌, arith}
use reactor_server.Epoll.Table.{table, table_laws}
use reactor_server.Socket.Table.{sockets, sockets_laws, numbers, numbers_laws}
use reactor_server.TcpServer.Running.{IsUp-all_run, IsUp-AllExited}
use reactor_server.TcpServer.Tests.{made, made-IsUp}
use reactor_server.ThreadPool.Ending.{steps, AllExited}
use reactor_server.ThreadPool.Filling.{Alone, start, then_, moves, bound}
use reactor_server.ThreadPool.Full.{stop_called}
use reactor_server.ThreadPool.Safety.{Advances, CanGoOn}
use reactor_server.ThreadPool.Shutdown.{Own}
use reactor_server.ThreadPool.System.{
  System, push, again, acquire, pass, take_task, Reach, here, next,
}

-- Its IO pool, with the first sub loop started.
abbrev pushed : (s : System ℕ) × Reach 2 s
pushed =
    let one : (s : System ℕ) × Reach 2 s = (_, next here (push 1 refl)) in
    (_, next one.1 (push 2 refl))

not_empty : (pushed.0.queue) ≢ []
not_empty h = cc

abbrev first_runs : (t : System ℕ) × Alone 2 pushed.0 t
first_runs = (
  _,
  then_
      (then_
        (then_ (then_ start (again 0 (omega arith) refl refl) refl)
          (acquire 0 (omega arith) (inl refl) refl) refl)
        (pass 0 (omega arith) refl (inr not_empty)) refl)
      (take_task 0 1 (2 ∷ []) (omega arith) refl refl) refl,
)

IsUp-all_run_example :
    (moves first_runs.1 ≤ bound 2 pushed.0)
    × ((first_runs.0.started ≡ 1 ∷ 2 ∷ []) ⊎ Advances 2 first_runs.0)
unfolding made
IsUp-all_run_example =
    IsUp-all_run sockets sockets_laws numbers numbers_laws table table_laws made-IsUp pushed.1 refl
      refl first_runs.0 first_runs.1

-- The second worker takes the other sub loop.
abbrev entered : (t : System ℕ) × Reach 2 t
entered =
    let a : (t : System ℕ) × Reach 2 t = (_, next pushed.1 (again 0 (omega arith) refl refl)) in
    let b : (t : System ℕ) × Reach 2 t = (_, next a.1 (acquire 0 (omega arith) (inl refl) refl)) in
    let c : (t : System ℕ) × Reach 2 t =
      (_, next b.1 (pass 0 (omega arith) refl (inr not_empty))) in
    let d : (t : System ℕ) × Reach 2 t =
      (_, next c.1 (take_task 0 1 (2 ∷ []) (omega arith) refl refl)) in
    let e : (t : System ℕ) × Reach 2 t = (_, next d.1 (again 1 (omega arith) refl refl)) in
    (_, next e.1 (acquire 1 (omega arith) (inl refl) refl))

still_one : entered.0.queue ≢ []
still_one h = cc

abbrev running_both : (t : System ℕ) × Reach 2 t
running_both =
    let a : (t : System ℕ) × Reach 2 t =
      (_, next entered.1 (pass 1 (omega arith) refl (inr still_one))) in
    (_, next a.1 (take_task 1 2 [] (omega arith) refl refl))

IsUp-AllExited_example :
    Reach 2 (stop_called running_both.0)
    × ((t : System ℕ) (r : Own 2 (stop_called running_both.0) t)
        → (steps r ≤ 2 * 2 + 2) × (AllExited 2 t ⊎ CanGoOn 2 t))
unfolding made
IsUp-AllExited_example =
    IsUp-AllExited sockets sockets_laws numbers numbers_laws table table_laws made-IsUp
      running_both.1 refl refl refl
