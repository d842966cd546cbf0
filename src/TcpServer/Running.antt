-- ===== src/TcpServer/Running.antt =====
-- What the IO pool of a server does with the loops that the constructor gives to it.
mod Tests
use reactor_server.Base.{
  ℕ, zero, suc, ◌+◌, ◌*◌, ◌≤◌, ◌≡◌, ◌⊎◌, inl, inr, refl, false, [], ◌∷◌, length, length-append, ap,
  ◌∙◌, arith,
}
use reactor_server.Epoll.Kernel.{Kernel, Laws}
use reactor_server.InetAddress.{Inet, InetLaws}
use reactor_server.Socket.Net.{Net, NetLaws}
use reactor_server.TcpServer.Create.{Server}
use reactor_server.TcpServer.Ready.{IsUp, upto}
use reactor_server.ThreadPool.Filling.{Alone, moves, bound, Alone-all}
use reactor_server.ThreadPool.Safety.{Advances, CanGoOn}
use reactor_server.ThreadPool.Ending.{steps, AllExited}
use reactor_server.ThreadPool.Full.{stop_called, full-AllExited}
use reactor_server.ThreadPool.Shutdown.{Own}
use reactor_server.ThreadPool.System.{System, Reach}

length-upto : (m : ℕ) → length (upto m) ≡ m
length-upto zero = refl
length-upto (suc m) = omega (arith, length-append (upto m) (suc m ∷ []), length-upto m)

module _ (n : Net) (net_laws : NetLaws n) (i : Inet) (inet_laws : InetLaws i) (k : Kernel)
    (laws : Laws k) {U : Type 0} where
  -- A server that is up, and an IO pool with as many workers as the server has sub loops, to which
  -- the `run` of each of them was given, and which is not stopped. From any state that the pool can
  -- be in, a run in which nothing is called, no wakeup is spurious and no task returns, as `run`
  -- does not, has at most `bound` steps; and at its end the `run` of every sub loop was started, in
  -- the order of the loops, or the run can go on.
  pub IsUp-all_run :
      {a p : ℕ} {x : Server n k U}
      → IsUp n net_laws i inet_laws k laws a p x
      → {s : System ℕ} → Reach x.world.outer.threadnum s
      → s.submitted ≡ x.tasks
      → s.stop ≡ false
      → (t : System ℕ) (r : Alone x.world.outer.threadnum s t)
      → (moves r ≤ bound x.world.outer.threadnum s)
        × ((t.started ≡ x.tasks) ⊎ Advances x.world.outer.threadnum t)
  IsUp-all_run {x} up {s} reach sub f t r =
      let (few, ends) = Alone-all reach f (omega (arith, count)) t r in
      (few, elim ends [ inl all ↦ inl (all ∙ sub) | inr on ↦ inr on ])
    where
      count : length s.submitted ≡ x.world.outer.threadnum
      count = ap length (sub ∙ up.tasks) ∙ length-upto x.world.outer.threadnum

  -- The same server and pool, once the `run` of every sub loop was started and as long as none has
  -- returned, and not stopped. The call of `Stop` in `TcpServer::stop` can be made, and misses no
  -- worker: when it is in its joins, the program has at most two steps for each sub loop, which are
  -- the return of its `run` and the worker's end, and one for each call of `notify_one` that is owed,
  -- and wherever it stands, every worker has left, so that the joins return, or it can go on.
  pub IsUp-AllExited :
      {a p : ℕ} {x : Server n k U}
      → IsUp n net_laws i inet_laws k laws a p x
      → {s : System ℕ} → Reach x.world.outer.threadnum s
      → s.started ≡ x.tasks
      → s.finished ≡ []
      → s.stop ≡ false
      → Reach x.world.outer.threadnum (stop_called s)
        × ((t : System ℕ) (r : Own x.world.outer.threadnum (stop_called s) t)
            → (steps r ≤ 2 * x.world.outer.threadnum + s.owed)
              × (AllExited x.world.outer.threadnum t ⊎ CanGoOn x.world.outer.threadnum t))
  IsUp-AllExited {x = x} up reach all none_ f =
      full-AllExited reach (ap length (all ∙ up.tasks) ∙ length-upto x.world.outer.threadnum) none_
        f
