-- ===== src/TcpServer/Create.antt =====
-- The constructor of `TcpServer`, and what its loops run.
use reactor_server.Base.{
  ℕ, zero, suc, true, false, none, some, List, [], ◌∷◌, ◌++◌, Outcome, ok, ◌>>=◌,
}
use reactor_server.Acceptor.Defs.{Acceptor}
use reactor_server.Acceptor.Defs as Acceptor
use reactor_server.Connection.Defs.{Answers}
use reactor_server.Epoll.Defs.{Wait}
use reactor_server.Epoll.Kernel.{Kernel}
use reactor_server.EventLoop.Defs.{Given, create_loop}
use reactor_server.EventLoop.Run.{Source, run}
use reactor_server.InetAddress.{Inet}
use reactor_server.Socket.Net.{Net}
use reactor_server.TcpServer.Defs.{Tcp, UserCallbacks, removeconn, epolltimeout, handlers}
use reactor_server.World.{World, Call, put_loop}

-- A new server: `tasks` are the loops whose `run` the IO pool was given, in their order.
pub record Server (n : Net) (k : Kernel) (U : Type 0) : Type 0 where
  pub world : World k (Tcp U)
  pub acceptor : Acceptor
  pub net : n.State
  pub tasks : List ℕ

module _ {k : Kernel} {U : Type 0} where
  -- The `for` loop up to `threadnum_`; `given` says what the kernel gives to each loop.
  unfoldable pub create_subloops :
      (ℕ → Given k) → ℕ → World k (Tcp U) × List ℕ → Outcome (World k (Tcp U) × List ℕ)
  create_subloops given zero st = ok st
  create_subloops given (suc m) st = do
    (w, tasks) ← create_subloops given m st
    x ← create_loop k false 5 10 (given (suc m))
    ok (put_loop (suc m) x w, tasks ++ suc m ∷ [])

  -- `w` is the heap before, and `net` the state of the sockets.
  unfoldable pub create :
      (n : Net)
      → Inet
      → (ℕ → Given k)
      → List ℕ
      → ℕ
      → ℕ
      → U
      → n.State
      → World k (Tcp U)
      → Outcome (Server n k U)
  unfolding create_subloops
  create n i given ip port threadnum user net w = do
    main ← create_loop k true 30 60 (given 0)
    (acceptor, (net', e)) ← Acceptor.create n i k ip port net main.kernel
    let outer : Tcp U = record { threadnum = threadnum; conns = []; next = 0; user = user }
    let w₀ = record (put_loop 0 (record main { kernel = e }) w) { outer = outer }
    (w', tasks) ← create_subloops given threadnum (w₀, [])
    ok (record { world = w'; acceptor = acceptor; net = net'; tasks = tasks })

  -- `timercallback_` is set for the sub loops only.
  abbrev pub timercallback : ℕ → Call k (Tcp U)
  timercallback zero = none
  timercallback (suc m) = some removeconn

  module _ (u : UserCallbacks k U) where
    -- `run` of a loop, with the callbacks that the constructor sets.
    unfoldable pub run_loop :
        ℕ
        → ℕ
        → List ((Source → Answers) × Wait Source)
        → World k (Tcp U)
        → Outcome (World k (Tcp U))
    run_loop thread l = run (handlers u) (timercallback l) (some (epolltimeout u)) thread l

    unfoldable pub start_run :
        ℕ → List ((Source → Answers) × Wait Source) → World k (Tcp U) → Outcome (World k (Tcp U))
    unfolding run_loop
    start_run thread = run_loop thread 0
