-- ===== src/EchoServer/Main.antt =====
-- The life of an echo server: its constructor, `Start` and `Stop`, and the program of tcpepoll.cpp.
use reactor_server.Base.{
  ℕ, ◌%◌, ◌^◌, Option, none, some, List, [], ◌∷◌, Outcome, ok, fault, undefined, ◌>>=◌,
}
use reactor_server.Connection.Defs.{Answers}
use reactor_server.EchoServer.Defs.{Echo, State, callbacks}
use reactor_server.Epoll.Defs.{Wait}
use reactor_server.Epoll.Kernel.{Kernel}
use reactor_server.EventLoop.Defs.{Given}
use reactor_server.EventLoop.Run.{Source}
use reactor_server.InetAddress.{Inet}
use reactor_server.Socket.Net.{Net}
use reactor_server.TcpServer.Create.{Server, start_run}
use reactor_server.TcpServer.Create as TcpServer
use reactor_server.TcpServer.Defs.{stop_loops}

module _ {k : Kernel} where
  -- The constructor, less the setters of the callbacks (`callbacks`).
  unfoldable pub create :
      (n : Net)
      → Inet
      → (ℕ → Given k)
      → List ℕ
      → ℕ
      → ℕ
      → ℕ
      → n.State
      → State k
      → Outcome (Server n k Echo)
  create n i given ip port subthreadnum workthreadnum =
      TcpServer.create n i given ip port subthreadnum
        (record { workers = workthreadnum; tasks = [] })

  -- `Start`: the main loop runs on the thread that calls.
  unfoldable pub start : ℕ → List ((Source → Answers) × Wait Source) → State k → Outcome (State k)
  start thread = start_run (callbacks thread) thread

  -- `Stop`, less the two calls of `ThreadPool::Stop`.
  unfoldable pub stop : State k → State k
  stop = stop_loops

  -- The handler of the signals 15 and 2, `Stop` of the program: `server` is a null pointer until `main`
  -- has set it. The process ends with 0 behind it, and the server is deleted.
  unfoldable pub signal_stop : Option (State k) → Outcome (State k)
  unfolding stop
  signal_stop none = fault undefined
  signal_stop (some server) = ok (stop server)

  -- `main`: the arguments are the program's name, an address and a port. With any other number of
  -- them it returns -1, here `none`.
  unfoldable pub main :
      (n : Net)
      → Inet
      → (ℕ → Given k)
      → (List ℕ → ℕ)
      → List (List ℕ)
      → ℕ
      → List ((Source → Answers) × Wait Source)
      → n.State
      → State k
      → Outcome (Option (State k))
  unfolding create start
  main n i given atoi (prog ∷ ip ∷ port ∷ []) thread script net w = do
    server ← create n i given ip (atoi port % 2 ^ 16) 1 1 net w
    w' ← start thread script server.world
    ok (some w')
  main n i given atoi argv thread script net w = ok none
