-- ===== src/EchoServer/Defs.antt =====
-- The callbacks of `EchoServer`, and the task that it gives to its workers.
use reactor_server.Base.{
  ℕ, none, some, List, [], ◌∷◌, ◌++◌, length, pull, ◌==◌, if◌then◌else◌, Outcome, ok, ◌>>=◌,
}
use reactor_server.Connection.Defs.{send}
use reactor_server.Epoll.Kernel.{Kernel}
use reactor_server.TcpServer.Defs.{
  Tcp, UserCallbacks, no_user_callbacks, setnewconnectioncb, setcloseconnectioncb,
  seterrorconnectioncb, setonmessagecb, setsendcompletecb,
}
use reactor_server.World.{World}

-- The members of the class beside `tcpserver_`: threadpool_, by its size and its queue. A task is a
-- call of `OnMessage`, with the connection and a copy of the message.
pub record Echo : Type 0 where
  pub workers : ℕ
  pub tasks : List (ℕ × List ℕ)

-- "IO thread "
abbrev pub io_prefix : List ℕ
io_prefix = b'I' ∷ b'O' ∷ b' ' ∷ b't' ∷ b'h' ∷ b'r' ∷ b'e' ∷ b'a' ∷ b'd' ∷ b' ' ∷ []

-- "WORK thread "
abbrev pub work_prefix : List ℕ
work_prefix = b'W' ∷ b'O' ∷ b'R' ∷ b'K' ∷ b' ' ∷ b't' ∷ b'h' ∷ b'r' ∷ b'e' ∷ b'a' ∷ b'd' ∷ b' ' ∷ []

-- The states of a server with this user.
abbrev pub State : Kernel → Type 0
State k = World k (Tcp Echo)

module _ {k : Kernel} where
  -- `thread` is the thread that runs the task.
  unfoldable pub on_message : ℕ → ℕ → List ℕ → State k → Outcome (State k)
  on_message thread p message w = send thread p (message ++ 0 ∷ []) (length message) w

  -- `threadpool_.addtask(...)`
  unfoldable pub add_task : ℕ → List ℕ → State k → State k
  add_task p message w = record w {
    outer = record w.outer {
      user = record w.outer.user { tasks = w.outer.user.tasks ++ (p, message) ∷ [] };
    };
  }

  unfoldable pub handle_message : ℕ → ℕ → List ℕ → State k → Outcome (List ℕ × State k)
  unfolding on_message add_task
  handle_message thread p message w =
      if w.outer.user.workers == 0
      then (do
        let message' = io_prefix ++ message
        w' ← on_message thread p message' w
        ok (message', w'))
      else ok (work_prefix ++ message, add_task p (work_prefix ++ message) w)

  -- The callbacks that print, or do nothing.
  unfoldable pub handle_quietly : ℕ → State k → Outcome (State k)
  handle_quietly p w = ok w

  -- The constructor's calls of the setters; `thread` is the thread that runs the callbacks.
  unfoldable pub callbacks : ℕ → UserCallbacks k Echo
  unfolding handle_quietly handle_message
  callbacks thread = setsendcompletecb handle_quietly (
      setonmessagecb (handle_message thread) (
        seterrorconnectioncb handle_quietly (
          setcloseconnectioncb handle_quietly
            (setnewconnectioncb handle_quietly no_user_callbacks))))

  -- A worker runs a task: the j-th of those that were added and not run yet. Workers take the tasks
  -- from the front, each before it runs it, so that of so many workers some run one of the first so
  -- many tasks, and j is below their number.
  unfoldable pub work : ℕ → ℕ → State k → Outcome (State k)
  unfolding on_message
  work j thread w = elim (pull j w.outer.user.tasks) [
    | none ↦ ok w
    | some ((p, message), rest) ↦
        on_message thread p message
          (record w { outer = record w.outer { user = record w.outer.user { tasks = rest } } })
  ]
