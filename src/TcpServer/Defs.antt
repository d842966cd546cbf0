-- ===== src/TcpServer/Defs.antt =====
-- The methods of `TcpServer`. Loop 0 is `mainloop_`, and loop 1 + i is `subloops_[i]`.
use reactor_server.Base.{
  ℕ, zero, suc, ◌+◌, ◌%◌, Option, none, some, List, ◌==◌, if◌then◌else◌, Outcome, ok, fault,
  undefined, ◌>>=◌, insert, erase,
}
use reactor_server.Connection.Defs.{
  Handlers, no_handlers, setclosecallback, seterrorcallback, setonmessagecallback,
  setsendcompletecallback, create_conn,
}
use reactor_server.Epoll.Kernel.{Kernel}
use reactor_server.EventLoop.Defs.{stop, newconnection as keep_connection}
use reactor_server.Socket.Defs.{Socket}
use reactor_server.Socket.Net.{Fd}
use reactor_server.World.{World, Call, put_conn, put_loop}

-- The class, less its loops, which stand in the heap; `next` is the address of the next object.
pub record Tcp (U : Type 0) : Type 0 where
  pub threadnum : ℕ
  pub conns : List (ℕ × ℕ)
  pub next : ℕ
  -- what the callbacks of the user work on
  pub user : U

-- The callbacks of the server's user.
pub record UserCallbacks (k : Kernel) (U : Type 0) : Type 0 where
  pub newconnectioncb : Call k (Tcp U)
  pub closeconnectioncb : Call k (Tcp U)
  pub errorconnectioncb : Call k (Tcp U)
  pub onmessagecb : Option (ℕ → List ℕ → World k (Tcp U) → Outcome (List ℕ × World k (Tcp U)))
  pub sendcompletecb : Call k (Tcp U)
  pub timeoutcb : Call k (Tcp U)

-- `fd % threadnum_`, as an index of `subloops_`. `% 0` has no meaning, and of the descriptor -1 the
-- remainder is -1, outside the vector, unless it is divided by 1.
unfoldable pub subloop : Fd → ℕ → Outcome ℕ
subloop none n = if n == 1 then ok 0 else fault undefined
subloop (some fd) n = if n == 0 then fault undefined else ok (fd % n)

module _ {k : Kernel} {U : Type 0} where
  abbrev pub no_user_callbacks : UserCallbacks k U
  no_user_callbacks = record {
    newconnectioncb = none;
    closeconnectioncb = none;
    errorconnectioncb = none;
    onmessagecb = none;
    sendcompletecb = none;
    timeoutcb = none;
  }

  abbrev pub setnewconnectioncb :
      (ℕ → World k (Tcp U) → Outcome (World k (Tcp U))) → UserCallbacks k U → UserCallbacks k U
  setnewconnectioncb fn u = record u { newconnectioncb = some fn }

  abbrev pub setcloseconnectioncb :
      (ℕ → World k (Tcp U) → Outcome (World k (Tcp U))) → UserCallbacks k U → UserCallbacks k U
  setcloseconnectioncb fn u = record u { closeconnectioncb = some fn }

  abbrev pub seterrorconnectioncb :
      (ℕ → World k (Tcp U) → Outcome (World k (Tcp U))) → UserCallbacks k U → UserCallbacks k U
  seterrorconnectioncb fn u = record u { errorconnectioncb = some fn }

  abbrev pub setonmessagecb :
      (ℕ → List ℕ → World k (Tcp U) → Outcome (List ℕ × World k (Tcp U)))
      → UserCallbacks k U
      → UserCallbacks k U
  setonmessagecb fn u = record u { onmessagecb = some fn }

  abbrev pub setsendcompletecb :
      (ℕ → World k (Tcp U) → Outcome (World k (Tcp U))) → UserCallbacks k U → UserCallbacks k U
  setsendcompletecb fn u = record u { sendcompletecb = some fn }

  abbrev pub settimeoutcb :
      (ℕ → World k (Tcp U) → Outcome (World k (Tcp U))) → UserCallbacks k U → UserCallbacks k U
  settimeoutcb fn u = record u { timeoutcb = some fn }

  -- `if (cb) cb(conn);`
  abbrev pub if_set : Call k (Tcp U) → ℕ → World k (Tcp U) → Outcome (World k (Tcp U))
  if_set none p w = ok w
  if_set (some cb) p w = cb p w

  -- `conns_.erase(fd)`, under the mutex
  unfoldable pub removeconn : ℕ → World k (Tcp U) → Outcome (World k (Tcp U))
  removeconn fd w = ok (record w { outer = record w.outer { conns = erase fd w.outer.conns } })

  module _ (u : UserCallbacks k U) where
    unfoldable pub closeconnection : ℕ → World k (Tcp U) → Outcome (World k (Tcp U))
    unfolding removeconn
    closeconnection p w = do
      w' ← if_set u.closeconnectioncb p w
      removeconn (w'.objs p).channel.fd w'

    unfoldable pub errorconnection : ℕ → World k (Tcp U) → Outcome (World k (Tcp U))
    unfolding removeconn
    errorconnection p w = do
      w' ← if_set u.errorconnectioncb p w
      removeconn (w'.objs p).channel.fd w'

    unfoldable pub onmessage : ℕ → List ℕ → World k (Tcp U) → Outcome (List ℕ × World k (Tcp U))
    onmessage p message w = elim u.onmessagecb [ none ↦ ok (message, w) | some cb ↦ cb p message w ]

    unfoldable pub sendcomplete : ℕ → World k (Tcp U) → Outcome (World k (Tcp U))
    sendcomplete p w = if_set u.sendcompletecb p w

    unfoldable pub epolltimeout : ℕ → World k (Tcp U) → Outcome (World k (Tcp U))
    epolltimeout l w = if_set u.timeoutcb l w

    -- The callbacks that `newconnection` sets on a connection.
    unfoldable pub handlers : Handlers k (Tcp U)
    handlers = setsendcompletecallback sendcomplete (
        setonmessagecallback onmessage
          (seterrorcallback errorconnection (setclosecallback closeconnection no_handlers)))

    -- The descriptor of the accepted socket is read before the socket is moved.
    unfoldable pub newconnection : Socket → ℕ → World k (Tcp U) → Outcome (World k (Tcp U))
    unfolding subloop
    newconnection clientsock now w = do
      i ← subloop clientsock.fd w.outer.threadnum
      let l = 1 + i
      let p = w.outer.next
      (c, s) ← create_conn k l clientsock now (w.loops l).kernel
      let fd = c.channel.fd
      let x = keep_connection fd p (record (w.loops l) { kernel = s })
      let t = record w.outer { conns = insert fd p w.outer.conns; next = suc p }
      if_set u.newconnectioncb p (record (put_loop l x (put_conn p c w)) { outer = t })

  -- `subloops_[ii]->stop()` for each sub loop below `n`
  unfoldable pub stop_subloops : ℕ → World k (Tcp U) → World k (Tcp U)
  stop_subloops zero w = w
  stop_subloops (suc n) w =
      let w' = stop_subloops n w in put_loop (suc n) (stop (w'.loops (suc n))) w'

  -- Up to the call of `threadpool_.Stop()`.
  unfoldable pub stop_loops : World k (Tcp U) → World k (Tcp U)
  unfolding stop_subloops stop
  stop_loops w = stop_subloops w.outer.threadnum (put_loop 0 (stop (w.loops 0)) w)
