-- ===== src/EchoServer/Reach/Wakes/Tests.antt =====
-- A client that closed its connection before its reply was sent.
use reactor_server.Base.{
  ◌≡◌, refl, none, some, exits, [], ◌∷◌, Outcome, ok, Fault, fault, arith, ◌⊎◌,
}
use reactor_server.EchoServer.Defs.{State, callbacks, work}
use reactor_server.EchoServer.Reach.Steps.{
  runs, Reach, IsReported, here, step, accepts, rounds, works,
}
use reactor_server.EchoServer.Reach.Tests.{
  localhost, begun, server, served, server-IsUp, IsFree-begun, accepted, reported,
}
use reactor_server.EchoServer.Reach.Wakes.{verdict, Reach-wakeup}
use reactor_server.EchoServer.Way.{coming}
use reactor_server.Buffer.{append, pickmessage, pick_all}
use reactor_server.Channel.Watch.{remove}
use reactor_server.Connection.Defs.{got, handle, onmessage, drain, strdup, send}
use reactor_server.Epoll.Defs.{returned, updatechannel, removechannel}
use reactor_server.EventLoop.Defs as EventLoop
use reactor_server.World.{on_channel}
use reactor_server.Epoll.Table.{table, table_laws}
use reactor_server.EventLoop.Dispatch.{taking}
use reactor_server.EventLoop.Run.{wake, client, round, handle_all, handle_source, put_revents}
use reactor_server.TcpServer.Defs as TcpServer
use reactor_server.Socket.Table.{sockets, sockets_laws, numbers, numbers_laws}

abbrev pub result : Outcome (State table) → State table
result (ok w) = w
result (fault f) = served

-- The client sends "h", a worker queues the reply, and the client closes its connection.
abbrev pub received : State table
received = result (
    runs table table_laws 5 1 (coming 0 (λ r. 9) (got b'h' [] ∷ []) [])
      (returned ((client 0, 1) ∷ [])) served)

abbrev worked : State table
worked = result (work 0 8 received)

abbrev closed : State table
closed = result (runs table table_laws 5 1 (taking 0) (returned ((client 0, 8192) ∷ [])) worked)

-- The runs of the three steps, and what the next steps ask of their states.
steps :
    (runs table table_laws 5 1
        (coming 0 (λ r. 9) (got b'h' [] ∷ []) [])
        (returned ((client 0, 1) ∷ []))
        served
      ≡ ok received)
    × (work 0 8 received ≡ ok worked)
    × (runs table table_laws 5 1 (taking 0) (returned ((client 0, 8192) ∷ [])) worked ≡ ok closed)
    × IsReported table table_laws 1 0 worked
    × (worked.outer.threadnum ≡ 1)
    × (closed.outer.threadnum ≡ 1)
    × (received.outer.user.workers ≡ 1)
    × (verdict (closed.loops 1).taskqueue closed.objs ≡ some exits)
unfolding work send strdup round handle_all handle_source handle put_revents onmessage append drain
    pickmessage pick_all TcpServer.handlers TcpServer.onmessage callbacks EventLoop.newconnection
    on_channel remove updatechannel removechannel TcpServer.closeconnection
steps = (
  refl,
  refl,
  refl,
  record { made = omega arith; at_loop = refl; interest = 1; listed = refl },
  refl,
  refl,
  refl,
  refl,
)

pub received-Reach : Reach table table_laws begun received
received-Reach = step (step here (accepts 5 9 80 60 (b'x' ∷ []) served IsFree-begun accepted)) (
    rounds 5 1 (coming 0 (λ r. 9) (got b'h' [] ∷ []) []) ((client 0, 1) ∷ []) received (omega arith)
      (reported, tt, tt) steps.0)

closed-Reach : Reach table table_laws begun closed
closed-Reach =
    let (arrives, works_, closes, is_reported, one, one', crew, exits_) = steps in
    step (step received-Reach (works 0 8 worked (omega (arith, crew)) works_)) (
      rounds 5 1 (taking 0) ((client 0, 8192) ∷ []) closed (omega (arith, one))
        (is_reported, tt, tt) closes)

-- The eventfd that the worker wrote to is readable now.
Reach-wakeup_example :
    let r = runs table table_laws 5 1 (taking 0) (returned ((wake, 1) ∷ [])) closed in
    ((f : Fault) × (verdict (closed.loops 1).taskqueue closed.objs ≡ some f) × (r ≡ fault f))
    ⊎ ((verdict (closed.loops 1).taskqueue closed.objs ≡ none)
        × ((v : State table) × (r ≡ ok v) × Reach table table_laws begun v))
Reach-wakeup_example =
    Reach-wakeup sockets sockets_laws numbers numbers_laws table table_laws localhost 5050 1 1
      server closed 5 1 server-IsUp refl (omega arith) closed-Reach (omega (arith, steps.5))
