-- ===== src/EchoServer/Reach/Tests.antt =====
-- A server with one sub loop and one worker, and its first client.
use reactor_server.Base.{
  ◌⊎◌, fault, killed, inr, ℕ, zero, suc, ◌+◌, ◌<◌, ◌≡◌, refl, Bool, true, false, Option, none, some,
  [], ◌∷◌, ◌++◌, ◌==◌, if◌then◌else◌, ok, arith, find, insert,
}
use reactor_server.Acceptor.Listen.{listener, at}
use reactor_server.Buffer as Buffer
use reactor_server.Channel.Added.{reading}
use reactor_server.Channel.State.{setinepoll}
use reactor_server.Channel.State as Channel
use reactor_server.Channel.Watch.{enablereading}
use reactor_server.Connection.Defs.{took, Answers, got, would_block, create_conn}
use reactor_server.EchoServer.Defs.{Echo, State, work_prefix, callbacks, work, handle_quietly}
use reactor_server.EchoServer.Reach.Accepts.{IsFree}
use reactor_server.EchoServer.Reach.Serves.{new_client-served}
use reactor_server.EchoServer.Reach.Sound.{Inv}
use reactor_server.EchoServer.Reach.Ticks.{Reach-timer}
use reactor_server.EchoServer.Way.{coming}
use reactor_server.Connection.Live.{IsLive}
use reactor_server.EventLoop.Dispatch.{taking}
use reactor_server.EchoServer.Reach.Handles.{Breaks}
use reactor_server.EchoServer.Reach.Returns.{AnyBroken, Reach-round, Reach-round-of_clients}
use reactor_server.EchoServer.Reach.Steps.{runs, IsReported, Reach, here, step, accepts, Reach-Inv}
use reactor_server.Epoll.Defs.{returned, updatechannel, ctl_or_exit}
use reactor_server.Epoll.Table.{table, table_laws}
use reactor_server.EventLoop.Created.{IsReady}
use reactor_server.EventLoop.Defs.{isinloopthread, newconnection as keep_connection}
use reactor_server.EventLoop.Run.{Source, wake, timer, client}
use reactor_server.Samples.{conn_7, plain}
use reactor_server.Socket.Table.{sockets, sockets_laws, numbers, numbers_laws}
use reactor_server.TcpServer.Accept.{client_socket, joined, new_conn}
use reactor_server.TcpServer.Create.{Server}
use reactor_server.TcpServer.Defs.{Tcp, subloop, newconnection}
use reactor_server.TcpServer.Maps.{Consistent}
use reactor_server.TcpServer.Ready.{IsUp}
use reactor_server.World.{Loop, World}

-- The eventfd 20, the timerfd 21, and, for the main loop, the listening socket 8.
abbrev interests : ℕ → Option ℕ
interests j =
    if 8 == j then some 1 else if 20 == j then some 1 else if 21 == j then some 1 else none

abbrev ready : Bool → ℕ → ℕ → Loop table
ready mainloop timetvl timeout = record {
  timetvl = timetvl;
  timeout = timeout;
  kernel = record { list = interests; signalled = false; seconds = timeout };
  threadid = 0;
  taskqueue = [];
  wakechannel = reading 20;
  timerchannel = reading 21;
  mainloop = mainloop;
  conns = [];
  stop = false;
}

ready-IsReady :
    (mainloop : Bool) (timetvl timeout : ℕ)
    → IsReady table table_laws mainloop timetvl timeout (ready mainloop timetvl timeout)
ready-IsReady mainloop timetvl timeout = record {
  wakes = record { flagged = refl; listed = refl };
  ticks = record { flagged = refl; listed = refl };
  first_tick = refl;
  interval = refl;
  kind = refl;
  idle = refl;
  empty = refl;
  goes_on = refl;
}

abbrev pub localhost : ℕ
localhost = 127 + 16777216

abbrev loops : ℕ → Loop table
loops zero = ready true 30 60
loops (suc m) = ready false 5 10

abbrev pub begun : World table (Tcp Echo)
begun = record {
  objs = λ p. conn_7 1 (plain []) [];
  loops = loops;
  outer = record { threadnum = 1; conns = []; next = 0; user = record { workers = 1; tasks = [] } };
}

abbrev pub server : Server sockets table Echo
server = record {
  world = begun;
  acceptor = record {
    servsock = client_socket 8 (numbers.inet_ntoa localhost) 5050;
    acceptchannel = reading 8;
  };
  net = record {
    list = λ j. if 8 == j then some (listener (at localhost 5050)) else none;
    next = 9;
  };
  tasks = 1 ∷ [];
}

begun-Consistent : Consistent begun
unfolding find
begun-Consistent = record { holds = λ fd p e. absurd (never e) }
  where
    never : {p : ℕ} → none ≡ some p → ⊥
    never h = ground (arith, h)

pub server-IsUp :
    IsUp sockets sockets_laws numbers numbers_laws table table_laws localhost 5050 server
server-IsUp = record {
  main = ready-IsReady true 30 60;
  subs = λ j pos le. sub j pos;
  listens = record {
    has_fd = refl;
    listens = refl;
    says_ip = refl;
    says_port = refl;
    watches = record { flagged = refl; listed = refl };
  };
  tasks = refl;
  maps = begun-Consistent;
  nobody = refl;
}
  where
    sub : (j : ℕ) → 0 < j → IsReady table table_laws false 5 10 (loops j)
    sub zero pos = absurd (omega arith)
    sub (suc j) pos = ready-IsReady false 5 10

nothing_kept : (m : ℕ) → (loops m).conns ≡ []
nothing_kept zero = refl
nothing_kept (suc m) = refl

pub IsFree-begun : IsFree table table_laws 9 begun
unfolding find
IsFree-begun g m p e = absurd (never (rw (nothing_kept m) at e))
  where
    never : {q : ℕ} → none ≡ some q → ⊥
    never h = ground (arith, h)

-- The world with the client.
abbrev pub served : State table
served =
    joined 9 (new_conn 1 9 (b'x' ∷ []) 80 60)
      (record {
        list = λ j. if 9 == j then some 1 else interests j;
        signalled = false;
        seconds = 10;
      })
      begun

pub accepted : newconnection (callbacks 5) (client_socket 9 (b'x' ∷ []) 80) 60 begun ≡ ok served
unfolding newconnection subloop create_conn Buffer.create Channel.create enablereading updatechannel
    ctl_or_exit setinepoll callbacks handle_quietly keep_connection insert
accepted = refl

Reach-Inv_example : Inv table table_laws served
Reach-Inv_example =
    Reach-Inv sockets sockets_laws numbers numbers_laws table table_laws localhost 5050 1 1 server
      served server-IsUp refl (omega arith)
      (step here (accepts 5 9 80 60 (b'x' ∷ []) served IsFree-begun accepted))

pub reported : IsReported table table_laws 1 0 served
unfolding keep_connection
reported = record { made = omega arith; at_loop = refl; interest = 1; listed = refl }

-- Two bytes are read in the round, of which one is NUL.
abbrev two_bytes : Source → Answers
two_bytes src = record {
  fuel = 2;
  clock = λ r. 0;
  reads = got 0 (b'x' ∷ []) ∷ would_block ∷ [];
  answer = took 0;
}

-- EPOLLIN for the client.
Reach-round_example :
    let r = runs table table_laws 5 1 two_bytes (returned ((client 0, 1) ∷ [])) served in
    ((v : State table) × (r ≡ ok v) × Reach table table_laws begun v)
    ⊎ (Breaks table table_laws 1 (two_bytes (client 0)) × (r ≡ fault killed))
Reach-round_example =
    Reach-round sockets sockets_laws numbers numbers_laws table table_laws localhost 5050 1 1 server
      served 5 1 0 1 two_bytes server-IsUp refl (omega arith)
      (step here (accepts 5 9 80 60 (b'x' ∷ []) served IsFree-begun accepted)) (omega arith)
      reported (inr (inr (omega arith, omega arith, tt)))

-- The client sends "hi" in two parts, and its socket takes up to 100 bytes.
new_client-served_example :
    let reads = got b'h' [] ∷ got b'i' [] ∷ [] in
    (w₁ w₂ w₃ w₄ : State table) × (runs table table_laws 5 1
        (coming 0 (λ r. 9) reads [])
        (returned ((client 0, 1) ∷ []))
        served
      ≡ ok w₁)
    × (work 0 8 w₁ ≡ ok w₂)
    × (table_laws.pending (w₂.loops 1).kernel ≡ true)
    × (runs table table_laws 5 1 (taking 0) (returned ((wake, 1) ∷ [])) w₂ ≡ ok w₃)
    × ((w₃.objs 0).outputbuffer.buf ≡ work_prefix ++ b'h' ∷ b'i' ∷ [])
    × (runs table table_laws 5 1 (taking 100) (returned ((client 0, 4) ∷ [])) w₃ ≡ ok w₄)
    × ((w₄.objs 0).outputbuffer.buf ≡ [])
    × ((w₄.objs 0).disconnect ≡ false)
    × IsLive table table_laws 0 w₄
    × Reach table table_laws begun w₄
unfolding isinloopthread keep_connection
new_client-served_example =
    new_client-served sockets sockets_laws numbers numbers_laws table table_laws localhost 5050 1 1
      server begun served 5 8 9 80 60 0 100 (b'x' ∷ []) (λ r. 9) (got b'h' [] ∷ got b'i' [] ∷ []) []
      server-IsUp refl (omega arith) (omega arith) here IsFree-begun accepted refl refl refl tt
      (omega arith) ((λ h. omega (arith, h)), ((λ h. omega (arith, h)), tt)) (omega arith)

-- A round with its one client.
Reach-round-of_clients_example :
    let r = runs table table_laws 5 1 two_bytes (returned ((client 0, 1) ∷ [])) served in
    ((v : State table) × (r ≡ ok v) × Reach table table_laws begun v)
    ⊎ (AnyBroken two_bytes ((0, 1) ∷ []) × (r ≡ fault killed))
Reach-round-of_clients_example =
    Reach-round-of_clients sockets sockets_laws numbers numbers_laws table table_laws localhost 5050
      1 1 server served 5 1 two_bytes ((0, 1) ∷ []) server-IsUp refl (omega arith) (omega arith)
      (step here (accepts 5 9 80 60 (b'x' ∷ []) served IsFree-begun accepted)) (omega arith)
      (reported, tt, tt) (omega arith, tt, tt)

-- The timer goes off a hundred seconds after the client's last message.
abbrev late : Source → Answers
late src = record { fuel = 0; clock = λ r. 160; reads = []; answer = took 0 }

Reach-timer_example :
    (v : State table) × (runs table table_laws 5 1 late (returned ((timer, 1) ∷ [])) served ≡ ok v)
    × (v.objs ≡ served.objs)
    × (v.outer ≡ served.outer)
    × ((m : ℕ) → (v.loops m).conns ≡ (served.loops m).conns)
    × ((j : ℕ)
        → table_laws.watched (v.loops 1).kernel j ≡ table_laws.watched (served.loops 1).kernel j)
    × (table_laws.armed (v.loops 1).kernel ≡ 5)
    × Reach table table_laws begun v
unfolding keep_connection
Reach-timer_example =
    Reach-timer table table_laws begun served 5 1 late
      (step here (accepts 5 9 80 60 (b'x' ∷ []) served IsFree-begun accepted)) (omega arith)
