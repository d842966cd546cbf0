-- ===== src/TcpServer/Tests.antt =====
-- The theorems about the server's maps, at a server with one sub loop and one client.
use reactor_server.Base.{
  inl, inr, subst, same_ok, not_ok, ℕ, true, ◌+◌, ◌*◌, List, ◌≡◌, ◌≢◌, ◌⊎◌, refl, none, some, [],
  ◌∷◌, ok, fault, exits, arith, find, ◌==◌, if◌then◌else◌,
}
use reactor_server.Acceptor.Defs.{Acceptor}
use reactor_server.Acceptor.Defs as Acceptor
use reactor_server.Channel.State.{setinepoll}
use reactor_server.Channel.State as Channel
use reactor_server.Channel.Watch.{enablereading}
use reactor_server.Socket.Defs.{
  createnonblocking, settcpnodelay, setreuseaddr, setreuseport, setkeepalive, listen, bind,
  setipport,
}
use reactor_server.Socket.Defs as Socket
use reactor_server.Epoll.Defs.{ctl_or_exit, updatechannel}
use reactor_server.Epoll.Defs as Epoll
use reactor_server.Acceptor.Listen.{at}
use reactor_server.Connection.Live.{IsLive}
use reactor_server.Epoll.Table.{table, table_laws, empty_table}
use reactor_server.EventLoop.Defs.{Given, create_loop, createtimerfd}
use reactor_server.InetAddress.{InetAddress, from_text, from_addr, setaddr, addr, port, ip}
use reactor_server.Samples.{world_7, plain}
use reactor_server.Socket.Table.{sockets, sockets_laws, no_sockets, numbers, numbers_laws}
use reactor_server.TcpServer.Create.{Server, create, create_subloops}
use reactor_server.TcpServer.Listen.{handled, handle-Consistent}
use reactor_server.TcpServer.Ready.{IsUp, new_tcp, create-IsUp}
use reactor_server.TcpServer.Accept.{client_socket, newconnection-Consistent}
use reactor_server.TcpServer.Defs.{
  Tcp, UserCallbacks, newconnection, stop_loops, closeconnection, errorconnection,
}
use reactor_server.TcpServer.Stop.{IsStopped, stop_loops-IsStopped}
use reactor_server.Connection.Defs.{Handlers, Answers}
use reactor_server.Epoll.Defs.{Wait}
use reactor_server.EventLoop.Run.{Source, rounds}
use reactor_server.TcpServer.Maps.{Holds, Consistent, close-keeps_in_loop}
use reactor_server.World.{World, Call}

abbrev server : Tcp ℕ
server = record { threadnum = 1; conns = (7, 0) ∷ []; next = 1; user = 0 }

abbrev serving : World table (Tcp ℕ)
serving = world_7 1 (plain []) [] [] server

-- The server's user does nothing.
abbrev idle_user : UserCallbacks table ℕ
idle_user = record {
  newconnectioncb = none;
  closeconnectioncb = none;
  errorconnectioncb = none;
  onmessagecb = none;
  sendcompletecb = none;
  timeoutcb = none;
}

Holds-serving : Holds 7 0 serving
unfolding find
Holds-serving = record { has_fd = refl; has_loop = refl; in_loop = refl; allocated = omega arith }

only_7 : (fd p : ℕ) → find fd ((7, 0) ∷ []) ≡ some p → (7 ≡ fd) × (0 ≡ p)
unfolding find
only_7 fd p e = ground arith

consistent : Consistent serving
consistent = record {
  holds = λ fd p e. let (e', e'') = only_7 fd p e in rw (← e', ← e'') Holds-serving;
}

found_7 : find 7 server.conns ≡ some 0
unfolding find
found_7 = refl

close-keeps_in_loop_example :
    (w' : World table (Tcp ℕ)) × (closeconnection idle_user 0 serving ≡ ok w')
    × (errorconnection idle_user 0 serving ≡ ok w')
    × Consistent w'
    × ((g : ℕ) → find g w'.outer.conns ≡ (if 7 == g then none else find g ((7, 0) ∷ [])))
    × (find 7 (w'.loops 1).conns ≡ some 0)
close-keeps_in_loop_example =
    close-keeps_in_loop idle_user 7 0 serving (λ v. refl) (λ v. refl) consistent found_7

newconnection-Consistent_example :
    (newconnection idle_user (client_socket 9 (b'x' ∷ []) 80) 60 serving ≡ fault exits)
    ⊎ ((w' : World table (Tcp ℕ)) × (newconnection idle_user
            (client_socket 9 (b'x' ∷ []) 80)
            60
            serving
          ≡ ok w')
        × Consistent w'
        × (find 9 w'.outer.conns ≡ some 1)
        × Holds 9 1 w'
        × IsLive table table_laws 1 w'
        × ((w'.objs 1).clientsock ≡ client_socket 9 (b'x' ∷ []) 80)
        × ((g : ℕ) → 9 ≢ g → find g w'.outer.conns ≡ find g ((7, 0) ∷ [])))
newconnection-Consistent_example =
    newconnection-Consistent table_laws idle_user 9 (b'x' ∷ []) 80 60 serving (λ v. refl)
      (omega arith) consistent

stop_loops-IsStopped_example :
    IsStopped table_laws ((stop_loops serving).loops 1)
    × ((h : Handlers table (Tcp ℕ)) (cb idle : Call table (Tcp ℕ))
          (script : List ((Source → Answers) × Wait Source))
        → rounds h cb idle 1 script (stop_loops serving) ≡ ok (stop_loops serving))
stop_loops-IsStopped_example = stop_loops-IsStopped table_laws serving 1 (omega arith)

-- 127.0.0.1, and what the kernel gives to each loop.
abbrev localhost : ℕ
localhost = 127 + 16777216

abbrev given : ℕ → Given table
given l = record { epoll = some empty_table; wakeupfd = 20 + 2 * l; timerfd = 21 + 2 * l }

create-IsUp_example :
    (create sockets numbers given (numbers.inet_ntoa localhost) 5050 2 0 no_sockets serving
      ≡ fault exits)
    ⊎ ((x : Server sockets table ℕ) × (create sockets numbers given
            (numbers.inet_ntoa localhost)
            5050
            2
            0
            no_sockets
            serving
          ≡ ok x)
        × IsUp sockets sockets_laws numbers numbers_laws table table_laws localhost 5050 x
        × (x.world.outer ≡ new_tcp 2 0))
create-IsUp_example =
    create-IsUp sockets sockets_laws numbers numbers_laws table table_laws given localhost 5050 2 0
      no_sockets serving (omega arith) (omega arith) (λ h. omega (arith, h))

-- An acceptor that has heard of a client.
abbrev listening : Acceptor
listening = record {
  servsock = client_socket 8 (numbers.inet_ntoa localhost) 5050;
  acceptchannel = record { fd = 8; inepoll = true; events = 1; revents = 1 };
}

abbrev nowhere : InetAddress
nowhere = record { addr_ = record { sin_family = 0; sin_addr = 0; sin_port = 0 } }

-- The peer 127.0.0.1, at the port 40000.
handle-Consistent_example :
    let came =
      handled table_laws numbers idle_user listening nowhere 60
        (record { fd = some 9; peeraddr = at localhost 40000 })
        serving in
    ((came ≡ fault exits)
      ⊎ ((w' : World table (Tcp ℕ)) × (came ≡ ok w')
          × Consistent w'
          × (find 9 w'.outer.conns ≡ some 1)
          × Holds 9 1 w'
          × IsLive table table_laws 1 w'
          × ((w'.objs 1).clientsock ≡ client_socket 9 (numbers.inet_ntoa localhost) 40000)
          × ((g : ℕ) → 9 ≢ g → find g w'.outer.conns ≡ find g ((7, 0) ∷ []))))
    × (handled table_laws numbers idle_user listening nowhere 60
          (record { fd = none; peeraddr = nowhere.addr_ })
          serving
        ≡ fault exits)
handle-Consistent_example =
    handle-Consistent table_laws numbers idle_user listening nowhere 9 localhost 40000 60
      nowhere.addr_ serving refl (omega arith) (λ v. refl) (omega arith) consistent

-- The server of that call.
unfoldable pub made :
    (x : Server sockets table ℕ) × (create sockets numbers given
        (numbers.inet_ntoa localhost)
        5050
        2
        0
        no_sockets
        serving
      ≡ ok x)
unfolding create create_subloops create_loop createtimerfd Acceptor.create Socket.create
    createnonblocking settcpnodelay setreuseaddr setreuseport setkeepalive listen bind from_text
    from_addr setaddr addr port ip setipport Epoll.create ctl_or_exit updatechannel enablereading
    Channel.create setinepoll
made = (_, refl)

pub made-IsUp :
    IsUp sockets sockets_laws numbers numbers_laws table table_laws localhost 5050 (made.0)
made-IsUp =
    elim (create-IsUp sockets sockets_laws numbers numbers_laws table table_laws given localhost
      5050 2 0 no_sockets serving (omega arith) (omega arith) (λ h. omega (arith, h))) [
        | inl failed ↦ absurd (not_ok failed made.1)
        | inr (x, e, up, o) ↦
            subst
              (λ y.
                IsUp sockets sockets_laws numbers numbers_laws table table_laws localhost 5050 y)
              (same_ok e made.1) up
      ]
