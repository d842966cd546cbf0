-- ===== src/TcpServer/Listen.antt =====
-- A client at the listening socket: `Acceptor::newconnection` and `TcpServer::newconnection` together.
use reactor_server.Base.{
  ℕ, ◌<◌, ◌≡◌, ◌≢◌, refl, ◌∙◌, Option, none, some, ◌⊎◌, List, ◌==◌, if◌then◌else◌, Outcome, ok,
  fault, exits, undefined, arith, find,
}
use reactor_server.Acceptor.Defs.{Acceptor, newconnection as accept_client, handle}
use reactor_server.Acceptor.Listen.{at}
use reactor_server.Channel.State.{handleevent, no_callbacks, setreadcallback}
use reactor_server.Connection.Defs.{create_conn}
use reactor_server.Connection.Live.{IsLive}
use reactor_server.Epoll.Kernel.{Kernel, Laws}
use reactor_server.InetAddress.{
  InetAddress, SockaddrIn, Inet, ntohs, setaddr, ip, port, ntohs-htons,
}
use reactor_server.Socket.Defs.{Socket, Accepted, accept, setipport}
use reactor_server.Socket.Defs as Socket
use reactor_server.TcpServer.Accept.{client_socket, newconnection-Consistent}
use reactor_server.TcpServer.Defs.{Tcp, UserCallbacks, if_set, subloop, newconnection}
use reactor_server.TcpServer.Maps.{Holds, Consistent}
use reactor_server.World.{World}

module _ {k : Kernel} {U : Type 0} (i : Inet) (u : UserCallbacks k U) where
  -- What the server's constructor gives to the acceptor, and the time at which it is called.
  abbrev pub newconnectioncb : ℕ → Option (Socket → World k (Tcp U) → Outcome (World k (Tcp U)))
  newconnectioncb now = some (λ clientsock w. newconnection u clientsock now w)

  handle-newconnection :
      (x : Acceptor) (clientaddr : InetAddress) (fd : Option ℕ) (a : SockaddrIn) (now : ℕ)
      (w : World k (Tcp U))
      → x.acceptchannel.revents ≡ 1
      → handle i x (newconnectioncb now) clientaddr (record { fd = fd; peeraddr = a }) w
        ≡ newconnection u
            (record { fd = fd; ip = i.inet_ntoa a.sin_addr; port = ntohs a.sin_port })
            now
            w
  unfolding handle accept_client handleevent no_callbacks setreadcallback accept setaddr ip port
      setipport Socket.create
  handle-newconnection x clientaddr fd a now w e = rw e refl

  newconnection-failed :
      (ip : List ℕ) (port now : ℕ) (w : World k (Tcp U))
      → newconnection u (record { fd = none; ip = ip; port = port }) now w
        ≡ (if w.outer.threadnum == 1 then fault exits else fault undefined)
  unfolding newconnection subloop create_conn
  newconnection-failed ip port now w = ground arith

module _ {k : Kernel} (laws : Laws k) {U : Type 0} (i : Inet) (u : UserCallbacks k U) where
  -- An event of the listening socket, with the answer of `accept4`.
  abbrev pub handled :
      Acceptor → InetAddress → ℕ → Accepted → World k (Tcp U) → Outcome (World k (Tcp U))
  handled x clientaddr now answer w = handle i x (newconnectioncb i u now) clientaddr answer w

  -- EPOLLIN on the listening socket of a server with at least one sub loop and agreeing maps, where
  -- the user's callback changes nothing. If `accept4` gives a descriptor and the address of a peer,
  -- the process ends, or the maps have a new object for it, live, with the peer's address as a text
  -- and its port as a number of the host, they still agree, and the other descriptors keep theirs.
  -- If `accept4` fails, whatever is in the memory for the address, nothing comes back: with one sub
  -- loop the process ends, with more there is an index out of range.
  pub handle-Consistent :
      (x : Acceptor) (clientaddr : InetAddress) (fd a p now : ℕ) (garbage : SockaddrIn)
      (w : World k (Tcp U))
      → x.acceptchannel.revents ≡ 1
      → p < 65536
      → ((v : World k (Tcp U)) → if_set u.newconnectioncb w.outer.next v ≡ ok v)
      → 0 < w.outer.threadnum
      → Consistent w
      → let came = handled x clientaddr now (record { fd = some fd; peeraddr = at a p }) w in
        ((came ≡ fault exits)
          ⊎ ((w' : World k (Tcp U)) × (came ≡ ok w')
              × Consistent w'
              × (find fd w'.outer.conns ≡ some w.outer.next)
              × Holds fd w.outer.next w'
              × IsLive k laws w.outer.next w'
              × ((w'.objs w.outer.next).clientsock ≡ client_socket fd (i.inet_ntoa a) p)
              × ((g : ℕ) → fd ≢ g → find g w'.outer.conns ≡ find g w.outer.conns)))
        × (handled x clientaddr now (record { fd = none; peeraddr = garbage }) w
            ≡ (if w.outer.threadnum == 1 then fault exits else fault undefined))
  handle-Consistent x clientaddr fd a p now garbage w e h quiet pos c = (
    rw (handle-newconnection i u x clientaddr (some fd) (at a p) now w e, ntohs-htons p h)
        (newconnection-Consistent laws u fd (i.inet_ntoa a) p now w quiet pos c),
    handle-newconnection i u x clientaddr none garbage now w e
        ∙ newconnection-failed i u (i.inet_ntoa garbage.sin_addr) (ntohs garbage.sin_port) now w,
  )
