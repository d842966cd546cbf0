-- ===== src/Socket/Defs.antt =====
-- The class `Socket`, and `createnonblocking`.
use reactor_server.Base.{ℕ, Bool, none, some, List, [], Outcome, ok, fault, exits, guard, ◌>>◌}
use reactor_server.InetAddress.{InetAddress, SockaddrIn, Inet, addr, ip, port, setaddr}
use reactor_server.Socket.Net.{Net, Fd, tcp_nodelay, so_reuseaddr, so_reuseport, so_keepalive}

pub record Socket : Type 0 where
  pub fd : Fd
  pub ip : List ℕ
  pub port : ℕ

-- The constructor leaves `port_` as the memory is; 0 stands for it.
unfoldable pub create : Fd → Socket
create fd = record { fd = fd; ip = []; port = 0 }

unfoldable pub setipport : List ℕ → ℕ → Socket → Socket
setipport ip port x = record x { ip = ip; port = port }

-- The answer of `accept4`, with what `peeraddr` holds afterwards: the peer's address, or, if the
-- answer is -1, what was in the memory.
pub record Accepted : Type 0 where
  pub fd : Fd
  pub peeraddr : SockaddrIn

unfoldable pub accept : Accepted → InetAddress → InetAddress × Fd
unfolding setaddr
accept answer clientaddr = (setaddr clientaddr answer.peeraddr, answer.fd)

module _ (n : Net) where
  -- A socket that cannot be made ends the process.
  unfoldable pub createnonblocking : n.State → Outcome (ℕ × n.State)
  createnonblocking s =
      let (s', answer) = n.socket s in
      elim answer [ none ↦ fault exits | some listenfd ↦ ok (listenfd, s') ]

  -- The destructor.
  unfoldable pub destroy : Socket → n.State → n.State
  destroy x = n.close x.fd

  unfoldable pub settcpnodelay : Bool → Socket → n.State → n.State
  settcpnodelay on x = n.setsockopt x.fd tcp_nodelay on

  unfoldable pub setreuseaddr : Bool → Socket → n.State → n.State
  setreuseaddr on x = n.setsockopt x.fd so_reuseaddr on

  unfoldable pub setreuseport : Bool → Socket → n.State → n.State
  setreuseport on x = n.setsockopt x.fd so_reuseport on

  unfoldable pub setkeepalive : Bool → Socket → n.State → n.State
  setkeepalive on x = n.setsockopt x.fd so_keepalive on

  unfoldable pub listen : ℕ → Socket → n.State → Outcome n.State
  listen nn x s = do let (s', done) = n.listen x.fd nn s; guard done exits; ok s'

  module _ (i : Inet) where
    unfoldable pub bind : InetAddress → Socket → n.State → Outcome (Socket × n.State)
    unfolding addr ip port setipport
    bind servaddr x s = do
      let (s', done) = n.bind x.fd (addr servaddr) s
      guard done exits
      ok (setipport (ip i servaddr) (port servaddr) x, s')
