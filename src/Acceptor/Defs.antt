-- ===== src/Acceptor/Defs.antt =====
-- The class `Acceptor`. Its loop is the main loop of the server.
use reactor_server.Base.{
  ℕ, true, Option, none, some, List, Outcome, ok, fault, bad_function_call, ◌>>=◌,
}
use reactor_server.Channel.State.{Channel, handleevent, setreadcallback, no_callbacks}
use reactor_server.Channel.State as Channel
use reactor_server.Channel.Watch.{enablereading}
use reactor_server.Epoll.Kernel.{Kernel}
use reactor_server.InetAddress.{InetAddress, Inet, from_text, ip, port}
use reactor_server.Socket.Defs.{
  Socket, Accepted, setipport, accept, createnonblocking, settcpnodelay, setreuseaddr, setreuseport,
  setkeepalive, bind, listen,
}
use reactor_server.Socket.Defs as Socket
use reactor_server.Socket.Net.{Net}

pub record Acceptor : Type 0 where
  pub servsock : Socket
  pub acceptchannel : Channel

module _ (n : Net) (i : Inet) (k : Kernel) where
  -- The constructor, with the state of the sockets and that of the loop's epoll.
  unfoldable pub create : List ℕ → ℕ → n.State → k.State → Outcome (Acceptor × (n.State × k.State))
  unfolding from_text Socket.create Channel.create setreuseaddr settcpnodelay setreuseport
      setkeepalive
  create ip port s e = do
    (fd, s₀) ← createnonblocking n s
    let servsock = Socket.create (some fd)
    let servaddr = from_text i ip port
    let s₁ = setreuseaddr n true servsock s₀
    let s₂ = settcpnodelay n true servsock s₁
    let s₃ = setreuseport n true servsock s₂
    let s₄ = setkeepalive n true servsock s₃
    (servsock', s₅) ← bind n i servaddr servsock s₄
    s₆ ← listen n 128 servsock' s₅
    (ch, e') ← enablereading k (Channel.create fd) e
    ok (record { servsock = servsock'; acceptchannel = ch }, (s₆, e'))

module _ {ℓ} {W : Type ℓ} (i : Inet) where
  -- `cb` is `newconnectioncb_`; `clientaddr` is the address before it is written.
  unfoldable pub newconnection :
      Option (Socket → W → Outcome W) → InetAddress → Accepted → W → Outcome W
  unfolding accept ip port setipport Socket.create
  newconnection cb clientaddr answer w =
      let (clientaddr', fd) = accept answer clientaddr in
      let clientsock = setipport (ip i clientaddr') (port clientaddr') (Socket.create fd) in
      elim cb [ none ↦ fault bad_function_call | some fn ↦ fn clientsock w ]

  -- An event of the acceptor's channel, which has this one callback.
  unfoldable pub handle :
      Acceptor → Option (Socket → W → Outcome W) → InetAddress → Accepted → W → Outcome W
  unfolding newconnection handleevent setreadcallback no_callbacks
  handle acceptor cb clientaddr answer w =
      handleevent acceptor.acceptchannel
        (setreadcallback no_callbacks (newconnection cb clientaddr answer)) w
