-- ===== src/Socket/Setup.antt =====
-- The setup of a listening socket: each step succeeds with its effect, or ends the process.
use reactor_server.Base.{
  ℕ, ◌≡◌, ◌≢◌, refl, true, none, some, ◌⊎◌, inl, inr, Bool-cases, Option-cases, ok, fault, exits,
}
use reactor_server.InetAddress.{InetAddress, Inet, addr, ip, port}
use reactor_server.Socket.Net.{Net, NetLaws, Sock, fresh}
use reactor_server.Socket.Defs.{
  Socket, setipport, createnonblocking, settcpnodelay, setreuseaddr, setreuseport, setkeepalive,
  bind, listen,
}

module _ (n : Net) (laws : NetLaws n) where
  open laws use {sock}

  pub createnonblocking-cases :
      (s : n.State)
      → (createnonblocking n s ≡ fault exits)
        ⊎ ((fd : ℕ) × (s' : n.State) × (createnonblocking n s ≡ ok (fd, s'))
            × (sock s' fd ≡ some fresh))
  unfolding createnonblocking
  createnonblocking-cases s = elim (Option-cases (n.socket s).1) [
    | inl failed ↦ inl (rw (createnonblocking, failed))
    | inr (fd, made) ↦
        inr (fd, (n.socket s).0, rw (createnonblocking, made) refl, laws.made fd s made)
  ]

  -- A socket with the four options that the acceptor sets.
  abbrev pub with_options : Sock → Sock
  with_options x = record x { nodelay = true; reuseaddr = true; reuseport = true; keepalive = true }

  -- The four calls, in the acceptor's order.
  abbrev pub options : Socket → n.State → n.State
  options x s =
      setkeepalive n true x
        (setreuseport n true x (settcpnodelay n true x (setreuseaddr n true x s)))

  pub options_set :
      (fd : ℕ) (x : Socket) (o : Sock) (s : n.State)
      → x.fd ≡ some fd
      → sock s fd ≡ some o
      → sock (options x s) fd ≡ some (with_options o)
  unfolding setkeepalive setreuseport settcpnodelay setreuseaddr
  options_set fd x o s e h = rw e (
      laws.opted fd _ _ _ _
        (laws.opted fd _ _ _ _ (laws.opted fd _ _ _ _ (laws.opted fd _ _ _ _ h))))

  pub listen-cases :
      (fd nn : ℕ) (x : Socket) (o : Sock) (s : n.State)
      → x.fd ≡ some fd
      → sock s fd ≡ some o
      → o.name ≢ none
      → (listen n nn x s ≡ fault exits)
        ⊎ ((s' : n.State) × (listen n nn x s ≡ ok s')
            × (sock s' fd ≡ some (record o { backlog = some nn })))
  unfolding listen
  listen-cases fd nn x o s e h named = elim (Bool-cases (n.listen (some fd) nn s).1) [
    | inr failed ↦ inl (rw (e, failed))
    | inl done ↦
        inr ((n.listen (some fd) nn s).0, rw (e, done), laws.listening fd nn o s h named done)
  ]

  pub bind-cases :
      (i : Inet) (fd : ℕ) (a : InetAddress) (x : Socket) (o : Sock) (s : n.State)
      → x.fd ≡ some fd
      → sock s fd ≡ some o
      → a.addr_.sin_port ≢ 0
      → (bind n i a x s ≡ fault exits)
        ⊎ ((s' : n.State) × (bind n i a x s ≡ ok (setipport (ip i a) (port a) x, s'))
            × (sock s' fd ≡ some (record o { name = some a.addr_ })))
  unfolding bind addr
  bind-cases i fd a x o s e h named = elim (Bool-cases (n.bind (some fd) a.addr_ s).1) [
    | inr failed ↦ inl (rw (e, failed))
    | inl done ↦
        inr ((n.bind (some fd) a.addr_ s).0, rw (e, done), laws.bound fd a.addr_ o s h named done)
  ]
