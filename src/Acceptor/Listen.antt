-- ===== src/Acceptor/Listen.antt =====
-- The constructor of the acceptor: the server listens, and is told of clients.
use mathlib.Core.Option.{none-ne-some}
use reactor_server.Base.{
  ℕ, ◌<◌, ◌^◌, ◌≡◌, ◌≢◌, refl, sym, ap, ◌∙◌, true, some, ◌⊎◌, inl, inr, ok, fault, exits, arith,
}
use reactor_server.Channel.State.{Channel}
use reactor_server.Channel.Added.{reading, enablereading-added}
use reactor_server.Channel.Sync.{IsWatched}
use reactor_server.Epoll.Kernel.{Kernel, Laws}
use reactor_server.InetAddress.{
  InetAddress, SockaddrIn, Inet, InetLaws, af_inet, htons, from_text, ip, port, port-from_text,
  ip-from_text,
}
use reactor_server.Socket.Defs.{Socket, setipport}
use reactor_server.Socket.Defs as Socket
use reactor_server.Socket.Net.{Net, NetLaws, Sock}
use reactor_server.Socket.Setup.{
  createnonblocking-cases, options, options_set, bind-cases, listen-cases,
}
use reactor_server.Acceptor.Defs.{Acceptor, create}

htons_positive : (p : ℕ) → p < 65536 → p ≢ 0 → htons p ≢ 0
htons_positive p h ne = omega arith

-- A socket that listens at an address, with the four options and a queue of 128.
abbrev pub listener : SockaddrIn → Sock
listener a = record {
  nodelay = true;
  reuseaddr = true;
  reuseport = true;
  keepalive = true;
  name = some a;
  backlog = some 128;
}

-- The address `a` and the port `p`, both as numbers of the host.
abbrev pub at : ℕ → ℕ → SockaddrIn
at a p = record { sin_family = af_inet; sin_addr = a; sin_port = htons p }

module _ (n : Net) (net_laws : NetLaws n) (i : Inet) (inet_laws : InetLaws i) (k : Kernel)
    (laws : Laws k) where
  open net_laws use {sock}
  open laws use {armed}

  -- The server listens at the address and the port, its socket says so, and the main loop's epoll
  -- reports clients.
  pub record IsListening (a p : ℕ) (x : Acceptor) (s : n.State) (e : k.State) : Type 0 where
    pub has_fd : x.servsock.fd ≡ some x.acceptchannel.fd
    pub listens : sock s x.acceptchannel.fd ≡ some (listener (at a p))
    pub says_ip : x.servsock.ip ≡ i.inet_ntoa a
    pub says_port : x.servsock.port ≡ p
    pub watches : IsWatched k laws x.acceptchannel e

  abbrev named_by : InetAddress → Socket → Socket
  named_by a x = record { fd = x.fd; ip = ip i a; port = port a }

  address : (a p : ℕ) → a < 2 ^ 32 → (from_text i (i.inet_ntoa a) p).addr_ ≡ at a p
  unfolding from_text
  address a p h = ap (λ b. at b p) (inet_laws.addr_ntoa a h)

  address_positive :
      (a p : ℕ) → p < 65536 → p ≢ 0 → (from_text i (i.inet_ntoa a) p).addr_.sin_port ≢ 0
  unfolding from_text
  address_positive a p hp ne = htons_positive p hp ne

  -- The constructor ends the process, or the server listens, and what the main loop watched it still
  -- watches.
  pub create-IsListening :
      (a p : ℕ) (s : n.State) (e : k.State)
      → a < 2 ^ 32
      → p < 65536
      → p ≢ 0
      → (create n i k (i.inet_ntoa a) p s e ≡ fault exits)
        ⊎ ((x : Acceptor) × (s' : n.State) × (e' : k.State) × (create n i k (i.inet_ntoa a) p s e
              ≡ ok (x, (s', e')))
            × IsListening a p x s' e'
            × ((c : Channel) → IsWatched k laws c e → IsWatched k laws c e')
            × (armed e' ≡ armed e))
  unfolding create Socket.create setipport
  create-IsListening a p s e ha hp ne = elim (createnonblocking-cases n net_laws s) [
    | inl failed ↦ inl (rw (create, failed))
    | inr (fd, s₀, made, new) ↦
        let a₀ = from_text i (i.inet_ntoa a) p in
        let x₀ = Socket.create (some fd) in
        let s₄ = options n net_laws x₀ s₀ in
        elim (bind-cases n net_laws i fd a₀ x₀ _ s₄ refl
          (options_set n net_laws fd x₀ _ s₀ refl new) (address_positive a p hp ne)) [
            | inl refused ↦ inl (rw (create, made, refused))
            | inr (s₅, bound, named) ↦
                elim (listen-cases n net_laws fd 128 (named_by a₀ x₀) _ s₅ refl named
                  (λ h. none-ne-some _ (sym h))) [
                    | inl refused ↦ inl (rw (create, made, bound, refused))
                    | inr (s₆, done, listens) ↦ elim (enablereading-added k laws fd e) [
                      | inl no_room ↦ inl (rw (create, made, bound, done, no_room))
                      | inr (e', added, watched, others, same) ↦ inr (
                        record { servsock = named_by a₀ x₀; acceptchannel = reading fd },
                        s₆,
                        e',
                        rw (create, made, bound, done, added) refl,
                        record {
                          has_fd = refl;
                          listens = listens ∙ ap (λ b. some (listener b)) (address a p ha);
                          says_ip = ip-from_text i inet_laws a p ha;
                          says_port = port-from_text i inet_laws (i.inet_ntoa a) p hp;
                          watches = watched;
                        },
                        others,
                        same,
                      )
                    ]
                  ]
          ]
  ]
