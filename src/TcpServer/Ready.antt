-- ===== src/TcpServer/Ready.antt =====
-- The constructor of the server: its loops, its acceptor and the tasks of its IO pool.
use mathlib.Core.Option.{none-ne-some}
use reactor_server.Base.{
  ℕ, zero, suc, ◌≤◌, ◌<◌, ◌^◌, ◌≡◌, ◌≢◌, refl, sym, ap, ◌∙◌, subst, Bool, true, false, ◌⊎◌, inl,
  inr, List, [], ◌∷◌, ◌++◌, find, ok, fault, exits, arith, ℕ_discrete,
}
use reactor_server.Acceptor.Listen.{IsListening, create-IsListening}
use reactor_server.Channel.State.{Channel}
use reactor_server.Channel.Sync.{IsWatched}
use reactor_server.Epoll.Kernel.{Kernel, Laws}
use reactor_server.EventLoop.Created.{IsReady, create_loop-IsReady}
use reactor_server.EventLoop.Defs.{Given}
use reactor_server.InetAddress.{Inet, InetLaws}
use reactor_server.Socket.Net.{Net, NetLaws}
use reactor_server.TcpServer.Create.{Server, create_subloops, create}
use reactor_server.TcpServer.Defs.{Tcp}
use reactor_server.TcpServer.Maps.{Consistent}
use reactor_server.World.{Loop, World, put_loop}

-- A server with no connections.
abbrev pub new_tcp : {U : Type 0} → ℕ → U → Tcp U
new_tcp threadnum user = record { threadnum = threadnum; conns = []; next = 0; user = user }

-- The numbers of the sub loops.
abbrev pub upto : ℕ → List ℕ
upto zero = []
upto (suc m) = upto m ++ suc m ∷ []

module _ (k : Kernel) (laws : Laws k) where
  -- A change of the kernel's state that keeps what is watched.
  kernel-IsReady :
      {mainloop : Bool} {timetvl timeout : ℕ} (x : Loop k) (e : k.State)
      → IsReady k laws mainloop timetvl timeout x
      → ((c : Channel) → IsWatched k laws c x.kernel → IsWatched k laws c e)
      → laws.armed e ≡ laws.armed x.kernel
      → IsReady k laws mainloop timetvl timeout (record x { kernel = e })
  kernel-IsReady x e r keeps same = record {
    wakes = keeps x.wakechannel r.wakes;
    ticks = keeps x.timerchannel r.ticks;
    first_tick = same ∙ r.first_tick;
    interval = r.interval;
    kind = r.kind;
    idle = r.idle;
    empty = r.empty;
    goes_on = r.goes_on;
  }

module _ (k : Kernel) (laws : Laws k) {U : Type 0} where
  -- What the `for` loop leaves, of a world and the tasks before it.
  record Extended (m : ℕ) (w : World k (Tcp U)) (w' : World k (Tcp U)) : Type 0 where
    subs : (j : ℕ) → 0 < j → j ≤ m → IsReady k laws false 5 10 (w'.loops j)
    main : w'.loops 0 ≡ w.loops 0
    outer : w'.outer ≡ w.outer

  put-Extended :
      (m : ℕ) (x : Loop k) (w w' : World k (Tcp U))
      → Extended m w w'
      → IsReady k laws false 5 10 x
      → Extended (suc m) w (put_loop (suc m) x w')
  put-Extended m x w w' e r = record {
    subs = λ j pos le. elim (ℕ_discrete (suc m) j) [
      | yes same ↦ rw (← same, at) r
      | no other ↦ rw (kept j other) (e.subs j pos (omega arith))
    ];
    main = kept 0 (omega arith) ∙ e.main;
    outer = e.outer;
  }
    where
      at : (put_loop (suc m) x w').loops (suc m) ≡ x
      at = ground arith

      kept : (j : ℕ) → suc m ≢ j → (put_loop (suc m) x w').loops j ≡ w'.loops j
      kept j ne = ground arith

  create_subloops-Extended :
      (given : ℕ → Given k) (m : ℕ) (w : World k (Tcp U))
      → (create_subloops given m (w, []) ≡ fault exits)
        ⊎ ((w' : World k (Tcp U)) × (create_subloops given m (w, []) ≡ ok (w', upto m))
            × Extended m w w')
  unfolding create_subloops
  create_subloops-Extended given zero w =
      inr (w, refl, record { subs = λ j pos le. absurd (omega arith); main = refl; outer = refl })
  create_subloops-Extended given (suc m) w = elim (create_subloops-Extended given m w) [
    | inl failed ↦ inl (rw failed)
    | inr (w', done, e) ↦ elim (create_loop-IsReady k laws false 5 10 (given (suc m))) [
      | inl failed ↦ inl (rw (done, failed))
      | inr (x, made, r) ↦
          inr (put_loop (suc m) x w', rw (done, made) refl, put-Extended m x w w' e r)
    ]
  ]

  nobody-Consistent : (w : World k (Tcp U)) → w.outer.conns ≡ [] → Consistent w
  unfolding find
  nobody-Consistent w e = record {
    holds = λ fd p found. absurd (none-ne-some p (sym (ap (find fd) e) ∙ found));
  }

module _ (n : Net) (net_laws : NetLaws n) (i : Inet) (inet_laws : InetLaws i) (k : Kernel)
    (laws : Laws k) {U : Type 0} where
  -- A server that serves nobody yet: its main loop and each of its sub loops are ready, it listens at
  -- the address and the port, and the IO pool has the `run` of each sub loop as a task.
  pub record IsUp (a p : ℕ) (x : Server n k U) : Type 0 where
    pub main : IsReady k laws true 30 60 (x.world.loops 0)
    pub subs :
        (j : ℕ) → 0 < j → j ≤ x.world.outer.threadnum → IsReady k laws false 5 10 (x.world.loops j)
    pub listens :
        IsListening n net_laws i inet_laws k laws a p x.acceptor x.net (x.world.loops 0).kernel
    pub tasks : x.tasks ≡ upto x.world.outer.threadnum
    pub maps : Consistent x.world
    pub nobody : x.world.outer.conns ≡ []

  -- The constructor, given an address as `inet_ntoa` writes it and a port that is not 0. The process
  -- ends, or the server has the number of sub loops that was asked for; the main loop and each of
  -- them watches its eventfd and its timer, which goes off first after the time-out; the socket
  -- listens at the address and the port, with its four options set, says so, and is watched by the
  -- main loop; the IO pool has the sub loops as tasks, in their order; and the server's map is empty.
  pub create-IsUp :
      (given : ℕ → Given k) (a p threadnum : ℕ) (user : U) (net : n.State) (w : World k (Tcp U))
      → a < 2 ^ 32
      → p < 65536
      → p ≢ 0
      → (create n i given (i.inet_ntoa a) p threadnum user net w ≡ fault exits)
        ⊎ ((x : Server n k U) × (create n i given (i.inet_ntoa a) p threadnum user net w ≡ ok x)
            × IsUp a p x
            × (x.world.outer ≡ new_tcp threadnum user))
  unfolding create
  create-IsUp given a p threadnum user net w ha hp ne =
      elim (create_loop-IsReady k laws true 30 60 (given 0)) [
        | inl failed ↦ inl (rw (create, failed))
        | inr (x, made, r) ↦
            elim (create-IsListening n net_laws i inet_laws k laws a p net x.kernel ha hp ne) [
              | inl failed ↦ inl (rw (create, made, failed))
              | inr (acc, net', e, done, l, others, same) ↦
                  let y = record x { kernel = e } in
                  let w₀ = begun threadnum user y w in
                  elim (create_subloops-Extended k laws given threadnum w₀) [
                    | inl failed ↦ inl (rw (create, made, done, failed))
                    | inr (w', looped, ext) ↦ inr (
                      record { world = w'; acceptor = acc; net = net'; tasks = upto threadnum },
                      rw (create, made, done, looped) refl,
                      record {
                        main = rw ext.main (kernel-IsReady k laws x e r others same);
                        subs = λ j pos le.
                            ext.subs j pos (subst (λ (t : Tcp U). j ≤ t.threadnum) ext.outer le);
                        listens = rw ext.main l;
                        tasks = rw ext.outer refl;
                        maps = nobody-Consistent k laws w' (ap (λ (t : Tcp U). t.conns) ext.outer);
                        nobody = ap (λ (t : Tcp U). t.conns) ext.outer;
                      },
                      ext.outer,
                    )
                  ]
            ]
      ]
    where
      begun : ℕ → U → Loop k → World k (Tcp U) → World k (Tcp U)
      begun threadnum user y w = record (put_loop 0 y w) {
        outer = record { threadnum = threadnum; conns = []; next = 0; user = user };
      }
