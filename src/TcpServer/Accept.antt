-- ===== src/TcpServer/Accept.antt =====
-- `TcpServer::newconnection`, with the constructor of the connection.
use reactor_server.Base.{
  ℕ, suc, ◌<◌, ◌≡◌, ◌≢◌, refl, sym, ◌∙◌, true, false, ◌⊎◌, inl, inr, some, List, [], ◌==◌, ok,
  fault, exits, arith, ℕ_discrete, find, insert, find-insert,
}
use reactor_server.Channel.State.{Channel, create}
use reactor_server.Channel.Sync.{IsWatched, enablereading-IsWatched}
use reactor_server.Connection.Defs.{create_conn}
use reactor_server.Connection.Live.{IsLive}
use reactor_server.Epoll.Kernel.{Kernel, Laws}
use reactor_server.EventLoop.Defs.{newconnection as keep_connection}
use reactor_server.TcpServer.Defs.{Tcp, UserCallbacks, if_set, subloop, newconnection}
use reactor_server.Socket.Defs.{Socket}
use reactor_server.World.{Conn, World, put_conn, put_loop}
use reactor_server.TcpServer.Maps.{loop_of, Holds, Consistent}

positive : (n : ℕ) → 0 < n → (n == 0) ≡ false
positive n pos = ground arith

pub find-insert_same : (k v : ℕ) (m : List (ℕ × ℕ)) → find k (insert k v m) ≡ some v
find-insert_same k v m = ground (arith, find-insert k k v m)

pub insert-found :
    (j k v : ℕ) (m : List (ℕ × ℕ)) {p : ℕ} → k ≡ j → find j (insert k v m) ≡ some p → v ≡ p
insert-found j k v m same e = ground (arith, find-insert j k v m)

pub find-insert_other : (j k v : ℕ) (m : List (ℕ × ℕ)) → k ≢ j → find j (insert k v m) ≡ find j m
find-insert_other j k v m ne = ground (arith, find-insert j k v m)

-- The object of a new connection, and its channel, which the constructor has registered.
abbrev pub new_channel : ℕ → Channel
new_channel fd = record { fd = fd; inepoll = true; events = 1; revents = 0 }

-- A client's socket.
abbrev pub client_socket : ℕ → List ℕ → ℕ → Socket
client_socket fd ip port = record { fd = some fd; ip = ip; port = port }

abbrev pub new_conn : ℕ → ℕ → List ℕ → ℕ → ℕ → Conn
new_conn l fd ip port now = record {
  loop = l;
  clientsock = client_socket fd ip port;
  channel = new_channel fd;
  inputbuffer = record { buf = []; sep = 0 };
  outputbuffer = record { buf = []; sep = 1 };
  disconnect = false;
  lasttime = now;
}

module _ (k : Kernel) (laws : Laws k) where
  -- The constructor of a connection succeeds, with the kernel watching the new descriptor, or the
  -- kernel refuses and the process ends.
  pub create_conn-cases :
      (l fd : ℕ) (ip : List ℕ) (port now : ℕ) (s : k.State)
      → (create_conn k l (client_socket fd ip port) now s ≡ fault exits)
        ⊎ ((s' : k.State) × (create_conn k l (client_socket fd ip port) now s
              ≡ ok (new_conn l fd ip port now, s'))
            × IsWatched k laws (new_channel fd) s'
            × ((j : ℕ) → j ≢ fd → laws.watched s' j ≡ laws.watched s j))
  unfolding create_conn
  create_conn-cases l fd ip port now s = elim (enablereading-IsWatched k laws (create fd) s refl) [
    | inl no_room ↦ inl (rw no_room)
    | inr (s', done, watched, others) ↦ inr (s', rw done, watched, others)
  ]

module _ {k : Kernel} {U : Type 0} where
  -- The world after `newconnection`, less the user's callback: `p` is the new object.
  abbrev pub joined : ℕ → Conn → k.State → World k (Tcp U) → World k (Tcp U)
  joined fd c s w =
      record (put_loop c.loop
        (keep_connection fd w.outer.next (record (w.loops c.loop) { kernel = s }))
        (put_conn w.outer.next c w)) {
          outer = record w.outer {
            conns = insert fd w.outer.next w.outer.conns;
            next = suc w.outer.next;
          };
        }

  pub newconnection-eq :
      (u : UserCallbacks k U) (fd : ℕ) (ip : List ℕ) (port now : ℕ) (w : World k (Tcp U))
      (s : k.State)
      → 0 < w.outer.threadnum
      → create_conn k (loop_of fd w) (client_socket fd ip port) now (w.loops (loop_of fd w)).kernel
        ≡ ok (new_conn (loop_of fd w) fd ip port now, s)
      → newconnection u (client_socket fd ip port) now w
        ≡ if_set u.newconnectioncb w.outer.next
            (joined fd (new_conn (loop_of fd w) fd ip port now) s w)
  unfolding newconnection subloop
  newconnection-eq u fd ip port now w s pos e = rw (positive w.outer.threadnum pos, e) refl

  pub newconnection-exits :
      (u : UserCallbacks k U) (fd : ℕ) (ip : List ℕ) (port now : ℕ) (w : World k (Tcp U))
      → 0 < w.outer.threadnum
      → create_conn k (loop_of fd w) (client_socket fd ip port) now (w.loops (loop_of fd w)).kernel
        ≡ fault exits
      → newconnection u (client_socket fd ip port) now w ≡ fault exits
  unfolding newconnection subloop
  newconnection-exits u fd ip port now w pos e = rw (positive w.outer.threadnum pos, e) refl

  pub kernel_at :
      (fd : ℕ) (c : Conn) (s : k.State) (w : World k (Tcp U))
      → ((joined fd c s w).loops c.loop).kernel ≡ s
  unfolding keep_connection
  kernel_at fd c s w = ground arith

  pub new_at :
      (fd : ℕ) (ip : List ℕ) (port now : ℕ) (s : k.State) (w : World k (Tcp U))
      → (joined fd (new_conn (loop_of fd w) fd ip port now) s w).objs w.outer.next
        ≡ new_conn (loop_of fd w) fd ip port now
  new_at fd ip port now s w = ground arith

  pub old_at :
      (c : Conn) (fd : ℕ) (s : k.State) (w : World k (Tcp U)) (p : ℕ)
      → p < w.outer.next
      → (joined fd c s w).objs p ≡ w.objs p
  old_at c fd s w p below = ground arith

  pub conns_at :
      (fd : ℕ) (c : Conn) (s : k.State) (w : World k (Tcp U))
      → ((joined fd c s w).loops c.loop).conns ≡ insert fd w.outer.next (w.loops c.loop).conns
  unfolding keep_connection
  conns_at fd c s w = ground arith

  pub conns_kept :
      (fd : ℕ) (c : Conn) (s : k.State) (w : World k (Tcp U)) (g m p : ℕ)
      → fd ≢ g
      → find g (w.loops m).conns ≡ some p
      → find g ((joined fd c s w).loops m).conns ≡ some p
  unfolding keep_connection
  conns_kept fd c s w g m p other e = elim (ℕ_discrete c.loop m) [
    | yes same ↦
        rw (← same, conns_at fd c s w)
          (find-insert_other g fd w.outer.next (w.loops c.loop).conns other ∙ rw same e)
    | no ne ↦ ground arith
  ]

  new-Holds :
      (fd : ℕ) (ip : List ℕ) (port now : ℕ) (s : k.State) (w : World k (Tcp U))
      → Holds fd w.outer.next (joined fd (new_conn (loop_of fd w) fd ip port now) s w)
  new-Holds fd ip port now s w =
      let n = new_conn (loop_of fd w) fd ip port now in
      record {
        has_fd = rw (new_at fd ip port now s w);
        has_loop = rw (new_at fd ip port now s w);
        in_loop =
            rw (conns_at fd n s w)
              (find-insert_same fd w.outer.next (w.loops (loop_of fd w)).conns);
        allocated = omega arith;
      }

  joined-Consistent :
      (fd : ℕ) (ip : List ℕ) (port now : ℕ) (s : k.State) (w : World k (Tcp U))
      → Consistent w
      → Consistent (joined fd (new_conn (loop_of fd w) fd ip port now) s w)
  joined-Consistent fd ip port now s w c = record {
    holds = λ g p e. elim (ℕ_discrete fd g) [
      | yes same ↦
          let is_new = insert-found g fd w.outer.next w.outer.conns same e in
          rw (← same, ← is_new) (new-Holds fd ip port now s w)
      | no other ↦
          let h = c.holds g p (sym (find-insert_other g fd w.outer.next w.outer.conns other) ∙ e) in
          let n = new_conn (loop_of fd w) fd ip port now in
          record {
            has_fd = rw (old_at n fd s w p h.allocated) h.has_fd;
            has_loop = rw (old_at n fd s w p h.allocated) h.has_loop;
            in_loop = conns_kept fd n s w g (loop_of g w) p other h.in_loop;
            allocated = omega (arith, h.allocated);
          }
    ];
  }

module _ {k : Kernel} (laws : Laws k) {U : Type 0} where
  -- A client is accepted, with a user's callback that changes nothing, and at least one sub loop. Either
  -- the kernel refuses to watch the descriptor, and the process ends, or both maps have a new object
  -- under the descriptor, which its loop watches and which has the accepted socket, the maps still
  -- agree, and every other descriptor of the server's map keeps its object.
  pub newconnection-Consistent :
      (u : UserCallbacks k U) (fd : ℕ) (ip : List ℕ) (port now : ℕ) (w : World k (Tcp U))
      → ((v : World k (Tcp U)) → if_set u.newconnectioncb w.outer.next v ≡ ok v)
      → 0 < w.outer.threadnum
      → Consistent w
      → (newconnection u (client_socket fd ip port) now w ≡ fault exits)
        ⊎ ((w' : World k (Tcp U)) × (newconnection u (client_socket fd ip port) now w ≡ ok w')
            × Consistent w'
            × (find fd w'.outer.conns ≡ some w.outer.next)
            × Holds fd w.outer.next w'
            × IsLive k laws w.outer.next w'
            × ((w'.objs w.outer.next).clientsock ≡ client_socket fd ip port)
            × ((g : ℕ) → fd ≢ g → find g w'.outer.conns ≡ find g w.outer.conns))
  newconnection-Consistent u fd ip port now w quiet pos c =
      elim (create_conn-cases k laws (loop_of fd w) fd ip port now
        (w.loops (loop_of fd w)).kernel) [
          | inl no_room ↦ inl (newconnection-exits u fd ip port now w pos no_room)
          | inr (s, made, live, others) ↦
              let n = new_conn (loop_of fd w) fd ip port now in
              inr (
                joined fd n s w,
                newconnection-eq u fd ip port now w s pos made ∙ quiet (joined fd n s w),
                joined-Consistent fd ip port now s w c,
                find-insert_same fd w.outer.next w.outer.conns,
                new-Holds fd ip port now s w,
                rw (new_at fd ip port now s w, kernel_at fd n s w) live,
                rw (new_at fd ip port now s w) refl,
                λ g other. find-insert_other g fd w.outer.next w.outer.conns other,
              )
        ]
