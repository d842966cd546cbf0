-- ===== src/EchoServer/Reach/Steps.antt =====
-- The steps of a running echo server, and what holds in every state that they reach.
use reactor_server.Base.{
  ℕ, zero, suc, ◌≤◌, ◌<◌, ◌≡◌, refl, sym, ap, ◌∙◌, inl, inr, Bool-cases, none, some, List, [], ◌∷◌,
  Outcome, ok, find, arith,
}
use reactor_server.Connection.Defs.{Answers}
use reactor_server.EchoServer.Defs.{Echo, State, callbacks, work}
use reactor_server.EchoServer.Main.{stop}
use reactor_server.EchoServer.Reach.Accepts.{IsFree, newconnection-Inv, newconnection-at}
use reactor_server.EchoServer.Reach.Events.{IsOpen}
use reactor_server.EchoServer.Reach.Moves.{Goes, stays, then-Goes, loop-Goes}
use reactor_server.EchoServer.Reach.Rounds.{sources, IsAbsent, AllOpen, round-Inv}
use reactor_server.EchoServer.Reach.Sends.{work-Goes}
use reactor_server.EchoServer.Reach.Sound.{AllBelow, Inv}
use reactor_server.Epoll.Defs.{Wait, returned}
use reactor_server.Epoll.Kernel.{Kernel, Laws}
use reactor_server.EventLoop.Defs.{wakeup}
use reactor_server.EventLoop.Defs as EventLoop
use reactor_server.EventLoop.Run.{Source, wake, timer, client, round}
use reactor_server.InetAddress.{Inet, InetLaws}
use reactor_server.Socket.Net.{Net, NetLaws}
use reactor_server.TcpServer.Accept.{client_socket}
use reactor_server.TcpServer.Create.{Server, timercallback}
use reactor_server.TcpServer.Defs.{
  Tcp, handlers, epolltimeout, newconnection, stop_loops, stop_subloops,
}
use reactor_server.TcpServer.Ready.{IsUp, new_tcp}
use reactor_server.World.{put_loop}

nobody_found : (fd q : ℕ) → find fd [] ≡ some q → ⊥
unfolding find
nobody_found fd q h = ground (arith, h)

module _ (k : Kernel) (laws : Laws k) where
  open laws use {watched}

  -- A client that `epoll_wait` may report to the loop `l`: its epoll watches the client's descriptor.
  pub record IsReported (l p : ℕ) (w : State k) : Type 0 where
    pub made : p < w.outer.next
    pub at_loop : (w.objs p).loop ≡ l
    pub interest : ℕ
    pub listed : watched (w.loops l).kernel (w.objs p).channel.fd ≡ some interest

  -- The events of one `epoll_wait`: no descriptor comes twice.
  abbrev pub AllReported : ℕ → List Source → State k → Type 0
  AllReported l [] w = Unit
  AllReported l (client p ∷ srcs) w = IsReported l p w × IsAbsent p srcs × AllReported l srcs w
  AllReported l (src ∷ srcs) w = AllReported l srcs w

  -- One step: a client is accepted; a loop of the server makes a round with some events, on the
  -- thread `io`; a worker runs a task; the server is told to stop.
  pub data Step (w : State k) : State k → Type 0 where
    accepts :
        (io fd port now : ℕ) (ip : List ℕ) (w' : State k)
        → IsFree k laws fd w
        → newconnection (callbacks io) (client_socket fd ip port) now w ≡ ok w'
        → Step w w'
    rounds :
        (io l : ℕ) (a : Source → Answers) (events : List (Source × ℕ)) (w' : State k)
        → l ≤ w.outer.threadnum
        → AllReported l (sources events) w
        → round
            (handlers (callbacks io))
            (timercallback l)
            (some (epolltimeout (callbacks io)))
            a
            l
            (returned events)
            w
          ≡ ok w'
        → Step w w'
    works :
        (j thread : ℕ) (w' : State k)
        → j < w.outer.user.workers
        → work j thread w ≡ ok w'
        → Step w w'
    stops : Step w (stop w)

  pub data Reach (w₀ : State k) : State k → Type 0 where
    here : Reach w₀ w₀
    step : {w w' : State k} → Reach w₀ w → Step w w' → Reach w₀ w'

  pub reported-IsOpen :
      (l p : ℕ) (w : State k) → Inv k laws w → IsReported l p w → IsOpen k laws p w
  reported-IsOpen l p w inv r = elim (Bool-cases (w.objs p).disconnect) [
    | inr is_open ↦ record { made = r.made; is_open = is_open }
    | inl closed ↦
        let gone : watched (w.loops l).kernel (w.objs p).channel.fd ≡ none =
          rw (← r.at_loop) (((inv.sound p r.made).shut closed).unlisted) in
        absurd (listed_once (sym gone ∙ r.listed))
  ]
    where
      listed_once : {e : ℕ} → none ≡ some e → ⊥
      listed_once h = ground (arith, h)

  pub reported-AllOpen :
      (l : ℕ) (srcs : List Source) (w : State k)
      → Inv k laws w
      → AllReported l srcs w
      → AllOpen k laws srcs w
  reported-AllOpen l [] w inv h = tt
  reported-AllOpen l (wake ∷ srcs) w inv h = reported-AllOpen l srcs w inv h
  reported-AllOpen l (timer ∷ srcs) w inv h = reported-AllOpen l srcs w inv h
  reported-AllOpen l (client p ∷ srcs) w inv h =
      (reported-IsOpen l p w inv (h.0), h.1, reported-AllOpen l srcs w inv h.2)

  stop_loop-Goes :
      (l : ℕ) (w : State k)
      → Inv k laws w
      → l ≤ w.outer.threadnum
      → Goes k laws w (put_loop l (EventLoop.stop (w.loops l)) w)
  unfolding EventLoop.stop wakeup
  stop_loop-Goes l w inv le =
      loop-Goes k laws l (EventLoop.stop (w.loops l)) w inv refl
        (λ j. laws.write_watched j (w.loops l).kernel) (inv.queues l le)

  stop_subloops-Goes :
      (m : ℕ) (w : State k)
      → Inv k laws w
      → m ≤ w.outer.threadnum
      → Goes k laws w (stop_subloops m w)
  unfolding stop_subloops
  stop_subloops-Goes zero w inv le = stays k laws w inv
  stop_subloops-Goes (suc m) w inv le =
      let g = stop_subloops-Goes m w inv (omega (arith, le)) in
      then-Goes k laws g
        (stop_loop-Goes (suc m) (stop_subloops m w) g.inv (rw (g.same_threadnum) le))

  stop-Goes : (w : State k) → Inv k laws w → Goes k laws w (stop w)
  unfolding stop stop_loops
  stop-Goes w inv =
      let g = stop_loop-Goes 0 w inv (omega arith) in
      then-Goes k laws g (stop_subloops-Goes w.outer.threadnum _ g.inv (omega arith))

  -- No step changes the number of workers.
  Step-Inv :
      (w w' : State k)
      → Inv k laws w
      → Step w w'
      → Inv k laws w' × (w'.outer.user.workers ≡ w.outer.user.workers)
  Step-Inv w w' inv (accepts io fd port now ip _ free e) = (
    newconnection-Inv k laws io fd ip port now w w' inv free e,
    (newconnection-at k laws io fd ip port now w w' inv e).2,
  )
  Step-Inv w w' inv (rounds io l a events _ le reported e) =
      round-Inv k laws io l a (timercallback l) events w w' inv le
        (reported-AllOpen l (sources events) w inv reported) e
  Step-Inv w w' inv (works j thread _ few e) =
      let g = work-Goes k laws j thread w w' inv e in (g.inv, g.same_workers)
  Step-Inv w _ inv stops = let g = stop-Goes w inv in (g.inv, g.same_workers)

  pub From-Inv :
      (w₀ w : State k)
      → Inv k laws w₀
      → Reach w₀ w
      → Inv k laws w × (w.outer.user.workers ≡ w₀.outer.user.workers)
  From-Inv w₀ _ inv here = (inv, refl)
  From-Inv w₀ _ inv (step {w = w} {w'} r s) =
      let (inv', same) = From-Inv w₀ w inv r in
      let (inv'', same') = Step-Inv w w' inv' s in (inv'', same' ∙ same)

  -- The rounds of a loop of the server.
  abbrev pub runs : ℕ → ℕ → (Source → Answers) → Wait Source → State k → Outcome (State k)
  runs io l a =
      round (handlers (callbacks io)) (timercallback l) (some (epolltimeout (callbacks io))) a l

module _ (n : Net) (net_laws : NetLaws n) (i : Inet) (inet_laws : InetLaws i) (k : Kernel)
    (laws : Laws k) where
  -- A server that was just made.
  abbrev pub new_echo : ℕ → ℕ → Tcp Echo
  new_echo threadnum workers = new_tcp threadnum (record { workers = workers; tasks = [] })

  pub new-Inv :
      (a p threadnum workers : ℕ) (x : Server n k Echo)
      → IsUp n net_laws i inet_laws k laws a p x
      → x.world.outer ≡ new_echo threadnum workers
      → 0 < threadnum
      → Inv k laws x.world
  new-Inv a p threadnum workers x up e pos = record {
    threads = rw e pos;
    sound = λ q lt. absurd (none_below q (rw e at lt));
    map = λ fd q found. absurd (nobody_found fd q (rw (up.nobody) at found));
    queues = λ m le. all_idle m le;
    works = rw e tt;
  }
    where
      none_below : (q : ℕ) → q < 0 → ⊥
      none_below q lt = omega (arith, lt)

      all_idle :
          (m : ℕ)
          → m ≤ x.world.outer.threadnum
          → AllBelow x.world.outer.next (x.world.loops m).taskqueue
      all_idle zero le = rw (up.main.idle) tt
      all_idle (suc m) le = rw ((up.subs (suc m) (omega arith) le).idle) tt

  -- An echo server was constructed, with some number of sub loops that is not 0, and of workers. By
  -- whatever steps it goes on, with any number of clients and of events in a round, and in any
  -- order, the parts agree on every connection that was ever made: it belongs to the loop of its
  -- descriptor and stands in that loop's map for ever; as long as it is open, its loop's epoll
  -- watches it, for the events that its channel has, and the server's map has it; when it is closed
  -- its descriptor is off the epoll. The server's map has no other entries, and every task that
  -- waits, in a loop or for a worker, is for a connection that was made.
  pub Reach-Inv :
      (a p threadnum workers : ℕ) (x : Server n k Echo) (w : State k)
      → IsUp n net_laws i inet_laws k laws a p x
      → x.world.outer ≡ new_echo threadnum workers
      → 0 < threadnum
      → Reach k laws x.world w
      → Inv k laws w
  Reach-Inv a p threadnum workers x w up e pos r =
      (From-Inv k laws x.world w (new-Inv a p threadnum workers x up e pos) r).0

  -- A server keeps its workers.
  pub Reach-workers :
      (a p threadnum workers : ℕ) (x : Server n k Echo) (w : State k)
      → IsUp n net_laws i inet_laws k laws a p x
      → x.world.outer ≡ new_echo threadnum workers
      → 0 < threadnum
      → Reach k laws x.world w
      → w.outer.user.workers ≡ workers
  Reach-workers a p threadnum workers x w up e pos r =
      (From-Inv k laws x.world w (new-Inv a p threadnum workers x up e pos) r).1
      ∙ ap (λ (o : Tcp Echo). o.user.workers) e
