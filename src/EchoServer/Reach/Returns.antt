-- ===== src/EchoServer/Reach/Returns.antt =====
-- In a reachable state of a server of many clients, the events of one client do not fail.
use reactor_server.Base.{
  inl, inr, ◌⊎◌, Outcome, fault, killed, ℕ, ◌≤◌, ◌<◌, ◌≡◌, refl, ap, some, List, [], ◌∷◌, ok,
}
use reactor_server.Channel.State.{setrevents}
use reactor_server.Connection.Defs.{broken_pipe, Answers, handle}
use reactor_server.EchoServer.Defs.{Echo, State as Server, callbacks}
use reactor_server.EchoServer.Reach.Events.{IsOpen-Goes, handle-Handled}
use reactor_server.EchoServer.Reach.Handles.{HasEnd, Breaks, handle-returns}
use reactor_server.EchoServer.Reach.Rounds.{
  sources, AllOpen, AllOpen-Goes, AllOpen-Handled, noted-Goes, collect-Goes,
}
use reactor_server.EchoServer.Reach.Sound.{Inv}
use reactor_server.EchoServer.Reach.Steps.{
  runs, IsReported, Reach, Step, rounds, AllReported, reported-IsOpen, reported-AllOpen, new_echo,
  Reach-Inv, Reach-workers,
}
use reactor_server.EchoServer.Reach.Reads.{Ends}
use reactor_server.Epoll.Defs.{returned, collect, loop}
use reactor_server.Epoll.Kernel.{Kernel, Laws}
use reactor_server.EventLoop.Run.{Source, client, put_revents, handle_source, handle_all, round}
use reactor_server.InetAddress.{Inet, InetLaws}
use reactor_server.Socket.Net.{Net, NetLaws}
use reactor_server.TcpServer.Create as TcpServer
use reactor_server.TcpServer.Create.{timercallback}
use reactor_server.TcpServer.Defs.{Tcp, handlers, epolltimeout}
use reactor_server.TcpServer.Ready.{IsUp}
use reactor_server.World.{Conn, Call, put_conn, put_conn-at}

-- Events of clients only.
abbrev pub of_clients : List (ℕ × ℕ) → List (Source × ℕ)
of_clients [] = []
of_clients ((p, ev) ∷ events) = (client p, ev) ∷ of_clients events

-- For each of them the answers of `read` come to an end.
abbrev pub AllAnswered : (Source → Answers) → List (ℕ × ℕ) → Type 0
AllAnswered a [] = Unit
AllAnswered a ((p, ev) ∷ events) =
    (2 ≤ (a (client p)).fuel) × Ends (a (client p)).reads × AllAnswered a events

-- The peer of one of them reads no more, and `send` is told so.
abbrev pub AnyBroken : (Source → Answers) → List (ℕ × ℕ) → Type 0
AnyBroken a [] = ⊥
AnyBroken a ((p, ev) ∷ events) = ((a (client p)).answer ≡ broken_pipe) ⊎ AnyBroken a events

module _ (k : Kernel) (laws : Laws k) where
  round-handle :
      (io l p ev : ℕ) (a : Source → Answers) (cb idle : Call k (Tcp Echo)) (w : Server k)
      (o : Outcome (Server k))
      → handle
          (handlers (callbacks io))
          (a (client p))
          p
          (put_conn p (record (w.objs p) { channel = setrevents (w.objs p).channel ev }) w)
        ≡ o
      → round (handlers (callbacks io)) cb idle a l (returned ((client p, ev) ∷ [])) w ≡ o
  unfolding round loop collect handle_all handle_source put_revents
  round-handle io l p ev a cb idle w (ok v) e = rw e refl
  round-handle io l p ev a cb idle w (fault f) e = rw e refl

  round-returns :
      (io l p ev : ℕ) (a : Source → Answers) (w : Server k)
      → Inv k laws w
      → l ≤ w.outer.threadnum
      → IsReported k laws l p w
      → HasEnd k laws ev (a (client p)) w.outer.user.workers
      → let r = runs k laws io l a (returned ((client p, ev) ∷ [])) w in
        ((v : Server k) × (r ≡ ok v) × Step k laws w v)
        ⊎ (Breaks k laws ev (a (client p)) × (r ≡ fault killed))
  unfolding setrevents
  round-returns io l p ev a w inv le reported has_end =
      let o = reported-IsOpen k laws l p w inv reported in
      let c : Conn = record (w.objs p) { channel = setrevents (w.objs p).channel ev } in
      let x = put_conn p c w in
      let g = noted-Goes k laws p ev w inv o in
      let cb = timercallback l in
      let tick = some (epolltimeout (callbacks io)) in
      elim (handle-returns k laws io (a (client p)) p ev x g.inv (IsOpen-Goes k laws p w x o g)
        (ap (λ (d : Conn). d.channel.revents) (put_conn-at p c w)) has_end) [
          | inl (v, done) ↦
              let returns = round-handle io l p ev a cb tick w (ok v) done in
              inl (v, returns, rounds io l a ((client p, ev) ∷ []) v le (reported, tt, tt) returns)
          | inr (breaks, ends) ↦
              inr (breaks, round-handle io l p ev a cb tick w (fault killed) ends)
        ]

  handle_all-returns :
      (io l : ℕ) (a : Source → Answers) (cb idle : Call k (Tcp Echo)) (events : List (ℕ × ℕ))
      (w : Server k)
      → Inv k laws w
      → 0 < w.outer.user.workers
      → AllOpen k laws (sources (of_clients events)) w
      → AllAnswered a events
      → let r = handle_all (handlers (callbacks io)) cb idle a l (sources (of_clients events)) w in
        ((v : Server k) × (r ≡ ok v)) ⊎ (AnyBroken a events × (r ≡ fault killed))
  unfolding handle_all handle_source
  handle_all-returns io l a cb idle [] w inv pos o h = inl (w, refl)
  handle_all-returns io l a cb idle ((p, ev) ∷ events) w inv pos o h =
      elim (handle-returns k laws io (a (client p)) p (w.objs p).channel.revents w inv (o.0) refl
        (inr (inr (pos, h.0, h.1)))) [
          | inr (breaks, ends) ↦ inr (inl (breaks.3), rw ends refl)
          | inl (u, done) ↦
              let g = handle-Handled k laws io (a (client p)) p w u inv (o.0) done in
              elim (handle_all-returns io l a cb idle events u g.inv (rw (g.same_workers) pos)
                (AllOpen-Handled k laws p (sources (of_clients events)) w u g (o.1) o.2) h.2) [
                  | inl (v, rest) ↦ inl (v, rw done rest)
                  | inr (breaks, ends) ↦ inr (inr breaks, rw done ends)
                ]
        ]

  rounds-return :
      (io l : ℕ) (a : Source → Answers) (events : List (ℕ × ℕ)) (w : Server k)
      → Inv k laws w
      → l ≤ w.outer.threadnum
      → 0 < w.outer.user.workers
      → AllOpen k laws (sources (of_clients events)) w
      → AllAnswered a events
      → let r = runs k laws io l a (returned (of_clients events)) w in
        ((v : Server k) × (r ≡ ok v)) ⊎ (AnyBroken a events × (r ≡ fault killed))
  unfolding round loop collect epolltimeout callbacks
  rounds-return io l a [] w inv le pos o h = inl (w, refl)
  rounds-return io l a ((p, ev) ∷ events) w inv le pos o h =
      let es = of_clients ((p, ev) ∷ events) in
      let (g, same) = collect-Goes k laws l es w inv le o in
      elim (handle_all-returns io l a (timercallback l) (some (epolltimeout (callbacks io)))
        ((p, ev) ∷ events) (collect (put_revents l) es w).0 g.inv (rw (g.same_workers) pos)
        (AllOpen-Goes k laws (sources es) w _ g o) h) [
          | inl (v, done) ↦ inl (v, rw same done)
          | inr (breaks, ends) ↦ inr (breaks, rw same ends)
        ]

module _ (n : Net) (net_laws : NetLaws n) (i : Inet) (inet_laws : InetLaws i) (k : Kernel)
    (laws : Laws k) where
  -- In every state that an echo server with at least one sub loop reaches from its construction, by
  -- whatever steps, a loop's round with one event of a client, reported by its epoll. The event is the
  -- end of the peer, or brings nothing to read, or the server has workers and the answers of `read`
  -- come to an end, with two units of fuel. Then the round returns, and what it returns is reachable
  -- again, with one exception: the loop's thread sends, to a peer that reads no more, and SIGPIPE
  -- ends the process. No bytes that a client sends, neither its end, nor another error, nor a
  -- writable socket, however much it takes, do so.
  pub Reach-round :
      (a p threadnum workers : ℕ) (x : TcpServer.Server n k Echo) (w : Server k) (io l q ev : ℕ)
      (answers : Source → Answers)
      → IsUp n net_laws i inet_laws k laws a p x
      → x.world.outer ≡ new_echo n net_laws i inet_laws k laws threadnum workers
      → 0 < threadnum
      → Reach k laws x.world w
      → l ≤ w.outer.threadnum
      → IsReported k laws l q w
      → HasEnd k laws ev (answers (client q)) workers
      → let r = runs k laws io l answers (returned ((client q, ev) ∷ [])) w in
        ((v : Server k) × (r ≡ ok v) × Reach k laws x.world v)
        ⊎ (Breaks k laws ev (answers (client q)) × (r ≡ fault killed))
  Reach-round a p threadnum workers x w io l q ev answers up e pos r le reported has_end =
      let inv = Reach-Inv n net_laws i inet_laws k laws a p threadnum workers x w up e pos r in
      let crew = Reach-workers n net_laws i inet_laws k laws a p threadnum workers x w up e pos r in
      elim (round-returns k laws io l q ev answers w inv le reported (rw crew has_end)) [
        | inl (v, returns, s) ↦ inl (v, returns, Reach.step r s)
        | inr broken ↦ inr broken
      ]

  -- In every state that an echo server with at least one sub loop and at least one worker reaches
  -- from its construction, by whatever steps, a loop's round with any number of events of clients,
  -- each reported by its epoll, none twice, for each of which the answers of `read` come to an end,
  -- with two units of fuel. The round returns, and what it returns is reachable again; or SIGPIPE ends
  -- the process, and `send` was answered for one of the clients that its peer reads no more. No
  -- mixture of input, ends, other errors and writable sockets ends the process.
  pub Reach-round-of_clients :
      (a p threadnum workers : ℕ) (x : TcpServer.Server n k Echo) (w : Server k) (io l : ℕ)
      (answers : Source → Answers) (events : List (ℕ × ℕ))
      → IsUp n net_laws i inet_laws k laws a p x
      → x.world.outer ≡ new_echo n net_laws i inet_laws k laws threadnum workers
      → 0 < threadnum
      → 0 < workers
      → Reach k laws x.world w
      → l ≤ w.outer.threadnum
      → AllReported k laws l (sources (of_clients events)) w
      → AllAnswered answers events
      → let r = runs k laws io l answers (returned (of_clients events)) w in
        ((v : Server k) × (r ≡ ok v) × Reach k laws x.world v)
        ⊎ (AnyBroken answers events × (r ≡ fault killed))
  Reach-round-of_clients a p threadnum workers x w io l answers events up e pos some_ r le reported
        answered =
      let inv = Reach-Inv n net_laws i inet_laws k laws a p threadnum workers x w up e pos r in
      let crew = Reach-workers n net_laws i inet_laws k laws a p threadnum workers x w up e pos r in
      elim (rounds-return k laws io l answers events w inv le (rw crew some_)
        (reported-AllOpen k laws l (sources (of_clients events)) w inv reported) answered) [
          | inl (v, returns) ↦ inl (
            v,
            returns,
            Reach.step r (rounds io l answers (of_clients events) v le reported returns),
          )
          | inr broken ↦ inr broken
        ]
