-- ===== src/EchoServer/Reach/Ticks.antt =====
-- The timer of a loop in a server of many clients.
use reactor_server.Base.{ℕ, ◌≤◌, ◌≡◌, refl, some, [], ◌∷◌, ok, arith}
use reactor_server.Connection.Defs.{Answers}
use reactor_server.EchoServer.Defs.{State, callbacks}
use reactor_server.EchoServer.Reach.Steps.{runs, Reach, rounds}
use reactor_server.Epoll.Defs.{returned}
use reactor_server.Epoll.Kernel.{Kernel, Laws}
use reactor_server.EventLoop.Dispatch.{ticking, round-handletimer}
use reactor_server.EventLoop.Run.{Source, timer}
use reactor_server.EventLoop.Timer.{handletimer-keeps}
use reactor_server.TcpServer.Create.{timercallback}
use reactor_server.TcpServer.Defs.{handlers, epolltimeout}
use reactor_server.World.{put_loop-at}

module _ (k : Kernel) (laws : Laws k) where
  open laws use {armed, watched}

  -- In every state that an echo server reaches from some other, however long its clients have been
  -- idle and whatever the clock says, the round in which the timerfd of one of its loops is readable returns, and what
  -- it returns is reachable again: all connections are as they were, none leaves the map of a loop,
  -- nor that of the server, what the loop's epoll watches is as before, and the timer is to go off
  -- again after the loop's interval.
  pub Reach-timer :
      (x w : State k) (io l : ℕ) (a : Source → Answers)
      → Reach k laws x w
      → l ≤ w.outer.threadnum
      → (v : State k) × (runs k laws io l a (returned ((timer, 1) ∷ [])) w ≡ ok v)
        × (v.objs ≡ w.objs)
        × (v.outer ≡ w.outer)
        × ((m : ℕ) → (v.loops m).conns ≡ (w.loops m).conns)
        × ((j : ℕ) → watched (v.loops l).kernel j ≡ watched (w.loops l).kernel j)
        × (armed (v.loops l).kernel ≡ (w.loops l).timetvl)
        × Reach k laws x v
  Reach-timer x w io l a r le =
      let h = handlers (callbacks io) in
      let tick = some (epolltimeout (callbacks io)) in
      let w₁ = ticking l w in
      let c = record (w.loops l) {
        timerchannel = record (w.loops l).timerchannel { revents = 1 };
      } in
      let at = put_loop-at l c w in
      let (s, done, again, waits, keeps) =
        handletimer-keeps laws (timercallback l) ((a timer).clock 0) l w₁ in
      let at₁ = put_loop-at l (record (w₁.loops l) { kernel = s }) w₁ in
      let returns = round-handletimer h (timercallback l) tick a l w _ done in
      (
        _,
        returns,
        refl,
        refl,
        λ m. ground arith,
        λ j. rw (at₁, keeps j, at) refl,
        rw (at₁, again, at) refl,
        Reach.step r (rounds io l a ((timer, 1) ∷ []) _ le tt returns),
      )
